-- ===== src/Trace/Versions.antt =====
-- internal/scenario/store.go: stored versions never change, and two writers of one version collide.
use x_mock_mcp.Prelude.Int.{+ℤ_parts, ltb_ℤ, pos, pos_part, ℤ, ◌+ℤ◌}
use x_mock_mcp.Prelude.{
  ◌+◌, ap, eq_refl, length-append, lookup-insert, subst, text_cases, ◌-◌, ◌||◌, ◌∙◌, String, none,
  Bool-cases, Option-cases, inl, inr, nat_eq, List, [], arith, false, get_elem?, insert, length,
  lookup, refl, some, suc, true, zero, ℕ, ◌++◌, ◌∷◌, ◌≡◌,
}
use x_mock_mcp.Api.{Failure, Result, err, ok}
use x_mock_mcp.Trace.Documents.{
  nth, get, refuses_put, Faults, put, put_locked, Store, Document, documents, valid_id,
}

get_elem?-keeps :
    (ds : List Document) (d : Document) (i : ℕ) (x : Document)
    → get_elem? ds i ≡ some x
    → get_elem? (ds ++ (d ∷ [])) i ≡ some x
get_elem?-keeps [] d i x h = absurd (ground arith)
get_elem?-keeps (y ∷ ds) d zero x h = h
get_elem?-keeps (y ∷ ds) d (suc i) x h = get_elem?-keeps ds d i x h

get_elem?-last :
    (ds : List Document) (d : Document) → get_elem? (ds ++ (d ∷ [])) (length ds) ≡ some d
get_elem?-last [] d = refl
get_elem?-last (y ∷ ds) d = get_elem?-last ds d

abbrev ok_or {ℓ} : {A : Type ℓ} → A → Result A → A
ok_or a (ok b) = b
ok_or a (err e) = a

nth_ok :
    (ds : List Document) (version : ℤ) (x : Document)
    → nth ds version ≡ ok x
    → ((ltb_ℤ version (pos 1) || ltb_ℤ (pos (length ds)) version) ≡ false)
      × (get_elem? ds (pos_part version - 1) ≡ some x)
unfolding nth
nth_ok ds version x = elim (Bool-cases (ltb_ℤ version (pos 1) || ltb_ℤ (pos (length ds)) version)) [
  | inl out_of_range ↦ rw (nth, out_of_range) (λ h. absurd (ground arith))
  | inr in_range_ ↦ elim (Option-cases (get_elem? ds (pos_part version - 1))) [
    | inl absent ↦ rw (nth, in_range_, absent) (λ h. absurd (ground arith))
    | inr (y, found) ↦ rw (nth, in_range_, found) (λ h. (refl, ap (λ o. some (ok_or y o)) h))
  ]
]

nth-found :
    (ds : List Document) (version : ℤ) (x : Document)
    → (ltb_ℤ version (pos 1) || ltb_ℤ (pos (length ds)) version) ≡ false
    → get_elem? ds (pos_part version - 1) ≡ some x
    → nth ds version ≡ ok x
unfolding nth
nth-found ds version x range_ found = rw (nth, range_, found) refl

wider :
    (ds : List Document) (d : Document) (version : ℤ)
    → (ltb_ℤ version (pos 1) || ltb_ℤ (pos (length ds)) version) ≡ false
    → (ltb_ℤ version (pos 1) || ltb_ℤ (pos (length (ds ++ (d ∷ [])))) version) ≡ false
wider ds d version h = ground (arith, length-append ds (d ∷ []))

nth-keeps :
    (ds : List Document) (d : Document) (version : ℤ) (x : Document)
    → nth ds version ≡ ok x
    → nth (ds ++ (d ∷ [])) version ≡ ok x
nth-keeps ds d version x h =
    let (range_, found) = nth_ok ds version x h in
    nth-found (ds ++ (d ∷ [])) version x (wider ds d version range_)
      (get_elem?-keeps ds d (pos_part version - 1) x found)

get_valid :
    (id : String) (version : ℤ) (s : Store)
    → valid_id id ≡ true
    → get none id version s ≡ nth (documents (lookup id s)) version
unfolding get
get_valid id version s valid = rw (get, valid) refl

-- What Put leaves: the store as it was, or one more version of the document.
pub data Stored (stored_form : Document → Document) (d : Document) (expected : ℤ) (s : Store)
    : Store × Result Document → Type 0 where
  unchanged : (e : Failure) → Stored stored_form d expected s (s, err e)
  appended :
      (out : Document)
      → valid_id d.id ≡ true
      → out.version ≡ expected +ℤ pos 1
      → length (documents (lookup d.id s)) ≡ pos_part expected
      → ltb_ℤ expected (pos 0) ≡ false
      → Stored stored_form d expected s
          (insert d.id (documents (lookup d.id s) ++ (stored_form out ∷ [])) s, ok out)

put_locked-Stored :
    (stored_form : Document → Document) (f : Faults) (d out : Document) (expected : ℤ) (s : Store)
    → valid_id d.id ≡ true
    → ltb_ℤ expected (pos 0) ≡ false
    → out.version ≡ expected +ℤ pos 1
    → Stored stored_form d expected s (put_locked stored_form f d.id out (pos_part expected) s)
unfolding put_locked
put_locked-Stored stored_form f d out expected s valid natural numbered =
    elim (Option-cases f.opening) [
      | inr (e, bad) ↦ rw (put_locked, bad) (unchanged e)
      | inl fine ↦
          elim (Bool-cases (nat_eq (length (documents (lookup d.id s))) (pos_part expected))) [
            | inr differs ↦ rw (put_locked, fine, differs) (unchanged _)
            | inl same ↦ elim (Option-cases f.saving) [
              | inr (e, bad) ↦ rw (put_locked, fine, same, bad) (unchanged e)
              | inl saved ↦
                  rw (put_locked, fine, same, saved)
                    (appended out valid numbered (ground arith) natural)
            ]
          ]
    ]

refuses_put-none :
    (d : Document) (expected : ℤ)
    → refuses_put d expected ≡ none
    → (valid_id d.id ≡ true) × (ltb_ℤ expected (pos 0) ≡ false)
unfolding refuses_put
refuses_put-none d expected = elim (Bool-cases (valid_id d.id)) [
  | inr e ↦ rw (refuses_put, e) (λ h. absurd (ground arith))
  | inl e ↦ elim (Bool-cases (ltb_ℤ expected (pos 0))) [
    | inl negative ↦ rw (refuses_put, e, negative) (λ h. absurd (ground arith))
    | inr natural ↦ (λ h. (e, natural))
  ]
]

put-Stored :
    (stored_form : Document → Document) (check : Document → Result Document) (f : Faults)
    (d : Document) (expected : ℤ) (s : Store)
    → Stored stored_form d expected s (put stored_form check f d expected s)
unfolding put
put-Stored stored_form check f d expected s = elim (Option-cases (refuses_put d expected)) [
  | inr (e, bad) ↦ rw (put, bad) (unchanged e)
  | inl fine ↦ rw (put, fine) (checked fine (check d))
]
  where
    checked :
        refuses_put d expected ≡ none
        → (o : Result Document)
        → Stored stored_form d expected s (elim o [
          | err e ↦ (s, err e)
          | ok x ↦
              put_locked stored_form f d.id
                (record x { version = expected +ℤ pos 1 })
                (pos_part expected)
                s
        ])
    checked fine (err e) = unchanged e
    checked fine (ok x) =
        let (valid, natural) = refuses_put-none d expected fine in
        put_locked-Stored stored_form f d _ expected s valid natural refl

-- Whatever Put does, a version that Get finds is found again, with the same contents.
pub put-keeps_versions :
    (stored_form : Document → Document) (check : Document → Result Document) (f : Faults)
    (d : Document) (expected : ℤ) (s : Store) (id : String) (version : ℤ) (x : Document)
    → get none id version s ≡ ok x
    → get none id version (put stored_form check f d expected s).0 ≡ ok x
unfolding get
put-keeps_versions stored_form check f d expected s id version x =
    go _ (put-Stored stored_form check f d expected s)
  where
    go :
        (out : Store × Result Document)
        → Stored stored_form d expected s out
        → get none id version s ≡ ok x
        → get none id version out.0 ≡ ok x
    go _ (unchanged e) = λ h. h
    go _ (appended out valid numbered at natural) = elim (text_cases d.id id) [
      | inl (e, same) ↦
          subst
            (λ (j : String).
              get none j version s ≡ ok x
              → get none j version
                  (insert d.id (documents (lookup d.id s) ++ (stored_form out ∷ [])) s)
                ≡ ok x)
            same
            (rw
              (
                get_valid d.id version s valid,
                get_valid d.id version
                    (insert d.id (documents (lookup d.id s) ++ (stored_form out ∷ [])) s) valid,
                lookup-insert,
                eq_refl,
              )
              (nth-keeps (documents (lookup d.id s)) (stored_form out) version x))
      | inr (e, differs) ↦ rw (get, get, lookup-insert, e) (λ h. h)
    ]

last_index :
    (expected : ℤ) (ds : List Document)
    → length ds ≡ pos_part expected
    → ltb_ℤ expected (pos 0) ≡ false
    → pos_part (expected +ℤ pos 1) - 1 ≡ length ds
last_index expected ds at natural = ground (arith, +ℤ_parts expected (pos 1))

-- Where Put gives a version, Get gives that version for the next number, in the form that decoding
-- makes of what Put encodes.
pub put-get :
    (stored_form : Document → Document) (check : Document → Result Document) (f : Faults)
    (d out : Document) (expected : ℤ) (s : Store)
    → (put stored_form check f d expected s).1 ≡ ok out
    → get none d.id (expected +ℤ pos 1) (put stored_form check f d expected s).0
      ≡ ok (stored_form out)
put-get stored_form check f d out expected s = go _ (put-Stored stored_form check f d expected s)
  where
    go :
        (o : Store × Result Document)
        → Stored stored_form d expected s o
        → o.1 ≡ ok out
        → get none d.id (expected +ℤ pos 1) o.0 ≡ ok (stored_form out)
    go _ (unchanged e) h = absurd (ground arith)
    go _ (appended out' valid numbered at natural) h =
        rw
          (
            get_valid d.id (expected +ℤ pos 1)
                (insert d.id (documents (lookup d.id s) ++ (stored_form out' ∷ [])) s) valid,
            lookup-insert,
            eq_refl,
          )
          (nth-found _ (expected +ℤ pos 1) (stored_form out)
            (ground (
              arith,
              length-append (documents (lookup d.id s)) (stored_form out' ∷ []),
              +ℤ_parts expected (pos 1),
            ))
            (rw (last_index expected (documents (lookup d.id s)) at natural) (
              get_elem?-last (documents (lookup d.id s)) (stored_form out')
              ∙ ap (λ o. some (stored_form (ok_or out' o))) h)))

-- Once a writer has succeeded, another one that expects the same version of the document fails.
pub put-conflict :
    (stored_form : Document → Document) (check check' : Document → Result Document) (f f' : Faults)
    (d d' out : Document) (expected : ℤ) (s : Store)
    → d'.id ≡ d.id
    → (put stored_form check f d expected s).1 ≡ ok out
    → (e : Failure) × ((put stored_form check' f' d' expected
          (put stored_form check f d expected s).0).1
        ≡ err e)
put-conflict stored_form check check' f f' d d' out expected s same =
    go _ (put-Stored stored_form check f d expected s)
  where
    longer :
        (o : Document)
        → length (
            documents
              (lookup d'.id (insert d.id (documents (lookup d.id s) ++ (stored_form o ∷ [])) s)))
          ≡ length (documents (lookup d.id s)) + 1
    longer o =
        rw (same, lookup-insert, eq_refl)
          (omega (arith, length-append (documents (lookup d.id s)) (stored_form o ∷ [])))

    again :
        (s' : Store)
        → length (documents (lookup d'.id s')) ≡ pos_part expected + 1
        → (o : Store × Result Document) → Stored stored_form d' expected s' o
        → (e : Failure) × (o.1 ≡ err e)
    again s' grown _ (unchanged e) = (e, refl)
    again s' grown _ (appended out' valid numbered at natural) = absurd (omega (arith, at, grown))

    go :
        (o : Store × Result Document)
        → Stored stored_form d expected s o
        → o.1 ≡ ok out
        → (e : Failure) × ((put stored_form check' f' d' expected o.0).1 ≡ err e)
    go _ (unchanged e) h = absurd (ground arith)
    go _ (appended out' valid numbered at natural) h =
        again _ (omega (arith, longer out', at)) _ (put-Stored stored_form check' f' d' expected _)
