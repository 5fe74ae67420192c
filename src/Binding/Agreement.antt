-- ===== src/Binding/Agreement.antt =====
-- negotiate of internal/binding/manager.go: what it gives, and when it gives nothing.
use x_mock_mcp.Plugin.Descriptor.{has, Contract, Descriptor}
use x_mock_mcp.Prelude.Text.{before, insert_sorted, sort_strings}
use x_mock_mcp.Binding.Negotiate.{agree, agree_on, all_in, find_contract, negotiate, shared}
use x_mock_mcp.Prelude.Int.{eq_of_eqb_ℤ, eqb_ℤ, eqb_ℤ_refl, ℤ}
use x_mock_mcp.Api.{Result, contract_mismatch, err, fail, ok}
use x_mock_mcp.Prelude.{
  eq_iff, Bool, Bool-cases, List, Option, String, [], ap, arith, eq_refl, false, if_elim, inl, inr,
  none, refl, some, sym, true, ◌&&◌, ◌==◌, ◌||◌, ◌∙◌, ◌∷◌, ◌≡◌, ◌⊎◌, All, ◌≢◌, subst,
}

has-insert_sorted :
    (s : String) (l : List String) (v : String) → has (insert_sorted s l) v ≡ (s == v || has l v)
unfolding insert_sorted has
has-insert_sorted s [] v = refl
has-insert_sorted s (t ∷ l) v =
    if_elim (λ (x : List String). has x v ≡ (s == v || (t == v || has l v))) (before s t) _ _
      (λ h. refl) (λ h. rw (has-insert_sorted s l v) (swap (t == v) (s == v) (has l v)))
  where
    swap : (a b c : Bool) → (a || (b || c)) ≡ (b || (a || c))
    swap a b c = ground arith

-- Sorting keeps the elements.
has-sort_strings : (l : List String) (v : String) → has (sort_strings l) v ≡ has l v
unfolding sort_strings has
has-sort_strings [] v = refl
has-sort_strings (s ∷ l) v =
    has-insert_sorted s (sort_strings l) v ∙ ap (λ b. s == v || b) (has-sort_strings l v)

has_same : (l : List String) (c v : String) → (c == v) ≡ true → has l c ≡ has l v
has_same l c v h = ap (has l) ((eq_iff c v).0 h)

has-shared : (ls rs : List String) (v : String) → has (shared ls rs) v ≡ (has ls v && has rs v)
unfolding shared has
has-shared [] rs v = refl
has-shared (c ∷ cs) rs v =
    if_elim (λ (x : List String). has x v ≡ ((c == v || has cs v) && has rs v)) (has rs c) _ _
      (λ h. ground (arith, h, has-shared cs rs v, has_same rs c v))
      (λ h. ground (arith, h, has-shared cs rs v, has_same rs c v))

all_in-has :
    (ws caps : List String)
    → all_in ws caps ≡ true
    → (v : String) → has ws v ≡ true
    → has caps v ≡ true
unfolding all_in has
all_in-has [] caps h v g = absurd (ground (arith, g))
all_in-has (w ∷ ws) caps h v g =
    ground (arith, h, g, all_in-has ws caps (ground (arith, h)) v, has_same caps w v)

all_in_lacks :
    (ws caps : List String)
    → all_in ws caps ≡ false
    → (v : String) × (has ws v ≡ true) × (has caps v ≡ false)
unfolding all_in has
all_in_lacks [] caps h = absurd (ground (arith, h))
all_in_lacks (w ∷ ws) caps h = elim (Bool-cases (has caps w)) [
  | inr lacks ↦ (w, simp eq_refl refl, lacks)
  | inl there ↦
      let (v, wanted, lacks) = all_in_lacks ws caps (ground (arith, h, there)) in
      (v, ground (arith, wanted), lacks)
]

-- The contract is another one than the wanted.
abbrev pub Differs : Contract → Contract → Type 0
Differs want c = (c.id ≡ want.id) → c.version ≢ want.version

-- The last contract of a list that has the wanted name and version.
pub data Offers (want : Contract) : List Contract → Contract → Type 0 where
  last_of :
      (c : Contract) (cs : List Contract)
      → c.id ≡ want.id
      → c.version ≡ want.version
      → All (Differs want) cs
      → Offers want (c ∷ cs) c
  among : (d c : Contract) (cs : List Contract) → Offers want cs c → Offers want (d ∷ cs) c

-- What the loop over the contracts finds: the one found before, if no contract of the list fits.
pub data Found (want : Contract) (before_ : Option Contract) (cs : List Contract)
    : Option Contract → Type 0 where
  there_ : (c : Contract) → Offers want cs c → Found want before_ cs (some c)
  absent : All (Differs want) cs → Found want before_ cs before_

find_contract-Found :
    (want : Contract) (found : Option Contract) (cs : List Contract)
    → Found want found cs (find_contract want found cs)
unfolding find_contract
find_contract-Found want found [] = absent tt
find_contract-Found want found (c ∷ cs) =
    elim (Bool-cases (c.id == want.id && eqb_ℤ c.version want.version)) [
      | inl fits ↦
          rw (find_contract, fits)
            (here (ground (arith, fits, eq_iff c.id want.id))
              (eq_of_eqb_ℤ c.version want.version (ground (arith, fits)))
              (find_contract want (some c) cs) (find_contract-Found want (some c) cs))
      | inr misfits ↦
          rw (find_contract, misfits)
            (later
              (λ same_id same_version. absurd (
                ground (
                  arith,
                  misfits,
                  (eq_iff c.id want.id).1 same_id,
                  subst (λ (v : ℤ). eqb_ℤ c.version v ≡ true) same_version (eqb_ℤ_refl c.version),
                )))
              (find_contract want found cs) (find_contract-Found want found cs))
    ]
  where
    here :
        c.id ≡ want.id
        → c.version ≡ want.version
        → (o : Option Contract) → Found want (some c) cs o
        → Found want found (c ∷ cs) o
    here same_id same_version _ (there_ d offers) = there_ d (among c d cs offers)
    here same_id same_version _ (absent others) =
        there_ c (last_of c cs same_id same_version others)

    later :
        Differs want c → (o : Option Contract) → Found want found cs o → Found want found (c ∷ cs) o
    later differs _ (there_ d offers) = there_ d (among c d cs offers)
    later differs _ (absent others) = absent (differs, others)

-- The ways in which negotiate ends: with exactly the capabilities that both have, all the wanted
-- ones among them; or since a plugin lacks the contract or one of them a wanted capability.
pub data Negotiated (l r : Descriptor) (want : Contract) : Result Contract → Type 0 where
  agreed :
      (lc rc : Contract) (caps : List String)
      → Offers want l.contracts lc
      → Offers want r.contracts rc
      → ((v : String) → has caps v ≡ (has lc.capabilities v && has rc.capabilities v))
      → ((v : String) → has want.capabilities v ≡ true → has caps v ≡ true)
      → Negotiated l r want (ok (record want { capabilities = caps }))
  apart :
      (message : String)
      → All (Differs want) l.contracts ⊎ All (Differs want) r.contracts
      → Negotiated l r want (err (fail contract_mismatch message))
  lacking :
      (lc rc : Contract) (v message : String)
      → Offers want l.contracts lc
      → Offers want r.contracts rc
      → has want.capabilities v ≡ true
      → (has lc.capabilities v && has rc.capabilities v) ≡ false
      → Negotiated l r want (err (fail contract_mismatch message))

-- Negotiation succeeds exactly if both plugins offer a contract of the wanted name and version (the
-- last of them counts) and both offer every wanted capability; it then gives the wanted contract with
-- the capabilities that both have, and no others.
pub negotiate-Negotiated :
    (l r : Descriptor) (want : Contract) → Negotiated l r want (negotiate l r want)
unfolding negotiate
negotiate-Negotiated l r want =
    go (find_contract want none l.contracts) (find_contract want none r.contracts)
      (find_contract-Found want none l.contracts) (find_contract-Found want none r.contracts)
  where
    both :
        (lc rc : Contract)
        → Offers want l.contracts lc
        → Offers want r.contracts rc
        → Negotiated l r want (agree want lc rc)
    both lc rc p q =
        if_elim (Negotiated l r want)
          (all_in want.capabilities (shared lc.capabilities rc.capabilities)) _ _
          (λ h.
            agreed lc rc _ p q
              (λ v.
                has-sort_strings (shared lc.capabilities rc.capabilities) v
                ∙ has-shared lc.capabilities rc.capabilities v)
              (λ v wanted.
                has-sort_strings (shared lc.capabilities rc.capabilities) v
                ∙ all_in-has want.capabilities (shared lc.capabilities rc.capabilities) h v wanted))
          (λ h.
            let (v, wanted, lacks) =
              all_in_lacks want.capabilities (shared lc.capabilities rc.capabilities) h in
            lacking lc rc v _ p q wanted
              (sym (has-shared lc.capabilities rc.capabilities v) ∙ lacks))

    with_left :
        (lc : Contract) (ro : Option Contract)
        → Offers want l.contracts lc
        → Found want none r.contracts ro
        → Negotiated l r want (agree_on want (some lc) ro)
    with_left lc _ p (there_ rc q) = both lc rc p q
    with_left lc _ p (absent others) = apart _ (inr others)

    go :
        (lo ro : Option Contract)
        → Found want none l.contracts lo
        → Found want none r.contracts ro
        → Negotiated l r want (agree_on want lo ro)
    go _ ro (there_ lc p) q = with_left lc ro p q
    go _ ro (absent others) q = apart _ (inl others)
