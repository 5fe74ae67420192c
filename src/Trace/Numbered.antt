-- ===== src/Trace/Numbered.antt =====
-- internal/trace/store.go: the events of a run are numbered from 1 without gaps.
use x_mock_mcp.Prelude.Int.{ℤ}
use x_mock_mcp.Api.{Result, err, ok}
use x_mock_mcp.Trace.Lines.{
  From, IsWhole, Starts, add_line-From, add_line-seq, add_piece-From, add_piece_whole,
  scanned_whole,
}
use x_mock_mcp.Trace.Events.{
  open_store, append, with_seq, Faults, File, file_of, file_size, keep_event, known_seq, noted_seq,
  read_file, write_event, Store, Event, Line, add_line, add_piece, in_front, last_seq, scan,
  scanned,
}
use x_mock_mcp.Api.{other}
use x_mock_mcp.Prelude.{
  none, some, Bool, Option, not, Assoc, Option-cases, ap, if_elim, lookup-insert, lookup_cases, sym,
  text_cases, List, String, [], arith, inl, inr, length, lookup, ltb, refl, suc, ℕ, ◌+◌, ◌<◌, ◌^◌,
  ◌∷◌, ◌≡◌, ◌∙◌, subst, insert,
}

abbrev pub file : String → Store → File
file run s = file_of (lookup run s.files)

-- Every file is numbered from 1, and a number that the store remembers of a file that is whole is
-- that of its last line.
pub record IsNumbered (s : Store) : Type 0 where
  pub files : (run : String) → From 1 (scanned (file run s))
  pub seqs :
      (run : String) (n : ℕ)
      → lookup run s.seqs ≡ some n
      → IsWhole (file run s)
      → n ≡ length (file run s).lines

abbrev WhenOk {ℓ κ} : {A : Type ℓ} → (A → Type κ) → Result A → Type κ
WhenOk P (err e) = Unit
WhenOk P (ok a) = P a

-- The number that a whole reading of the lines ends with.
Ends : ℕ → List Line → List Event → Type 0
Ends k ls [] = length ls ≡ 0
Ends k ls (e ∷ es) = suc (last_seq (e ∷ es)) ≡ k + length ls

in_front-Ends :
    (k : ℕ) (x : Event) (l : Line) (ls : List Line) (o : Result (List Event))
    → x.seq ≡ k
    → WhenOk (Ends (suc k) ls) o
    → WhenOk (Ends k (l ∷ ls)) (in_front x o)
unfolding Ends last_seq
in_front-Ends k x l ls (err e) seq h = tt
in_front-Ends k x l ls (ok []) seq h = omega (arith, h, seq)
in_front-Ends k x l ls (ok (e ∷ es)) seq h = omega (arith, h)

scan-Ends :
    (k taken : ℕ) (ls : List Line) → 0 < k → From k ls → WhenOk (Ends k ls) (scan 0 0 taken ls)
unfolding scan Ends
scan-Ends k taken [] pos_ h = refl
scan-Ends k taken (l ∷ ls) pos_ h =
    if_elim (WhenOk (Ends k (l ∷ ls))) (ltb (2 ^ 22) l.size) _ _ (λ long. tt)
      (λ fits. go l.event h (scan-Ends (suc k) (suc taken) ls (omega arith)))
  where
    go :
        (o : Option Event)
        → Starts k o (From (suc k) ls)
        → (From (suc k) ls → WhenOk (Ends (suc k) ls) (scan 0 0 (suc taken) ls))
        → WhenOk (Ends k (l ∷ ls)) (elim o as (λ _. Result (List Event)) [
          | none ↦ err (other "invalid character")
          | some e ↦ keep_event 0 0 taken e (scan 0 0 taken ls) (scan 0 0 (suc taken) ls)
        ])
    go none h ih = tt
    go (some e) h ih =
        if_elim (WhenOk (Ends k (l ∷ ls))) (ltb 0 e.seq) _ _
          (λ after. in_front-Ends k e l ls (scan 0 0 (suc taken) ls) h.0 (ih h.1))
          (λ zero_. absurd (ground (arith, zero_, h.0, pos_)))

abbrev value_or_zero : Option ℕ → ℕ
value_or_zero none = 0
value_or_zero (some n) = n

-- What Append takes as the last number, beside the map it leaves.
Known : String → Store → Assoc ℕ × ℕ → Type 0
Known run s out =
    (IsWhole (file run s) → out.1 ≡ length (file run s).lines)
    × ((r : String) (n : ℕ)
        → lookup r out.0 ≡ some n
        → IsWhole (file r s)
        → n ≡ length (file r s).lines)

noted_seq-Known :
    (run : String) (s : Store) (o : Result (List Event))
    → IsNumbered s
    → WhenOk (Ends 1 (scanned (file run s))) o
    → WhenOk (Known run s) (noted_seq run s.seqs o)
unfolding noted_seq Ends Known
noted_seq-Known run s (err e) h ends = tt
noted_seq-Known run s (ok []) h ends = (
  λ whole.
      sym (ap (λ (ls : List Line). length ls) (sym (scanned_whole (file run s) whole.0)) ∙ ends),
  h.seqs,
)
noted_seq-Known run s (ok (e ∷ es)) h ends = (
  λ whole. at whole,
  λ r n. rw lookup-insert (elim (text_cases run r) [
    | inr (t, differs) ↦ rw t (h.seqs r n)
    | inl (t, same) ↦ rw t (λ found.
        subst (λ (x : String). IsWhole (file x s) → n ≡ length (file x s).lines) same
          (λ whole. sym (ap value_or_zero found) ∙ at whole))
  ]),
)
  where
    at : IsWhole (file run s) → last_seq (e ∷ es) ≡ length (file run s).lines
    at whole =
        omega (arith, ends, ap (λ (ls : List Line). length ls) (scanned_whole (file run s) whole.0))

known_seq-Known :
    (f : Faults) (run : String) (s : Store)
    → IsNumbered s
    → WhenOk (Known run s) (known_seq f run s)
unfolding known_seq read_file Known
known_seq-Known f run s h = elim (lookup_cases run s.seqs) [
  | inr (n, found) ↦ rw (known_seq, found) (h.seqs run n found, h.seqs)
  | inl absent ↦
      rw (known_seq, absent)
        (noted_seq-Known run s _ h (elim (Option-cases f.reading) [
          | inr (e, bad) ↦ rw (read_file, bad) tt
          | inl fine ↦
              rw (read_file, fine)
                (scan-Ends 1 0 (scanned (file run s)) (omega arith) (h.files run))
        ]))
]

-- A file that is replaced, with what the store then remembers.
replaced-IsNumbered :
    (run : String) (new : File) (seqs : Assoc ℕ) (s : Store)
    → IsNumbered s
    → From 1 (scanned new)
    → ((r : String) (n : ℕ)
        → lookup r seqs ≡ some n
        → IsWhole (file_of (lookup r (insert run new s.files)))
        → n ≡ length (file_of (lookup r (insert run new s.files))).lines)
    → IsNumbered (record s { files = insert run new s.files; seqs = seqs })
replaced-IsNumbered run new seqs s h from known = record {
  files = λ r.
      rw lookup-insert (elim (text_cases run r) [
        | inr (t, differs) ↦ rw t (h.files r)
        | inl (t, same) ↦ rw t from
      ]);
  seqs = known;
}

module _ (line_size : Event → ℕ) where
  write_event-IsNumbered :
      (f : Faults) (run : String) (e : Event) (s : Store)
      → IsNumbered s
      → (IsWhole (file run s) → e.seq ≡ length (file run s).lines + 1)
      → IsNumbered (write_event line_size f run e s).0
  unfolding write_event
  write_event-IsNumbered f run e s h next = elim (Option-cases f.opening) [
    | inr (e', bad) ↦ rw (write_event, bad) h
    | inl fine ↦
        rw (write_event, fine)
          (if_elim (λ (out : Store × Result Event). IsNumbered out.0)
            (ltb s.limit (file_size (file run s) + line_size e)) _ _ (λ full. h)
            (λ room. elim (Option-cases f.writing) [
              | inr ((e', count), bad) ↦ rw bad (piece count)
              | inl written ↦ rw written whole_line
            ]))
  ]
    where
      piece :
          (count : ℕ)
          → IsNumbered (record s {
            files = insert run (add_piece e (line_size e) count (file run s)) s.files;
          })
      piece count =
          replaced-IsNumbered run (add_piece e (line_size e) count (file run s)) s.seqs s h
            (add_piece-From e (line_size e) count (file run s) (h.files run) next)
            (λ r n found. rw lookup-insert (elim (text_cases run r) [
              | inr (t, differs) ↦ rw t (h.seqs r n found)
              | inl (t, same) ↦ rw t (λ whole.
                  let kept = add_piece_whole e (line_size e) count (file run s) whole in
                  h.seqs run n (ap (λ (x : String). lookup x s.seqs) same ∙ found)
                    (subst IsWhole kept whole)
                  ∙ ap (λ (x : File). length x.lines) (sym kept))
            ]))

      whole_line : IsNumbered (record s {
        files = insert run (add_line e (line_size e) (file run s)) s.files;
        seqs = insert run e.seq s.seqs;
      })
      whole_line =
          replaced-IsNumbered run (add_line e (line_size e) (file run s)) (insert run e.seq s.seqs)
            s h (add_line-From e (line_size e) (file run s) (h.files run) next)
            (λ r n.
              rw (lookup-insert run r e.seq s.seqs, lookup-insert run r _ s.files)
                (elim (text_cases run r) [
                  | inr (t, differs) ↦ rw t (h.seqs r n)
                  | inl (t, same) ↦ rw t (λ found whole.
                      sym (ap value_or_zero found)
                      ∙ add_line-seq e (line_size e) (file run s) next whole)
                ]))

  with_seq-IsNumbered :
      (f : Faults) (now run : String) (e : Event) (s : Store) (o : Result (Assoc ℕ × ℕ))
      → IsNumbered s
      → WhenOk (Known run s) o
      → IsNumbered (with_seq line_size f now run e s o).0
  unfolding with_seq Known
  with_seq-IsNumbered f now run e s (err failure) h k = h
  with_seq-IsNumbered f now run e s (ok (seqs, n)) h k =
      write_event-IsNumbered f run (record e { seq = n + 1; at = now }) (record s { seqs = seqs })
        (record { files = h.files; seqs = k.1 }) (λ whole. omega (arith, k.0 whole))

  -- Append, whatever fails in it and however much of a line a failed write leaves, keeps the lines
  -- of every file numbered from 1 without gaps, up to the first damaged line, if there is one; and
  -- what the store remembers of an undamaged file is its last number. So does a new Store over the
  -- same files, which remembers no numbers.
  pub append-IsNumbered :
      (f : Faults) (valid : Bool) (now run : String) (e : Event) (s : Store)
      → IsNumbered s
      → IsNumbered (append line_size f valid now run e s).0
        × ((limit : ℤ) → IsNumbered (open_store limit s.files))
  unfolding append open_store lookup
  append-IsNumbered f valid now run e s h = (
    if_elim (λ (out : Store × Result Event). IsNumbered out.0) (not valid) _ _ (λ e. h)
        (λ fine. with_seq-IsNumbered f now run e s _ h (known_seq-Known f run s h)),
    λ limit. record { files = h.files; seqs = λ r n at whole. absurd (ground arith) },
  )
