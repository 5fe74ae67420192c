-- ===== src/Trace/Lines.antt =====
-- internal/trace/store.go: the numbers on the lines of a file, as lines and pieces are added.
use x_mock_mcp.Trace.Events.{Event, File, Line, add_line, add_piece, scanned}
use x_mock_mcp.Prelude.{
  Bool, List, Option, [], arith, if_elim, length, nat_eq, none, some, suc, true, false, ℕ, ◌++◌,
  ◌+◌, ◌∷◌, ◌≡◌, refl, subst, length-append, if◌then◌else◌,
}

abbrev pub Starts : ℕ → Option Event → Type 0 → Type 0
Starts k none rest = Unit
Starts k (some e) rest = (e.seq ≡ k) × rest

-- The lines are numbered `k`, `k + 1` and so on, up to the first that is no event, if there is one.
abbrev pub From : ℕ → List Line → Type 0
From k [] = Unit
From k (l ∷ ls) = Starts k l.event (From (suc k) ls)

abbrev pub is_event : Option Event → Bool
is_event none = false
is_event (some e) = true

-- Every line is an event.
abbrev pub AllEvents : List Line → Type 0
AllEvents [] = Unit
AllEvents (l ∷ ls) = (is_event l.event ≡ true) × AllEvents ls

-- A file that no failed write has damaged.
abbrev pub IsWhole : File → Type 0
IsWhole file = (file.torn ≡ none) × AllEvents file.lines

abbrev pub Next : ℕ → Option Event → Type 0
Next n none = Unit
Next n (some e) = e.seq ≡ n

Next-same : (n m : ℕ) (o : Option Event) → n ≡ m → Next n o → Next m o
Next-same n m o p = subst (λ (i : ℕ). Next i o) p

From-snoc :
    (k : ℕ) (ls : List Line) (l : Line)
    → From k ls
    → (AllEvents ls → Next (k + length ls) l.event)
    → From k (ls ++ (l ∷ []))
From-snoc k [] l h next = last l.event (Next-same (k + 0) k l.event (omega arith) (next tt))
  where
    last : (o : Option Event) → Next k o → Starts k o Unit
    last none n = tt
    last (some e) n = (n, tt)
From-snoc k (x ∷ ls) l h next = go x.event h next (From-snoc (suc k) ls l)
  where
    go :
        (o : Option Event)
        → Starts k o (From (suc k) ls)
        → ((is_event o ≡ true) × AllEvents ls → Next (k + suc (length ls)) l.event)
        → (From (suc k) ls
            → (AllEvents ls → Next (suc k + length ls) l.event)
            → From (suc k) (ls ++ (l ∷ [])))
        → Starts k o (From (suc k) (ls ++ (l ∷ [])))
    go none h next ih = tt
    go (some e) h next ih = (
      h.0,
      ih h.1 (λ all.
          Next-same (k + suc (length ls)) (suc k + length ls) l.event (omega arith)
            (next (refl, all))),
    )

From-init : (k : ℕ) (ls : List Line) (l : Line) → From k (ls ++ (l ∷ [])) → From k ls
From-init k [] l h = tt
From-init k (x ∷ ls) l h = go x.event h (From-init (suc k) ls l)
  where
    go :
        (o : Option Event)
        → Starts k o (From (suc k) (ls ++ (l ∷ [])))
        → (From (suc k) (ls ++ (l ∷ [])) → From (suc k) ls)
        → Starts k o (From (suc k) ls)
    go none h ih = tt
    go (some e) h ih = (h.0, ih h.1)

AllEvents-init :
    (ls : List Line) (l : Line)
    → AllEvents (ls ++ (l ∷ []))
    → AllEvents ls × (is_event l.event ≡ true)
AllEvents-init [] l h = (tt, h.0)
AllEvents-init (x ∷ ls) l h = let ih = AllEvents-init ls l h.1 in ((h.0, ih.0), ih.1)

pub scanned_whole : (file : File) → file.torn ≡ none → scanned file ≡ file.lines
scanned_whole file h = go file.torn h
  where
    go :
        (o : Option Line)
        → o ≡ none
        → (elim o as (λ _. List Line) [ none ↦ file.lines | some l ↦ file.lines ++ (l ∷ []) ])
          ≡ file.lines
    go none h = refl
    go (some l) h = absurd (ground (arith, h))

abbrev Follows : Event → File → Type 0
Follows e file = IsWhole file → e.seq ≡ length file.lines + 1

pub add_line-From :
    (e : Event) (size : ℕ) (file : File)
    → From 1 (scanned file)
    → Follows e file
    → From 1 (scanned (add_line e size file))
add_line-From e size file = go file.torn
  where
    go :
        (o : Option Line)
        → From 1 (scanned (record { lines = file.lines; torn = o }))
        → Follows e (record { lines = file.lines; torn = o })
        → From 1 (scanned (add_line e size (record { lines = file.lines; torn = o })))
    go none h next =
        From-snoc 1 file.lines (record { event = some e; size = size }) h
          (λ all. omega (arith, next (refl, all)))
    go (some l) h next =
        From-snoc 1 file.lines (record { event = none; size = l.size + size })
          (From-init 1 file.lines l h) (λ all. tt)

-- In a file that is whole with a new line, that has the number of lines.
pub add_line-seq :
    (e : Event) (size : ℕ) (file : File)
    → Follows e file
    → IsWhole (add_line e size file)
    → e.seq ≡ length (add_line e size file).lines
add_line-seq e size file = go file.torn
  where
    go :
        (o : Option Line)
        → Follows e (record { lines = file.lines; torn = o })
        → IsWhole (add_line e size (record { lines = file.lines; torn = o }))
        → e.seq ≡ length (add_line e size (record { lines = file.lines; torn = o })).lines
    go none next whole =
        let all = AllEvents-init file.lines (record { event = some e; size = size }) whole.1 in
        omega (
          arith,
          next (refl, all.0),
          length-append file.lines (record { event = some e; size = size } ∷ []),
        )
    go (some l) next whole =
        let all =
          AllEvents-init file.lines (record { event = none; size = l.size + size }) whole.1 in
        absurd (ground (arith, all.1))

pub add_piece-From :
    (e : Event) (size count : ℕ) (file : File)
    → From 1 (scanned file)
    → Follows e file
    → From 1 (scanned (add_piece e size count file))
unfolding add_piece
add_piece-From e size count file h next =
    if_elim (λ (x : File). From 1 (scanned x)) (nat_eq count 0) _ _ (λ p. h)
      (λ p. go file.torn h next)
  where
    piece :
        Next (1 + length file.lines) (some e)
        → Next (1 + length file.lines) (if nat_eq (count + 1) size then some e else none)
    piece n =
        if_elim (λ (x : Option Event). Next (1 + length file.lines) x) (nat_eq (count + 1) size) _ _
          (λ p. n) (λ p. tt)

    go :
        (o : Option Line)
        → From 1 (scanned (record { lines = file.lines; torn = o }))
        → Follows e (record { lines = file.lines; torn = o })
        → From 1 (
            scanned (elim o as (λ _. File) [
              | none ↦ record {
                lines = file.lines;
                torn = some (record {
                  event = if nat_eq (count + 1) size then some e else none;
                  size = count;
                });
              }
              | some l ↦ record {
                lines = file.lines;
                torn = some (record { event = none; size = l.size + count });
              }
            ]))
    go none h next =
        From-snoc 1 file.lines
          (record { event = if nat_eq (count + 1) size then some e else none; size = count }) h
          (λ all. piece (omega (arith, next (refl, all))))
    go (some l) h next =
        From-snoc 1 file.lines (record { event = none; size = l.size + count })
          (From-init 1 file.lines l h) (λ all. tt)

-- A piece leaves no file whole, unless nothing was written.
pub add_piece_whole :
    (e : Event) (size count : ℕ) (file : File)
    → IsWhole (add_piece e size count file)
    → add_piece e size count file ≡ file
unfolding add_piece
add_piece_whole e size count file =
    if_elim (λ (x : File). IsWhole x → x ≡ file) (nat_eq count 0) _ _ (λ p whole. refl)
      (λ p whole. absurd (go file.torn whole.0))
  where
    go :
        (o : Option Line)
        → ¬ (
            (elim o as (λ _. File) [
              | none ↦ record {
                lines = file.lines;
                torn = some (record {
                  event = if nat_eq (count + 1) size then some e else none;
                  size = count;
                });
              }
              | some l ↦ record {
                lines = file.lines;
                torn = some (record { event = none; size = l.size + count });
              }
            ]).torn
            ≡ none)
    go none h = ground (arith, h)
    go (some l) h = ground (arith, h)
