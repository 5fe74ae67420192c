-- ===== src/Prelude/Text.antt =====
-- Texts: sorting, decimal numbers, and the tests of package strings that the code uses.
use Prim.Native.Nat.{ℕ, zero, suc, ◌+◌, ◌-◌, ◌*◌, ◌/◌, ◌%◌, Ordering}
use Prim.Native.Char.{code}
use Prim.Native.String.{slice, String, compare, ◌++◌}
use mathlib.Core.Bool.{Bool, true, false, ◌&&◌}
use mathlib.Core.Option.{Option, none, some}
use mathlib.Core.List.{List}
use text.Mathlib.Text.{find?, ◌==◌}
use x_mock_mcp.Prelude.Tests.{ltb, leb, if◌then◌else◌}

-- The order of sort.Strings.
abbrev pub before : String → String → Bool
before a b = elim (compare a b) [ Ordering.gt ↦ false | _ ↦ true ]

unfoldable pub insert_sorted : String → List String → List String
insert_sorted s List.[] = List.◌∷◌ s List.[]
insert_sorted s (List.◌∷◌ t l) =
    let rest = insert_sorted s l in
    if before s t then List.◌∷◌ s (List.◌∷◌ t l) else List.◌∷◌ t rest

-- sort.Strings
unfoldable pub sort_strings : List String → List String
unfolding insert_sorted
sort_strings List.[] = List.[]
sort_strings (List.◌∷◌ s l) = insert_sorted s (sort_strings l)

-- strings.Contains
unfoldable pub contains : String → String → Bool
contains s t = elim (find? s t) [ none ↦ false | some i ↦ true ]

-- The value of a run of decimal digits read after `n`, if there is nothing else.
unfoldable pub digits_from : ℕ → String → Option ℕ
digits_from n String.[] = some n
digits_from n (String.◌∷◌ ch rest) =
    let later = digits_from (n * 10 + (code ch - 48)) rest in
    if leb 48 (code ch) && leb (code ch) 57 then later else none

-- A number that has at least one digit.
unfoldable pub digits : String → Option ℕ
unfolding digits_from
digits s = if s == "" then none else digits_from 0 s

abbrev pub digit : ℕ → String
digit n = slice "0123456789" n (n + 1)

-- The decimal text of a number of at most `fuel` digits.
unfoldable pub decimal_from : ℕ → ℕ → String
decimal_from zero n = ""
decimal_from (suc fuel) n =
    let front = decimal_from fuel (n / 10) in if ltb n 10 then digit n else front ++ digit (n % 10)

-- Every number below 2 ^ 64 has at most 20 digits.
unfoldable pub decimal : ℕ → String
unfolding decimal_from
decimal n = decimal_from 20 n
