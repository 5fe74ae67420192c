-- ===== src/Prelude/Maps.antt =====
-- A Go map with string keys, as an association list. Where the code ranges over a map, the order is
-- that of the list, and statements hold for every list.
use Prim.Native.Nat.{ℕ, ◌+◌, ◌≤◌}
use Prim.Native.String.{String}
use mathlib.Core.Path.{◌≡◌, refl}
use mathlib.Core.Logic.{◌⊎◌}
use mathlib.Core.List.{List, [], ◌∷◌}
use mathlib.Core.Bool.{Bool, true, false}
use mathlib.Core.Option.{Option, none, some}
use native.Mathlib.Omega.{arith}
use text.Mathlib.Text.{◌==◌}
use text.Mathlib.TextEquality.{eq_iff}
use text.Mathlib.TextPositions.{eq_refl}
use x_mock_mcp.Prelude.Tests.{if◌then◌else◌, Option-cases}

abbrev pub Assoc {ℓ} : Type ℓ → Type ℓ
Assoc V = List (String × V)

abbrev pub bit : Bool → ℕ
bit true = 1
bit false = 0

module _ {ℓ} {V : Type ℓ} where
  -- m[k]
  unfoldable pub lookup : String → Assoc V → Option V
  lookup wanted [] = none
  lookup wanted ((name, value) ∷ rest) = if name == wanted then some value else lookup wanted rest

  -- m[k] = v
  unfoldable pub insert : String → V → Assoc V → Assoc V
  insert place new [] = (place, new) ∷ []
  insert place new ((name, value) ∷ rest) =
      if name == place then (place, new) ∷ rest else (name, value) ∷ insert place new rest

  -- delete(m, k)
  unfoldable pub erase : String → Assoc V → Assoc V
  erase k [] = []
  erase k ((j, v) ∷ m) = let rest = erase k m in if j == k then rest else (j, v) ∷ rest

  -- for k, v := range m { m[k] = f(v) }
  unfoldable pub map_values : (V → V) → Assoc V → Assoc V
  map_values f [] = []
  map_values f ((j, v) ∷ m) = (j, f v) ∷ map_values f m

  -- for _, v := range m { if p(v) { n++ } }
  unfoldable pub count_if : (V → Bool) → Assoc V → ℕ
  count_if p [] = 0
  count_if p ((j, v) ∷ m) = bit (p v) + count_if p m

  -- for k, v := range m { if p(v) { delete(m, k) } }
  unfoldable pub remove_if : (V → Bool) → Assoc V → Assoc V
  remove_if p [] = []
  remove_if p ((j, v) ∷ m) = let rest = remove_if p m in if p v then erase j rest else (j, v) ∷ rest

  abbrev pub keep_if : (V → Bool) → Option V → Option V
  keep_if p none = none
  keep_if p (some v) = if p v then none else some v

  abbrev pub Has : Assoc V → String → V → Type ℓ
  Has m k v = lookup k m ≡ some v

  pub lookup_cases :
      (k : String) (m : Assoc V) → (lookup k m ≡ none) ⊎ ((v : V) × (lookup k m ≡ some v))
  lookup_cases k m = Option-cases (lookup k m)

  pub lookup-insert :
      (place wanted : String) (new : V) (m : Assoc V)
      → lookup wanted (insert place new m) ≡ (if place == wanted then some new else lookup wanted m)
  unfolding lookup insert
  lookup-insert place wanted new [] = refl
  lookup-insert place wanted new ((name, value) ∷ rest) =
      let later = lookup-insert place wanted new rest in
      ground (arith, later, eq_iff name place, eq_iff name wanted, eq_iff place wanted)

  pub lookup-erase :
      (k j : String) (m : Assoc V) → lookup j (erase k m) ≡ (if k == j then none else lookup j m)
  unfolding lookup erase
  lookup-erase k j [] = ground arith
  lookup-erase k j ((i, v) ∷ m) =
      ground (arith, lookup-erase k j m, eq_iff i k, eq_iff i j, eq_iff k j)

  pub lookup-map_values :
      (f : V → V) (k : String) (v : V) (m : Assoc V)
      → lookup k m ≡ some v
      → lookup k (map_values f m) ≡ some (f v)
  unfolding lookup map_values
  lookup-map_values f k v [] h = ground arith
  lookup-map_values f k v ((j, w) ∷ m) h = ground (arith, lookup-map_values f k v m)

  pub lookup-map_values-none :
      (f : V → V) (k : String) (m : Assoc V) → lookup k m ≡ none → lookup k (map_values f m) ≡ none
  unfolding lookup map_values
  lookup-map_values-none f k [] h = refl
  lookup-map_values-none f k ((j, w) ∷ m) h = ground (arith, lookup-map_values-none f k m)

  -- An overwrite trades the old value's share of the count for the new one's.
  pub count_if-insert :
      (p : V → Bool) (k : String) (old v : V) (m : Assoc V)
      → lookup k m ≡ some old
      → count_if p (insert k v m) + bit (p old) ≡ count_if p m + bit (p v)
  unfolding lookup insert count_if
  count_if-insert p k old v [] h = ground arith
  count_if-insert p k old v ((j, w) ∷ m) h = ground (arith, count_if-insert p k old v m)

  pub count_if-insert_le :
      (p : V → Bool) (k : String) (old v : V) (m : Assoc V)
      → lookup k m ≡ some old
      → bit (p v) ≤ bit (p old)
      → count_if p (insert k v m) ≤ count_if p m
  count_if-insert_le p k old v m h le = omega (arith, count_if-insert p k old v m h)

  pub count_if-insert_new :
      (p : V → Bool) (k : String) (v : V) (m : Assoc V)
      → lookup k m ≡ none
      → count_if p (insert k v m) ≡ count_if p m + bit (p v)
  unfolding lookup insert count_if
  count_if-insert_new p k v [] h = omega arith
  count_if-insert_new p k v ((j, w) ∷ m) h = ground (arith, count_if-insert_new p k v m)

  pub count_if-erase_le :
      (p : V → Bool) (k : String) (m : Assoc V) → count_if p (erase k m) ≤ count_if p m
  unfolding erase count_if
  count_if-erase_le p k [] = omega arith
  count_if-erase_le p k ((j, w) ∷ m) = ground (arith, count_if-erase_le p k m)

  pub count_if-map_values_le :
      (p : V → Bool) (f : V → V) (m : Assoc V)
      → ((v : V) → bit (p (f v)) ≤ bit (p v))
      → count_if p (map_values f m) ≤ count_if p m
  unfolding map_values count_if
  count_if-map_values_le p f [] h = omega arith
  count_if-map_values_le p f ((j, w) ∷ m) h = omega (arith, h w, count_if-map_values_le p f m h)

  pub lookup-remove_if :
      (p : V → Bool) (k : String) (m : Assoc V) → lookup k (remove_if p m) ≡ keep_if p (lookup k m)
  unfolding lookup remove_if
  lookup-remove_if p k [] = refl
  lookup-remove_if p k ((j, v) ∷ m) =
      ground (arith, lookup-remove_if p k m, lookup-erase j k (remove_if p m), eq_iff j k)

  pub count_if-remove_if_le :
      (p r : V → Bool) (m : Assoc V) → count_if p (remove_if r m) ≤ count_if p m
  unfolding remove_if count_if
  count_if-remove_if_le p r [] = omega arith
  count_if-remove_if_le p r ((j, w) ∷ m) =
      ground (arith, count_if-remove_if_le p r m, count_if-erase_le p j (remove_if r m))

pub ruleset assoc_laws = (lookup-insert, lookup-erase, eq_refl)
