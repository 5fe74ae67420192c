-- ===== src/Binding/Shut.antt =====
-- Seal and Destroy of internal/binding/manager.go: a binding that is shut takes no requests again.
use x_mock_mcp.Binding.Manager.{Entry, Manager}
use x_mock_mcp.Binding.Upkeep.{cleanup, destroy, find_listed, seal, seal_entry, unlist}
use x_mock_mcp.Binding.Steps.{Steps, seals}
use x_mock_mcp.Binding.Kept.{
  Acts-IsLater, IsLater, IsLater-trans, Steps-IsLater, cleanup-IsLater, unlist-IsLater,
}
use x_mock_mcp.Prelude.{
  Bool, Bool-cases, String, arith, bit, eq_refl, false, inl, inr, insert, lookup, lookup-insert,
  none, Option, ap, ◌∙◌, refl, some, true, ◌&&◌, ◌≡◌, ◌≤◌,
}

-- A call of Seal, or of Destroy, for which the flag is set.
pub data Shuts (id : String) (m : Manager) : Bool → Manager → Type 0 where
  by_seal : Shuts id m false (seal id m)
  by_destroy : Shuts id m true (destroy id m)

seal_found :
    (id : String) (m : Manager) (e : Entry)
    → lookup id m.entries ≡ some e
    → lookup id (seal id m).entries ≡ some (seal_entry e)
unfolding seal
seal_found id m e found =
    ap
      (λ (o : Option Entry).
        lookup id
          (elim o as (λ _. Manager) [
            | none ↦ m
            | some x ↦ record m { entries = insert id (seal_entry x) m.entries }
          ]).entries)
      found
    ∙ lookup-insert id id (seal_entry e) m.entries
    ∙ rw eq_refl refl

destroy_found :
    (id : String) (m : Manager) (e : Entry)
    → lookup id m.entries ≡ some e
    → e.listed ≡ true
    → lookup id (destroy id m).entries ≡ some (cleanup (unlist e))
unfolding destroy
destroy_found id m e found here_ =
    ap
      (λ (o : Option Entry).
        lookup id
          (elim o as (λ _. Manager) [
            | none ↦ m
            | some x ↦ record m { entries = insert id (cleanup (unlist x)) m.entries }
          ]).entries)
      listed_
    ∙ lookup-insert id id (cleanup (unlist e)) m.entries
    ∙ rw eq_refl refl
  where
    listed_ : find_listed id m ≡ some e
    listed_ = rw (found, find_listed) (rw here_ refl)

-- What such a call leaves of an entry of the map.
Shuts-Later :
    (id : String) (m : Manager) {b : Bool} {m' : Manager} (e : Entry)
    → Shuts id m b m'
    → lookup id m.entries ≡ some e
    → e.listed ≡ true
    → (e' : Entry) × (lookup id m'.entries ≡ some e')
      × IsLater e e'
      × (e'.active ≡ false)
      × ((b && e'.listed) ≡ false)
      × (bit b ≤ e'.cleanups)
unfolding seal seal_entry destroy find_listed unlist cleanup
Shuts-Later id m e by_seal found here_ = (
  seal_entry e,
  seal_found id m e found,
  Acts-IsLater (seals e),
  rw (here_, seal_entry) refl,
  refl,
  omega arith,
)
Shuts-Later id m e by_destroy found here_ = (
  cleanup (unlist e),
  destroy_found id m e found here_,
  IsLater-trans (unlist-IsLater e) (cleanup-IsLater (unlist e)),
  refl,
  rw (here_, unlist) refl,
  omega arith,
)

-- Once Seal or Destroy was called for a binding of the map, it takes no requests in any later state,
-- stays the same, and with its run, if it has one; after Destroy it is out of the map for good and
-- was cleaned up.
pub Shuts-closed :
    {b : Bool} {m m' m'' : Manager} (id : String) (e : Entry)
    → Shuts id m b m'
    → Steps m' m''
    → lookup id m.entries ≡ some e
    → e.listed ≡ true
    → (e' : Entry) × (lookup id m''.entries ≡ some e')
      × IsLater e e'
      × (e'.active ≡ false)
      × ((b && e'.listed) ≡ false)
      × (bit b ≤ e'.cleanups)
Shuts-closed {b} {m} id e shuts steps found here_ =
    let (e1, found1, later1, shut, out_, cleaned) = Shuts-Later id m e shuts found here_ in
    let (e2, found2, later2) = Steps-IsLater steps id e1 found1 in
    (
      e2,
      found2,
      IsLater-trans later1 later2,
      later2.sealed shut,
      elim (Bool-cases e1.listed) [
        | inl still ↦ ground (arith, still, out_)
        | inr gone_ ↦ ground (arith, later2.gone gone_)
      ],
      omega (arith, cleaned, later2.cleaned),
    )
