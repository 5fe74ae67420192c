-- ===== src/Binding/Created.antt =====
-- Create of internal/binding/manager.go: what a binding is like that it returns.
use x_mock_mcp.Binding.Negotiate.{negotiate}
use x_mock_mcp.Prelude.Int.{ltb_ℤ, pos}
use x_mock_mcp.Api.{Result, err, invalid, ok}
use x_mock_mcp.Binding.Answered.{after_ok, unless_ok}
use x_mock_mcp.Binding.Steps.{Created, added, create-Created, refused}
use x_mock_mcp.Prelude.{
  ap, eq_refl, lookup-insert, none, sym, ◌∙◌, Bool, arith, false, if_elim, if◌then◌else◌, lookup,
  not, refl, some, subst, true, ◌==◌, ◌||◌, ◌≡◌,
}
use x_mock_mcp.Binding.Manager.{
  config_checks, connect, is_left, Answers, Attempt, Binding, Config, Manager, Ready, after, create,
  new_binding, new_entry, new_spec, or_object, start_both, unless, with_timeout,
}
use x_mock_mcp.Plugin.Descriptor.{Descriptor, is_nil, is_right, first_failure}
use x_mock_mcp.Plugin.Descriptor.{Contract}
use x_mock_mcp.Plugin.Valid.{first_failure-none}
use x_mock_mcp.Catalog.Reference.{other_role, Role, left, right}

-- What Create has seen to for a binding that it returns.
pub record IsReady (a : Answers) (c : Config) (m : Manager) (b : Binding) : Type 0 where
  pub left_role : c.left_ref.role ≡ left
  pub right_role : c.right_ref.role ≡ right
  pub left_descriptor : Descriptor
  pub right_descriptor : Descriptor
  pub left_said : a.left_descriptor ≡ ok left_descriptor
  pub right_said : a.right_descriptor ≡ ok right_descriptor
  pub agreed : negotiate left_descriptor right_descriptor c.contract ≡ ok b.contract
  pub reachable : is_nil b.endpoints ≡ false
  pub entered : lookup b.id (create a c m).0.entries ≡ some (new_entry (with_timeout c) b)

with_timeout_contract : (c : Config) → (with_timeout c).contract ≡ c.contract
with_timeout_contract c =
    if_elim (λ (x : Config). x.contract ≡ c.contract) (ltb_ℤ (pos 0) c.request_timeout_ms) _ _
      (λ h. refl) (λ h. refl)

ok_injective : {x y : Binding} → ok x ≡ ok y → x ≡ y
ok_injective {x} {y} p = ap (λ (r : Result Binding). elim r [ ok z ↦ z | err e ↦ x ]) p

left_role_lem : (r : Role) → is_left r ≡ true → r ≡ left
left_role_lem left h = refl
left_role_lem right h = absurd (ground (arith, h))
left_role_lem (other_role text) h = absurd (ground (arith, h))

right_role_lem : (r : Role) → is_right r ≡ true → r ≡ right
right_role_lem right h = refl
right_role_lem left h = absurd (ground (arith, h))
right_role_lem (other_role text) h = absurd (ground (arith, h))

roles :
    (c : Config)
    → first_failure (config_checks c) ≡ none
    → (c.left_ref.role ≡ left) × (c.right_ref.role ≡ right)
unfolding config_checks
roles c h =
    let fixed = (first_failure-none (config_checks c) h).0 in
    (
      left_role_lem c.left_ref.role (ground (arith, fixed)),
      right_role_lem c.right_ref.role (ground (arith, fixed)),
    )

-- The part of Create from the negotiation on.
start_both_ok :
    (a : Answers) (c : Config) (contract : Contract) (b : Binding)
    → start_both a c contract ≡ ok b
    → (b.contract ≡ contract) × (is_nil b.endpoints ≡ false)
unfolding start_both new_binding
start_both_ok a c contract b h =
    let (ready, right_ready, h1) =
      after_ok (a.right_start (new_spec a.right_instance (or_object c.right_config) a c contract)) _
        b h in
    second ready (not (ready.instance_id == a.right_instance)) h1
  where
    third :
        (ready : Ready) (wrong : Bool)
        → (wrong ≡ false → is_nil ready.endpoints ≡ false)
        → (if wrong
            then err (invalid "left READY identity/endpoints invalid")
            else unless a.context
                (ok (record (new_binding a c contract) { endpoints = ready.endpoints })))
          ≡ ok b
        → (b.contract ≡ contract) × (is_nil b.endpoints ≡ false)
    third ready true some_ h = absurd (ground (arith, h))
    third ready false some_ h =
        let (fine, is) = unless_ok a.context _ b h in
        subst (λ (x : Binding). (x.contract ≡ contract) × (is_nil x.endpoints ≡ false))
          (ok_injective is) (refl, some_ refl)

    second :
        (ready : Ready) (wrong : Bool)
        → (if wrong
            then err (invalid "right READY instance mismatch")
            else after
                (a.left_start (new_spec a.left_instance (or_object c.left_config) a c contract))
                (λ ready'.
                  if not (ready'.instance_id == a.left_instance) || is_nil ready'.endpoints
                  then err (invalid "left READY identity/endpoints invalid")
                  else unless a.context
                      (ok (record (new_binding a c contract) { endpoints = ready'.endpoints }))))
          ≡ ok b
        → (b.contract ≡ contract) × (is_nil b.endpoints ≡ false)
    second ready true h = absurd (ground (arith, h))
    second ready false h =
        let (ready', left_ready, h1) =
          after_ok (a.left_start (new_spec a.left_instance (or_object c.left_config) a c contract))
            _ b h in
        third ready' (not (ready'.instance_id == a.left_instance) || is_nil ready'.endpoints)
          (λ e. ground (arith, e)) h1

-- A binding that Create returns joins a left and a right plugin under the contract that they have
-- negotiated, has an endpoint, and is in the map, where it takes requests.
pub create-IsReady :
    (a : Answers) (c : Config) (m : Manager) (b : Binding)
    → (create a c m).1.result ≡ ok b
    → IsReady a c m b
unfolding connect
create-IsReady a c m b h = go (create a c m) (create-Created a c m) refl h
  where
    go :
        (out : Manager × Attempt)
        → Created a c m out
        → create a c m ≡ out
        → out.1.result ≡ ok b
        → IsReady a c m b
    go _ (refused tried f) p h = absurd (ground (arith, h))
    go _ (added b' checks is) p h =
        let (rd, right_said, h1) = after_ok a.right_descriptor _ b' is in
        let (ld, left_said, h2) = after_ok a.left_descriptor _ b' h1 in
        let (contract, agreed_, h3) =
          after_ok (negotiate ld rd (with_timeout c).contract) _ b' h2 in
        let (right_fine, h4) =
          unless_ok (a.right_config (or_object (with_timeout c).right_config)) _ b' h3 in
        let (left_fine, h5) =
          unless_ok (a.left_config (or_object (with_timeout c).left_config)) _ b' h4 in
        let (same, some_) = start_both_ok a (with_timeout c) contract b' h5 in
        let (is_left_, is_right_) = roles c checks in
        subst (IsReady a c m) (ok_injective h) (record {
          left_role = is_left_;
          right_role = is_right_;
          left_descriptor = ld;
          right_descriptor = rd;
          left_said = left_said;
          right_said = right_said;
          agreed =
              subst (λ (w : Contract). negotiate ld rd w ≡ ok b'.contract) (with_timeout_contract c)
                (agreed_ ∙ ap (λ (x : Contract). ok x) (sym same));
          reachable = some_;
          entered =
              ap (λ (o : Manager × Attempt). lookup b'.id o.0.entries) p
              ∙ simp (lookup-insert, eq_refl) refl;
        })
