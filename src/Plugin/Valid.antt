-- ===== src/Plugin/Valid.antt =====
-- pluginapi/validate.go: what a manifest and a decision that pass their checks are like.
use mathlib.Core.Option.{some-injective}
use x_mock_mcp.Prelude.Int.{ℤ}
use Prim.Native.String.{len, ◌++◌}
use x_mock_mcp.Catalog.Reference.{valid_digest}
use x_mock_mcp.Plugin.Paths.{segments}
use x_mock_mcp.Plugin.Inside.{safe_relative-inside, IsOrdinary}
use x_mock_mcp.Api.{Failure, Need}
use x_mock_mcp.Plugin.Decision.{
  decision_checks, Decision, Kind, check_decision, check_kind, completed, foreign_kind, needs_data,
  outcomes, unsupported,
}
use x_mock_mcp.Plugin.Descriptor.{
  descriptor_checks, manifest_checks, first_failure, json_number, Contract, Descriptor, Formats,
  Manifest, check_contracts, check_descriptor, check_files, check_manifest, contract_key, has,
  is_some,
}
use x_mock_mcp.Prelude.{
  if◌then◌else◌, ap, eq_iff, inl, inr, subst, text_cases, ◌∙◌, All, Assoc, Bool, List, Option,
  String, [], arith, false, lookup, nat_eq, none, not, refl, some, true, ◌∷◌, ◌≡◌, ◌≢◌,
}

pub first_failure-none :
    (checks : List (Option Failure))
    → first_failure checks ≡ none
    → All (λ (o : Option Failure). o ≡ none) checks
unfolding first_failure
first_failure-none [] h = tt
first_failure-none (none ∷ checks) h = (refl, first_failure-none checks h)
first_failure-none (some e ∷ checks) h = absurd (ground (arith, h))

-- A file of a package: where it lies, and what its entry says.
pub record IsFile (name digest : String) : Type 0 where
  pub inside : All IsOrdinary (segments name)
  pub not_manifest : name ≢ "manifest.json"
  pub hash : valid_digest digest ≡ true

files_inside :
    (files : Assoc String)
    → check_files files ≡ none
    → (name digest : String) → lookup name files ≡ some digest
    → IsFile name digest
unfolding check_files lookup
files_inside [] h name digest found = absurd (ground (arith, found))
files_inside ((n, d) ∷ files) h name digest found = elim (text_cases n name) [
  | inl (e_, same) ↦
      subst (λ (x : String). IsFile x digest) same
        (record {
          inside = safe_relative-inside n (ground (arith, h));
          not_manifest = λ p. ground (arith, h, (eq_iff n "manifest.json").1 p);
          hash =
              subst (λ (x : String). valid_digest x ≡ true)
                (some-injective d digest (
                  subst (λ (b : Bool). (if b then some d else lookup name files) ≡ some digest) e_
                    found))
                (ground (arith, h));
        })
  | inr (e_, differs) ↦
      files_inside files (ground (arith, h)) name digest (ground (arith, found, e_))
]

-- In a manifest that Validate accepts, every file lies below the package's directory, is not the
-- manifest itself and has a digest; and the entry point is one of the files.
pub check_manifest-IsFile :
    (formats : Formats) (m : Manifest)
    → check_manifest formats m ≡ none
    → ((name digest : String) → lookup name m.files ≡ some digest → IsFile name digest)
      × ((digest : String) × (lookup m.entrypoint m.files ≡ some digest))
unfolding check_manifest manifest_checks
check_manifest-IsFile formats m h =
    let all = first_failure-none (manifest_checks formats m) h in
    (
      files_inside m.files all.1.1.1.1.0,
      present (lookup m.entrypoint m.files) (ground (arith, all.1.1.1.0)),
    )
  where
    present : (o : Option String) → not (is_some o) ≡ false → (digest : String) × (o ≡ some digest)
    present none p = absurd (ground (arith, p))
    present (some digest) p = (digest, refl)

-- No two contracts of the list have the same name and version.
abbrev pub OneEach : List Contract → Type 0
OneEach [] = Unit
OneEach (c ∷ cs) = All (λ d. (c.id ≡ d.id) → c.version ≢ d.version) cs × OneEach cs

contracts_distinct :
    (seen : List String) (cs : List Contract)
    → check_contracts seen cs ≡ none
    → All (λ c. has seen (contract_key c) ≡ false) cs × OneEach cs
unfolding check_contracts has contract_key
contracts_distinct seen [] h = (tt, tt)
contracts_distinct seen (c ∷ cs) h =
    let (later, others) = contracts_distinct (contract_key c ∷ seen) cs (ground (arith, h)) in
    ((ground (arith, h), earlier cs later), (apart cs later, others))
  where
    earlier :
        (ds : List Contract)
        → All (λ d. has (contract_key c ∷ seen) (contract_key d) ≡ false) ds
        → All (λ d. has seen (contract_key d) ≡ false) ds
    earlier [] g = tt
    earlier (d ∷ ds) (first, more) = (ground (arith, first), earlier ds more)

    apart :
        (ds : List Contract)
        → All (λ d. has (contract_key c ∷ seen) (contract_key d) ≡ false) ds
        → All (λ d. (c.id ≡ d.id) → c.version ≢ d.version) ds
    apart [] g = tt
    apart (d ∷ ds) (first, more) = (
      λ same_id same_version. absurd (
          ground (
            arith,
            first,
            (eq_iff (contract_key c) (contract_key d)).1 (
                ap (λ (i : String). i ++ "/" ++ json_number c.version) same_id
                ∙ ap (λ (v : ℤ). d.id ++ "/" ++ json_number v) same_version),
          )),
      apart ds more,
    )

-- A descriptor that Validate accepts names a contract of an id and a version only once.
pub check_descriptor-OneEach :
    (formats : Formats) (d : Descriptor) → check_descriptor formats d ≡ none → OneEach d.contracts
unfolding check_descriptor descriptor_checks
check_descriptor-OneEach formats d h =
    (contracts_distinct [] d.contracts
      (first_failure-none (descriptor_checks formats d) h).1.1.1.1.1.0).1

-- A decision with one outcome, the one that its kind says.
pub data IsExact : Decision → Type 0 where
  done :
      (payload : String)
      → nat_eq (len payload) 0 ≡ false
      → IsExact (record { kind = completed; payload = payload; need = none; error = none })
  asks :
      (payload : String) (n : Need)
      → len payload ≡ 0
      → n.request_id ≢ ""
      → n.continuation ≢ ""
      → n.deadline_ms ≢ 0
      → IsExact (record { kind = needs_data; payload = payload; need = some n; error = none })
  refuses :
      (payload : String) (e : Failure)
      → len payload ≡ 0
      → IsExact (record { kind = unsupported; payload = payload; need = none; error = some e })

-- A decision that Validate accepts has exactly the outcome of its kind, and a request for data
-- names its request and its continuation and has a deadline.
pub check_decision-IsExact :
    (formats : Formats) (d : Decision) → check_decision formats d ≡ none → IsExact d
unfolding check_decision decision_checks check_kind
check_decision-IsExact formats d h =
    let all = first_failure-none (decision_checks formats d) h in
    go d.kind d.payload d.need d.error (ground (arith, all.0)) all.1.0
  where
    go :
        (k : Kind) (payload : String) (need : Option Need) (error : Option Failure)
        → not (
            nat_eq
              (outcomes (record { kind = k; payload = payload; need = need; error = error }))
              1)
          ≡ false
        → check_kind formats (record { kind = k; payload = payload; need = need; error = error })
          ≡ none
        → IsExact (record { kind = k; payload = payload; need = need; error = error })
    go completed payload none none one fits = done payload (ground (arith, one))
    go completed payload (some n) e one fits = absurd (ground (arith, one, fits))
    go completed payload none (some e) one fits = absurd (ground (arith, one, fits))
    go needs_data payload none e one fits = absurd (ground (arith, fits))
    go needs_data payload (some n) (some e) one fits = absurd (ground (arith, one, fits))
    go needs_data payload (some n) none one fits =
        asks payload n (ground (arith, one))
          (λ p. ground (arith, fits, (eq_iff n.request_id "").1 p))
          (λ p. ground (arith, fits, (eq_iff n.continuation "").1 p)) (λ p. ground (arith, fits))
    go unsupported payload need none one fits = absurd (ground (arith, fits))
    go unsupported payload (some n) (some e) one fits = absurd (ground (arith, one, fits))
    go unsupported payload none (some e) one fits = refuses payload e (ground (arith, one))
    go (foreign_kind text) payload need e one fits = absurd (ground (arith, fits))
