-- ===== src/Trace/Documents.antt =====
-- internal/scenario/store.go: the versions of a scenario document, with ValidID.
use x_mock_mcp.Api.{Failure, Result, err, fail, invalid, not_found, ok, state_conflict}
use x_mock_mcp.Prelude.Int.{eqb_ℤ, ltb_ℤ, pos, pos_part, ◌+ℤ◌, ℤ}
use x_mock_mcp.Prelude.{
  Option, [], get_elem?, if◌then◌else◌, insert, length, lookup, none, not, some, ℕ, ◌++◌, ◌+◌, ◌-◌,
  ◌==◌, ◌^◌, ◌∷◌, Assoc, Bool, List, String, false, leb, nat_eq, ◌&&◌, ◌||◌,
}
use Prim.Native.String.{count, len}
use x_mock_mcp.Catalog.Reference.{Reference, right, every, in_range, validate}
use Prim.Native.Char.{Char, code}

pub record Document : Type 0 where
  pub id : String
  pub version : ℤ
  pub plugin : Reference
  pub contract_id : String
  pub contract_version : ℤ
  pub input : String
  pub body : String

-- The versions in each document's file, oldest first.
abbrev pub Store : Type 0
Store = Assoc (List Document)

abbrev pub is_letter_or_digit : Char → Bool
is_letter_or_digit c = in_range b'a' b'z' c || in_range b'A' b'Z' c || in_range b'0' b'9' c

-- ^[a-zA-Z0-9][a-zA-Z0-9_.-]{0,95}$
unfoldable pub valid_id : String → Bool
unfolding every
valid_id String.[] = false
valid_id (String.◌∷◌ c s) =
    is_letter_or_digit c
    && leb (count s) 95
    && every
        (λ d.
          is_letter_or_digit d
          || nat_eq (code d) b'_'
          || nat_eq (code d) b'.'
          || nat_eq (code d) b'-')
        s

unfoldable pub body_bound : Document → Bool
body_bound d = leb 1 (len d.body) && leb (len d.body + len d.input) (2 ^ 21)

-- The checks of Put before the validator runs.
unfoldable pub refuses_put : Document → ℤ → Option Failure
unfolding valid_id body_bound validate
refuses_put d expected =
    if not (valid_id d.id)
      || ltb_ℤ expected (pos 0)
      || (not (eqb_ℤ d.version (pos 0)) && not (eqb_ℤ d.version (expected +ℤ pos 1)))
      || not (body_bound d)
    then some (invalid "invalid document ID, version or size")
    else (elim (validate (record d.plugin { role = right })) [
      | some e ↦ some e
      | none ↦
          if d.contract_id == "" || ltb_ℤ d.contract_version (pos 1)
          then some (invalid "contract required")
          else none
    ])

abbrev pub documents : Option (List Document) → List Document
documents none = []
documents (some ds) = ds

-- What may fail: the lock, the context or reading the versions, and replacing the file.
pub record Faults : Type 0 where
  pub opening : Option Failure
  pub saving : Option Failure

-- The part of Put under the lock, for the validated document. `stored_form` is what decoding gives of
-- an encoded document: encoding/json writes a json.RawMessage without its white space, and escaped.
-- The versions that were decoded from the file are written as they were there.
unfoldable pub put_locked :
    (Document → Document) → Faults → String → Document → ℕ → Store → Store × Result Document
put_locked stored_form f id d expected s = elim f.opening [
  | some e ↦ (s, err e)
  | none ↦
      if not (nat_eq (length (documents (lookup id s))) expected)
      then (s, err (fail state_conflict "scenario version changed"))
      else (elim f.saving [
        | some e ↦ (s, err e)
        | none ↦ (insert id (documents (lookup id s) ++ (stored_form d ∷ [])) s, ok d)
      ])
]

-- func (s *Store) Put. The validator is a parameter, as it is to the store.
unfoldable pub put :
    (Document → Document)
    → (Document → Result Document)
    → Faults
    → Document
    → ℤ
    → Store
    → Store × Result Document
unfolding refuses_put put_locked
put stored_form check f d expected s = elim (refuses_put d expected) [
  | some e ↦ (s, err e)
  | none ↦ (elim (check d) [
    | err e ↦ (s, err e)
    | ok checked ↦
        put_locked stored_form f d.id (record checked { version = expected +ℤ pos 1 })
          (pos_part expected) s
  ])
]

-- docs[version-1], where there is one
unfoldable pub nth : List Document → ℤ → Result Document
nth ds version =
    if ltb_ℤ version (pos 1) || ltb_ℤ (pos (length ds)) version
    then err (fail not_found "scenario version does not exist")
    else (elim (get_elem? ds (pos_part version - 1)) [
      | none ↦ err (fail not_found "scenario version does not exist")
      | some d ↦ ok d
    ])

-- func (s *Store) Get
unfoldable pub get : Option Failure → String → ℤ → Store → Result Document
unfolding valid_id nth
get opening id version s = elim opening [
  | some e ↦ err e
  | none ↦
      if not (valid_id id)
      then err (invalid "invalid scenario ID")
      else nth (documents (lookup id s)) version
]
