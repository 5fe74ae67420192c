-- ===== src/Mysql/Constraints.antt =====
-- validateInitial of plugins/right/mysql-mock/prepare.go and constraintError of state.go.
-- `none` is success, `some` the error's text.
use Prim.Native.String
use x_mock_mcp.Prelude.{
  ℕ, suc, String, Bool, true, false, not, ◌&&◌, ◌||◌, Option, none, some, List, [], ◌∷◌, Assoc,
  lookup, length, ltb, nat_eq, ◌==◌, if◌then◌else◌,
}
use x_mock_mcp.Prelude.Text.{contains}
use x_mock_mcp.Mysql.Value.{
  Json, missing, null, text, other, Value, is_null, string_of, validate_value,
}
use x_mock_mcp.Mysql.Schema.{Entity, Field, ForeignKey, Table, cell, find_table}

-- Two raw messages that hold the same document.
unfoldable pub same_json : Json → Json → Bool
same_json missing missing = true
same_json null null = true
same_json (text a) (text b) = a == b
same_json (other a) (other b) = a == b
same_json _ _ = false

-- reflect.DeepEqual of two values
unfoldable pub deep_equal : Value → Value → Bool
unfolding same_json
deep_equal a b = a.type == b.type && same_json a.value b.value

-- The first error of a list of checks.
unfoldable pub or_else : Option String → Option String → Option String
or_else none next = next
or_else (some e) next = some e

unfoldable pub check_field : Field → Entity → Option String
unfolding validate_value is_null string_of
check_field f row = elim (lookup f.name row) [
  | none ↦ some (String.◌++◌ "missing column " f.name)
  | some v ↦ (elim (validate_value f.column v) [
    | some e ↦ some e
    | none ↦
        if f.type == "VARCHAR" && not (is_null v) && ltb f.max_length (String.count (string_of v).0)
        then some "VARCHAR too long"
        else none
  ])
]

unfoldable pub check_fields : List Field → Entity → Option String
unfolding check_field or_else
check_fields [] row = none
check_fields (f ∷ fs) row = or_else (check_field f row) (check_fields fs row)

-- A key that was seen: the index of its unique constraint, and its parts.
abbrev pub Key : Type 0
Key = ℕ × List Value

unfoldable pub same_parts : List Value → List Value → Bool
unfolding deep_equal
same_parts [] [] = true
same_parts (a ∷ as') (b ∷ bs) = deep_equal a b && same_parts as' bs
same_parts _ _ = false

unfoldable pub seen : Key → List Key → Bool
unfolding same_parts
seen (i, parts) [] = false
seen (i, parts) ((j, other_parts) ∷ keys) =
    (nat_eq i j && same_parts parts other_parts) || seen (i, parts) keys

unfoldable pub parts_of : List String → Entity → List Value
unfolding cell
parts_of [] row = []
parts_of (name ∷ names) row = cell row name ∷ parts_of names row

unfoldable pub has_null : List Value → Bool
unfolding is_null
has_null [] = false
has_null (v ∷ vs) = is_null v || has_null vs

-- The loop over the unique constraints of one row, from the i-th on; the primary key is the 0-th.
-- The keys seen so far come back too.
unfoldable pub check_keys :
    String → ℕ → List (List String) → Entity → List Key → Option String × List Key
unfolding parts_of has_null seen
check_keys name i [] row keys = (none, keys)
check_keys name i (columns ∷ rest) row keys =
    let parts = parts_of columns row in
    let skip = check_keys name (suc i) rest row keys in
    let next = check_keys name (suc i) rest row ((i, parts) ∷ keys) in
    if has_null parts && ltb 0 i
    then skip
    else if seen (i, parts) keys
    then (some (String.◌++◌ "duplicate key in " name), keys)
    else next

unfoldable pub check_row : Table → Entity → List Key → Option String × List Key
unfolding check_fields check_keys
check_row t row keys =
    if not (nat_eq (length row) (length t.columns))
    then (some (String.◌++◌ "initial " (String.◌++◌ t.name " must specify every column")), keys)
    else (elim (check_fields t.columns row) [
      | some e ↦ (some e, keys)
      | none ↦ check_keys t.name 0 (t.primary_key ∷ t.unique) row keys
    ])

unfoldable pub check_rows : Table → List Entity → List Key → Option String
unfolding check_row
check_rows t [] keys = none
check_rows t (row ∷ rows) keys =
    let (e, keys') = check_row t row keys in
    let rest = check_rows t rows keys' in elim e [ some message ↦ some message | none ↦ rest ]

unfoldable pub check_tables : List Table → Assoc (List Entity) → Option String
unfolding check_rows or_else find_table
check_tables tables [] = none
check_tables tables ((name, rows) ∷ more) =
    or_else
      (elim (find_table tables name) [
        | none ↦ some (String.◌++◌ "unknown initial table " name)
        | some t ↦
            if ltb 1000 (length rows)
            then some "initial rows exceed bound"
            else check_rows t rows []
      ])
      (check_tables tables more)

unfoldable pub rows_of : Assoc (List Entity) → String → List Entity
rows_of initial name = elim (lookup name initial) [ none ↦ [] | some rows ↦ rows ]

unfoldable pub refers : List String → List String → Entity → Entity → Bool
unfolding cell deep_equal
refers [] refs row target = true
refers (name ∷ names) [] row target = true
refers (name ∷ names) (ref ∷ refs) row target =
    deep_equal (cell row name) (cell target ref) && refers names refs row target

unfoldable pub refers_any : ForeignKey → Entity → List Entity → Bool
unfolding refers
refers_any fk row [] = false
refers_any fk row (target ∷ targets) =
    refers fk.columns fk.references row target || refers_any fk row targets

unfoldable pub check_references :
    Table → Entity → List ForeignKey → Assoc (List Entity) → Option String
unfolding refers_any rows_of
check_references t row [] initial = none
check_references t row (fk ∷ fks) initial =
    let rest = check_references t row fks initial in
    if refers_any fk row (rows_of initial fk.table)
    then rest
    else some (String.◌++◌ "foreign key not satisfied in initial " t.name)

unfoldable pub check_table_references : Table → List Entity → Assoc (List Entity) → Option String
unfolding check_references or_else
check_table_references t [] initial = none
check_table_references t (row ∷ rows) initial =
    or_else (check_references t row t.foreign_keys initial) (check_table_references t rows initial)

unfoldable pub check_foreign : List Table → Assoc (List Entity) → Option String
unfolding check_table_references or_else rows_of
check_foreign [] initial = none
check_foreign (t ∷ ts) initial =
    or_else (check_table_references t (rows_of initial t.name) initial) (check_foreign ts initial)

-- func validateInitial
unfoldable pub validate_initial : List Table → Assoc (List Entity) → Option String
unfolding check_tables check_foreign or_else
validate_initial tables initial =
    or_else (check_tables tables initial) (check_foreign tables initial)

-- A mysqlFailure, another error of the state, or the context's error.
pub data DbError : Type 0 where
  db_error : ℕ → String → String → DbError
  plain : String → DbError
  context : String → DbError

-- func constraintError
unfoldable pub constraint_error : String → DbError
unfolding contains
constraint_error message =
    if contains message "duplicate key"
    then db_error 1062 "23000" message
    else if contains message "foreign key"
    then db_error 1452 "23000" message
    else if contains message "VARCHAR too long"
    then db_error 1406 "22001" message
    else db_error 1048 "23000" message
