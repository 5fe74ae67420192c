-- ===== src/Mysql/Execute/Changes.antt =====
-- The INSERT, UPDATE and DELETE branches of execute in state.go: the rows that a statement changes.
use x_mock_mcp.Prelude.{
  ℕ, suc, String, Bool, true, false, not, ◌&&◌, ◌||◌, Option, none, some, List, [], ◌∷◌, Assoc,
  lookup, insert, erase, ◌==◌, if◌then◌else◌,
}
use x_mock_mcp.Prelude.Int.{ℤ, pos, negsuc, pos_part, ltb_ℤ, eqb_ℤ, ◌+ℤ◌}
use x_mock_mcp.Mysql.Value.{Value, is_null, string_of, int64_of, int_value, null_value, max_int64}
use x_mock_mcp.Mysql.Schema.{
  Entity, Field, Table, Assignment, Plan, update, delete, cell, key_column, operand_value,
  equal_value, row_matches,
}
use x_mock_mcp.Mysql.Schema
use x_mock_mcp.Mysql.Constraints.{DbError, db_error, plain}
use x_mock_mcp.Mysql.State.{clone_row}
use x_mock_mcp.Mysql.Execute.Select.{Outcome, done, refused}

-- The variables `changes`, `matched`, `changed` and `insertID` of execute. A row that is `none` is
-- deleted.
pub record Changes : Type 0 where
  pub rows : Assoc (Option Entity)
  pub matched : ℕ
  pub changed : ℕ
  pub insert_id : ℕ

-- The columns of a new row that have a default or allow NULL.
unfoldable pub default_row : List Field → Entity → Entity
unfolding null_value
default_row [] row = row
default_row (f ∷ fs) row = default_row fs (elim f.default [
  | some v ↦ insert f.name v row
  | none ↦ if f.nullable then insert f.name (null_value f.type) row else row
])

-- `none` is an error of operandValue.
unfoldable pub assign : List Assignment → List Value → Entity → Option Entity
unfolding operand_value
assign [] params row = some row
assign (a ∷ as') params row = elim (operand_value a.value params) [
  | none ↦ none
  | some v ↦ assign as' params (insert a.column v row)
]

-- s.nextIDs[table.Name], 0 where the map lacks it
unfoldable pub next_id : String → Assoc ℤ → ℤ
next_id t ids = elim (lookup t ids) [ none ↦ pos 0 | some n ↦ n ]

unfoldable pub vacant : Option Value → Bool
unfolding is_null
vacant none = true
vacant (some v) = is_null v

-- The row, the identifier drawn for it and the table's next identifiers, while the loop over the
-- columns runs.
pub record Draft : Type 0 where
  pub row : Entity
  pub insert_id : ℕ
  pub ids : Assoc ℤ

abbrev pub exhausted : DbError
exhausted = db_error 1467 "HY000" "auto increment exhausted"

-- The body of the loop, for one automatic column.
unfoldable pub auto_column : String → String → Draft → Outcome Draft
unfolding vacant next_id int_value int64_of cell
auto_column t name d =
    if vacant (lookup name d.row)
    then (let n = next_id t d.ids in
        if not (ltb_ℤ (pos 0) n) || eqb_ℤ n (pos max_int64)
        then refused exhausted
        else done (record {
          row = insert name (int_value n) d.row;
          insert_id = pos_part n;
          ids = insert t (n +ℤ pos 1) d.ids;
        }))
    else (let (n, fine) = int64_of (cell d.row name) in
        if not fine || not (ltb_ℤ (pos 0) n)
        then refused (db_error 1235 "42000" "only positive explicit auto increment IDs supported")
        else if ltb_ℤ n (next_id t d.ids)
        then done d
        else if eqb_ℤ n (pos max_int64)
        then refused exhausted
        else done (record d { ids = insert t (n +ℤ pos 1) d.ids }))

-- The loop over the columns; beside an error stand the identifiers as it left them.
unfoldable pub auto_columns : String → List Field → Draft → Outcome Draft × Assoc ℤ
unfolding auto_column
auto_columns t [] d = (done d, d.ids)
auto_columns t (f ∷ fs) d =
    let skip = auto_columns t fs d in
    if not f.auto_increment then skip else (elim (auto_column t f.name d) [
      | refused e ↦ (refused e, d.ids)
      | done d' ↦ auto_columns t fs d'
    ])

unfoldable pub keyed : Table → Assoc Entity → Draft → Outcome Changes
unfolding string_of cell key_column clone_row
keyed t rows d =
    let (key, fine) = string_of (cell d.row (key_column t)) in
    if not fine
    then refused (db_error 1364 "HY000" "primary key missing")
    else (elim (lookup key rows) [
      | some row ↦ refused (db_error 1062 "23000" "duplicate primary key")
      | none ↦ done (record {
        rows = (key, some (clone_row d.row)) ∷ [];
        matched = 1;
        changed = 1;
        insert_id = d.insert_id;
      })
    ])

-- case "insert"
unfoldable pub insert_changes :
    Table → Plan → List Value → Assoc Entity → Assoc ℤ → Outcome Changes × Assoc ℤ
unfolding default_row assign auto_columns keyed
insert_changes t p params rows ids = elim (assign p.assignments params (default_row t.columns [])) [
  | none ↦ (refused (plain "operand"), ids)
  | some row ↦
      let (drafted, ids') =
        auto_columns t.name t.columns (record { row = row; insert_id = 0; ids = ids }) in
      (elim drafted [ refused e ↦ refused e | done d ↦ keyed t rows d ], ids')
]

-- base + delta, or the error of an overflow
unfoldable pub add_int64 : ℤ → ℤ → Outcome Value
unfolding int_value ◌+ℤ◌
add_int64 base delta =
    if (ltb_ℤ (pos 0) delta && ltb_ℤ (pos max_int64) (base +ℤ delta))
      || (ltb_ℤ delta (pos 0) && ltb_ℤ (base +ℤ delta) (negsuc max_int64))
    then refused (db_error 1690 "22003" "BIGINT overflow")
    else done (int_value (base +ℤ delta))

-- The value that one assignment of UPDATE gives.
unfoldable pub assigned : Assignment → List Value → Entity → Outcome Value
unfolding operand_value int64_of cell add_int64
assigned a params row = elim (operand_value a.value params) [
  | none ↦ refused (plain "operand")
  | some v ↦
      if a.add_from == ""
      then done v
      else (let (base, fine) = int64_of (cell row a.add_from) in
          let (delta, delta_fine) = int64_of v in
          if not fine || not delta_fine then refused (plain "number") else add_int64 base delta)
]

-- The loop over the assignments; the flag is `different`.
unfoldable pub set_columns : List Assignment → List Value → Entity → Bool → Outcome (Entity × Bool)
unfolding assigned equal_value cell
set_columns [] params row different = done (row, different)
set_columns (a ∷ as') params row different = elim (assigned a params row) [
  | refused e ↦ refused e
  | done v ↦
      set_columns as' params (insert a.column v row)
        (different || not (equal_value (cell row a.column) v))
]

abbrev pub no_changes : Changes
no_changes = record { rows = []; matched = 0; changed = 0; insert_id = 0 }

abbrev pub add_update : String → Entity × Bool → Changes → Changes
add_update key (row, true) c = record c {
  rows = (key, some row) ∷ c.rows;
  matched = suc c.matched;
  changed = suc c.changed;
}
add_update key (row, false) c = record c { matched = suc c.matched }

-- case "update"
unfoldable pub update_changes : Plan → List Value → Assoc Entity → Outcome Changes
unfolding row_matches set_columns clone_row
update_changes p params [] = done no_changes
update_changes p params ((key, existing) ∷ m) =
    let rest = update_changes p params m in
    elim (row_matches existing p.predicates params) [
      | none ↦ refused (plain "operand")
      | some false ↦ rest
      | some true ↦ (elim (set_columns p.assignments params (clone_row existing) false) [
        | refused e ↦ refused e
        | done (row, different) ↦ (elim rest [
          | refused e ↦ refused e
          | done c ↦ done (add_update key (clone_row row, different) c)
        ])
      ])
    ]

-- case "delete"
unfoldable pub delete_changes : Plan → List Value → Assoc Entity → Outcome Changes
unfolding row_matches
delete_changes p params [] = done no_changes
delete_changes p params ((key, row) ∷ m) =
    let rest = delete_changes p params m in
    elim (row_matches row p.predicates params) [
      | none ↦ refused (plain "operand")
      | some false ↦ rest
      | some true ↦ (elim rest [
        | refused e ↦ refused e
        | done c ↦ done (record c { rows = (key, none) ∷ c.rows; changed = suc c.changed })
      ])
    ]

-- The switch on p.Kind, with the identifiers that it leaves.
unfoldable pub changes_of :
    Schema.Kind → Table → Plan → List Value → Assoc Entity → Assoc ℤ → Outcome Changes × Assoc ℤ
unfolding insert_changes update_changes delete_changes
changes_of Schema.Kind.insert t p params rows ids = insert_changes t p params rows ids
changes_of update t p params rows ids = (update_changes p params rows, ids)
changes_of delete t p params rows ids = (delete_changes p params rows, ids)
changes_of _ t p params rows ids =
    (refused (db_error 1235 "42000" "unsupported state operation"), ids)

-- The changes over the rows of the view.
unfoldable pub apply_changes : Assoc (Option Entity) → Assoc Entity → Assoc Entity
apply_changes [] rows = rows
apply_changes ((k, none) ∷ m) rows = apply_changes m (erase k rows)
apply_changes ((k, some row) ∷ m) rows = apply_changes m (insert k row rows)
