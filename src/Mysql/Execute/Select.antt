-- ===== src/Mysql/Execute/Select.antt =====
-- The SELECT branch of execute in state.go, and ValidateRows of contracts/mysqlv1/validate.go.
use x_mock_mcp.Prelude.{
  ℕ, zero, suc, ◌^◌, String, Bool, true, false, not, Option, none, some, List, [], ◌∷◌, Assoc,
  length, ltb, nat_eq, if◌then◌else◌,
}
use x_mock_mcp.Mysql.Value.{Json, Value, Column, SessionStatus, validate_value}
use x_mock_mcp.Mysql.Schema.{Entity, Order, Predicate, Plan, cell, row_matches, value_before}
use x_mock_mcp.Mysql.Constraints.{DbError, plain}

pub data Outcome {ℓ} (A : Type ℓ) : Type ℓ where
  done : A → Outcome A
  refused : DbError → Outcome A

pub record RowsResult : Type 0 where
  pub columns : List Column
  pub rows : List (List Json)
  pub status : SessionStatus

-- The comparison of sort.Slice: the first order whose columns differ decides.
unfoldable pub row_before : List Order → Entity → Entity → Bool
unfolding value_before cell
row_before [] a b = false
row_before (o ∷ os) a b =
    let rest = row_before os a b in
    if value_before (cell a o.column) (cell b o.column)
    then not o.descending
    else if value_before (cell b o.column) (cell a o.column)
    then o.descending
    else rest

unfoldable pub insert_row : List Order → Entity → List Entity → List Entity
unfolding row_before
insert_row os r [] = r ∷ []
insert_row os r (x ∷ xs) =
    let rest = insert_row os r xs in if row_before os x r then x ∷ rest else r ∷ x ∷ xs

-- sort.Slice, in one order of rows that compare equal.
unfoldable pub sort_rows : List Order → List Entity → List Entity
unfolding insert_row
sort_rows os [] = []
sort_rows os (r ∷ rs) = insert_row os r (sort_rows os rs)

-- The rows of a table's view that meet the predicates; `none` is an error of rowMatches.
unfoldable pub matching : Assoc Entity → List Predicate → List Value → Option (List Entity)
unfolding row_matches
matching [] ps params = some []
matching ((k, row) ∷ m) ps params =
    let rest = matching m ps params in
    elim (row_matches row ps params) [
      | none ↦ none
      | some true ↦ elim rest [ none ↦ none | some rows ↦ some (row ∷ rows) ]
      | some false ↦ rest
    ]

unfoldable pub take_rows : ℕ → List Entity → List Entity
take_rows zero rows = []
take_rows (suc n) [] = []
take_rows (suc n) (r ∷ rs) = r ∷ take_rows n rs

unfoldable pub project : List String → Entity → List Json
unfolding cell
project [] row = []
project (name ∷ names) row = (cell row name).value ∷ project names row

unfoldable pub validate_cells : List Column → List Json → Option String
unfolding validate_value
validate_cells [] cells = none
validate_cells (c ∷ cs) [] = none
validate_cells (c ∷ cs) (v ∷ vs) =
    let rest = validate_cells cs vs in
    elim (validate_value c (record { type = c.type; value = v })) [ some e ↦ some e | none ↦ rest ]

unfoldable pub validate_cell_rows : List Column → List (List Json) → Option String
unfolding validate_cells
validate_cell_rows cs [] = none
validate_cell_rows cs (row ∷ rows) =
    let rest = validate_cell_rows cs rows in
    if not (nat_eq (length row) (length cs))
    then some "row arity does not match columns"
    else (elim (validate_cells cs row) [ some e ↦ some e | none ↦ rest ])

module _ (encoded_size : RowsResult → ℕ) where
  -- func ValidateRows of a result under its own columns
  unfoldable pub validate_rows : RowsResult → Option String
  unfolding validate_cell_rows
  validate_rows r =
      if ltb 1000 (length r.rows)
      then some "row count exceeds 1000"
      else if ltb (2 ^ 20) (encoded_size r)
      then some "result exceeds 1 MiB"
      else validate_cell_rows r.columns r.rows

  abbrev pub by_key : String → List Order → List Order
  by_key key [] = record { column = key; descending = false } ∷ []
  by_key key (o ∷ os) = o ∷ os

  unfoldable pub limited : Option ℕ → List Entity → List Entity
  unfolding take_rows
  limited none rows = rows
  limited (some n) rows = if ltb n (length rows) then take_rows n rows else rows

  -- The branch for `select`, on the view of the plan's table.
  unfoldable pub run_select :
      Plan → String → Assoc Entity → List Value → SessionStatus → Outcome RowsResult
  unfolding matching sort_rows limited project validate_rows
  run_select p key rows params st = elim (matching rows p.predicates params) [
    | none ↦ refused (plain "operand")
    | some found ↦
        let sorted = limited p.limit (sort_rows (by_key key p.order) found) in
        let result : RowsResult = record {
          columns = p.columns;
          rows = projected p.projection sorted;
          status = st;
        } in
        elim (validate_rows result) [ some e ↦ refused (plain e) | none ↦ done result ]
  ]
    where
      projected : List String → List Entity → List (List Json)
      projected names [] = []
      projected names (r ∷ rs) = project names r ∷ projected names rs
