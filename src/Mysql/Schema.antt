-- ===== src/Mysql/Schema.antt =====
-- plugins/right/mysql-mock/scenario_types.go: tables, plans and the rows of state.go, with the
-- helpers of state.go and ddl.go that read them.
use x_mock_mcp.Prelude.{
  ℕ, String, Bool, true, false, not, ◌&&◌, ◌||◌, Option, none, some, List, [], ◌∷◌, Assoc, lookup,
  get_elem?, ◌==◌, if◌then◌else◌,
}
use x_mock_mcp.Prelude.Int.{ℤ, pos, ltb_ℤ}
use x_mock_mcp.Prelude.Text.{before}
use x_mock_mcp.Mysql.Value.{
  Value, Json, zero_value, Column, is_null, string_of, int64_of, null_value,
}

-- type Entity map[string]mysqlv1.Value
abbrev pub Entity : Type 0
Entity = Assoc Value

pub record Field : Type 0 where
  pub column : Column
  pub open column use *
  pub max_length : ℕ
  pub default : Option Value
  pub auto_increment : Bool

pub record ForeignKey : Type 0 where
  pub columns : List String
  pub table : String
  pub references : List String

pub record Table : Type 0 where
  pub name : String
  pub columns : List Field
  pub primary_key : List String
  pub unique : List (List String)
  pub foreign_keys : List ForeignKey

pub record Operand : Type 0 where
  pub parameter : Option ℤ
  pub literal : Option Value

pub record Predicate : Type 0 where
  pub column : String
  pub value : Operand

pub record Assignment : Type 0 where
  pub column : String
  pub add_from : String
  pub value : Operand

pub record Order : Type 0 where
  pub column : String
  pub descending : Bool

-- The texts of the field `Kind`: Compile gives the four first; the state refuses any other text.
pub data Kind : Type 0 where
  select insert update delete unknown : Kind

pub record Plan : Type 0 where
  pub kind : Kind
  pub table : String
  pub projection : List String
  pub columns : List Column
  pub predicates : List Predicate
  pub assignments : List Assignment
  pub order : List Order
  pub limit : Option ℕ
  pub parameters : List Column

-- row[name], the zero Value where the row has no such column
unfoldable pub cell : Entity → String → Value
cell row name = elim (lookup name row) [ none ↦ zero_value | some v ↦ v ]

-- table.PrimaryKey[0]; ParseDDL gives every table exactly one.
unfoldable pub key_column : Table → String
key_column t = elim t.primary_key [ [] ↦ "" | k ∷ ks ↦ k ]

-- func findTable
unfoldable pub find_table : List Table → String → Option Table
find_table [] name = none
find_table (t ∷ ts) name = if t.name == name then some t else find_table ts name

-- func (t Table) Field
unfoldable pub find_field : List Field → String → Option Field
find_field [] name = none
find_field (f ∷ fs) name = if f.name == name then some f else find_field fs name

-- func operandValue; `none` is its error.
unfoldable pub operand_value : Operand → List Value → Option Value
operand_value op params = elim op.parameter [
  | some (pos i) ↦ get_elem? params i
  | some i ↦ none
  | none ↦ op.literal
]

-- func equalValue
unfoldable pub equal_value : Value → Value → Bool
unfolding is_null string_of
equal_value a b =
    if not (a.type == b.type) || not (same (is_null a) (is_null b))
    then false
    else if is_null a
    then true
    else (let (x, e) = string_of a in let (y, f) = string_of b in e && f && x == y)
  where
    same : Bool → Bool → Bool
    same true c = c
    same false c = not c

-- func rowMatches; `none` is its error.
unfoldable pub row_matches : Entity → List Predicate → List Value → Option Bool
unfolding operand_value cell is_null equal_value
row_matches row [] params = some true
row_matches row (p ∷ ps) params =
    let rest = row_matches row ps params in
    elim (operand_value p.value params) [
      | none ↦ none
      | some v ↦
          if is_null v || is_null (cell row p.column) || not (equal_value (cell row p.column) v)
          then some false
          else rest
    ]

-- func compareValue, as "a comes strictly before b".
unfoldable pub value_before : Value → Value → Bool
unfolding is_null int64_of string_of
value_before a b =
    if is_null a
    then not (is_null b)
    else if is_null b
    then false
    else if a.type == "BIGINT"
    then ltb_ℤ (int64_of a).0 (int64_of b).0
    else not (before (string_of b).0 (string_of a).0)

-- func cloneRow of a row that is not nil
unfoldable pub clone_value : Value → Value
unfolding is_null string_of null_value
clone_value v =
    if is_null v then null_value v.type else record v { value = Json.text (string_of v).0 }
