-- ===== src/Mysql/Strategy/Match.antt =====
-- matchStatement of plugins/right/mysql-mock/match.go: which declared statement a text of SQL is.
-- The parser is another project's: `compile` is Compile for a text with the parameters of a declared
-- statement, or with none, and `markers` is the number of its parameter markers. Plans that Compile
-- gave name no parameter that the statement lacks: there the code would panic.
use x_mock_mcp.Prelude.Int.{eqb_ℤ, negsuc, pos, ℤ}
use x_mock_mcp.Mysql.Strategy.Plugin.{Parameter, Statement}
use x_mock_mcp.Mysql.Value.{Column, Value, validate_value, zero_value}
use x_mock_mcp.Prelude.{
  Bool, List, Option, [], false, get_elem?, if◌then◌else◌, length, ltb, map, nat_eq, none, not,
  some, suc, zero, ℕ, ◌&&◌, ◌==◌, ◌||◌, ◌∷◌,
}
use x_mock_mcp.Mysql.Schema.{Assignment, Operand, Plan, Predicate, equal_value}

-- values and assigned: what each parameter of the statement stands for so far.
abbrev pub Assigned : Type 0
Assigned = List (Option Value)

unfoldable pub set_at : ℕ → Value → Assigned → Assigned
set_at i v [] = []
set_at zero v (x ∷ xs) = some v ∷ xs
set_at (suc i) v (x ∷ xs) = x ∷ set_at i v xs

abbrev pub value_at : Assigned → ℕ → Option Value
value_at xs i = elim (get_elem? xs i) [ none ↦ none | some x ↦ x ]

-- The end of matchOperand: a parameter has one value.
unfoldable pub assign : ℕ → Value → Assigned → Option Assigned
unfolding set_at equal_value
assign i v xs = elim (value_at xs i) [
  | none ↦ some (set_at i v xs)
  | some old ↦ if equal_value old v then some (set_at i v xs) else none
]

abbrev pub same_literal : Option Value → Option Value → Bool
same_literal (some a) (some b) = equal_value a b
same_literal _ _ = false

abbrev pub index_of : ℤ → ℕ
index_of (pos i) = i
index_of (negsuc i) = 0

-- matchOperand; `none` is false.
unfoldable pub match_operand : Bool → List Value → Operand → Operand → Assigned → Option Assigned
unfolding assign equal_value
match_operand prepare args want got xs = elim want.parameter [
  | none ↦ (elim got.parameter [
    | some j ↦ none
    | none ↦ if same_literal want.literal got.literal then some xs else none
  ])
  | some i ↦ (elim got.parameter [
    | some j ↦
        if not (eqb_ℤ j i)
        then none
        else if prepare
        then some xs
        else (elim (get_elem? args (index_of i)) [
          | none ↦ none
          | some v ↦ assign (index_of i) v xs
        ])
    | none ↦ (elim got.literal [ none ↦ none | some v ↦ assign (index_of i) v xs ])
  ])
]

unfoldable pub match_predicates :
    Bool → List Value → List Predicate → List Predicate → Assigned → Option Assigned
unfolding match_operand
match_predicates prepare args (w ∷ ws) (g ∷ gs) xs =
    if w.column == g.column
    then elim (match_operand prepare args w.value g.value xs) [
      | none ↦ none
      | some xs' ↦ match_predicates prepare args ws gs xs'
    ]
    else none
match_predicates prepare args _ _ xs = some xs

unfoldable pub match_assignments :
    Bool → List Value → List Assignment → List Assignment → Assigned → Option Assigned
unfolding match_operand
match_assignments prepare args (w ∷ ws) (g ∷ gs) xs =
    if w.column == g.column && w.add_from == g.add_from
    then elim (match_operand prepare args w.value g.value xs) [
      | none ↦ none
      | some xs' ↦ match_assignments prepare args ws gs xs'
    ]
    else none
match_assignments prepare args _ _ xs = some xs

-- reflect.DeepEqual on the parts of a plan, and the tests of the lengths. `same_shape` compares the
-- kind, the table, the projection, the columns, the order and the limit.
unfoldable pub same_plan : (Plan → Plan → Bool) → Plan → Plan → Bool
same_plan same_shape want got =
    same_shape want got
    && nat_eq (length want.predicates) (length got.predicates)
    && nat_eq (length want.assignments) (length got.assignments)

unfoldable pub is_allowed : List Value → Value → Bool
unfolding equal_value
is_allowed [] v = false
is_allowed (a ∷ rest) v = equal_value a v || is_allowed rest v

-- The loop over the values; `none` is a value that is missing, of another type or not allowed.
unfoldable pub check_values : List Parameter → List Column → Assigned → Option (List Value)
unfolding validate_value is_allowed
check_values (p ∷ ps) (c ∷ cs) (some v ∷ xs) =
    let rest = check_values ps cs xs in
    elim (validate_value c v) [
      | some e ↦ none
      | none ↦
          if is_allowed p.allowed v
          then elim rest [ none ↦ none | some vs ↦ some (v ∷ vs) ]
          else none
    ]
check_values ps cs [] = some []
check_values _ _ _ = none

unfoldable pub unassigned : List Parameter → Assigned
unassigned [] = []
unassigned (p ∷ ps) = none ∷ unassigned ps

abbrev pub or_null : Option Value → Value
or_null none = zero_value
or_null (some v) = v

-- One turn of the loop over the statements, for the plan of the text.
unfoldable pub match_one :
    (Plan → Plan → Bool) → ℕ → Bool → List Value → Statement → Plan → Plan → Option (List Value)
unfolding same_plan match_predicates match_assignments unassigned check_values
match_one same_shape markers prepare args s want got =
    if not (same_plan same_shape want got)
    then none
    else elim (match_predicates prepare args want.predicates got.predicates
        (unassigned s.parameters)) [
          | none ↦ none
          | some xs ↦ (elim (match_assignments prepare args want.assignments got.assignments xs) [
            | none ↦ none
            | some ys ↦
                if prepare
                then some (map or_null ys)
                else if ltb 0 markers && not (nat_eq (length args) (length ys))
                then none
                else check_values s.parameters want.parameters ys
          ])
        ]

-- func matchStatement for a text with one parsed statement: the first that matches.
unfoldable pub match_statement :
    (Plan → Plan → Bool)
    → (Statement → Option Plan)
    → ℕ
    → Bool
    → List Value
    → List Statement
    → Option (Statement × List Value)
unfolding match_one
match_statement same_shape compile markers prepare args [] = none
match_statement same_shape compile markers prepare args (s ∷ ss) =
    let later = match_statement same_shape compile markers prepare args ss in
    elim (compile s) [
      | none ↦ later
      | some got ↦ (elim s.plan [
        | none ↦ later
        | some want ↦ (elim (match_one same_shape markers prepare args s want got) [
          | none ↦ later
          | some values ↦ some (s, values)
        ])
      ])
    ]
