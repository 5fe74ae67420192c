-- ===== src/Mysql/Strategy/Complete.antt =====
-- Complete of plugins/right/mysql-mock/plugin.go: a candidate fills the slot of a continuation, and
-- the statement that waited for it is executed.
use x_mock_mcp.Mysql.Constraints.{validate_initial}
use x_mock_mcp.Mysql.Value.{Value, string_of}
use x_mock_mcp.Mysql.State.{Store, as_initial, at_table, clone_row, keys, next_version, view}
use x_mock_mcp.Mysql.Execute.Select.{Outcome, RowsResult, done, refused}
use x_mock_mcp.Mysql.Schema.{Entity, cell, equal_value, find_table, key_column}
use x_mock_mcp.Mysql.Strategy.Plugin.{
  Continuation, Plugin, Reply, Slot, end_with, faulted, given, is_over, of_core, of_state,
}
use x_mock_mcp.Prelude.{
  insert, Assoc, Bool, List, Option, String, [], if◌then◌else◌, leb, length, lookup, nat_eq, none,
  not, some, true, ℕ, ◌&&◌, ◌==◌, ◌||◌, ◌∷◌,
}
use x_mock_mcp.Mysql.Execute.Run.{Answer, commit_rows, execute}
use x_mock_mcp.Api.{
  Failure, Result, deadline_exceeded, err, fail, invalid, invalid_result, ok, state_conflict, Code,
}
use x_mock_mcp.Plugin.Descriptor.{has, is_some}

-- mysqlv1.EntityFill
pub record EntityFill : Type 0 where
  pub slot_id : String
  pub rows : List Entity

-- What Complete uses of other packages: the digest of a payload, and its decoding.
pub record Payloads : Type 0 where
  pub sum : String → String
  pub decode : String → Result EntityFill

pub record Resolved : Type 0 where
  pub request_id : String
  pub continuation : String
  pub state_version : ℕ
  pub payload : String

abbrev pub remove_key : String → List String → List String
remove_key k [] = []
remove_key k (j ∷ js) = let rest = remove_key k js in if k == j then rest else j ∷ rest

unfoldable pub keeps_fixed : Assoc Value → Entity → Bool
unfolding equal_value cell
keeps_fixed [] row = true
keeps_fixed ((name, v) ∷ fixed) row = equal_value v (cell row name) && keeps_fixed fixed row

abbrev pub refuse {ℓ} : {A : Type ℓ} → Failure → Result A
refuse e = err e

-- The loop over the rows of a fill: `keys` are those still to come, `rows` those of the table's view.
unfoldable pub place :
    Slot → String → List Entity → List String → Assoc Entity → Result (Assoc Entity)
unfolding string_of cell has keeps_fixed
place slot key_name [] keys rows = ok rows
place slot key_name (row ∷ later) keys rows =
    let (key, fine) = string_of (cell row key_name) in
    if not fine || not (has keys key)
    then err (fail invalid_result "unexpected or duplicate reference primary key")
    else (elim (lookup key rows) [
      | some old ↦ err (fail state_conflict "reference already exists")
      | none ↦
          if not (keeps_fixed slot.fixed row)
          then err (fail invalid_result "reference violates fixed QA constraint")
          else place slot key_name later (remove_key key keys) (insert key row rows)
    ])

-- The rows as they are committed.
unfoldable pub fill_rows : String → List Entity → Assoc (Option Entity)
unfolding string_of cell clone_row
fill_rows key_name [] = []
fill_rows key_name (row ∷ rows) =
    ((string_of (cell row key_name)).0, some (clone_row row)) ∷ fill_rows key_name rows

-- The section under s.mu. A slot is asked for only by a plan on its table, which Compile has found
-- in the scenario; for a missing table, which is refused here, the code would panic.
unfoldable pub fill_store : Slot → List Entity → Store → Result Store
unfolding view find_table key_column at_table place validate_initial as_initial fill_rows
    commit_rows
fill_store slot rows s = elim (find_table s.tables slot.table) [
  | none ↦ err (invalid "no table")
  | some t ↦ (elim (place slot (key_column t) rows slot.keys (at_table t.name (view s none))) [
    | err e ↦ err e
    | ok placed ↦
        elim (validate_initial s.tables (as_initial (insert t.name placed (view s none)))) [
          | some message ↦ err (fail invalid_result message)
          | none ↦ ok (record s {
            version = next_version s.version;
            committed =
                commit_rows t.name (next_version s.version) (fill_rows (key_column t) rows)
                  s.committed;
          })
        ]
  ])
]

abbrev pub reply_of : Outcome Answer → Reply
reply_of (done a) = given a
reply_of (refused e) = faulted (of_state e)

abbrev pub refusal : Failure → Reply
refusal e = faulted (of_core e)

-- The context of a call of Complete: its error, the time, and the context's error where execute
-- asks for it.
pub record Call : Type 0 where
  pub cancelled : Option Failure
  pub now_ms : ℕ
  pub before_ : Option String
  pub after_ : Option String

-- A continuation that is over gives its result again to the same candidate.
unfoldable pub repeated : String → Continuation → Reply
repeated hash n =
    if n.candidate_digest == hash
    then elim n.reply [
      | some (given a) ↦ given a
      | _ ↦ refusal (fail state_conflict "continuation already terminated")
    ]
    else refusal (fail state_conflict "continuation already terminated")

module _ (encoded_size : RowsResult → ℕ) (payloads : Payloads) where
  -- The statement that waited, over the store with the rows, if they could be placed.
  unfoldable pub run_statement : Call → Continuation → Store → Result Store → Option Store × Reply
  unfolding execute
  run_statement call n s (err e) = (some s, refusal e)
  run_statement call n s (ok s') =
      let (s'', out) =
        execute encoded_size call.before_ call.after_ n.connection_id n.plan n.params s' in
      (some s'', reply_of out)

  unfoldable pub fill_slot : Call → Continuation → EntityFill → Option Store → Option Store × Reply
  unfolding fill_store run_statement
  fill_slot call n fill none = (none, refusal (fail Code.cancelled "right stopped"))
  fill_slot call n fill (some s) = run_statement call n s (fill_store n.slot fill.rows s)

  unfoldable pub with_fill :
      Call → Continuation → Option Store → Result EntityFill → Option Store × Reply
  unfolding fill_slot
  with_fill call n store (err e) = (store, refusal e)
  with_fill call n store (ok fill) =
      if not (fill.slot_id == n.slot.id) || not (nat_eq (length fill.rows) (length n.slot.keys))
      then (store, refusal (fail invalid_result "reference slot or row count mismatch"))
      else fill_slot call n fill store

  unfoldable pub in_time :
      Call → Continuation → String → Option Store → Option Failure → Option Store × Reply
  unfolding with_fill
  in_time call n payload store (some e) = (store, refusal e)
  in_time call n payload store none =
      if leb n.deadline call.now_ms
      then (store, refusal (fail deadline_exceeded "late fill"))
      else with_fill call n store (payloads.decode payload)

  -- Complete for an open continuation: the store that it leaves, and its result.
  unfoldable pub attempt : Call → Continuation → String → Plugin → Option Store × Reply
  unfolding in_time
  attempt call n payload p =
      if is_some (lookup n.connection_id p.closed)
      then (p.store, refusal (fail Code.cancelled "connection closed"))
      else in_time call n payload p.store call.cancelled

  abbrev pub conclude : Resolved → Continuation → Plugin → Option Store × Reply → Plugin × Reply
  conclude r n p (store, reply) = (
    record p {
      store = store;
      pending = insert r.continuation (end_with (payloads.sum r.payload) reply n) p.pending;
    },
    reply,
  )

  -- func (p *plugin) Complete, with its deferred function.
  unfoldable pub complete : Call → Resolved → Plugin → Plugin × Reply
  unfolding is_over end_with attempt repeated
  complete call r p = elim (lookup r.continuation p.pending) [
    | none ↦ (p, refusal (fail state_conflict "continuation identity/version mismatch"))
    | some n ↦
        if not (n.request_id == r.request_id) || not (nat_eq r.state_version 0)
        then (p, refusal (fail state_conflict "continuation identity/version mismatch"))
        else if is_over n
        then (p, repeated (payloads.sum r.payload) n)
        else conclude r n p (attempt call n r.payload p)
  ]
