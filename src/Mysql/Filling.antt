-- ===== src/Mysql/Filling.antt =====
-- The section of Complete of plugins/right/mysql-mock/plugin.go that commits the rows of a fill.
use x_mock_mcp.Mysql.Schema.{Entity, Table, find_table, key_column}
use x_mock_mcp.Mysql.Constraints.{validate_initial}
use x_mock_mcp.Mysql.State.{Store, as_initial, at_table, next_version, view}
use x_mock_mcp.Mysql.Execute.Run.{commit_rows}
use x_mock_mcp.Mysql.Strategy.Plugin.{Slot}
use x_mock_mcp.Mysql.Strategy.Complete.{fill_rows, fill_store, place}
use x_mock_mcp.Api.{Result, err, fail, invalid, invalid_result, ok}
use x_mock_mcp.Prelude.{Assoc, List, Option, String, ap, arith, insert, none, some, subst, ◌≡◌}

-- The store after the rows of a fill were committed.
pub data FilledIn (s : Store) : Store → Type 0 where
  filled_in :
      (t : String) (rows : Assoc (Option Entity))
      → FilledIn s (record s {
        version = next_version s.version;
        committed = commit_rows t (next_version s.version) rows s.committed;
      })

pub fill_store-FilledIn :
    (slot : Slot) (rows : List Entity) (s s' : Store)
    → fill_store slot rows s ≡ ok s'
    → FilledIn s s'
unfolding fill_store
fill_store-FilledIn slot rows s s' h = go (find_table s.tables slot.table) h
  where
    checked :
        (t : Table) (placed : Assoc Entity) (o : Option String)
        → (elim o as (λ _. Result Store) [
          | some message ↦ err (fail invalid_result message)
          | none ↦ ok (record s {
            version = next_version s.version;
            committed =
                commit_rows t.name
                  (next_version s.version)
                  (fill_rows (key_column t) rows)
                  s.committed;
          })
        ])
          ≡ ok s'
        → FilledIn s s'
    checked t placed none h =
        subst (FilledIn s)
          (ap (λ (r : Result Store). elim r as (λ _. Store) [ ok z ↦ z | err e ↦ s ]) h)
          (filled_in t.name (fill_rows (key_column t) rows))
    checked t placed (some message) h = absurd (ground (arith, h))

    placed_in :
        (t : Table) (o : Result (Assoc Entity))
        → (elim o as (λ _. Result Store) [
          | err e ↦ err e
          | ok placed ↦
              elim (validate_initial s.tables (as_initial (insert t.name placed (view s none)))) [
                | some message ↦ err (fail invalid_result message)
                | none ↦ ok (record s {
                  version = next_version s.version;
                  committed =
                      commit_rows t.name
                        (next_version s.version)
                        (fill_rows (key_column t) rows)
                        s.committed;
                })
              ]
        ])
          ≡ ok s'
        → FilledIn s s'
    placed_in t (err e) h = absurd (ground (arith, h))
    placed_in t (ok placed) h =
        checked t placed
          (validate_initial s.tables (as_initial (insert t.name placed (view s none)))) h

    go :
        (o : Option Table)
        → (elim o as (λ _. Result Store) [
          | none ↦ err (invalid "no table")
          | some t ↦
              (elim (place slot (key_column t) rows slot.keys (at_table t.name (view s none))) [
                | err e ↦ err e
                | ok placed ↦
                    elim (validate_initial s.tables
                      (as_initial (insert t.name placed (view s none)))) [
                        | some message ↦ err (fail invalid_result message)
                        | none ↦ ok (record s {
                          version = next_version s.version;
                          committed =
                              commit_rows t.name
                                (next_version s.version)
                                (fill_rows (key_column t) rows)
                                s.committed;
                        })
                      ]
              ])
        ])
          ≡ ok s'
        → FilledIn s s'
    go none h = absurd (ground (arith, h))
    go (some t) h =
        placed_in t (place slot (key_column t) rows slot.keys (at_table t.name (view s none))) h
