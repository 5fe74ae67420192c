-- ===== src/Mysql/Rollback.antt =====
-- ROLLBACK in control of transaction.go.
use x_mock_mcp.Mysql.Isolation.{conn-put_conn}
use x_mock_mcp.Mysql.Transaction.{clear_transaction, control, obey}
use x_mock_mcp.Mysql.Steps.{answered-store}
use x_mock_mcp.Prelude.{String, eq_refl, false, none, refl, some, ◌≡◌}
use x_mock_mcp.Mysql.State.{Connection, Store, conn, overlay, put_conn, view}
use x_mock_mcp.Mysql.Command.{Command, classify, normal}

rolled_back :
    (id sql : String) (s : Store)
    → classify (normal sql) ≡ Command.rollback_tx
    → (control none id sql s).0
      ≡ put_conn id (clear_transaction (conn id s)) (put_conn id (conn id s) s)
unfolding control obey
rolled_back id sql s e = simp (control, e, answered-store) refl

self : (id : String) (c : Connection) (s : Store) → conn id (put_conn id c s) ≡ c
self id c s = rw (conn-put_conn, eq_refl) refl

-- After a ROLLBACK the connection sees exactly the committed rows again, nothing of which has
-- changed, and it is in no transaction.
pub control-rollback :
    (id sql : String) (s : Store)
    → classify (normal sql) ≡ Command.rollback_tx
    → (view (control none id sql s).0 (some (conn id (control none id sql s).0)) ≡ view s none)
      × ((control none id sql s).0.committed ≡ s.committed)
      × ((conn id (control none id sql s).0).active ≡ false)
unfolding view overlay put_conn clear_transaction
control-rollback id sql s e = rw (rolled_back id sql s e, self) (refl, refl, refl)
