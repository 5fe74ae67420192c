-- ===== src/Mysql.antt =====
-- plugins/right/mysql-mock: the right plugin's in-memory MySQL state, with contracts/mysqlv1.
pub mod Value
pub mod Schema
pub mod Constraints
pub mod State
pub mod Execute
pub mod Command
pub mod Transaction
pub mod Grows
pub mod Statement
pub mod Isolation
pub mod Commit
pub mod Filling
pub mod Steps
pub mod Noting
pub mod Covered
pub mod Clock
pub mod Rollback
pub mod History
pub mod Strategy
mod Tests
