-- ===== src/Mysql/Execute.antt =====
-- func (s *state) execute of plugins/right/mysql-mock/state.go. Each call gives the store that it
-- leaves behind beside its result or its error, since some fields are written before an error.
-- The size of a result's JSON text is a parameter: it is up to package encoding/json.
pub mod Select
pub mod Changes
pub mod Run
