-- ===== src/Commons/Queries.antt =====
-- internal/commons/queries.go: reading the board, with the changes that wait on branches.
pub mod Browse
pub mod Overrides
pub mod Dashboard
pub mod ItemState
