-- ===== src/Commons.antt =====
-- internal/commons: the wanted board and its lifecycle.
pub mod Types
pub mod Lifecycle
pub mod Sql
pub mod Dml
pub mod Db
pub mod Store
pub mod Rows
pub mod Queries
pub mod Ranking
