-- ===== src/Database.antt =====
-- The database layer, src/Database.
pub mod Insert
pub mod MySql
