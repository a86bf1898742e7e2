-- ===== src/Store.antt =====
-- internal/store: the tables of the SQLite database, one module for each group of tables.
pub mod Auth
pub mod Deploys
pub mod Domains
