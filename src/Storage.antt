-- ===== src/Storage.antt =====
-- storage/repository.py: the SQLite tables that the modelled managers use.
pub mod Table
pub mod Repository
