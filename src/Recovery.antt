-- ===== src/Recovery.antt =====
-- The recovery engine: checkpoints, restores and incidents.
pub mod Models
pub mod Engine
