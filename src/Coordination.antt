-- ===== src/Coordination.antt =====
-- runtime/coordination.py: who owns a lease.
pub mod Models
pub mod Backend
pub mod Workers
