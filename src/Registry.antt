-- ===== src/Registry.antt =====
-- The policy registry of runtime/policy_registry.py.
pub mod Models
pub mod Manager
