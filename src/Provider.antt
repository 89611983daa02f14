-- ===== src/Provider.antt =====
-- runtime/provider_health.py: provider health, cooldown and rate limits.
pub mod Models
pub mod Health
