-- ===== src/Provider/Health/Snapshot.antt =====
-- `ProviderHealthManager.snapshot` of runtime/provider_health.py.
use contract_evidence_os.Prelude.{
  String, ◌&&◌, Option, none, some, List, [], ◌∷◌, ◌==◌, leb, if◌then◌else◌,
}
use contract_evidence_os.Base.Exec.{
  Datetime, Env, Exec, pure, gets, modify, new_id, now_or, ◌>>=◌, ◌>>◌,
}
use contract_evidence_os.Provider.Models.{
  ProviderHealthRecord, ProviderHealthSnapshot, RateLimitState, ProviderCooldownWindow,
}
use contract_evidence_os.Storage.Repository.{Repository}
use contract_evidence_os.Storage.Repository.Providers.{
  save_provider_health_record, load_provider_health_record, load_rate_limit_state,
  load_provider_cooldown_window,
}
use contract_evidence_os.Provider.Health.{is_limited, new_health}

-- An open cooldown that is over shows a half-open circuit.
unfoldable pub after_cooldown :
    Datetime → Option ProviderCooldownWindow → ProviderHealthRecord → ProviderHealthRecord
after_cooldown now none health = health
after_cooldown now (some cooldown) health =
    if cooldown.state == "open" && leb cooldown.cooldown_until now
    then record health { circuit_state = "half_open"; availability_state = "degraded" }
    else health

-- The record as `snapshot` shows it; it is not stored like this.
unfoldable pub shown :
    Datetime
    → Option ProviderCooldownWindow
    → Option RateLimitState
    → ProviderHealthRecord
    → ProviderHealthRecord
shown now cooldown none health = after_cooldown now cooldown health
shown now cooldown (some rate_state) health =
    let adjusted = after_cooldown now cooldown health in
    if is_limited now rate_state.limited_until
    then record adjusted { availability_state = "rate_limited" }
    else adjusted

module _ (env : Env) where
  -- The record of one provider in `snapshot`: the stored one, or a new one that is stored first.
  unfoldable pub load_or_create :
      String → Datetime → Option ProviderHealthRecord → Exec Repository ProviderHealthRecord
  load_or_create provider_name now (some health) = pure health
  load_or_create provider_name now none = do
    let health = new_health provider_name now
    modify (save_provider_health_record health)
    pure health

  -- The loop of `snapshot`.
  unfoldable pub snapshot_each :
      List String → Datetime → Exec Repository (List ProviderHealthRecord)
  snapshot_each [] now = pure []
  snapshot_each (provider_name ∷ rest) now = do
    stored ← gets (load_provider_health_record provider_name)
    health ← load_or_create provider_name now stored
    cooldown ← gets (load_provider_cooldown_window provider_name)
    rate_state ← gets (load_rate_limit_state provider_name)
    records ← snapshot_each rest now
    pure (shown now cooldown rate_state health ∷ records)

  unfoldable pub snapshot : List String → Option Datetime → Exec Repository ProviderHealthSnapshot
  snapshot provider_names now? = do
    now ← now_or env now?
    records ← snapshot_each provider_names now
    snapshot_id ← new_id env "provider-health-snapshot-"
    pure
        (record { version = "1.0"; snapshot_id = snapshot_id; records = records; created_at = now })
