-- ===== src/Provider/Health/Samples.antt =====
-- The theorems on the health of providers at a concrete provider.
use contract_evidence_os.Prelude.{
  ◌+◌, ◌≤◌, ◌≡◌, refl, true, false, some, [], ◌∷◌, arith, select, sort_by,
}
use contract_evidence_os.Base.Float.{float_1_0}
use contract_evidence_os.Base.Exec.{World, ok}
use contract_evidence_os.Provider.Models.{
  ProviderHealthRecord, RateLimitState, ProviderAvailabilityPolicy,
}
use contract_evidence_os.Provider.Health.{
  new_health, default_availability_policy, new_window, try_acquire_capacity, record_failure,
  record_success, is_blocking,
}
use contract_evidence_os.Provider.Health.Limits.{granted, granted_bound}
use contract_evidence_os.Provider.Health.Circuit.{open_circuit_blocks, one_failure_reopens}
use contract_evidence_os.Storage.Table.{find_row, order_by_desc}
use contract_evidence_os.Storage.Repository.{Repository}
use contract_evidence_os.Storage.Repository.Providers.{
  load_provider_cooldown_window, load_provider_health_record, load_rate_limit_state,
  load_provider_availability_policy,
}
use contract_evidence_os.Samples.{sample_env, rough, empty_repository, world_of}

abbrev sample_availability : ProviderAvailabilityPolicy
sample_availability = default_availability_policy "provider-1" 0

-- Two failures so far, one below the threshold.
abbrev failing_health : ProviderHealthRecord
failing_health = record (new_health "provider-1" 0) { recent_failures = 2 }

-- A window from 0 with 59 of the 60 requests spent.
abbrev spent_window : RateLimitState
spent_window = record (new_window "provider-1" sample_availability 0) { request_count = 59 }

abbrev provider_world : World Repository
provider_world = world_of (record empty_repository {
  provider_health_records = failing_health ∷ [];
  rate_limit_states = spent_window ∷ [];
  provider_availability_policies = sample_availability ∷ [];
})

policy_found :
    load_provider_availability_policy "provider-1" provider_world.store ≡ some sample_availability
unfolding load_provider_availability_policy order_by_desc select sort_by
policy_found = refl

health_found : load_provider_health_record "provider-1" provider_world.store ≡ some failing_health
unfolding load_provider_health_record find_row
health_found = refl

granted_bound_example :
    granted sample_env rough "provider-1" (10 ∷ 20 ∷ 30 ∷ []) provider_world + 59 ≤ 60
unfolding load_rate_limit_state find_row
granted_bound_example =
    granted_bound sample_env rough "provider-1" sample_availability spent_window (10 ∷ 20 ∷ 30 ∷ [])
      provider_world policy_found refl (omega arith, (omega arith, (omega arith, tt))) (omega arith)

open_circuit_blocks_example :
    let w' =
      (record_failure sample_env rough "provider-1" "timeout" float_1_0
        (some 40)
        provider_world).1 in
    try_acquire_capacity sample_env rough "provider-1" (some 50) w' ≡ (ok false, w')
open_circuit_blocks_example =
    open_circuit_blocks sample_env rough "provider-1" provider_world sample_availability
      failing_health policy_found health_found "timeout" float_1_0 40 50 (omega arith) (omega arith)

one_failure_reopens_example :
    let success =
      record_success sample_env rough "provider-1" float_1_0 true (some 40) provider_world in
    let w' =
      (record_failure sample_env rough "provider-1" "timeout" float_1_0 (some 50) success.1).1 in
    (health' : ProviderHealthRecord) × (load_provider_health_record "provider-1" success.1.store
      ≡ some health')
    × (health'.recent_failures ≡ 2)
    × (health'.circuit_state ≡ "closed")
    × (health'.availability_state ≡ "available")
    × (is_blocking 45 (load_provider_cooldown_window "provider-1" success.1.store) ≡ false)
    × (try_acquire_capacity sample_env rough "provider-1" (some 60) w' ≡ (ok false, w'))
one_failure_reopens_example =
    one_failure_reopens sample_env rough "provider-1" provider_world float_1_0 true 40
      sample_availability failing_health "timeout" 45 50 60 policy_found health_found (omega arith)
      (omega arith)
