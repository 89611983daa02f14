-- ===== src/Provider/Health.antt =====
-- `ProviderHealthManager` of runtime/provider_health.py: rate-limit windows and the circuit breaker.
pub mod Snapshot
pub mod Limits
pub mod Circuit
mod Samples
use Prim.Native.String.{◌++◌}
use contract_evidence_os.Prelude.{
  ℕ, ◌+◌, ◌-◌, String, Bool, true, false, ◌&&◌, Option, none, some, List, [], ◌∷◌, ◌==◌, ltb, leb,
  if◌then◌else◌, contains,
}
use contract_evidence_os.Base.Float.{
  Float, Arithmetic, float_min, float_max, float_0_0, float_0_2, float_0_5, float_1_0,
}
use contract_evidence_os.Base.Exec.{
  Datetime, seconds, Env, Exec, pure, gets, modify, new_id, now_or, or_new, when_some, ◌>>=◌, ◌>>◌,
}
use contract_evidence_os.Provider.Models.{
  ProviderHealthRecord, ProviderHealthSnapshot, RateLimitState, ProviderCooldownWindow,
  ProviderAvailabilityPolicy,
}
use contract_evidence_os.Storage.Repository.{Repository}
use contract_evidence_os.Storage.Repository.Providers.{
  save_provider_health_record, load_provider_health_record, save_rate_limit_state,
  load_rate_limit_state, save_provider_cooldown_window, load_provider_cooldown_window,
  save_provider_degradation_event, load_provider_availability_policy,
}

-- A cooldown that is in force and blocks requests.
unfoldable pub is_blocking : Datetime → Option ProviderCooldownWindow → Bool
is_blocking now none = false
is_blocking now (some cooldown) =
    ltb now cooldown.cooldown_until && contains cooldown.state ("open" ∷ "cooldown" ∷ [])

abbrev pub new_window : String → ProviderAvailabilityPolicy → Datetime → RateLimitState
new_window provider_name policy now = record {
  version = "1.0";
  provider_name = provider_name;
  window_started_at = now;
  request_count = 0;
  max_requests = policy.max_requests_per_window;
  window_seconds = policy.rate_limit_window_seconds;
  limited_until = none;
}

-- The stored window, or a new one when there is none or it is over.
unfoldable pub current_window :
    String → ProviderAvailabilityPolicy → Datetime → Option RateLimitState → RateLimitState
current_window provider_name policy now none = new_window provider_name policy now
current_window provider_name policy now (some state) =
    if leb (state.window_started_at + seconds state.window_seconds) now
    then new_window provider_name policy now
    else state

abbrev pub is_limited : Datetime → Option Datetime → Bool
is_limited now none = false
is_limited now (some until) = ltb now until

abbrev pub new_health : String → Datetime → ProviderHealthRecord
new_health provider_name now = record {
  version = "1.0";
  provider_name = provider_name;
  circuit_state = "closed";
  recent_failures = 0;
  recent_successes = 0;
  structured_output_reliability = float_1_0;
  fallback_frequency = float_0_0;
  average_latency_ms = float_0_0;
  rate_limit_pressure = float_0_0;
  availability_state = "available";
  operator_disabled = false;
  last_error_code = "";
  updated_at = now;
}

abbrev pub default_availability_policy : String → Datetime → ProviderAvailabilityPolicy
default_availability_policy provider_name now = record {
  version = "1.0";
  policy_id = "provider-policy-" ++ provider_name;
  provider_name = provider_name;
  failure_threshold = 3;
  cooldown_seconds = 30;
  rate_limit_window_seconds = 60;
  max_requests_per_window = 60;
  created_at = now;
}

abbrev pub reopened_before : Option ProviderCooldownWindow → ℕ
reopened_before none = 0
reopened_before (some cooldown) = cooldown.reopened_count

-- The cooldown window that `force_half_open_probe` stores.
unfoldable pub half_open :
    String → Datetime → Option ProviderCooldownWindow → ProviderCooldownWindow
half_open provider_name at none = record {
  version = "1.0";
  provider_name = provider_name;
  state = "half_open";
  opened_at = at;
  cooldown_until = at;
  reopened_count = 0;
}
half_open provider_name at (some cooldown) = record cooldown {
  state = "half_open";
  cooldown_until = at;
}

module _ (env : Env) (arithmetic : Arithmetic) where
  -- `_average`
  unfoldable pub average : Float → Float → ℕ → Float
  average previous new_value total =
      let n = if leb 1 total then total else 1 in
      arithmetic.div
        (arithmetic.add (arithmetic.mul previous (arithmetic.of_int (n - 1))) new_value)
        (arithmetic.of_int n)

  unfoldable pub save_degradation : String → String → String → Datetime → Exec Repository Unit
  save_degradation provider_name event_type summary created_at = do
    event_id ← new_id env "provider-degradation-"
    modify (
        save_provider_degradation_event (record {
          version = "1.0";
          event_id = event_id;
          provider_name = provider_name;
          event_type = event_type;
          summary = summary;
          created_at = created_at;
        }))

  -- The end of `try_acquire_capacity`, on the window that counts.
  unfoldable pub spend_request :
      String → ProviderAvailabilityPolicy → Datetime → RateLimitState → Exec Repository Bool
  spend_request provider_name policy now state =
      if is_limited now state.limited_until
      then pure false
      else if leb state.max_requests state.request_count
      then (do
        modify (
            save_rate_limit_state
              (record state { limited_until = some (now + seconds policy.cooldown_seconds) }))
        save_degradation provider_name "rate_limit"
            (provider_name ++ " exceeded its request window.") now
        pure false)
      else (do
        modify (save_rate_limit_state (record state { request_count = state.request_count + 1 }))
        pure true)

  -- `try_acquire_capacity` under a policy.
  unfoldable pub acquire_under :
      String → Datetime → Option ProviderAvailabilityPolicy → Exec Repository Bool
  acquire_under provider_name now none = pure true
  acquire_under provider_name now (some policy) = do
    cooldown ← gets (load_provider_cooldown_window provider_name)
    if is_blocking now cooldown then pure false else (do
      state ← gets (load_rate_limit_state provider_name)
      spend_request provider_name policy now (current_window provider_name policy now state))

  unfoldable pub try_acquire_capacity : String → Option Datetime → Exec Repository Bool
  try_acquire_capacity provider_name now? = do
    now ← now_or env now?
    policy ← gets (load_provider_availability_policy provider_name)
    acquire_under provider_name now policy

  -- The circuit opens: a new cooldown window and its event.
  unfoldable pub open_circuit :
      String → ProviderAvailabilityPolicy → Datetime → Exec Repository Unit
  open_circuit provider_name policy at = do
    previous ← gets (load_provider_cooldown_window provider_name)
    modify (
        save_provider_cooldown_window (record {
          version = "1.0";
          provider_name = provider_name;
          state = "open";
          opened_at = at;
          cooldown_until = at + seconds policy.cooldown_seconds;
          reopened_count = reopened_before previous + 1;
        }))
    save_degradation provider_name "circuit_opened"
        (provider_name ++ " opened its circuit after repeated failures.") at

  -- What `record_failure` makes of the record before it looks at the threshold.
  unfoldable pub count_failure : String → Float → ProviderHealthRecord → ProviderHealthRecord
  count_failure error_code latency_ms health =
      let failures = health.recent_failures + 1 in
      record health {
        recent_failures = failures;
        average_latency_ms =
            average health.average_latency_ms latency_ms (failures + health.recent_successes);
        last_error_code = error_code;
        rate_limit_pressure =
            float_min
              (arithmetic.add health.rate_limit_pressure
                (if error_code == "rate_limited" then float_0_5 else float_0_2))
              float_1_0;
      }

  -- The rest of `record_failure`.
  unfoldable pub settle_failure :
      String
      → ProviderAvailabilityPolicy
      → Datetime
      → ProviderHealthRecord
      → Exec Repository ProviderHealthRecord
  settle_failure provider_name policy at health =
      if leb policy.failure_threshold health.recent_failures
      then (do
        open_circuit provider_name policy at
        let opened = record health {
          circuit_state = "open";
          availability_state = "degraded";
          updated_at = at;
        }
        modify (save_provider_health_record opened)
        pure opened)
      else (do
        let kept = record health { updated_at = at }
        modify (save_provider_health_record kept)
        pure kept)

  unfoldable pub record_failure :
      String → String → Float → Option Datetime → Exec Repository ProviderHealthRecord
  record_failure provider_name error_code latency_ms at? = do
    at ← now_or env at?
    stored_policy ← gets (load_provider_availability_policy provider_name)
    policy ← or_new env stored_policy (default_availability_policy provider_name)
    stored ← gets (load_provider_health_record provider_name)
    health ← or_new env stored (new_health provider_name)
    settle_failure provider_name policy at (count_failure error_code latency_ms health)

  unfoldable pub record_success :
      String → Float → Bool → Option Datetime → Exec Repository ProviderHealthRecord
  record_success provider_name latency_ms structured_output_ok at? = do
    at ← now_or env at?
    stored ← gets (load_provider_health_record provider_name)
    health ← or_new env stored (new_health provider_name)
    let total = health.recent_failures + health.recent_successes + 1
    let recovered = record health {
      recent_successes = health.recent_successes + 1;
      structured_output_reliability =
          average health.structured_output_reliability
            (if structured_output_ok then float_1_0 else float_0_0) total;
      average_latency_ms = average health.average_latency_ms latency_ms total;
      rate_limit_pressure =
          float_max (arithmetic.sub health.rate_limit_pressure float_0_2) float_0_0;
      circuit_state = "closed";
      availability_state = "available";
      updated_at = at;
    }
    modify (save_provider_health_record recovered)
    cooldown ← gets (load_provider_cooldown_window provider_name)
    when_some cooldown (λ c.
        modify (save_provider_cooldown_window (record c { state = "closed"; cooldown_until = at })))
    save_degradation provider_name "provider_recovered"
        (provider_name ++ " recovered and closed its circuit.") at
    pure recovered

  unfoldable pub force_half_open_probe : String → Option Datetime → Exec Repository Unit
  force_half_open_probe provider_name at? = do
    at ← now_or env at?
    cooldown ← gets (load_provider_cooldown_window provider_name)
    modify (save_provider_cooldown_window (half_open provider_name at cooldown))
    stored ← gets (load_provider_health_record provider_name)
    when_some stored (λ health. modify (
        save_provider_health_record (record health {
          circuit_state = "half_open";
          availability_state = "degraded";
          updated_at = at;
        })))
