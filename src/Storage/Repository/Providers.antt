-- ===== src/Storage/Repository/Providers.antt =====
-- The tables of `SQLiteRepository` that hold the health of the providers.
use contract_evidence_os.Prelude.{String, Option, ◌==◌, select, head?}
use contract_evidence_os.Storage.Table.{find_row, insert_or_replace, order_by_desc}
use contract_evidence_os.Provider.Models.{
  ProviderHealthRecord, RateLimitState, ProviderCooldownWindow, ProviderDegradationEvent,
  ProviderAvailabilityPolicy,
}
use contract_evidence_os.Storage.Repository.{Repository}

abbrev pub health_key : ProviderHealthRecord → String
health_key record' = record'.provider_name

abbrev pub rate_key : RateLimitState → String
rate_key state = state.provider_name

abbrev pub cooldown_key : ProviderCooldownWindow → String
cooldown_key window = window.provider_name

unfoldable pub save_provider_health_record : ProviderHealthRecord → Repository → Repository
save_provider_health_record health r = record r {
  provider_health_records = insert_or_replace health_key health r.provider_health_records;
}

unfoldable pub load_provider_health_record : String → Repository → Option ProviderHealthRecord
load_provider_health_record provider_name r =
    find_row health_key provider_name r.provider_health_records

unfoldable pub save_rate_limit_state : RateLimitState → Repository → Repository
save_rate_limit_state state r = record r {
  rate_limit_states = insert_or_replace rate_key state r.rate_limit_states;
}

unfoldable pub load_rate_limit_state : String → Repository → Option RateLimitState
load_rate_limit_state provider_name r = find_row rate_key provider_name r.rate_limit_states

unfoldable pub save_provider_cooldown_window : ProviderCooldownWindow → Repository → Repository
save_provider_cooldown_window window r = record r {
  provider_cooldown_windows = insert_or_replace cooldown_key window r.provider_cooldown_windows;
}

unfoldable pub load_provider_cooldown_window : String → Repository → Option ProviderCooldownWindow
load_provider_cooldown_window provider_name r =
    find_row cooldown_key provider_name r.provider_cooldown_windows

unfoldable pub save_provider_degradation_event : ProviderDegradationEvent → Repository → Repository
save_provider_degradation_event event r = record r {
  provider_degradation_events =
      insert_or_replace (λ e. e.event_id) event r.provider_degradation_events;
}

unfoldable pub load_provider_availability_policy :
    String → Repository → Option ProviderAvailabilityPolicy
load_provider_availability_policy provider_name r = head? (
    order_by_desc (λ p. p.created_at)
      (select (λ p. p.provider_name == provider_name) r.provider_availability_policies))
