-- ===== src/Provider/Health/Circuit.antt =====
-- The circuit breaker: repeated failures close the gate, and a success opens it again.
use contract_evidence_os.Prelude.{
  ◌+◌, ◌<◌, ◌≤◌, String, ◌≡◌, refl, sym, ◌∙◌, subst, Bool, false, some, ==_refl, eq_iff, arith,
  if◌then◌else◌, le→leb, lt→ltb, Option-cases, inl, inr, contains,
}
use contract_evidence_os.Base.Float.{Float, Arithmetic, float_max, float_0_0, float_0_2, float_1_0}
use contract_evidence_os.Base.Exec.{Datetime, seconds, Env, World, Result, ok}
use contract_evidence_os.Provider.Models.{
  ProviderHealthRecord, ProviderAvailabilityPolicy, ProviderCooldownWindow,
}
use contract_evidence_os.Provider.Health.Limits.{policy-eq}
use contract_evidence_os.Provider.Health.{
  reopened_before, average, is_blocking, save_degradation, acquire_under, try_acquire_capacity,
  open_circuit, count_failure, settle_failure, record_failure, record_success,
}
use contract_evidence_os.Storage.Table.Laws.{find_row-insert_or_replace, key-find_row}
use contract_evidence_os.Storage.Repository.{Repository}
use contract_evidence_os.Storage.Repository.Providers.{
  save_provider_health_record, load_provider_health_record, save_provider_cooldown_window,
  load_provider_cooldown_window, save_provider_degradation_event, load_provider_availability_policy,
  cooldown_key, health_key,
}

blocked :
    (env : Env) (arithmetic : Arithmetic) (provider_name : String) (now : Datetime)
    (w : World Repository) (policy : ProviderAvailabilityPolicy) (c : ProviderCooldownWindow)
    → load_provider_availability_policy provider_name w.store ≡ some policy
    → load_provider_cooldown_window provider_name w.store ≡ some c
    → c.state ≡ "open"
    → now < c.cooldown_until
    → try_acquire_capacity env arithmetic provider_name (some now) w ≡ (ok false, w)
unfolding try_acquire_capacity acquire_under is_blocking contains
blocked env arithmetic provider_name now w policy c h found is_open before =
    rw (h, found, is_open, lt→ltb now c.cooldown_until before) refl

module _ (env : Env) (arithmetic : Arithmetic) (provider_name : String) (w : World Repository)
    (policy : ProviderAvailabilityPolicy) (health : ProviderHealthRecord)
    (h : load_provider_availability_policy provider_name w.store ≡ some policy)
    (found : load_provider_health_record provider_name w.store ≡ some health) where
  abbrev failing : String → Float → Datetime → Result ProviderHealthRecord × World Repository
  failing error_code latency_ms at =
      record_failure env arithmetic provider_name error_code latency_ms (some at) w

  failing-opens :
      (error_code : String) (latency_ms : Float) (at : Datetime)
      → policy.failure_threshold ≤ health.recent_failures + 1
      → (c : ProviderCooldownWindow) × (load_provider_cooldown_window provider_name
            (failing error_code latency_ms at).1.store
          ≡ some c)
        × (c.state ≡ "open")
        × (c.cooldown_until ≡ at + seconds policy.cooldown_seconds)
        × ((failing error_code latency_ms at).1.store.provider_availability_policies
            ≡ w.store.provider_availability_policies)
  unfolding record_failure settle_failure count_failure open_circuit save_degradation
      save_provider_cooldown_window load_provider_cooldown_window save_provider_degradation_event
      save_provider_health_record
  failing-opens error_code latency_ms at reached =
      rw (h, found, le→leb policy.failure_threshold (health.recent_failures + 1) reached)
        (
          record {
            version = "1.0";
            provider_name = provider_name;
            state = "open";
            opened_at = at;
            cooldown_until = at + seconds policy.cooldown_seconds;
            reopened_count =
                reopened_before (load_provider_cooldown_window provider_name w.store) + 1;
          },
          rw (find_row-insert_or_replace cooldown_key, ==_refl) refl,
          refl,
          refl,
          refl,
        )

  -- A failure of a provider with a stored record that reaches the threshold of its stored policy
  -- opens the circuit: until the cooldown is over, no request of the provider is granted, and the
  -- refusals change nothing.
  pub open_circuit_blocks :
      (error_code : String) (latency_ms : Float) (at now : Datetime)
      → policy.failure_threshold ≤ health.recent_failures + 1
      → now < at + seconds policy.cooldown_seconds
      → let w' = (failing error_code latency_ms at).1 in
        try_acquire_capacity env arithmetic provider_name (some now) w' ≡ (ok false, w')
  open_circuit_blocks error_code latency_ms at now reached before =
      let (c, stored, is_open, until, policies) = failing-opens error_code latency_ms at reached in
      let w' = (failing error_code latency_ms at).1 in
      blocked env arithmetic provider_name now w' policy c
        (policy-eq env arithmetic provider_name w'.store w.store policies ∙ h) stored is_open
        (subst (λ z. now < z) (sym until) before)

module _ (env : Env) (arithmetic : Arithmetic) (provider_name : String) (w : World Repository)
    (latency_ms : Float) (structured_output_ok : Bool) (at : Datetime) where
  abbrev succeeding : Result ProviderHealthRecord × World Repository
  succeeding =
      record_success env arithmetic provider_name latency_ms structured_output_ok (some at) w

  -- After a success the circuit is closed: the record that is returned is stored, closed and
  -- available, no cooldown of the provider blocks at any time, and the policies are as they were.
  success_closes_circuit :
      (now : Datetime)
      → (health : ProviderHealthRecord) × (succeeding.0 ≡ ok health)
        × (load_provider_health_record provider_name succeeding.1.store ≡ some health)
        × (health.circuit_state ≡ "closed")
        × (health.availability_state ≡ "available")
        × (is_blocking now (load_provider_cooldown_window provider_name succeeding.1.store) ≡ false)
        × (succeeding.1.store.provider_availability_policies
            ≡ w.store.provider_availability_policies)
  unfolding record_success save_degradation save_provider_cooldown_window
      load_provider_cooldown_window save_provider_degradation_event save_provider_health_record
      load_provider_health_record is_blocking contains
  success_closes_circuit now =
      elim (Option-cases (load_provider_health_record provider_name w.store)) [
        | inl e ↦ elim (Option-cases (load_provider_cooldown_window provider_name w.store)) [
          | inl c ↦
              rw (e, c)
                (
                  _,
                  refl,
                  rw (find_row-insert_or_replace health_key, ==_refl) refl,
                  refl,
                  refl,
                  rw c refl,
                  refl,
                )
          | inr (window, c) ↦
              rw (e, c)
                (
                  _,
                  refl,
                  rw (find_row-insert_or_replace health_key, ==_refl) refl,
                  refl,
                  refl,
                  rw
                      (
                        find_row-insert_or_replace cooldown_key,
                        (eq_iff window.provider_name provider_name).1 (
                            key-find_row cooldown_key provider_name
                              w.store.provider_cooldown_windows window c),
                      )
                      (ground arith),
                  refl,
                )
        ]
        | inr (health, e) ↦
            elim (Option-cases (load_provider_cooldown_window provider_name w.store)) [
              | inl c ↦
                  rw (e, c)
                    (
                      _,
                      refl,
                      rw
                          (
                            find_row-insert_or_replace health_key,
                            (eq_iff health.provider_name provider_name).1 (
                                key-find_row health_key provider_name
                                  w.store.provider_health_records health e),
                          )
                          refl,
                      refl,
                      refl,
                      rw c refl,
                      refl,
                    )
              | inr (window, c) ↦
                  rw (e, c)
                    (
                      _,
                      refl,
                      rw
                          (
                            find_row-insert_or_replace health_key,
                            (eq_iff health.provider_name provider_name).1 (
                                key-find_row health_key provider_name
                                  w.store.provider_health_records health e),
                          )
                          refl,
                      refl,
                      refl,
                      rw
                          (
                            find_row-insert_or_replace cooldown_key,
                            (eq_iff window.provider_name provider_name).1 (
                                key-find_row cooldown_key provider_name
                                  w.store.provider_cooldown_windows window c),
                          )
                          (ground arith),
                      refl,
                    )
            ]
      ]

  success_keeps_failures :
      (health : ProviderHealthRecord)
      → load_provider_health_record provider_name w.store ≡ some health
      → (health' : ProviderHealthRecord) × (load_provider_health_record provider_name
            succeeding.1.store
          ≡ some health')
        × (health'.recent_failures ≡ health.recent_failures)
        × (health'.circuit_state ≡ "closed")
        × (health'.availability_state ≡ "available")
        × (succeeding.1.store.provider_availability_policies
            ≡ w.store.provider_availability_policies)
  unfolding record_success save_degradation save_provider_cooldown_window
      save_provider_degradation_event save_provider_health_record load_provider_health_record
  success_keeps_failures health found =
      let total = health.recent_failures + health.recent_successes + 1 in
      let kept : ProviderHealthRecord = record health {
        recent_successes = health.recent_successes + 1;
        structured_output_reliability =
            average env arithmetic health.structured_output_reliability
              (if structured_output_ok then float_1_0 else float_0_0) total;
        average_latency_ms = average env arithmetic health.average_latency_ms latency_ms total;
        rate_limit_pressure =
            float_max (arithmetic.sub health.rate_limit_pressure float_0_2) float_0_0;
        circuit_state = "closed";
        availability_state = "available";
        updated_at = at;
      } in
      let key =
        (eq_iff health.provider_name provider_name).1
          (key-find_row health_key provider_name w.store.provider_health_records health found) in
      let window =
        load_provider_cooldown_window provider_name (save_provider_health_record kept w.store) in
      elim (Option-cases window) [
        | inl c ↦
            rw (found, c)
              (kept, rw (find_row-insert_or_replace health_key, key) refl, refl, refl, refl, refl)
        | inr (v, c) ↦
            rw (found, c)
              (kept, rw (find_row-insert_or_replace health_key, key) refl, refl, refl, refl, refl)
      ]

  -- A success of a provider with a stored record closes the circuit, with the record available and
  -- its count of failures kept, so that no cooldown blocks at any time; but when that count is one
  -- below the threshold of the stored policy or more, a single failure after the success opens the
  -- circuit again, and no request is granted until the new cooldown is over.
  pub one_failure_reopens :
      (policy : ProviderAvailabilityPolicy) (health : ProviderHealthRecord) (error_code : String)
      (between later now : Datetime)
      → load_provider_availability_policy provider_name w.store ≡ some policy
      → load_provider_health_record provider_name w.store ≡ some health
      → policy.failure_threshold ≤ health.recent_failures + 1
      → now < later + seconds policy.cooldown_seconds
      → let w' =
          (record_failure env arithmetic provider_name error_code latency_ms
            (some later)
            succeeding.1).1 in
        (health' : ProviderHealthRecord) × (load_provider_health_record provider_name
            succeeding.1.store
          ≡ some health')
        × (health'.recent_failures ≡ health.recent_failures)
        × (health'.circuit_state ≡ "closed")
        × (health'.availability_state ≡ "available")
        × (is_blocking between (load_provider_cooldown_window provider_name succeeding.1.store)
            ≡ false)
        × (try_acquire_capacity env arithmetic provider_name (some now) w' ≡ (ok false, w'))
  one_failure_reopens policy health error_code between later now h found reached before =
      let (health', stored, same, closed, available, policies) =
        success_keeps_failures health found in
      let (_, _, _, _, _, open_again, _) = success_closes_circuit between in
      (
        health',
        stored,
        same,
        closed,
        available,
        open_again,
        open_circuit_blocks env arithmetic provider_name succeeding.1 policy health'
            (policy-eq env arithmetic provider_name succeeding.1.store w.store policies ∙ h) stored
            error_code latency_ms later now
            (subst (λ n. policy.failure_threshold ≤ n + 1) (sym same) reached) before,
      )
