-- ===== src/Provider/Health/Limits.antt =====
-- The rate limit: within one window a provider is granted at most its number of requests.
use contract_evidence_os.Prelude.{
  ℕ, ◌+◌, ◌<◌, ◌≤◌, String, ◌≡◌, refl, ◌∙◌, Bool, true, false, some, List, [], ◌∷◌, eq_iff, arith,
  leb, Bool-cases, inl, inr, All,
}
use contract_evidence_os.Base.Float.{Arithmetic}
use contract_evidence_os.Base.Exec.{Datetime, seconds, Env, World, Result, ok, err}
use contract_evidence_os.Provider.Models.{RateLimitState, ProviderAvailabilityPolicy}
use contract_evidence_os.Provider.Health.{
  is_blocking, current_window, is_limited, save_degradation, spend_request, acquire_under,
  try_acquire_capacity,
}
use contract_evidence_os.Storage.Table.Laws.{find_row-insert_or_replace, key-find_row}
use contract_evidence_os.Storage.Repository.{Repository}
use contract_evidence_os.Storage.Repository.Providers.{
  save_rate_limit_state, load_rate_limit_state, load_provider_cooldown_window,
  save_provider_degradation_event, load_provider_availability_policy, rate_key,
}

-- How many of a series of calls at the given times are granted.
abbrev pub is_granted : Result Bool → ℕ
is_granted (ok true) = 1
is_granted (ok false) = 0
is_granted (err e) = 0

module _ (env : Env) (arithmetic : Arithmetic) (provider_name : String) where
  unfoldable pub granted : List Datetime → World Repository → ℕ
  granted [] w = 0
  granted (now ∷ rest) w =
      let (r, w') = try_acquire_capacity env arithmetic provider_name (some now) w in
      is_granted r + granted rest w'

  -- What one call within the window of the stored state does.
  record IsSpent (state : RateLimitState) (w : World Repository)
      (result : Result Bool × World Repository) : Type 0 where
    pub answer : Bool
    pub state' : RateLimitState
    pub returned : result.0 ≡ ok answer
    pub stored : load_rate_limit_state provider_name result.1.store ≡ some state'
    pub policies :
        result.1.store.provider_availability_policies ≡ w.store.provider_availability_policies
    pub started : state'.window_started_at ≡ state.window_started_at
    pub duration : state'.window_seconds ≡ state.window_seconds
    pub limit : state'.max_requests ≡ state.max_requests
    pub counted : state'.request_count ≡ state.request_count + is_granted (ok answer)
    pub below :
        state.request_count ≤ state.max_requests → state'.request_count ≤ state'.max_requests

  module _ (policy : ProviderAvailabilityPolicy) (now : Datetime) (state : RateLimitState)
      (w : World Repository) (name : state.provider_name ≡ provider_name)
      (found : load_rate_limit_state provider_name w.store ≡ some state) where
    spend_lem : IsSpent state w (spend_request env arithmetic provider_name policy now state w)
    unfolding spend_request save_degradation save_rate_limit_state load_rate_limit_state
        save_provider_degradation_event
    spend_lem = elim (Bool-cases (is_limited now state.limited_until)) [
      | inl t ↦ rw t (record {
        answer = false;
        state' = state;
        returned = refl;
        stored = found;
        policies = refl;
        started = refl;
        duration = refl;
        limit = refl;
        counted = omega arith;
        below = λ h. h;
      })
      | inr f ↦ elim (Bool-cases (leb state.max_requests state.request_count)) [
        | inl full ↦
            rw (f, full)
              (record {
                answer = false;
                state' = record state {
                  limited_until = some (now + seconds policy.cooldown_seconds);
                };
                returned = refl;
                stored =
                    rw
                      (
                        find_row-insert_or_replace rate_key,
                        (eq_iff state.provider_name provider_name).1 name,
                      )
                      refl;
                policies = refl;
                started = refl;
                duration = refl;
                limit = refl;
                counted = omega arith;
                below = λ h. h;
              })
        | inr room ↦
            rw (f, room)
              (record {
                answer = true;
                state' = record state { request_count = state.request_count + 1 };
                returned = refl;
                stored =
                    rw
                      (
                        find_row-insert_or_replace rate_key,
                        (eq_iff state.provider_name provider_name).1 name,
                      )
                      refl;
                policies = refl;
                started = refl;
                duration = refl;
                limit = refl;
                counted = refl;
                below = λ h. ground arith;
              })
      ]
    ]

    acquire_lem :
        load_provider_availability_policy provider_name w.store ≡ some policy
        → now < state.window_started_at + seconds state.window_seconds
        → IsSpent state w (try_acquire_capacity env arithmetic provider_name (some now) w)
    unfolding try_acquire_capacity acquire_under current_window
    acquire_lem h inside =
        elim (Bool-cases (is_blocking now (load_provider_cooldown_window provider_name w.store))) [
          | inl t ↦
              rw (h, t)
                (record {
                  answer = false;
                  state' = state;
                  returned = refl;
                  stored = found;
                  policies = refl;
                  started = refl;
                  duration = refl;
                  limit = refl;
                  counted = omega arith;
                  below = λ k. k;
                })
          | inr f ↦
              let open_window : leb (state.window_started_at + seconds state.window_seconds) now
                  ≡ false =
                ground arith in
              rw (h, f, found, open_window) spend_lem
        ]

  pub policy-eq :
      (r r' : Repository)
      → r.provider_availability_policies ≡ r'.provider_availability_policies
      → load_provider_availability_policy provider_name r
        ≡ load_provider_availability_policy provider_name r'
  unfolding load_provider_availability_policy
  policy-eq r r' h = rw h refl

  key-rate :
      (r : Repository) (state : RateLimitState)
      → load_rate_limit_state provider_name r ≡ some state
      → state.provider_name ≡ provider_name
  unfolding load_rate_limit_state
  key-rate r state h = key-find_row rate_key provider_name r.rate_limit_states state h

  -- Under a policy, the requests that are granted within one rate-limit window, whatever the times of
  -- the calls in it, do not exceed what the window has left.
  pub granted_bound :
      (policy : ProviderAvailabilityPolicy) (state : RateLimitState) (times : List Datetime)
      (w : World Repository)
      → load_provider_availability_policy provider_name w.store ≡ some policy
      → load_rate_limit_state provider_name w.store ≡ some state
      → All (λ t. t < state.window_started_at + seconds state.window_seconds) times
      → state.request_count ≤ state.max_requests
      → granted times w + state.request_count ≤ state.max_requests
  unfolding granted
  granted_bound policy state [] w h found inside room = omega arith
  granted_bound policy state (now ∷ rest) w h found (here, inside) room =
      let spent = acquire_lem policy now state w (key-rate w.store state found) found h here in
      let w' = (try_acquire_capacity env arithmetic provider_name (some now) w).1 in
      let later =
        granted_bound policy spent.state' rest w' (policy-eq w'.store w.store spent.policies ∙ h)
          spent.stored (rw (spent.started, spent.duration) inside) (spent.below room) in
      go spent.state' (granted rest w') spent.returned spent.counted spent.limit later
    where
      go :
          {r : Result Bool} {b : Bool} (s' : RateLimitState) (n : ℕ)
          → r ≡ ok b
          → s'.request_count ≡ state.request_count + is_granted (ok b)
          → s'.max_requests ≡ state.max_requests
          → n + s'.request_count ≤ s'.max_requests
          → is_granted r + n + state.request_count ≤ state.max_requests
      go {r} {b} s' n e c l h = rw e (omega arith)
