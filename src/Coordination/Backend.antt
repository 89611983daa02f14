-- ===== src/Coordination/Backend.antt =====
-- The lease operations of `SQLiteCoordinationBackend` in runtime/coordination.py.
pub mod Latest
pub mod Fencing
pub mod Ownership
pub mod Steal
pub mod Reach
pub mod Holder
pub mod Refinement
pub mod Stealing
pub mod Holding
mod Samples
use Prim.Native.String.{◌++◌}
use contract_evidence_os.Prelude.{
  ℕ, ◌+◌, ◌-◌, String, Bool, true, false, ◌&&◌, ◌||◌, not, Option, none, some, List, [], ◌∷◌, ◌==◌,
  leb, if◌then◌else◌, is_some, select, length, last?,
}
use mathlib.Core.List.{◌++◌ as ◌+++◌}
use contract_evidence_os.Base.Float.{Float, float_le}
use contract_evidence_os.Base.Exec.{
  Datetime, seconds, Env, Exec, pure, gets, modify, new_id, uuid4, now_or, or_index_error, when,
  when_some, ◌>>=◌, ◌>>◌,
}
use contract_evidence_os.Coordination.Models.{
  WorkerLifecycleRecord, LeaseOwnershipRecord, LeaseRenewalPolicy, WorkStealPolicy,
  WorkStealDecision,
}
use contract_evidence_os.Storage.Repository.{
  Repository, latest_lease_ownership, save_lease_ownership, load_worker, save_worker,
  save_ownership_conflict_event, save_renewal_attempt, save_lease_expiry_forecast,
  save_lease_contention_record, save_work_steal_decision, save_lease_transfer_record,
  list_work_steal_decisions,
}

-- What the code takes from floating-point arithmetic and the performance counter: `float(n)`,
-- `timedelta.total_seconds()` of the time from one instant to another, floored at 0.0, and the
-- latency in milliseconds that is measured for a renewal at a given instant; `x / 1000.0`, and
-- `f"{instant.timestamp():.0f}"`.
pub record Gauges : Type 0 where
  pub of_int : ℕ → Float
  pub seconds_between : Datetime → Datetime → Float
  pub latency_ms : Datetime → Float
  pub seconds_of_ms : Float → Float
  pub timestamp_text : Datetime → String

-- `host_id or ("local-host" if the worker is unknown else worker.host_id)`; `None` is the empty text
abbrev pub host_for : String → Option WorkerLifecycleRecord → String
host_for host_id none = if host_id == "" then "local-host" else host_id
host_for host_id (some worker) = if host_id == "" then worker.host_id else host_id

unfoldable pub validate_fencing : String → String → String → Repository → Bool
validate_fencing lease_id worker_id fencing_token r = elim (latest_lease_ownership lease_id r) [
  | none ↦ false
  | some current ↦
      current.status == "active"
      && current.worker_id == worker_id
      && current.fencing_token == fencing_token
]

-- The test at the top of `renew_lease`, negated; `release_lease` does not ask for the status.
unfoldable pub owns : String → String → LeaseOwnershipRecord → Bool
owns worker_id fencing_token current =
    current.worker_id == worker_id && current.fencing_token == fencing_token

abbrev pub next_epoch : Option LeaseOwnershipRecord → ℕ
next_epoch none = 1
next_epoch (some current) = current.lease_epoch + 1

module _ (env : Env) (gauges : Gauges) where
  -- The active owner gives way to a new one.
  fence_current : Datetime → LeaseOwnershipRecord → Exec Repository Unit
  fence_current now current = when (current.status == "active") (
      modify (
        save_lease_ownership (record current {
          status = "fenced";
          released_at = some now;
          reclaim_reason = "superseded_by_new_owner";
        })))

  add_active_lease : String → Datetime → WorkerLifecycleRecord → Exec Repository Unit
  add_active_lease lease_id now worker = do
    let leases = select (λ l. not (l == lease_id)) worker.active_leases +++ (lease_id ∷ [])
    modify (
        save_worker (record worker {
          active_leases = leases;
          lease_pressure = gauges.of_int (length leases);
          updated_at = now;
        }))

  -- `claim_lease` once the epoch is known and the previous owner is fenced.
  unfoldable pub grant_lease :
      String
      → String
      → String
      → String
      → Datetime
      → String
      → Datetime
      → ℕ
      → Exec Repository LeaseOwnershipRecord
  unfolding add_active_lease
  grant_lease lease_id queue_item_id task_id worker_id expires_at host_id now epoch = do
    ownership_id ← new_id env "lease-owner-"
    owner ← gets (load_worker worker_id)
    hex ← uuid4 env
    let ownership : LeaseOwnershipRecord = record {
      version = "1.0";
      ownership_id = ownership_id;
      lease_id = lease_id;
      queue_item_id = queue_item_id;
      task_id = task_id;
      worker_id = worker_id;
      lease_epoch = epoch;
      fencing_token = "fence-" ++ hex;
      status = "active";
      acquired_at = now;
      expires_at = expires_at;
      host_id = host_for host_id owner;
      renewed_at = none;
      released_at = none;
      reclaim_reason = "";
    }
    modify (save_lease_ownership ownership)
    worker ← gets (load_worker worker_id)
    when_some worker (add_active_lease lease_id now)
    pure ownership

  unfoldable pub claim_lease :
      String
      → String
      → String
      → String
      → Datetime
      → Option Datetime
      → String
      → Exec Repository LeaseOwnershipRecord
  unfolding fence_current
  claim_lease lease_id queue_item_id task_id worker_id expires_at now? host_id = do
    now ← now_or env now?
    current ← gets (latest_lease_ownership lease_id)
    when_some current (fence_current now)
    grant_lease lease_id queue_item_id task_id worker_id expires_at host_id now (next_epoch current)

  -- The event that `renew_lease` and `release_lease` record for an owner that they turn away.
  save_conflict :
      String
      → String
      → String
      → String
      → Datetime
      → Option LeaseOwnershipRecord
      → Exec Repository Unit
  save_conflict lease_id worker_id rejected_action summary now none = pure tt
  save_conflict lease_id worker_id rejected_action summary now (some current) = do
    event_id ← new_id env "ownership-conflict-"
    modify (
        save_ownership_conflict_event (record {
          version = "1.0";
          event_id = event_id;
          lease_id = lease_id;
          stale_worker_id = worker_id;
          active_worker_id = current.worker_id;
          rejected_action = rejected_action;
          summary = summary;
          created_at = now;
        }))

  -- `renew_lease` once the owner is known to be current.
  renew_current :
      String
      → String
      → Datetime
      → Datetime
      → Option LeaseRenewalPolicy
      → String
      → LeaseOwnershipRecord
      → Exec Repository LeaseOwnershipRecord
  renew_current lease_id worker_id expires_at now policy host_id current = do
    let renewed = record current { renewed_at = some now; expires_at = expires_at }
    modify (save_lease_ownership renewed)
    attempt_id ← new_id env "renewal-attempt-"
    modify (
        save_renewal_attempt (record {
          version = "1.0";
          attempt_id = attempt_id;
          lease_id = lease_id;
          worker_id = worker_id;
          host_id = if host_id == "" then current.host_id else host_id;
          outcome = "renewed";
          latency_ms = gauges.latency_ms now;
          previous_expires_at = current.expires_at;
          new_expires_at = expires_at;
          created_at = now;
          note = elim policy [ none ↦ "" | some p ↦ p.policy_id ];
        }))
    forecast_id ← new_id env "lease-forecast-"
    modify (
        save_lease_expiry_forecast (record {
          version = "1.0";
          forecast_id = forecast_id;
          lease_id = lease_id;
          seconds_remaining = gauges.seconds_between now expires_at;
          risk_level = "low";
          recommended_action = "continue";
          created_at = now;
        }))
    pure renewed

  renew_found :
      String
      → String
      → String
      → Datetime
      → Datetime
      → Option LeaseRenewalPolicy
      → String
      → Option LeaseOwnershipRecord
      → Exec Repository (Option LeaseOwnershipRecord)
  unfolding save_conflict renew_current
  renew_found lease_id worker_id fencing_token expires_at now policy host_id none = pure none
  renew_found lease_id worker_id fencing_token expires_at now policy host_id (some current) =
      if owns worker_id fencing_token current && current.status == "active"
      then (do
        renewed ← renew_current lease_id worker_id expires_at now policy host_id current
        pure (some renewed))
      else (do
        save_conflict lease_id worker_id "renew_lease"
            "stale or fenced owner attempted lease renewal" now (some current)
        pure none)

  unfoldable pub renew_lease :
      String
      → String
      → String
      → Datetime
      → Option Datetime
      → Option LeaseRenewalPolicy
      → String
      → Exec Repository (Option LeaseOwnershipRecord)
  unfolding renew_found
  renew_lease lease_id worker_id fencing_token expires_at now? policy host_id = do
    now ← now_or env now?
    current ← gets (latest_lease_ownership lease_id)
    renew_found lease_id worker_id fencing_token expires_at now policy host_id current

  drop_active_lease : String → Datetime → WorkerLifecycleRecord → Exec Repository Unit
  drop_active_lease lease_id now worker = modify (
      save_worker (record worker {
        active_leases = select (λ l. not (l == lease_id)) worker.active_leases;
        updated_at = now;
      }))

  release_found :
      String
      → String
      → String
      → String
      → Datetime
      → Option LeaseOwnershipRecord
      → Exec Repository (Option LeaseOwnershipRecord)
  unfolding save_conflict drop_active_lease
  release_found lease_id worker_id fencing_token reason now none = pure none
  release_found lease_id worker_id fencing_token reason now (some current) =
      if owns worker_id fencing_token current
      then (do
        let released = record current {
          status = "released";
          released_at = some now;
          reclaim_reason = reason;
        }
        modify (save_lease_ownership released)
        worker ← gets (load_worker worker_id)
        when_some worker (drop_active_lease lease_id now)
        pure (some released))
      else (do
        save_conflict lease_id worker_id "release_lease"
            "stale or fenced owner attempted lease release" now (some current)
        pure none)

  unfoldable pub release_lease :
      String
      → String
      → String
      → String
      → Option Datetime
      → Exec Repository (Option LeaseOwnershipRecord)
  unfolding release_found
  release_lease lease_id worker_id fencing_token reason now? = do
    now ← now_or env now?
    current ← gets (latest_lease_ownership lease_id)
    release_found lease_id worker_id fencing_token reason now current
