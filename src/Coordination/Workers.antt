-- ===== src/Coordination/Workers.antt =====
-- The worker and dispatch operations of `SQLiteCoordinationBackend` in runtime/coordination.py.
pub mod Reclaim
mod Samples
use Prim.Native.String.{◌++◌}
use mathlib.Core.List.{◌++◌ as ◌+++◌}
use contract_evidence_os.Prelude.{
  ℕ, ◌+◌, String, Bool, Option, none, some, List, [], ◌∷◌, ◌==◌, ltb, if◌then◌else◌, is_some, map,
  select, contains, length, sum_of,
}
use contract_evidence_os.Base.Float.{Float, float_0_0, float_max}
use contract_evidence_os.Base.Text.{sorted_set}
use contract_evidence_os.Base.Exec.{
  Datetime, seconds, Env, Exec, pure, gets, modify, new_id, utc_now, now_or, when, when_some, ◌>>=◌,
  ◌>>◌,
}
use contract_evidence_os.Coordination.Models.{
  HostRecord, WorkerLifecycleRecord, LeaseOwnershipRecord, WorkerCapabilityRecord,
  WorkerHeartbeatRecord, WorkerPressureSnapshot, WorkerHostBinding, WorkerEndpointRecord,
  DispatchOwnershipRecord,
}
use contract_evidence_os.Coordination.Backend.{Gauges}
use contract_evidence_os.Storage.Repository.{
  Repository, load_worker, save_worker, save_lease_ownership, list_active_ownerships,
}
use contract_evidence_os.Storage.Repository.Workers.{
  list_workers, save_worker_capability, list_worker_capabilities, save_worker_heartbeat,
  latest_worker_heartbeat, save_worker_pressure_snapshot, save_host_record, load_host_record,
  list_host_records, save_worker_host_binding, save_worker_endpoint, load_worker_endpoint,
  save_dispatch_ownership, latest_dispatch_ownership, list_all_active_ownerships,
}

-- `x or y`, for texts
abbrev pub text_or : String → String → String
text_or x y = if x == "" then y else x

-- The snapshot of the pool, with its identifier.
unfoldable pub pool_of : String → Datetime → Repository → WorkerPressureSnapshot
pool_of snapshot_id now r =
    let workers = list_workers r in
    record {
      version = "1.0";
      snapshot_id = snapshot_id;
      active_workers = length (select (λ w. w.shutdown_state == "running") workers);
      draining_workers = length (select (λ w. w.shutdown_state == "draining") workers);
      stale_workers = length (select (λ w. w.heartbeat_state == "stale") workers);
      total_claimed_capacity = sum_of (λ w. w.claimed_capacity) workers;
      active_leases = length (list_all_active_ownerships r);
      capability_distribution =
          map
            (λ role. (
              role,
              length
                  (select (λ c. contains role c.role_specialization) (list_worker_capabilities r)),
            ))
            ("Researcher" ∷ "Builder" ∷ "Verifier" ∷ "Strategist" ∷ "Archivist" ∷ []);
      host_distribution =
          map (λ host. (host.host_id, length (select (λ w. w.host_id == host.host_id) workers)))
            (list_host_records r);
      created_at = now;
    }

module _ (env : Env) where
  unfoldable pub worker_pool_snapshot : Option Datetime → Exec Repository WorkerPressureSnapshot
  worker_pool_snapshot now? = do
    now ← now_or env now?
    snapshot_id ← new_id env "worker-pool-"
    gets (pool_of snapshot_id now)

  -- `save_worker_pressure_snapshot(self.worker_pool_snapshot(now=now))`
  abbrev pub record_pool : Datetime → Exec Repository Unit
  record_pool now = do
    snapshot ← worker_pool_snapshot (some now)
    modify (save_worker_pressure_snapshot snapshot)

  unfoldable pub claim_dispatch :
      String → String → String → String → String → String → Exec Repository DispatchOwnershipRecord
  claim_dispatch dispatch_id task_id queue_item_id lease_id worker_id fencing_token = do
    current ← gets (latest_dispatch_ownership dispatch_id)
    when_some current (λ c. when (c.status == "active") (do
      now ← utc_now env
      modify (save_dispatch_ownership (record c { status = "superseded"; updated_at = now }))))
    ownership_id ← new_id env "dispatch-owner-"
    created_at ← utc_now env
    updated_at ← utc_now env
    let ownership : DispatchOwnershipRecord = record {
      version = "1.0";
      ownership_id = ownership_id;
      dispatch_id = dispatch_id;
      task_id = task_id;
      queue_item_id = queue_item_id;
      lease_id = lease_id;
      worker_id = worker_id;
      fencing_token = fencing_token;
      status = "active";
      created_at = created_at;
      updated_at = updated_at;
    }
    modify (save_dispatch_ownership ownership)
    pure ownership

-- The keyword arguments of `register_worker`.
pub record RegisterRequest : Type 0 where
  pub worker_id : String
  pub worker_role : String
  pub process_identity : String
  pub capabilities : WorkerCapabilityRecord
  pub claimed_capacity : ℕ
  pub host_id : String
  pub service_identity : String
  pub endpoint_address : String

-- The record of a worker that is not known yet.
abbrev pub new_worker : Gauges → RegisterRequest → Datetime → WorkerLifecycleRecord
new_worker gauges request started_at = record {
  version = "1.0";
  worker_id = request.worker_id;
  worker_role = request.worker_role;
  process_identity = request.process_identity;
  heartbeat_state = "active";
  claimed_capacity = request.claimed_capacity;
  active_leases = [];
  startup_time = started_at;
  host_id = request.host_id;
  service_identity = request.service_identity;
  startup_epoch = "epoch-" ++ gauges.timestamp_text started_at;
  current_drain_state = "running";
  endpoint_address = request.endpoint_address;
  lease_pressure = float_0_0;
  last_checkpoint_activity = none;
  shutdown_state = "running";
  local_execution_mode = "normal";
  updated_at = started_at;
}

-- What a registration writes over the stored record, or the new one.
abbrev pub registered : RegisterRequest → Datetime → WorkerLifecycleRecord → WorkerLifecycleRecord
registered request started_at worker = record worker {
  worker_role = request.worker_role;
  process_identity = request.process_identity;
  claimed_capacity = request.claimed_capacity;
  host_id = request.host_id;
  service_identity = request.service_identity;
  endpoint_address = request.endpoint_address;
  heartbeat_state = "active";
  shutdown_state = "running";
  current_drain_state = "running";
  updated_at = started_at;
}

abbrev pub registered_host : RegisterRequest → Datetime → HostRecord
registered_host request started_at = record {
  version = "1.0";
  host_id = request.host_id;
  hostname = request.host_id;
  network_identity = text_or request.endpoint_address request.host_id;
  status = "active";
  drain_state = "running";
  capabilities = sorted_set request.capabilities.role_specialization;
  lease_pressure = float_0_0;
  created_at = started_at;
  last_seen_at = started_at;
}

abbrev pub registered_endpoint : RegisterRequest → Datetime → WorkerEndpointRecord
registered_endpoint request started_at = record {
  version = "1.0";
  endpoint_id = "endpoint-" ++ request.worker_id;
  worker_id = request.worker_id;
  host_id = request.host_id;
  address = text_or request.endpoint_address request.host_id;
  protocol = "internal";
  status = "active";
  last_seen_at = started_at;
}

abbrev pub registered_binding : RegisterRequest → Datetime → WorkerHostBinding
registered_binding request started_at = record {
  version = "1.0";
  binding_id = "binding-" ++ request.worker_id;
  worker_id = request.worker_id;
  host_id = request.host_id;
  endpoint_id = "endpoint-" ++ request.worker_id;
  status = "active";
  bound_at = started_at;
}

module _ (env : Env) (gauges : Gauges) where
  unfoldable pub register_worker :
      RegisterRequest → Option Datetime → Exec Repository WorkerLifecycleRecord
  register_worker request started_at? = do
    started_at ← now_or env started_at?
    modify (save_worker_capability request.capabilities)
    modify (save_host_record (registered_host request started_at))
    stored ← gets (load_worker request.worker_id)
    let worker =
        registered request started_at
          (elim stored [ none ↦ new_worker gauges request started_at | some known ↦ known ])
    modify (save_worker worker)
    modify (save_worker_endpoint (registered_endpoint request started_at))
    modify (save_worker_host_binding (registered_binding request started_at))
    record_pool env started_at
    pure worker

  -- What a heartbeat does to the record of its worker, and to the worker's host and endpoint.
  abbrev pub beat : WorkerHeartbeatRecord → Datetime → WorkerLifecycleRecord → Exec Repository Unit
  beat heartbeat now worker = do
    modify (
        save_worker (record worker {
          active_leases = heartbeat.active_leases;
          heartbeat_state = "active";
          updated_at = now;
          last_checkpoint_activity = some now;
          lease_pressure = heartbeat.lease_pressure;
        }))
    host ← gets (load_host_record worker.host_id)
    when_some host (λ h. modify (
        save_host_record (record h {
          last_seen_at = now;
          status = "active";
          lease_pressure = heartbeat.lease_pressure;
        })))
    endpoint ← gets (load_worker_endpoint worker.worker_id)
    when_some endpoint
        (λ e. modify (save_worker_endpoint (record e { last_seen_at = now; status = "active" })))

  unfoldable pub heartbeat :
      String → List String → ℕ → Option Datetime → Float → Exec Repository WorkerHeartbeatRecord
  heartbeat worker_id active_leases capacity_in_use now? heartbeat_latency_ms = do
    now ← now_or env now?
    worker ← gets (load_worker worker_id)
    heartbeat_id ← new_id env "worker-heartbeat-"
    let sent : WorkerHeartbeatRecord = record {
      version = "1.0";
      heartbeat_id = heartbeat_id;
      worker_id = worker_id;
      host_id = elim worker [ none ↦ "local-host" | some w ↦ w.host_id ];
      service_identity = elim worker [ none ↦ "" | some w ↦ w.service_identity ];
      heartbeat_state = "active";
      active_leases = active_leases;
      capacity_in_use = capacity_in_use;
      queue_pressure = gauges.of_int (length active_leases);
      lease_pressure =
          float_max (gauges.of_int (length active_leases))
            (gauges.seconds_of_ms heartbeat_latency_ms);
      last_checkpoint_activity = none;
      created_at = now;
      expires_at = now + seconds 30;
    }
    modify (save_worker_heartbeat sent)
    when_some worker (beat sent now)
    record_pool env now
    pure sent

  -- `set_worker_mode` on a known worker
  unfoldable pub set_mode :
      String
      → Option String
      → Datetime
      → WorkerLifecycleRecord
      → Exec Repository WorkerLifecycleRecord
  set_mode mode_name shutdown_state now worker = do
    let changed = record worker {
      local_execution_mode = mode_name;
      current_drain_state = mode_name;
      shutdown_state = elim shutdown_state [ none ↦ worker.shutdown_state | some s ↦ s ];
      updated_at = now;
    }
    modify (save_worker changed)
    host ← gets (load_host_record worker.host_id)
    when_some host (λ h.
        when_some shutdown_state
          (λ s. modify (save_host_record (record h { drain_state = s; last_seen_at = now }))))
    pure changed

  unfoldable pub set_worker_mode :
      String → String → Option String → Exec Repository (Option WorkerLifecycleRecord)
  set_worker_mode worker_id mode_name shutdown_state = do
    stored ← gets (load_worker worker_id)
    elim stored [
      | none ↦ pure none
      | some worker ↦ do
        now ← utc_now env
        changed ← set_mode mode_name shutdown_state now worker
        pure (some changed)
    ]
