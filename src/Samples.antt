-- ===== src/Samples.antt =====
-- A small concrete system that the tests run on: two queued tasks, one healthy provider, one worker.
use contract_evidence_os.Prelude.{◌+◌, ◌*◌, String, true, false, none, [], ◌∷◌, eqb, if◌then◌else◌}
use contract_evidence_os.Prelude.Int.{pos}
use contract_evidence_os.Base.Float.{Arithmetic, of_bits, float_0_0, float_1_0}
use contract_evidence_os.Base.Json.{object, end}
use contract_evidence_os.Base.Exec.{Env, World}
use contract_evidence_os.Provider.Models.{ProviderHealthSnapshot}
use contract_evidence_os.Queue.Models.{QueueItem, QueueLease, CapacitySnapshot}
use contract_evidence_os.Coordination.Models.{
  WorkerLifecycleRecord, LeaseOwnershipRecord, WorkStealPolicy,
}
use contract_evidence_os.Coordination.Backend.{Gauges}
use contract_evidence_os.Storage.Repository.{Repository}

-- A stand-in for the arithmetic of doubles.
abbrev pub rough : Arithmetic
rough = record {
  add = λ x y. x;
  sub = λ x y. x;
  mul = λ x y. x;
  div = λ x y. x;
  of_int = λ n. of_bits n;
}

abbrev pub sample_env : Env
sample_env = record {
  uuid4_hex =
      λ n. if eqb n 0 then "a0a0a0a0a0a0" else if eqb n 1 then "b1b1b1b1b1b1" else "c2c2c2c2c2c2";
  clock = λ n. 1000000 * (n + 1);
}

abbrev pub sample_gauges : Gauges
sample_gauges = record {
  of_int = λ n. if eqb n 0 then float_0_0 else float_1_0;
  seconds_between = λ a b. float_1_0;
  latency_ms = λ a. float_0_0;
  seconds_of_ms = λ x. x;
  timestamp_text = λ t. "0";
}

abbrev pub sample_item : String → String → QueueItem
sample_item queue_item_id risk_level = record {
  version = "1.0";
  queue_item_id = queue_item_id;
  task_id = "task-1";
  contract_id = "contract-1";
  queue_name = "default";
  priority_class = "standard";
  risk_level = risk_level;
  status = "queued";
  attempt_count = 0;
  max_attempts = 3;
  recovery_required = false;
  resume_task = false;
  continuity_fragility = float_0_0;
  operator_priority = pos 0;
  lease_id = "";
  available_at = 10;
  dead_letter_reason = "";
  payload = object end;
  created_at = 10;
  updated_at = 10;
}

-- A lease on `item-1` that expires at 60.
abbrev pub sample_lease : QueueLease
sample_lease = record {
  version = "1.0";
  lease_id = "lease-1";
  queue_item_id = "item-1";
  task_id = "task-1";
  worker_id = "worker-1";
  status = "active";
  acquired_at = 20;
  expires_at = 60;
  fencing_token = "token-1";
  lease_epoch = 1;
  owner_session_id = "";
  renewed_at = none;
  released_at = none;
  release_reason = "";
}

abbrev pub sample_owner : LeaseOwnershipRecord
sample_owner = record {
  version = "1.0";
  ownership_id = "owner-1";
  lease_id = "lease-1";
  queue_item_id = "item-1";
  task_id = "task-1";
  worker_id = "worker-1";
  lease_epoch = 4;
  fencing_token = "token-1";
  status = "active";
  acquired_at = 20;
  expires_at = 60;
  host_id = "host-1";
  renewed_at = none;
  released_at = none;
  reclaim_reason = "";
}

abbrev pub sample_worker : String → WorkerLifecycleRecord
sample_worker shutdown_state = record {
  version = "1.0";
  worker_id = "worker-1";
  worker_role = "executor";
  process_identity = "process-1";
  heartbeat_state = "active";
  claimed_capacity = 1;
  active_leases = "lease-1" ∷ [];
  startup_time = 5;
  host_id = "host-1";
  service_identity = "";
  startup_epoch = "epoch-0";
  current_drain_state = "running";
  endpoint_address = "";
  lease_pressure = float_1_0;
  last_checkpoint_activity = none;
  shutdown_state = shutdown_state;
  local_execution_mode = "normal";
  updated_at = 5;
}

abbrev pub sample_policy : WorkStealPolicy
sample_policy = record {
  version = "1.0";
  policy_id = "steal-1";
  allow_steal_from_draining = true;
  allow_steal_from_stale = true;
  min_lease_age_seconds = 5;
  max_pressure_to_keep_owner = float_1_0;
  protect_verification_capacity = true;
  protect_recovery_capacity = true;
  created_at = 0;
}

abbrev pub empty_repository : Repository
empty_repository = record {
  queue_items = [];
  queue_leases = [];
  admission_decisions = [];
  dispatch_records = [];
  queue_policies = [];
  load_shedding_events = [];
  admission_policies = [];
  queue_priority_policies = [];
  workers = [];
  lease_ownerships = [];
  renewal_attempts = [];
  lease_expiry_forecasts = [];
  lease_contention_records = [];
  work_steal_decisions = [];
  lease_transfer_records = [];
  ownership_conflict_events = [];
  hosts = [];
  provider_health_records = [];
  rate_limit_states = [];
  provider_cooldown_windows = [];
  provider_degradation_events = [];
  provider_availability_policies = [];
  policy_scopes = [];
  policy_versions = [];
  policy_evidence_bundles = [];
  policy_candidates = [];
  policy_promotion_runs = [];
  policy_rollback_records = [];
  checkpoints = [];
  incidents = [];
  worker_capabilities = [];
  worker_heartbeats = [];
  worker_pressure_snapshots = [];
  worker_host_bindings = [];
  worker_endpoint_records = [];
  dispatch_ownerships = [];
}

abbrev pub world_of : Repository → World Repository
world_of r = record { store = r; draws = 0; readings = 0 }

-- Two queued items, the second of high risk.
abbrev pub two_items : Repository
two_items = record empty_repository {
  queue_items = sample_item "item-1" "moderate" ∷ sample_item "item-2" "high" ∷ [];
}

-- The first of them under a lease.
abbrev pub one_lease : Repository
one_lease = record two_items { queue_leases = sample_lease ∷ [] }

-- The lease with its owner, who runs in the given state.
abbrev pub owned_lease : String → Repository
owned_lease shutdown_state = record one_lease {
  lease_ownerships = sample_owner ∷ [];
  workers = sample_worker shutdown_state ∷ [];
}

abbrev pub sample_snapshot : CapacitySnapshot
sample_snapshot = record {
  version = "1.0";
  snapshot_id = "capacity-1";
  active_tasks = 0;
  queued_tasks = 2;
  provider_capacity_usage = [];
  tool_pressure = [];
  approval_backlog = 0;
  budget_pressure = float_0_0;
  recovery_reservations = 0;
  eval_load = 0;
  created_at = 30;
}

abbrev pub sample_health : ProviderHealthSnapshot
sample_health = record {
  version = "1.0";
  snapshot_id = "health-1";
  records =
      record {
        version = "1.0";
        provider_name = "provider-1";
        circuit_state = "closed";
        recent_failures = 0;
        recent_successes = 1;
        structured_output_reliability = float_1_0;
        fallback_frequency = float_0_0;
        average_latency_ms = float_0_0;
        rate_limit_pressure = float_0_0;
        availability_state = "available";
        operator_disabled = false;
        last_error_code = "";
        updated_at = 30;
      }
      ∷ [];
  created_at = 30;
}
