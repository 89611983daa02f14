-- ===== src/Coordination/Workers/Reclaim.antt =====
-- `SQLiteCoordinationBackend.reclaim_stale_workers` of runtime/coordination.py.
pub mod Ends
pub mod Fence
use Prim.Native.String.{◌++◌}
use mathlib.Core.List.{◌++◌ as ◌+++◌}
use contract_evidence_os.Prelude.{
  ℕ, ◌+◌, String, Bool, Option, none, some, List, [], ◌∷◌, ◌==◌, ltb, if◌then◌else◌, is_some, map,
  select, contains, length, sum_of, sort_by,
}
use contract_evidence_os.Base.Float.{Float, float_0_0, float_max}
use contract_evidence_os.Base.Text.{text_lt}
use contract_evidence_os.Base.Exec.{
  Datetime, seconds, Env, Exec, pure, gets, modify, new_id, utc_now, now_or, when, when_some, ◌>>=◌,
  ◌>>◌,
}
use contract_evidence_os.Coordination.Models.{
  HostRecord, WorkerLifecycleRecord, LeaseOwnershipRecord, WorkerCapabilityRecord,
  WorkerHeartbeatRecord, WorkerPressureSnapshot, WorkerHostBinding, WorkerEndpointRecord,
  DispatchOwnershipRecord,
}
use contract_evidence_os.Coordination.Backend.{Gauges}
use contract_evidence_os.Storage.Repository.{
  Repository, load_worker, save_worker, save_lease_ownership, list_active_ownerships,
}
use contract_evidence_os.Storage.Repository.Workers.{
  list_workers, save_worker_capability, list_worker_capabilities, save_worker_heartbeat,
  latest_worker_heartbeat, save_worker_pressure_snapshot, save_host_record, load_host_record,
  list_host_records, save_worker_host_binding, save_worker_endpoint, load_worker_endpoint,
  save_dispatch_ownership, latest_dispatch_ownership, list_all_active_ownerships,
}
use contract_evidence_os.Coordination.Workers.{record_pool}

-- `last_seen > now - timedelta(seconds=heartbeat_expiry_seconds)`
unfoldable pub is_alive : Datetime → ℕ → WorkerLifecycleRecord → Repository → Bool
is_alive now heartbeat_expiry_seconds worker r =
    let last_seen : Datetime = elim (latest_worker_heartbeat worker.worker_id r) [
      | none ↦ worker.updated_at
      | some h ↦ h.created_at
    ] in
    ltb now (last_seen + seconds heartbeat_expiry_seconds)

abbrev pub reclaimed : Datetime → LeaseOwnershipRecord → LeaseOwnershipRecord
reclaimed now ownership = record ownership {
  status = "reclaimed";
  released_at = some now;
  reclaim_reason = "worker_stale";
}

abbrev pub stale : Datetime → WorkerLifecycleRecord → WorkerLifecycleRecord
stale now worker = record worker {
  heartbeat_state = "stale";
  shutdown_state = "stale";
  updated_at = now;
}

-- The stale worker and its host are written.
unfoldable pub mark_stale : Datetime → WorkerLifecycleRecord → Repository → Repository
mark_stale now worker r =
    let r1 = save_worker (stale now worker) r in
    elim (load_host_record worker.host_id r1) [
      | none ↦ r1
      | some h ↦ save_host_record (record h { status = "stale"; last_seen_at = now }) r1
    ]

-- The loop over the active ownerships of a stale worker.
unfoldable pub reclaim_each : Datetime → List LeaseOwnershipRecord → Repository → Repository
reclaim_each now [] r = r
reclaim_each now (o ∷ rest) r = reclaim_each now rest (save_lease_ownership (reclaimed now o) r)

-- One round of the loop over the workers: the ownerships that it adds to the result, and the tables.
unfoldable pub reclaim_worker :
    Datetime → ℕ → WorkerLifecycleRecord → Repository → List LeaseOwnershipRecord × Repository
reclaim_worker now expiry worker r =
    let r1 = mark_stale now worker r in
    let owned = list_active_ownerships worker.worker_id r1 in
    if is_alive now expiry worker r
    then ([], r)
    else (map (reclaimed now) owned, reclaim_each now owned r1)

unfoldable pub reclaim_workers :
    Datetime → ℕ → List WorkerLifecycleRecord → Repository → List LeaseOwnershipRecord × Repository
reclaim_workers now expiry [] r = ([], r)
reclaim_workers now expiry (worker ∷ rest) r =
    let (first, r1) = reclaim_worker now expiry worker r in
    let (others, r2) = reclaim_workers now expiry rest r1 in (first +++ others, r2)

unfoldable pub reclaim_stale_workers :
    Env → Option Datetime → ℕ → Exec Repository (List LeaseOwnershipRecord)
reclaim_stale_workers env now? heartbeat_expiry_seconds = do
  now ← now_or env now?
  workers ← gets list_workers
  reclaimed_leases ← gets (λ r. (reclaim_workers now heartbeat_expiry_seconds workers r).0)
  modify (λ r. (reclaim_workers now heartbeat_expiry_seconds workers r).1)
  record_pool env now
  pure reclaimed_leases
