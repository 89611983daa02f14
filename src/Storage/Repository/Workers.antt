-- ===== src/Storage/Repository/Workers.antt =====
-- The tables of `SQLiteRepository` that keep the workers, their hosts and their dispatches.
use contract_evidence_os.Prelude.{String, Option, List, ◌==◌, select, head?}
use contract_evidence_os.Storage.Table.{find_row, insert_or_replace, order_by_asc, order_by_desc}
use contract_evidence_os.Coordination.Models.{
  HostRecord, WorkerLifecycleRecord, LeaseOwnershipRecord, WorkerCapabilityRecord,
  WorkerHeartbeatRecord, WorkerPressureSnapshot, WorkerHostBinding, WorkerEndpointRecord,
  DispatchOwnershipRecord,
}
use contract_evidence_os.Storage.Repository.{Repository}

unfoldable pub list_workers : Repository → List WorkerLifecycleRecord
list_workers r = order_by_asc (λ w. w.updated_at) r.workers

unfoldable pub save_worker_capability : WorkerCapabilityRecord → Repository → Repository
save_worker_capability capability r = record r {
  worker_capabilities = insert_or_replace (λ c. c.worker_id) capability r.worker_capabilities;
}

unfoldable pub list_worker_capabilities : Repository → List WorkerCapabilityRecord
list_worker_capabilities r = order_by_asc (λ c. c.created_at) r.worker_capabilities

unfoldable pub save_worker_heartbeat : WorkerHeartbeatRecord → Repository → Repository
save_worker_heartbeat heartbeat r = record r {
  worker_heartbeats = insert_or_replace (λ h. h.heartbeat_id) heartbeat r.worker_heartbeats;
}

unfoldable pub latest_worker_heartbeat : String → Repository → Option WorkerHeartbeatRecord
latest_worker_heartbeat worker_id r =
    head? (
      order_by_desc (λ h. h.created_at)
        (select (λ h. h.worker_id == worker_id) r.worker_heartbeats))

unfoldable pub save_worker_pressure_snapshot : WorkerPressureSnapshot → Repository → Repository
save_worker_pressure_snapshot snapshot r = record r {
  worker_pressure_snapshots =
      insert_or_replace (λ s. s.snapshot_id) snapshot r.worker_pressure_snapshots;
}

unfoldable pub save_host_record : HostRecord → Repository → Repository
save_host_record host r = record r { hosts = insert_or_replace (λ h. h.host_id) host r.hosts }

unfoldable pub load_host_record : String → Repository → Option HostRecord
load_host_record host_id r = find_row (λ h. h.host_id) host_id r.hosts

unfoldable pub list_host_records : Repository → List HostRecord
list_host_records r = order_by_asc (λ h. h.last_seen_at) r.hosts

unfoldable pub save_worker_host_binding : WorkerHostBinding → Repository → Repository
save_worker_host_binding binding r = record r {
  worker_host_bindings = insert_or_replace (λ b. b.binding_id) binding r.worker_host_bindings;
}

unfoldable pub save_worker_endpoint : WorkerEndpointRecord → Repository → Repository
save_worker_endpoint endpoint r = record r {
  worker_endpoint_records =
      insert_or_replace (λ e. e.endpoint_id) endpoint r.worker_endpoint_records;
}

unfoldable pub load_worker_endpoint : String → Repository → Option WorkerEndpointRecord
load_worker_endpoint worker_id r = head? (
    order_by_desc (λ e. e.last_seen_at)
      (select (λ e. e.worker_id == worker_id) r.worker_endpoint_records))

unfoldable pub save_dispatch_ownership : DispatchOwnershipRecord → Repository → Repository
save_dispatch_ownership ownership r = record r {
  dispatch_ownerships = insert_or_replace (λ o. o.ownership_id) ownership r.dispatch_ownerships;
}

unfoldable pub latest_dispatch_ownership : String → Repository → Option DispatchOwnershipRecord
latest_dispatch_ownership dispatch_id r = head? (
    order_by_desc (λ o. o.updated_at)
      (select (λ o. o.dispatch_id == dispatch_id) r.dispatch_ownerships))

-- `list_lease_ownerships(statuses=["active"])`
unfoldable pub list_all_active_ownerships : Repository → List LeaseOwnershipRecord
list_all_active_ownerships r =
    order_by_asc (λ o. o.acquired_at) (select (λ o. o.status == "active") r.lease_ownerships)
