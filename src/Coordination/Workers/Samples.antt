-- ===== src/Coordination/Workers/Samples.antt =====
-- The theorem on reclaims at a worker that holds a lease and was last seen long ago, and runs of the
-- other operations.
use contract_evidence_os.Prelude.{◌≡◌, refl, false, some, Memᴰ, sort_by, select}
use contract_evidence_os.Base.Exec.{World}
use contract_evidence_os.Coordination.Backend.{validate_fencing}
use contract_evidence_os.Coordination.Workers.Reclaim.{is_alive, reclaim_stale_workers}
use contract_evidence_os.Coordination.Workers.Reclaim.Fence.{reclaim_fences_stale}
use contract_evidence_os.Storage.Table.{order_by_asc, order_by_desc}
use contract_evidence_os.Storage.Repository.{Repository}
use contract_evidence_os.Storage.Repository.Workers.{list_workers, latest_worker_heartbeat}
use contract_evidence_os.Samples.{sample_env, sample_worker, owned_lease, world_of}

abbrev silent : World Repository
silent = world_of (owned_lease "running")

reclaim_fences_stale_example :
    validate_fencing "lease-1" "worker-1" "token-1"
      (reclaim_stale_workers sample_env (some 100000000) 30 silent).1.store
    ≡ false
unfolding list_workers order_by_asc sort_by is_alive latest_worker_heartbeat order_by_desc select
reclaim_fences_stale_example =
    reclaim_fences_stale sample_env 100000000 30 silent (sample_worker "running") "lease-1"
      "token-1" (Memᴰ.head refl) refl
