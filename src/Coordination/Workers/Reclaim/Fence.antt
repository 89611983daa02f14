-- ===== src/Coordination/Workers/Reclaim/Fence.antt =====
-- The whole reclaim: what it keeps of the ownership rows, and that no stale worker passes a fence.
use contract_evidence_os.Prelude.{
  ℕ, String, ◌≡◌, refl, ◌∙◌, ap, subst, false, ◌&&◌, some, List, [], ◌∷◌, ◌==◌, eq_iff, arith,
  Bool-cases, Option-cases, inl, inr, Memᴰ,
}
use contract_evidence_os.Base.Exec.{Datetime, Env, World}
use contract_evidence_os.Coordination.Models.{WorkerLifecycleRecord, LeaseOwnershipRecord}
use contract_evidence_os.Coordination.Backend.{validate_fencing}
use contract_evidence_os.Coordination.Backend.Latest.{latest_mem}
use contract_evidence_os.Coordination.Backend.Ownership.{WellOwned}
use contract_evidence_os.Coordination.Workers.{worker_pool_snapshot}
use contract_evidence_os.Coordination.Workers.Reclaim.{
  is_alive, reclaimed, mark_stale, reclaim_each, reclaim_worker, reclaim_workers,
  reclaim_stale_workers,
}
use contract_evidence_os.Coordination.Workers.Reclaim.Ends.{
  mark_stale_keeps, IsIdleWorker, owned_by, reclaim_worker-WellOwned, reclaim_worker-IsActive,
  reclaim_worker-IsIdleWorker,
}
use contract_evidence_os.Storage.Repository.{
  Repository, latest_lease_ownership, save_lease_ownership,
}
use contract_evidence_os.Storage.Repository.Workers.{
  list_workers, latest_worker_heartbeat, save_worker_pressure_snapshot,
}

-- Only the heartbeats matter to the question whether a worker is alive, and a reclaim keeps them.
is_alive_heartbeats :
    (now : Datetime) (expiry : ℕ) (worker : WorkerLifecycleRecord) (r r' : Repository)
    → r'.worker_heartbeats ≡ r.worker_heartbeats
    → is_alive now expiry worker r' ≡ is_alive now expiry worker r
unfolding is_alive latest_worker_heartbeat
is_alive_heartbeats now expiry worker r r' e = rw (is_alive, latest_worker_heartbeat, e) refl

reclaim_each_heartbeats :
    (now : Datetime) (owned : List LeaseOwnershipRecord) (r : Repository)
    → (reclaim_each now owned r).worker_heartbeats ≡ r.worker_heartbeats
unfolding reclaim_each save_lease_ownership
reclaim_each_heartbeats now [] r = refl
reclaim_each_heartbeats now (o ∷ owned) r =
    reclaim_each_heartbeats now owned (save_lease_ownership (reclaimed now o) r)

module _ (now : Datetime) (expiry : ℕ) where
  reclaim_worker_heartbeats :
      (worker : WorkerLifecycleRecord) (r : Repository)
      → (reclaim_worker now expiry worker r).1.worker_heartbeats ≡ r.worker_heartbeats
  unfolding reclaim_worker
  reclaim_worker_heartbeats worker r = elim (Bool-cases (is_alive now expiry worker r)) [
    | inl t ↦ rw t refl
    | inr f ↦ rw f (
        reclaim_each_heartbeats now (owned_by now expiry worker r) (mark_stale now worker r)
        ∙ (mark_stale_keeps now worker r).1)
  ]

  reclaim_workers-WellOwned :
      (workers : List WorkerLifecycleRecord) (r : Repository)
      → WellOwned r.lease_ownerships
      → WellOwned (reclaim_workers now expiry workers r).1.lease_ownerships
  unfolding reclaim_workers
  reclaim_workers-WellOwned [] r h = h
  reclaim_workers-WellOwned (worker ∷ workers) r h =
      reclaim_workers-WellOwned workers (reclaim_worker now expiry worker r).1
        (reclaim_worker-WellOwned now expiry worker r h)

  reclaim_workers-IsActive :
      (workers : List WorkerLifecycleRecord) (r : Repository) (o : LeaseOwnershipRecord)
      → o.status ≡ "active"
      → Memᴰ o (reclaim_workers now expiry workers r).1.lease_ownerships
      → Memᴰ o r.lease_ownerships
  unfolding reclaim_workers
  reclaim_workers-IsActive [] r o a m = m
  reclaim_workers-IsActive (worker ∷ workers) r o a m =
      reclaim_worker-IsActive now expiry worker r o a
        (reclaim_workers-IsActive workers (reclaim_worker now expiry worker r).1 o a m)

  reclaim_workers-IsIdleWorker :
      (workers : List WorkerLifecycleRecord) (r : Repository) (worker : WorkerLifecycleRecord)
      → Memᴰ worker workers
      → is_alive now expiry worker r ≡ false
      → IsIdleWorker worker.worker_id (reclaim_workers now expiry workers r).1.lease_ownerships
  unfolding reclaim_workers
  reclaim_workers-IsIdleWorker [] r worker m f = elim m [ ]
  reclaim_workers-IsIdleWorker (x ∷ workers) r worker (Memᴰ.head e) f = λ o i k a.
      let r1 = (reclaim_worker now expiry x r).1 in
      reclaim_worker-IsIdleWorker now expiry x r (subst (λ z. is_alive now expiry z r ≡ false) e f)
        o (reclaim_workers-IsActive workers r1 o a i) (k ∙ ap (λ z. z.worker_id) e) a
  reclaim_workers-IsIdleWorker (x ∷ workers) r worker (Memᴰ.tail m) f =
      let r1 = (reclaim_worker now expiry x r).1 in
      reclaim_workers-IsIdleWorker workers r1 worker m
        (is_alive_heartbeats now expiry worker r r1 (reclaim_worker_heartbeats x r) ∙ f)

idle_worker_is_fenced :
    (lease_id worker_id token : String) (r : Repository)
    → IsIdleWorker worker_id r.lease_ownerships
    → validate_fencing lease_id worker_id token r ≡ false
unfolding validate_fencing
idle_worker_is_fenced lease_id worker_id token r idle =
    elim (Option-cases (latest_lease_ownership lease_id r)) [
      | inl e ↦ rw (validate_fencing, e) refl
      | inr (c, e) ↦ elim (Bool-cases (c.status == "active" && c.worker_id == worker_id)) [
        | inl t ↦ absurd (
            idle c (latest_mem lease_id r c e).0 ((eq_iff c.worker_id worker_id).0 (ground arith))
              ((eq_iff c.status "active").0 (ground arith)))
        | inr f ↦ rw (validate_fencing, e) (ground arith)
      ]
    ]

module _ (env : Env) (now : Datetime) (expiry : ℕ) (w : World Repository) where
  abbrev after_reclaim : World Repository
  after_reclaim = (reclaim_stale_workers env (some now) expiry w).1

  pub reclaim_stale_workers-WellOwned :
      WellOwned w.store.lease_ownerships → WellOwned after_reclaim.store.lease_ownerships
  unfolding reclaim_stale_workers worker_pool_snapshot save_worker_pressure_snapshot
  reclaim_stale_workers-WellOwned h =
      reclaim_workers-WellOwned now expiry (list_workers w.store) w.store h

  -- After a reclaim, a worker that was stored without a sign of life within the expiry passes the
  -- fence of no lease, under no token.
  pub reclaim_fences_stale :
      (worker : WorkerLifecycleRecord) (lease_id token : String)
      → Memᴰ worker (list_workers w.store)
      → is_alive now expiry worker w.store ≡ false
      → validate_fencing lease_id worker.worker_id token after_reclaim.store ≡ false
  unfolding reclaim_stale_workers worker_pool_snapshot save_worker_pressure_snapshot
  reclaim_fences_stale worker lease_id token m f =
      idle_worker_is_fenced lease_id worker.worker_id token after_reclaim.store
        (reclaim_workers-IsIdleWorker now expiry (list_workers w.store) w.store worker m f)
