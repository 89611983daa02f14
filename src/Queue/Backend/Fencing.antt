-- ===== src/Queue/Backend/Fencing.antt =====
-- Fencing: only the current owner of a lease changes anything through the queue backend.
use Prim.Native.String.{◌++◌}
use contract_evidence_os.Prelude.{
  if◌then◌else◌, ltb, Bool-cases, ℕ, ◌+◌, String, ◌≡◌, ◌≢◌, ◌⊎◌, subst, refl, sym, ◌∙◌, Bool, true,
  false, ◌&&◌, Option, none, some, ◌==◌, ==_refl, ==_ne, Option-cases, inl, inr,
}
use contract_evidence_os.Base.Exec.{Datetime, seconds, Env, World, Result, ok, fresh_id}
use contract_evidence_os.Coordination.Models.{LeaseOwnershipRecord}
use contract_evidence_os.Coordination.Backend.{Gauges, claim_lease}
use contract_evidence_os.Coordination.Backend.Fencing.{claimed-latest, ne-owned}
use contract_evidence_os.Queue.Models.{QueueItem, QueueLease, QueueOperationResult}
use contract_evidence_os.Queue.Backend.{
  after_failure, whole_second, is_current_owner, fenced, acquire_lease, renew_lease, acknowledge,
  release,
}
use contract_evidence_os.Storage.Repository.Laws.{
  item_stored, lease_stored, get_queue_lease-write, key-get_queue_item, key-get_queue_lease,
}
use contract_evidence_os.Storage.Repository.{
  Repository, save_queue_item, get_queue_item, save_queue_lease, get_queue_lease,
  latest_lease_ownership,
}

-- A mutation that was refused by the fence.
pub record IsFenced (result : Result QueueOperationResult) : Type 0 where
  pub reply : QueueOperationResult
  pub returned : result ≡ ok reply
  pub failed : reply.succeeded ≡ false
  pub status : reply.status ≡ "rejected"
  pub reason : reply.reason ≡ "fenced"

fenced-IsFenced :
    (operation lease_id fencing_token : String) (created_at : Datetime)
    → IsFenced (ok (fenced operation lease_id fencing_token created_at))
fenced-IsFenced operation lease_id fencing_token created_at = record {
  reply = fenced operation lease_id fencing_token created_at;
  returned = refl;
  failed = refl;
  status = refl;
  reason = refl;
}

module _ (env : Env) (lease_id worker_id fencing_token : String) (w : World Repository) where
  refusal :
      (extend_seconds : ℕ) (reason : String) (retryable : Bool) (now? : Option Datetime)
      → is_current_owner lease_id worker_id fencing_token w.store ≡ false
      → ((renew_lease env lease_id worker_id fencing_token extend_seconds now? w).0 ≡ ok none)
        × ((renew_lease env lease_id worker_id fencing_token extend_seconds now? w).1.store
            ≡ w.store)
        × IsFenced (acknowledge env lease_id worker_id fencing_token now? w).0
        × ((acknowledge env lease_id worker_id fencing_token now? w).1.store ≡ w.store)
        × IsFenced (release env lease_id worker_id fencing_token reason retryable now? w).0
        × ((release env lease_id worker_id fencing_token reason retryable now? w).1.store ≡ w.store)
  unfolding renew_lease acknowledge release
  refusal extend_seconds reason retryable none h =
      elim (Option-cases (get_queue_lease lease_id w.store)) [
        | inl e ↦
            rw (h, e) (refl, refl, fenced-IsFenced _ _ _ _, refl, fenced-IsFenced _ _ _ _, refl)
        | inr (l, e) ↦
            rw (h, e) (refl, refl, fenced-IsFenced _ _ _ _, refl, fenced-IsFenced _ _ _ _, refl)
      ]
  refusal extend_seconds reason retryable (some now) h =
      elim (Option-cases (get_queue_lease lease_id w.store)) [
        | inl e ↦
            rw (h, e) (refl, refl, fenced-IsFenced _ _ _ _, refl, fenced-IsFenced _ _ _ _, refl)
        | inr (l, e) ↦
            rw (h, e) (refl, refl, fenced-IsFenced _ _ _ _, refl, fenced-IsFenced _ _ _ _, refl)
      ]

-- A claim through the coordination, and the queue backend after it.
module _ (env : Env) (gauges : Gauges) (lease_id queue_item_id task_id worker_id : String)
    (expires_at : Datetime) (host_id : String) (w : World Repository) (now : Datetime) where
  abbrev claiming : Result LeaseOwnershipRecord × World Repository
  claiming =
      claim_lease env gauges lease_id queue_item_id task_id worker_id expires_at (some now) host_id
        w

  claimed-is_current_owner :
      (owner : LeaseOwnershipRecord) (other token : String)
      → claiming.0 ≡ ok owner
      → (worker_id ≢ other) ⊎ (owner.fencing_token ≢ token)
      → is_current_owner lease_id other token claiming.1.store ≡ false
  unfolding is_current_owner
  claimed-is_current_owner owner other token e ne =
      let (latest, to_worker, active) =
        claimed-latest env gauges lease_id queue_item_id task_id worker_id expires_at host_id w now
          owner e in
      let ne' = subst (λ z. (z ≢ other) ⊎ (owner.fencing_token ≢ token)) (sym to_worker) ne in
      rw (latest, is_current_owner, active) (ne-owned owner other token ne')

  -- Once a worker has claimed a lease through the coordination, no call of the queue backend under
  -- another worker or another token renews, acknowledges or releases it, whatever the stored queue
  -- lease says: at any time, the renewal returns nothing, the other calls report the fence, and the
  -- repository stays as the claim left it.
  pub stale_owner-IsFenced :
      (owner : LeaseOwnershipRecord) (other token : String) (extend_seconds : ℕ) (reason : String)
      (retryable : Bool) (later : Option Datetime)
      → claiming.0 ≡ ok owner
      → (worker_id ≢ other) ⊎ (owner.fencing_token ≢ token)
      → let renewal = renew_lease env lease_id other token extend_seconds later claiming.1 in
        let acknowledgement = acknowledge env lease_id other token later claiming.1 in
        let ending = release env lease_id other token reason retryable later claiming.1 in
        (renewal.0 ≡ ok none)
        × (renewal.1.store ≡ claiming.1.store)
        × IsFenced acknowledgement.0
        × (acknowledgement.1.store ≡ claiming.1.store)
        × IsFenced ending.0
        × (ending.1.store ≡ claiming.1.store)
  stale_owner-IsFenced owner other token extend_seconds reason retryable later e ne =
      refusal env lease_id other token claiming.1 extend_seconds reason retryable later
        (claimed-is_current_owner owner other token e ne)

-- Without an ownership record, ownership is what the stored lease says.
is_current_owner-lease :
    (lease_id worker_id fencing_token : String) (r : Repository) (lease : QueueLease)
    → latest_lease_ownership lease_id r ≡ none
    → get_queue_lease lease_id r ≡ some lease
    → is_current_owner lease_id worker_id fencing_token r ≡ (
        lease.status == "active"
        && lease.worker_id == worker_id
        && lease.fencing_token == fencing_token)
unfolding is_current_owner
is_current_owner-lease lease_id worker_id fencing_token r lease h e =
    rw (h, e, is_current_owner) refl

after_failure_lem :
    (item : QueueItem) (reason : String) (retryable : Bool) (now : Datetime)
    → ((after_failure item reason retryable now).queue_item_id ≡ item.queue_item_id)
      × ((after_failure item reason retryable now).attempt_count ≡ item.attempt_count + 1)
      × ((after_failure item reason retryable now).status ≡ (
          if retryable && ltb (item.attempt_count + 1) item.max_attempts
          then "queued"
          else "dead_letter"))
unfolding after_failure
after_failure_lem item reason retryable now =
    elim (Bool-cases (retryable && ltb (item.attempt_count + 1) item.max_attempts)) [
      | inl t ↦ rw t (refl, refl, refl)
      | inr f ↦ rw f (refl, refl, refl)
    ]

module _ (env : Env) (now : Datetime) (w : World Repository) where
  -- When the owner of a lease that only the queue knows acknowledges it, and the item of the lease
  -- is stored, the call succeeds: afterwards the item is completed, and nobody owns the lease any
  -- more.
  pub acknowledge_retires :
      (lease_id worker_id fencing_token : String) (lease : QueueLease) (item : QueueItem)
      (other token : String)
      → latest_lease_ownership lease_id w.store ≡ none
      → is_current_owner lease_id worker_id fencing_token w.store ≡ true
      → get_queue_lease lease_id w.store ≡ some lease
      → get_queue_item lease.queue_item_id w.store ≡ some item
      → (reply : QueueOperationResult) × (w' : World Repository) × (item' : QueueItem)
        × (acknowledge env lease_id worker_id fencing_token (some now) w ≡ (ok reply, w'))
        × (reply.succeeded ≡ true)
        × (get_queue_item lease.queue_item_id w'.store ≡ some item')
        × (item'.status ≡ "completed")
        × (is_current_owner lease_id other token w'.store ≡ false)
  unfolding acknowledge save_queue_lease save_queue_item latest_lease_ownership get_queue_item
  acknowledge_retires lease_id worker_id fencing_token lease item other token unowned owner h e =
      let lease' : QueueLease = record lease {
        status = "released";
        released_at = some now;
        release_reason = "acknowledged";
      } in
      let item' : QueueItem = record item {
        status = "completed";
        lease_id = "";
        updated_at = now;
      } in
      let r : Repository = save_queue_item item' (save_queue_lease lease' w.store) in
      rw (owner, h, e)
        (
          _,
          _,
          item',
          refl,
          refl,
          item_stored r lease.queue_item_id item' w.store.queue_items refl
              (key-get_queue_item lease.queue_item_id w.store item e),
          refl,
          is_current_owner-lease lease_id other token r lease' unowned (
              lease_stored r lease_id lease' w.store.queue_leases refl
                (key-get_queue_lease lease_id w.store lease h)),
        )

  -- The lease that `acquire_lease` makes at a world, and the item as it stores it.
  abbrev pub acquired : String → String → ℕ → QueueItem → World Repository → QueueLease
  acquired queue_item_id worker_id timeout item w0 = record {
    version = "1.0";
    lease_id = fresh_id env "queue-lease-" w0.draws;
    queue_item_id = queue_item_id;
    task_id = item.task_id;
    worker_id = worker_id;
    status = "active";
    acquired_at = now;
    expires_at = whole_second now + seconds timeout;
    fencing_token = "fence-" ++ env.uuid4_hex (w0.draws + 1);
    lease_epoch = 1;
    owner_session_id = "";
    renewed_at = some now;
    released_at = none;
    release_reason = "";
  }

  abbrev pub leased : QueueItem → World Repository → QueueItem
  leased item w0 = record item {
    status = "leased";
    lease_id = fresh_id env "queue-lease-" w0.draws;
    updated_at = now;
  }

  -- The lease that `acquire_lease` returns for a stored item, if its identifier is new to the
  -- coordination, is owned by exactly the worker and the token that it names, and its item is
  -- stored as leased under it.
  pub acquire_lease_owner :
      (queue_item_id worker_id : String) (timeout : ℕ) (item : QueueItem) (other token : String)
      → get_queue_item queue_item_id w.store ≡ some item
      → latest_lease_ownership (fresh_id env "queue-lease-" w.draws) w.store ≡ none
      → (lease : QueueLease) × (w' : World Repository) × (item' : QueueItem) × (acquire_lease env
            queue_item_id worker_id timeout
            (some now)
            w
          ≡ (ok lease, w'))
        × (get_queue_item queue_item_id w'.store ≡ some item')
        × (item'.status ≡ "leased")
        × (item'.lease_id ≡ lease.lease_id)
        × (is_current_owner lease.lease_id other token w'.store
            ≡ (worker_id == other && lease.fencing_token == token))
  unfolding acquire_lease save_queue_lease save_queue_item latest_lease_ownership
  acquire_lease_owner queue_item_id worker_id timeout item other token h unowned =
      let item' = leased item w in
      let lease = acquired queue_item_id worker_id timeout item w in
      let r : Repository = save_queue_lease lease (save_queue_item item' w.store) in
      rw h (
        lease,
        _,
        item',
        refl,
        item_stored r queue_item_id item' w.store.queue_items refl
            (key-get_queue_item queue_item_id w.store item h),
        refl,
        refl,
        is_current_owner-lease lease.lease_id other token r lease unowned
            (lease_stored r lease.lease_id lease w.store.queue_leases refl refl),
      )

  -- `acquire_lease` does not look at the status of the item: two calls for one stored item, one
  -- after the other, return two leases on it, and each of the two workers is the current owner of
  -- its own, provided that the fresh identifiers differ and are new to the coordination.
  pub two_leases_on_one_item :
      (queue_item_id worker1 worker2 : String) (timeout : ℕ) (item : QueueItem)
      → get_queue_item queue_item_id w.store ≡ some item
      → latest_lease_ownership (fresh_id env "queue-lease-" w.draws) w.store ≡ none
      → latest_lease_ownership (fresh_id env "queue-lease-" (w.draws + 1 + 1)) w.store ≡ none
      → fresh_id env "queue-lease-" w.draws ≢ fresh_id env "queue-lease-" (w.draws + 1 + 1)
      → (lease1 lease2 : QueueLease) × (w1 w2 : World Repository) × (acquire_lease env queue_item_id
            worker1 timeout
            (some now)
            w
          ≡ (ok lease1, w1))
        × (acquire_lease env queue_item_id worker2 timeout (some now) w1 ≡ (ok lease2, w2))
        × (is_current_owner lease1.lease_id worker1 lease1.fencing_token w2.store ≡ true)
        × (is_current_owner lease2.lease_id worker2 lease2.fencing_token w2.store ≡ true)
        × (lease1.queue_item_id ≡ lease2.queue_item_id)
  unfolding acquire_lease save_queue_lease save_queue_item latest_lease_ownership
  two_leases_on_one_item queue_item_id worker1 worker2 timeout item h unowned1 unowned2 fresh =
      let lease1 = acquired queue_item_id worker1 timeout item w in
      let item1 = leased item w in
      let r1 : Repository = save_queue_lease lease1 (save_queue_item item1 w.store) in
      let w1 : World Repository = record {
        store = r1;
        draws = w.draws + 1 + 1;
        readings = w.readings;
      } in
      let lease2 = acquired queue_item_id worker2 timeout item1 w1 in
      let r2 : Repository = save_queue_lease lease2 (save_queue_item (leased item1 w1) r1) in
      let e1 : get_queue_item queue_item_id r1 ≡ some item1 =
        item_stored r1 queue_item_id item1 w.store.queue_items refl
          (key-get_queue_item queue_item_id w.store item h) in
      let kept : get_queue_lease lease1.lease_id r2 ≡ some lease1 =
        get_queue_lease-write r1 r2 lease1.lease_id lease2 refl
        ∙ rw (==_ne lease2.lease_id lease1.lease_id (λ e. fresh (sym e)))
            (lease_stored r1 lease1.lease_id lease1 w.store.queue_leases refl refl) in
      (
        lease1,
        lease2,
        w1,
        record { store = r2; draws = w1.draws + 1 + 1; readings = w1.readings },
        rw h refl,
        rw e1 refl,
        is_current_owner-lease lease1.lease_id worker1 lease1.fencing_token r2 lease1 unowned1 kept
            ∙ rw (==_refl worker1, ==_refl lease1.fencing_token) refl,
        is_current_owner-lease lease2.lease_id worker2 lease2.fencing_token r2 lease2 unowned2
              (lease_stored r2 lease2.lease_id lease2 r1.queue_leases refl refl)
            ∙ rw (==_refl worker2, ==_refl lease2.fencing_token) refl,
        refl,
      )

  -- When the owner of a lease that only the queue knows releases it, and the item of the lease is
  -- stored, the attempt is counted: the item goes back to the queue if the release is retryable and
  -- attempts are left, and to the dead letters otherwise, the reply says which, and nobody owns the
  -- lease any more.
  pub release_counts_attempt :
      (lease_id worker_id fencing_token reason : String) (retryable : Bool) (lease : QueueLease)
      (item : QueueItem) (other token : String)
      → latest_lease_ownership lease_id w.store ≡ none
      → is_current_owner lease_id worker_id fencing_token w.store ≡ true
      → get_queue_lease lease_id w.store ≡ some lease
      → get_queue_item lease.queue_item_id w.store ≡ some item
      → (reply : QueueOperationResult) × (w' : World Repository) × (item' : QueueItem) × (release
            env lease_id worker_id fencing_token reason retryable
            (some now)
            w
          ≡ (ok reply, w'))
        × (get_queue_item lease.queue_item_id w'.store ≡ some item')
        × (item'.attempt_count ≡ item.attempt_count + 1)
        × (item'.status ≡ (
            if retryable && ltb (item.attempt_count + 1) item.max_attempts
            then "queued"
            else "dead_letter"))
        × (reply.status ≡ item'.status)
        × (is_current_owner lease_id other token w'.store ≡ false)
  unfolding release after_failure save_queue_lease save_queue_item latest_lease_ownership
      get_queue_item
  release_counts_attempt lease_id worker_id fencing_token reason retryable lease item other token
        unowned owner h e =
      let lease' : QueueLease = record lease {
        status = "released";
        released_at = some now;
        release_reason = reason;
      } in
      let item' : QueueItem = after_failure item reason retryable now in
      let r : Repository = save_queue_item item' (save_queue_lease lease' w.store) in
      let facts = after_failure_lem item reason retryable now in
      rw (owner, h, e)
        (
          _,
          _,
          item',
          refl,
          item_stored r lease.queue_item_id item' w.store.queue_items refl
              (facts.0 ∙ key-get_queue_item lease.queue_item_id w.store item e),
          facts.1,
          facts.2,
          refl,
          is_current_owner-lease lease_id other token r lease' unowned (
              lease_stored r lease_id lease' w.store.queue_leases refl
                (key-get_queue_lease lease_id w.store lease h)),
        )
