-- ===== src/Queue/Manager/Leases.antt =====
-- What `ack_lease` and `release_lease` do to a lease and to its item.
use contract_evidence_os.Prelude.{
  ◌+◌, ◌<◌, String, ◌≡◌, refl, ◌∙◌, ap, subst, Bool, true, ◌&&◌, Option, none, some, List, ◌==◌,
  arith, if◌then◌else◌, ltb, Option-cases, Bool-cases, inl, inr,
}
use contract_evidence_os.Base.Exec.{Env, World, ok, err, key_error, when_some}
use contract_evidence_os.Queue.Models.{QueueItem, QueueLease, DispatchRecord}
use contract_evidence_os.Queue.Manager.{settle_dispatch, after_attempt, ack_lease, release_lease}
use contract_evidence_os.Storage.Table.{insert_or_replace}
use contract_evidence_os.Storage.Repository.Laws.{
  item_stored, lease_stored, key-get_queue_lease, key-get_queue_item,
}
use contract_evidence_os.Storage.Repository.{
  Repository, save_queue_item, get_queue_item, save_queue_lease, get_queue_lease,
  save_dispatch_record, latest_dispatch_record, item_key, lease_key,
}

-- The lease after it was given back.
pub record IsReleased (lease : QueueLease) (reason : String) (lease' : QueueLease) : Type 0 where
  pub same : lease'.lease_id ≡ lease.lease_id
  pub target : lease'.queue_item_id ≡ lease.queue_item_id
  pub status : lease'.status ≡ "released"
  pub reason_kept : lease'.release_reason ≡ reason

-- The item after an attempt that ended without success.
pub record IsAttempted (item : QueueItem) (retryable : Bool) (item' : QueueItem) : Type 0 where
  pub same : item'.queue_item_id ≡ item.queue_item_id
  pub counted : item'.attempt_count ≡ item.attempt_count + 1
  pub limit_kept : item'.max_attempts ≡ item.max_attempts
  pub unleased : item'.lease_id ≡ ""
  pub status : item'.status ≡ (
      if retryable && ltb (item.attempt_count + 1) item.max_attempts
      then "queued"
      else "dead_letter")

-- What `release_lease` writes to the table of items, given what it finds there.
abbrev pub ItemsAfter : Option QueueItem → Bool → List QueueItem → List QueueItem → Type 0
ItemsAfter none retryable before after = after ≡ before
ItemsAfter (some item) retryable before after =
    (item' : QueueItem) × IsAttempted item retryable item'
    × (after ≡ insert_or_replace item_key item' before)

module _ (env : Env) where
  -- Settling a dispatch record touches nothing but the dispatch records.
  pub settle_lem :
      (lease_id status : String) (found : Option DispatchRecord) (w : World Repository)
      → (w' : World Repository) × (when_some found (settle_dispatch env lease_id status) w
          ≡ (ok tt, w'))
        × (w'.store.queue_items ≡ w.store.queue_items)
        × (w'.store.queue_leases ≡ w.store.queue_leases)
        × (w'.store.queue_policies ≡ w.store.queue_policies)
  unfolding settle_dispatch save_dispatch_record
  settle_lem lease_id status none w = (w, refl, refl, refl, refl)
  settle_lem lease_id status (some dispatch) w = elim (Bool-cases (dispatch.lease_id == lease_id)) [
    | inl t ↦ rw t (_, refl, refl, refl, refl)
    | inr f ↦ rw f (_, refl, refl, refl, refl)
  ]

  -- Acknowledging or releasing an unknown lease raises `KeyError` and changes nothing.
  pub unknown_lease_raises :
      (lease_id reason : String) (retryable : Bool) (w : World Repository)
      → get_queue_lease lease_id w.store ≡ none
      → (ack_lease env lease_id w ≡ (err (key_error lease_id), w))
        × (release_lease env lease_id reason retryable w ≡ (err (key_error lease_id), w))
  unfolding ack_lease release_lease
  unknown_lease_raises lease_id reason retryable w h = (rw h refl, rw h refl)

  after_attempt_lem :
      (item : QueueItem) (reason : String) (retryable : Bool) (w : World Repository)
      → (item' : QueueItem) × (w' : World Repository) × (after_attempt env item reason retryable w
          ≡ (ok item', w'))
        × (w'.store ≡ w.store)
        × IsAttempted item retryable item'
  unfolding after_attempt
  after_attempt_lem item reason retryable w =
      elim (Bool-cases (retryable && ltb (item.attempt_count + 1) item.max_attempts)) [
        | inl t ↦ rw t (
          _,
          _,
          refl,
          refl,
          record {
            same = refl;
            counted = refl;
            limit_kept = refl;
            unleased = refl;
            status = rw t refl;
          },
        )
        | inr f ↦ rw f (
          _,
          _,
          refl,
          refl,
          record {
            same = refl;
            counted = refl;
            limit_kept = refl;
            unleased = refl;
            status = rw f refl;
          },
        )
      ]

  -- The writes of `release_lease` to the tables of leases and of items.
  pub release_lease_lem :
      (lease_id reason : String) (retryable : Bool) (lease : QueueLease) (w : World Repository)
      → get_queue_lease lease_id w.store ≡ some lease
      → (lease' : QueueLease) × (w' : World Repository) × (release_lease env lease_id reason
            retryable w
          ≡ (ok tt, w'))
        × IsReleased lease reason lease'
        × (w'.store.queue_leases ≡ insert_or_replace lease_key lease' w.store.queue_leases)
        × ItemsAfter
            (get_queue_item lease.queue_item_id w.store)
            retryable
            w.store.queue_items
            w'.store.queue_items
        × (w'.store.queue_policies ≡ w.store.queue_policies)
  unfolding release_lease save_queue_lease get_queue_item save_queue_item
  release_lease_lem lease_id reason retryable lease w h =
      let released : QueueLease = record lease {
        status = "released";
        released_at = some (env.clock w.readings);
        release_reason = reason;
      } in
      let w0 : World Repository = record w {
        store = save_queue_lease released w.store;
        readings = w.readings + 1;
      } in
      let given : IsReleased lease reason released = record {
        same = refl;
        target = refl;
        status = refl;
        reason_kept = refl;
      } in
      elim (Option-cases (get_queue_item lease.queue_item_id w.store)) [
        | inl e ↦ rw (h, e) (released, w0, refl, given, refl, refl, refl)
        | inr (item, e) ↦
            let (item', w1, e1, s1, attempted) = after_attempt_lem item reason retryable w0 in
            let w2 : World Repository = record w1 { store = save_queue_item item' w1.store } in
            let (w3, e3, hi, hl, hp) =
              settle_lem lease_id item'.status (latest_dispatch_record lease.task_id w2.store) w2 in
            rw (h, e)
              (rw e1 (
                released,
                w3,
                e3,
                given,
                hl ∙ ap (λ s. s.queue_leases) s1,
                (
                  item',
                  attempted,
                  hi ∙ ap (λ s. insert_or_replace item_key item' s.queue_items) s1,
                ),
                hp ∙ ap (λ s. s.queue_policies) s1,
              ))
      ]

  -- The writes of `ack_lease`: the lease is released, and the item, if it is there, is completed
  -- and holds no lease.
  pub ack_lease_lem :
      (lease_id : String) (lease : QueueLease) (item : QueueItem) (w : World Repository)
      → get_queue_lease lease_id w.store ≡ some lease
      → get_queue_item lease.queue_item_id w.store ≡ some item
      → (w' : World Repository) × (lease' : QueueLease) × (item' : QueueItem) × (ack_lease env
            lease_id w
          ≡ (ok tt, w'))
        × IsReleased lease "acknowledged" lease'
        × (w'.store.queue_leases ≡ insert_or_replace lease_key lease' w.store.queue_leases)
        × (w'.store.queue_items ≡ insert_or_replace item_key item' w.store.queue_items)
        × (item'.status ≡ "completed")
        × (item'.lease_id ≡ "")
        × (item'.queue_item_id ≡ item.queue_item_id)
        × (item'.attempt_count ≡ item.attempt_count)
        × (item'.max_attempts ≡ item.max_attempts)
        × (w'.store.queue_policies ≡ w.store.queue_policies)
  unfolding ack_lease save_queue_lease get_queue_item save_queue_item
  ack_lease_lem lease_id lease item w h e =
      let w0 : World Repository = record w {
        store =
            save_queue_item
              (record item {
                status = "completed";
                lease_id = "";
                updated_at = env.clock (w.readings + 1);
              })
              (save_queue_lease
                (record lease {
                  status = "released";
                  released_at = some (env.clock w.readings);
                  release_reason = "acknowledged";
                })
                w.store);
        readings = w.readings + 1 + 1;
      } in
      let (w3, e3, hi, hl, hp) =
        settle_lem lease_id "completed" (latest_dispatch_record lease.task_id w0.store) w0 in
      rw (h, e)
        (
          w3,
          _,
          _,
          e3,
          record { same = refl; target = refl; status = refl; reason_kept = refl },
          hl,
          hi,
          refl,
          refl,
          refl,
          refl,
          refl,
          hp,
        )

  -- `ack_lease` where the item of the lease is gone: the items stay as they are.
  pub ack_lease_no_item :
      (lease_id : String) (lease : QueueLease) (w : World Repository)
      → get_queue_lease lease_id w.store ≡ some lease
      → get_queue_item lease.queue_item_id w.store ≡ none
      → (w' : World Repository) × (ack_lease env lease_id w ≡ (ok tt, w'))
        × (w'.store.queue_items ≡ w.store.queue_items)
        × (w'.store.queue_policies ≡ w.store.queue_policies)
  unfolding ack_lease save_queue_lease get_queue_item
  ack_lease_no_item lease_id lease w h e =
      let w0 : World Repository = record w {
        store =
            save_queue_lease
              (record lease {
                status = "released";
                released_at = some (env.clock w.readings);
                release_reason = "acknowledged";
              })
              w.store;
        readings = w.readings + 1;
      } in
      let (w3, e3, hi, hl, hp) =
        settle_lem lease_id "completed" (latest_dispatch_record lease.task_id w0.store) w0 in
      rw (h, e) (w3, e3, hi, hp)

  -- A completed item goes back to the queue when its acknowledged lease is released once more, with
  -- an attempt left: neither method looks at the status of the lease or of the item.
  pub release-after-ack_requeues :
      (lease_id reason : String) (lease : QueueLease) (item : QueueItem) (w : World Repository)
      → get_queue_lease lease_id w.store ≡ some lease
      → get_queue_item lease.queue_item_id w.store ≡ some item
      → item.attempt_count + 1 < item.max_attempts
      → (w1 w2 : World Repository) × (item1 item2 : QueueItem) × (ack_lease env lease_id w
          ≡ (ok tt, w1))
        × (get_queue_item lease.queue_item_id w1.store ≡ some item1)
        × (item1.status ≡ "completed")
        × (release_lease env lease_id reason true w1 ≡ (ok tt, w2))
        × (get_queue_item lease.queue_item_id w2.store ≡ some item2)
        × (item2.status ≡ "queued")
  release-after-ack_requeues lease_id reason lease item w h e room =
      let (w1, lease1, item1, e1, rel1, hl1, hi1, done1, _, same1, count1, limit1, _) =
        ack_lease_lem lease_id lease item w h e in
      let found1 =
        lease_stored w1.store lease_id lease1 w.store.queue_leases hl1
          (rel1.same ∙ key-get_queue_lease lease_id w.store lease h) in
      let stored1 =
        item_stored w1.store lease.queue_item_id item1 w.store.queue_items hi1
          (same1 ∙ key-get_queue_item lease.queue_item_id w.store item e) in
      let (lease2, w2, e2, rel2, hl2, hi2, _) =
        release_lease_lem lease_id reason true lease1 w1 found1 in
      let q : get_queue_item lease1.queue_item_id w1.store ≡ some item1 =
        ap (λ k. get_queue_item k w1.store) rel1.target ∙ stored1 in
      let written : ItemsAfter (some item1) true w1.store.queue_items w2.store.queue_items =
        subst (λ o. ItemsAfter o true w1.store.queue_items w2.store.queue_items) q hi2 in
      let (item2, attempted, hi) = written in
      (
        w1,
        w2,
        item1,
        item2,
        e1,
        stored1,
        done1,
        e2,
        item_stored w2.store lease.queue_item_id item2 w1.store.queue_items hi
            (attempted.same ∙ same1 ∙ key-get_queue_item lease.queue_item_id w.store item e),
        attempted.status ∙ ground arith,
      )
