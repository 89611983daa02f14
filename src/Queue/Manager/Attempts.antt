-- ===== src/Queue/Manager/Attempts.antt =====
-- The bound on attempts, over every sequence of calls of the queue manager.
use contract_evidence_os.Prelude.{
  ℕ, ◌+◌, ◌<◌, String, ◌≡◌, refl, sym, subst, Bool, true, false, ◌||◌, Option, none, some, List, [],
  ◌∷◌, ◌==◌, eq_iff, arith, if◌then◌else◌, leb, Bool-cases, Option-cases, inl, inr, All, All-mem,
  All-of_mem, All-select, sort_by-All, head-All, ◌⊎◌,
}
use contract_evidence_os.Base.Exec.{
  Datetime, Env, World, Exec, Result, ok, err, pure, continue, bind_keeps, ◌>>=◌, ◌>>◌,
}
use contract_evidence_os.Provider.Models.{ProviderHealthSnapshot}
use contract_evidence_os.Queue.Models.{
  QueueItem, QueueLease, QueuePolicy, AdmissionDecision, CapacitySnapshot,
}
use contract_evidence_os.Queue.Admission.Rules.{evaluate_admission_lem}
use contract_evidence_os.Queue.Manager.{
  EnqueueRequest, lease_item, dispatch_first, dispatch_order, enqueue_task, dispatch_next,
  ack_lease, release_lease, recover_each, recover_stale_leases,
}
use contract_evidence_os.Queue.Manager.Order.{mem-dispatch_order}
use contract_evidence_os.Queue.Manager.Leases.{
  unknown_lease_raises, ack_lease_no_item, IsAttempted, ItemsAfter, release_lease_lem,
  ack_lease_lem,
}
use contract_evidence_os.Storage.Table.{order_by_desc}
use contract_evidence_os.Storage.Table.Laws.{insert_or_replace-All}
use contract_evidence_os.Storage.Repository.{
  Repository, save_queue_item, get_queue_item, save_queue_lease, get_queue_lease,
  save_admission_decision, save_dispatch_record, load_queue_policy, save_load_shedding_event,
  item_key,
}

-- Waiting for a worker, or with one.
abbrev pub IsLive : QueueItem → Type 0
IsLive item = (item.status ≡ "queued") ⊎ (item.status ≡ "deferred") ⊎ (item.status ≡ "leased")

-- A live item has an attempt left.
abbrev pub HasAttempt : QueueItem → Type 0
HasAttempt item = IsLive item → item.attempt_count < item.max_attempts

pub record IsBounded (r : Repository) : Type 0 where
  pub items : All HasAttempt r.queue_items
  pub policies : All (λ p. 0 < p.max_attempts) r.queue_policies

pure_after :
    {S A B : Type 0} (m : Exec S A) (g : A → B) (w : World S)
    → (◌>>=◌ m (λ a. pure (g a)) w).1 ≡ (m w).1
pure_after {S} {A} {B} m g w = let (r, w') = m w in go r w'
  where
    go : (r : Result A) (w' : World S) → (continue r (λ a. pure (g a)) w').1 ≡ w'
    go (ok a) w' = refl
    go (err e) w' = refl

load_queue_policy-bound :
    (queue_name : String) (r : Repository) (p : QueuePolicy)
    → All (λ p. 0 < p.max_attempts) r.queue_policies
    → load_queue_policy queue_name r ≡ some p
    → 0 < p.max_attempts
unfolding load_queue_policy order_by_desc
load_queue_policy-bound queue_name r p h e =
    head-All _ _ (sort_by-All _ _ _ (All-select _ _ r.queue_policies h)) e

HasAttempt-completed : (item : QueueItem) → item.status ≡ "completed" → HasAttempt item
HasAttempt-completed item h live =
    ground (
      arith,
      eq_iff "completed" "queued",
      eq_iff "completed" "deferred",
      eq_iff "completed" "leased",
    )

HasAttempt-attempted :
    (item item' : QueueItem) (retryable : Bool)
    → IsAttempted item retryable item'
    → HasAttempt item'
HasAttempt-attempted item item' retryable h live = ground (
  arith,
  eq_iff "dead_letter" "queued",
  eq_iff "dead_letter" "deferred",
  eq_iff "dead_letter" "leased",
)

module _ (env : Env) where
  enqueue_task-IsBounded :
      (request : EnqueueRequest) (w : World Repository)
      → IsBounded w.store
      → IsBounded (enqueue_task env request w).1.store
  unfolding enqueue_task save_queue_item
  enqueue_task-IsBounded request w h =
      elim (Option-cases (load_queue_policy request.queue_name w.store)) [
        | inl e ↦ rw e (record {
          items =
              insert_or_replace-All item_key HasAttempt _ w.store.queue_items (λ live. omega arith)
                h.items;
          policies = h.policies;
        })
        | inr (p, e) ↦ rw e (record {
          items =
              insert_or_replace-All item_key HasAttempt _ w.store.queue_items
                (λ live. load_queue_policy-bound request.queue_name w.store p h.policies e) h.items;
          policies = h.policies;
        })
      ]

  lease_item-IsBounded :
      (worker_id : String) (item : QueueItem) (decision : AdmissionDecision) (now : Datetime)
      (w : World Repository)
      → item.attempt_count < item.max_attempts
      → IsBounded w.store
      → IsBounded (lease_item env worker_id item decision now w).1.store
  unfolding lease_item save_queue_item save_queue_lease save_dispatch_record
  lease_item-IsBounded worker_id item decision now w room h =
      elim (Option-cases (load_queue_policy item.queue_name w.store)) [
        | inl e ↦ rw e (record {
          items =
              insert_or_replace-All item_key HasAttempt _ w.store.queue_items (λ live. room)
                h.items;
          policies = h.policies;
        })
        | inr (p, e) ↦ rw e (record {
          items =
              insert_or_replace-All item_key HasAttempt _ w.store.queue_items (λ live. room)
                h.items;
          policies = h.policies;
        })
      ]

  module _ (worker_id : String) (snapshot : CapacitySnapshot) (health : ProviderHealthSnapshot)
      (mode : String) (now : Datetime) where
    dispatch_first-IsBounded :
        (items : List QueueItem) (w : World Repository)
        → All (λ item. item.attempt_count < item.max_attempts) items
        → IsBounded w.store
        → IsBounded (dispatch_first env worker_id snapshot health mode now items w).1.store
    unfolding dispatch_first save_admission_decision save_queue_item save_load_shedding_event
    dispatch_first-IsBounded [] w hi h = h
    dispatch_first-IsBounded (item ∷ rest) w (room, hi) h =
        let (d, w1, e1, s1, _) = evaluate_admission_lem env item snapshot health mode w in
        let w2 : World Repository = record w1 { store = save_admission_decision d w1.store } in
        let h1 : IsBounded w1.store = subst IsBounded (sym s1) h in
        let h2 : IsBounded w2.store = record { items = h1.items; policies = h1.policies } in
        elim (Bool-cases (d.status == "admitted")) [
          | inl t ↦
              rw (e1, t)
                (rw (pure_after (lease_item env worker_id item d now) some w2)
                  (lease_item-IsBounded worker_id item d now w2 room h2))
          | inr f ↦
              rw (e1, f)
                (dispatch_first-IsBounded rest _ hi (record {
                  items =
                      insert_or_replace-All item_key HasAttempt _ w1.store.queue_items
                        (λ live. room) h1.items;
                  policies = h1.policies;
                }))
        ]

  candidates_have_attempts :
      (now : Datetime) (r : Repository)
      → IsBounded r
      → All (λ item. item.attempt_count < item.max_attempts) (dispatch_order now r)
  candidates_have_attempts now r h = All-of_mem _ (dispatch_order now r) (λ item m.
      let (stored, eligible) = mem-dispatch_order now r m in
      All-mem HasAttempt r.queue_items h.items stored
        (elim eligible.waiting [ inl q ↦ inl q | inr d ↦ inr (inl d) ]))

  dispatch_next-IsBounded :
      (worker_id : String) (snapshot : CapacitySnapshot) (health : ProviderHealthSnapshot)
      (mode : String) (now? : Option Datetime) (w : World Repository)
      → IsBounded w.store
      → IsBounded (dispatch_next env worker_id snapshot health mode now? w).1.store
  unfolding dispatch_next
  dispatch_next-IsBounded worker_id snapshot health mode none w h =
      dispatch_first-IsBounded worker_id snapshot health mode (env.clock w.readings) _ _
        (candidates_have_attempts _ w.store h) h
  dispatch_next-IsBounded worker_id snapshot health mode (some now) w h =
      dispatch_first-IsBounded worker_id snapshot health mode now _ _
        (candidates_have_attempts now w.store h) h

  ack_lease-IsBounded :
      (lease_id : String) (w : World Repository)
      → IsBounded w.store
      → IsBounded (ack_lease env lease_id w).1.store
  ack_lease-IsBounded lease_id w h = elim (Option-cases (get_queue_lease lease_id w.store)) [
    | inl e ↦ rw ((unknown_lease_raises env lease_id "" false w e).0) h
    | inr (lease, e) ↦ elim (Option-cases (get_queue_item lease.queue_item_id w.store)) [
      | inl e' ↦
          let (w', returned, hi, hp) = ack_lease_no_item env lease_id lease w e e' in
          rw returned (record {
            items = subst (All HasAttempt) (sym hi) h.items;
            policies = subst (All (λ p. 0 < p.max_attempts)) (sym hp) h.policies;
          })
      | inr (item, e') ↦
          let (w', _, item', returned, _, _, hi, done, _, _, _, _, hp) =
            ack_lease_lem env lease_id lease item w e e' in
          rw returned (record {
            items = rw hi (
                insert_or_replace-All item_key HasAttempt item' w.store.queue_items
                  (HasAttempt-completed item' done) h.items);
            policies = subst (All (λ p. 0 < p.max_attempts)) (sym hp) h.policies;
          })
    ]
  ]

  ItemsAfter-HasAttempt :
      (found : Option QueueItem) (retryable : Bool) (before after : List QueueItem)
      → ItemsAfter found retryable before after
      → All HasAttempt before
      → All HasAttempt after
  ItemsAfter-HasAttempt none retryable before after e h = subst (All HasAttempt) (sym e) h
  ItemsAfter-HasAttempt (some item) retryable before after (item', attempted, e) h = rw e (
      insert_or_replace-All item_key HasAttempt item' before
        (HasAttempt-attempted item item' retryable attempted) h)

  release_lease-IsBounded :
      (lease_id reason : String) (retryable : Bool) (w : World Repository)
      → IsBounded w.store
      → IsBounded (release_lease env lease_id reason retryable w).1.store
  release_lease-IsBounded lease_id reason retryable w h =
      elim (Option-cases (get_queue_lease lease_id w.store)) [
        | inl e ↦ rw ((unknown_lease_raises env lease_id reason retryable w e).1) h
        | inr (lease, e) ↦
            let (lease', w', returned, _, _, hi, hp) =
              release_lease_lem env lease_id reason retryable lease w e in
            rw returned (record {
              items =
                  ItemsAfter-HasAttempt _ retryable w.store.queue_items w'.store.queue_items hi
                    h.items;
              policies = subst (All (λ p. 0 < p.max_attempts)) (sym hp) h.policies;
            })
      ]

  recover_each-IsBounded :
      (now : Datetime) (force_expire : Bool) (leases : List QueueLease) (n : ℕ)
      (w : World Repository)
      → IsBounded w.store
      → IsBounded (recover_each env now force_expire leases n w).1.store
  unfolding recover_each
  recover_each-IsBounded now force_expire [] n w h = h
  recover_each-IsBounded now force_expire (lease ∷ rest) n w h =
      bind_keeps IsBounded
        (if force_expire || leb lease.expires_at now
          then release_lease env lease.lease_id "stale lease recovered" true >> pure (n + 1)
          else pure n)
        (λ k. recover_each env now force_expire rest k) w
        (elim (Bool-cases (force_expire || leb lease.expires_at now)) [
          | inl t ↦ rw t (
              bind_keeps IsBounded (release_lease env lease.lease_id "stale lease recovered" true)
                (λ _. pure (n + 1)) w
                (release_lease-IsBounded lease.lease_id "stale lease recovered" true w h)
                (λ _ w' h'. h'))
          | inr f ↦ rw f h
        ])
        (λ k w' h'. recover_each-IsBounded now force_expire rest k w' h')

  recover_stale_leases-IsBounded :
      (now? : Option Datetime) (force_expire : Bool) (w : World Repository)
      → IsBounded w.store
      → IsBounded (recover_stale_leases env now? force_expire w).1.store
  unfolding recover_stale_leases
  recover_stale_leases-IsBounded none force_expire w h =
      recover_each-IsBounded (env.clock w.readings) force_expire _ 0 _ h
  recover_stale_leases-IsBounded (some now) force_expire w h =
      recover_each-IsBounded now force_expire _ 0 _ h

  -- One call of the queue manager, whatever it returns or raises.
  pub data Step : World Repository → World Repository → Type 0 where
    enqueue :
        (request : EnqueueRequest) (w : World Repository) → Step w (enqueue_task env request w).1
    dispatch :
        (worker_id : String) (snapshot : CapacitySnapshot) (health : ProviderHealthSnapshot)
        (mode : String) (now? : Option Datetime) (w : World Repository)
        → Step w (dispatch_next env worker_id snapshot health mode now? w).1
    ack : (lease_id : String) (w : World Repository) → Step w (ack_lease env lease_id w).1
    release :
        (lease_id reason : String) (retryable : Bool) (w : World Repository)
        → Step w (release_lease env lease_id reason retryable w).1
    recover :
        (now? : Option Datetime) (force_expire : Bool) (w : World Repository)
        → Step w (recover_stale_leases env now? force_expire w).1

  -- Any number of calls, in any order.
  pub data Reach (start : World Repository) : World Repository → Type 0 where
    here : Reach start start
    next : {w w' : World Repository} → Reach start w → Step w w' → Reach start w'

  Step-IsBounded : {w w' : World Repository} → Step w w' → IsBounded w.store → IsBounded w'.store
  Step-IsBounded (enqueue request w) h = enqueue_task-IsBounded request w h
  Step-IsBounded (dispatch worker_id snapshot health mode now? w) h =
      dispatch_next-IsBounded worker_id snapshot health mode now? w h
  Step-IsBounded (ack lease_id w) h = ack_lease-IsBounded lease_id w h
  Step-IsBounded (release lease_id reason retryable w) h =
      release_lease-IsBounded lease_id reason retryable w h
  Step-IsBounded (recover now? force_expire w) h =
      recover_stale_leases-IsBounded now? force_expire w h

  -- From a repository whose policies allow at least one attempt and whose live items all have an
  -- attempt left, every sequence of calls of the queue manager, with errors, leads to one of this
  -- kind: an item that has used up its attempts is never queued, deferred or leased.
  pub Reach-IsBounded :
      {start w : World Repository} → IsBounded start.store → Reach start w → IsBounded w.store
  Reach-IsBounded h here = h
  Reach-IsBounded h (next r step) = Step-IsBounded step (Reach-IsBounded h r)
