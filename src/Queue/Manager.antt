-- ===== src/Queue/Manager.antt =====
-- `QueueManager` of runtime/queueing.py. Its proofs are in the modules below.
pub mod Dispatch
pub mod Order
pub mod Leases
pub mod Recovery
pub mod Attempts
mod Samples
use Prim.Native.String.{◌++◌}
use contract_evidence_os.Prelude.{
  ℕ, ◌+◌, String, Bool, true, false, ◌&&◌, ◌||◌, not, Option, none, some, List, [], ◌∷◌, ◌==◌, ltb,
  leb, if◌then◌else◌, select, sort_by,
}
use contract_evidence_os.Prelude.Int.{ℤ, ltb_ℤ}
use contract_evidence_os.Base.Float.{Float}
use contract_evidence_os.Base.Json.{Json, end, object}
use contract_evidence_os.Base.Exec.{
  or_new, Datetime, seconds, Env, Exec, pure, gets, modify, or_key_error, new_id, utc_now, now_or,
  when_some, ◌>>=◌, ◌>>◌,
}
use contract_evidence_os.Provider.Models.{ProviderHealthSnapshot}
use contract_evidence_os.Queue.Models.{
  QueueItem, QueueLease, AdmissionDecision, DispatchRecord, QueuePolicy, CapacitySnapshot,
}
use contract_evidence_os.Queue.Admission.{evaluate_admission, priority_score}
use contract_evidence_os.Storage.Repository.{
  Repository, save_queue_item, get_queue_item, list_queue_items, save_queue_lease, get_queue_lease,
  list_queue_leases, save_admission_decision, save_dispatch_record, latest_dispatch_record,
  load_queue_policy, save_load_shedding_event,
}

-- The keyword arguments of `enqueue_task`, after their defaults.
pub record EnqueueRequest : Type 0 where
  pub task_id : String
  pub contract_id : String
  pub risk_level : String
  pub priority_class : String
  pub queue_name : String
  pub continuity_fragility : Float
  pub recovery_required : Bool
  pub resume_task : Bool
  pub operator_priority : ℤ
  pub payload : Option Json

abbrev pub queue_policy_for : String → ℕ → Datetime → QueuePolicy
queue_policy_for queue_name max_attempts now = record {
  version = "1.0";
  policy_id = "queue-policy-" ++ queue_name;
  queue_name = queue_name;
  max_attempts = max_attempts;
  lease_timeout_seconds = 60;
  dead_letter_queue = "dead-letter";
  created_at = now;
}

-- The items that `dispatch_next` considers, in the order of their priority, ties in table order.
unfoldable pub dispatch_order : Datetime → Repository → List QueueItem
dispatch_order now r =
    sort_by (λ a b. ltb_ℤ (priority_score r b) (priority_score r a))
      (select (λ item. not (item.status == "leased") && leb item.available_at now)
        (list_queue_items ("queued" ∷ "deferred" ∷ "leased" ∷ []) r))

abbrev pub Dispatched : Type 0
Dispatched = QueueItem × QueueLease × AdmissionDecision × DispatchRecord

module _ (env : Env) where
  unfoldable pub enqueue_task : EnqueueRequest → Exec Repository QueueItem
  unfolding save_queue_item
  enqueue_task request = do
    stored ← gets (load_queue_policy request.queue_name)
    policy ← or_new env stored (queue_policy_for request.queue_name 3)
    queue_item_id ← new_id env "queue-item-"
    available_at ← utc_now env
    created_at ← utc_now env
    updated_at ← utc_now env
    let queue_item : QueueItem = record {
      version = "1.0";
      queue_item_id = queue_item_id;
      task_id = request.task_id;
      contract_id = request.contract_id;
      queue_name = request.queue_name;
      priority_class = request.priority_class;
      risk_level = request.risk_level;
      status = "queued";
      attempt_count = 0;
      max_attempts = policy.max_attempts;
      recovery_required = request.recovery_required;
      resume_task = request.resume_task;
      continuity_fragility = request.continuity_fragility;
      operator_priority = request.operator_priority;
      lease_id = "";
      available_at = available_at;
      dead_letter_reason = "";
      payload = elim request.payload [ none ↦ object end | some p ↦ p ];
      created_at = created_at;
      updated_at = updated_at;
    }
    modify (save_queue_item queue_item)
    pure queue_item

  -- The body of the loop of `dispatch_next` for an item that is not admitted.
  shed : QueueItem → AdmissionDecision → Datetime → Exec Repository Unit
  shed item decision now = do
    let status = if decision.status == "deferred" then "deferred" else "rejected"
    modify (save_queue_item (record item { status = status; updated_at = now }))
    event_id ← new_id env "load-shed-"
    modify (
        save_load_shedding_event (record {
          version = "1.0";
          event_id = event_id;
          queue_item_id = item.queue_item_id;
          task_id = item.task_id;
          reason = decision.reason;
          action = status;
          created_at = now;
        }))

  -- The rest of the loop's body: lease the item and return.
  lease_item : String → QueueItem → AdmissionDecision → Datetime → Exec Repository Dispatched
  lease_item worker_id item decision now = do
    stored ← gets (load_queue_policy item.queue_name)
    policy ← or_new env stored (queue_policy_for item.queue_name item.max_attempts)
    lease_id ← new_id env "queue-lease-"
    let lease : QueueLease = record {
      version = "1.0";
      lease_id = lease_id;
      queue_item_id = item.queue_item_id;
      task_id = item.task_id;
      worker_id = worker_id;
      status = "active";
      acquired_at = now;
      expires_at = now + seconds policy.lease_timeout_seconds;
      fencing_token = "";
      lease_epoch = 0;
      owner_session_id = "";
      renewed_at = none;
      released_at = none;
      release_reason = "";
    }
    let leased = record item { status = "leased"; lease_id = lease_id; updated_at = now }
    modify (save_queue_item leased)
    modify (save_queue_lease lease)
    dispatch_id ← new_id env "dispatch-"
    let dispatch : DispatchRecord = record {
      version = "1.0";
      dispatch_id = dispatch_id;
      queue_item_id = item.queue_item_id;
      task_id = item.task_id;
      lease_id = lease_id;
      worker_id = worker_id;
      status = "dispatched";
      admission_decision_id = decision.decision_id;
      created_at = now;
      completed_at = none;
    }
    modify (save_dispatch_record dispatch)
    pure (leased, lease, decision, dispatch)

  module _ (worker_id : String) (capacity_snapshot : CapacitySnapshot)
      (provider_health : ProviderHealthSnapshot) (system_mode : String) (now : Datetime) where
    -- The `for` loop of `dispatch_next` over the candidates, best first.
    dispatch_first : List QueueItem → Exec Repository (Option Dispatched)
    unfolding shed lease_item
    dispatch_first [] = pure none
    dispatch_first (item ∷ rest) = do
      decision ← evaluate_admission env item capacity_snapshot provider_health system_mode
      modify (save_admission_decision decision)
      if decision.status == "admitted"
          then (do dispatched ← lease_item worker_id item decision now; pure (some dispatched))
          else (do shed item decision now; dispatch_first rest)

  unfoldable pub dispatch_next :
      String
      → CapacitySnapshot
      → ProviderHealthSnapshot
      → String
      → Option Datetime
      → Exec Repository (Option Dispatched)
  unfolding dispatch_first
  dispatch_next worker_id capacity_snapshot provider_health system_mode now? = do
    now ← now_or env now?
    items ← gets (dispatch_order now)
    dispatch_first worker_id capacity_snapshot provider_health system_mode now items

  -- The dispatch record's part in `ack_lease` and `release_lease`.
  pub settle_dispatch : String → String → DispatchRecord → Exec Repository Unit
  settle_dispatch lease_id status dispatch =
      if dispatch.lease_id == lease_id
      then (do
        completed_at ← utc_now env
        modify (
            save_dispatch_record
              (record dispatch { status = status; completed_at = some completed_at })))
      else pure tt

  unfoldable pub ack_lease : String → Exec Repository Unit
  unfolding settle_dispatch
  ack_lease lease_id = do
    found ← gets (get_queue_lease lease_id)
    lease ← or_key_error lease_id found
    released_at ← utc_now env
    modify (
        save_queue_lease (record lease {
          status = "released";
          released_at = some released_at;
          release_reason = "acknowledged";
        }))
    item? ← gets (get_queue_item lease.queue_item_id)
    when_some item? (λ item. do
      updated_at ← utc_now env
      modify (
          save_queue_item
            (record item { status = "completed"; lease_id = ""; updated_at = updated_at })))
    dispatch? ← gets (latest_dispatch_record lease.task_id)
    when_some dispatch? (settle_dispatch lease_id "completed")

  -- What `release_lease` makes of the item: back in the queue while attempts are left.
  after_attempt : QueueItem → String → Bool → Exec Repository QueueItem
  after_attempt item reason retryable = do
    updated_at ← utc_now env
    let attempted = record item {
      attempt_count = item.attempt_count + 1;
      updated_at = updated_at;
      lease_id = "";
    }
    if retryable && ltb attempted.attempt_count attempted.max_attempts
        then (do
          available_at ← utc_now env
          pure (record attempted { status = "queued"; available_at = available_at }))
        else pure (record attempted { status = "dead_letter"; dead_letter_reason = reason })

  unfoldable pub release_lease : String → String → Bool → Exec Repository Unit
  unfolding settle_dispatch after_attempt
  release_lease lease_id reason retryable = do
    found ← gets (get_queue_lease lease_id)
    lease ← or_key_error lease_id found
    released_at ← utc_now env
    modify (
        save_queue_lease (record lease {
          status = "released";
          released_at = some released_at;
          release_reason = reason;
        }))
    item? ← gets (get_queue_item lease.queue_item_id)
    when_some item? (λ item. do
      item' ← after_attempt item reason retryable
      modify (save_queue_item item')
      dispatch? ← gets (latest_dispatch_record lease.task_id)
      when_some dispatch? (settle_dispatch lease_id item'.status))

  -- The loop of `recover_stale_leases`, with its counter.
  recover_each : Datetime → Bool → List QueueLease → ℕ → Exec Repository ℕ
  recover_each now force_expire [] recovered = pure recovered
  recover_each now force_expire (lease ∷ rest) recovered = do
    recovered' ←
        (if force_expire || leb lease.expires_at now
          then (do release_lease lease.lease_id "stale lease recovered" true; pure (recovered + 1))
          else pure recovered)
    recover_each now force_expire rest recovered'

  unfoldable pub recover_stale_leases : Option Datetime → Bool → Exec Repository ℕ
  unfolding recover_each
  recover_stale_leases now? force_expire = do
    now ← now_or env now?
    leases ← gets (list_queue_leases "active")
    recover_each now force_expire leases 0
