-- ===== src/Queue/Backend.antt =====
-- `SQLiteQueueBackend` of runtime/backends.py: fenced lease ownership over the same tables.
pub mod Fencing
mod Samples
use Prim.Native.String.{◌++◌}
use contract_evidence_os.Prelude.{
  ℕ, ◌+◌, ◌-◌, ◌%◌, String, Bool, true, false, ◌&&◌, not, Option, none, some, List, [], ◌∷◌, ◌==◌,
  ltb, leb, if◌then◌else◌, select,
}
use contract_evidence_os.Base.Json.{end}
use contract_evidence_os.Base.Exec.{
  Datetime, seconds, Env, Exec, pure, gets, modify, or_key_error, new_id, uuid4, now_or, utc_now,
  when_some, ◌>>=◌, ◌>>◌,
}
use contract_evidence_os.Queue.Models.{QueueItem, QueueLease, QueueOperationResult}
use contract_evidence_os.Coordination.Models.{LeaseOwnershipRecord}
use contract_evidence_os.Storage.Repository.{
  Repository, save_queue_item, get_queue_item, list_queue_items, save_queue_lease, get_queue_lease,
  latest_lease_ownership,
}

-- `now.replace(microsecond=0)`
abbrev pub whole_second : Datetime → Datetime
whole_second now = now - now % 1000000

-- `_is_current_owner`
unfoldable pub is_current_owner : String → String → String → Repository → Bool
is_current_owner lease_id worker_id fencing_token r = elim (latest_lease_ownership lease_id r) [
  | some o ↦ o.status == "active" && o.worker_id == worker_id && o.fencing_token == fencing_token
  | none ↦ elim (get_queue_lease lease_id r) [
    | none ↦ false
    | some l ↦ l.status == "active" && l.worker_id == worker_id && l.fencing_token == fencing_token
  ]
]

abbrev pub fenced : String → String → String → Datetime → QueueOperationResult
fenced operation lease_id fencing_token created_at = record {
  version = "1.0";
  operation = operation;
  succeeded = false;
  status = "rejected";
  reason = "fenced";
  queue_item_id = "";
  lease_id = lease_id;
  fencing_token = fencing_token;
  payload = end;
  created_at = created_at;
}

-- The item after a failed attempt.
unfoldable pub after_failure : QueueItem → String → Bool → Datetime → QueueItem
after_failure item reason retryable now =
    let attempted = record item {
      attempt_count = item.attempt_count + 1;
      updated_at = now;
      lease_id = "";
    } in
    if retryable && ltb attempted.attempt_count attempted.max_attempts
    then record attempted { status = "queued"; available_at = now }
    else record attempted { status = "dead_letter"; dead_letter_reason = reason }

-- The rest of `renew_lease`, once the lease and its owner are known.
renew_found : ℕ → Datetime → Bool → Option QueueLease → Exec Repository (Option QueueLease)
renew_found extend_seconds now owner none = pure none
renew_found extend_seconds now owner (some lease) = if not owner then pure none else (do
  let renewed = record lease { expires_at = now + seconds extend_seconds; renewed_at = some now }
  modify (save_queue_lease renewed)
  pure (some renewed))

module _ (env : Env) where
  unfoldable pub enqueue : QueueItem → Exec Repository QueueOperationResult
  enqueue item = do
    let item' =
        if item.status == "queued" && ltb item.updated_at item.available_at
        then record item { available_at = item.updated_at }
        else item
    modify (save_queue_item item')
    created_at ← utc_now env
    pure (record {
      version = "1.0";
      operation = "enqueue";
      succeeded = true;
      status = "queued";
      reason = "";
      queue_item_id = item'.queue_item_id;
      lease_id = "";
      fencing_token = "";
      payload = end;
      created_at = created_at;
    })

  unfoldable pub list_ready : String → Option Datetime → Exec Repository (List QueueItem)
  list_ready queue_name now? = do
    now ← now_or env now?
    items ← gets (list_queue_items ("queued" ∷ "deferred" ∷ []))
    pure (select (λ item. item.queue_name == queue_name && leb item.available_at now) items)

  unfoldable pub acquire_lease : String → String → ℕ → Option Datetime → Exec Repository QueueLease
  acquire_lease queue_item_id worker_id lease_timeout_seconds now? = do
    now ← now_or env now?
    found ← gets (get_queue_item queue_item_id)
    item ← or_key_error queue_item_id found
    lease_id ← new_id env "queue-lease-"
    hex ← uuid4 env
    let lease : QueueLease = record {
      version = "1.0";
      lease_id = lease_id;
      queue_item_id = queue_item_id;
      task_id = item.task_id;
      worker_id = worker_id;
      status = "active";
      acquired_at = now;
      expires_at = whole_second now + seconds lease_timeout_seconds;
      fencing_token = "fence-" ++ hex;
      lease_epoch = 1;
      owner_session_id = "";
      renewed_at = some now;
      released_at = none;
      release_reason = "";
    }
    modify
        (save_queue_item (record item { status = "leased"; lease_id = lease_id; updated_at = now }))
    modify (save_queue_lease lease)
    pure lease

  unfoldable pub renew_lease :
      String → String → String → ℕ → Option Datetime → Exec Repository (Option QueueLease)
  unfolding renew_found
  renew_lease lease_id worker_id fencing_token extend_seconds now? = do
    now ← now_or env now?
    found ← gets (get_queue_lease lease_id)
    owner ← gets (is_current_owner lease_id worker_id fencing_token)
    renew_found extend_seconds now owner found

  unfoldable pub acknowledge :
      String → String → String → Option Datetime → Exec Repository QueueOperationResult
  acknowledge lease_id worker_id fencing_token now? = do
    now ← now_or env now?
    owner ← gets (is_current_owner lease_id worker_id fencing_token)
    if not owner
        then (do
          created_at ← utc_now env
          pure (fenced "acknowledge" lease_id fencing_token created_at))
        else (do
          found ← gets (get_queue_lease lease_id)
          lease ← or_key_error lease_id found
          modify (
              save_queue_lease (record lease {
                status = "released";
                released_at = some now;
                release_reason = "acknowledged";
              }))
          item? ← gets (get_queue_item lease.queue_item_id)
          when_some item? (λ item. modify (
              save_queue_item
                (record item { status = "completed"; lease_id = ""; updated_at = now })))
          created_at ← utc_now env
          pure (record {
            version = "1.0";
            operation = "acknowledge";
            succeeded = true;
            status = "completed";
            reason = "";
            queue_item_id = lease.queue_item_id;
            lease_id = lease_id;
            fencing_token = fencing_token;
            payload = end;
            created_at = created_at;
          }))

  unfoldable pub release :
      String
      → String
      → String
      → String
      → Bool
      → Option Datetime
      → Exec Repository QueueOperationResult
  release lease_id worker_id fencing_token reason retryable now? = do
    now ← now_or env now?
    owner ← gets (is_current_owner lease_id worker_id fencing_token)
    if not owner
        then (do
          created_at ← utc_now env
          pure (fenced "release" lease_id fencing_token created_at))
        else (do
          found ← gets (get_queue_lease lease_id)
          lease ← or_key_error lease_id found
          modify (
              save_queue_lease (record lease {
                status = "released";
                released_at = some now;
                release_reason = reason;
              }))
          item? ← gets (get_queue_item lease.queue_item_id)
          item ← or_key_error lease.queue_item_id item?
          let item' = after_failure item reason retryable now
          modify (save_queue_item item')
          created_at ← utc_now env
          pure (record {
            version = "1.0";
            operation = "release";
            succeeded = true;
            status = item'.status;
            reason = reason;
            queue_item_id = item'.queue_item_id;
            lease_id = lease_id;
            fencing_token = fencing_token;
            payload = end;
            created_at = created_at;
          }))

  unfoldable pub force_requeue :
      String → String → Option Datetime → Exec Repository QueueOperationResult
  force_requeue lease_id reason now? = do
    now ← now_or env now?
    found ← gets (get_queue_lease lease_id)
    lease ← or_key_error lease_id found
    item? ← gets (get_queue_item lease.queue_item_id)
    item ← or_key_error lease.queue_item_id item?
    modify (
        save_queue_lease
          (record lease { status = "released"; released_at = some now; release_reason = reason }))
    modify (
        save_queue_item
          (record item { status = "queued"; available_at = now; lease_id = ""; updated_at = now }))
    created_at ← utc_now env
    pure (record {
      version = "1.0";
      operation = "force_requeue";
      succeeded = true;
      status = "queued";
      reason = reason;
      queue_item_id = item.queue_item_id;
      lease_id = lease_id;
      fencing_token = "";
      payload = end;
      created_at = created_at;
    })
