-- ===== src/Coordination/Backend/Steal.antt =====
-- `SQLiteCoordinationBackend.steal_lease` of runtime/coordination.py.
use contract_evidence_os.Prelude.{
  ◌+◌, ◌-◌, String, Bool, true, false, ◌&&◌, ◌||◌, Option, none, some, List, [], ◌∷◌, ◌==◌, leb,
  if◌then◌else◌, last?,
}
use contract_evidence_os.Base.Float.{float_le}
use contract_evidence_os.Base.Exec.{
  Datetime, seconds, Env, Exec, pure, gets, modify, new_id, or_index_error, ◌>>=◌, ◌>>◌,
}
use contract_evidence_os.Coordination.Models.{
  WorkerLifecycleRecord, LeaseOwnershipRecord, WorkStealPolicy, WorkStealDecision,
}
use contract_evidence_os.Storage.Repository.{
  Repository, latest_lease_ownership, load_worker, save_lease_contention_record,
  save_work_steal_decision, save_lease_transfer_record, list_work_steal_decisions,
}
use contract_evidence_os.Coordination.Backend.{Gauges, claim_lease}

-- The checks that `steal_lease` makes of the present owner, by name.
unfoldable pub safety_checks :
    Datetime
    → WorkStealPolicy
    → LeaseOwnershipRecord
    → Option WorkerLifecycleRecord
    → List (String × Bool)
safety_checks now policy current owner =
    ("lease_old_enough", leb (seconds policy.min_lease_age_seconds) (now - current.acquired_at))
    ∷ ("owner_draining", elim owner [ none ↦ false | some o ↦ o.shutdown_state == "draining" ])
    ∷ ("owner_stale", elim owner [ none ↦ false | some o ↦ o.heartbeat_state == "stale" ])
    ∷ (
      "owner_pressure_low",
      elim owner [
        | none ↦ true
        | some o ↦ float_le o.lease_pressure policy.max_pressure_to_keep_owner
      ],
    )
    ∷ []

-- `allowed`: what the checks and the policy say together.
unfoldable pub may_steal :
    Datetime → WorkStealPolicy → LeaseOwnershipRecord → Option WorkerLifecycleRecord → Bool
may_steal now policy current none = false
may_steal now policy current (some owner) =
    leb (seconds policy.min_lease_age_seconds) (now - current.acquired_at)
    && (policy.allow_steal_from_draining && owner.shutdown_state == "draining"
        || policy.allow_steal_from_stale && owner.heartbeat_state == "stale")

module _ (env : Env) (gauges : Gauges) where
  unfoldable pub save_contention :
      String → String → String → String → String → Datetime → Exec Repository Unit
  save_contention lease_id current_worker challenger decision reason now = do
    contention_id ← new_id env "lease-contention-"
    modify (
        save_lease_contention_record (record {
          version = "1.0";
          contention_id = contention_id;
          lease_id = lease_id;
          current_worker_id = current_worker;
          challenger_worker_id = challenger;
          decision = decision;
          reason = reason;
          created_at = now;
        }))

  -- `self.repository.list_work_steal_decisions()[-1]`
  unfoldable pub last_decision : Exec Repository (Option WorkStealDecision)
  last_decision = do
    decisions ← gets list_work_steal_decisions
    decision ← or_index_error (last? decisions)
    pure (some decision)

  -- What `steal_lease` writes down once the lease is claimed.
  unfoldable pub record_steal :
      String
      → String
      → Datetime
      → List (String × Bool)
      → LeaseOwnershipRecord
      → LeaseOwnershipRecord
      → Exec Repository (Option WorkStealDecision)
  unfolding save_contention last_decision
  record_steal lease_id new_worker_id now checks current replacement = do
    decision_id ← new_id env "work-steal-"
    modify (
        save_work_steal_decision (record {
          version = "1.0";
          decision_id = decision_id;
          lease_id = lease_id;
          from_worker_id = current.worker_id;
          to_worker_id = new_worker_id;
          status = "stolen";
          reason = "owner_draining_or_stale";
          safety_checks = checks;
          created_at = now;
        }))
    transfer_id ← new_id env "lease-transfer-"
    modify (
        save_lease_transfer_record (record {
          version = "1.0";
          transfer_id = transfer_id;
          lease_id = lease_id;
          from_worker_id = current.worker_id;
          to_worker_id = new_worker_id;
          previous_epoch = current.lease_epoch;
          new_epoch = replacement.lease_epoch;
          reason = "controlled_work_steal";
          created_at = now;
        }))
    save_contention lease_id current.worker_id new_worker_id "accepted" "policy_allowed" now
    last_decision

  -- `steal_lease` once the steal is allowed, given the checks.
  unfoldable pub steal_current :
      String
      → String
      → String
      → String
      → Datetime
      → List (String × Bool)
      → LeaseOwnershipRecord
      → Exec Repository (Option WorkStealDecision)
  steal_current lease_id queue_item_id task_id new_worker_id now checks current = do
    replacement ←
        claim_lease env gauges lease_id queue_item_id task_id new_worker_id (now + seconds 30)
          (some now) ""
    record_steal lease_id new_worker_id now checks current replacement

  steal_active :
      String
      → String
      → String
      → String
      → Datetime
      → WorkStealPolicy
      → LeaseOwnershipRecord
      → Exec Repository (Option WorkStealDecision)
  unfolding save_contention
  steal_active lease_id queue_item_id task_id new_worker_id now policy current = do
    owner ← gets (load_worker current.worker_id)
    if may_steal now policy current owner
        then steal_current lease_id queue_item_id task_id new_worker_id now
            (safety_checks now policy current owner) current
        else (do
          save_contention lease_id current.worker_id new_worker_id "rejected"
              "work_steal_not_allowed" now
          pure none)

  -- `current is None or current.status != "active"`, and then the steal.
  steal_found :
      String
      → String
      → String
      → String
      → Datetime
      → WorkStealPolicy
      → Option LeaseOwnershipRecord
      → Exec Repository (Option WorkStealDecision)
  unfolding steal_active
  steal_found lease_id queue_item_id task_id new_worker_id now policy none = pure none
  steal_found lease_id queue_item_id task_id new_worker_id now policy (some current) =
      if current.status == "active"
      then steal_active lease_id queue_item_id task_id new_worker_id now policy current
      else pure none

  unfoldable pub steal_lease :
      String
      → String
      → String
      → String
      → Datetime
      → WorkStealPolicy
      → Exec Repository (Option WorkStealDecision)
  unfolding steal_found
  steal_lease lease_id queue_item_id task_id new_worker_id now policy = do
    current ← gets (latest_lease_ownership lease_id)
    steal_found lease_id queue_item_id task_id new_worker_id now policy current
