-- ===== src/Lib.antt =====
-- The queue and the lease coordination of the contract-evidence runtime: a task is enqueued, admitted
-- under capacity and provider health, dispatched to a worker under a lease, and acknowledged, released
-- or recovered; ownership of a lease moves between workers by fencing tokens and epochs. A policy
-- registry keeps one active policy for each scope; a planner makes, repairs and schedules task plans.
--
-- The parts, by the files that model them (paths from the repository's root):
--   Base        what every part stands on. Base/Exec: methods as functions from a world (the store,
--               the number of identifiers drawn and of clock readings) to a result or an exception
--               with the new world. Base/Float: doubles by their 64 bits, with exact comparison.
--               Base/Text: str, in, < and sorted sets. Base/Json: payloads as data, with Base/Json/Dict for
--               dict objects.
--   Storage     src/contract_evidence_os/storage/repository.py. Table: INSERT OR REPLACE, lookup by key
--               and ORDER BY on a list of rows. Repository: a record with a list of rows for each
--               table, and the save, get, list, load and latest methods by their names.
--   Provider    src/contract_evidence_os/runtime/provider_health.py. Models: the records.
--               Health: ProviderHealthManager (rate-limit windows and the circuit breaker); its
--               child Snapshot: the method snapshot.
--   Queue       src/contract_evidence_os/runtime/queueing.py (Models; Admission: evaluate_admission and
--               _priority_score; Manager: the other methods of QueueManager) and
--               src/contract_evidence_os/runtime/backends.py (Backend: SQLiteQueueBackend).
--   Coordination  src/contract_evidence_os/runtime/coordination.py: the lease methods of
--               SQLiteCoordinationBackend (Backend: claim_lease, renew_lease, release_lease,
--               validate_fencing; Backend/Steal: steal_lease; Workers: register_worker,
--               heartbeat, set_worker_mode, claim_dispatch, worker_pool_snapshot;
--               Workers/Reclaim: reclaim_stale_workers).
--   Registry    src/contract_evidence_os/runtime/policy_registry.py: PolicyRegistryManager (Manager).
--   Recovery    src/contract_evidence_os/recovery/engine.py: RecoveryEngine (Engine: save_state,
--               restore_state and latest_state are its save_checkpoint, restore_checkpoint and
--               latest_checkpoint).
--   Permission  src/contract_evidence_os/policy/lattice.py: PermissionLattice.authorize, and the passport of
--               src/contract_evidence_os/agents/models.py.
--   Contracts   src/contract_evidence_os/contracts/lattice.py: ContractLatticeManager, and the records of
--               contracts/models.py. Inheritance: sequences of its operations.
--   Planning    src/contract_evidence_os/planning/engine.py (Engine: generate; Replan: replan_local) and
--               the scheduling of src/contract_evidence_os/runtime/service.py (Schedule: _ready_nodes,
--               _select_ready_batch, _release_approved_nodes, the decision of
--               _approval_wait_if_needed, and the rounds of execute_plan in which the batch has no
--               incidents and the worker still owns its dispatch; Approval: nodes that wait).
--   Samples     a small concrete system, on which the modules named Samples below the components
--               evaluate the theorems.
-- The queue manager and the queue backend share the tables of items and leases; the backend asks the
-- table of ownerships, which the coordination writes, who may act on a lease.
--
-- How the code is rendered. A method is one function of its name; a long body is cut into helpers,
-- whose comments say which part of it they are. Keyword arguments stand in their order, after
-- their defaults; an optional text argument is the empty text when absent, which `or` does not tell
-- from None. Counters that the code never lowers are natural numbers, priorities are integers,
-- instants are microseconds. uuid4 and the clock are streams that the environment gives, so nothing
-- is assumed of them unless a theorem says so. Stored objects are JSON that each load rebuilds, so an
-- object in hand is never shared with the table. Rows with equal sort columns keep the order of the
-- table, where the latest write stands last, but for latest_policy_promotion_run, which reads its
-- index from the end. Floating-point arithmetic and the performance counter are
-- parameters. A default policy that is built only to be read has a time of creation that no code
-- reads; where the code reads the clock for it, so does the
-- model, except for the default of the priority score. Loops are recursion on their list;
-- only the `while changed` loop of replan_local runs on fuel, one more than the plan has nodes, which is
-- enough because each round but the last moves a node to the recovery branch for good. The `while True` loop of
-- execute_plan is followed for a given number of rounds, of which a generated plan that needs no
-- further approval takes at most one for each node.
--
-- Not modelled: the Redis variants, whose server is outside the repository; schema validation, which
-- passes for the version "1.0" that all the records here carry; the other subsystems (memory,
-- evaluation, console, interfaces);
-- in the runtime service, the execution of a node and its failures, and what a round records beside
-- the statuses of the nodes; that the copies of a dict of a saved state share the dicts nested in it,
-- which here are values.
pub mod Prelude
pub mod Base
pub mod Storage
pub mod Provider
pub mod Queue
pub mod Coordination
pub mod Registry
pub mod Recovery
pub mod Permission
pub mod Contracts
pub mod Planning
pub mod Samples
