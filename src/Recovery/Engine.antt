-- ===== src/Recovery/Engine.antt =====
-- `RecoveryEngine` of recovery/engine.py. The dicts that hold states are objects of the process: the
-- engine keeps a saved dict itself, by its reference, and the repository a copy.
pub mod Restore
pub mod Latest
mod Samples
use Prim.Native.String.{◌++◌}
use contract_evidence_os.Prelude.{
  ℕ, ◌+◌, String, Bool, true, false, Option, none, some, List, [], ◌∷◌, ◌==◌, eqb, contains,
  dict_get, dict_set, if◌then◌else◌,
}
use contract_evidence_os.Base.Json.{Members}
use contract_evidence_os.Base.Json.Dict.{keys_of, update_members}
use contract_evidence_os.Base.Exec.{
  Env, World, Exec, ok, pure, raise, gets, modify, key_error, or_key_error, new_id, utc_now, ◌>>=◌,
  ◌>>◌,
}
use contract_evidence_os.Recovery.Models.{CheckpointRecord, IncidentReport}
use contract_evidence_os.Storage.Repository.{Repository}
use contract_evidence_os.Storage.Repository.Checkpoints.{
  latest_checkpoint, save_checkpoint, restore_checkpoint, save_incident,
}

pub record Recovery : Type 0 where
  -- the dicts of the process by their references, and the number of references given out
  pub objects : ℕ → Members
  pub allocated : ℕ
  pub repository : Option Repository
  pub checkpoints : List (String × ℕ)
  pub checkpoint_records : List (String × CheckpointRecord)
  pub failure_context : List (String × IncidentReport)

-- A new dict.
abbrev pub allocate : Members → Exec Recovery ℕ
allocate m w =
    let s = w.store in
    (
      ok s.allocated,
      record w {
        store = record s {
          objects = λ ref. if eqb ref s.allocated then m else s.objects ref;
          allocated = s.allocated + 1;
        };
      },
    )

-- `if self.repository is not None: ...`
abbrev pub persist : (Repository → Repository) → Recovery → Recovery
persist f s = record s { repository = elim s.repository [ none ↦ none | some r ↦ some (f r) ] }

-- `save_checkpoint`, with the reference of the state
unfoldable pub save_state : Env → String → String → ℕ → Exec Recovery CheckpointRecord
save_state env task_id plan_node_id state = do
  checkpoint_id ← new_id env "checkpoint-"
  created_at ← utc_now env
  contents ← gets (λ (s : Recovery). s.objects state)
  let checkpoint : CheckpointRecord = record {
    version = "1.0";
    checkpoint_id = checkpoint_id;
    task_id = task_id;
    plan_node_id = plan_node_id;
    state_ref = checkpoint_id ++ ".json";
    created_at = created_at;
    metadata = record { keys = keys_of contents; sequence = none };
  }
  modify (λ (s : Recovery). record s {
    checkpoints = dict_set checkpoint_id state s.checkpoints;
    checkpoint_records = dict_set checkpoint_id checkpoint s.checkpoint_records;
  })
  modify (persist (save_checkpoint checkpoint contents))
  pure checkpoint

-- `restore_checkpoint` when the engine does not hold the checkpoint itself
unfoldable pub restore_stored : String → Option Repository → Exec Recovery ℕ
restore_stored checkpoint_id none = raise (key_error checkpoint_id)
restore_stored checkpoint_id (some r) = do
  state ← or_key_error checkpoint_id (restore_checkpoint checkpoint_id r)
  allocate state

-- `restore_checkpoint`: the reference of the state
unfoldable pub restore_state : String → Exec Recovery ℕ
restore_state checkpoint_id = do
  held ← gets (λ (s : Recovery). dict_get checkpoint_id s.checkpoints)
  repository ← gets (λ (s : Recovery). s.repository)
  elim held [ none ↦ restore_stored checkpoint_id repository | some state ↦ pure state ]

-- `fork_branch`, with the contents of the patch
unfoldable pub fork_branch : String → Members → Exec Recovery ℕ
fork_branch checkpoint_id patch = do
  state ← restore_state checkpoint_id
  contents ← gets (λ (s : Recovery). s.objects state)
  allocate (update_members contents patch)

abbrev pub recoverable : List String
recoverable =
    "provider_error" ∷ "tool_failure" ∷ "network_failure" ∷ "environment_drift"
    ∷ "permission_denial" ∷ "verification_failure" ∷ "contract_ambiguity" ∷ "model_inconsistency"
    ∷ "budget_exhausted" ∷ "evidence_conflict" ∷ "evidence_inconsistency" ∷ "approval_wait"
    ∷ "approval_denied" ∷ "stale_continuity_packet" ∷ "replay_mismatch" ∷ "branch_divergence" ∷ []

-- `self.failure_context[report.incident_id] = report`, and its row
abbrev pub remember_incident : IncidentReport → Exec Recovery Unit
remember_incident report = do
  modify (λ (s : Recovery). record s {
    failure_context = dict_set report.incident_id report s.failure_context;
  })
  modify (persist (save_incident report))

unfoldable pub classify_failure : Env → String → String → String → Exec Recovery IncidentReport
classify_failure env task_id incident_type summary = do
  incident_id ← new_id env "incident-"
  created_at ← utc_now env
  let severity = if contains incident_type recoverable then "recoverable" else "critical"
  let report : IncidentReport = record {
    version = "1.0";
    incident_id = incident_id;
    task_id = task_id;
    incident_type = incident_type;
    severity = severity;
    summary = summary;
    recovery_attempted = severity == "recoverable";
    resolution = "pending";
    created_at = created_at;
  }
  remember_incident report
  pure report

unfoldable pub mark_failure_context : String → String → Exec Recovery IncidentReport
mark_failure_context incident_id resolution = do
  found ← gets (λ (s : Recovery). dict_get incident_id s.failure_context)
  report ← or_key_error incident_id found
  let marked = record report { resolution = resolution }
  remember_incident marked
  pure marked

-- `latest_checkpoint`
unfoldable pub latest_state : String → Recovery → Option (CheckpointRecord × Members)
latest_state task_id s = elim s.repository [ none ↦ none | some r ↦ latest_checkpoint task_id r ]
