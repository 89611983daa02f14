-- ===== src/Recovery/Engine/Samples.antt =====
-- The theorems on recovery at a concrete engine.
use contract_evidence_os.Prelude.{ℕ, ◌≡◌, refl, dict_get, some, [], arith}
use contract_evidence_os.Prelude.Int.{pos}
use contract_evidence_os.Base.Json.{Members, end, member, integer, text}
use contract_evidence_os.Base.Json.Dict.{get_member, sorted, sorted_members}
use contract_evidence_os.Base.Exec.{World, ok}
use contract_evidence_os.Recovery.Models.{CheckpointRecord}
use contract_evidence_os.Recovery.Engine.{
  Recovery, save_state, restore_state, fork_branch, latest_state,
}
use contract_evidence_os.Recovery.Engine.Restore.{
  restore-save_state, fork_branch_isolates, held_state,
}
use contract_evidence_os.Recovery.Engine.Latest.{IsSequenced, latest-save_state}
use contract_evidence_os.Storage.Repository.{Repository}
use contract_evidence_os.Storage.Repository.Checkpoints.{checkpoint_row}
use contract_evidence_os.Samples.{sample_env, empty_repository}

abbrev sample_state : Members
sample_state = member "step" (integer (pos 1)) (member "phase" (text "build") end)

-- One dict, at the reference 0.
abbrev sample_recovery : World Recovery
sample_recovery = record {
  store = record {
    objects = λ ref. sample_state;
    allocated = 1;
    repository = some empty_repository;
    checkpoints = [];
    checkpoint_records = [];
    failure_context = [];
  };
  draws = 0;
  readings = 0;
}

abbrev saved : World Recovery
saved = (save_state sample_env "task-1" "node-1" 0 sample_recovery).1

-- Another engine on the same repository, in a process without dicts.
abbrev restarted : World Recovery
restarted = record saved {
  store = record saved.store { objects = λ ref. end; allocated = 0; checkpoints = [] };
}

restore-save_state_example :
    (restored : ℕ) × ((restore_state "checkpoint-a0a0a0a0a0" restarted).0 ≡ ok restored)
    × (get_member "phase"
          ((restore_state "checkpoint-a0a0a0a0a0" restarted).1.store.objects restored)
        ≡ some (text "build"))
unfolding get_member sorted dict_get
restore-save_state_example =
    restore-save_state sample_env "task-1" "node-1" 0 sample_recovery restarted empty_repository
      "phase" refl refl refl

fork_branch_isolates_example :
    ((fork_branch "checkpoint-a0a0a0a0a0" (member "step" (integer (pos 2)) end) saved).0 ≡ ok 1)
    × (get_member "step" (
          (fork_branch "checkpoint-a0a0a0a0a0"
              (member "step" (integer (pos 2)) end)
              saved).1.store.objects
            1)
        ≡ some (integer (pos 2)))
    × ((fork_branch "checkpoint-a0a0a0a0a0"
            (member "step" (integer (pos 2)) end)
            saved).1.store.objects
          0
        ≡ sample_state)
unfolding get_member save_state
fork_branch_isolates_example =
    fork_branch_isolates "checkpoint-a0a0a0a0a0" (member "step" (integer (pos 2)) end) saved saved 0
      (held_state sample_env "task-1" "node-1" 0 sample_recovery) (refl, tt) "step" 0 (omega arith)

latest-save_state_example :
    (checkpoint : CheckpointRecord) × (r' : Repository) × ((save_state sample_env "task-1" "node-1"
        0 sample_recovery).0
      ≡ ok checkpoint)
    × (saved.store.repository ≡ some r')
    × (latest_state "task-1" saved.store
        ≡ some (
          (checkpoint_row checkpoint sample_state empty_repository).saved,
          sorted_members sample_state,
        ))
    × IsSequenced r'.checkpoints
latest-save_state_example =
    latest-save_state sample_env "task-1" "node-1" 0 sample_recovery empty_repository refl tt
