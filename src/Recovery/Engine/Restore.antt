-- ===== src/Recovery/Engine/Restore.antt =====
-- Saved states and what is restored of them.
use mathlib.Core.Option.{map as map_option}
use contract_evidence_os.Prelude.{
  ℕ, ◌<◌, String, ◌≡◌, refl, true, false, none, some, ==_refl, eqb, arith, dict_get,
  dict_get-dict_set,
}
use contract_evidence_os.Base.Json.{Members}
use contract_evidence_os.Base.Json.Dict.{
  get_member, sorted, sorted_members, IsDict, or_else, get_member-sorted_members,
  get_member-update_members,
}
use contract_evidence_os.Base.Exec.{Env, World, ok, fresh_id}
use contract_evidence_os.Recovery.Models.{CheckpointRecord}
use contract_evidence_os.Recovery.Engine.{
  Recovery, save_state, restore_stored, restore_state, fork_branch,
}
use contract_evidence_os.Storage.Table.Laws.{find_row-insert_or_replace}
use contract_evidence_os.Storage.Repository.{Repository}
use contract_evidence_os.Storage.Repository.Checkpoints.{
  row_key, save_checkpoint, restore_checkpoint,
}

restore-save_checkpoint :
    (checkpoint : CheckpointRecord) (state : Members) (r : Repository)
    → restore_checkpoint checkpoint.checkpoint_id (save_checkpoint checkpoint state r)
      ≡ some (sorted_members state)
unfolding restore_checkpoint save_checkpoint
restore-save_checkpoint checkpoint state r =
    rw (restore_checkpoint, find_row-insert_or_replace row_key, ==_refl checkpoint.checkpoint_id)
      refl

-- A new dict is at its own reference, and nowhere else.
eqb_refl : (n : ℕ) → eqb n n ≡ true
eqb_refl n = ground arith

eqb_less : (m n : ℕ) → m < n → eqb m n ≡ false
eqb_less m n h = ground arith

-- A state that one engine saves to a repository is restored by any engine on that repository that does
-- not hold it itself, whatever has happened to the dicts in between: the restored dict has the value
-- of every key at the time of the save, up to the order of the keys within it.
pub restore-save_state :
    (env : Env) (task_id plan_node_id : String) (state : ℕ) (w w' : World Recovery) (r : Repository)
    (k : String)
    → w.store.repository ≡ some r
    → w'.store.repository ≡ (save_state env task_id plan_node_id state w).1.store.repository
    → dict_get (fresh_id env "checkpoint-" w.draws) w'.store.checkpoints ≡ none
    → (restored : ℕ) × ((restore_state (fresh_id env "checkpoint-" w.draws) w').0 ≡ ok restored)
      × (get_member k
            ((restore_state (fresh_id env "checkpoint-" w.draws) w').1.store.objects restored)
          ≡ map_option sorted (get_member k (w.store.objects state)))
unfolding save_state restore_state restore_stored
restore-save_state env task_id plan_node_id state w w' r k stored same fresh =
    let same' = rw stored at same in
    rw (fresh, same', restore-save_checkpoint)
      (
        w'.store.allocated,
        refl,
        rw (eqb_refl w'.store.allocated) (get_member-sorted_members k (w.store.objects state)),
      )

-- The engine that saved a state gives back the dict itself, so what is changed in it afterwards shows.
pub held_state :
    (env : Env) (task_id plan_node_id : String) (state : ℕ) (w : World Recovery)
    → restore_state
        (fresh_id env "checkpoint-" w.draws)
        (save_state env task_id plan_node_id state w).1
      ≡ (ok state, (save_state env task_id plan_node_id state w).1)
unfolding save_state restore_state
held_state env task_id plan_node_id state w = rw dict_get-dict_set refl

-- A fork of a checkpoint that can be restored is a new dict, with the values of the patch and the
-- restored ones for the other keys; the dicts that there were, the restored one included, keep their
-- contents.
pub fork_branch_isolates :
    (checkpoint_id : String) (patch : Members) (w w' : World Recovery) (state : ℕ)
    → restore_state checkpoint_id w ≡ (ok state, w')
    → IsDict patch
    → (k : String) (ref : ℕ) → ref < w'.store.allocated
    → ((fork_branch checkpoint_id patch w).0 ≡ ok w'.store.allocated)
      × (get_member k ((fork_branch checkpoint_id patch w).1.store.objects w'.store.allocated)
          ≡ or_else (get_member k patch) (get_member k (w'.store.objects state)))
      × ((fork_branch checkpoint_id patch w).1.store.objects ref ≡ w'.store.objects ref)
unfolding fork_branch
fork_branch_isolates checkpoint_id patch w w' state e d k ref lt = rw e (
  refl,
  rw (eqb_refl w'.store.allocated) (get_member-update_members k (w'.store.objects state) patch d),
  rw (eqb_less ref w'.store.allocated lt) refl,
)
