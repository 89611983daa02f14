-- ===== src/Recovery/Engine/Latest.antt =====
-- The latest checkpoint of a task.
use contract_evidence_os.Prelude.{
  ℕ, ◌+◌, ◌<◌, ◌≤◌, String, ◌≡◌, refl, subst, Bool, false, none, some, List, [], ◌∷◌, ◌==◌, ==_refl,
  arith, ltb, lt→ltb, Option-cases, inl, inr, All, All-mem, mem-sort_by, head-Mem, Memᴰ, mem-tail,
  select, select-mem, mem-select, sort_by, sort_by-mem, sort_by-IsOrdered, IsOrdered, head?,
  head-sort_by,
}
use mathlib.Core.Option.{some-injective}
use contract_evidence_os.Base.Json.{Members}
use contract_evidence_os.Base.Json.Dict.{sorted_members}
use contract_evidence_os.Base.Exec.{Env, World, ok}
use contract_evidence_os.Recovery.Models.{CheckpointRecord, CheckpointRow}
use contract_evidence_os.Recovery.Engine.{Recovery, save_state, latest_state}
use contract_evidence_os.Storage.Table.{order_by_desc}
use contract_evidence_os.Storage.Table.Laws.{
  mem-insert_or_replace, insert_or_replace-mem, insert_or_replace-All,
}
use contract_evidence_os.Storage.Repository.{Repository}
use contract_evidence_os.Storage.Repository.Checkpoints.{
  row_key, latest_row, latest_checkpoint, next_sequence, checkpoint_row, save_checkpoint,
}

-- The metadata of every row carry its sequence number.
abbrev pub IsSequenced : List CheckpointRow → Type 0
IsSequenced rows = All (λ row. row.saved.metadata.sequence ≡ some row.sequence) rows

abbrev before : CheckpointRow → CheckpointRow → Bool
before x y = ltb y.sequence x.sequence

-- The rows of a task.
abbrev rows_of : String → Repository → List CheckpointRow
rows_of task_id r = select (λ c. c.saved.task_id == task_id) r.checkpoints

head_greatest :
    (xs : List CheckpointRow) {x l : CheckpointRow}
    → IsOrdered before xs
    → head? xs ≡ some l
    → Memᴰ x xs
    → x.sequence ≤ l.sequence
head_greatest [] o e m = elim m [ ]
head_greatest (y ∷ ys) {x} {l} (ho, o) e m =
    let same : y ≡ l = some-injective y l e in
    subst (λ z. x.sequence ≤ z.sequence) same
      (elim (mem-tail m) [
        | inl e' ↦ rw e' (omega arith)
        | inr i ↦ let not_before = All-mem (λ z. before z y ≡ false) ys ho i in ground arith
      ])

head_none : (xs : List CheckpointRow) {x : CheckpointRow} → head? xs ≡ none → Memᴰ x xs → ⊥
head_none [] e m = elim m [ ]
head_none (y ∷ ys) e m = absurd (cc)

next_sequence_lem :
    (task_id : String) (r : Repository) (l : CheckpointRow)
    → latest_row task_id r ≡ some l
    → l.saved.metadata.sequence ≡ some l.sequence
    → next_sequence task_id r ≡ l.sequence + 1
unfolding next_sequence latest_checkpoint
next_sequence_lem task_id r l e s = rw (next_sequence, latest_checkpoint, e, s) refl

-- No row of the task has the number that comes next, or one above it.
below_next :
    (task_id : String) (r : Repository) (x : CheckpointRow)
    → IsSequenced r.checkpoints
    → Memᴰ x (rows_of task_id r)
    → x.sequence < next_sequence task_id r
unfolding latest_row order_by_desc
below_next task_id r x h m =
    let sorted_rows = sort_by before (rows_of task_id r) in
    let i = sort_by-mem before (rows_of task_id r) m in
    elim (Option-cases (head? sorted_rows)) [
      | inl e ↦ absurd (head_none sorted_rows e i)
      | inr (l, e) ↦
          let ordered =
            sort_by-IsOrdered before (λ x y e. ground arith) (λ x y z e f. ground arith)
              (rows_of task_id r) in
          let le = head_greatest sorted_rows ordered e i in
          let (m', _) =
            mem-select _ r.checkpoints (mem-sort_by before _ (head-Mem sorted_rows e)) in
          let next = next_sequence_lem task_id r l e (All-mem _ r.checkpoints h m') in
          omega (arith, le, next)
    ]

latest_row-save_checkpoint :
    (checkpoint : CheckpointRecord) (state : Members) (r : Repository)
    → IsSequenced r.checkpoints
    → latest_row checkpoint.task_id (save_checkpoint checkpoint state r)
      ≡ some (checkpoint_row checkpoint state r)
unfolding latest_row save_checkpoint order_by_desc
latest_row-save_checkpoint checkpoint state r h =
    let row = checkpoint_row checkpoint state r in
    head-sort_by before (λ x y e. ground arith) (λ x y z e f. ground arith) row _
      (select-mem _ _ (insert_or_replace-mem row_key row r.checkpoints)
        (==_refl checkpoint.task_id))
      (λ x m.
        let (i, t) = mem-select _ _ m in
        elim (mem-insert_or_replace row_key row r.checkpoints i) [
          | inl e ↦ inl e
          | inr (j, ne) ↦ inr (
              lt→ltb x.sequence row.sequence
                (below_next checkpoint.task_id r x h (select-mem _ r.checkpoints j t)))
        ])

-- In a repository whose rows carry their sequence numbers, a state that is saved becomes the latest
-- checkpoint of its task, whatever the clock says, and the rows carry their numbers again.
pub latest-save_state :
    (env : Env) (task_id plan_node_id : String) (state : ℕ) (w : World Recovery) (r : Repository)
    → w.store.repository ≡ some r
    → IsSequenced r.checkpoints
    → (checkpoint : CheckpointRecord) × (r' : Repository) × ((save_state env task_id plan_node_id
          state w).0
        ≡ ok checkpoint)
      × ((save_state env task_id plan_node_id state w).1.store.repository ≡ some r')
      × (latest_state task_id (save_state env task_id plan_node_id state w).1.store
          ≡ some (
            (checkpoint_row checkpoint (w.store.objects state) r).saved,
            sorted_members (w.store.objects state),
          ))
      × IsSequenced r'.checkpoints
unfolding save_state latest_state latest_checkpoint save_checkpoint
latest-save_state env task_id plan_node_id state w r stored h = rw stored (
  _,
  _,
  refl,
  refl,
  rw (latest_checkpoint, latest_row-save_checkpoint _ (w.store.objects state) r h) refl,
  insert_or_replace-All row_key _ _ r.checkpoints refl h,
)
