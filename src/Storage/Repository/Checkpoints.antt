-- ===== src/Storage/Repository/Checkpoints.antt =====
-- The tables of `SQLiteRepository` that the recovery engine uses.
use contract_evidence_os.Prelude.{ℕ, ◌+◌, String, Option, none, some, ◌==◌, select, head?}
use contract_evidence_os.Base.Json.{Members}
use contract_evidence_os.Base.Json.Dict.{sorted_members}
use contract_evidence_os.Recovery.Models.{CheckpointRecord, CheckpointRow, IncidentReport}
use contract_evidence_os.Storage.Table.{find_row, insert_or_replace, order_by_desc}
use contract_evidence_os.Storage.Repository.{Repository}

abbrev pub row_key : CheckpointRow → String
row_key row = row.saved.checkpoint_id

unfoldable pub latest_row : String → Repository → Option CheckpointRow
latest_row task_id r =
    head? (order_by_desc (λ c. c.sequence) (select (λ c. c.saved.task_id == task_id) r.checkpoints))

unfoldable pub latest_checkpoint : String → Repository → Option (CheckpointRecord × Members)
latest_checkpoint task_id r = elim (latest_row task_id r) [
  | none ↦ none
  | some row ↦ some (row.saved, row.state)
]

-- `int(metadata.get("sequence", 0))`
abbrev pub sequence_of : CheckpointRecord → ℕ
sequence_of checkpoint = elim checkpoint.metadata.sequence [ none ↦ 0 | some n ↦ n ]

unfoldable pub next_sequence : String → Repository → ℕ
unfolding latest_checkpoint
next_sequence task_id r = elim (latest_checkpoint task_id r) [
  | none ↦ 1
  | some (latest, state) ↦ sequence_of latest + 1
]

abbrev pub checkpoint_row : CheckpointRecord → Members → Repository → CheckpointRow
checkpoint_row checkpoint state r = record {
  saved = record checkpoint {
    metadata = record checkpoint.metadata { sequence = some (next_sequence checkpoint.task_id r) };
  };
  sequence = next_sequence checkpoint.task_id r;
  state = sorted_members state;
}

unfoldable pub save_checkpoint : CheckpointRecord → Members → Repository → Repository
save_checkpoint checkpoint state r = record r {
  checkpoints = insert_or_replace row_key (checkpoint_row checkpoint state r) r.checkpoints;
}

-- `none` where the code raises `KeyError`.
unfoldable pub restore_checkpoint : String → Repository → Option Members
restore_checkpoint checkpoint_id r = elim (find_row row_key checkpoint_id r.checkpoints) [
  | none ↦ none
  | some row ↦ some row.state
]

unfoldable pub save_incident : IncidentReport → Repository → Repository
save_incident report r = record r {
  incidents = insert_or_replace (λ i. i.incident_id) report r.incidents;
}
