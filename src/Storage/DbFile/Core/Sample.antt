-- ===== src/Storage/DbFile/Core/Sample.antt =====
-- A checksum and a serialization of log entries and checkpoints that are easy to compute: they stand in
-- for crc32fast and postcard, which minigu/storage/src/db_file/core.rs calls.
use mini_gu.Base.{ℕ, ◌+◌, ◌%◌, ◌^◌, ◌≡◌, arith, Option, none, some, List, [], ◌∷◌}
use mini_gu.Transaction.Options.{IsolationLevel, snapshot, serializable}
use mini_gu.Storage.Wal.{
  Operation, begin_transaction, commit_transaction, abort_transaction, delta, RedoEntry,
}
use mini_gu.Storage.Tp.Checkpoint.{
  GraphCheckpoint, CheckpointMetadata, SerializedVertex, SerializedEdge, SerializedAdjacency,
}
use mini_gu.Storage.DbFile.Bytes.{Bytes}
use mini_gu.Storage.DbFile.Core.{Formats}
use mini_gu.Storage.DbFile.Core.Shape.{IsCrc}
use mini_gu.Storage.DbFile.Core.Record.{IsCodec}

-- The sum of the bytes.
abbrev pub sum_of : Bytes → ℕ
sum_of [] = 0
sum_of (b ∷ bs) = (b + sum_of bs) % 2 ^ 32

-- Aborts alone can be written, as their two numbers.
abbrev abort_to_bytes : RedoEntry ℕ → Operation ℕ → IsolationLevel → Option Bytes
abort_to_bytes entry abort_transaction snapshot = some (entry.lsn ∷ entry.txn_id ∷ [])
abort_to_bytes entry _ _ = none

abbrev abort_from_bytes : Bytes → Option (RedoEntry ℕ)
abort_from_bytes (lsn ∷ txn_id ∷ []) =
    some (record { lsn = lsn; txn_id = txn_id; iso_level = snapshot; op = abort_transaction })
abort_from_bytes _ = none

-- Empty checkpoints alone can be written, as their metadata.
abbrev metadata_bytes :
    {A B C : Type 0} → CheckpointMetadata → List A → List B → List C → Option Bytes
metadata_bytes m [] [] [] = some (m.timestamp ∷ m.lsn ∷ m.latest_commit_ts ∷ m.version ∷ [])
metadata_bytes m _ _ _ = none

abbrev pub empty_checkpoint : CheckpointMetadata → GraphCheckpoint ℕ
empty_checkpoint m = record { metadata = m; vertices = []; edges = []; adjacency_list = [] }

abbrev empty_from_bytes : Bytes → Option (GraphCheckpoint ℕ)
empty_from_bytes (timestamp ∷ lsn ∷ latest ∷ version ∷ []) = some (
    empty_checkpoint
      (record { timestamp = timestamp; lsn = lsn; latest_commit_ts = latest; version = version }))
empty_from_bytes _ = none

abbrev pub simple : Formats ℕ
simple = record {
  crc32 = sum_of;
  entry = record {
    to_bytes = λ e. abort_to_bytes e e.op e.iso_level;
    from_bytes = abort_from_bytes;
  };
  checkpoint = record {
    to_bytes = λ c. metadata_bytes c.metadata c.vertices c.edges c.adjacency_list;
    from_bytes = empty_from_bytes;
  };
}

pub simple-IsCrc : IsCrc simple
simple-IsCrc [] = omega arith
simple-IsCrc (b ∷ bs) = omega arith

entries_return :
    (lsn txn_id : ℕ) (op : Operation ℕ) (level : IsolationLevel) (bytes : Bytes)
    → abort_to_bytes (record { lsn = lsn; txn_id = txn_id; iso_level = level; op = op }) op level
      ≡ some bytes
    → abort_from_bytes bytes
      ≡ some (record { lsn = lsn; txn_id = txn_id; iso_level = level; op = op })
entries_return lsn txn_id abort_transaction snapshot bytes h = cc h
entries_return lsn txn_id abort_transaction serializable bytes h = cc h
entries_return lsn txn_id (begin_transaction t) level bytes h = cc h
entries_return lsn txn_id (commit_transaction t) level bytes h = cc h
entries_return lsn txn_id (delta op) level bytes h = cc h

pub simple_entries : IsCodec simple.entry
simple_entries e bytes h = entries_return e.lsn e.txn_id e.op e.iso_level bytes h

checkpoints_return :
    (m : CheckpointMetadata) (vertices : List (ℕ × SerializedVertex ℕ))
    (edges : List (ℕ × SerializedEdge ℕ)) (adjacency_list : List (ℕ × SerializedAdjacency))
    (bytes : Bytes)
    → metadata_bytes m vertices edges adjacency_list ≡ some bytes
    → empty_from_bytes bytes
      ≡ some (record {
        metadata = m;
        vertices = vertices;
        edges = edges;
        adjacency_list = adjacency_list;
      })
checkpoints_return m [] [] [] bytes h = cc h
checkpoints_return m [] [] (a ∷ adjacency_list) bytes h = cc h
checkpoints_return m [] (e ∷ edges) adjacency_list bytes h = cc h
checkpoints_return m (v ∷ vertices) edges adjacency_list bytes h = cc h

pub simple_checkpoints : IsCodec simple.checkpoint
simple_checkpoints c bytes h =
    checkpoints_return c.metadata c.vertices c.edges c.adjacency_list bytes h

abbrev pub abort_entry : ℕ → RedoEntry ℕ
abort_entry lsn = record { lsn = lsn; txn_id = 7; iso_level = snapshot; op = abort_transaction }
