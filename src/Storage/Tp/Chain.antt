-- ===== src/Storage/Tp/Chain.antt =====
-- Version chains of minigu/storage/src/tp/memory_graph.rs, generic in the item (a vertex or an
-- edge), and the walk along one in transaction.rs.
pub mod History
use mini_gu.Base.{Bool, ◌&&◌, ◌||◌, ltb, leb, ◌==◌, if◌then◌else◌, ok, ◌>>=◌}
use mini_gu.Transaction.Timestamp.{Timestamp, is_txn_id, is_commit_ts}
use mini_gu.Storage.Error.{StorageResult}
use mini_gu.Storage.Model.Delta.{DeltaOp, UndoPtr, dangling, live}

-- The field `data` of the source is `item` here.
pub record CurrentVersion (D : Type 0) : Type 0 where
  pub item : D
  pub commit_ts : Timestamp

pub record VersionChain (V D : Type 0) : Type 0 where
  pub current : CurrentVersion D
  pub undo_ptr : UndoPtr V

module _ {V D : Type 0} where
  -- The callback changes the item that its closure captures, and may panic.
  unfoldable pub apply_deltas_for_read :
      UndoPtr V → (DeltaOp V → D → StorageResult D) → Timestamp → D → StorageResult D
  apply_deltas_for_read dangling callback start item = ok item
  apply_deltas_for_read (live delta timestamp next) callback start item =
      callback delta item >>= λ changed.
      let rest = apply_deltas_for_read next callback start changed in
      if ltb timestamp start then ok changed else rest

-- The head of a chain is for a transaction to read: its own write, or committed by its start.
unfoldable pub head_visible : Timestamp → Timestamp → Timestamp → Bool
head_visible commit_ts txn_id start_ts =
    (is_txn_id commit_ts && commit_ts == txn_id)
    || (is_commit_ts commit_ts && leb commit_ts start_ts)
