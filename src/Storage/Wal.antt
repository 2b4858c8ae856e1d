-- ===== src/Storage/Wal.antt =====
-- The log entries of minigu/storage/src/common/wal/graph_wal.rs.
use mini_gu.Base.{ℕ}
use mini_gu.Transaction.Options.{IsolationLevel}
use mini_gu.Transaction.Timestamp.{Timestamp}
use mini_gu.Storage.Model.Delta.{DeltaOp}

pub data Operation (V : Type 0) : Type 0 where
  begin_transaction : Timestamp → Operation V
  commit_transaction : Timestamp → Operation V
  abort_transaction : Operation V
  delta : DeltaOp V → Operation V

pub record RedoEntry (V : Type 0) : Type 0 where
  pub lsn : ℕ
  pub txn_id : Timestamp
  pub iso_level : IsolationLevel
  pub op : Operation V
