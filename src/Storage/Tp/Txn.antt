-- ===== src/Storage/Tp/Txn.antt =====
-- `MemTransaction` and its write intents, minigu/storage/src/tp/transaction.rs. The reference to the
-- graph is an argument of the operations that read or write it.
pub mod Intent
use mini_gu.Base.{ℕ, Bool, false, List, [], Option, none}
use mini_gu.Base.Assoc.{lookup}
use mini_gu.Transaction.Timestamp.{Timestamp}
use mini_gu.Transaction.Options.{IsolationLevel, LockStrategy}
use mini_gu.Storage.Model.Vertex.{Vertex}
use mini_gu.Storage.Model.Edge.{Edge}
use mini_gu.Storage.Model.Delta.{UndoEntry}
use mini_gu.Storage.Wal.{RedoEntry}

pub data WriteKind (V : Type 0) : Type 0 where
  insert_vertex : Vertex V → WriteKind V
  -- before and after
  update_vertex : Vertex V → Vertex V → WriteKind V
  delete_vertex : Vertex V → WriteKind V
  insert_edge : Edge V → WriteKind V
  update_edge : Edge V → Edge V → WriteKind V
  delete_edge : Edge V → WriteKind V

pub record WriteIntent (V : Type 0) : Type 0 where
  pub guard_ts : Timestamp
  pub kind : WriteKind V

abbrev pub WriteSet : Type 0 → Type 0
WriteSet V = List (ℕ × WriteIntent V)

pub record MemTransaction (V : Type 0) : Type 0 where
  pub isolation_level : IsolationLevel
  pub lock_strategy : LockStrategy
  pub start_ts : Timestamp
  pub commit_ts : Option Timestamp
  pub txn_id : Timestamp
  pub vertex_reads : List ℕ
  pub edge_reads : List ℕ
  pub vertex_writes : WriteSet V
  pub edge_writes : WriteSet V
  pub undo_buffer : List (UndoEntry V)
  pub redo_buffer : List (RedoEntry V)
  pub is_handled : Bool

module _ {V : Type 0} where
  unfoldable pub with_memgraph :
      Timestamp → Timestamp → IsolationLevel → LockStrategy → MemTransaction V
  with_memgraph txn_id start_ts isolation_level lock_strategy = record {
    isolation_level = isolation_level;
    lock_strategy = lock_strategy;
    start_ts = start_ts;
    commit_ts = none;
    txn_id = txn_id;
    vertex_reads = [];
    edge_reads = [];
    vertex_writes = [];
    edge_writes = [];
    undo_buffer = [];
    redo_buffer = [];
    is_handled = false;
  }

  unfoldable pub lookup_vertex_write : MemTransaction V → ℕ → Option (WriteIntent V)
  lookup_vertex_write txn vid = lookup vid txn.vertex_writes

  unfoldable pub lookup_edge_write : MemTransaction V → ℕ → Option (WriteIntent V)
  lookup_edge_write txn eid = lookup eid txn.edge_writes
