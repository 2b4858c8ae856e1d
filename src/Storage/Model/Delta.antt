-- ===== src/Storage/Model/Delta.antt =====
-- `SetPropsOp` and `DeltaOp` of minigu/storage/src/common/mod.rs, and the undo entries of
-- minigu/transaction/src/lib.rs over them.
use mini_gu.Base.{ℕ, List}
use mini_gu.Transaction.Timestamp.{Timestamp}
use mini_gu.Storage.Model.Vertex.{Vertex}
use mini_gu.Storage.Model.Edge.{Edge}

pub record SetPropsOp (V : Type 0) : Type 0 where
  pub indices : List ℕ
  pub props : List V

pub data DeltaOp (V : Type 0) : Type 0 where
  del_vertex : ℕ → DeltaOp V
  del_edge : ℕ → DeltaOp V
  create_vertex : Vertex V → DeltaOp V
  create_edge : Edge V → DeltaOp V
  set_vertex_props : ℕ → SetPropsOp V → DeltaOp V
  set_edge_props : ℕ → SetPropsOp V → DeltaOp V
  add_label : ℕ → DeltaOp V
  remove_label : ℕ → DeltaOp V

-- A weak pointer to an undo entry, as what `upgrade` finds behind it: nothing, or an entry with its
-- delta, timestamp and next pointer. An entry is never written after it was made, so the pointer
-- may stand for the entries themselves; that an entry was dropped is the value `dangling`.
pub data UndoPtr (V : Type 0) : Type 0 where
  dangling : UndoPtr V
  live : DeltaOp V → Timestamp → UndoPtr V → UndoPtr V

pub record UndoEntry (V : Type 0) : Type 0 where
  pub delta : DeltaOp V
  pub timestamp : Timestamp
  pub next : UndoPtr V

-- `Arc::downgrade`
abbrev pub downgrade : {V : Type 0} → UndoEntry V → UndoPtr V
downgrade e = live e.delta e.timestamp e.next
