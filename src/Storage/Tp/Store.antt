-- ===== src/Storage/Tp/Store.antt =====
-- The store that an operation of minigu/storage/src/tp/memory_graph.rs changes: the graph, and the
-- transaction that it runs under. What was written before an error stays written.
use mini_gu.Base.{[], ◌∷◌, ◌++◌, some, ok, err}
use mini_gu.Base.Assoc.{update}
use mini_gu.Storage.Error.{StorageError, StorageResult}
use mini_gu.Storage.Model.Delta.{DeltaOp, UndoEntry}
use mini_gu.Storage.Wal.{delta}
use mini_gu.Storage.Tp.Graph.{VersionedVertex, VersionedEdge, MemoryGraph}
use mini_gu.Storage.Tp.Txn.{MemTransaction}
use mini_gu.Base.{ℕ}

pub record Store (V : Type 0) : Type 0 where
  pub graph : MemoryGraph V
  pub txn : MemTransaction V

abbrev pub Exec : Type 0 → Type 0 → Type 0
Exec V A = Store V → StorageResult A × Store V

module _ {V : Type 0} where
  infixl 5 ◌>>=◌ ◌>>◌
  abbrev pub ◌>>=◌ : {A B : Type 0} → Exec V A → (A → Exec V B) → Exec V B
  ◌>>=◌ m f s = let (r, s') = m s in elim r [ ok a ↦ f a s' | err e ↦ (err e, s') ]

  abbrev pub ◌>>◌ : {B : Type 0} → Exec V (Unit {0}) → Exec V B → Exec V B
  m >> n = m >>= λ _. n

  abbrev pub pure : {A : Type 0} → A → Exec V A
  pure a s = (ok a, s)

  abbrev pub raise : {A : Type 0} → StorageError → Exec V A
  raise e s = (err e, s)

  abbrev pub lift : {A : Type 0} → StorageResult A → Exec V A
  lift r s = (r, s)

  abbrev pub read : Exec V (Store V)
  read s = (ok s, s)

  abbrev pub on_graph : (MemoryGraph V → MemoryGraph V) → Exec V (Unit {0})
  on_graph f s = (ok tt, record s { graph = f s.graph })

  abbrev pub on_txn : (MemTransaction V → MemTransaction V) → Exec V (Unit {0})
  on_txn f s = (ok tt, record s { txn = f s.txn })

  abbrev pub put_vertex : ℕ → VersionedVertex V → MemoryGraph V → MemoryGraph V
  put_vertex vid entry graph = record graph { vertices = update graph.vertices vid (some entry) }

  abbrev pub put_edge : ℕ → VersionedEdge V → MemoryGraph V → MemoryGraph V
  put_edge eid entry graph = record graph { edges = update graph.edges eid (some entry) }

  -- `undo_buffer.push(entry)`
  abbrev pub push_undo : UndoEntry V → MemTransaction V → MemTransaction V
  push_undo entry txn = record txn { undo_buffer = txn.undo_buffer ++ (entry ∷ []) }

  -- A redo entry of the transaction; its sequence number is 0 until the commit.
  abbrev pub push_redo : DeltaOp V → MemTransaction V → MemTransaction V
  push_redo op txn = record txn {
    redo_buffer =
        txn.redo_buffer
        ++ (record { lsn = 0; txn_id = txn.txn_id; iso_level = txn.isolation_level; op = delta op }
            ∷ []);
  }
