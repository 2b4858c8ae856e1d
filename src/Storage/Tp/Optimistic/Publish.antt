-- ===== src/Storage/Tp/Optimistic/Publish.antt =====
-- The last phase of `commit_optimistic` and the whole of it, minigu/storage/src/tp/transaction.rs. The
-- parameter `differs` stands for `!=` on property values.
use mini_gu.Base.{ℕ, ◌==◌, if◌then◌else◌, Bool, false, Option, none, some, [], ◌∷◌, ok, err}
use mini_gu.Transaction.Timestamp.{Timestamp}
use mini_gu.Storage.Error.{StorageError, transaction_already_committed}
use mini_gu.Storage.Tp.Chain.{VersionChain}
use mini_gu.Storage.Tp.Graph.{VersionedVertex, VersionedEdge, MemoryGraph}
use mini_gu.Storage.Tp.Txn.{MemTransaction, WriteSet}
use mini_gu.Storage.Tp.Store.{put_vertex, put_edge}
use mini_gu.Storage.Tp.Promote.{stamped}
use mini_gu.Storage.Tp.Manager.{World}
use mini_gu.Storage.Tp.Optimistic.{validate}
use mini_gu.Storage.Tp.Manager.Finish.{Ended, abort_at, finalize_commit_common}
use mini_gu.Storage.Tp.Optimistic.Apply.{Applied, apply_writes}

module _ {V : Type 0} where
  -- Phase 3.
  abbrev stamp_own : {D : Type 0} → VersionChain V D → Timestamp → Timestamp → VersionChain V D
  stamp_own entry txn_id commit_ts =
      if entry.current.commit_ts == txn_id then stamped entry commit_ts else entry

  abbrev stamp_vertex :
      Option (VersionedVertex V) → ℕ → Timestamp → Timestamp → MemoryGraph V → MemoryGraph V
  stamp_vertex none vid txn_id commit_ts graph = graph
  stamp_vertex (some entry) vid txn_id commit_ts graph =
      put_vertex vid (stamp_own entry txn_id commit_ts) graph

  abbrev stamp_edge :
      Option (VersionedEdge V) → ℕ → Timestamp → Timestamp → MemoryGraph V → MemoryGraph V
  stamp_edge none eid txn_id commit_ts graph = graph
  stamp_edge (some entry) eid txn_id commit_ts graph =
      put_edge eid (stamp_own entry txn_id commit_ts) graph

  unfoldable pub stamp_vertices : WriteSet V → Timestamp → Timestamp → MemoryGraph V → MemoryGraph V
  stamp_vertices [] txn_id commit_ts graph = graph
  stamp_vertices ((vid, intent) ∷ rest) txn_id commit_ts graph =
      stamp_vertices rest txn_id commit_ts
        (stamp_vertex (graph.vertices vid) vid txn_id commit_ts graph)

  unfoldable pub stamp_edges : WriteSet V → Timestamp → Timestamp → MemoryGraph V → MemoryGraph V
  stamp_edges [] txn_id commit_ts graph = graph
  stamp_edges ((eid, intent) ∷ rest) txn_id commit_ts graph =
      stamp_edges rest txn_id commit_ts (stamp_edge (graph.edges eid) eid txn_id commit_ts graph)

  -- `self.abort()?; return Err(e)`
  abbrev pub aborted_with : StorageError → Ended V (Unit {0}) → Ended V Timestamp
  aborted_with e (ok _, txn, w) = (err e, txn, w)
  aborted_with e (err e', txn, w) = (err e', txn, w)

  abbrev commit_ts_once :
      Option Timestamp → Timestamp → Bool → MemTransaction V → World V → Ended V Timestamp
  unfolding abort_at finalize_commit_common
  commit_ts_once (some _) commit_ts skip_wal txn w =
      aborted_with transaction_already_committed (abort_at false txn w)
  commit_ts_once none commit_ts skip_wal txn w =
      finalize_commit_common commit_ts skip_wal (record txn { commit_ts = some commit_ts }) w

  abbrev commit_applied :
      Timestamp → Bool → MemTransaction V → World V → Applied V → Ended V Timestamp
  unfolding stamp_vertices stamp_edges abort_at finalize_commit_common
  commit_applied commit_ts skip_wal txn w (err e, graph, undo) =
      (err e, record txn { undo_buffer = undo }, record w { graph = graph })
  commit_applied commit_ts skip_wal txn w (ok _, graph, undo) =
      commit_ts_once txn.commit_ts commit_ts skip_wal (record txn { undo_buffer = undo })
        (record w {
          graph =
              stamp_edges txn.edge_writes txn.txn_id commit_ts
                (stamp_vertices txn.vertex_writes txn.txn_id commit_ts graph);
        })

module _ {V : Type 0} (differs : V → V → Bool) where
  abbrev pub commit_validated :
      Option StorageError → Timestamp → Bool → MemTransaction V → World V → Ended V Timestamp
  unfolding abort_at apply_writes stamp_vertices stamp_edges finalize_commit_common
  commit_validated (some e) commit_ts skip_wal txn w = aborted_with e (abort_at false txn w)
  commit_validated none commit_ts skip_wal txn w =
      commit_applied commit_ts skip_wal txn w (apply_writes differs txn w.graph)

  unfoldable pub commit_optimistic :
      Timestamp → Bool → MemTransaction V → World V → Ended V Timestamp
  unfolding validate abort_at apply_writes stamp_vertices stamp_edges finalize_commit_common
  commit_optimistic commit_ts skip_wal txn w =
      commit_validated (validate w.graph txn) commit_ts skip_wal txn w
