-- ===== src/Storage/Tp/Checkpoint/Restart.antt =====
-- The first write after a restart from a checkpoint of minigu/storage/src/tp/checkpoint.rs.
use mini_gu.Base.{
  ℕ, ◌<◌, ◌≡◌, refl, sym, ap, ◌∙◌, arith, Bool, true, none, some, List, ok, err, ok-injective,
}
use mini_gu.Transaction.Timestamp.{Timestamp, is_commit_ts, is_txn_id}
use mini_gu.Transaction.Options.{IsolationLevel, pessimistic}
use mini_gu.Storage.Error.{version_not_visible}
use mini_gu.Storage.Tp.Graph.{VersionedVertex, AdjacencyContainer, MemoryGraph}
use mini_gu.Storage.Tp.Guard.{check_write_conflict, prewrite_check_vertex}
use mini_gu.Storage.Tp.Store.{Store}
use mini_gu.Storage.Tp.Txn.{MemTransaction}
use mini_gu.Storage.Tp.VertexWrite.{set_vertex_property, set_vertex_pessimistic, update_properties}
use mini_gu.Storage.Tp.Manager.Begin.{begin_at_generator}
use mini_gu.Storage.Tp.Manager.{World, begin_transaction_at}
use mini_gu.Storage.Tp.Checkpoint.{Visited, new, restore}
use mini_gu.Storage.Tp.Checkpoint.Restore.{
  mapped, head_of_vertex, VisitsAll, IsEmpty, AreBacked, restore-new,
}

module _ {V : Type 0} where
  too_new :
      (commit_ts : Timestamp) (txn : MemTransaction V)
      → is_commit_ts commit_ts ≡ true
      → txn.start_ts < commit_ts
      → check_write_conflict commit_ts txn ≡ err version_not_visible
  unfolding check_write_conflict is_commit_ts is_txn_id
  too_new commit_ts txn committed later = ground arith

  update_properties-too_new :
      (entry : VersionedVertex V) (txn : MemTransaction V) (vid : ℕ) (indices : List ℕ)
      (props : List V)
      → txn.lock_strategy ≡ pessimistic
      → is_commit_ts entry.current.commit_ts ≡ true
      → txn.start_ts < entry.current.commit_ts
      → update_properties entry txn vid indices props ≡ err version_not_visible
  unfolding update_properties prewrite_check_vertex
  update_properties-too_new entry txn vid indices props lock committed later =
      simp (lock, too_new entry.current.commit_ts txn committed later) refl

  -- A write to a vertex whose head was committed after the start of the transaction.
  set_vertex_property-too_new :
      (vid : ℕ) (indices : List ℕ) (props : List V) (s : Store V) {chain : VersionedVertex V}
      → s.txn.lock_strategy ≡ pessimistic
      → s.graph.vertices vid ≡ some chain
      → is_commit_ts chain.current.commit_ts ≡ true
      → s.txn.start_ts < chain.current.commit_ts
      → set_vertex_property vid indices props s ≡ (err version_not_visible, s)
  unfolding set_vertex_property set_vertex_pessimistic
  set_vertex_property-too_new vid indices props s {chain} lock found committed later =
      simp
        (lock, found, update_properties-too_new chain s.txn vid indices props lock committed later)
        refl

  -- A store restored from a checkpoint into a new process refuses writes: the generators of the
  -- process are not moved past the restored timestamps, so a pessimistic transaction that draws its
  -- start is refused each update of a vertex committed after that start, and nothing is changed. The
  -- checkpoint is to be as in the round trip, and the timestamp a commit timestamp above the
  -- generator.
  pub restore-new-refuses_writes :
      (now : ℕ) (visited : Visited) (w w' : World V)
      → VisitsAll visited w.graph
      → IsEmpty w'.graph
      → ((k : ℕ) (adj : AdjacencyContainer)
          → w.graph.adjacency_list k ≡ some adj
          → AreBacked w.graph.edges adj)
      → (vid : ℕ) (chain : VersionedVertex V) → w.graph.vertices vid ≡ some chain
      → is_commit_ts chain.current.commit_ts ≡ true
      → w'.timestamps < chain.current.commit_ts
      → (r r' : World V) (txn : MemTransaction V) (level : IsolationLevel) (skip_wal : Bool)
      → restore (new now visited w) w' ≡ ok r
      → begin_transaction_at none none level pessimistic skip_wal r ≡ (ok txn, r')
      → (indices : List ℕ) (props : List V)
      → set_vertex_property vid indices props (record { graph = r'.graph; txn = txn })
        ≡ (err version_not_visible, record { graph = r'.graph; txn = txn })
  restore-new-refuses_writes now visited w w' all empty backed vid chain found committed later r r'
        txn level skip_wal restored begun indices props =
      let (r1, got, heads, _, _, clock, _) = restore-new now visited w w' all empty backed in
      let same = ok-injective (sym got ∙ restored) in
      let (start, lock, kept) =
        begin_at_generator level pessimistic skip_wal r {txn = txn} {w' = r'} begun in
      set_vertex_property-too_new vid indices props (record { graph = r'.graph; txn = txn })
        {chain = head_of_vertex chain} lock
        (ap (λ (g : MemoryGraph V). g.vertices vid)
            (kept ∙ ap (λ (u : World V). u.graph) (sym same))
          ∙ heads.vertices vid
          ∙ ap (mapped head_of_vertex) found)
        committed (omega (arith, start, clock, ap (λ (u : World V). u.timestamps) same))
