-- ===== src/Storage/Tp/Isolation/Committed.antt =====
-- A property update from the write to the end of its commit, as other transactions read it:
-- `update_properties!`, the loop of `commit_pessimistic` over the undo buffer and `get_visible`,
-- minigu/storage/src/tp.
use mini_gu.Base.{
  ℕ, ◌≡◌, ◌≢◌, ◌<◌, refl, sym, ap, ◌∙◌, List, [], ◌∷◌, Option, none, some, ok, err, ◌>>=◌, arith,
  leb, leb→le, leb→lt, if◌then◌else◌, Bool-cases, inl, inr, ==_refl,
}
use mini_gu.Transaction.Timestamp.{Timestamp, IsU64, txn_id_start}
use mini_gu.Storage.Error.{StorageResult, version_not_visible, panicked}
use mini_gu.Storage.Model.Vertex
use mini_gu.Storage.Model.Vertex.{Vertex}
use mini_gu.Storage.Model.Delta.{UndoEntry}
use mini_gu.Storage.Tp.Chain.History.{NoneAt, Versions}
use mini_gu.Storage.Tp.Graph.{VersionedVertex, MemoryGraph}
use mini_gu.Storage.Tp.Txn.{MemTransaction}
use mini_gu.Storage.Tp.Store.{put_vertex}
use mini_gu.Storage.Tp.VertexRead.{lenient_delta, get_visible, unless_tombstone}
use mini_gu.Storage.Tp.VertexRead.Snapshot.{IsTxn, all_versions, to_see}
use mini_gu.Storage.Tp.VertexWrite.{properties_undo, updated_chain, update_properties}
use mini_gu.Storage.Tp.Rollback.Restore.{Updated, update_properties-Updated}
use mini_gu.Storage.Tp.Promote.{promote, stamped}
use mini_gu.Storage.Tp.Isolation.{
  update_properties-Versions, get_visible-update_properties, get_visible-stamped,
  get_visible-stamped_by_start, to_see-written,
}

module _ {V : Type 0} where
  -- What the commit of one update leaves in the graph.
  pub record Publishes (graph : MemoryGraph V) (written : VersionedVertex V) (undo : UndoEntry V)
      (vid : ℕ) (commit_ts : Timestamp) (published : VersionedVertex V) : Type 0 where
    pub graph' : MemoryGraph V
    pub promoted : promote (put_vertex vid written graph) commit_ts (undo ∷ []) ≡ ok graph'
    pub at_vid : graph'.vertices vid ≡ some published

  put_vertex_at :
      (graph : MemoryGraph V) (entry : VersionedVertex V) (vid : ℕ)
      → (put_vertex vid entry graph).vertices vid ≡ some entry
  put_vertex_at graph entry vid = rw (==_refl vid) refl

  update_properties-Publishes :
      (graph : MemoryGraph V) (entry written : VersionedVertex V) (undo : UndoEntry V)
      (txn : MemTransaction V) (vid : ℕ) (indices : List ℕ) (props : List V) (commit_ts : Timestamp)
      → Updated entry txn vid indices props written undo
      → Publishes graph written undo vid commit_ts (stamped written commit_ts)
  unfolding promote properties_undo
  update_properties-Publishes graph entry written undo txn vid indices props commit_ts u = record {
    graph' = put_vertex vid (stamped written commit_ts) (put_vertex vid written graph);
    promoted =
        ap (λ w. promote (put_vertex vid written graph) commit_ts (w ∷ [])) u.undo_made
        ∙ ap
            (λ (found : Option (VersionedVertex V)).
              elim found as (λ _. StorageResult (MemoryGraph V)) [
                | none ↦ err panicked
                | some e ↦ ok (put_vertex vid (stamped e commit_ts) (put_vertex vid written graph))
              ]
              >>= λ g. ok g)
            (put_vertex_at graph written vid);
    at_vid = rw (==_refl vid) refl;
  }

  -- A property update that a transaction commits is seen whole or not at all: after the write and the
  -- loop of the commit over the undo buffer, a reader that started at or after the commit timestamp
  -- gets the vertex with all the new values, or the error for a tombstone, and one that started before
  -- gets what it got before the write. The reader is another transaction, the chain stood for its
  -- versions, the reader had one to see, and none was committed exactly at its start.
  pub get_visible-promote :
      (graph : MemoryGraph V) (entry written : VersionedVertex V) (undo : UndoEntry V)
      (txn reader : MemTransaction V) (vid : ℕ) (indices : List ℕ) (props : List V)
      (commit_ts : Timestamp) (versions : List (Timestamp × Vertex V)) (vertex : Vertex V)
      → IsTxn txn
      → IsTxn reader
      → reader.txn_id ≢ txn.txn_id
      → IsU64 entry.current.commit_ts
      → commit_ts < txn_id_start
      → Versions lenient_delta entry.current.item entry.undo_ptr versions
      → NoneAt reader.start_ts (all_versions entry versions)
      → to_see entry versions reader ≡ some vertex
      → update_properties entry txn vid indices props ≡ ok (written, undo)
      → (changed : Vertex V) × (published : VersionedVertex V) × (Vertex.set_props
            entry.current.item indices props
          ≡ ok changed)
        × Publishes graph written undo vid commit_ts published
        × (get_visible published reader ≡ (
            if leb commit_ts reader.start_ts
            then unless_tombstone version_not_visible changed
            else get_visible entry reader))
  unfolding updated_chain
  get_visible-promote graph entry written undo txn reader vid indices props commit_ts versions
        vertex t r ne u hi v n e done =
      let up = update_properties-Updated entry txn vid indices props written undo done in
      let behind =
        update_properties-Versions entry txn vid indices props written undo versions done v in
      let own : written.current.commit_ts ≡ txn.txn_id =
        ap (λ w. w.current.commit_ts) up.written_made in
      let unwritten =
        get_visible-update_properties entry written undo txn reader vid indices props versions
          vertex t r ne u v n e done in
      (
        up.changed,
        stamped written commit_ts,
        up.changed_set,
        update_properties-Publishes graph entry written undo txn vid indices props commit_ts up,
        elim (Bool-cases (leb commit_ts reader.start_ts)) [
          | inl by_start ↦ rw by_start (
              get_visible-stamped_by_start written reader commit_ts (all_versions entry versions) r
                (leb→le commit_ts reader.start_ts by_start) behind n
              ∙ ap (λ w. unless_tombstone version_not_visible w.current.item) up.written_made)
          | inr later ↦ rw later (
              get_visible-stamped written reader commit_ts (all_versions entry versions) vertex r
                (omega (arith, own, t.id_u64)) (omega (arith, own, t.id_range))
                (λ same. ne (sym same ∙ own)) hi (leb→lt commit_ts reader.start_ts later) behind n
                (to_see-written entry written txn reader versions t r ne u up.passed own ∙ e)
              ∙ unwritten)
        ],
      )
