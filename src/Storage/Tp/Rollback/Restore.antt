-- ===== src/Storage/Tp/Rollback/Restore.antt =====
-- What an abort gives back after a write under pessimistic locking.
use mini_gu.Base.{
  ℕ, ◌≡◌, sym, ap, fun_ext, ==_iff, ==_refl, List, [], ◌∷◌, Option, some, ok, arith, >>=-eq-ok,
  chain-eq-ok, ok-injective, subst,
}
use mini_gu.Base.Assoc.{update}
use mini_gu.Transaction.Timestamp.{Timestamp}
use mini_gu.Storage.Model.Props
use mini_gu.Storage.Model.Props.{old_props}
use mini_gu.Storage.Model.Props.Restore.{set_props-old_props}
use mini_gu.Storage.Model.Vertex
use mini_gu.Storage.Model.Vertex.{Vertex}
use mini_gu.Storage.Model.Delta.{UndoEntry}
use mini_gu.Storage.Tp.Graph.{VersionedVertex, MemoryGraph}
use mini_gu.Storage.Tp.Guard.{prewrite_check_vertex}
use mini_gu.Storage.Tp.Txn.{MemTransaction}
use mini_gu.Storage.Tp.Store.{put_vertex}
use mini_gu.Storage.Tp.VertexWrite.{properties_undo, updated_chain, update_properties}
use mini_gu.Storage.Tp.Rollback.{rollback}

module _ {V : Type 0} where
  -- What a successful `update_properties!` made, in parts.
  pub record Updated (entry : VersionedVertex V) (txn : MemTransaction V) (vid : ℕ)
      (indices : List ℕ) (props : List V) (written : VersionedVertex V) (undo : UndoEntry V)
      : Type 0 where
    pub olds : List V
    pub changed : Vertex V
    pub passed : prewrite_check_vertex entry.current.commit_ts txn ≡ ok tt
    pub olds_read : old_props entry.current.item.properties indices ≡ ok olds
    pub changed_set : Vertex.set_props entry.current.item indices props ≡ ok changed
    pub undo_made : undo ≡ properties_undo entry vid indices olds
    pub written_made :
        written ≡ updated_chain (properties_undo entry vid indices olds) changed txn.txn_id

  pub update_properties-Updated :
      (entry : VersionedVertex V) (txn : MemTransaction V) (vid : ℕ) (indices : List ℕ)
      (props : List V) (written : VersionedVertex V) (undo : UndoEntry V)
      → update_properties entry txn vid indices props ≡ ok (written, undo)
      → Updated entry txn vid indices props written undo
  unfolding update_properties
  update_properties-Updated entry txn vid indices props written undo h =
      let (olds, changed, p, o, c, e) =
        chain-eq-ok (prewrite_check_vertex entry.current.commit_ts txn)
          (old_props entry.current.item.properties indices)
          (Vertex.set_props entry.current.item indices props)
          (λ olds changed.
            let undo = properties_undo entry vid indices olds in
            (updated_chain undo changed txn.txn_id, undo))
          h in
      record {
        olds = olds;
        changed = changed;
        passed = p;
        olds_read = o;
        changed_set = c;
        undo_made = ap (λ w. w.1) (sym e);
        written_made = ap (λ w. w.0) (sym e);
      }

  -- The inverse delta gives the whole vertex back.
  pub vertex_set_props-old_props :
      (vertex : Vertex V) (indices : List ℕ) (news olds : List V) {changed : Vertex V}
      → old_props vertex.properties indices ≡ ok olds
      → Vertex.set_props vertex indices news ≡ ok changed
      → Vertex.set_props changed indices olds ≡ ok vertex
  unfolding Vertex.set_props
  vertex_set_props-old_props vertex indices news olds o s =
      let (ps, e, r) = >>=-eq-ok (Props.set_props vertex.properties indices news) _ s in
      subst (λ w. Vertex.set_props w indices olds ≡ ok vertex) (ok-injective r)
        (rw (set_props-old_props vertex.properties indices news olds o e))

  pub update_self :
      (f : ℕ → Option (VersionedVertex V)) (vid : ℕ) (old new : VersionedVertex V)
      → f vid ≡ some old
      → update (update f vid (some new)) vid (some old) ≡ f
  update_self f vid old new h = fun_ext λ j. ground (arith, ==_iff vid j, ap f)

  rollback_updated :
      (graph : MemoryGraph V) (entry : VersionedVertex V) (txn_id : Timestamp) (vid : ℕ)
      (indices : List ℕ) (props olds : List V) (changed : Vertex V)
      → graph.vertices vid ≡ some entry
      → old_props entry.current.item.properties indices ≡ ok olds
      → Vertex.set_props entry.current.item indices props ≡ ok changed
      → rollback txn_id
          (put_vertex vid
            (updated_chain (properties_undo entry vid indices olds) changed txn_id)
            graph)
          (properties_undo entry vid indices olds ∷ [])
        ≡ ok graph
  unfolding rollback properties_undo updated_chain
  rollback_updated graph entry txn_id vid indices props olds changed at_vid o c = rw (==_refl vid) (
      rw (==_refl txn_id) (
        rw (vertex_set_props-old_props entry.current.item indices props olds o c) (
          ap (λ f. ok (record graph { vertices = f }))
            (update_self graph.vertices vid entry _ at_vid))))

  -- A vertex written once under pessimistic locking is exactly as before after the abort: the
  -- image, its timestamp and the chain behind it, and every other vertex. The write checked for
  -- conflicts and read its old values in range, and went to the store as the operation does it.
  pub rollback-update_properties :
      (graph : MemoryGraph V) (entry : VersionedVertex V) (txn : MemTransaction V) (vid : ℕ)
      (indices : List ℕ) (props : List V) (written : VersionedVertex V) (undo : UndoEntry V)
      → graph.vertices vid ≡ some entry
      → update_properties entry txn vid indices props ≡ ok (written, undo)
      → rollback txn.txn_id (put_vertex vid written graph) (undo ∷ []) ≡ ok graph
  rollback-update_properties graph entry txn vid indices props written undo at_vid done =
      let u = update_properties-Updated entry txn vid indices props written undo done in
      rw u.undo_made (
        rw u.written_made (
          rollback_updated graph entry txn.txn_id vid indices props u.olds u.changed at_vid
            u.olds_read u.changed_set))
