-- ===== src/Storage/Tp/Rollback/Repeated.antt =====
-- What an abort leaves after two property updates of one vertex in one transaction.
use mini_gu.Base.{
  ℕ, ◌≡◌, ◌≢◌, ◌<◌, refl, sym, ap, ◌∙◌, ==_iff, ==_refl, true, false, List, [], ◌∷◌, some, ok,
  arith, >>=-eq-ok, ok-injective, subst, All, length, get_elem?,
}
use mini_gu.Transaction.Timestamp.{Timestamp}
use mini_gu.Storage.Model.Props
use mini_gu.Storage.Model.Props.{old_props}
use mini_gu.Storage.Model.Props.Restore.{
  contains, length-set_props, get-set_props_ne, get-set_props_old, indices_inside, set_props_inside,
}
use mini_gu.Storage.Model.Vertex
use mini_gu.Storage.Model.Vertex.{Vertex}
use mini_gu.Storage.Model.Delta.{SetPropsOp, set_vertex_props, UndoEntry}
use mini_gu.Storage.Tp.Graph.{VersionedVertex, MemoryGraph}
use mini_gu.Storage.Tp.Txn.{MemTransaction}
use mini_gu.Storage.Tp.Store.{put_vertex}
use mini_gu.Storage.Tp.VertexWrite.{properties_undo, updated_chain, update_properties}
use mini_gu.Storage.Tp.Rollback.{rollback, restored_vertex}
use mini_gu.Storage.Tp.Rollback.Restore.{Updated, update_properties-Updated}

module _ {V : Type 0} where
  vertex_set_props-eq-ok :
      (vertex : Vertex V) (indices : List ℕ) (props : List V) {changed : Vertex V}
      → Vertex.set_props vertex indices props ≡ ok changed
      → Props.set_props vertex.properties indices props ≡ ok changed.properties
  unfolding Vertex.set_props
  vertex_set_props-eq-ok vertex indices props h =
      let (ps, e, r) = >>=-eq-ok (Props.set_props vertex.properties indices props) _ h in
      e ∙ ap (λ w. ok (w.properties)) (ok-injective r)

  vertex_set_props-properties :
      (vertex : Vertex V) (indices : List ℕ) (props : List V) {changed : Vertex V}
      → Vertex.set_props vertex indices props ≡ ok changed
      → changed ≡ record vertex { properties = changed.properties }
  unfolding Vertex.set_props
  vertex_set_props-properties vertex indices props h =
      let (ps, e, r) = >>=-eq-ok (Props.set_props vertex.properties indices props) _ h in
      subst (λ w. w ≡ record vertex { properties = w.properties }) (ok-injective r) refl

  vertex_set_props_inside :
      (vertex : Vertex V) (indices : List ℕ) (props : List V)
      → All (λ i. i < length vertex.properties) indices
      → (changed : Vertex V) × (Vertex.set_props vertex indices props ≡ ok changed)
  unfolding Vertex.set_props
  vertex_set_props_inside vertex indices props h =
      let (ps, e) = set_props_inside vertex.properties indices props h in
      (record vertex { properties = ps }, rw e)

  -- Two rounds of the loop on one vertex, of which the second finds another stamp.
  rollback_twice :
      (graph : MemoryGraph V) (second : VersionedVertex V) (txn_id : Timestamp) (vid : ℕ)
      (undo undo' : UndoEntry V) (op op' : SetPropsOp V) (left : Vertex V)
      → graph.vertices vid ≡ some second
      → second.current.commit_ts ≡ txn_id
      → undo.timestamp ≢ txn_id
      → undo.delta ≡ set_vertex_props vid op
      → undo'.delta ≡ set_vertex_props vid op'
      → Vertex.set_props second.current.item op.indices op.props ≡ ok left
      → rollback txn_id graph (undo ∷ undo' ∷ [])
        ≡ ok (put_vertex vid (restored_vertex undo left) graph)
  unfolding rollback
  rollback_twice graph second txn_id vid undo undo' op op' left at_vid own other d d' set =
      rw (d, d')
        (rw at_vid (
          rw ((==_iff second.current.commit_ts txn_id).1 own)
            (rw set (rw (==_refl vid) (ground arith)))))

  -- What an update leaves of its parts: the stamp, the image, its length, and the undo entry.
  Updated-parts :
      (entry : VersionedVertex V) (txn : MemTransaction V) (vid : ℕ) (indices : List ℕ)
      (props : List V) (written : VersionedVertex V) (undo : UndoEntry V)
      → (u : Updated entry txn vid indices props written undo)
      → (written.current.commit_ts ≡ txn.txn_id)
        × (length written.current.item.properties ≡ length entry.current.item.properties)
        × (undo.delta ≡ set_vertex_props vid (record { indices = indices; props = u.olds }))
        × (undo.timestamp ≡ entry.current.commit_ts)
        × (undo.next ≡ entry.undo_ptr)
  unfolding properties_undo updated_chain
  Updated-parts entry txn vid indices props written undo u = (
    ap (λ w. w.current.commit_ts) u.written_made,
    ap (λ w. length (w.current.item.properties)) u.written_made
        ∙ length-set_props entry.current.item.properties indices props
            (vertex_set_props-eq-ok entry.current.item indices props u.changed_set),
    ap (λ e. e.delta) u.undo_made,
    ap (λ e. e.timestamp) u.undo_made,
    ap (λ e. e.next) u.undo_made,
  )

  -- After two updates of one vertex in one transaction, the abort takes back the first alone: it
  -- goes from the oldest entry to the newest, and the first entry takes the transaction's stamp off
  -- the head. What is left has the stamp and the chain of the version before the transaction, that
  -- version's values at the indices that the first update listed, and what the two updates made of
  -- all else. The head before was not the transaction's own, and both updates succeeded.
  pub rollback-two_updates :
      (graph : MemoryGraph V) (entry : VersionedVertex V) (txn : MemTransaction V) (vid : ℕ)
      (indices indices' : List ℕ) (props props' : List V) (first second : VersionedVertex V)
      (undo undo' : UndoEntry V)
      → entry.current.commit_ts ≢ txn.txn_id
      → update_properties entry txn vid indices props ≡ ok (first, undo)
      → update_properties first txn vid indices' props' ≡ ok (second, undo')
      → graph.vertices vid ≡ some second
      → (left : Vertex V) × (rollback txn.txn_id graph (undo ∷ undo' ∷ [])
          ≡ ok (
              put_vertex vid
                (record {
                  current = record { item = left; commit_ts = entry.current.commit_ts };
                  undo_ptr = entry.undo_ptr;
                })
                graph))
        × (left ≡ record second.current.item { properties = left.properties })
        × ((j : ℕ)
            → contains j indices ≡ true
            → get_elem? left.properties j ≡ get_elem? entry.current.item.properties j)
        × ((j : ℕ)
            → contains j indices ≡ false
            → get_elem? left.properties j ≡ get_elem? second.current.item.properties j)
  rollback-two_updates graph entry txn vid indices indices' props props' first second undo undo'
        other one two at_vid =
      let u = update_properties-Updated entry txn vid indices props first undo one in
      let u' = update_properties-Updated first txn vid indices' props' second undo' two in
      let (own, len, d, t, n) = Updated-parts entry txn vid indices props first undo u in
      let (own', len', d', t', n') = Updated-parts first txn vid indices' props' second undo' u' in
      let (left, e) = vertex_set_props_inside second.current.item indices u.olds (
        subst (λ k. All (λ i. i < k) indices) (sym (len' ∙ len))
          (indices_inside entry.current.item.properties indices u.olds_read)) in
      (
        left,
        rollback_twice graph second txn.txn_id vid undo undo' _ _ left at_vid own'
              (λ same. other (sym t ∙ same)) d d' e
            ∙ rw (t, n) refl,
        vertex_set_props-properties second.current.item indices u.olds e,
        λ j listed.
            get-set_props_old entry.current.item.properties second.current.item.properties indices
              u.olds j u.olds_read (vertex_set_props-eq-ok second.current.item indices u.olds e)
              listed,
        λ j outside.
            get-set_props_ne second.current.item.properties indices u.olds j
              (vertex_set_props-eq-ok second.current.item indices u.olds e) outside,
      )
