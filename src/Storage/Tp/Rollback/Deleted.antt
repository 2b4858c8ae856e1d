-- ===== src/Storage/Tp/Rollback/Deleted.antt =====
-- What an abort gives back after the deletion of a vertex under pessimistic locking.
use mini_gu.Base.{
  ℕ, ◌≡◌, refl, ap, ◌∙◌, fun_ext, ==_iff, ==_refl, false, [], ◌∷◌, Option, none, some, ok, ok_or,
  ◌++◌, arith, subst,
}
use mini_gu.Base.Assoc.{update}
use mini_gu.Transaction.Timestamp.{Timestamp}
use mini_gu.Storage.Error.{StorageResult}
use mini_gu.Storage.Model.Delta.{del_vertex}
use mini_gu.Storage.Tp.Graph.{VersionedVertex, MemoryGraph}
use mini_gu.Storage.Tp.Guard.{prewrite_check_vertex}
use mini_gu.Storage.Tp.Store.{Store, put_vertex, push_undo, push_redo, lift, ◌>>=◌, ◌>>◌}
use mini_gu.Transaction.Options.{pessimistic}
use mini_gu.Storage.Tp.Delete.{
  deleted_vertex, vertex_deletion_undo, delete_vertex, delete_vertex_pessimistic, delete_vertex_by,
  cascade,
}
use mini_gu.Storage.Tp.Rollback.{rollback}

module _ {V : Type 0} where
  update_same :
      (f : ℕ → Option (VersionedVertex V)) (vid : ℕ) (entry : VersionedVertex V)
      → f vid ≡ some entry
      → update f vid (some entry) ≡ f
  update_same f vid entry h = fun_ext λ j. ground (arith, ==_iff vid j, ap f)

  update-update :
      (f : ℕ → Option (VersionedVertex V)) (vid : ℕ) (old new : Option (VersionedVertex V))
      → update (update f vid old) vid new ≡ update f vid new
  update-update f vid old new = fun_ext λ j. ground arith

  -- The rollback of a deletion on the graph gives the image, timestamp and chain back, always alive.
  rollback-deleted_vertex :
      (graph : MemoryGraph V) (entry : VersionedVertex V) (txn_id : Timestamp) (vid : ℕ)
      → graph.vertices vid ≡ some entry
      → entry.current.item.vid ≡ vid
      → rollback txn_id
          (put_vertex vid (deleted_vertex entry txn_id) graph)
          (vertex_deletion_undo entry ∷ [])
        ≡ ok (
            put_vertex vid
              (record entry {
                current = record entry.current {
                  item = record entry.current.item { is_tombstone = false };
                };
              })
              graph)
  unfolding rollback deleted_vertex
  rollback-deleted_vertex graph entry txn_id vid at_vid same = rw same (
      rw (==_refl vid) (
        rw (==_refl txn_id)
          (ap (λ f. ok (record graph { vertices = f })) (update-update graph.vertices vid _ _))))

  deleted_store : Store V → VersionedVertex V → ℕ → Store V
  deleted_store s entry vid = record {
    graph = put_vertex vid (deleted_vertex entry s.txn.txn_id) s.graph;
    txn = push_redo (del_vertex vid) (push_undo (vertex_deletion_undo entry) s.txn);
  }

  delete_vertex-deleted_store :
      (s : Store V) (entry : VersionedVertex V) (vid : ℕ)
      → s.txn.lock_strategy ≡ pessimistic
      → s.graph.vertices vid ≡ some entry
      → s.graph.adjacency_list vid ≡ none
      → prewrite_check_vertex entry.current.commit_ts s.txn ≡ ok tt
      → delete_vertex vid s ≡ (ok tt, deleted_store s entry vid)
  unfolding delete_vertex delete_vertex_pessimistic deleted_store
  delete_vertex-deleted_store s entry vid pessimistically at_vid no_edges passes =
      ap (λ l. delete_vertex_by l vid s) pessimistically
      ∙ rw (at_vid, ◌>>=◌, lift, ok_or, ◌>>◌, passes) (rw (cascade, no_edges) refl)

  -- A pessimistic transaction whose first write is the deletion of a vertex without edges: where the
  -- head of the vertex passes the conflict check, the deletion succeeds, also if the vertex is a
  -- tombstone already, and the abort leaves the vertex with its image, timestamp and chain, and alive
  -- in either case; the rest of the graph is as before. So the abort of a second deletion revives a
  -- deleted vertex. The vertex stands in the map under its own identifier.
  pub rollback-delete_vertex :
      (s : Store V) (entry : VersionedVertex V) (vid : ℕ)
      → s.txn.lock_strategy ≡ pessimistic
      → s.txn.undo_buffer ≡ []
      → s.graph.vertices vid ≡ some entry
      → entry.current.item.vid ≡ vid
      → s.graph.adjacency_list vid ≡ none
      → prewrite_check_vertex entry.current.commit_ts s.txn ≡ ok tt
      → ((delete_vertex vid s).0 ≡ ok tt)
        × (rollback s.txn.txn_id
              (delete_vertex vid s).1.graph
              (delete_vertex vid s).1.txn.undo_buffer
            ≡ ok (
                put_vertex vid
                  (record entry {
                    current = record entry.current {
                      item = record entry.current.item { is_tombstone = false };
                    };
                  })
                  s.graph))
  unfolding deleted_store
  rollback-delete_vertex s entry vid pessimistically nothing_written at_vid same no_edges passes =
      let d = delete_vertex-deleted_store s entry vid pessimistically at_vid no_edges passes in
      rw d (
        refl,
        ap
              (λ l.
                rollback s.txn.txn_id (put_vertex vid (deleted_vertex entry s.txn.txn_id) s.graph)
                  (l ++ (vertex_deletion_undo entry ∷ [])))
              nothing_written
            ∙ rollback-deleted_vertex s.graph entry s.txn.txn_id vid at_vid same,
      )

  -- An alive vertex that was deleted and given back is the same.
  pub rollback-deleted_vertex_alive :
      (graph : MemoryGraph V) (entry : VersionedVertex V) (txn_id : Timestamp) (vid : ℕ)
      → graph.vertices vid ≡ some entry
      → entry.current.item.vid ≡ vid
      → entry.current.item.is_tombstone ≡ false
      → rollback txn_id
          (put_vertex vid (deleted_vertex entry txn_id) graph)
          (vertex_deletion_undo entry ∷ [])
        ≡ ok graph
  rollback-deleted_vertex_alive graph entry txn_id vid at_vid same alive =
      rollback-deleted_vertex graph entry txn_id vid at_vid same
      ∙ subst
          (λ b.
            ◌≡◌ {A = StorageResult (MemoryGraph V)}
              (ok (
                put_vertex vid
                  (record entry {
                    current = record entry.current {
                      item = record entry.current.item { is_tombstone = b };
                    };
                  })
                  graph))
              (ok graph))
          alive
          (ap (λ f. ok (record graph { vertices = f }))
            (update_same graph.vertices vid entry at_vid))
