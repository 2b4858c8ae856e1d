-- ===== src/Storage/Tp/Optimistic/Validate.antt =====
-- What the first phase of `commit_optimistic` demands of the store.
use mini_gu.Base.{
  ℕ, ◌≡◌, ◌⊎◌, inl, inr, Bool, false, Option, none, some, [], ◌∷◌, All, ok, err, arith,
  Option-cases, All-imp,
}
use mini_gu.Transaction.Timestamp.{Timestamp, is_txn_id, is_commit_ts}
use mini_gu.Storage.Error.{StorageError}
use mini_gu.Storage.Tp.Chain.{VersionChain}
use mini_gu.Storage.Tp.Graph.{MemoryGraph}
use mini_gu.Storage.Tp.Txn.{
  MemTransaction, WriteKind, insert_vertex, update_vertex, delete_vertex, insert_edge, update_edge,
  delete_edge, WriteIntent, WriteSet,
}
use mini_gu.Storage.Tp.Optimistic.{
  insert_conflict, base_conflict, insert_conflict_at, update_conflict_at, delete_conflict_at,
  vertex_conflict, edge_conflict, first_conflict, validate,
}
use mini_gu.Storage.Tp.Optimistic.Publish.{aborted_with, commit_optimistic}
use mini_gu.Storage.Tp.Manager.{World}
use mini_gu.Storage.Tp.Manager.Finish.{Ended, abort_at}

-- The head is the transaction's own, or still the version that the intent was planned on.
abbrev pub Unchanged : Timestamp → Timestamp → Timestamp → Type 0
Unchanged cur_ts txn_id guard_ts = (cur_ts ≡ txn_id) ⊎ (cur_ts ≡ guard_ts)

module _ {V D : Type 0} where
  -- What an insertion, an update and a deletion demand of the entry under their key.
  abbrev pub Insertable : Option (VersionChain V D) → Timestamp → Type 0
  Insertable none txn_id = Unit
  Insertable (some entry) txn_id = entry.current.commit_ts ≡ txn_id

  abbrev pub Updatable : Option (VersionChain V D) → Timestamp → Timestamp → Type 0
  Updatable none txn_id guard_ts = ⊥
  Updatable (some entry) txn_id guard_ts = Unchanged entry.current.commit_ts txn_id guard_ts

  abbrev pub Deletable : Option (VersionChain V D) → Timestamp → Timestamp → Type 0
  Deletable none txn_id guard_ts = guard_ts ≡ 0
  Deletable (some entry) txn_id guard_ts = Unchanged entry.current.commit_ts txn_id guard_ts

base_conflict-Unchanged :
    (cur_ts txn_id guard_ts : Timestamp)
    → base_conflict cur_ts txn_id guard_ts ≡ none
    → Unchanged cur_ts txn_id guard_ts
unfolding is_txn_id is_commit_ts
base_conflict-Unchanged cur_ts txn_id guard_ts h = ground arith

insert_conflict_own :
    (cur_ts txn_id : Timestamp) → insert_conflict cur_ts txn_id ≡ none → cur_ts ≡ txn_id
unfolding is_txn_id is_commit_ts
insert_conflict_own cur_ts txn_id h = ground arith

module _ {V D : Type 0} where
  insert_conflict_at-Insertable :
      (o : Option (VersionChain V D)) (txn_id : Timestamp)
      → insert_conflict_at o txn_id ≡ none
      → Insertable o txn_id
  insert_conflict_at-Insertable none txn_id h = tt
  insert_conflict_at-Insertable (some entry) txn_id h =
      insert_conflict_own entry.current.commit_ts txn_id h

  update_conflict_at-Updatable :
      (o : Option (VersionChain V D)) (txn_id guard_ts : Timestamp)
      → update_conflict_at o txn_id guard_ts ≡ none
      → Updatable o txn_id guard_ts
  update_conflict_at-Updatable none txn_id guard_ts h = cc
  update_conflict_at-Updatable (some entry) txn_id guard_ts h =
      base_conflict-Unchanged entry.current.commit_ts txn_id guard_ts h

  delete_conflict_at-Deletable :
      (o : Option (VersionChain V D)) (txn_id guard_ts : Timestamp)
      → delete_conflict_at o txn_id guard_ts ≡ none
      → Deletable o txn_id guard_ts
  delete_conflict_at-Deletable none txn_id guard_ts h = ground arith
  delete_conflict_at-Deletable (some entry) txn_id guard_ts h =
      base_conflict-Unchanged entry.current.commit_ts txn_id guard_ts h

module _ {V : Type 0} where
  -- What an intent demands of the graph.
  abbrev pub VertexDemand : MemoryGraph V → Timestamp → ℕ → Timestamp → WriteKind V → Type 0
  VertexDemand graph txn_id vid guard_ts (insert_vertex _) = Insertable (graph.vertices vid) txn_id
  VertexDemand graph txn_id vid guard_ts (update_vertex _ _) =
      Updatable (graph.vertices vid) txn_id guard_ts
  VertexDemand graph txn_id vid guard_ts (delete_vertex _) =
      Deletable (graph.vertices vid) txn_id guard_ts
  VertexDemand graph txn_id vid guard_ts _ = Unit

  abbrev pub EdgeDemand : MemoryGraph V → Timestamp → ℕ → Timestamp → WriteKind V → Type 0
  EdgeDemand graph txn_id eid guard_ts (insert_edge _) = Insertable (graph.edges eid) txn_id
  EdgeDemand graph txn_id eid guard_ts (update_edge _ _) =
      Updatable (graph.edges eid) txn_id guard_ts
  EdgeDemand graph txn_id eid guard_ts (delete_edge _) = Deletable (graph.edges eid) txn_id guard_ts
  EdgeDemand graph txn_id eid guard_ts _ = Unit

  vertex_conflict-VertexDemand :
      (graph : MemoryGraph V) (txn_id : Timestamp) (vid : ℕ) (guard_ts : Timestamp)
      (kind : WriteKind V)
      → vertex_conflict graph txn_id vid (record { guard_ts = guard_ts; kind = kind }) ≡ none
      → VertexDemand graph txn_id vid guard_ts kind
  vertex_conflict-VertexDemand graph txn_id vid guard_ts (insert_vertex v) h =
      insert_conflict_at-Insertable (graph.vertices vid) txn_id h
  vertex_conflict-VertexDemand graph txn_id vid guard_ts (update_vertex v v') h =
      update_conflict_at-Updatable (graph.vertices vid) txn_id guard_ts h
  vertex_conflict-VertexDemand graph txn_id vid guard_ts (delete_vertex v) h =
      delete_conflict_at-Deletable (graph.vertices vid) txn_id guard_ts h
  vertex_conflict-VertexDemand graph txn_id vid guard_ts (insert_edge e) h = tt
  vertex_conflict-VertexDemand graph txn_id vid guard_ts (update_edge e e') h = tt
  vertex_conflict-VertexDemand graph txn_id vid guard_ts (delete_edge e) h = tt

  edge_conflict-EdgeDemand :
      (graph : MemoryGraph V) (txn_id : Timestamp) (eid : ℕ) (guard_ts : Timestamp)
      (kind : WriteKind V)
      → edge_conflict graph txn_id eid (record { guard_ts = guard_ts; kind = kind }) ≡ none
      → EdgeDemand graph txn_id eid guard_ts kind
  edge_conflict-EdgeDemand graph txn_id eid guard_ts (insert_edge e) h =
      insert_conflict_at-Insertable (graph.edges eid) txn_id h
  edge_conflict-EdgeDemand graph txn_id eid guard_ts (update_edge e e') h =
      update_conflict_at-Updatable (graph.edges eid) txn_id guard_ts h
  edge_conflict-EdgeDemand graph txn_id eid guard_ts (delete_edge e) h =
      delete_conflict_at-Deletable (graph.edges eid) txn_id guard_ts h
  edge_conflict-EdgeDemand graph txn_id eid guard_ts (insert_vertex v) h = tt
  edge_conflict-EdgeDemand graph txn_id eid guard_ts (update_vertex v v') h = tt
  edge_conflict-EdgeDemand graph txn_id eid guard_ts (delete_vertex v) h = tt

  first_conflict-All :
      (conflict : ℕ → WriteIntent V → Option StorageError) (ws : WriteSet V)
      → first_conflict conflict ws ≡ none
      → All (λ (id, intent). conflict id intent ≡ none) ws
  first_conflict-All conflict [] h = tt
  first_conflict-All conflict ((id, intent) ∷ rest) h = elim (Option-cases (conflict id intent)) [
    | inl free ↦ (free, first_conflict-All conflict rest (rw (free, first_conflict) at h))
    | inr (e, found) ↦ absurd (cc (rw (found, first_conflict) at h))
  ]

  validate-first_conflict :
      (graph : MemoryGraph V) (txn : MemTransaction V)
      → validate graph txn ≡ none
      → (first_conflict (vertex_conflict graph txn.txn_id) txn.vertex_writes ≡ none)
        × (first_conflict (edge_conflict graph txn.txn_id) txn.edge_writes ≡ none)
  unfolding validate
  validate-first_conflict graph txn h =
      elim (Option-cases (first_conflict (vertex_conflict graph txn.txn_id) txn.vertex_writes)) [
        | inl free ↦ (free, rw (free, validate) at h)
        | inr (e, found) ↦ absurd (cc (rw (found, validate) at h))
      ]

  pub aborted_with_fails :
      (e : StorageError) (ended : Ended V (Unit {0})) {ts : Timestamp}
      → (aborted_with e ended).0 ≡ ok ts
      → ⊥
  aborted_with_fails e (ok _, txn, w) h = cc
  aborted_with_fails e (err e', txn, w) h = cc

module _ {V : Type 0} (differs : V → V → Bool) where
  commit_optimistic-validate :
      (commit_ts : Timestamp) (skip_wal : Bool) (txn : MemTransaction V) (w : World V)
      {ts : Timestamp}
      → (commit_optimistic differs commit_ts skip_wal txn w).0 ≡ ok ts
      → validate w.graph txn ≡ none
  unfolding commit_optimistic
  commit_optimistic-validate commit_ts skip_wal txn w h =
      elim (Option-cases (validate w.graph txn)) [
        | inl free ↦ free
        | inr (e, found) ↦ absurd (aborted_with_fails e (abort_at false txn w) (rw found at h))
      ]

  -- First committer wins: if a commit under optimistic locking succeeds, then when it began every
  -- vertex and edge that its intents update or delete was still at the version that the intent was
  -- planned on or was the transaction's own, one that a transaction inserted and deleted aside; and
  -- none that they insert was there but its own.
  pub commit_optimistic-VertexDemand :
      (commit_ts : Timestamp) (skip_wal : Bool) (txn : MemTransaction V) (w : World V)
      {ts : Timestamp}
      → (commit_optimistic differs commit_ts skip_wal txn w).0 ≡ ok ts
      → All (λ (vid, i). VertexDemand w.graph txn.txn_id vid i.guard_ts i.kind) txn.vertex_writes
        × All (λ (eid, i). EdgeDemand w.graph txn.txn_id eid i.guard_ts i.kind) txn.edge_writes
  commit_optimistic-VertexDemand commit_ts skip_wal txn w h =
      let free =
        validate-first_conflict w.graph txn
          (commit_optimistic-validate commit_ts skip_wal txn w h) in
      (
        All-imp txn.vertex_writes
            (λ (vid, i) n. vertex_conflict-VertexDemand w.graph txn.txn_id vid i.guard_ts i.kind n)
            (first_conflict-All (vertex_conflict w.graph txn.txn_id) txn.vertex_writes free.0),
        All-imp txn.edge_writes
            (λ (eid, i) n. edge_conflict-EdgeDemand w.graph txn.txn_id eid i.guard_ts i.kind n)
            (first_conflict-All (edge_conflict w.graph txn.txn_id) txn.edge_writes free.1),
      )
