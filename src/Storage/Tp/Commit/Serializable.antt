-- ===== src/Storage/Tp/Commit/Serializable.antt =====
-- What a commit under serializable isolation demands of what was read.
use mini_gu.Base.{
  ℕ, ◌≤◌, ◌≡◌, refl, sym, ◌∙◌, ◌⊎◌, Bool, false, Option, none, some, List, [], ◌∷◌, All, Result,
  >>=-eq-ok, ok, err, arith,
}
use mini_gu.Transaction.Timestamp.{Timestamp}
use mini_gu.Transaction.Options.{IsolationLevel, snapshot, serializable}
use mini_gu.Storage.Error.{StorageError, StorageResult, vertex_not_found, edge_not_found}
use mini_gu.Storage.Tp.Chain.{VersionChain}
use mini_gu.Storage.Tp.Graph.{MemoryGraph}
use mini_gu.Storage.Tp.Txn.{MemTransaction}
use mini_gu.Storage.Tp.Manager.{World, draw_timestamp}
use mini_gu.Storage.Tp.Manager.Finish.{abort_at}
use mini_gu.Storage.Tp.Optimistic.Validate.{aborted_with_fails}
use mini_gu.Storage.Tp.Commit.{
  validate_read, validate_vertices, validate_edges, validate_read_sets, validate_by,
  commit_if_valid, commit_drawn, commit_at,
}

module _ {V D : Type 0} where
  -- The item is there, and its head is the transaction's own or was committed by its start.
  abbrev pub Unmodified : Option (VersionChain V D) → MemTransaction V → Type 0
  Unmodified none txn = ⊥
  Unmodified (some entry) txn =
      (entry.current.commit_ts ≡ txn.txn_id) ⊎ (entry.current.commit_ts ≤ txn.start_ts)

  validate_read-Unmodified :
      (missing : StorageError) (o : Option (VersionChain V D)) (txn : MemTransaction V)
      {u : Unit {0}}
      → validate_read missing o txn ≡ ok u
      → Unmodified o txn
  validate_read-Unmodified missing none txn h = cc
  validate_read-Unmodified missing (some entry) txn h = ground arith

module _ {V : Type 0} where
  validate_vertices-Unmodified :
      (graph : MemoryGraph V) (txn : MemTransaction V) (vids : List ℕ) {u : Unit {0}}
      → validate_vertices graph txn vids ≡ ok u
      → All (λ vid. Unmodified (graph.vertices vid) txn) vids
  unfolding validate_vertices
  validate_vertices-Unmodified graph txn [] h = tt
  validate_vertices-Unmodified graph txn (vid ∷ rest) h =
      let (x, first, more) =
        >>=-eq-ok (validate_read (vertex_not_found vid) (graph.vertices vid) txn) _ h in
      (
        validate_read-Unmodified (vertex_not_found vid) (graph.vertices vid) txn first,
        validate_vertices-Unmodified graph txn rest more,
      )

  validate_edges-Unmodified :
      (graph : MemoryGraph V) (txn : MemTransaction V) (eids : List ℕ) {u : Unit {0}}
      → validate_edges graph txn eids ≡ ok u
      → All (λ eid. Unmodified (graph.edges eid) txn) eids
  unfolding validate_edges
  validate_edges-Unmodified graph txn [] h = tt
  validate_edges-Unmodified graph txn (eid ∷ rest) h =
      let (x, first, more) =
        >>=-eq-ok (validate_read (edge_not_found eid) (graph.edges eid) txn) _ h in
      (
        validate_read-Unmodified (edge_not_found eid) (graph.edges eid) txn first,
        validate_edges-Unmodified graph txn rest more,
      )

module _ {V : Type 0} where
  validate_by_serializable :
      (level : IsolationLevel) (graph : MemoryGraph V) (txn : MemTransaction V)
      → level ≡ serializable
      → validate_by level graph txn ≡ validate_read_sets graph txn
  unfolding validate_by validate_read_sets
  validate_by_serializable snapshot graph txn h = cc
  validate_by_serializable serializable graph txn h = refl

module _ {V : Type 0} (differs : V → V → Bool) where
  commit_if_valid-ok :
      (valid : StorageResult (Unit {0})) (commit_ts : Timestamp) (skip_wal : Bool)
      (txn : MemTransaction V) (w : World V) {ts : Timestamp}
      → (commit_if_valid differs valid commit_ts skip_wal txn w).0 ≡ ok ts
      → valid ≡ ok tt
  unfolding commit_if_valid
  commit_if_valid-ok (err e) commit_ts skip_wal txn w h =
      absurd (aborted_with_fails e (abort_at false txn w) h)
  commit_if_valid-ok (ok tt) commit_ts skip_wal txn w h = refl

  commit_drawn-validate_read_sets :
      (drawn : ℕ × Result _ Timestamp) (skip_wal : Bool) (txn : MemTransaction V) (w : World V)
      {ts : Timestamp}
      → txn.isolation_level ≡ serializable
      → (commit_drawn differs drawn skip_wal txn w).0 ≡ ok ts
      → validate_read_sets w.graph txn ≡ ok tt
  unfolding commit_drawn
  commit_drawn-validate_read_sets (g, err e) skip_wal txn w level h = cc
  commit_drawn-validate_read_sets (g, ok commit_ts) skip_wal txn w level h =
      sym (validate_by_serializable txn.isolation_level w.graph txn level)
      ∙ commit_if_valid-ok _ commit_ts skip_wal txn _ h

  -- If a serializable transaction commits, under either lock strategy, then when the commit began
  -- every vertex and edge in its read sets was there, with a head that was its own or committed by
  -- its start.
  pub commit_at-Unmodified :
      (commit_ts : Option Timestamp) (skip_wal : Bool) (txn : MemTransaction V) (w : World V)
      {ts : Timestamp}
      → txn.isolation_level ≡ serializable
      → (commit_at differs commit_ts skip_wal txn w).0 ≡ ok ts
      → All (λ vid. Unmodified (w.graph.vertices vid) txn) txn.vertex_reads
        × All (λ eid. Unmodified (w.graph.edges eid) txn) txn.edge_reads
  unfolding commit_at validate_read_sets
  commit_at-Unmodified commit_ts skip_wal txn w level h =
      let valid =
        commit_drawn-validate_read_sets (draw_timestamp commit_ts w.timestamps) skip_wal txn w level
          h in
      let (x, vertices, edges) =
        >>=-eq-ok (validate_vertices w.graph txn txn.vertex_reads) _ valid in
      (
        validate_vertices-Unmodified w.graph txn txn.vertex_reads vertices,
        validate_edges-Unmodified w.graph txn txn.edge_reads edges,
      )
