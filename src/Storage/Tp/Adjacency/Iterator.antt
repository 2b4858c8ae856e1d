-- ===== src/Storage/Tp/Adjacency/Iterator.antt =====
-- The batches of `AdjacencyIterator`, minigu/storage/src/tp/iterators/adjacency_iterator.rs.
use mini_gu.Base.{
  ℕ, zero, suc, ◌+◌, Bool, true, false, not, ◌&&◌, Option, none, some, List, [], ◌∷◌, ◌++◌, length,
  take, drop, leb, ltb, ◌==◌, if◌then◌else◌, ok, err, ◌>>=◌,
}
use mini_gu.Transaction.Options.{LockStrategy, pessimistic, optimistic}
use mini_gu.Storage.Error.{StorageResult}
use mini_gu.Storage.Model.Edge.{Neighbor}
use mini_gu.Storage.Tp.Graph.{VersionedEdge, MemoryGraph}
use mini_gu.Storage.Tp.Txn.{
  MemTransaction, insert_edge, update_edge, delete_edge, WriteIntent, lookup_edge_write,
}
use mini_gu.Storage.Tp.EdgeRead.{is_visible}
use mini_gu.Storage.Tp.Iterators.{passes}
use mini_gu.Storage.Tp.Adjacency.{Direction, both, outgoing, incoming, same, adj_list_of}

pub record AdjacencyIterator : Type 0 where
  pub adj_list : Option (List Neighbor)
  pub current_entries : List Neighbor
  pub current_index : ℕ
  pub filters : List (Neighbor → Bool)
  pub current_adj : Option Neighbor

abbrev pub batch_size : ℕ
batch_size = 64

abbrev pub last : List Neighbor → Option Neighbor
last [] = none
last (n ∷ ns) = elim (last ns) [ none ↦ some n | some m ↦ some m ]

-- `adj_list.get(e)?.next()` and all behind it.
abbrev pub behind : Neighbor → List Neighbor → List Neighbor
behind e [] = []
behind e (n ∷ set) = let rest = behind e set in if same n e then set else rest

abbrev pub unloaded : Option Neighbor → List Neighbor → List Neighbor
unloaded none set = set
unloaded (some e) set = behind e set

abbrev unstarted : Option (List Neighbor) → AdjacencyIterator
unstarted adj_list = record {
  adj_list = adj_list;
  current_entries = [];
  current_index = 0;
  filters = [];
  current_adj = none;
}

abbrev batch : List Neighbor → AdjacencyIterator → Option AdjacencyIterator
batch [] it = none
batch (n ∷ ns) it = some (record it { current_entries = n ∷ take batch_size ns; current_index = 0 })

-- Without a further entry the iterator stays as it is.
unfoldable pub load_next_batch : AdjacencyIterator → Option AdjacencyIterator
load_next_batch it = elim it.adj_list [
  | none ↦ none
  | some set ↦ batch (unloaded (last it.current_entries) set) it
]

module _ {V : Type 0} where
  abbrev shared_visible :
      Option (VersionedEdge V) → MemoryGraph V → MemTransaction V → StorageResult Bool
  shared_visible none graph txn = ok false
  shared_visible (some edge) graph txn = is_visible graph edge txn

  abbrev visible_by :
      LockStrategy → Option (WriteIntent V) → StorageResult Bool → StorageResult Bool
  visible_by pessimistic intent shared = shared
  visible_by optimistic none shared = shared
  visible_by optimistic (some intent) shared = elim intent.kind [
    | insert_edge e ↦ ok (not e.is_tombstone)
    | update_edge before after ↦ ok (not after.is_tombstone)
    | delete_edge before ↦ ok false
    | _ ↦ shared
  ]

module _ {V : Type 0} (graph : MemoryGraph V) (txn : MemTransaction V) where
  unfoldable pub entry_visible : Neighbor → StorageResult Bool
  entry_visible entry =
      visible_by txn.lock_strategy (lookup_edge_write txn entry.eid)
        (shared_visible (graph.edges entry.eid) graph txn)

  -- The loop over the entries of the batch that are left.
  unfoldable pub next_in_batch :
      List Neighbor → AdjacencyIterator → StorageResult (Option Neighbor × AdjacencyIterator)
  next_in_batch [] it = ok (none, it)
  next_in_batch (entry ∷ rest) it =
      let it' = record it { current_index = it.current_index + 1 } in
      entry_visible entry >>= λ visible. elim (visible && passes it.filters entry) [
        | true ↦ ok (some entry, record it' { current_adj = some entry })
        | false ↦ next_in_batch rest it'
      ]

  -- One call of the loop per batch; without fuel nothing is answered.
  unfoldable pub next_batches :
      ℕ → AdjacencyIterator → Option (StorageResult (Option Neighbor × AdjacencyIterator))
  next_batches zero it = none
  next_batches (suc fuel) it = elim (next_in_batch (drop it.current_index it.current_entries) it) [
    | err e ↦ some (err e)
    | ok (some entry, it') ↦ some (ok (some entry, it'))
    | ok (none, it') ↦ elim (load_next_batch it') [
      | none ↦ some (ok (none, it'))
      | some it'' ↦ next_batches fuel it''
    ]
  ]

  unfoldable pub next :
      ℕ → AdjacencyIterator → Option (StorageResult (Option Neighbor × AdjacencyIterator))
  next fuel it =
      if leb (length it.current_entries) it.current_index
      then elim (load_next_batch it) [
        | none ↦ some (ok (none, it))
        | some it' ↦ next_batches fuel it'
      ]
      else next_batches fuel it

  -- The loop of `seek`, at most as many times as there is fuel. An error is a panic.
  unfoldable pub seek :
      ℕ → ℕ → AdjacencyIterator → Option (StorageResult (Bool × AdjacencyIterator))
  seek zero id it = none
  seek (suc fuel) id it = elim (next (suc fuel) it) [
    | none ↦ none
    | some (err e) ↦ some (err e)
    | some (ok (none, it')) ↦ some (ok (false, it'))
    | some (ok (some entry, it')) ↦ elim (entry.eid == id) [
      | true ↦ some (ok (true, it'))
      | false ↦ elim (ltb id entry.eid) [ true ↦ some (ok (false, it')) | false ↦ seek fuel id it' ]
    ]
  ]

  unfoldable pub new : ℕ → Direction → AdjacencyIterator
  new vid d =
      let it = unstarted (adj_list_of graph txn vid d) in
      elim (load_next_batch it) [ none ↦ it | some it' ↦ it' ]

  unfoldable pub iter_adjacency : ℕ → AdjacencyIterator
  iter_adjacency vid = new vid both

  unfoldable pub iter_adjacency_outgoing : ℕ → AdjacencyIterator
  iter_adjacency_outgoing vid = new vid outgoing

  unfoldable pub iter_adjacency_incoming : ℕ → AdjacencyIterator
  iter_adjacency_incoming vid = new vid incoming

unfoldable pub filter : AdjacencyIterator → (Neighbor → Bool) → AdjacencyIterator
filter it predicate = record it { filters = it.filters ++ (predicate ∷ []) }
