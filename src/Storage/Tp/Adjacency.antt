-- ===== src/Storage/Tp/Adjacency.antt =====
-- `AdjacencyIterator` of minigu/storage/src/tp/iterators/adjacency_iterator.rs: the neighbours of one
-- vertex, loaded in batches. A skip set is the list of its entries in the order of `Neighbor`. The
-- writes of the transaction come in any order, as a hash map gives them; what they add and take away
-- does not depend on it, since their edges differ. A batch has one entry more than the constant says.
pub mod Iterator
pub mod Batches
mod Tests
use mini_gu.Base.{
  ℕ, Bool, true, false, ◌&&◌, ◌||◌, Option, none, some, List, [], ◌∷◌, ltb, ◌==◌, if◌then◌else◌,
}
use mini_gu.Transaction.Options.{LockStrategy, pessimistic, optimistic}
use mini_gu.Storage.Model.Edge.{Edge, Neighbor}
use mini_gu.Storage.Tp.Graph.{AdjacencyContainer, MemoryGraph}
use mini_gu.Storage.Tp.Txn.{
  MemTransaction, WriteKind, insert_edge, update_edge, delete_edge, WriteSet,
}
use mini_gu.Storage.Tp.EdgeWrite.{neighbor}

pub data Direction : Type 0 where
  incoming outgoing both : Direction

-- `Neighbor::eq`
abbrev pub same : Neighbor → Neighbor → Bool
same a b = (a.label_id == b.label_id) && ((a.neighbor_id == b.neighbor_id) && (a.eid == b.eid))

-- `Neighbor::cmp` answers `Less`.
unfoldable pub precedes : Neighbor → Neighbor → Bool
precedes a b =
    ltb a.label_id b.label_id
    || ((a.label_id == b.label_id)
        && (ltb a.neighbor_id b.neighbor_id
            || ((a.neighbor_id == b.neighbor_id) && ltb a.eid b.eid)))

-- `SkipSet::insert` and `SkipSet::remove`
unfoldable pub insert : Neighbor → List Neighbor → List Neighbor
insert n [] = n ∷ []
insert n (m ∷ set) =
    let rest = insert n set in
    if precedes n m then n ∷ m ∷ set else (if same n m then m ∷ set else m ∷ rest)

unfoldable pub remove : Neighbor → List Neighbor → List Neighbor
remove n [] = []
remove n (m ∷ set) = let rest = remove n set in if same n m then rest else m ∷ rest

unfoldable pub insert_all : List Neighbor → List Neighbor → List Neighbor
insert_all [] set = set
insert_all (n ∷ ns) set = insert_all ns (insert n set)

abbrev nonempty : List Neighbor → Option (List Neighbor)
nonempty [] = none
nonempty (n ∷ set) = some (n ∷ set)

-- The sets of the graph that the direction asks for.
abbrev base_of : Direction → Option AdjacencyContainer → List Neighbor
base_of d none = []
base_of incoming (some entry) = insert_all entry.incoming []
base_of outgoing (some entry) = insert_all entry.outgoing []
base_of both (some entry) = insert_all entry.outgoing (insert_all entry.incoming [])

-- `matches!(direction, Direction::Outgoing | Direction::Both)`, and for incoming edges.
abbrev goes_out : Direction → Bool
goes_out incoming = false
goes_out _ = true

abbrev goes_in : Direction → Bool
goes_in outgoing = false
goes_in _ = true

module _ {V : Type 0} where
  -- What an edge at the vertex does to the set, in either direction.
  unfoldable pub at_ends :
      (Neighbor → List Neighbor → List Neighbor)
      → Direction
      → ℕ
      → Edge V
      → List Neighbor
      → List Neighbor
  at_ends f d vid e set =
      let set' =
        if goes_out d && (e.src_id == vid)
        then f (neighbor e.label_id e.dst_id e.eid) set
        else set in
      if goes_in d && (e.dst_id == vid) then f (neighbor e.label_id e.src_id e.eid) set' else set'

  unfoldable pub overlay_write : Direction → ℕ → WriteKind V → List Neighbor → List Neighbor
  overlay_write d vid (insert_edge e) set =
      if e.is_tombstone then set else at_ends insert d vid e set
  overlay_write d vid (update_edge before after) set =
      if after.is_tombstone then set else at_ends insert d vid after set
  overlay_write d vid (delete_edge before) set = at_ends remove d vid before set
  overlay_write d vid _ set = set

  unfoldable pub overlay : Direction → ℕ → WriteSet V → List Neighbor → List Neighbor
  overlay d vid [] set = set
  overlay d vid ((eid, intent) ∷ writes) set =
      overlay d vid writes (overlay_write d vid intent.kind set)

  -- Without an overlay the set of the graph is used itself.
  abbrev combined : LockStrategy → Direction → ℕ → WriteSet V → List Neighbor → List Neighbor
  combined pessimistic d vid writes set = set
  combined optimistic d vid writes set = overlay d vid writes set

  -- The field `adj_list` as `AdjacencyIterator::new` sets it.
  unfoldable pub adj_list_of :
      MemoryGraph V → MemTransaction V → ℕ → Direction → Option (List Neighbor)
  adj_list_of graph txn vid d =
      nonempty
        (combined txn.lock_strategy d vid txn.edge_writes (base_of d (graph.adjacency_list vid)))
