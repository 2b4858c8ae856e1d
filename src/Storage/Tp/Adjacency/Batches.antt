-- ===== src/Storage/Tp/Adjacency/Batches.antt =====
-- The batches of `AdjacencyIterator`, minigu/storage/src/tp/iterators/adjacency_iterator.rs, over a set
-- in which no entry stands twice.
use mini_gu.Base.{
  ℕ, ◌+◌, ◌≡◌, refl, ◌∙◌, sym, ap, true, false, ◌&&◌, Option, none, some, List, [], ◌∷◌, ◌++◌, All,
  Bool-cases, inl, inr, arith, take, drop, length, ◌<◌, ◌≢◌, subst, ◌⊎◌, ◌>>=◌, zero, suc, ok,
  ok-injective, Result-cases,
}
use mathlib.Core.List.{append_assoc}
use mini_gu.Base.Slices.{length-drop}
use mini_gu.Storage.Tp.Graph.{MemoryGraph}
use mini_gu.Storage.Tp.Txn.{MemTransaction}
use mini_gu.Storage.Tp.Adjacency.Iterator.{
  next_in_batch, next_batches, entry_visible, AdjacencyIterator, last, behind, unloaded,
  load_next_batch, batch_size,
}
use mini_gu.Storage.Tp.Iterators.{passes}
use mini_gu.Storage.Model.Edge.{Neighbor}
use mini_gu.Storage.Tp.Adjacency.{same}

unfoldable pub AreDistinct : List Neighbor → Type 0
AreDistinct [] = Unit {0}
AreDistinct (n ∷ set) = All (λ m. same n m ≡ false) set × AreDistinct set

-- The last of a list that is not empty.
unfoldable pub last_of : Neighbor → List Neighbor → Neighbor
last_of n [] = n
last_of n (m ∷ ns) = last_of m ns

last-some : (n : Neighbor) (ns : List Neighbor) → last (n ∷ ns) ≡ some (last_of n ns)
unfolding last_of
last-some n [] = refl
last-some n (m ∷ ns) = rw (last-some m ns) refl

same_refl : (n : Neighbor) → same n n ≡ true
same_refl n = ground arith

last-All :
    (P : Neighbor → Type 0) (n : Neighbor) (ns rest : List Neighbor)
    → All P ((n ∷ ns) ++ rest)
    → P (last_of n ns)
unfolding last_of
last-All P n [] rest h = h.0
last-All P n (m ∷ ns) rest h = last-All P m ns rest h.1

-- Behind the last entry of a batch stands what follows the batch.
behind-last :
    (n : Neighbor) (ns rest : List Neighbor)
    → AreDistinct ((n ∷ ns) ++ rest)
    → behind (last_of n ns) ((n ∷ ns) ++ rest) ≡ rest
unfolding last_of AreDistinct
behind-last n [] rest h = rw (same_refl n) refl
behind-last n (m ∷ ns) rest h =
    rw (last-All (λ k. same n k ≡ false) m ns rest h.0) (behind-last m ns rest h.1)

All-behind : (P : Neighbor → Type 0) (xs ys : List Neighbor) → All P (xs ++ ys) → All P ys
All-behind P [] ys h = h
All-behind P (x ∷ xs) ys h = All-behind P xs ys h.1

-- The batches before it do not matter.
behind_loaded :
    (loaded : List Neighbor) (n : Neighbor) (ns rest : List Neighbor)
    → AreDistinct (loaded ++ ((n ∷ ns) ++ rest))
    → behind (last_of n ns) (loaded ++ ((n ∷ ns) ++ rest)) ≡ rest
unfolding AreDistinct
behind_loaded [] n ns rest h = behind-last n ns rest h
behind_loaded (k ∷ loaded) n ns rest h =
    rw (last-All (λ m. same k m ≡ false) n ns rest (All-behind _ loaded _ h.0))
      (behind_loaded loaded n ns rest h.1)

take-drop : (k : ℕ) (ns : List Neighbor) → take k ns ++ drop k ns ≡ ns
take-drop zero ns = refl
take-drop (suc k) [] = refl
take-drop (suc k) (n ∷ ns) = ap (λ (l : List Neighbor). n ∷ l) (take-drop k ns)

-- The batch stands in the set, and `rest` is still to be loaded.
pub record Stands (set rest : List Neighbor) (it : AdjacencyIterator) : Type 0 where
  pub loaded : List Neighbor
  pub first : Neighbor
  pub others : List Neighbor
  pub adj_list : it.adj_list ≡ some set
  pub entries : it.current_entries ≡ first ∷ others
  pub shape : set ≡ loaded ++ ((first ∷ others) ++ rest)

unloaded_rest :
    {set rest : List Neighbor} {it : AdjacencyIterator}
    → AreDistinct set
    → Stands set rest it
    → unloaded (last it.current_entries) set ≡ rest
unloaded_rest {set} {rest} {it} distinct s =
    rw (s.entries, last-some s.first s.others, s.shape)
      (behind_loaded s.loaded s.first s.others rest (subst AreDistinct s.shape distinct))

-- Nothing is left to load: the iterator stays.
load_next_batch_spent :
    {set : List Neighbor} {it : AdjacencyIterator}
    → AreDistinct set
    → Stands set [] it
    → load_next_batch it ≡ none
unfolding load_next_batch
load_next_batch_spent distinct s = rw (s.adj_list, unloaded_rest distinct s) refl

load_next_batch_more :
    {set : List Neighbor} {it : AdjacencyIterator} (n : Neighbor) (ns : List Neighbor)
    → AreDistinct set
    → Stands set (n ∷ ns) it
    → (it' : AdjacencyIterator) × (load_next_batch it ≡ some it')
      × (it'.current_entries ≡ n ∷ take batch_size ns)
      × (it'.current_index ≡ 0)
      × Stands set (drop batch_size ns) it'
unfolding load_next_batch
load_next_batch_more {set} {it} n ns distinct s = (
  record it { current_entries = n ∷ take batch_size ns; current_index = 0 },
  rw (s.adj_list, unloaded_rest distinct s) refl,
  refl,
  refl,
  record {
    loaded = s.loaded ++ (s.first ∷ s.others);
    first = n;
    others = take batch_size ns;
    adj_list = s.adj_list;
    entries = refl;
    shape =
        s.shape
        ∙ rw
            (
              append_assoc s.loaded (s.first ∷ s.others)
                  (n ∷ (take batch_size ns ++ drop batch_size ns)),
              take-drop batch_size ns,
            )
            refl;
  },
)

-- Either nothing is left to load, or less is left than before.
loading :
    {set : List Neighbor} (rest : List Neighbor) {it : AdjacencyIterator}
    → AreDistinct set
    → Stands set rest it
    → (load_next_batch it ≡ none)
      ⊎ ((it' : AdjacencyIterator) × (rest' : List Neighbor) × (load_next_batch it ≡ some it')
          × (length rest' < length rest)
          × Stands set rest' it')
loading [] distinct s = inl (load_next_batch_spent distinct s)
loading (n ∷ ns) distinct s =
    let (it', loads, _, _, s') = load_next_batch_more n ns distinct s in
    inr (it', drop batch_size ns, loads, omega (arith, length-drop batch_size ns), s')

module _ {V : Type 0} (graph : MemoryGraph V) (txn : MemTransaction V) where
  -- The loop over a batch keeps the batch and the set.
  next_in_batch_keeps :
      (entries : List Neighbor) (it : AdjacencyIterator) {found : Option Neighbor}
      {it' : AdjacencyIterator}
      → next_in_batch graph txn entries it ≡ ok (found, it')
      → (it.adj_list ≡ it'.adj_list) × (it.current_entries ≡ it'.current_entries)
  unfolding next_in_batch
  next_in_batch_keeps [] it =
      λ h. (ap (λ p. p.1.adj_list) (ok-injective h), ap (λ p. p.1.current_entries) (ok-injective h))
  next_in_batch_keeps (entry ∷ entries) it = elim (Result-cases (entry_visible graph txn entry)) [
    | inr (e, failed) ↦ rw failed (λ h. cc h)
    | inl (visible, shown) ↦ rw shown (elim (Bool-cases (visible && passes it.filters entry)) [
      | inl taken ↦
          rw (◌>>=◌, taken)
            (λ h. (
              ap (λ p. p.1.adj_list) (ok-injective h),
              ap (λ p. p.1.current_entries) (ok-injective h),
            ))
      | inr left ↦
          rw (◌>>=◌, left)
            (next_in_batch_keeps entries (record it { current_index = it.current_index + 1 }))
    ])
  ]

  moved :
      {set rest : List Neighbor} {it it' : AdjacencyIterator}
      → Stands set rest it
      → (it.adj_list ≡ it'.adj_list) × (it.current_entries ≡ it'.current_entries)
      → Stands set rest it'
  moved s same_parts = record {
    loaded = s.loaded;
    first = s.first;
    others = s.others;
    adj_list = sym same_parts.0 ∙ s.adj_list;
    entries = sym same_parts.1 ∙ s.entries;
    shape = s.shape;
  }

  -- A call is answered where the fuel is more than the number of entries that are not loaded.
  pub next_batches_answers :
      (fuel : ℕ) (rest : List Neighbor) {set : List Neighbor} (it : AdjacencyIterator)
      → AreDistinct set
      → Stands set rest it
      → length rest < fuel
      → next_batches graph txn fuel it ≢ none
  unfolding next_batches
  next_batches_answers zero rest it distinct s enough = omega (arith, enough)
  next_batches_answers (suc fuel) rest it distinct s enough =
      elim (Result-cases (next_in_batch graph txn (drop it.current_index it.current_entries) it)) [
        | inr (e, failed) ↦ rw (next_batches, failed) (λ h. cc h)
        | inl ((some entry, it'), found) ↦ rw (next_batches, found) (λ h. cc h)
        | inl ((none, it'), none_found) ↦
            rw (next_batches, none_found)
              (let s' = moved {it' = it'} s (next_in_batch_keeps _ it none_found) in
                elim (loading rest distinct s') [
                  | inl spent ↦ rw spent (λ h. cc h)
                  | inr (it'', rest', loads, less, s'') ↦ rw loads (
                      next_batches_answers fuel rest' it'' distinct s''
                        (omega (arith, less, enough)))
                ])
      ]
