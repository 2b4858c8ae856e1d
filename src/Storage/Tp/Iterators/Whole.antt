-- ===== src/Storage/Tp/Iterators/Whole.antt =====
-- What the scans of minigu/storage/src/tp/iterators yield, against a scan without an iterator.
use mini_gu.Base.{
  ℕ, subst, zero, suc, ◌+◌, ◌≡◌, refl, sym, ap, ◌∙◌, Bool, true, false, Bool-cases, if◌then◌else◌,
  inl, inr, Option, none, some, List, [], ◌∷◌, ◌++◌, drop, take, ok, err, ok-injective, ◌>>=◌,
  >>=-eq-ok,
}
use mini_gu.Base.Slices.{drop-drop}
use mini_gu.Storage.Error.{StorageResult}
use mini_gu.Storage.Tp.Chain.{VersionChain}
use mini_gu.Storage.Tp.Txn.{MemTransaction}
use mini_gu.Storage.Tp.Iterators.{
  Own, no_intent, skipped, own, Kind, ScanIterator, passes, is_panic, next_pending, next_entry,
  next, take_items,
}

-- A mark in the read set changes nothing that a scan reads.
pub record IsStable {V D : Type 0} (kind : Kind V D) : Type 0 where
  pub own_of :
      (id k : ℕ) (txn : MemTransaction V)
      → kind.own_of (kind.mark_read id txn) k ≡ kind.own_of txn k
  pub get_visible :
      (id : ℕ) (chain : VersionChain V D) (txn : MemTransaction V)
      → kind.get_visible chain (kind.mark_read id txn) ≡ kind.get_visible chain txn

module _ {D : Type 0} where
  abbrev pub kept : List (D → Bool) → List D → List D
  kept filters [] = []
  kept filters (item ∷ items) =
      let rest = kept filters items in
      elim (passes filters item) [ true ↦ item ∷ rest | false ↦ rest ]

  abbrev pub shown : StorageResult D → StorageResult (List D)
  shown (ok item) = ok (item ∷ [])
  shown (err e) = if is_panic e then err e else ok []

  -- What one entry shows to the transaction.
  abbrev pub shown_by : Own D → StorageResult D → StorageResult (List D)
  shown_by skipped visible = ok []
  shown_by (own item) visible = ok (item ∷ [])
  shown_by no_intent visible = shown visible

module _ {V D : Type 0} (kind : Kind V D) where
  -- All that the entries show.
  unfoldable pub scan : MemTransaction V → List (ℕ × VersionChain V D) → StorageResult (List D)
  scan txn [] = ok []
  scan txn ((id, chain) ∷ rest) =
      shown_by (kind.own_of txn id) (kind.get_visible chain txn) >>= λ items.
      scan txn rest >>= λ more. ok (items ++ more)

  scan-mark_read :
      IsStable kind
      → (id : ℕ) (txn : MemTransaction V) (es : List (ℕ × VersionChain V D))
      → scan (kind.mark_read id txn) es ≡ scan txn es
  unfolding scan
  scan-mark_read stable id txn [] = refl
  scan-mark_read stable id txn ((k, chain) ∷ rest) =
      rw
        (stable.own_of id k txn, stable.get_visible id chain txn, scan-mark_read stable id txn rest)
        refl

  -- What an iterator has still to yield.
  abbrev pub remaining : ScanIterator V D → StorageResult (List D)
  remaining it = scan it.txn it.inner >>= λ items.
      ok (kept it.filters (items ++ drop it.pending_index it.pending_inserts))

  -- The answer of `next` against what is still to come.
  abbrev StepsTo : StorageResult (Option D × ScanIterator V D) → List D → Type 0
  StepsTo r [] = (it' : ScanIterator V D) × (r ≡ ok (none, it'))
  StepsTo r (item ∷ items) =
      (it' : ScanIterator V D) × (r ≡ ok (some item, it')) × (remaining it' ≡ ok items)

  next_pending-kept :
      (rest : List D) (it : ScanIterator V D)
      → it.inner ≡ []
      → drop it.pending_index it.pending_inserts ≡ rest
      → StepsTo (ok (next_pending kind rest it)) (kept it.filters rest)
  unfolding next_pending scan
  next_pending-kept [] it ended at = (record it { current = none }, refl)
  next_pending-kept (item ∷ rest) it ended at =
      let it' = record it { pending_index = it.pending_index + 1 } in
      let further : drop (it.pending_index + 1) it.pending_inserts ≡ rest =
        sym (drop-drop 1 it.pending_index it.pending_inserts) ∙ ap (λ l. drop 1 l) at in
      elim (Bool-cases (passes it.filters item)) [
        | inl shows ↦
            rw (next_pending, kept, shows)
              (record it' { current = some item }, refl, rw (ended, further) refl)
        | inr hides ↦ rw (next_pending, kept, hides) (next_pending-kept rest it' ended further)
      ]

  next_entry-kept :
      IsStable kind
      → (es : List (ℕ × VersionChain V D)) (it : ScanIterator V D) (items : List D)
      → scan it.txn es ≡ ok items
      → StepsTo
          (next_entry kind es it)
          (kept it.filters (items ++ drop it.pending_index it.pending_inserts))
  unfolding next_entry scan
  next_entry-kept stable [] it items got =
      subst
        (λ l.
          StepsTo (next_entry kind [] it)
            (kept it.filters (l ++ drop it.pending_index it.pending_inserts)))
        (ok-injective got)
        (next_pending-kept (drop it.pending_index it.pending_inserts) (record it { inner = [] })
          refl refl)
  next_entry-kept stable ((id, chain) ∷ rest) it items got =
      let (first, shows, got') =
        >>=-eq-ok (shown_by (kind.own_of it.txn id) (kind.get_visible chain it.txn)) _ got in
      let (more, others, got'') = >>=-eq-ok (scan it.txn rest) _ got' in
      subst
        (λ l.
          StepsTo (next_entry kind ((id, chain) ∷ rest) it)
            (kept it.filters (l ++ drop it.pending_index it.pending_inserts)))
        (ok-injective got'')
        (entry (kind.own_of it.txn id) (kind.get_visible chain it.txn) first more refl refl shows
          others (next_entry-kept stable rest it more others))
    where
      entry :
          (o : Own D) (r : StorageResult D) (first more : List D)
          → kind.own_of it.txn id ≡ o
          → kind.get_visible chain it.txn ≡ r
          → shown_by o r ≡ ok first
          → scan it.txn rest ≡ ok more
          → StepsTo
              (next_entry kind rest it)
              (kept it.filters (more ++ drop it.pending_index it.pending_inserts))
          → StepsTo
              (next_entry kind ((id, chain) ∷ rest) it)
              (kept it.filters ((first ++ more) ++ drop it.pending_index it.pending_inserts))
      entry skipped r first more is_own is_visible shows others further =
          rw (next_entry, is_own)
            (subst
              (λ l.
                StepsTo (next_entry kind rest it)
                  (kept it.filters ((l ++ more) ++ drop it.pending_index it.pending_inserts)))
              {x = []} (ok-injective shows) further)
      entry (own item) r first more is_own is_visible shows others further =
          subst
            (λ l.
              StepsTo (next_entry kind ((id, chain) ∷ rest) it)
                (kept it.filters ((l ++ more) ++ drop it.pending_index it.pending_inserts)))
            {x = item ∷ []} (ok-injective shows)
            (elim (Bool-cases (passes it.filters item)) [
              | inl passing ↦
                  rw (next_entry, kept, is_own, passing)
                    (record it { inner = rest; current = some item }, refl, rw others refl)
              | inr failing ↦ rw (next_entry, kept, is_own, failing) further
            ])
      entry no_intent (ok item) first more is_own is_visible shows others further =
          subst
            (λ l.
              StepsTo (next_entry kind ((id, chain) ∷ rest) it)
                (kept it.filters ((l ++ more) ++ drop it.pending_index it.pending_inserts)))
            {x = item ∷ []} (ok-injective shows)
            (elim (Bool-cases (passes it.filters item)) [
              | inl passing ↦
                  rw (next_entry, kept, is_own, is_visible, passing)
                    (
                      record it {
                        inner = rest;
                        txn = kind.mark_read id it.txn;
                        current = some item;
                      },
                      refl,
                      rw (scan-mark_read stable id it.txn rest, others) refl,
                    )
              | inr failing ↦ rw (next_entry, kept, is_own, is_visible, failing) further
            ])
      entry no_intent (err e) first more is_own is_visible shows others further =
          elim (Bool-cases (is_panic e)) [
            | inl panics ↦ cc (shows, panics)
            | inr skips ↦
                rw (next_entry, is_own, is_visible, skips)
                  (subst
                    (λ l.
                      StepsTo (next_entry kind rest it)
                        (kept it.filters ((l ++ more) ++ drop it.pending_index it.pending_inserts)))
                    {x = []} (ok-injective (rw skips at shows)) further)
          ]

  next-StepsTo :
      IsStable kind
      → (it : ScanIterator V D) (items : List D) → remaining it ≡ ok items
      → StepsTo (next kind it) items
  unfolding next
  next-StepsTo stable it items left =
      let (shows, got, same) = >>=-eq-ok (scan it.txn it.inner) _ left in
      subst (StepsTo (next kind it)) (ok-injective same)
        (next_entry-kept stable it.inner it shows got)

  pub take_items-remaining :
      IsStable kind
      → (n : ℕ) (it : ScanIterator V D) (items : List D) → remaining it ≡ ok items
      → (it' : ScanIterator V D) × (take_items kind n it ≡ ok (take n items, it'))
  unfolding take_items
  take_items-remaining stable zero it items left = (it, refl)
  take_items-remaining stable (suc n) it [] left =
      let (it', done) = next-StepsTo stable it [] left in (it', rw done refl)
  take_items-remaining stable (suc n) it (item ∷ items) left =
      let (it', found, left') = next-StepsTo stable it (item ∷ items) left in
      let (it'', more) = take_items-remaining stable n it' items left' in
      (it'', rw (found, more) refl)
