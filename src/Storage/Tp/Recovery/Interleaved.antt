-- ===== src/Storage/Tp/Recovery/Interleaved.antt =====
-- A log in which two transactions overlap: `begin_transaction_at` writes a begin to the log at once,
-- and a commit writes all its changes together, so two open transactions give such a log.
use mathlib.Core.List.{append_assoc}
use mini_gu.Base.{
  ℕ, ◌+◌, ◌≡◌, refl, ap, ◌∙◌, List, [], ◌∷◌, ◌++◌, none, some, ok, Result-cases, inl, inr, ◌>>=◌,
}
use mini_gu.Storage.Model.Delta.{DeltaOp}
use mini_gu.Storage.Wal.{begin_transaction, RedoEntry}
use mini_gu.Storage.Tp.Recovery.{Engine, apply_entry, replay, apply_wal_entries}
use mini_gu.Storage.Tp.Recovery.Serial.{
  Ending, committed_at, aborted, Logged, entry_of, change_entries, ending_op, run_changes,
  run_ending, replay-changes, replay-ending,
}

module _ {V : Type 0} where
  -- A transaction's changes and its end, as its commit writes them.
  abbrev pub closing : Logged V → List (RedoEntry V)
  closing l = change_entries l l.changes ++ (entry_of l l.end_lsn (ending_op l.ending) ∷ [])

  -- Both begin; then the first ends; then the second.
  abbrev pub overlapping : Logged V → Logged V → List (RedoEntry V)
  overlapping a b =
      entry_of a a.begin_lsn (begin_transaction a.start_ts)
      ∷ entry_of b b.begin_lsn (begin_transaction b.start_ts)
      ∷ (closing a ++ closing b)

module _ {V S T : Type 0} (engine : Engine V S T) where
  -- The sequence numbers alone.
  abbrev pub skip_changes : List (ℕ × DeltaOp V) → S → S
  skip_changes [] s = s
  skip_changes ((lsn, op) ∷ changes) s = skip_changes changes (engine.set_next_lsn s (lsn + 1))

  -- With no transaction open, changes and an end change nothing but the next sequence number.
  replay_skips :
      (l : Logged V) (changes : List (ℕ × DeltaOp V)) (s : S)
      → replay engine
          (change_entries l changes ++ (entry_of l l.end_lsn (ending_op l.ending) ∷ []))
          none
          s
        ≡ ok (engine.set_next_lsn (skip_changes changes s) (l.end_lsn + 1))
  unfolding replay apply_entry
  replay_skips l [] s = ending l.ending
    where
      ending :
          (e : Ending)
          → replay engine (entry_of l l.end_lsn (ending_op e) ∷ []) none s
            ≡ ok (engine.set_next_lsn s (l.end_lsn + 1))
      ending (committed_at ts) = refl
      ending aborted = refl
  replay_skips l ((lsn, op) ∷ changes) s = replay_skips l changes (engine.set_next_lsn s (lsn + 1))

  -- Of two overlapping transactions the replay loses the second: the changes of the first are made
  -- under the handle of the second, which then ends as the first did, at the first one's timestamp;
  -- the second one's own changes and its end are passed over, whether it was committed or not; and
  -- the handle of the first is never ended.
  pub apply_wal_entries-overlapping :
      (a b : Logged V) (s : S)
      → apply_wal_entries engine (overlapping a b) s ≡ (
          engine.begin_transaction_at
            (engine.set_next_lsn s (a.begin_lsn + 1))
            a.txn_id
            a.start_ts
            a.iso_level
          >>= λ (ta, s1).
              engine.begin_transaction_at
                (engine.set_next_lsn s1 (b.begin_lsn + 1))
                b.txn_id
                b.start_ts
                b.iso_level
              >>= λ (tb, s2). run_changes engine tb a.changes s2 >>= λ s3.
                  run_ending engine tb a.ending (engine.set_next_lsn s3 (a.end_lsn + 1)) >>= λ s4.
                  ok (engine.set_next_lsn (skip_changes b.changes s4) (b.end_lsn + 1)))
  unfolding apply_wal_entries replay apply_entry
  apply_wal_entries-overlapping a b s =
      elim (Result-cases (
        engine.begin_transaction_at (engine.set_next_lsn s (a.begin_lsn + 1)) a.txn_id a.start_ts
          a.iso_level)) [
            | inr (x, e) ↦ rw e
            | inl ((ta, s1), e) ↦
                rw e
                  (elim (Result-cases (
                    engine.begin_transaction_at (engine.set_next_lsn s1 (b.begin_lsn + 1)) b.txn_id
                      b.start_ts b.iso_level)) [
                        | inr (x, e') ↦ rw e'
                        | inl ((tb, s2), e') ↦ rw e' (
                            ap (λ es. replay engine es (some tb) s2)
                              (append_assoc (change_entries a a.changes) _ (closing b))
                            ∙ replay-changes engine a a.changes _ tb s2
                            ∙ elim (Result-cases (run_changes engine tb a.changes s2)) [
                              | inr (x, e'') ↦ rw e''
                              | inl (s3, e'') ↦ rw e'' (
                                  replay-ending engine a (closing b) tb s3
                                  ∙ elim (Result-cases (
                                      run_ending engine tb a.ending
                                        (engine.set_next_lsn s3 (a.end_lsn + 1)))) [
                                          | inr (x, f) ↦ rw f
                                          | inl (s4, f) ↦ rw f (replay_skips b b.changes s4)
                                        ])
                            ])
                      ])
          ]
