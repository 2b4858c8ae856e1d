-- ===== src/Storage/Tp/Recovery/Serial.antt =====
-- `apply_wal_entries` on a log in which no transaction begins before the last one ended.
use mini_gu.Base.{
  ℕ, ◌+◌, ◌≡◌, refl, List, [], ◌∷◌, ◌++◌, none, some, ok, Result-cases, inl, inr, ◌>>=◌,
}
use mini_gu.Transaction.Timestamp.{Timestamp}
use mini_gu.Transaction.Options.{IsolationLevel}
use mini_gu.Storage.Error.{StorageResult}
use mini_gu.Storage.Model.Delta.{DeltaOp}
use mini_gu.Storage.Wal.{
  Operation, begin_transaction, commit_transaction, abort_transaction, delta, RedoEntry,
}
use mini_gu.Storage.Tp.Recovery.{Engine, apply_delta, apply_entry, replay}

pub data Ending : Type 0 where
  committed_at : Timestamp → Ending
  aborted : Ending

-- A transaction as the log tells it: each change with the sequence number of its entry.
pub record Logged (V : Type 0) : Type 0 where
  pub txn_id : Timestamp
  pub start_ts : Timestamp
  pub iso_level : IsolationLevel
  pub begin_lsn : ℕ
  pub changes : List (ℕ × DeltaOp V)
  pub end_lsn : ℕ
  pub ending : Ending

module _ {V : Type 0} where
  abbrev pub entry_of : Logged V → ℕ → Operation V → RedoEntry V
  entry_of l lsn op = record { lsn = lsn; txn_id = l.txn_id; iso_level = l.iso_level; op = op }

  abbrev pub change_entries : Logged V → List (ℕ × DeltaOp V) → List (RedoEntry V)
  change_entries l [] = []
  change_entries l ((lsn, op) ∷ changes) = entry_of l lsn (delta op) ∷ change_entries l changes

  abbrev pub ending_op : Ending → Operation V
  ending_op (committed_at ts) = commit_transaction ts
  ending_op aborted = abort_transaction

  abbrev pub entries_of : Logged V → List (RedoEntry V)
  entries_of l =
      entry_of l l.begin_lsn (begin_transaction l.start_ts)
      ∷ (change_entries l l.changes ++ (entry_of l l.end_lsn (ending_op l.ending) ∷ []))

  abbrev pub serial_log : List (Logged V) → List (RedoEntry V)
  serial_log [] = []
  serial_log (l ∷ ls) = entries_of l ++ serial_log ls

module _ {V S T : Type 0} (engine : Engine V S T) where
  -- What a transaction does when it runs again alone: its changes under one handle, in order.
  abbrev pub run_changes : T → List (ℕ × DeltaOp V) → S → StorageResult S
  run_changes t [] s = ok s
  run_changes t ((lsn, op) ∷ changes) s =
      apply_delta engine t op (engine.set_next_lsn s (lsn + 1)) >>= λ s'. run_changes t changes s'

  abbrev pub run_ending : T → Ending → S → StorageResult S
  run_ending t (committed_at ts) s = engine.commit_at t ts s
  run_ending t aborted s = engine.abort_at t s

  abbrev pub run_again : Logged V → S → StorageResult S
  run_again l s =
      engine.begin_transaction_at (engine.set_next_lsn s (l.begin_lsn + 1)) l.txn_id l.start_ts
        l.iso_level
      >>= λ (t, s'). run_changes t l.changes s' >>= λ s''.
          run_ending t l.ending (engine.set_next_lsn s'' (l.end_lsn + 1))

  abbrev pub run_all : List (Logged V) → S → StorageResult S
  run_all [] s = ok s
  run_all (l ∷ ls) s = run_again l s >>= λ s'. run_all ls s'

  pub replay-changes :
      (l : Logged V) (changes : List (ℕ × DeltaOp V)) (rest : List (RedoEntry V)) (t : T) (s : S)
      → replay engine (change_entries l changes ++ rest) (some t) s
        ≡ (run_changes t changes s >>= λ s'. replay engine rest (some t) s')
  unfolding replay apply_entry
  replay-changes l [] rest t s = refl
  replay-changes l ((lsn, op) ∷ changes) rest t s =
      elim (Result-cases (apply_delta engine t op (engine.set_next_lsn s (lsn + 1)))) [
        | inl (s', e) ↦ rw e (replay-changes l changes rest t s')
        | inr (x, e) ↦ rw e
      ]

  pub replay-ending :
      (l : Logged V) (rest : List (RedoEntry V)) (t : T) (s : S)
      → replay engine (entry_of l l.end_lsn (ending_op l.ending) ∷ rest) (some t) s ≡ (
          run_ending t l.ending (engine.set_next_lsn s (l.end_lsn + 1)) >>= λ s'.
          replay engine rest none s')
  unfolding replay apply_entry
  replay-ending l rest t s = ending l.ending
    where
      ending :
          (e : Ending)
          → (apply_entry engine
                (ending_op e)
                (entry_of l l.end_lsn (ending_op e))
                (some t)
                (engine.set_next_lsn s (l.end_lsn + 1))
              >>= λ (txn', s'). replay engine rest txn' s')
            ≡ (run_ending t e (engine.set_next_lsn s (l.end_lsn + 1)) >>= λ s'.
                replay engine rest none s')
      ending (committed_at ts) =
          elim (Result-cases (engine.commit_at t ts (engine.set_next_lsn s (l.end_lsn + 1)))) [
            | inl (s', e) ↦ rw e
            | inr (x, e) ↦ rw e
          ]
      ending aborted =
          elim (Result-cases (engine.abort_at t (engine.set_next_lsn s (l.end_lsn + 1)))) [
            | inl (s', e) ↦ rw e
            | inr (x, e) ↦ rw e
          ]
