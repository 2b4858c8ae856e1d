-- ===== src/Storage/Tp/Recovery/Live.antt =====
-- The replay on the store itself: every call of the engine is the modelled operation. A handle is the
-- transaction's identifier, behind which its current state is found.
use mini_gu.Base.{ℕ, Bool, true, Option, none, some, List, ok, err, ◌>>=◌}
use mini_gu.Base.Assoc.{update}
use mini_gu.Transaction.Timestamp.{Timestamp}
use mini_gu.Storage.Error.{StorageResult, panicked}
use mini_gu.Storage.Wal.{RedoEntry}
use mini_gu.Storage.Tp.Txn.{MemTransaction}
use mini_gu.Storage.Tp.Store.{Store, Exec}
use mini_gu.Storage.Tp.VertexWrite.{create_vertex, set_vertex_property}
use mini_gu.Storage.Tp.EdgeWrite.{create_edge, set_edge_property}
use mini_gu.Storage.Tp.Delete.{delete_vertex, delete_edge}
use mini_gu.Storage.Tp.Manager.{World, begin_transaction_at}
use mini_gu.Storage.Tp.Manager.Finish.{Ended, handled, abort_at}
use mini_gu.Storage.Tp.Commit.{commit_at}
use mini_gu.Storage.Tp.Recovery.{Engine, apply_wal_entries}

pub record Recovering (V : Type 0) : Type 0 where
  pub world : World V
  pub txns : ℕ → Option (MemTransaction V)

module _ {V : Type 0} where
  abbrev put_back : Timestamp → MemTransaction V → World V → Recovering V → Recovering V
  put_back t txn w s = record { world = w; txns = update s.txns t (some txn) }

  abbrev ran :
      {A : Type 0}
      → Timestamp
      → Recovering V
      → StorageResult A × Store V
      → StorageResult (Recovering V)
  ran t s (r, st) = r >>= λ _. ok (put_back t st.txn (record s.world { graph = st.graph }) s)

  -- An operation under the transaction of a handle.
  abbrev run_under :
      {A : Type 0}
      → Option (MemTransaction V)
      → Timestamp
      → Exec V A
      → Recovering V
      → StorageResult (Recovering V)
  run_under none t m s = err panicked
  run_under (some txn) t m s = ran t s (m (record { graph = s.world.graph; txn = txn }))

  -- `mark_handled` after a commit or an abort that succeeded.
  abbrev ended_under :
      {A : Type 0} → Timestamp → Recovering V → Ended V A → StorageResult (Recovering V)
  ended_under t s (r, txn, w) = r >>= λ _. ok (put_back t (handled txn) w s)

  abbrev end_under :
      {A : Type 0}
      → Option (MemTransaction V)
      → (MemTransaction V → World V → Ended V A)
      → Timestamp
      → Recovering V
      → StorageResult (Recovering V)
  end_under none f t s = err panicked
  end_under (some txn) f t s = ended_under t s (f txn s.world)

  abbrev begun_under :
      Timestamp
      → Recovering V
      → StorageResult (MemTransaction V) × World V
      → StorageResult (Timestamp × Recovering V)
  begun_under t s (r, w) = r >>= λ txn. ok (t, put_back t txn w s)

module _ {V : Type 0} (differs : V → V → Bool) where
  unfoldable pub live_engine : Engine V (Recovering V) Timestamp
  unfolding begin_transaction_at commit_at abort_at create_vertex create_edge delete_vertex
      delete_edge set_vertex_property set_edge_property
  live_engine = record {
    set_next_lsn = λ s lsn. record s { world = record s.world { next_lsn = lsn } };
    begin_transaction_at = λ s txn_id start_ts level. begun_under txn_id s (
        begin_transaction_at (some txn_id) (some start_ts) level
          s.world.manager.default_lock_strategy true s.world);
    commit_at = λ t ts s. end_under (s.txns t) (commit_at differs (some ts) true) t s;
    abort_at = λ t s. end_under (s.txns t) (abort_at true) t s;
    create_vertex = λ t vertex s. run_under (s.txns t) t (create_vertex vertex) s;
    create_edge = λ t edge s. run_under (s.txns t) t (create_edge edge) s;
    delete_vertex = λ t vid s. run_under (s.txns t) t (delete_vertex vid) s;
    delete_edge = λ t eid s. run_under (s.txns t) t (delete_edge eid) s;
    set_vertex_property =
        λ t vid indices props s. run_under (s.txns t) t (set_vertex_property vid indices props) s;
    set_edge_property =
        λ t eid indices props s. run_under (s.txns t) t (set_edge_property eid indices props) s;
  }

  unfoldable pub recovered : List (RedoEntry V) → World V → StorageResult (World V)
  unfolding live_engine apply_wal_entries
  recovered entries w =
      apply_wal_entries live_engine entries (record { world = w; txns = λ _. none }) >>= λ s.
      ok s.world
