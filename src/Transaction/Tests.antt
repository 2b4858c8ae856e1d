-- ===== src/Transaction/Tests.antt =====
-- The theorems of this directory on concrete counters and threads.
use mini_gu.Base.{
  ◌+◌, ◌<◌, ◌≤◌, ◌≡◌, ◌↔◌, ◌⊎◌, refl, true, not, [], ◌∷◌, none, some, ok, err, inl, arith,
}
use mini_gu.Transaction.Timestamp.{
  IsU64, txn_id_start, commit_ts_overflow, wrong_domain_commit, max_commit_ts, is_txn_id,
  is_commit_ts, timestamp_domains,
}
use mini_gu.Transaction.GlobalTimestamp
use mini_gu.Transaction.GlobalTimestamp.{next-is_commit_ts, update_if_greater_lem}
use mini_gu.Transaction.TransactionId
use mini_gu.Transaction.TransactionId.{next-is_txn_id}
use mini_gu.Transaction.Counter.{round}
use mini_gu.Transaction.Counter.Race.{
  System, start, load, exchange, Reach, here, next, at_thread, after_round, IsFresh, Reach-IsFresh,
}

timestamp_domains_example :
    ((is_commit_ts 42 ≡ true) ↔ (42 ≤ max_commit_ts))
    × ((is_txn_id 42 ≡ true) ↔ (max_commit_ts < 42))
    × (is_txn_id 42 ≡ not (is_commit_ts 42))
timestamp_domains_example = timestamp_domains 42 (omega arith)

seven_handed_out : (GlobalTimestamp.next 7).1 ≡ ok 7
unfolding GlobalTimestamp.next round
seven_handed_out = refl

next-is_commit_ts_example :
    (is_commit_ts 7 ≡ true) × (7 < max_commit_ts) × (7 < (GlobalTimestamp.next 7).0)
next-is_commit_ts_example = next-is_commit_ts 7 seven_handed_out

id_handed_out : (TransactionId.next (txn_id_start + 1)).1 ≡ ok (txn_id_start + 1)
unfolding TransactionId.next round
id_handed_out = refl

next-is_txn_id_example :
    (is_txn_id (txn_id_start + 1) ≡ true)
    × (txn_id_start + 1 < (TransactionId.next (txn_id_start + 1)).0)
    × (txn_id_start ≤ (TransactionId.next (txn_id_start + 1)).0)
    × IsU64 (TransactionId.next (txn_id_start + 1)).0
next-is_txn_id_example = next-is_txn_id (txn_id_start + 1) (omega arith) (omega arith) id_handed_out

update_if_greater_lem_example :
    ((9 < max_commit_ts)
      × ((GlobalTimestamp.update_if_greater 4 9).1 ≡ ok tt)
      × ((GlobalTimestamp.update_if_greater 4 9).0 ≡ 10)
      × (9 < (GlobalTimestamp.update_if_greater 4 9).0)
      × (4 ≤ (GlobalTimestamp.update_if_greater 4 9).0))
    ⊎ ((9 ≡ max_commit_ts)
        × (GlobalTimestamp.update_if_greater 4 9 ≡ (4, err (commit_ts_overflow 9))))
    ⊎ ((max_commit_ts < 9)
        × (GlobalTimestamp.update_if_greater 4 9 ≡ (4, err (wrong_domain_commit 9))))
update_if_greater_lem_example = update_if_greater_lem 4 9 (omega arith)

-- Two threads load 5; the first exchanges and gets 5; the second fails and is to go round again.
abbrev raced : System
raced = record {
  counter = 6;
  seen =
      at_thread (at_thread (at_thread (at_thread (λ _. none) 0 (some 5)) 1 (some 5)) 0 none) 1
        (some 6);
  handed_out = 5 ∷ [];
}

race : Reach GlobalTimestamp.full (start 5) raced
unfolding start after_round round
race =
    next (next (next (next here (load 0 refl)) (load 1 refl)) (exchange 0 5 refl))
      (exchange 1 5 refl)

Reach-IsFresh_example : IsFresh raced
Reach-IsFresh_example = Reach-IsFresh 5 (omega arith) (inl race)
