-- ===== src/Transaction/Options.antt =====
-- minigu/transaction/src/transaction.rs.
pub data IsolationLevel : Type 0 where
  snapshot serializable : IsolationLevel

pub data LockStrategy : Type 0 where
  pessimistic optimistic : LockStrategy

pub record TxnOptions : Type 0 where
  pub default_lock : LockStrategy
  pub default_isolation : IsolationLevel

-- `TxnOptions::default`
abbrev pub default_options : TxnOptions
default_options = record { default_lock = pessimistic; default_isolation = snapshot }
