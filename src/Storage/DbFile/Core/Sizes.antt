-- ===== src/Storage/DbFile/Core/Sizes.antt =====
-- The sizes of the logs that are kept and rewritten in minigu/storage/src/db_file/core.rs.
use mini_gu.Base.{
  ℕ, ◌+◌, ◌^◌, ◌≤◌, ◌<◌, ◌≡◌, refl, sym, ap, subst, ◌∙◌, arith, Bool-cases, max, inl, inr, Option,
  none, some, List, [], ◌∷◌, ◌++◌, All, length, length-append, leb, ok,
}
use mathlib.Core.List.{append_assoc, append-nil}
use mini_gu.Transaction.Timestamp.{IsU64}
use mini_gu.Storage.Wal.{RedoEntry}
use mini_gu.Storage.Tp.Checkpoint.{GraphCheckpoint}
use mini_gu.Storage.DbFile.Bytes.{Bytes, IsU32}
use mini_gu.Storage.DbFile.Core.{
  Formats, DbFile, record_bytes, append_each, insert_by_lsn, sort_by_lsn, retained,
}
use mini_gu.Storage.DbFile.Core.Shape.{IsLog, nil, cons, Holds, IsCrc}
use mini_gu.Storage.DbFile.Core.Appended.{length-record_bytes, append_wal-Holds}

module _ {V : Type 0} where
  All-sort_by_lsn :
      (P : RedoEntry V → Type 0) (es : List (RedoEntry V)) → All P es → All P (sort_by_lsn es)
  unfolding sort_by_lsn
  All-sort_by_lsn P [] ps = tt
  All-sort_by_lsn P (e ∷ es) (p, ps) = placed (sort_by_lsn es) (All-sort_by_lsn P es ps)
    where
      placed : (l : List (RedoEntry V)) → All P l → All P (insert_by_lsn e l)
      placed [] qs = (p, tt)
      placed (x ∷ l) (q, qs) = elim (Bool-cases (leb e.lsn x.lsn)) [
        | inl before ↦ rw before (p, (q, qs))
        | inr after ↦ rw after (q, placed l qs)
      ]

  All-retained :
      (P : RedoEntry V → Type 0) (n : ℕ) (es : List (RedoEntry V))
      → All P es
      → All P (retained n es)
  unfolding retained
  All-retained P n [] ps = tt
  All-retained P n (e ∷ es) (p, ps) = elim (Bool-cases (leb n e.lsn)) [
    | inl kept ↦ rw (retained, kept) (p, All-retained P n es ps)
    | inr dropped ↦ rw (retained, dropped) (All-retained P n es ps)
  ]

module _ {V : Type 0} (formats : Formats V) where
  pub record Storable (entry : RedoEntry V) : Type 0 where
    pub payload : Bytes
    pub encoded : formats.entry.to_bytes entry ≡ some payload
    pub short : IsU32 (length payload)
    pub lsn : IsU64 entry.lsn

  -- The bytes that a record of the payload takes.
  abbrev record_size : Option Bytes → ℕ
  record_size none = 0
  record_size (some payload) = 8 + length payload

  abbrev pub log_size : List (RedoEntry V) → ℕ
  log_size [] = 0
  log_size (e ∷ es) = record_size (formats.entry.to_bytes e) + log_size es

  log_size-insert_by_lsn :
      (e : RedoEntry V) (es : List (RedoEntry V))
      → log_size (insert_by_lsn e es) ≡ log_size (e ∷ es)
  log_size-insert_by_lsn e [] = refl
  log_size-insert_by_lsn e (x ∷ es) = elim (Bool-cases (leb e.lsn x.lsn)) [
    | inl before ↦ rw before refl
    | inr after ↦ rw after (omega (arith, log_size-insert_by_lsn e es))
  ]

  log_size-sort_by_lsn : (es : List (RedoEntry V)) → log_size (sort_by_lsn es) ≡ log_size es
  unfolding sort_by_lsn
  log_size-sort_by_lsn [] = refl
  log_size-sort_by_lsn (e ∷ es) =
      log_size-insert_by_lsn e (sort_by_lsn es)
      ∙ ap (λ (k : ℕ). record_size (formats.entry.to_bytes e) + k) (log_size-sort_by_lsn es)

  log_size-retained : (n : ℕ) (es : List (RedoEntry V)) → log_size (retained n es) ≤ log_size es
  unfolding retained
  log_size-retained n [] = omega arith
  log_size-retained n (e ∷ es) = elim (Bool-cases (leb n e.lsn)) [
    | inl kept ↦ rw (retained, kept) (omega (arith, log_size-retained n es))
    | inr dropped ↦ rw (retained, dropped) (omega (arith, log_size-retained n es))
  ]

  pub length-log :
      {es : List (RedoEntry V)} {bytes : Bytes}
      → IsLog formats es bytes
      → length bytes ≡ log_size es
  length-log nil = refl
  length-log (cons {payload} {bytes} encoded short lsn log) = rw encoded (
      omega (
        arith,
        length-log log,
        length-append (record_bytes formats payload) bytes,
        length-record_bytes formats payload,
      ))

  Storable-log :
      {es : List (RedoEntry V)} {bytes : Bytes} → IsLog formats es bytes → All Storable es
  Storable-log nil = tt
  Storable-log (cons {payload} encoded short lsn log) =
      (record { payload = payload; encoded = encoded; short = short; lsn = lsn }, Storable-log log)

  -- Several appends.
  pub append_each-Holds :
      IsCrc formats
      → {checkpoint : Option (GraphCheckpoint V)} (kept : List (RedoEntry V)) {f : DbFile}
        {es : List (RedoEntry V)}
      → Holds formats f checkpoint es
      → All Storable kept
      → f.header.wal_offset + f.header.wal_length + log_size kept < 2 ^ 64
      → (f' : DbFile) × (append_each formats f kept ≡ ok f')
        × Holds formats f' checkpoint (es ++ kept)
        × (length f'.file
            ≤ max (length f.file) (f.header.wal_offset + f.header.wal_length + log_size kept))
  unfolding append_each
  append_each-Holds is_crc [] {f} {es} h all small =
      (f, refl, subst (Holds formats f _) (sym (append-nil es)) h, omega arith)
  append_each-Holds is_crc (e ∷ kept) {f} {es} h (s, all) small =
      let size : log_size (e ∷ kept) ≡ 8 + length s.payload + log_size kept = rw s.encoded refl in
      let (f', done, h', bound, grown) =
        append_wal-Holds formats is_crc h e s.payload s.encoded s.short s.lsn
          (omega (arith, small, size)) in
      let (f'', more, h'', bound') =
        append_each-Holds is_crc kept h' all (omega (arith, small, size, grown)) in
      (
        f'',
        rw done more,
        subst (Holds formats f'' _) (append_assoc es (e ∷ []) kept) h'',
        omega (arith, bound, bound', size, grown),
      )

  -- What is kept of a log is no longer than it, and can be stored again.
  pub kept_size :
      (n : ℕ) {es : List (RedoEntry V)} {bytes : Bytes}
      → IsLog formats es bytes
      → log_size (retained n (sort_by_lsn es)) ≤ length bytes
  kept_size n {es} log =
      omega (arith, log_size-retained n (sort_by_lsn es), log_size-sort_by_lsn es, length-log log)

  pub Storable-kept :
      (n : ℕ) {es : List (RedoEntry V)} {bytes : Bytes}
      → IsLog formats es bytes
      → All Storable (retained n (sort_by_lsn es))
  Storable-kept n {es} log =
      All-retained Storable n (sort_by_lsn es) (All-sort_by_lsn Storable es (Storable-log log))
