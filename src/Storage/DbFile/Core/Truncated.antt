-- ===== src/Storage/DbFile/Core/Truncated.antt =====
-- `truncate_wal_until` of minigu/storage/src/db_file/core.rs.
use mini_gu.Base.{
  ℕ, ◌-◌, ◌≤◌, ◌≡◌, refl, sym, ap, ◌∙◌, arith, Bool, true, false, Bool-cases, inl, inr, Option,
  List, [], ◌++◌, length, length-append, ok, ◌==◌, if◌then◌else◌, ==_iff,
}
use mini_gu.Storage.Wal.{RedoEntry}
use mini_gu.Storage.Tp.Checkpoint.{GraphCheckpoint}
use mini_gu.Storage.DbFile.Flags.{
  DbFileFlags, IsFlags, without_wal, has, has_checkpoint, without_wal_lem, clear,
}
use mini_gu.Storage.DbFile.Header.{update_crc, header_bytes}
use mini_gu.Storage.DbFile.Core.{
  Formats, DbFile, write_header, reset_header, is_empty, sort_by_lsn, retained, truncate_wal_until,
}
use mini_gu.Storage.DbFile.Core.Shape.{
  nil, Describes, Holds, IsCrc, length-Holds, length-Describes, write_header-append,
}
use mini_gu.Storage.DbFile.Core.Appended.{compute_crc-update_crc}
use mini_gu.Storage.DbFile.Core.Record.{IsCodec}
use mini_gu.Storage.DbFile.Core.Sizes.{log_size, append_each-Holds, kept_size, Storable-kept}
use mini_gu.Storage.DbFile.Core.Read.{read_wal_entries-Holds}

module _ {V : Type 0} where
  -- What a truncation leaves of a log: all of it if there is nothing to remove, and else what is kept
  -- of the sorted log.
  unfoldable pub left_over : ℕ → List (RedoEntry V) → List (RedoEntry V)
  left_over min_lsn es =
      let kept = retained min_lsn (sort_by_lsn es) in
      if length (sort_by_lsn es) - length kept == 0 then es else kept

module _ {V : Type 0} (formats : Formats V) where
  reset-IsFlags :
      (bits : DbFileFlags) (drop_flag : Bool)
      → IsFlags bits
      → (has (if drop_flag then without_wal bits else bits) has_checkpoint
          ≡ has bits has_checkpoint)
        × IsFlags (if drop_flag then without_wal bits else bits)
  reset-IsFlags bits true h = ((without_wal_lem bits h).1, (without_wal_lem bits h).2)
  reset-IsFlags bits false h = (refl, h)

  -- The header of the empty log, before the kept entries are written again.
  reset-Holds :
      {checkpoint : Option (GraphCheckpoint V)} {f : DbFile} {es : List (RedoEntry V)}
      (h : Holds formats f checkpoint es) (kept : List (RedoEntry V))
      → (f' : DbFile) × (write_header
            (record f { header = update_crc formats.crc32 (reset_header f.header kept) })
          ≡ ok f')
        × Holds formats f' checkpoint []
        × (length f'.file ≡ length f.file)
        × (f'.header.wal_offset ≡ f.header.wal_offset)
        × (f'.header.wal_length ≡ 0)
  unfolding update_crc clear
  reset-Holds {checkpoint} {f} h kept =
      let d = h.header in
      let header' = update_crc formats.crc32 (reset_header f.header kept) in
      let flags = reset-IsFlags f.header.flags (is_empty kept) d.flags in
      let described : Describes formats header' (length h.checkpoint_region) 0 = record {
        magic = d.magic;
        version = d.version;
        size = d.size;
        flags = flags.1;
        checkpoint_offset = d.checkpoint_offset;
        checkpoint_length = d.checkpoint_length;
        wal_offset = d.wal_offset;
        wal_length = refl;
        last_lsn = d.last_lsn;
        last_commit_ts = d.last_commit_ts;
        crc = sym (compute_crc-update_crc formats (reset_header f.header kept));
      } in
      let file' =
        header_bytes header' ++ (h.checkpoint_region ++ ([] ++ (h.wal_region ++ h.rest))) in
      let f' : DbFile = record { file = file'; header = header' } in
      let bound : length f'.file ≡ length f.file = omega (
        arith,
        ap length h.shape,
        length-Describes formats d,
        length-Describes formats described,
        length-append (header_bytes f.header) (h.checkpoint_region ++ (h.wal_region ++ h.rest)),
        length-append (header_bytes header') (h.checkpoint_region ++ (h.wal_region ++ h.rest)),
      ) in
      (
        f',
        ap (λ b. write_header (record { file = b; header = header' })) h.shape
            ∙ write_header-append f.header header' _ (length-Describes formats d)
                (length-Describes formats described) described.size,
        record {
          checkpoint_region = h.checkpoint_region;
          wal_region = [];
          rest = h.wal_region ++ h.rest;
          shape = refl;
          is_checkpoint = h.is_checkpoint;
          is_log = nil;
          header = described;
          small = omega (arith, bound, h.small);
          checkpoint_flag = elim h.checkpoint_flag [
            | inl marked ↦ inl (flags.0 ∙ marked)
            | inr none_yet ↦ inr none_yet
          ];
          wal_flag = inr refl;
        },
        bound,
        refl,
        refl,
      )

  -- A truncation succeeds, gives the number of entries that were removed, leaves the others, and does
  -- not make the file longer.
  pub truncate_wal_until-Holds :
      IsCrc formats
      → IsCodec formats.entry
      → {checkpoint : Option (GraphCheckpoint V)} {f : DbFile} {es : List (RedoEntry V)}
      → Holds formats f checkpoint es
      → (min_lsn : ℕ)
      → (f' : DbFile) × (truncate_wal_until formats f min_lsn
          ≡ ok (length (sort_by_lsn es) - length (retained min_lsn (sort_by_lsn es)), f'))
        × Holds formats f' checkpoint (left_over min_lsn es)
        × (length f'.file ≤ length f.file)
  unfolding truncate_wal_until left_over
  truncate_wal_until-Holds is_crc is_codec {checkpoint} {f} {es} h min_lsn =
      let kept = retained min_lsn (sort_by_lsn es) in
      let d = h.header in
      elim (Bool-cases (length (sort_by_lsn es) - length kept == 0)) [
        | inl nothing ↦ (
          f,
          rw (read_wal_entries-Holds formats is_crc is_codec h, nothing)
              (ap (λ (k : ℕ). ok (k, f))
                (sym ((==_iff (length (sort_by_lsn es) - length kept) 0).0 nothing))),
          rw nothing h,
          omega arith,
        )
        | inr some_go ↦
            let (f', reset, h', same, at, empty) = reset-Holds h kept in
            let fits : log_size formats kept ≤ length h.wal_region =
              omega (arith, kept_size formats min_lsn h.is_log) in
            let (f'', done, h'', bound) =
              append_each-Holds formats is_crc kept h' (Storable-kept formats min_lsn h.is_log)
                (omega (arith, at, empty, fits, d.wal_offset, length-Holds formats h, h.small)) in
            (
              f'',
              rw (read_wal_entries-Holds formats is_crc is_codec h, some_go, reset, done) refl,
              rw some_go h'',
              omega (arith, bound, same, at, empty, fits, d.wal_offset, length-Holds formats h),
            )
      ]
