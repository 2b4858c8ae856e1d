-- ===== src/Storage/DbFile/Core/Record.antt =====
-- Reading one record of minigu/storage/src/db_file/core.rs, and the checkpoint.
use mini_gu.Base.{
  ℕ, ◌≡◌, refl, sym, ap, ◌∙◌, arith, Bool-cases, true, false, inl, inr, Option, none, some, List,
  ◌++◌, length, drop, ok, ◌==◌, ◌⊎◌, ==_refl,
}
use mini_gu.Base.Slices.{drop-length}
use mathlib.Core.Path.{ap₂}
use mathlib.Core.List.{append_assoc}
use mini_gu.Storage.Wal.{RedoEntry}
use mini_gu.Storage.Tp.Checkpoint.{GraphCheckpoint}
use mini_gu.Storage.DbFile.Bytes.{
  Bytes, IsU32, as_u32, to_le_bytes, read_le, read_le-append, read_exact-append,
}
use mini_gu.Storage.DbFile.Error.{DbFileError}
use mini_gu.Storage.DbFile.Flags.{has, has_checkpoint}
use mini_gu.Storage.DbFile.Header.{header_bytes}
use mini_gu.Storage.DbFile.Core.{
  Codec, Formats, DbFile, record_bytes, check_crc, read_checkpoint, read_entry,
}
use mini_gu.Storage.DbFile.Core.Shape.{IsCheckpoint, nothing, just, Holds, IsCrc, length-Describes}
use mini_gu.Storage.DbFile.Core.Appended.{length-record_bytes}

-- What was serialized is deserialized again, as `postcard` documents.
abbrev pub IsCodec : {A : Type 0} → Codec A → Type 0
IsCodec {A} codec =
    (a : A) (bytes : Bytes) → codec.to_bytes a ≡ some bytes → codec.from_bytes bytes ≡ some a

module _ {V : Type 0} (formats : Formats V) where
  -- The three parts of a record.
  pub read_length :
      (payload rest : Bytes)
      → IsU32 (length payload)
      → read_le 4 (record_bytes formats payload ++ rest)
        ≡ ok (length payload, to_le_bytes 4 (formats.crc32 payload) ++ (payload ++ rest))
  unfolding record_bytes
  read_length payload rest short =
      let sum = to_le_bytes 4 (formats.crc32 payload) in
      ap (read_le 4) (
        append_assoc (to_le_bytes 4 (as_u32 (length payload))) (sum ++ payload) rest
        ∙ ap (λ l. to_le_bytes 4 (as_u32 (length payload)) ++ l) (append_assoc sum payload rest))
      ∙ read_le-append 4 (as_u32 (length payload)) _ (omega arith)
      ∙ ap (λ (k : ℕ). ok (k, sum ++ (payload ++ rest))) {x = as_u32 (length payload)}
          (omega (arith, short))

  checked :
      (payload : Bytes) (e : DbFileError)
      → check_crc formats payload (formats.crc32 payload) e ≡ ok tt
  unfolding check_crc
  checked payload e = rw (==_refl (formats.crc32 payload)) refl

  read_checkpoint-none :
      (f : DbFile) → f.header.checkpoint_length ≡ 0 → read_checkpoint formats f ≡ ok none
  unfolding read_checkpoint
  read_checkpoint-none f empty = elim (Bool-cases (has f.header.flags has_checkpoint)) [
    | inl marked ↦ rw (marked, ap (λ k. k == 0) empty) refl
    | inr unmarked ↦ rw unmarked refl
  ]

  read_checkpoint-some :
      IsCrc formats
      → (f : DbFile) (checkpoint : GraphCheckpoint V) (payload rest : Bytes)
      → has f.header.flags has_checkpoint ≡ true
      → (f.header.checkpoint_length == 0) ≡ false
      → drop f.header.checkpoint_offset f.file ≡ record_bytes formats payload ++ rest
      → IsU32 (length payload)
      → formats.checkpoint.from_bytes payload ≡ some checkpoint
      → read_checkpoint formats f ≡ ok (some checkpoint)
  unfolding read_checkpoint
  read_checkpoint-some is_crc f checkpoint payload rest marked long at short decoded =
      rw
        (
          marked,
          long,
          at,
          read_length payload rest short,
          read_le-append 4 (formats.crc32 payload) (payload ++ rest) (is_crc payload),
          read_exact-append (length payload) payload rest refl,
          checked payload,
          decoded,
        )
        refl

  read_region :
      IsCrc formats
      → IsCodec formats.checkpoint
      → (f : DbFile) {checkpoint : Option (GraphCheckpoint V)} {region : Bytes} (rest : Bytes)
      → IsCheckpoint formats checkpoint region
      → drop f.header.checkpoint_offset f.file ≡ region ++ rest
      → f.header.checkpoint_length ≡ length region
      → (has f.header.flags has_checkpoint ≡ true) ⊎ (checkpoint ≡ none)
      → read_checkpoint formats f ≡ ok checkpoint
  read_region is_crc is_codec f rest nothing at size flag = read_checkpoint-none f size
  read_region is_crc is_codec f rest (just {checkpoint} {payload} encoded short) at size
        (inl marked) =
      read_checkpoint-some is_crc f checkpoint payload rest marked
        (ground (arith, size, length-record_bytes formats payload)) at short
        (is_codec checkpoint payload encoded)
  read_region is_crc is_codec f rest (just encoded short) at size (inr gone) = cc

  -- The checkpoint of a file is read back.
  pub read_checkpoint-Holds :
      IsCrc formats
      → IsCodec formats.checkpoint
      → {f : DbFile} {checkpoint : Option (GraphCheckpoint V)} {es : List (RedoEntry V)}
      → Holds formats f checkpoint es
      → read_checkpoint formats f ≡ ok checkpoint
  read_checkpoint-Holds is_crc is_codec {f} h =
      read_region is_crc is_codec f (h.wal_region ++ h.rest) h.is_checkpoint
        (ap₂ drop (h.header.checkpoint_offset ∙ sym (length-Describes formats h.header)) h.shape
          ∙ drop-length (header_bytes f.header) _)
        h.header.checkpoint_length h.checkpoint_flag

  pub read_entry-record :
      IsCrc formats
      → IsCodec formats.entry
      → (entry : RedoEntry V) (payload rest : Bytes) (offset : ℕ)
      → formats.entry.to_bytes entry ≡ some payload
      → read_entry formats
          (length payload)
          (to_le_bytes 4 (formats.crc32 payload) ++ (payload ++ rest))
          offset
        ≡ ok entry
  unfolding read_entry
  read_entry-record is_crc is_codec entry payload rest offset encoded =
      rw
        (
          read_le-append 4 (formats.crc32 payload) (payload ++ rest) (is_crc payload),
          read_exact-append (length payload) payload rest refl,
          checked payload,
          is_codec entry payload encoded,
        )
        refl
