-- ===== src/Storage/DbFile/Header/RoundTrip.antt =====
-- Writing a header of minigu/storage/src/db_file/header.rs and reading it.
use mini_gu.Base.{
  ℕ, ◌-◌, ◌^◌, ◌≤◌, ◌<◌, ◌≡◌, refl, sym, ap, ◌∙◌, arith, true, false, [], ◌∷◌, ◌++◌, ◌==◌, ==_refl,
  ==_iff, Bool-cases, inl, inr, ◌≢◌, length, ok, err, ◌>>◌,
}
use mathlib.Core.List.{append_assoc}
use mathlib.Core.Path.{ap₂}
use mathlib.Core.Bool.{true≢false}
use mini_gu.Storage.DbFile.Bytes.{Bytes, to_le_bytes, zeros, read_exact-append, read_le-append}
use mini_gu.Storage.DbFile.Error.{
  DbFileResult, invalid_magic, unsupported_version, header_checksum_mismatch,
}
use mini_gu.Storage.DbFile.Header.{
  current_version, DbFileHeader, magic_bytes, equal, validate_magic, validate_version, validate_crc,
  fields, compute_crc, read_from, header_bytes,
}

-- The fields fit their types.
pub record Fits (h : DbFileHeader) : Type 0 where
  pub magic : length h.magic ≡ 8
  pub version : h.version < 256 ^ 4
  pub size : h.header_size < 256 ^ 4
  pub flags : h.flags < 256 ^ 4
  pub checkpoint_offset : h.checkpoint_offset < 256 ^ 8
  pub checkpoint_length : h.checkpoint_length < 256 ^ 8
  pub wal_offset : h.wal_offset < 256 ^ 8
  pub wal_length : h.wal_length < 256 ^ 8
  pub last_lsn : h.last_lsn < 256 ^ 8
  pub last_commit_ts : h.last_commit_ts < 256 ^ 8
  pub crc : h.header_crc < 256 ^ 4

fields-append : (h : DbFileHeader) (xs ys : Bytes) → fields h xs ++ ys ≡ fields h (xs ++ ys)
unfolding fields
fields-append h xs ys = simp append_assoc refl

equal_refl : (bs : Bytes) → equal bs bs ≡ true
unfolding equal
equal_refl [] = refl
equal_refl (b ∷ bs) = rw (==_refl b, equal_refl bs) refl

equal-eq : (as_ bs : Bytes) → equal as_ bs ≡ true → as_ ≡ bs
unfolding equal
equal-eq [] [] h = refl
equal-eq [] (b ∷ bs) h = cc
equal-eq (a ∷ as_) [] h = cc
equal-eq (a ∷ as_) (b ∷ bs) h = elim (Bool-cases (a == b)) [
  | inl same ↦ ap₂ ◌∷◌ ((==_iff a b).0 same) (equal-eq as_ bs (rw same at h))
  | inr other ↦ absurd (true≢false (sym (rw other at h)))
]

equal-ne : (as_ bs : Bytes) → as_ ≢ bs → equal as_ bs ≡ false
equal-ne as_ bs h = elim (Bool-cases (equal as_ bs)) [
  | inl same ↦ absurd (h (equal-eq as_ bs same))
  | inr other ↦ other
]

module _ (crc32 : Bytes → ℕ) where
  -- The checks of `read_from`.
  abbrev validated : DbFileHeader → DbFileResult DbFileHeader
  validated h = validate_magic h >> (validate_version h >> (validate_crc crc32 h >> ok h))

  read_from_checks :
      (h : DbFileHeader) (rest : Bytes)
      → Fits h
      → read_from crc32 (header_bytes h ++ rest) ≡ validated h
  unfolding read_from header_bytes
  read_from_checks h rest w =
      rw
        (
          fields-append h (to_le_bytes 4 h.header_crc ++ zeros (h.header_size - 72)) rest,
          append_assoc (to_le_bytes 4 h.header_crc) (zeros (h.header_size - 72)) rest,
        )
        (unfold fields in
          rw
            (
              read_exact-append 8 h.magic _ w.magic,
              read_le-append 4 h.version _ w.version,
              read_le-append 4 h.header_size _ w.size,
              read_le-append 4 h.flags _ w.flags,
              read_le-append 8 h.checkpoint_offset _ w.checkpoint_offset,
              read_le-append 8 h.checkpoint_length _ w.checkpoint_length,
              read_le-append 8 h.wal_offset _ w.wal_offset,
              read_le-append 8 h.wal_length _ w.wal_length,
              read_le-append 8 h.last_lsn _ w.last_lsn,
              read_le-append 8 h.last_commit_ts _ w.last_commit_ts,
              read_le-append 4 h.header_crc _ w.crc,
            )
            refl)

  same_magic : (h : DbFileHeader) → h.magic ≡ magic_bytes → equal h.magic magic_bytes ≡ true
  same_magic h m = ap (λ bs. equal bs magic_bytes) m ∙ equal_refl magic_bytes

  -- The header round trip: the bytes that `write_to` puts at the start of the file are read back as
  -- the same header, whatever follows them, if the fields fit their types, the magic number is the
  -- right one, the version is at most the current one and the checksum is up to date.
  pub read_from-header_bytes :
      (h : DbFileHeader) (rest : Bytes)
      → Fits h
      → h.magic ≡ magic_bytes
      → h.version ≤ current_version
      → h.header_crc ≡ compute_crc crc32 h
      → read_from crc32 (header_bytes h ++ rest) ≡ ok h
  unfolding validate_magic validate_version validate_crc
  read_from-header_bytes h rest w m v same =
      read_from_checks h rest w
      ∙ rw (same_magic h m) (ground (arith, ==_iff (compute_crc crc32 h) h.header_crc))

  -- The header errors: of a header whose fields fit their types, a wrong magic number is refused
  -- first, then a version above the current one, then a checksum that is not that of the fields, each
  -- with the error that names what was found.
  pub read_from_refuses :
      (h : DbFileHeader) (rest : Bytes)
      → Fits h
      → (h.magic ≢ magic_bytes → read_from crc32 (header_bytes h ++ rest) ≡ err invalid_magic)
        × (h.magic ≡ magic_bytes
            → current_version < h.version
            → read_from crc32 (header_bytes h ++ rest)
              ≡ err (unsupported_version h.version current_version))
        × (h.magic ≡ magic_bytes
            → h.version ≤ current_version
            → h.header_crc ≢ compute_crc crc32 h
            → read_from crc32 (header_bytes h ++ rest)
              ≡ err (header_checksum_mismatch h.header_crc (compute_crc crc32 h)))
  unfolding validate_magic validate_version validate_crc
  read_from_refuses h rest w = (
    (λ m. read_from_checks h rest w ∙ rw (equal-ne h.magic magic_bytes m) refl),
    (λ m v. read_from_checks h rest w ∙ rw (same_magic h m) (ground arith)),
    (λ m v c.
        read_from_checks h rest w
        ∙ rw (same_magic h m) (ground (arith, ==_iff (compute_crc crc32 h) h.header_crc))),
  )
