-- ===== src/Storage/DbFile/Header.antt =====
-- `DbFileHeader` of minigu/storage/src/db_file/header.rs.
pub mod RoundTrip
mod Tests
use mini_gu.Base.{
  ℕ, ◌+◌, ◌-◌, Bool, true, false, ◌&&◌, not, List, [], ◌∷◌, ◌++◌, ltb, ◌==◌, if◌then◌else◌, ok, err,
  ◌>>=◌, ◌>>◌,
}
use mini_gu.Storage.DbFile.Bytes.{Bytes, to_le_bytes, read_exact, read_le, zeros, write_at}
use mini_gu.Storage.DbFile.Error.{
  DbFileResult, invalid_magic, unsupported_version, header_checksum_mismatch, panicked,
}
use mini_gu.Storage.DbFile.Flags.{DbFileFlags}

-- "MINIGU\0\0"
abbrev pub magic_bytes : Bytes
magic_bytes = 77 ∷ 73 ∷ 78 ∷ 73 ∷ 71 ∷ 85 ∷ 0 ∷ 0 ∷ []

abbrev pub current_version : ℕ
current_version = 1

abbrev pub header_size : ℕ
header_size = 256

pub record DbFileHeader : Type 0 where
  pub magic : Bytes
  pub version : ℕ
  pub header_size : ℕ
  pub flags : DbFileFlags
  pub checkpoint_offset : ℕ
  pub checkpoint_length : ℕ
  pub wal_offset : ℕ
  pub wal_length : ℕ
  pub last_lsn : ℕ
  pub last_commit_ts : ℕ
  pub header_crc : ℕ

unfoldable pub new : DbFileHeader
new = record {
  magic = magic_bytes;
  version = current_version;
  header_size = header_size;
  flags = 0;
  checkpoint_offset = header_size;
  checkpoint_length = 0;
  wal_offset = header_size;
  wal_length = 0;
  last_lsn = 0;
  last_commit_ts = 0;
  header_crc = 0;
}

-- `==` on byte arrays
unfoldable pub equal : Bytes → Bytes → Bool
equal [] [] = true
equal [] (b ∷ bs) = false
equal (a ∷ as_) [] = false
equal (a ∷ as_) (b ∷ bs) = (a == b) && equal as_ bs

unfoldable pub validate_magic : DbFileHeader → DbFileResult (Unit {0})
unfolding equal
validate_magic h = if not (equal h.magic magic_bytes) then err invalid_magic else ok tt

unfoldable pub validate_version : DbFileHeader → DbFileResult (Unit {0})
validate_version h =
    if ltb current_version h.version
    then err (unsupported_version h.version current_version)
    else ok tt

-- The fields in the order in which they are hashed and written, with `rest` behind them.
unfoldable pub fields : DbFileHeader → Bytes → Bytes
fields h rest =
    h.magic
    ++ (to_le_bytes 4 h.version
        ++ (to_le_bytes 4 h.header_size
            ++ (to_le_bytes 4 h.flags
                ++ (to_le_bytes 8 h.checkpoint_offset
                    ++ (to_le_bytes 8 h.checkpoint_length
                        ++ (to_le_bytes 8 h.wal_offset
                            ++ (to_le_bytes 8 h.wal_length
                                ++ (to_le_bytes 8 h.last_lsn
                                    ++ (to_le_bytes 8 h.last_commit_ts ++ rest)))))))))

-- The CRC-32 of bytes is the third-party `crc32fast`; hashing in pieces is hashing the whole.
module _ (crc32 : Bytes → ℕ) where
  unfoldable pub compute_crc : DbFileHeader → ℕ
  compute_crc h = crc32 (fields h [])

  unfoldable pub update_crc : DbFileHeader → DbFileHeader
  unfolding compute_crc
  update_crc h = record h { header_crc = compute_crc h }

  unfoldable pub validate_crc : DbFileHeader → DbFileResult (Unit {0})
  unfolding compute_crc
  validate_crc h =
      if not (compute_crc h == h.header_crc)
      then err (header_checksum_mismatch h.header_crc (compute_crc h))
      else ok tt

  -- A reader stands at the start of the file.
  unfoldable pub read_from : Bytes → DbFileResult DbFileHeader
  read_from file = read_exact 8 file >>= λ (magic, r1). read_le 4 r1 >>= λ (version, r2).
      read_le 4 r2 >>= λ (size, r3). read_le 4 r3 >>= λ (flags, r4).
      read_le 8 r4 >>= λ (checkpoint_offset, r5). read_le 8 r5 >>= λ (checkpoint_length, r6).
      read_le 8 r6 >>= λ (wal_offset, r7). read_le 8 r7 >>= λ (wal_length, r8).
      read_le 8 r8 >>= λ (last_lsn, r9). read_le 8 r9 >>= λ (last_commit_ts, r10).
      read_le 4 r10 >>= λ (header_crc, r11).
      let h : DbFileHeader = record {
        magic = magic;
        version = version;
        header_size = size;
        flags = flags;
        checkpoint_offset = checkpoint_offset;
        checkpoint_length = checkpoint_length;
        wal_offset = wal_offset;
        wal_length = wal_length;
        last_lsn = last_lsn;
        last_commit_ts = last_commit_ts;
        header_crc = header_crc;
      } in
      validate_magic h >> (validate_version h >> (validate_crc h >> ok h))

-- What is written: the fields, their checksum and the padding.
unfoldable pub header_bytes : DbFileHeader → Bytes
header_bytes h = fields h (to_le_bytes 4 h.header_crc ++ zeros (h.header_size - 72))

-- The length of the padding underflows, which panics, if the header claims less than its 72 bytes.
unfoldable pub write_to : DbFileHeader → Bytes → DbFileResult Bytes
write_to h file =
    if ltb h.header_size 72 then err panicked else ok (write_at file 0 (header_bytes h))
