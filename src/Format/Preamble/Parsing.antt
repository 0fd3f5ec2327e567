-- ===== src/Format/Preamble/Parsing.antt =====
-- The parser's decisions, in the order in which it takes them, and what it accepts.
use shibori_engine.Base.{
  ℕ, ◌≤◌, ◌<◌, ◌≡◌, arith, Bool, not, if◌then◌else◌, ◌!=◌, List, length, lt→ltb, le→ltb_false,
  take-all, take, IsBytes, little_endian,
}
use shibori_engine.Error.{ErrorCode, Operation, Result, ok, err}
use shibori_engine.Integrity.Crc32c.{Backend}
use shibori_engine.Integrity.Crc32c.Hashing.{checksum, finalize-portable}
use shibori_engine.Integrity.Crc32c.Words.{from_little_endian_digits}
use shibori_engine.Format.Buffer.{starts_with, field_at, length-field_at, field_at-IsBytes}
use shibori_engine.Format.Endian.RoundTrip.{decode_u16_le_field}
use shibori_engine.Format.Preamble.{
  FilePreamble, file_magic, parse_file_preamble, preamble_error, current_format_major,
}

-- What remains to be decided once the fields are read.
abbrev pub decision : Bool → ℕ → ℕ → ℕ → ℕ → Result FilePreamble
decision magic major minor stored computed =
    if not magic
    then err (preamble_error ErrorCode.invalid_magic "file preamble magic does not match SHIBORI")
    else if stored != computed
    then err (preamble_error ErrorCode.checksum_mismatch "file preamble CRC32C does not match")
    else if major != current_format_major
    then err (
        preamble_error ErrorCode.unsupported_format_version
          "file preamble uses an unsupported major version")
    else ok (record { major = major; minor = minor; checksum = stored })

pub parse_file_preamble-short :
    (backend : Backend) (bytes : List ℕ)
    → length bytes < 16
    → parse_file_preamble backend bytes
      ≡ err (preamble_error ErrorCode.unexpected_end "file preamble is truncated")
unfolding parse_file_preamble
parse_file_preamble-short backend bytes short = rw (lt→ltb (length bytes) 16 short)

pub parse_file_preamble-decision :
    (backend : Backend) (bytes : List ℕ)
    → IsBytes bytes
    → 16 ≤ length bytes
    → parse_file_preamble backend bytes
      ≡ decision
          (starts_with file_magic bytes)
          (little_endian (field_at 8 2 bytes))
          (little_endian (field_at 10 2 bytes))
          (little_endian (field_at 12 4 bytes))
          (checksum (take 12 bytes))
unfolding parse_file_preamble
parse_file_preamble-decision backend bytes h long =
    let stored =
      from_little_endian_digits (field_at 12 4 bytes) (field_at-IsBytes 12 4 bytes h)
        (omega (arith, length-field_at 12 4 bytes long)) in
    rw
      (
        le→ltb_false (length bytes) 16 long,
        decode_u16_le_field (field_at 8 2 bytes) Operation.parse "major version"
            (field_at-IsBytes 8 2 bytes h) (length-field_at 8 2 bytes (omega arith)),
        decode_u16_le_field (field_at 10 2 bytes) Operation.parse "minor version"
            (field_at-IsBytes 10 2 bytes h) (length-field_at 10 2 bytes (omega arith)),
        finalize-portable backend (take 12 bytes),
        stored,
        take-all 4 (field_at 12 4 bytes) (omega (arith, length-field_at 12 4 bytes long)),
      )
      (ground arith)
