-- ===== src/Format/Preamble.antt =====
-- src/format/preamble.hpp and src/format/preamble.cpp: the sixteen bytes that open a container.
pub mod Layout
pub mod Parsing
pub mod RoundTrip
pub mod Tests
use shibori_engine.Base.{
  ℕ, ◌+◌, String, not, ltb, ◌!=◌, List, [], ◌∷◌, length, take, drop, replicate,
}
use shibori_engine.Error.{ErrorCode, Operation, Error, Result, ok, new_error, fail_if, ◌>>=◌, ◌>>◌}
use shibori_engine.Integrity.Crc32c.{
  Backend, Crc32cMode, new_hasher, update, finalize, little_endian_bytes, from_little_endian,
}
use shibori_engine.Format.Endian.{encode_u16_le, decode_u16_le}
use shibori_engine.Format.Buffer.{write_bytes, starts_with}

abbrev pub file_preamble_size : ℕ
file_preamble_size = 16

abbrev pub current_format_major : ℕ
current_format_major = 1

abbrev pub current_format_minor : ℕ
current_format_minor = 0

pub record FilePreamble : Type 0 where
  pub major : ℕ
  pub minor : ℕ
  pub checksum : ℕ

-- "SHIBORI" and a zero.
abbrev pub file_magic : List ℕ
file_magic = b'S' ∷ b'H' ∷ b'I' ∷ b'B' ∷ b'O' ∷ b'R' ∷ b'I' ∷ 0 ∷ []

abbrev pub preamble_error : ErrorCode → String → Error
preamble_error code message = new_error code Operation.parse message

module _ (backend : Backend) where
  -- The portable CRC32C of a span.
  abbrev pub span_checksum : List ℕ → ℕ
  span_checksum bytes = finalize (update backend (new_hasher backend Crc32cMode.portable) bytes)

  unfoldable pub encode_file_preamble : ℕ → ℕ → List ℕ
  encode_file_preamble major minor =
      let magic = write_bytes (replicate file_preamble_size 0) 0 file_magic in
      let versions =
        write_bytes (write_bytes magic 8 (encode_u16_le major)) 10 (encode_u16_le minor) in
      write_bytes versions 12 (little_endian_bytes (span_checksum (take 12 versions)))

  unfoldable pub encode_current_file_preamble : List ℕ
  unfolding encode_file_preamble
  encode_current_file_preamble = encode_file_preamble current_format_major current_format_minor

  unfoldable pub parse_file_preamble : List ℕ → Result FilePreamble
  parse_file_preamble bytes = do
    fail_if (ltb (length bytes) file_preamble_size)
        (preamble_error ErrorCode.unexpected_end "file preamble is truncated")
    fail_if (not (starts_with file_magic bytes))
        (preamble_error ErrorCode.invalid_magic "file preamble magic does not match SHIBORI")
    major ← decode_u16_le (take 2 (drop 8 bytes)) Operation.parse "major version"
    minor ← decode_u16_le (take 2 (drop 10 bytes)) Operation.parse "minor version"
    let stored_checksum = from_little_endian (take 4 (drop 12 bytes))
    fail_if (stored_checksum != span_checksum (take 12 bytes))
        (preamble_error ErrorCode.checksum_mismatch "file preamble CRC32C does not match")
    fail_if (major != current_format_major) (
        preamble_error ErrorCode.unsupported_format_version
          "file preamble uses an unsupported major version")
    ok (record { major = major; minor = minor; checksum = stored_checksum })
