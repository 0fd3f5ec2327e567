-- ===== src/Format/Record/Parsing.antt =====
-- The parser's decisions, in the order in which it takes them.
use shibori_engine.Base.{
  ℕ, ◌+◌, ◌^◌, ◌≤◌, ◌<◌, bit_and, ◌≡◌, ap, ◌∙◌, arith, Bool, not, if◌then◌else◌, ltb, lt→ltb,
  le→ltb_false, ◌!=◌, List, length, take, take-all, IsBytes, byte_at, little_endian,
  little_endian-lt,
}
use shibori_engine.Error.{ErrorCode, Operation, Result, ok, err, ◌>>=◌}
use shibori_engine.CheckedArithmetic.{exceeds_u64}
use shibori_engine.CheckedArithmetic.Exactness.{checked_add_exact}
use shibori_engine.Integrity.Crc32c.{Backend, from_little_endian}
use shibori_engine.Integrity.Crc32c.Hashing.{checksum, finalize-portable}
use shibori_engine.Integrity.Crc32c.Words.{from_little_endian_digits}
use shibori_engine.Format.Buffer.{starts_with, field_at, length-field_at, field_at-IsBytes}
use shibori_engine.Format.Endian.RoundTrip.{decode_u16_le_field, decode_u64_le_field}
use shibori_engine.Format.Record.{
  RecordEnvelope, RecordEnvelopeLimits, record_sync, record_reserved_flags, reserved_bits,
  parse_error, parse_record_envelope,
}

-- The envelope that a span of 32 bytes would be, whatever the checks say.
abbrev pub read_envelope : List ℕ → RecordEnvelope
read_envelope bytes = record {
  type = byte_at bytes 4;
  flags = byte_at bytes 5;
  extension_length = little_endian (field_at 6 2 bytes);
  payload_length = little_endian (field_at 8 8 bytes);
  sequence = little_endian (field_at 16 8 bytes);
  payload_checksum = little_endian (field_at 28 4 bytes);
}

-- The checks on the lengths, by arithmetic that does not overflow.
abbrev pub check_lengths : RecordEnvelopeLimits → RecordEnvelope → Result RecordEnvelope
check_lengths limits e =
    if ltb limits.maximum_extension_length e.extension_length
    then err (
        parse_error ErrorCode.limit_exceeded "record extension length exceeds the configured limit")
    else if ltb limits.maximum_payload_length e.payload_length
    then err
        (parse_error ErrorCode.limit_exceeded "record payload length exceeds the configured limit")
    else if ltb (e.extension_length + e.payload_length) (2 ^ 64)
    then if ltb (32 + (e.extension_length + e.payload_length)) (2 ^ 64)
      then ok e
      else exceeds_u64 Operation.parse "complete record length"
    else exceeds_u64 Operation.parse "record content length"

-- What remains to be decided once the fields are read.
abbrev pub decision : Bool → RecordEnvelopeLimits → RecordEnvelope → ℕ → ℕ → Result RecordEnvelope
decision sync limits e stored computed =
    if not sync
    then err (parse_error ErrorCode.invalid_magic "record envelope sync does not match SHR1")
    else if bit_and e.flags record_reserved_flags != 0
    then err (reserved_bits Operation.parse)
    else (check_lengths limits e >>= λ checked.
        if stored != computed
        then err (parse_error ErrorCode.checksum_mismatch "record envelope CRC32C does not match")
        else ok checked)

pub parse_record_envelope-short :
    (backend : Backend) (bytes : List ℕ) (limits : RecordEnvelopeLimits)
    → length bytes < 32
    → parse_record_envelope backend bytes limits
      ≡ err (parse_error ErrorCode.unexpected_end "record envelope is truncated")
unfolding parse_record_envelope
parse_record_envelope-short backend bytes limits short = rw (lt→ltb (length bytes) 32 short)

-- A checksum field of four bytes.
checksum_field :
    (offset : ℕ) (bytes : List ℕ)
    → IsBytes bytes
    → offset + 4 ≤ length bytes
    → from_little_endian (field_at offset 4 bytes) ≡ little_endian (field_at offset 4 bytes)
checksum_field offset bytes h fits =
    let len = length-field_at offset 4 bytes fits in
    from_little_endian_digits (field_at offset 4 bytes) (field_at-IsBytes offset 4 bytes h)
      (omega (arith, len))
    ∙ ap little_endian (take-all 4 (field_at offset 4 bytes) (omega (arith, len)))

pub field_at-lt :
    (offset size : ℕ) (bytes : List ℕ)
    → IsBytes bytes
    → offset + size ≤ length bytes
    → little_endian (field_at offset size bytes) < 256 ^ size
field_at-lt offset size bytes h fits = omega (
  arith,
  little_endian-lt (field_at offset size bytes) (field_at-IsBytes offset size bytes h),
  ap (λ (n : ℕ). 256 ^ n) (length-field_at offset size bytes fits),
)

pub parse_record_envelope-decision :
    (backend : Backend) (bytes : List ℕ) (limits : RecordEnvelopeLimits)
    → IsBytes bytes
    → 32 ≤ length bytes
    → parse_record_envelope backend bytes limits
      ≡ decision
          (starts_with record_sync bytes)
          limits
          (read_envelope bytes)
          (little_endian (field_at 24 4 bytes))
          (checksum (take 24 bytes))
unfolding parse_record_envelope
parse_record_envelope-decision backend bytes limits h long =
    let e = read_envelope bytes in
    rw
      (
        le→ltb_false (length bytes) 32 long,
        decode_u16_le_field (field_at 6 2 bytes) Operation.parse "record extension length"
            (field_at-IsBytes 6 2 bytes h) (length-field_at 6 2 bytes (omega arith)),
        decode_u64_le_field (field_at 8 8 bytes) Operation.parse "record payload length"
            (field_at-IsBytes 8 8 bytes h) (length-field_at 8 8 bytes (omega arith)),
        decode_u64_le_field (field_at 16 8 bytes) Operation.parse "record sequence"
            (field_at-IsBytes 16 8 bytes h) (length-field_at 16 8 bytes (omega arith)),
        checked_add_exact e.extension_length e.payload_length Operation.parse
            "record content length" (omega (arith, field_at-lt 6 2 bytes h (omega arith)))
            (field_at-lt 8 8 bytes h (omega arith)),
        finalize-portable backend (take 24 bytes),
        checksum_field 24 bytes h (omega arith),
        checksum_field 28 bytes h long,
      )
      (ground (
        arith,
        checked_add_exact 32 (e.extension_length + e.payload_length) Operation.parse
            "complete record length",
      ))
