-- ===== src/Format/Record.antt =====
-- src/format/record.hpp and src/format/record.cpp: the envelope that frames every record, the
-- verification of a record's content, and the order in which records are accepted.
pub mod Layout
pub mod Parsing
pub mod RoundTrip
pub mod Verification
pub mod Sequence
pub mod Refusal
pub mod Tests
use shibori_engine.Base.{
  ℕ, ◌+◌, bit_and, String, Bool, true, false, not, ◌&&◌, ◌||◌, ltb, ◌==◌, ◌!=◌, if◌then◌else◌, List,
  [], ◌∷◌, length, take, drop, replicate, byte_at, to_byte,
}
use shibori_engine.Error.{
  ErrorCode, Operation, Error, Result, ok, err, new_error, with_component_id, fail_if, ◌>>=◌, ◌>>◌,
}
use shibori_engine.CheckedArithmetic.{checked_add}
use shibori_engine.Integrity.Crc32c.{
  Backend, Crc32cMode, new_hasher, update, finalize, little_endian_bytes, from_little_endian,
}
use shibori_engine.Format.Endian.{encode_u16_le, encode_u64_le, decode_u16_le, decode_u64_le}
use shibori_engine.Format.Buffer.{write_bytes, starts_with}

abbrev pub record_envelope_size : ℕ
record_envelope_size = 32

abbrev pub record_mandatory_flag : ℕ
record_mandatory_flag = 0x01

abbrev pub record_reserved_flags : ℕ
record_reserved_flags = 0xfe

-- "SHR1"
abbrev pub record_sync : List ℕ
record_sync = b'S' ∷ b'H' ∷ b'R' ∷ b'1' ∷ []

-- The enumeration has a fixed underlying type, so a parsed value may be any byte.
abbrev pub RecordType : Type 0
RecordType = ℕ

abbrev pub file_header : RecordType
file_header = 0x01

abbrev pub schema : RecordType
schema = 0x02

abbrev pub data_block : RecordType
data_block = 0x03

abbrev pub block_index : RecordType
block_index = 0x04

abbrev pub file_footer : RecordType
file_footer = 0x05

abbrev pub user_metadata : RecordType
user_metadata = 0x06

unfoldable pub is_known_record_type : RecordType → Bool
is_known_record_type type =
    type == file_header
    || type == schema
    || type == data_block
    || type == block_index
    || type == file_footer
    || type == user_metadata

pub record RecordEnvelope : Type 0 where
  pub type : RecordType
  pub flags : ℕ
  pub extension_length : ℕ
  pub payload_length : ℕ
  pub sequence : ℕ
  pub payload_checksum : ℕ

unfoldable pub mandatory : RecordEnvelope → Bool
mandatory envelope = bit_and envelope.flags record_mandatory_flag != 0

pub record RecordEnvelopeLimits : Type 0 where
  pub maximum_extension_length : ℕ
  pub maximum_payload_length : ℕ

pub data RecordDisposition : Type 0 where
  process skip : RecordDisposition

-- The private constructor is called by `verify_record` alone.
pub record VerifiedRecord : Type 0 where
  pub envelope : RecordEnvelope

pub record RecordSequenceTracker : Type 0 where
  pub expected_sequence : ℕ

abbrev pub reserved_bits : Operation → Error
reserved_bits operation =
    new_error ErrorCode.invalid_record operation "record envelope uses reserved format 1 flag bits"

abbrev pub parse_error : ErrorCode → String → Error
parse_error code message = new_error code Operation.parse message

module _ (backend : Backend) where
  abbrev pub envelope_checksum : List ℕ → ℕ
  envelope_checksum bytes = finalize (update backend (new_hasher backend Crc32cMode.portable) bytes)

  -- `output` before the checksums are written.
  abbrev pub framed : RecordEnvelope → List ℕ
  framed envelope =
      let sync = write_bytes (replicate record_envelope_size 0) 0 record_sync in
      let typed = write_bytes sync 4 (to_byte envelope.type ∷ []) in
      let flagged = write_bytes typed 5 (to_byte envelope.flags ∷ []) in
      let extended = write_bytes flagged 6 (encode_u16_le envelope.extension_length) in
      let sized = write_bytes extended 8 (encode_u64_le envelope.payload_length) in
      write_bytes sized 16 (encode_u64_le envelope.sequence)

  unfoldable pub encode_record_envelope : RecordEnvelope → Result (List ℕ)
  encode_record_envelope envelope =
      fail_if (bit_and envelope.flags record_reserved_flags != 0) (reserved_bits Operation.encode)
      >> (let output = framed envelope in
          let checked =
            write_bytes output 24 (little_endian_bytes (envelope_checksum (take 24 output))) in
          ok (write_bytes checked 28 (little_endian_bytes envelope.payload_checksum)))

  unfoldable pub parse_record_envelope : List ℕ → RecordEnvelopeLimits → Result RecordEnvelope
  parse_record_envelope bytes limits = do
    fail_if (ltb (length bytes) record_envelope_size)
        (parse_error ErrorCode.unexpected_end "record envelope is truncated")
    fail_if (not (starts_with record_sync bytes))
        (parse_error ErrorCode.invalid_magic "record envelope sync does not match SHR1")
    let flags = byte_at bytes 5
    fail_if (bit_and flags record_reserved_flags != 0) (reserved_bits Operation.parse)
    extension_length ←
        decode_u16_le (take 2 (drop 6 bytes)) Operation.parse "record extension length"
    payload_length ← decode_u64_le (take 8 (drop 8 bytes)) Operation.parse "record payload length"
    sequence ← decode_u64_le (take 8 (drop 16 bytes)) Operation.parse "record sequence"
    fail_if (ltb limits.maximum_extension_length extension_length) (
        parse_error ErrorCode.limit_exceeded "record extension length exceeds the configured limit")
    fail_if (ltb limits.maximum_payload_length payload_length)
        (parse_error ErrorCode.limit_exceeded "record payload length exceeds the configured limit")
    content_length ←
        checked_add extension_length payload_length Operation.parse "record content length"
    _ ← checked_add record_envelope_size content_length Operation.parse "complete record length"
    let stored_checksum = from_little_endian (take 4 (drop 24 bytes))
    fail_if (stored_checksum != envelope_checksum (take 24 bytes))
        (parse_error ErrorCode.checksum_mismatch "record envelope CRC32C does not match")
    ok (record {
      type = byte_at bytes 4;
      flags = flags;
      extension_length = extension_length;
      payload_length = payload_length;
      sequence = sequence;
      payload_checksum = from_little_endian (take 4 (drop 28 bytes));
    })

  unfoldable pub verify_record :
      List ℕ → List ℕ → List ℕ → RecordEnvelopeLimits → Result VerifiedRecord
  verify_record envelope_bytes extension payload limits = do
    envelope ← parse_record_envelope envelope_bytes limits
    fail_if
        (length extension != envelope.extension_length || length payload != envelope.payload_length)
        (new_error ErrorCode.invalid_record Operation.verify
          "record content does not match the envelope lengths")
    let checksum = update backend (new_hasher backend Crc32cMode.portable) extension
    fail_if (finalize (update backend checksum payload) != envelope.payload_checksum) (
        new_error ErrorCode.checksum_mismatch Operation.verify
          "record payload CRC32C does not match")
    ok (record { envelope = envelope })

abbrev pub unknown_mandatory : RecordType → Error
unknown_mandatory type =
    with_component_id (parse_error ErrorCode.unsupported_feature "unknown mandatory record type")
      type

-- The tracker afterwards, and the answer.
unfoldable pub accept :
    RecordSequenceTracker → VerifiedRecord → RecordSequenceTracker × Result RecordDisposition
accept tracker verified =
    let envelope = verified.envelope in
    if envelope.sequence != tracker.expected_sequence
    then (
      tracker,
      err (
          parse_error ErrorCode.invalid_record "record sequence does not match the expected value"),
    )
    else if not (is_known_record_type envelope.type) && mandatory envelope
    then (tracker, err (unknown_mandatory envelope.type))
    else elim (checked_add tracker.expected_sequence 1 Operation.parse "next record sequence") [
      | err e ↦ (tracker, err e)
      | ok next_sequence ↦ (
        record tracker { expected_sequence = next_sequence },
        ok (
            if is_known_record_type envelope.type
            then RecordDisposition.process
            else RecordDisposition.skip),
      )
    ]
