-- ===== src/Format/Record/Layout.antt =====
-- The envelope as a sequence of bytes.
use shibori_engine.Base.{
  ℕ, ◌*◌, ◌/◌, ◌%◌, ◌^◌, ◌≤◌, ◌<◌, bit_and, ◌≡◌, arith, List, ◌∷◌, ◌++◌, to_little_endian,
}
use shibori_engine.Base.Bits.{bit_and_mask, bit_and-halves}
use shibori_engine.Error.{Operation, ok, err}
use shibori_engine.Integrity.Crc32c.{Backend}
use shibori_engine.Integrity.Crc32c.Hashing.{checksum, finalize-portable}
use shibori_engine.Integrity.Crc32c.Words.{little_endian_bytes_digits}
use shibori_engine.Format.Endian.Codec.{encode_u16_le_digits, encode_u64_le_digits}
use shibori_engine.Format.Record.{
  RecordEnvelope, record_sync, record_reserved_flags, encode_record_envelope, reserved_bits,
}

-- The ranges of the fields' types.
pub record IsEnvelope (e : RecordEnvelope) : Type 0 where
  pub type_fits : e.type < 2 ^ 8
  pub flags_fit : e.flags < 2 ^ 8
  pub extension_fits : e.extension_length < 2 ^ 16
  pub payload_fits : e.payload_length < 2 ^ 64
  pub sequence_fits : e.sequence < 2 ^ 64
  pub checksum_fits : e.payload_checksum < 2 ^ 32

-- The 24 bytes that the envelope's own checksum covers.
abbrev pub covered : RecordEnvelope → List ℕ
covered e =
    record_sync
    ++ e.type % 256 ∷ e.flags % 256 ∷ to_little_endian 2 e.extension_length
    ++ to_little_endian 8 e.payload_length
    ++ to_little_endian 8 e.sequence

-- All 32 bytes.
abbrev pub layout : RecordEnvelope → List ℕ
layout e =
    covered e ++ to_little_endian 4 (checksum (covered e)) ++ to_little_endian 4 e.payload_checksum

-- The reserved bits are all but the lowest.
pub reserved_flags_clear :
    (flags : ℕ) → flags < 256 → bit_and flags record_reserved_flags ≡ flags / 2 * 2
reserved_flags_clear flags h = omega (arith, bit_and-halves flags 254, bit_and_mask 7 (flags / 2))

pub encode_record_envelope-layout :
    (backend : Backend) (e : RecordEnvelope)
    → e.flags < 2
    → encode_record_envelope backend e ≡ ok (layout e)
unfolding encode_record_envelope
encode_record_envelope-layout backend e h =
    rw
      (
        reserved_flags_clear e.flags (omega arith),
        encode_u16_le_digits e.extension_length,
        encode_u64_le_digits e.payload_length,
        encode_u64_le_digits e.sequence,
        finalize-portable backend (covered e),
        little_endian_bytes_digits (checksum (covered e)),
        little_endian_bytes_digits e.payload_checksum,
      )
      (ground arith)

-- An envelope whose flags byte has a bit other than the lowest is refused when it is encoded.
pub encode_record_envelope-reserved :
    (backend : Backend) (e : RecordEnvelope)
    → e.flags < 256
    → 2 ≤ e.flags
    → encode_record_envelope backend e ≡ err (reserved_bits Operation.encode)
unfolding encode_record_envelope
encode_record_envelope-reserved backend e fits h =
    rw (reserved_flags_clear e.flags fits) (ground arith)
