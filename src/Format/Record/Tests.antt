-- ===== src/Format/Record/Tests.antt =====
-- A record of format 1.0, and the record's theorems at it.
use shibori_engine.Base.{ℕ, ◌≤◌, ◌≡◌, ◌↔◌, refl, arith, false, List, [], ◌∷◌, ◌++◌, length}
use shibori_engine.Error.{ErrorCode, Error, Operation, ok, err, new_error}
use shibori_engine.CheckedArithmetic.{checked_add}
use shibori_engine.Integrity.Crc32c.{
  Backend, new_hasher, update, finalize, from_little_endian, portable_crc32c_update,
}
use shibori_engine.Integrity.Crc32c.Hashing.{checksum}
use shibori_engine.Format.Endian.{decode_u16_le, decode_u64_le}
use shibori_engine.Format.Record.{
  RecordEnvelope, RecordEnvelopeLimits, RecordDisposition, VerifiedRecord, encode_record_envelope,
  parse_record_envelope, verify_record, accept, is_known_record_type, mandatory, data_block,
  reserved_bits,
}
use shibori_engine.Format.Record.Layout.{IsEnvelope, layout, encode_record_envelope-reserved}
use shibori_engine.Format.Record.RoundTrip.{
  IsWithin, parse_record_envelope-encode, encode-parse_record_envelope,
}
use shibori_engine.Format.Record.Verification.{
  IsContent, verify_record_iff, verify_record-encode, verify_record-corrupted,
}
use shibori_engine.Format.Record.Sequence.{accept_all, IsInOrder, accept_all_iff}
use shibori_engine.Format.Record.Refusal.{at_sequence, IsStopped, accept_all-IsStopped_iff}

abbrev portable_build : Backend
portable_build = record {
  compiled = false;
  available = false;
  crc32_u8 = λ s b. 0;
  crc32_u64 = λ s v. 0;
}

abbrev reader_limits : RecordEnvelopeLimits
reader_limits = record { maximum_extension_length = 16; maximum_payload_length = 1024 }

abbrev extension_bytes : List ℕ
extension_bytes = 1 ∷ 2 ∷ []

abbrev payload_bytes : List ℕ
payload_bytes = 10 ∷ 20 ∷ 30 ∷ []

abbrev block_envelope : RecordEnvelope
block_envelope = record {
  type = data_block;
  flags = 1;
  extension_length = 2;
  payload_length = 3;
  sequence = 7;
  payload_checksum = 2018754245;
}

abbrev verified_block : VerifiedRecord
verified_block = record { envelope = block_envelope }

block-IsContent : IsContent block_envelope extension_bytes payload_bytes
unfolding checksum portable_crc32c_update
block-IsContent = record { extension_length = refl; payload_length = refl; intact = refl }

block_envelope-IsEnvelope : IsEnvelope block_envelope
block_envelope-IsEnvelope = omega arith

block_envelope-IsWithin : IsWithin reader_limits block_envelope
block_envelope-IsWithin = omega arith

-- The bytes of the block's envelope; the two checksums end them.
abbrev block_bytes : List ℕ
block_bytes =
    83 ∷ 72 ∷ 82 ∷ 49 ∷ 3 ∷ 1 ∷ 2 ∷ 0 ∷ 3 ∷ 0 ∷ 0 ∷ 0 ∷ 0 ∷ 0 ∷ 0 ∷ 0 ∷ 7 ∷ 0 ∷ 0 ∷ 0 ∷ 0 ∷ 0 ∷ 0
    ∷ 0 ∷ 177 ∷ 0 ∷ 37 ∷ 39 ∷ 197 ∷ 190 ∷ 83 ∷ 120 ∷ []

block_encodes : layout block_envelope ≡ block_bytes
unfolding checksum portable_crc32c_update
block_encodes = refl

block_parses : parse_record_envelope portable_build block_bytes reader_limits ≡ ok block_envelope
unfolding parse_record_envelope decode_u16_le decode_u64_le checked_add new_hasher update finalize
    from_little_endian portable_crc32c_update
block_parses = refl

parse_record_envelope-encode_example :
    (out : List ℕ) × (encode_record_envelope portable_build block_envelope ≡ ok out)
    × (length out ≡ 32)
    × (parse_record_envelope portable_build (out ++ 9 ∷ []) reader_limits ≡ ok block_envelope)
parse_record_envelope-encode_example =
    parse_record_envelope-encode portable_build block_envelope reader_limits (9 ∷ [])
      block_envelope-IsEnvelope (omega arith) block_envelope-IsWithin (omega arith)

encode-parse_record_envelope_example :
    (32 ≤ 32)
    × IsEnvelope block_envelope
    × IsWithin reader_limits block_envelope
    × (encode_record_envelope portable_build block_envelope ≡ ok block_bytes)
encode-parse_record_envelope_example =
    encode-parse_record_envelope portable_build block_bytes reader_limits block_envelope
      (omega arith) block_parses

block_verifies :
    verify_record portable_build block_bytes extension_bytes payload_bytes reader_limits
    ≡ ok verified_block
block_verifies =
    (verify_record_iff portable_build block_bytes extension_bytes payload_bytes reader_limits
        verified_block).1
      (block_parses, block-IsContent)

verify_record_iff_example :
    (verify_record portable_build block_bytes extension_bytes payload_bytes reader_limits
      ≡ ok verified_block)
    ↔ ((parse_record_envelope portable_build block_bytes reader_limits ≡ ok block_envelope)
        × IsContent block_envelope extension_bytes payload_bytes)
verify_record_iff_example =
    verify_record_iff portable_build block_bytes extension_bytes payload_bytes reader_limits
      verified_block

verify_record-encode_example :
    (out : List ℕ) × (encode_record_envelope portable_build block_envelope ≡ ok out)
    × (verify_record portable_build out extension_bytes payload_bytes reader_limits
        ≡ ok verified_block)
verify_record-encode_example =
    verify_record-encode portable_build block_envelope extension_bytes payload_bytes reader_limits
      block_envelope-IsEnvelope (omega arith) block_envelope-IsWithin block-IsContent

verify_record-corrupted_example :
    verify_record portable_build block_bytes extension_bytes (10 ∷ 21 ∷ 30 ∷ []) reader_limits
    ≡ err (
        new_error ErrorCode.checksum_mismatch Operation.verify
          "record payload CRC32C does not match")
verify_record-corrupted_example =
    verify_record-corrupted portable_build block_bytes extension_bytes (10 ∷ []) (30 ∷ []) 20 21
      reader_limits verified_block (omega arith) (omega arith) (omega arith) (omega arith)
      (omega arith) block_verifies

-- An unknown type without the mandatory flag.
abbrev later_record : VerifiedRecord
later_record = record {
  envelope = record {
    type = 0x20;
    flags = 0;
    extension_length = 0;
    payload_length = 0;
    sequence = 8;
    payload_checksum = 0;
  };
}

accept_all_iff_example :
    (accept_all (record { expected_sequence = 7 }) (verified_block ∷ later_record ∷ []) ≡ (
      record { expected_sequence = 9 },
      ok (RecordDisposition.process ∷ RecordDisposition.skip ∷ []),
    ))
    ↔ IsInOrder 7 (verified_block ∷ later_record ∷ [])
unfolding is_known_record_type
accept_all_iff_example = accept_all_iff 7 (verified_block ∷ later_record ∷ []) (omega arith)

-- The first record once more after two that are in order.
abbrev repeated_run : List VerifiedRecord
repeated_run = verified_block ∷ later_record ∷ verified_block ∷ later_record ∷ []

abbrev out_of_order : Error
out_of_order =
    new_error ErrorCode.invalid_record Operation.parse
      "record sequence does not match the expected value"

repeated_run_stops : accept_all (at_sequence 7) repeated_run ≡ (at_sequence 9, err out_of_order)
unfolding accept_all accept is_known_record_type mandatory checked_add
repeated_run_stops = refl

accept_all-IsStopped_iff_example :
    (accept_all (at_sequence 7) repeated_run ≡ (at_sequence 9, err out_of_order))
    ↔ IsStopped 7 repeated_run (at_sequence 9) out_of_order
accept_all-IsStopped_iff_example =
    accept_all-IsStopped_iff 7 repeated_run (at_sequence 9) out_of_order (omega arith)

abbrev reserved_envelope : RecordEnvelope
reserved_envelope = record {
  type = data_block;
  flags = 3;
  extension_length = 0;
  payload_length = 0;
  sequence = 1;
  payload_checksum = 0;
}

encode_record_envelope-reserved_example :
    encode_record_envelope portable_build reserved_envelope ≡ err (reserved_bits Operation.encode)
encode_record_envelope-reserved_example =
    encode_record_envelope-reserved portable_build reserved_envelope (omega arith) (omega arith)
