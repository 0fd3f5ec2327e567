-- ===== src/Format/Preamble/Tests.antt =====
-- The preamble of format 1.0, and the preamble's theorems at it.
use shibori_engine.Base.{ℕ, ◌≤◌, ◌<◌, ◌≡◌, ◌^◌, refl, arith, false, List, [], ◌∷◌, ◌++◌, take}
use shibori_engine.Error.{ok}
use shibori_engine.Integrity.Crc32c.{
  Backend, new_hasher, update, finalize, little_endian_bytes, from_little_endian,
  portable_crc32c_update,
}
use shibori_engine.Format.Endian.{encode_u16_le, decode_u16_le}
use shibori_engine.Integrity.Crc32c.Hashing.{checksum}
use shibori_engine.Format.Preamble.{
  FilePreamble, encode_file_preamble, encode_current_file_preamble, parse_file_preamble,
}
use shibori_engine.Format.Preamble.Layout.{covered}
use shibori_engine.Format.Preamble.RoundTrip.{
  parse_file_preamble-encode, encode-parse_file_preamble,
}

-- A build without the x86 instructions.
abbrev portable_build : Backend
portable_build = record {
  compiled = false;
  available = false;
  crc32_u8 = λ s b. 0;
  crc32_u64 = λ s v. 0;
}

abbrev golden : List ℕ
golden = 83 ∷ 72 ∷ 73 ∷ 66 ∷ 79 ∷ 82 ∷ 73 ∷ 0 ∷ 1 ∷ 0 ∷ 0 ∷ 0 ∷ 0xeb ∷ 0xbd ∷ 0xc3 ∷ 0x9e ∷ []

golden_preamble : encode_current_file_preamble portable_build ≡ golden
unfolding encode_current_file_preamble encode_u16_le new_hasher update finalize little_endian_bytes
    portable_crc32c_update
golden_preamble = refl

abbrev golden_fields : FilePreamble
golden_fields = record { major = 1; minor = 0; checksum = 0x9ec3bdeb }

golden_parses : parse_file_preamble portable_build (golden ++ 5 ∷ []) ≡ ok golden_fields
unfolding parse_file_preamble decode_u16_le new_hasher update finalize from_little_endian
    portable_crc32c_update
golden_parses = refl

parse_file_preamble-encode_example :
    parse_file_preamble portable_build (encode_file_preamble portable_build 1 7 ++ 5 ∷ [])
    ≡ ok (record { major = 1; minor = 7; checksum = checksum (covered 1 7) })
parse_file_preamble-encode_example =
    parse_file_preamble-encode portable_build 1 7 (5 ∷ []) (omega arith) (omega arith) (omega arith)

encode-parse_file_preamble_example :
    (16 ≤ 17)
    × (golden_fields.major ≡ 1)
    × (golden_fields.minor < 2 ^ 16)
    × (golden_fields.checksum ≡ checksum (take 12 (golden ++ 5 ∷ [])))
    × (encode_file_preamble portable_build golden_fields.major golden_fields.minor
        ≡ take 16 (golden ++ 5 ∷ []))
encode-parse_file_preamble_example =
    encode-parse_file_preamble portable_build (golden ++ 5 ∷ []) golden_fields (omega arith)
      golden_parses
