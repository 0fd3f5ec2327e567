-- ===== src/Format/Endian.antt =====
-- src/format/endian.hpp and src/format/endian.cpp: unsigned integers as little-endian bytes.
pub mod Codec
pub mod RoundTrip
pub mod Tests
use shibori_engine.Base.{
  ℕ, ◌%◌, ◌^◌, bit_and, bit_or, String, join_text, List, [], ◌∷◌, ltb, length, to_byte, byte_at,
  ◌<<<◌, ◌>>>◌,
}
use shibori_engine.Error.{Error}
use shibori_engine.Error.{ErrorCode, Operation, Result, ok, Status, new_error, fail_if, ◌>>◌}

-- Byte `k` of the value, `static_cast<std::byte>((value >> 8k) & 0xffU)`.
abbrev byte_of : ℕ → ℕ → ℕ
byte_of value shift = to_byte (bit_and (value >>> shift) 0xff)

unfoldable pub encode_u16_le : ℕ → List ℕ
encode_u16_le value = to_byte (bit_and value 0xff) ∷ byte_of value 8 ∷ []

unfoldable pub encode_u32_le : ℕ → List ℕ
encode_u32_le value =
    to_byte (bit_and value 0xff) ∷ byte_of value 8 ∷ byte_of value 16 ∷ byte_of value 24 ∷ []

unfoldable pub encode_u64_le : ℕ → List ℕ
encode_u64_le value =
    to_byte (bit_and value 0xff)
    ∷ byte_of value 8
    ∷ byte_of value 16
    ∷ byte_of value 24
    ∷ byte_of value 32
    ∷ byte_of value 40
    ∷ byte_of value 48
    ∷ byte_of value 56
    ∷ []

abbrev pub truncated : Operation → String → Error
truncated operation subject =
    new_error ErrorCode.unexpected_end operation (join_text subject " is truncated")

abbrev require_bytes : List ℕ → ℕ → Operation → String → Status
require_bytes bytes required operation subject =
    fail_if (ltb (length bytes) required) (truncated operation subject)

unfoldable pub decode_u16_le : List ℕ → Operation → String → Result ℕ
decode_u16_le bytes operation subject =
    require_bytes bytes 2 operation subject
    >> ok (bit_or (byte_at bytes 0) (byte_at bytes 1 <<< 8) % 2 ^ 16)

unfoldable pub decode_u32_le : List ℕ → Operation → String → Result ℕ
decode_u32_le bytes operation subject =
    require_bytes bytes 4 operation subject
    >> ok (
        bit_or (bit_or (bit_or (byte_at bytes 0) (byte_at bytes 1 <<< 8)) (byte_at bytes 2 <<< 16))
          (byte_at bytes 3 <<< 24)
        % 2 ^ 32)

unfoldable pub decode_u64_le : List ℕ → Operation → String → Result ℕ
decode_u64_le bytes operation subject =
    let low =
      bit_or (bit_or (bit_or (byte_at bytes 0) (byte_at bytes 1 <<< 8)) (byte_at bytes 2 <<< 16))
        (byte_at bytes 3 <<< 24) in
    require_bytes bytes 8 operation subject
    >> ok (
        bit_or
          (bit_or (bit_or (bit_or low (byte_at bytes 4 <<< 32)) (byte_at bytes 5 <<< 40))
            (byte_at bytes 6 <<< 48))
          (byte_at bytes 7 <<< 56))
