-- ===== src/Format/Endian/Codec.antt =====
-- The fixed-width codecs against the little-endian reading of a byte sequence.
use shibori_engine.Base.{
  ℕ, ◌+◌, ◌*◌, ◌/◌, ◌^◌, ◌≡◌, refl, String, List, [], ◌∷◌, arith, ltb, bit_or, if◌then◌else◌,
  length, take, IsBytes, little_endian, to_little_endian,
}
use shibori_engine.Base.Bits.{bit_or_shifted}
use shibori_engine.Base.Words.{low_byte, or_u16, or_u32}
use shibori_engine.Error.{Operation, ok, err}
use shibori_engine.Format.Endian.{
  encode_u16_le, encode_u32_le, encode_u64_le, truncated, decode_u16_le, decode_u32_le,
  decode_u64_le,
}

-- `encode_u16_le` emits the two lowest base-256 digits of the value, lowest first.
pub encode_u16_le_digits : (v : ℕ) → encode_u16_le v ≡ to_little_endian 2 v
unfolding encode_u16_le
encode_u16_le_digits v = ground (arith, low_byte v, low_byte (v / 2 ^ 8))

pub encode_u32_le_digits : (v : ℕ) → encode_u32_le v ≡ to_little_endian 4 v
unfolding encode_u32_le
encode_u32_le_digits v =
    ground (arith, low_byte v, low_byte (v / 2 ^ 8), low_byte (v / 2 ^ 16), low_byte (v / 2 ^ 24))

pub encode_u64_le_digits : (v : ℕ) → encode_u64_le v ≡ to_little_endian 8 v
unfolding encode_u64_le
encode_u64_le_digits v = ground (
  arith,
  low_byte v,
  low_byte (v / 2 ^ 8),
  low_byte (v / 2 ^ 16),
  low_byte (v / 2 ^ 24),
  low_byte (v / 2 ^ 32),
  low_byte (v / 2 ^ 40),
  low_byte (v / 2 ^ 48),
  low_byte (v / 2 ^ 56),
)

-- `decode_u16_le` reads the number whose digits are the first two bytes, and fails on fewer.
pub decode_u16_le_digits :
    (bytes : List ℕ) (operation : Operation) (subject : String)
    → IsBytes bytes
    → decode_u16_le bytes operation subject ≡ (
        if ltb (length bytes) 2
        then err (truncated operation subject)
        else ok (little_endian (take 2 bytes)))
unfolding decode_u16_le
decode_u16_le_digits [] operation subject h = refl
decode_u16_le_digits (a ∷ []) operation subject h = refl
decode_u16_le_digits (a ∷ b ∷ rest) operation subject h = ground (arith, or_u16 a b)

decode_u32_le_digits :
    (bytes : List ℕ) (operation : Operation) (subject : String)
    → IsBytes bytes
    → decode_u32_le bytes operation subject ≡ (
        if ltb (length bytes) 4
        then err (truncated operation subject)
        else ok (little_endian (take 4 bytes)))
unfolding decode_u32_le
decode_u32_le_digits [] operation subject h = refl
decode_u32_le_digits (a ∷ []) operation subject h = refl
decode_u32_le_digits (a ∷ b ∷ []) operation subject h = refl
decode_u32_le_digits (a ∷ b ∷ c ∷ []) operation subject h = refl
decode_u32_le_digits (a ∷ b ∷ c ∷ d ∷ rest) operation subject h = ground (arith, or_u32 a b c d)

or_u64 :
    (a b c d e f g h : ℕ)
    → IsBytes (a ∷ b ∷ c ∷ d ∷ e ∷ f ∷ g ∷ [])
    → bit_or
        (bit_or
          (bit_or
            (bit_or (bit_or (bit_or (bit_or a (b * 2 ^ 8)) (c * 2 ^ 16)) (d * 2 ^ 24)) (e * 2 ^ 32))
            (f * 2 ^ 40))
          (g * 2 ^ 48))
        (h * 2 ^ 56)
      ≡ little_endian (a ∷ b ∷ c ∷ d ∷ e ∷ f ∷ g ∷ h ∷ [])
or_u64 a b c d e f g h bytes =
    let low = a + 256 * (b + 256 * (c + 256 * d)) in
    rw
      (
        or_u32 a b c d (omega arith) (omega arith) (omega arith),
        bit_or_shifted 32 low e (omega arith),
        bit_or_shifted 40 (low + e * 2 ^ 32) f (omega arith),
        bit_or_shifted 48 (low + e * 2 ^ 32 + f * 2 ^ 40) g (omega arith),
        bit_or_shifted 56 (low + e * 2 ^ 32 + f * 2 ^ 40 + g * 2 ^ 48) h (omega arith),
      )
      (omega arith)

-- On bytes, `decode_u64_le` fails with `unexpected_end` on fewer than eight of them, and
-- otherwise reads the number whose base-256 digits, lowest first, are the first eight.
pub decode_u64_le_digits :
    (bytes : List ℕ) (operation : Operation) (subject : String)
    → IsBytes bytes
    → decode_u64_le bytes operation subject ≡ (
        if ltb (length bytes) 8
        then err (truncated operation subject)
        else ok (little_endian (take 8 bytes)))
unfolding decode_u64_le
decode_u64_le_digits [] operation subject h = refl
decode_u64_le_digits (a ∷ []) operation subject h = refl
decode_u64_le_digits (a ∷ b ∷ []) operation subject h = refl
decode_u64_le_digits (a ∷ b ∷ c ∷ []) operation subject h = refl
decode_u64_le_digits (a ∷ b ∷ c ∷ d ∷ []) operation subject h = refl
decode_u64_le_digits (a ∷ b ∷ c ∷ d ∷ e ∷ []) operation subject h = refl
decode_u64_le_digits (a ∷ b ∷ c ∷ d ∷ e ∷ f ∷ []) operation subject h = refl
decode_u64_le_digits (a ∷ b ∷ c ∷ d ∷ e ∷ f ∷ g ∷ []) operation subject h = refl
decode_u64_le_digits (a ∷ b ∷ c ∷ d ∷ e ∷ f ∷ g ∷ x ∷ rest) operation subject h =
    ground (arith, or_u64 a b c d e f g x (omega arith))
