-- ===== src/Format/Endian/RoundTrip.antt =====
-- Encoding and decoding are inverse, whatever bytes follow.
use shibori_engine.Base.{
  ℕ, ◌^◌, ◌≤◌, ◌<◌, ◌≡◌, sym, ap, ◌∙◌, String, Bool-cases, inl, inr, List, [], ◌∷◌, ◌++◌, arith,
  ltb, length, take, take-all, IsBytes, little_endian, to_little_endian, All-append, All-take,
  IsByte, to_little_endian-IsBytes, length-take, little_endian-lt, le→ltb_false, ltb_false→le,
  little_endian-to_little_endian, to_little_endian-little_endian,
}
use shibori_engine.Error.{Operation, ok}
use shibori_engine.Format.Endian.{encode_u16_le, encode_u64_le, decode_u16_le, decode_u64_le}
use shibori_engine.Format.Endian.Codec.{
  encode_u16_le_digits, encode_u64_le_digits, decode_u16_le_digits, decode_u64_le_digits,
}

decode_u64_le_long :
    (bytes : List ℕ) (operation : Operation) (subject : String)
    → IsBytes bytes
    → 8 ≤ length bytes
    → decode_u64_le bytes operation subject ≡ ok (little_endian (take 8 bytes))
decode_u64_le_long bytes operation subject h long =
    decode_u64_le_digits bytes operation subject h ∙ rw (le→ltb_false (length bytes) 8 long)

-- Where exactly the field's bytes are at hand, they are read.
pub decode_u64_le_field :
    (bytes : List ℕ) (operation : Operation) (subject : String)
    → IsBytes bytes
    → length bytes ≡ 8
    → decode_u64_le bytes operation subject ≡ ok (little_endian bytes)
decode_u64_le_field bytes operation subject h len =
    decode_u64_le_long bytes operation subject h (omega arith)
    ∙ ap (λ b. ok (little_endian b)) (take-all 8 bytes (omega arith))

pub decode_u16_le_field :
    (bytes : List ℕ) (operation : Operation) (subject : String)
    → IsBytes bytes
    → length bytes ≡ 2
    → decode_u16_le bytes operation subject ≡ ok (little_endian bytes)
decode_u16_le_field bytes operation subject h len =
    decode_u16_le_digits bytes operation subject h
    ∙ rw (le→ltb_false (length bytes) 2 (omega arith), take-all 2 bytes (omega arith))

-- Decoding the encoding of a value below 2 ^ 16 gives the value, whatever bytes follow it.
pub decode_u16_le-encode :
    (value : ℕ) (rest : List ℕ) (operation : Operation) (subject : String)
    → value < 2 ^ 16
    → IsBytes rest
    → decode_u16_le (encode_u16_le value ++ rest) operation subject ≡ ok value
decode_u16_le-encode value rest operation subject fits bytes = rw encode_u16_le_digits (
    decode_u16_le_digits (to_little_endian 2 value ++ rest) operation subject
      (omega arith, (omega arith, bytes))
    ∙ ground arith)

-- Decoding the encoding of a value below 2 ^ 64 gives the value, whatever bytes follow it.
pub decode_u64_le-encode :
    (value : ℕ) (rest : List ℕ) (operation : Operation) (subject : String)
    → value < 2 ^ 64
    → IsBytes rest
    → decode_u64_le (encode_u64_le value ++ rest) operation subject ≡ ok value
decode_u64_le-encode value rest operation subject fits bytes = rw encode_u64_le_digits (
    decode_u64_le_long (to_little_endian 8 value ++ rest) operation subject
      (All-append IsByte (to_little_endian 8 value) rest (to_little_endian-IsBytes 8 value) bytes)
      (omega arith)
    ∙ ap ok (little_endian-to_little_endian 8 value fits))

-- Where a span of bytes decodes to a 16-bit value, the value is below 2 ^ 16 and encodes to the
-- first two bytes of the span.
pub encode-decode_u16_le :
    (bytes : List ℕ) (operation : Operation) (subject : String) {value : ℕ}
    → IsBytes bytes
    → decode_u16_le bytes operation subject ≡ ok value
    → (value < 2 ^ 16) × (encode_u16_le value ≡ take 2 bytes)
encode-decode_u16_le [] operation subject h e = cc (decode_u16_le_digits [] operation subject h)
encode-decode_u16_le (a ∷ []) operation subject h e =
    cc (decode_u16_le_digits (a ∷ []) operation subject h)
encode-decode_u16_le (a ∷ b ∷ rest) operation subject {value} h e =
    ground
      (arith, decode_u16_le_digits (a ∷ b ∷ rest) operation subject h, encode_u16_le_digits value)

encode-little_endian :
    (bytes : List ℕ) {value : ℕ}
    → IsBytes bytes
    → length bytes ≡ 8
    → value ≡ little_endian bytes
    → (value < 2 ^ 64) × (encode_u64_le value ≡ bytes)
encode-little_endian bytes {value} h len e = (
  omega (arith, little_endian-lt bytes h, ap (λ (n : ℕ). 256 ^ n) len),
  encode_u64_le_digits value
      ∙ rw e (
          ap (λ (n : ℕ). to_little_endian n (little_endian bytes)) (sym len)
          ∙ to_little_endian-little_endian bytes h),
)

-- Where a span of bytes decodes to a 64-bit value, the value is below 2 ^ 64 and encodes to the
-- first eight bytes of the span.
pub encode-decode_u64_le :
    (bytes : List ℕ) (operation : Operation) (subject : String) {value : ℕ}
    → IsBytes bytes
    → decode_u64_le bytes operation subject ≡ ok value
    → (value < 2 ^ 64) × (encode_u64_le value ≡ take 8 bytes)
encode-decode_u64_le bytes operation subject {value} h e =
    elim (Bool-cases (ltb (length bytes) 8)) [
      | inl short ↦ ground (arith, decode_u64_le_digits bytes operation subject h)
      | inr long ↦
          encode-little_endian (take 8 bytes) (All-take IsByte 8 bytes h)
            (length-take 8 bytes ∙ ground arith)
            (cc (decode_u64_le_long bytes operation subject h (ltb_false→le _ _ long)))
    ]
