-- ===== src/Integrity/Digest/Text.antt =====
-- The text of a digest and the digest of a text.
use shibori_engine.Base.{
  all_below_lem, ℕ, zero, suc, ◌+◌, ◌*◌, ◌%◌, ◌<◌, bit_and, bit_or, ◌≡◌, refl, sym, ap, ap₂, ◌∙◌,
  arith, Bool, false, ◌&&◌, leb, ltb, ◌==◌, ◌!=◌, if◌then◌else◌, inl, inr, ==_iff, some, List, [],
  ◌∷◌, map, length, to_byte, byte_at, ◌<<<◌, ◌>>>◌, IsBytes, Option-cases, subst,
}
use shibori_engine.Base.Bits.{bit_and_mask, shifted-bit_or}
use shibori_engine.Error.{Error, Result, ok, fail_if, ◌>>=◌, ◌>>◌, >>=-eq-ok}
use shibori_engine.Integrity.Digest.{
  hex_digits, decode_hex, to_hex, decode_pair, decode_pairs, from_hex, wrong_size,
}

-- The code of a digit: from `0` below ten, and from `a` above.
abbrev digit_code : ℕ → ℕ
digit_code n = if ltb n 10 then 48 + n else 87 + n

hex_digits_code : (n : ℕ) → n < 16 → byte_at hex_digits n ≡ digit_code n
hex_digits_code n h =
    (==_iff (byte_at hex_digits n) (digit_code n)).0
      (all_below_lem 16 (λ m. byte_at hex_digits m == digit_code m) n refl h)

decode_hex-digit_code : (n : ℕ) → n < 16 → decode_hex (digit_code n) ≡ some n
unfolding decode_hex
decode_hex-digit_code n h = ground arith

-- Capital letters made small.
abbrev pub lower_case : ℕ → ℕ
lower_case c = if leb 65 c && leb c 70 then c + 32 else c

decode_hex_digit : (c n : ℕ) → decode_hex c ≡ some n → (n < 16) × (digit_code n ≡ lower_case c)
unfolding decode_hex
decode_hex_digit c n h = ground arith

-- Two nibbles make a byte.
paired : (high low : ℕ) → high < 16 → low < 16 → to_byte (bit_or (high <<< 4) low) ≡ high * 16 + low
paired high low hh hl = omega (arith, shifted-bit_or 4 high low (omega arith))

low_nibble : (b : ℕ) → bit_and b 0x0f ≡ b % 16
low_nibble b = bit_and_mask 4 b

decode_hex-nibble : (n : ℕ) → n < 16 → decode_hex (byte_at hex_digits n) ≡ some n
decode_hex-nibble n h = ap decode_hex (hex_digits_code n h) ∙ decode_hex-digit_code n h

length-to_hex : (bytes : List ℕ) → length (to_hex bytes) ≡ 2 * length bytes
unfolding to_hex
length-to_hex [] = refl
length-to_hex (b ∷ bytes) = omega (arith, length-to_hex bytes)

decode_pair-byte :
    (b : ℕ)
    → b < 256
    → decode_pair
        (decode_hex (byte_at hex_digits (b >>> 4)))
        (decode_hex (byte_at hex_digits (bit_and b 0x0f)))
      ≡ ok b
unfolding decode_pair
decode_pair-byte b h =
    ap₂ decode_pair (decode_hex-nibble (b >>> 4) (omega arith))
      (decode_hex-nibble (bit_and b 0x0f) (omega (arith, low_nibble b)))
    ∙ ap ok (
        omega (
          arith,
          low_nibble b,
          paired (b >>> 4) (bit_and b 0x0f) (omega arith) (omega (arith, low_nibble b)),
        ))

decode_pairs-to_hex : (bytes : List ℕ) → IsBytes bytes → decode_pairs (to_hex bytes) ≡ ok bytes
unfolding decode_pairs to_hex
decode_pairs-to_hex [] h = refl
decode_pairs-to_hex (b ∷ bytes) h =
    ap (λ (r : Result ℕ). r >>= λ byte. decode_pairs (to_hex bytes) >>= λ rest. ok (byte ∷ rest))
      (decode_pair-byte b h.0)
    ∙ ap (λ (r : Result (List ℕ)). r >>= λ rest. ok (b ∷ rest)) (decode_pairs-to_hex bytes h.1)

-- The text of every digest of 32 bytes is parsed back to it.
pub from_hex-to_hex :
    (bytes : List ℕ) → length bytes ≡ 32 → IsBytes bytes → from_hex (to_hex bytes) ≡ ok bytes
unfolding from_hex
from_hex-to_hex bytes size h =
    let whole : (length (to_hex bytes) != 64) ≡ false = ground (arith, length-to_hex bytes) in
    ap (λ (test : Bool). fail_if test wrong_size >> decode_pairs (to_hex bytes)) whole
    ∙ decode_pairs-to_hex bytes h

ok_same {ℓ} : {A : Type ℓ} {a b : A} → ok a ≡ ok b → a ≡ b
ok_same h = cc

decode_pair-ok :
    (high low b : ℕ)
    → decode_pair (decode_hex high) (decode_hex low) ≡ ok b
    → (b < 256)
      × (byte_at hex_digits (b >>> 4) ≡ lower_case high)
      × (byte_at hex_digits (bit_and b 0x0f) ≡ lower_case low)
unfolding decode_pair
decode_pair-ok high low b h = elim (Option-cases (decode_hex high)) [
  | inl bad ↦ absurd (cc (rw bad at h))
  | inr (m, is_high) ↦ elim (Option-cases (decode_hex low)) [
    | inl bad ↦ absurd (cc (rw (is_high, bad) at h))
    | inr (n, is_low) ↦
        let (m_fits, m_code) = decode_hex_digit high m is_high in
        let (n_fits, n_code) = decode_hex_digit low n is_low in
        let made : b ≡ m * 16 + n =
          sym (ok_same (sym (ap₂ decode_pair is_high is_low) ∙ h)) ∙ paired m n m_fits n_fits in
        let upper : b >>> 4 ≡ m = omega arith in
        let lower : bit_and b 0x0f ≡ n = omega (arith, low_nibble b) in
        (
          omega arith,
          ap (byte_at hex_digits) upper ∙ hex_digits_code m m_fits ∙ m_code,
          ap (byte_at hex_digits) lower ∙ hex_digits_code n n_fits ∙ n_code,
        )
  ]
]

decode_pairs-ok :
    (text bytes : List ℕ) (count : ℕ)
    → length text ≡ 2 * count
    → decode_pairs text ≡ ok bytes
    → (length bytes ≡ count) × IsBytes bytes × (to_hex bytes ≡ map lower_case text)
unfolding decode_pairs to_hex
decode_pairs-ok [] bytes count size h =
    subst (λ (ds : List ℕ). (length ds ≡ count) × IsBytes ds × (to_hex ds ≡ [])) (ok_same h)
      (omega arith, tt, refl)
decode_pairs-ok (c ∷ []) bytes count size h = absurd (omega arith)
decode_pairs-ok (high ∷ low ∷ text) bytes zero size h = absurd (omega arith)
decode_pairs-ok (high ∷ low ∷ text) bytes (suc count) size h =
    let (b, paired_ok, rest) = >>=-eq-ok (decode_pair (decode_hex high) (decode_hex low)) _ h in
    let (tail, tail_ok, joined) = >>=-eq-ok (decode_pairs text) (λ bs. ok (b ∷ bs)) rest in
    let (fits, first, second) = decode_pair-ok high low b paired_ok in
    let (tail_size, tail_bytes, tail_text) =
      decode_pairs-ok text tail count (omega arith) tail_ok in
    subst
      (λ (ds : List ℕ).
        (length ds ≡ suc count) × IsBytes ds × (to_hex ds ≡ map lower_case (high ∷ low ∷ text)))
      (ok_same joined)
      (omega (arith, tail_size), (fits, tail_bytes), ap₂ ◌∷◌ first (ap₂ ◌∷◌ second tail_text))

right_size : (size : ℕ) (e : Error) {u : Unit {0}} → fail_if (size != 64) e ≡ ok u → size ≡ 64
right_size size e h = ground arith

-- A text that parses as a digest gives 32 bytes, whose text is the one parsed with small letters.
pub to_hex-from_hex :
    (text bytes : List ℕ)
    → from_hex text ≡ ok bytes
    → (length bytes ≡ 32) × IsBytes bytes × (to_hex bytes ≡ map lower_case text)
unfolding from_hex
to_hex-from_hex text bytes h =
    let (_, sized, decoded) = >>=-eq-ok (fail_if (length text != 64) wrong_size) _ h in
    decode_pairs-ok text bytes 32 (right_size (length text) wrong_size sized) decoded
