-- ===== src/Utf8/Encoding.antt =====
-- UTF-8 as the encoding of Unicode scalar values, and the sequences `valid_utf8` goes through.
pub mod Leads
pub mod Rounds
pub mod Accepted
use shibori_engine.Base.{
  ℕ, zero, suc, ◌+◌, ◌-◌, ◌*◌, ◌/◌, ◌%◌, ◌^◌, ◌≤◌, ◌<◌, bit_and, bit_or, ◌≡◌, refl, sym, ap, ap₂,
  ◌∙◌, arith, ◌⊎◌, inl, inr, Bool, true, false, ◌&&◌, ◌||◌, ltb, leb, ◌==◌, ◌!=◌, if◌then◌else◌,
  Option, none, some, List, [], ◌∷◌, ◌++◌, length, drop, ◌<<<◌, IsByte, IsBytes, all_below_lem,
  ==_iff, Bool-cases, Option-cases,
}
use native.Mathlib.Nat.{pow-suc, div-div-eq-div-mul, div-le_self}
use shibori_engine.Base.Bits.{bit_and_mask, shifted-bit_or}
use shibori_engine.Utf8.{continuations}

abbrev pub IsScalar : ℕ → Type 0
IsScalar c = (c < 0xd800) ⊎ ((0xe000 ≤ c) × (c < 0x110000))

-- The `n` lowest digits of six bits, as continuation bytes.
abbrev pub tail : ℕ → ℕ → List ℕ
tail zero c = []
tail (suc n) c = (0x80 + c / 64 ^ n % 64) ∷ tail n c

unfoldable pub encode : ℕ → List ℕ
encode c =
    if ltb c 0x80
    then c ∷ []
    else if ltb c 0x800
    then (0xc0 + c / 64) ∷ tail 1 c
    else if ltb c 0x10000
    then (0xe0 + c / 64 ^ 2) ∷ tail 2 c
    else (0xf0 + c / 64 ^ 3) ∷ tail 3 c

abbrev pub encode_all : List ℕ → List ℕ
encode_all [] = []
encode_all (c ∷ scalars) = encode c ++ encode_all scalars

-- The masks of the source, on a byte.
pub top_bits :
    (b : ℕ)
    → IsByte b
    → (bit_and b 0xc0 ≡ b / 64 * 64)
      × (bit_and b 0xe0 ≡ b / 32 * 32)
      × (bit_and b 0xf0 ≡ b / 16 * 16)
      × (bit_and b 0xf8 ≡ b / 8 * 8)
top_bits b h = (
  (==_iff _ _).0 (all_below_lem 256 (λ i. bit_and i 0xc0 == i / 64 * 64) b refl h),
  (==_iff _ _).0 (all_below_lem 256 (λ i. bit_and i 0xe0 == i / 32 * 32) b refl h),
  (==_iff _ _).0 (all_below_lem 256 (λ i. bit_and i 0xf0 == i / 16 * 16) b refl h),
  (==_iff _ _).0 (all_below_lem 256 (λ i. bit_and i 0xf8 == i / 8 * 8) b refl h),
)

-- One more digit of the code point.
pub push_digit :
    (codepoint b : ℕ)
    → codepoint < 2 ^ 26
    → bit_or ((codepoint <<< 6) % 2 ^ 32) (bit_and b 0x3f) ≡ codepoint * 64 + b % 64
push_digit codepoint b small =
    let fits : (codepoint <<< 6) % 2 ^ 32 ≡ codepoint * 2 ^ 6 = omega arith in
    let low = bit_and_mask 6 b in
    ap₂ bit_or fits low ∙ shifted-bit_or 6 codepoint (b % 2 ^ 6) (omega arith) ∙ omega arith

next_digit : (n c : ℕ) → c / 64 ^ suc n ≡ c / 64 ^ n / 64
next_digit n c =
    let power : 64 ^ suc n ≡ 64 ^ n * 64 = omega (arith, pow-suc 64 n) in
    ap (λ (p : ℕ). c / p) power ∙ sym (div-div-eq-div-mul c (64 ^ n) 64)

-- A code point with `n` digits to come, so that it never leaves 32 bits.
abbrev pub Fits : ℕ → ℕ → Type 0
Fits n codepoint = codepoint < 2 ^ 32 / 64 ^ n

Fits-next : (n codepoint d : ℕ) → d < 64 → Fits (suc n) codepoint → Fits n (codepoint * 64 + d)
Fits-next n codepoint d small h = omega (arith, next_digit n (2 ^ 32))

Fits-small : (n codepoint : ℕ) → Fits (suc n) codepoint → codepoint < 2 ^ 26
Fits-small n codepoint h = omega (arith, next_digit n (2 ^ 32), div-le_self (2 ^ 32) (64 ^ n))

continuation_test : (b : ℕ) → IsByte b → (bit_and b 0xc0 != 0x80) ≡ true → (b < 0x80) ⊎ (0xc0 ≤ b)
continuation_test b h e = ground (arith, (top_bits b h).0)

-- What the loop makes of the continuation bytes of a code point.
pub continuations-tail :
    (n c : ℕ) (rest : List ℕ)
    → Fits n (c / 64 ^ n)
    → continuations n (tail n c ++ rest) (c / 64 ^ n) ≡ some c
continuations-tail zero c rest h = ap some (omega arith)
continuations-tail (suc n) c rest h =
    let b = 0x80 + c / 64 ^ n % 64 in
    let byte : IsByte b = omega arith in
    let test : (bit_and b 0xc0 != 0x80) ≡ false = ground (arith, (top_bits b byte).0) in
    let codepoint : bit_or (((c / 64 ^ suc n) <<< 6) % 2 ^ 32) (bit_and b 0x3f) ≡ c / 64 ^ n =
      push_digit (c / 64 ^ suc n) b (Fits-small n (c / 64 ^ suc n) h)
      ∙ omega (arith, next_digit n c) in
    let fits : Fits n (c / 64 ^ n) =
      ground
        (arith, next_digit n c, Fits-next n (c / 64 ^ suc n) (c / 64 ^ n % 64) (omega arith) h) in
    rw (test, codepoint) (continuations-tail n c rest fits)

pub some_same : {a b : ℕ} → some a ≡ some b → a ≡ b
some_same h = cc

-- The bytes that the loop accepts are the continuation bytes of what it returns.
pub continuations-accepted :
    (n : ℕ) (bytes : List ℕ) (codepoint c : ℕ)
    → IsBytes bytes
    → Fits n codepoint
    → continuations n bytes codepoint ≡ some c
    → (rest : List ℕ) × (bytes ≡ tail n c ++ rest) × (c / 64 ^ n ≡ codepoint)
continuations-accepted zero bytes codepoint c all fits h = (bytes, refl, omega (arith, some_same h))
continuations-accepted (suc n) [] codepoint c all fits h = absurd (cc)
continuations-accepted (suc n) (b ∷ bytes) codepoint c all fits h =
    elim (Bool-cases (bit_and b 0xc0 != 0x80)) [
      | inl wrong ↦ absurd (none_some (rw wrong at h))
      | inr continues ↦
          let in_range : (0x80 ≤ b) × (b < 0xc0) =
            ground (arith, continues, (top_bits b all.0).0) in
          let pushed = push_digit codepoint b (Fits-small n codepoint fits) in
          let (rest, same, digits) =
            continuations-accepted n bytes (codepoint * 64 + b % 64) c all.1
              (Fits-next n codepoint (b % 64) (omega arith) fits) (rw (continues, pushed) at h) in
          let head : b ≡ 0x80 + c / 64 ^ n % 64 = omega (arith, digits, in_range) in
          (rest, ap₂ ◌∷◌ head same, omega (arith, digits, next_digit n c))
    ]
  where
    none_some : {a : ℕ} → none ≡ some a → ⊥
    none_some h = cc
