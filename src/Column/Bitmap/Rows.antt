-- ===== src/Column/Bitmap/Rows.antt =====
-- A bitmap as a row of Booleans, lowest bit first, and the bit expressions on it.
use shibori_engine.Base.{
  ℕ, zero, suc, ◌+◌, ◌*◌, ◌/◌, ◌%◌, ◌^◌, ◌≤◌, ◌<◌, bit_and, bit_or, ◌≡◌, refl, sym, ap, ap₂, ◌∙◌,
  arith, Bool, true, ◌==◌, ◌!=◌, if◌then◌else◌, some, List, [], ◌∷◌, ◌++◌, length, get_elem?,
  length-append, ==_iff, get_elem?-before, get_elem?-past, byte_at,
}
use native.Mathlib.Nat.{pow-suc}
use shibori_engine.Base.Bits.{bit_and-halves, bit_or-halves, bit_and_mask, bit_or-zero}
use shibori_engine.Column.Bitmap.{bit_test, ones, popcount}

-- The lowest `n` bits of a number.
unfoldable pub bits_of : ℕ → ℕ → List Bool
bits_of zero value = []
bits_of (suc n) value = (value % 2 == 1) ∷ bits_of n (value / 2)

-- The rows of a bitmap, eight to a byte.
unfoldable pub bitmap_bits : List ℕ → List Bool
bitmap_bits [] = []
bitmap_bits (b ∷ bytes) = bits_of 8 b ++ bitmap_bits bytes

abbrev pub count_true : List Bool → ℕ
count_true [] = 0
count_true (b ∷ bits) = (if b then 1 else 0) + count_true bits

-- The bit of weight `2 ^ k`.
abbrev pub bit : ℕ → ℕ → ℕ
bit zero value = value % 2
bit (suc k) value = bit k (value / 2)

-- A row of bits with the one at an index set.
abbrev pub set_true : ℕ → List Bool → List Bool
set_true k [] = []
set_true zero (b ∷ bits) = true ∷ bits
set_true (suc k) (b ∷ bits) = b ∷ set_true k bits

two_pow : (k : ℕ) → 1 * 2 ^ suc k ≡ 2 * (1 * 2 ^ k)
two_pow k = omega (arith, pow-suc 2 k)

mask_half : (k : ℕ) → 1 * 2 ^ suc k / 2 ≡ 1 * 2 ^ k
mask_half k = omega (arith, two_pow k)

pub bit_and_power : (k value : ℕ) → (bit_and value (1 * 2 ^ k) != 0) ≡ (bit k value == 1)
bit_and_power zero value = ground (arith, bit_and_mask 1 value)
bit_and_power (suc k) value =
    let half = bit_and_power k (value / 2) in
    let split : bit_and value (1 * 2 ^ suc k) ≡ 2 * bit_and (value / 2) (1 * 2 ^ k) = omega (
      arith,
      two_pow k,
      bit_and-halves value (1 * 2 ^ suc k),
      ap (bit_and (value / 2)) (mask_half k),
    ) in
    doubled (bit_and value (1 * 2 ^ suc k)) (bit_and (value / 2) (1 * 2 ^ k)) split ∙ half
  where
    doubled : (a b : ℕ) → a ≡ 2 * b → (a != 0) ≡ (b != 0)
    doubled a b h = ground arith

pub bits_of-or :
    (n k value : ℕ) → bits_of n (bit_or value (1 * 2 ^ k)) ≡ set_true k (bits_of n value)
unfolding bits_of
bits_of-or zero k value = refl
bits_of-or (suc n) zero value =
    let halves = bit_or-halves value (1 * 2 ^ 0) in
    let rest = bit_or-zero (value / 2) in
    let low : bit_or value (1 * 2 ^ 0) % 2 ≡ 1 = omega (arith, halves, rest) in
    let high : bit_or value (1 * 2 ^ 0) / 2 ≡ value / 2 = omega (arith, halves, rest) in
    ap₂ ◌∷◌ ((==_iff _ 1).1 low) (ap (bits_of n) high)
bits_of-or (suc n) (suc k) value =
    let halves = bit_or-halves value (1 * 2 ^ suc k) in
    let middle = ap (bit_or (value / 2)) (mask_half k) in
    let high : bit_or value (1 * 2 ^ suc k) / 2 ≡ bit_or (value / 2) (1 * 2 ^ k) =
      omega (arith, halves, middle, two_pow k) in
    let low : bit_or value (1 * 2 ^ suc k) % 2 ≡ value % 2 = omega (arith, halves, two_pow k) in
    ap₂ ◌∷◌ (ap (λ (r : ℕ). r == 1) low) (ap (bits_of n) high ∙ bits_of-or n k (value / 2))

pub length-bits_of : (n value : ℕ) → length (bits_of n value) ≡ n
unfolding bits_of
length-bits_of zero value = refl
length-bits_of (suc n) value = ap suc (length-bits_of n (value / 2))

get_elem?-bits_of :
    (n k value : ℕ) → k < n → get_elem? (bits_of n value) k ≡ some (bit k value == 1)
unfolding bits_of
get_elem?-bits_of zero k value h = absurd (omega arith)
get_elem?-bits_of (suc n) zero value h = refl
get_elem?-bits_of (suc n) (suc k) value h = get_elem?-bits_of n k (value / 2) (omega arith)

pub length-bitmap_bits : (bytes : List ℕ) → length (bitmap_bits bytes) ≡ 8 * length bytes
unfolding bitmap_bits
length-bitmap_bits [] = refl
length-bitmap_bits (b ∷ bytes) = omega (
  arith,
  length-append (bits_of 8 b) (bitmap_bits bytes),
  length-bits_of 8 b,
  length-bitmap_bits bytes,
)

pub count_true-append : (xs ys : List Bool) → count_true (xs ++ ys) ≡ count_true xs + count_true ys
count_true-append [] ys = omega arith
count_true-append (x ∷ xs) ys = omega (arith, count_true-append xs ys)

count_true-ones : (n value : ℕ) → ones n value ≡ count_true (bits_of n value)
unfolding bits_of ones
count_true-ones zero value = refl
count_true-ones (suc n) value = ground (arith, count_true-ones n (value / 2))

-- The one bits of a byte are its true rows.
pub popcount-bits_of : (value : ℕ) → popcount value ≡ count_true (bits_of 8 value)
unfolding popcount
popcount-bits_of value = count_true-ones 8 value

pub count_true-length : (bits : List Bool) → count_true bits ≤ length bits
count_true-length [] = omega arith
count_true-length (b ∷ bits) = ground (arith, count_true-length bits)

-- The test of a row is the row's entry of the bitmap.
get_elem?-bitmap :
    (bytes : List ℕ) (index k : ℕ)
    → k < 8
    → index < length bytes
    → get_elem? (bitmap_bits bytes) (8 * index + k) ≡ some (bit k (byte_at bytes index) == 1)
unfolding bitmap_bits
get_elem?-bitmap [] index k small h = absurd (omega arith)
get_elem?-bitmap (b ∷ bytes) zero k small h =
    let low : 8 * 0 + k ≡ k = omega arith in
    ap (get_elem? (bits_of 8 b ++ bitmap_bits bytes)) low
    ∙ get_elem?-before k (bits_of 8 b) (bitmap_bits bytes) (omega (arith, length-bits_of 8 b))
    ∙ get_elem?-bits_of 8 k b small
get_elem?-bitmap (b ∷ bytes) (suc index) k small h =
    let past : 8 * suc index + k ≡ length (bits_of 8 b) + (8 * index + k) =
      omega (arith, length-bits_of 8 b) in
    ap (get_elem? (bits_of 8 b ++ bitmap_bits bytes)) past
    ∙ get_elem?-past (8 * index + k) (bits_of 8 b) (bitmap_bits bytes)
    ∙ get_elem?-bitmap bytes index k small (omega arith)

pub get_elem?-bitmap_bits :
    (bytes : List ℕ) (row : ℕ)
    → row < 8 * length bytes
    → get_elem? (bitmap_bits bytes) row ≡ some (bit_test bytes row)
unfolding bit_test
get_elem?-bitmap_bits bytes row h =
    let split : row ≡ 8 * (row / 8) + row % 8 = omega arith in
    ap (get_elem? (bitmap_bits bytes)) split
    ∙ get_elem?-bitmap bytes (row / 8) (row % 8) (omega arith) (omega arith)
    ∙ ap some (sym (bit_and_power (row % 8) (byte_at bytes (row / 8))))
