-- ===== src/Column/Bitmap/Setting.antt =====
-- Setting one bit of a bitmap, as an update of its row of Booleans.
use shibori_engine.Base.{
  ℕ, zero, suc, ◌+◌, ◌*◌, ◌/◌, ◌%◌, ◌^◌, ◌<◌, ◌≡◌, refl, sym, ap, ◌∙◌, arith, Bool, true, false,
  ◌==◌, List, [], ◌∷◌, ◌++◌, length, replicate, ==_iff, all_below_lem, to_byte, ◌<<<◌,
}
use Prim.Native.Nat.add
use mathlib.Core.List.{append_assoc}
use shibori_engine.Column.Bitmap.{or_at, set_bit}
use shibori_engine.Column.Bitmap.Rows.{bits_of, bitmap_bits, set_true, bits_of-or, length-bits_of}

set_true-before :
    (k : ℕ) (xs ys : List Bool) → k < length xs → set_true k (xs ++ ys) ≡ set_true k xs ++ ys
set_true-before k [] ys h = absurd (omega arith)
set_true-before zero (x ∷ xs) ys h = refl
set_true-before (suc k) (x ∷ xs) ys h = ap (◌∷◌ x) (set_true-before k xs ys (omega arith))

set_true-past :
    (k : ℕ) (xs ys : List Bool) → set_true (length xs + k) (xs ++ ys) ≡ xs ++ set_true k ys
set_true-past k [] ys = ap (λ (i : ℕ). set_true i ys) (add.zero k)
set_true-past k (x ∷ xs) ys =
    ap (λ (i : ℕ). set_true i (x ∷ xs ++ ys)) (add.suc (length xs) k)
    ∙ ap (◌∷◌ x) (set_true-past k xs ys)

one_bit : (k : ℕ) → k < 8 → to_byte (1 <<< k) ≡ 1 * 2 ^ k
one_bit k h =
    (==_iff (to_byte (1 <<< k)) (1 * 2 ^ k)).0
      (all_below_lem 8 (λ i. to_byte (1 <<< i) == 1 * 2 ^ i) k refl h)

or_at-bits :
    (bytes : List ℕ) (index k : ℕ)
    → k < 8
    → bitmap_bits (or_at bytes index (1 * 2 ^ k)) ≡ set_true (8 * index + k) (bitmap_bits bytes)
unfolding bitmap_bits
or_at-bits [] index k h = refl
or_at-bits (b ∷ bytes) zero k h =
    let low : k ≡ 8 * 0 + k = omega arith in
    ap (λ (bits : List Bool). bits ++ bitmap_bits bytes) (bits_of-or 8 k b)
    ∙ sym (set_true-before k (bits_of 8 b) (bitmap_bits bytes) (omega (arith, length-bits_of 8 b)))
    ∙ ap (λ (i : ℕ). set_true i (bits_of 8 b ++ bitmap_bits bytes)) low
or_at-bits (b ∷ bytes) (suc index) k h =
    let past : length (bits_of 8 b) + (8 * index + k) ≡ 8 * suc index + k =
      omega (arith, length-bits_of 8 b) in
    ap (λ (bits : List Bool). bits_of 8 b ++ bits) (or_at-bits bytes index k h)
    ∙ sym (set_true-past (8 * index + k) (bits_of 8 b) (bitmap_bits bytes))
    ∙ ap (λ (i : ℕ). set_true i (bits_of 8 b ++ bitmap_bits bytes)) past

pub set_bit-bits :
    (bytes : List ℕ) (row : ℕ) → bitmap_bits (set_bit bytes row) ≡ set_true row (bitmap_bits bytes)
unfolding set_bit
set_bit-bits bytes row =
    let split : 8 * (row / 8) + row % 8 ≡ row = omega arith in
    ap (λ (bit : ℕ). bitmap_bits (or_at bytes (row / 8) bit)) (one_bit (row % 8) (omega arith))
    ∙ or_at-bits bytes (row / 8) (row % 8) (omega arith)
    ∙ ap (λ (i : ℕ). set_true i (bitmap_bits bytes)) split

pub length-or_at : (bytes : List ℕ) (index bit : ℕ) → length (or_at bytes index bit) ≡ length bytes
length-or_at [] index bit = refl
length-or_at (b ∷ bytes) zero bit = refl
length-or_at (b ∷ bytes) (suc index) bit = ap suc (length-or_at bytes index bit)

pub length-set_bit : (bytes : List ℕ) (row : ℕ) → length (set_bit bytes row) ≡ length bytes
unfolding set_bit
length-set_bit bytes row = length-or_at bytes (row / 8) (to_byte (1 <<< (row % 8)))

-- The first row that is still clear, set.
pub set_true-next :
    (flags : List Bool) (m : ℕ)
    → set_true (length flags) (flags ++ replicate (suc m) false)
      ≡ (flags ++ true ∷ []) ++ replicate m false
set_true-next [] m = refl
set_true-next (b ∷ flags) m = ap (◌∷◌ b) (set_true-next flags m)

pub clear_next :
    (flags : List Bool) (m : ℕ)
    → flags ++ replicate (suc m) false ≡ (flags ++ false ∷ []) ++ replicate m false
clear_next flags m = sym (append_assoc flags (false ∷ []) (replicate m false))

zero_byte : (bits : List Bool) → bits_of 8 0 ++ bits ≡ replicate 8 false ++ bits
unfolding bits_of
zero_byte bits = refl

replicate_add : (m n : ℕ) → replicate m false ++ replicate n false ≡ replicate (m + n) false
replicate_add zero n = ap (λ (k : ℕ). replicate k false) (sym (add.zero n))
replicate_add (suc m) n =
    ap (◌∷◌ false) (replicate_add m n) ∙ ap (λ (k : ℕ). replicate k false) (sym (add.suc m n))

pub zero_bytes : (n : ℕ) → bitmap_bits (replicate n 0) ≡ replicate (8 * n) false
unfolding bitmap_bits
zero_bytes zero = refl
zero_bytes (suc n) =
    let more : 8 + 8 * n ≡ 8 * suc n = omega arith in
    zero_byte (bitmap_bits (replicate n 0))
    ∙ ap (λ (bits : List Bool). replicate 8 false ++ bits) (zero_bytes n)
    ∙ replicate_add 8 (8 * n)
    ∙ ap (λ (m : ℕ). replicate m false) more
