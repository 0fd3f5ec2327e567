-- ===== src/Column/Bitmap/Padding.antt =====
-- The padding test of a bitmap: no bit above the rows, where the last byte's mask finds none.
use shibori_engine.Base.{
  ℕ, zero, suc, ◌+◌, ◌-◌, ◌*◌, ◌/◌, ◌%◌, ◌^◌, ◌≤◌, ◌<◌, bit_and, ◌≡◌, refl, sym, ap, ◌∙◌, arith,
  Bool, ◌==◌, List, [], ◌∷◌, ◌++◌, length, drop, length-append, subst, Bool-cases, ==_iff,
  all_below_lem, drop-all, drop-nil, drop-past, inl, inr, ◌⊎◌, byte_at,
}
use mathlib.Core.List.{append-nil}
use native.Mathlib.Nat.{pow-suc, one-le-pow}
use shibori_engine.Base.Bits.{bit_and-halves, bit_and-zero, two_pow-suc}
use shibori_engine.Column.Bitmap.{last_byte, padding_mask}
use shibori_engine.Column.Bitmap.Rows.{bits_of, bitmap_bits, count_true, length-bits_of}

-- A conjunction with the `n` bits above the lowest `k` that is zero has none of them.
low_clear : (n value : ℕ) → bit_and value (2 ^ n - 1) ≡ 0 → count_true (bits_of n value) ≡ 0
unfolding bits_of
low_clear zero value h = refl
low_clear (suc n) value h =
    let halves = bit_and-halves value (2 ^ suc n - 1) in
    let half : (2 ^ suc n - 1) / 2 ≡ 2 ^ n - 1 = omega (arith, pow-suc 2 n, one-le-pow n 2) in
    let middle = ap (bit_and (value / 2)) half in
    let rest = low_clear n (value / 2) (omega (arith, halves, middle)) in
    let even : value % 2 ≡ 0 = omega (arith, halves, pow-suc 2 n, one-le-pow n 2) in
    ground (arith, rest, even)

high_clear :
    (n k total value : ℕ)
    → total ≡ k + n
    → bit_and value ((2 ^ n - 1) * 2 ^ k) ≡ 0
    → count_true (drop k (bits_of total value)) ≡ 0
unfolding bits_of
high_clear n zero total value size h =
    let same : total ≡ n = omega arith in
    let mask : (2 ^ n - 1) * 2 ^ 0 ≡ 2 ^ n - 1 = omega arith in
    ap (λ (t : ℕ). count_true (bits_of t value)) same
    ∙ low_clear n value (ap (bit_and value) (sym mask) ∙ h)
high_clear n (suc k) zero value size h = refl
high_clear n (suc k) (suc total) value size h =
    let doubled : (2 ^ n - 1) * 2 ^ suc k ≡ 2 * ((2 ^ n - 1) * 2 ^ k) = two_pow-suc (2 ^ n - 1) k in
    let halves = bit_and-halves value ((2 ^ n - 1) * 2 ^ suc k) in
    let half : (2 ^ n - 1) * 2 ^ suc k / 2 ≡ (2 ^ n - 1) * 2 ^ k = omega (arith, doubled) in
    let middle = ap (bit_and (value / 2)) half in
    high_clear n k total (value / 2) (omega arith) (omega (arith, halves, middle))

low_zero : (n value : ℕ) → count_true (bits_of n value) ≡ 0 → bit_and value (2 ^ n - 1) ≡ 0
unfolding bits_of
low_zero zero value h = bit_and-zero value
low_zero (suc n) value h =
    let halves = bit_and-halves value (2 ^ suc n - 1) in
    let half : (2 ^ suc n - 1) / 2 ≡ 2 ^ n - 1 = omega (arith, pow-suc 2 n, one-le-pow n 2) in
    let middle = ap (bit_and (value / 2)) half in
    let even : value % 2 ≡ 0 = ground (arith, h) in
    let later : count_true (bits_of n (value / 2)) ≡ 0 = ground (arith, h) in
    omega (arith, halves, middle, even, low_zero n (value / 2) later)

high_zero :
    (n k total value : ℕ)
    → total ≡ k + n
    → count_true (drop k (bits_of total value)) ≡ 0
    → bit_and value ((2 ^ n - 1) * 2 ^ k) ≡ 0
unfolding bits_of
high_zero n zero total value size h =
    let same : total ≡ n = omega arith in
    let mask : (2 ^ n - 1) * 2 ^ 0 ≡ 2 ^ n - 1 = omega arith in
    ap (bit_and value) mask
    ∙ low_zero n value (ap (λ (t : ℕ). count_true (bits_of t value)) (sym same) ∙ h)
high_zero n (suc k) zero value size h = absurd (omega arith)
high_zero n (suc k) (suc total) value size h =
    let doubled : (2 ^ n - 1) * 2 ^ suc k ≡ 2 * ((2 ^ n - 1) * 2 ^ k) = two_pow-suc (2 ^ n - 1) k in
    let halves = bit_and-halves value ((2 ^ n - 1) * 2 ^ suc k) in
    let half : (2 ^ n - 1) * 2 ^ suc k / 2 ≡ (2 ^ n - 1) * 2 ^ k = omega (arith, doubled) in
    let middle = ap (bit_and (value / 2)) half in
    omega (arith, halves, middle, doubled, high_zero n k total (value / 2) (omega arith) h)

padding_mask-bits : (k : ℕ) → k < 8 → padding_mask k ≡ (2 ^ (8 - k) - 1) * 2 ^ k
padding_mask-bits k h =
    (==_iff (padding_mask k) ((2 ^ (8 - k) - 1) * 2 ^ k)).0
      (all_below_lem 8 (λ i. padding_mask i == (2 ^ (8 - i) - 1) * 2 ^ i) k refl h)

single_clear :
    (rows b : ℕ)
    → 0 < rows
    → rows < 8
    → (rows % 8 ≡ 0) ⊎ (bit_and b (padding_mask (rows % 8)) ≡ 0)
    → count_true (drop rows (bits_of 8 b)) ≡ 0
single_clear rows b some_row small (inl zero_left) = absurd (omega arith)
single_clear rows b some_row small (inr clear) =
    let same : rows % 8 ≡ rows = omega arith in
    let mask = ap padding_mask same ∙ padding_mask-bits rows small in
    high_clear (8 - rows) rows 8 b (omega arith) (ap (bit_and b) (sym mask) ∙ clear)

last_byte-cons : (b c : ℕ) (bytes : List ℕ) → last_byte (b ∷ c ∷ bytes) ≡ last_byte (c ∷ bytes)
last_byte-cons b c bytes =
    let past : length (b ∷ c ∷ bytes) - 1 ≡ suc (length (c ∷ bytes) - 1) = omega arith in
    ap (byte_at (b ∷ c ∷ bytes)) past

bits_past :
    (rows b : ℕ) (bytes : List ℕ)
    → 8 ≤ rows
    → drop rows (bitmap_bits (b ∷ bytes)) ≡ drop (rows - 8) (bitmap_bits bytes)
unfolding bitmap_bits
bits_past rows b bytes h =
    let less : rows - length (bits_of 8 b) ≡ rows - 8 =
      ap (λ (k : ℕ). rows - k) (length-bits_of 8 b) in
    drop-past rows (bits_of 8 b) (bitmap_bits bytes) (omega (arith, length-bits_of 8 b))
    ∙ ap (λ (k : ℕ). drop k (bitmap_bits bytes)) less

-- No bit above the rows, where the padding of the last byte is clear.
pub padding_clear :
    (rows : ℕ) (bytes : List ℕ)
    → length bytes ≡ (rows + 7) / 8
    → (rows % 8 ≡ 0) ⊎ (bit_and (last_byte bytes) (padding_mask (rows % 8)) ≡ 0)
    → count_true (drop rows (bitmap_bits bytes)) ≡ 0
unfolding bitmap_bits
padding_clear rows [] size h = ap count_true (drop-nil rows)
padding_clear rows (b ∷ []) size h = elim (Bool-cases (rows == 8)) [
  | inl full ↦ ap count_true (
      drop-all rows (bits_of 8 b ++ [])
        (omega (arith, length-append (bits_of 8 b) [], length-bits_of 8 b, (==_iff rows 8).0 full)))
  | inr partial ↦
      let small : rows < 8 = ground (arith, size, partial) in
      ap (λ (bits : List Bool). count_true (drop rows bits)) (append-nil (bits_of 8 b))
      ∙ single_clear rows b (omega arith) small h
]
padding_clear rows (b ∷ c ∷ bytes) size h =
    let past = bits_past rows b (c ∷ bytes) (omega (arith, size)) in
    let same : rows % 8 ≡ (rows - 8) % 8 = omega (arith, size) in
    let rest = padding_clear (rows - 8) (c ∷ bytes) (omega (arith, size)) (
      subst (λ (r : ℕ). (r ≡ 0) ⊎ (bit_and (last_byte (c ∷ bytes)) (padding_mask r) ≡ 0)) same
        (subst (λ (l : ℕ). (rows % 8 ≡ 0) ⊎ (bit_and l (padding_mask (rows % 8)) ≡ 0))
          (last_byte-cons b c bytes) h)) in
    ap count_true past ∙ rest

-- The padding of the last byte is clear, where no bit is above the rows.
pub padding_zero :
    (rows : ℕ) (bytes : List ℕ)
    → length bytes ≡ (rows + 7) / 8
    → count_true (drop rows (bitmap_bits bytes)) ≡ 0
    → (rows % 8 ≡ 0) ⊎ (bit_and (last_byte bytes) (padding_mask (rows % 8)) ≡ 0)
unfolding bitmap_bits
padding_zero rows [] size h = inl (omega arith)
padding_zero rows (b ∷ []) size h = elim (Bool-cases (rows == 8)) [
  | inl full ↦ inl (ground (arith, full))
  | inr partial ↦
      let small : rows < 8 = ground (arith, size, partial) in
      let some_row : 0 < rows = omega (arith, size) in
      let same : rows ≡ rows % 8 = omega arith in
      let bits =
        ap (λ (bits : List Bool). count_true (drop rows bits)) (sym (append-nil (bits_of 8 b)))
        ∙ h in
      let mask = ap padding_mask (sym same) ∙ padding_mask-bits rows small in
      inr (ap (bit_and b) mask ∙ high_zero (8 - rows) rows 8 b (omega arith) bits)
]
padding_zero rows (b ∷ c ∷ bytes) size h =
    let past = bits_past rows b (c ∷ bytes) (omega (arith, size)) in
    let same : (rows - 8) % 8 ≡ rows % 8 = omega (arith, size) in
    let rest =
      padding_zero (rows - 8) (c ∷ bytes) (omega (arith, size)) (sym (ap count_true past) ∙ h) in
    subst (λ (l : ℕ). (rows % 8 ≡ 0) ⊎ (bit_and l (padding_mask (rows % 8)) ≡ 0))
      (sym (last_byte-cons b c bytes))
      (subst (λ (r : ℕ). (r ≡ 0) ⊎ (bit_and (last_byte (c ∷ bytes)) (padding_mask r) ≡ 0)) same
        rest)
