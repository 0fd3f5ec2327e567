-- ===== src/Column/Validity/NullCount.antt =====
-- The null count of a validity bitmap against the rows its `is_valid` accepts.
use shibori_engine.Base.{
  ℕ, zero, suc, ◌+◌, ◌-◌, ◌*◌, ◌/◌, ◌%◌, ◌^◌, ◌≤◌, ◌<◌, ◌≡◌, refl, sym, ap, ◌∙◌, arith, Bool, true,
  false, if◌then◌else◌, List, [], ◌∷◌, length, drop, take, Option, some, none, get_elem?,
  take-append-drop, subst, le→ltb_false, !=_refl, bit_and, ◌⊎◌,
}
use shibori_engine.CheckedArithmetic.{max_u64, wrapping_subtract}
use shibori_engine.Error.{ok}
use shibori_engine.Column.Buffer.{ByteBuffer}
use shibori_engine.Column.Bitmap.{bit_test, popcount, padding_mask, last_byte}
use shibori_engine.Column.Bitmap.Rows.{
  bits_of, bitmap_bits, count_true, count_true-append, popcount-bits_of, count_true-length,
  length-bitmap_bits, get_elem?-bitmap_bits,
}
use shibori_engine.Column.Bitmap.Padding.{padding_clear}
use shibori_engine.Column.Validity.{
  Validity, validity, add_popcounts, has_padding_bits, from_bitmap, is_valid,
}

-- The rows below `n` that are not valid.
abbrev pub null_rows : Validity → ℕ → ℕ
null_rows v zero = 0
null_rows v (suc n) = (if is_valid v n then 0 else 1) + null_rows v n

pub add_popcounts-count :
    (count : ℕ) (bytes : List ℕ)
    → count + count_true (bitmap_bits bytes) < 2 ^ 64
    → add_popcounts count bytes ≡ count + count_true (bitmap_bits bytes)
unfolding bitmap_bits
add_popcounts-count count [] h = omega arith
add_popcounts-count count (value ∷ bytes) h =
    let here = popcount-bits_of value in
    let both = count_true-append (bits_of 8 value) (bitmap_bits bytes) in
    let fits : (count + popcount value) % 2 ^ 64 ≡ count + popcount value =
      omega (arith, here, both) in
    ap (λ (c : ℕ). add_popcounts c bytes) fits
    ∙ add_popcounts-count (count + popcount value) bytes (omega (arith, here, both))
    ∙ omega (arith, here, both)

-- The true entries before `n + 1` are those before `n` and the entry at `n`.
pub count_true-take-suc :
    (n : ℕ) (bits : List Bool) (b : Bool)
    → get_elem? bits n ≡ some b
    → count_true (take (suc n) bits) ≡ (if b then 1 else 0) + count_true (take n bits)
count_true-take-suc n [] b h = absurd (cc)
count_true-take-suc zero (x ∷ bits) b h = ap (λ (o : Option Bool). counted o + 0) h
  where
    counted : Option Bool → ℕ
    counted none = 0
    counted (some c) = if c then 1 else 0
count_true-take-suc (suc n) (x ∷ bits) b h = omega (arith, count_true-take-suc n bits b h)

null_rows-take :
    (v : Validity) (n : ℕ)
    → n ≤ v.row_count
    → v.row_count ≤ 8 * length v.bitmap.bytes
    → null_rows v n + count_true (take n (bitmap_bits v.bitmap.bytes)) ≡ n
unfolding is_valid
null_rows-take v zero below enough = refl
null_rows-take v (suc n) below enough =
    let bits = bitmap_bits v.bitmap.bytes in
    let here = get_elem?-bitmap_bits v.bitmap.bytes n (omega arith) in
    let next = count_true-take-suc n bits (bit_test v.bitmap.bytes n) here in
    let rest = null_rows-take v n (omega arith) enough in ground (arith, next, rest)

pub no_padding :
    (n : ℕ) (bytes : List ℕ)
    → length bytes ≡ (n + 7) / 8
    → has_padding_bits n bytes ≡ false
    → (n % 8 ≡ 0) ⊎ (bit_and (last_byte bytes) (padding_mask (n % 8)) ≡ 0)
no_padding n bytes size h = ground arith

-- What `from_bitmap` has checked where it succeeds, and what it returns then.
pub from_bitmap-ok :
    (allocates : Bool) (n : ℕ) (bitmap : ByteBuffer) {v : Validity}
    → from_bitmap allocates n bitmap ≡ ok v
    → (n ≤ max_u64 - 7)
      × (length bitmap.bytes ≡ (n + 7) / 8)
      × (has_padding_bits n bitmap.bytes ≡ false)
      × (v ≡ validity n (wrapping_subtract n (add_popcounts 0 bitmap.bytes)) bitmap)
unfolding from_bitmap
from_bitmap-ok allocates n bitmap h = ground arith

pub from_bitmap-accepts :
    (n : ℕ) (bitmap : ByteBuffer)
    → n ≤ max_u64 - 7
    → length bitmap.bytes ≡ (n + 7) / 8
    → has_padding_bits n bitmap.bytes ≡ false
    → from_bitmap true n bitmap
      ≡ ok (validity n (wrapping_subtract n (add_popcounts 0 bitmap.bytes)) bitmap)
unfolding from_bitmap
from_bitmap-accepts n bitmap small size padding =
    rw (le→ltb_false (max_u64 - 7) n small, padding, size, !=_refl ((n + 7) / 8)) refl

-- Whenever `from_bitmap` succeeds, the validity has the given number of rows, and its null count is
-- the number of those rows that `is_valid` does not accept.
pub from_bitmap-null_count :
    (allocates : Bool) (n : ℕ) (bitmap : ByteBuffer) {v : Validity}
    → from_bitmap allocates n bitmap ≡ ok v
    → (v.row_count ≡ n) × (v.null_count ≡ null_rows v n)
from_bitmap-null_count allocates n bitmap {v} made =
    let (small, size, padding, built) = from_bitmap-ok allocates n bitmap made in
    let bits = bitmap_bits bitmap.bytes in
    let clear = padding_clear n bitmap.bytes size (no_padding n bitmap.bytes size padding) in
    let whole =
      sym (count_true-append (take n bits) (drop n bits))
      ∙ ap count_true (take-append-drop n bits) in
    let least = length-bitmap_bits bitmap.bytes in
    let most = count_true-length bits in
    let w = validity n (wrapping_subtract n (add_popcounts 0 bitmap.bytes)) bitmap in
    let counted = null_rows-take w n (omega arith) (omega arith) in
    let total = add_popcounts-count 0 bitmap.bytes (omega arith) in
    let nulls : w.null_count ≡ null_rows w n = ground (arith, counted, total, whole, clear) in
    (
      ap (λ (u : Validity). u.row_count) built,
      subst (λ (u : Validity). u.null_count ≡ null_rows u n) (sym built) nulls,
    )
