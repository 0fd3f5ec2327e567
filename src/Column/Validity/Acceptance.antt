-- ===== src/Column/Validity/Acceptance.antt =====
-- Which bitmaps `Validity::from_bitmap` accepts.
use shibori_engine.Base.{
  ℕ, ◌+◌, ◌-◌, ◌/◌, ◌%◌, ◌≤◌, bit_and, ◌≡◌, ◌↔◌, arith, true, false, List, length, drop, inl, inr,
  ◌⊎◌,
}
use shibori_engine.CheckedArithmetic.{max_u64}
use shibori_engine.Error.{ok}
use shibori_engine.Column.Buffer.{ByteBuffer}
use shibori_engine.Column.Bitmap.{padding_mask, last_byte}
use shibori_engine.Column.Bitmap.Rows.{bitmap_bits, count_true}
use shibori_engine.Column.Bitmap.Padding.{padding_clear, padding_zero}
use shibori_engine.Column.Validity.{Validity, has_padding_bits, from_bitmap}
use shibori_engine.Column.Validity.NullCount.{no_padding, from_bitmap-ok, from_bitmap-accepts}

pub padding_absent :
    (n : ℕ) (bytes : List ℕ)
    → (n % 8 ≡ 0) ⊎ (bit_and (last_byte bytes) (padding_mask (n % 8)) ≡ 0)
    → has_padding_bits n bytes ≡ false
padding_absent n bytes (inl none_left) = ground arith
padding_absent n bytes (inr clear) = ground arith

-- Where the allocation has room, `from_bitmap` succeeds exactly when the rows are at most 2^64 - 8,
-- the bitmap has the fewest bytes that hold a bit for each row, and no bit beyond the rows is set.
pub from_bitmap-decision :
    (n : ℕ) (bitmap : ByteBuffer)
    → ((v : Validity) × (from_bitmap true n bitmap ≡ ok v)) ↔ (
        (n ≤ max_u64 - 7)
        × (length bitmap.bytes ≡ (n + 7) / 8)
        × (count_true (drop n (bitmap_bits bitmap.bytes)) ≡ 0))
from_bitmap-decision n bitmap = (
  λ (made : (v : Validity) × (from_bitmap true n bitmap ≡ ok v)).
      let (small, size, padding, built) = from_bitmap-ok true n bitmap made.1 in
      (small, size, padding_clear n bitmap.bytes size (no_padding n bitmap.bytes size padding)),
  λ (fits : (n ≤ max_u64 - 7)
        × (length bitmap.bytes ≡ (n + 7) / 8)
        × (count_true (drop n (bitmap_bits bitmap.bytes)) ≡ 0)).
      let (small, size, clear) = fits in
      (
        _,
        from_bitmap-accepts n bitmap small size
            (padding_absent n bitmap.bytes (padding_zero n bitmap.bytes size clear)),
      ),
)
