-- ===== src/Column/Validity.antt =====
-- src/column.cpp: `Validity` and `ValidityBuilder`, the bitmap of a column's present values.
pub mod NullCount
pub mod Acceptance
pub mod Flags
pub mod Builder
use shibori_engine.Base.{
  ℕ, ◌+◌, ◌-◌, ◌/◌, ◌%◌, ◌^◌, bit_and, Bool, true, false, not, ◌&&◌, ◌||◌, ltb, leb, ◌==◌, ◌!=◌,
  if◌then◌else◌, Option, none, some, List, [], ◌∷◌, length, replicate, byte_at,
}
use shibori_engine.CheckedArithmetic.{max_u64, wrapping_subtract}
use shibori_engine.Error.{ErrorCode, Operation, Result, ok, err, Status, fail, ◌>>=◌}
use shibori_engine.Column.Buffer.{ByteBuffer, byte_size, copy_bytes}
use shibori_engine.Column.Bitmap.{last_byte, padding_mask, bit_test, set_bit, popcount}

-- `Validity::Impl`
pub record Validity : Type 0 where
  pub row_count : ℕ
  pub null_count : ℕ
  pub bitmap : ByteBuffer

abbrev pub validity : ℕ → ℕ → ByteBuffer → Validity
validity row_count null_count bitmap = record {
  row_count = row_count;
  null_count = null_count;
  bitmap = bitmap;
}

-- The loop of `valid_count += std::popcount(value)`.
abbrev pub add_popcounts : ℕ → List ℕ → ℕ
add_popcounts valid_count [] = valid_count
add_popcounts valid_count (value ∷ bytes) =
    add_popcounts ((valid_count + popcount value) % 2 ^ 64) bytes

abbrev pub has_padding_bits : ℕ → List ℕ → Bool
has_padding_bits row_count bytes =
    (row_count % 8 != 0)
    && (length bytes != 0)
    && (bit_and (last_byte bytes) (padding_mask (row_count % 8)) != 0)

unfoldable pub from_bitmap : Bool → ℕ → ByteBuffer → Result Validity
from_bitmap allocates row_count bitmap =
    if ltb (max_u64 - 7) row_count
    then fail ErrorCode.arithmetic_overflow Operation.validate_block "validity bitmap size overflow"
    else if byte_size bitmap != (row_count + 7) / 8
    then fail ErrorCode.invalid_block Operation.validate_block "validity bitmap has the wrong size"
    else if has_padding_bits row_count bitmap.bytes
    then fail ErrorCode.invalid_block Operation.validate_block "validity padding bits must be zero"
    else if allocates
    then ok (validity row_count (wrapping_subtract row_count (add_popcounts 0 bitmap.bytes)) bitmap)
    else fail ErrorCode.allocation_failed Operation.validate_block
        "unable to retain validity bitmap"

unfoldable pub is_valid : Validity → ℕ → Bool
is_valid v row = if leb v.row_count row then false else bit_test v.bitmap.bytes row

-- `ValidityBuilder::Impl`
pub record ValidityBuilder : Type 0 where
  pub row_count : ℕ
  pub appended : ℕ
  pub bytes : List ℕ
  pub valid_size : Bool
  pub finished : Bool

abbrev pub builder_at : ℕ → ℕ → List ℕ → Bool → Bool → ValidityBuilder
builder_at row_count appended bytes valid_size finished = record {
  row_count = row_count;
  appended = appended;
  bytes = bytes;
  valid_size = valid_size;
  finished = finished;
}

-- `resizes` says whether `bytes.resize` has room; without it the constructor throws, which is `none`.
-- `std::size_t` has 64 bits.
unfoldable pub new_validity_builder : Bool → ℕ → Option ValidityBuilder
new_validity_builder resizes row_count =
    if leb row_count (max_u64 - 7) && leb ((row_count + 7) / 8) max_u64
    then (if resizes
        then some (builder_at row_count 0 (replicate ((row_count + 7) / 8) 0) true false)
        else none)
    else some (builder_at row_count 0 [] false false)

unfoldable pub append : Bool → ValidityBuilder → Status × ValidityBuilder
append valid builder =
    let bytes = if valid then set_bit builder.bytes builder.appended else builder.bytes in
    if builder.finished || leb builder.row_count builder.appended
    then (
      fail ErrorCode.invalid_state Operation.validate_block
          "validity builder cannot accept another row",
      builder,
    )
    else if not builder.valid_size
    then (
      fail ErrorCode.arithmetic_overflow Operation.validate_block "validity bitmap size overflow",
      builder,
    )
    else (ok tt, record builder { appended = builder.appended + 1; bytes = bytes })

-- `copies` and `retains` say whether the two allocations have room.
unfoldable pub finish : Bool → Bool → ValidityBuilder → Result Validity × ValidityBuilder
unfolding copy_bytes from_bitmap
finish copies retains builder =
    if builder.finished || (builder.appended != builder.row_count)
    then (
      fail ErrorCode.invalid_state Operation.validate_block
          "validity builder is incomplete or already finished",
      builder,
    )
    else (
      copy_bytes copies builder.bytes
          >>= (λ (bitmap : ByteBuffer). from_bitmap retains builder.row_count bitmap),
      record builder { finished = true },
    )
