-- ===== src/Block/Sizes.antt =====
-- The sizes of the fixed-width and boolean columns of a finished block.
use shibori_engine.Base.{
  ℕ, ◌+◌, ◌-◌, ◌*◌, ◌/◌, ◌%◌, ◌^◌, ◌≤◌, ◌<◌, bit_and, ◌≡◌, refl, sym, ap, subst, ◌∙◌, arith, false,
  not, ltb, Option, none, some, List, length, drop, Bool-cases, inl, inr, ◌⊎◌, eq_of_not_!=,
}
use shibori_engine.CheckedArithmetic.{max_u64, checked_multiply}
use shibori_engine.CheckedArithmetic.Exactness.{checked_multiply_exact}
use shibori_engine.Error.{
  Error, Operation, ok, err, fail_if, ◌>>◌, >>=-eq-ok, >>-eq-ok, fail_if-passed,
}
use shibori_engine.Resource.Limits.{ResourceLimits}
use shibori_engine.Column.Buffer.{ByteBuffer, OffsetBuffer, byte_size}
use shibori_engine.Column.Bitmap.{last_byte, padding_mask}
use shibori_engine.Column.Bitmap.Rows.{bitmap_bits, count_true}
use shibori_engine.Column.Bitmap.Padding.{padding_clear}
use shibori_engine.Column.Storage.{ColumnStorageKind, Column, is_boolean_kind}
use shibori_engine.Schema.Field.{Field}
use shibori_engine.Block.Checks.{
  has_other_size, bytes_of, column_width, has_value_padding, validate_fixed, validate_boolean,
  validate_storage,
}
use shibori_engine.Block.Variable.{validate_variable-IsVariable}

-- A buffer that is there, and its size.
abbrev pub HasSize : Option ByteBuffer → ℕ → Type 0
HasSize buffer size = (values : ByteBuffer) × (buffer ≡ some values) × (length values.bytes ≡ size)

has_size :
    (buffer : Option ByteBuffer) (size : ℕ)
    → has_other_size buffer size ≡ false
    → HasSize buffer size
has_size none size h = absurd (cc)
has_size (some buffer) size h = (buffer, refl, eq_of_not_!= (byte_size buffer) size h)

ok_same : {a b : ℕ} → ok a ≡ ok b → a ≡ b
ok_same h = cc

err_ok : {e : Error} {n : ℕ} → err e ≡ ok n → ⊥
err_ok h = cc

checked_multiply-product :
    (dense width expected : ℕ)
    → dense < 2 ^ 64
    → width < 2 ^ 32
    → checked_multiply dense width Operation.validate_block "fixed-width column bytes" ≡ ok expected
    → expected ≡ dense * width
checked_multiply-product dense width expected few small h =
    let exact =
      sym (
        checked_multiply_exact dense width Operation.validate_block "fixed-width column bytes" few
          (omega arith))
      ∙ h in
    elim (Bool-cases (ltb (dense * width) (2 ^ 64))) [
      | inl fits ↦ sym (ok_same (rw fits at exact))
      | inr over ↦ absurd (err_ok (rw over at exact))
    ]

validate_fixed-HasSize :
    (limits : ResourceLimits) (field : Field) (column : Column) (dense before after : ℕ)
    → dense < 2 ^ 64
    → column_width column.type < 2 ^ 32
    → validate_fixed limits field column dense before ≡ ok after
    → HasSize column.values (dense * column_width column.type)
unfolding validate_fixed
validate_fixed-HasSize limits field column dense before after few small h =
    let width = column_width column.type in
    let (expected, multiplied, sized) =
      >>=-eq-ok (checked_multiply dense width Operation.validate_block "fixed-width column bytes") _
        h in
    let ((u, fits), added) = >>-eq-ok (fail_if (has_other_size column.values expected) _) _ sized in
    let size =
      has_size column.values expected
        (fail_if-passed (has_other_size column.values expected) _ fits) in
    subst (HasSize column.values)
      (checked_multiply-product dense width expected few small multiplied) size

-- A bitmap of the values that are there, and no bit beyond them.
abbrev pub IsBitmap : Option ByteBuffer → ℕ → Type 0
IsBitmap buffer dense =
    (values : ByteBuffer) × (buffer ≡ some values)
    × (length values.bytes ≡ (dense + 7) / 8)
    × (count_true (drop dense (bitmap_bits values.bytes)) ≡ 0)

unpadded :
    (dense : ℕ) (bytes : List ℕ)
    → has_value_padding dense bytes ≡ false
    → (dense % 8 ≡ 0) ⊎ (bit_and (last_byte bytes) (padding_mask (dense % 8)) ≡ 0)
unpadded dense bytes h = ground arith

validate_boolean-IsBitmap :
    (limits : ResourceLimits) (field : Field) (column : Column) (dense before after : ℕ)
    → validate_boolean limits field column dense before ≡ ok after
    → IsBitmap column.values dense
unfolding validate_boolean
validate_boolean-IsBitmap limits field column dense before after h =
    let ((w, checked), added) =
      >>-eq-ok
        (fail_if (ltb (max_u64 - 7) dense) _
          >> fail_if (has_other_size column.values ((dense + 7) / 8)) _
          >> fail_if (has_value_padding dense (bytes_of column.values)) _)
        _ h in
    let ((v, sized), padded) =
      >>-eq-ok
        (fail_if (ltb (max_u64 - 7) dense) _
          >> fail_if (has_other_size column.values ((dense + 7) / 8)) _)
        (fail_if (has_value_padding dense (bytes_of column.values)) _) checked in
    let (few, fits) =
      >>-eq-ok (fail_if (ltb (max_u64 - 7) dense) _)
        (fail_if (has_other_size column.values ((dense + 7) / 8)) _) sized in
    let (values, is_values, size) =
      has_size column.values ((dense + 7) / 8)
        (fail_if-passed (has_other_size column.values ((dense + 7) / 8)) _ fits) in
    let none_padded = fail_if-passed (has_value_padding dense (bytes_of column.values)) _ padded in
    let padding =
      subst (λ (o : Option ByteBuffer). has_value_padding dense (bytes_of o) ≡ false) is_values
        none_padded in
    (
      values,
      is_values,
      size,
      padding_clear dense values.bytes size (unpadded dense values.bytes padding),
    )

-- What a column has for its values that are not null, by its storage: as many bytes as their width
-- says, a bitmap with no bit beyond them, or one offset more than values. No column has a storage
-- kind that no enumerator names.
abbrev pub IsDense : ColumnStorageKind → Column → ℕ → Type 0
IsDense ColumnStorageKind.fixed_width column dense =
    HasSize column.values (dense * column_width column.type)
IsDense ColumnStorageKind.boolean column dense = IsBitmap column.values dense
IsDense ColumnStorageKind.variable_width column dense =
    (offsets : OffsetBuffer) × (column.offsets ≡ some offsets) × (length offsets.values ≡ dense + 1)
IsDense (ColumnStorageKind.unlisted n) column dense = ⊥

pub validate_storage-IsDense :
    (kind : ColumnStorageKind) (limits : ResourceLimits) (field : Field) (column : Column)
    (dense before after : ℕ)
    → dense ≤ max_u64
    → column_width column.type < 2 ^ 32
    → validate_storage kind limits field column dense before ≡ ok after
    → IsDense kind column dense
validate_storage-IsDense ColumnStorageKind.fixed_width limits field column dense before after few
      small h =
    validate_fixed-HasSize limits field column dense before after (omega arith) small h
validate_storage-IsDense ColumnStorageKind.boolean limits field column dense before after few small
      h =
    let (kind, checked) = >>-eq-ok (fail_if (not (is_boolean_kind field.type.kind)) _) _ h in
    validate_boolean-IsBitmap limits field column dense before after checked
validate_storage-IsDense ColumnStorageKind.variable_width limits field column dense before after few
      small h =
    let fits = validate_variable-IsVariable limits field column dense before after few h in
    (fits.offsets, fits.has_offsets, omega (arith, ap (length {A = ℕ}) fits.from_zero, fits.count))
validate_storage-IsDense (ColumnStorageKind.unlisted n) limits field column dense before after few
      small h =
    absurd (cc)
