-- ===== src/Column/FixedWidth.antt =====
-- src/column.cpp: `FixedWidthColumnBuilder`. What a finish that succeeds moves out is never read again,
-- since `finished` is checked first, so the builder keeps it here.
use shibori_engine.Base.{ℕ, Bool, true, false, not, ◌||◌, if◌then◌else◌, Option, none, some}
use shibori_engine.Error.{ErrorCode, Operation, Result, ok, Status, fail, fail_if, new_error, ◌>>◌}
use shibori_engine.LogicalType.{LogicalType}
use shibori_engine.Column.Buffer.{ByteBuffer}
use shibori_engine.Column.Validity.{Validity}
use shibori_engine.Column.Storage.{
  Column, validate_validity, is_fixed_storage_type, is_set, fixed_column,
}

pub record FixedWidthBuilder : Type 0 where
  pub type : LogicalType
  pub row_count : ℕ
  pub validity : Option Validity
  pub values : Option ByteBuffer
  pub finished : Bool

abbrev pub new_fixed_width : LogicalType → ℕ → FixedWidthBuilder
new_fixed_width type row_count = record {
  type = type;
  row_count = row_count;
  validity = none;
  values = none;
  finished = false;
}

unfoldable pub set_fixed_validity : Validity → FixedWidthBuilder → Status × FixedWidthBuilder
set_fixed_validity validity b =
    if b.finished || is_set b.validity
    then (
      fail ErrorCode.invalid_state Operation.validate_block "fixed-width validity is already set",
      b,
    )
    else (ok tt, record b { validity = some validity })

unfoldable pub set_fixed_values : ByteBuffer → FixedWidthBuilder → Status × FixedWidthBuilder
set_fixed_values values b =
    if b.finished || is_set b.values
    then (
      fail ErrorCode.invalid_state Operation.validate_block "fixed-width values are already set",
      b,
    )
    else (ok tt, record b { values = some values })

abbrev pub fixed_width_refused : FixedWidthBuilder → Bool
fixed_width_refused b = b.finished || not (is_set b.values) || not (is_fixed_storage_type b.type)

abbrev pub fixed_width_result : Bool → FixedWidthBuilder → Result Column
fixed_width_result allocates b =
    validate_validity b.row_count b.validity
    >> fail_if (not allocates) (
        new_error ErrorCode.allocation_failed Operation.validate_block
          "unable to allocate fixed-width column")
    >> ok (fixed_column b.type b.row_count b.validity b.values)

unfoldable pub finish_fixed_width : Bool → FixedWidthBuilder → Result Column × FixedWidthBuilder
unfolding validate_validity is_fixed_storage_type
finish_fixed_width allocates b =
    if fixed_width_refused b
    then (
      fail ErrorCode.invalid_block Operation.validate_block
          "invalid or incomplete fixed-width column",
      b,
    )
    else (fixed_width_result allocates b, record b { finished = true })
