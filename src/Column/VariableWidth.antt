-- ===== src/Column/VariableWidth.antt =====
-- src/column.cpp: `VariableWidthColumnBuilder`.
use shibori_engine.Base.{ℕ, Bool, true, false, not, ◌||◌, if◌then◌else◌, Option, none, some}
use shibori_engine.Error.{ErrorCode, Operation, Result, ok, Status, fail, fail_if, new_error, ◌>>◌}
use shibori_engine.LogicalType.{LogicalType, is_variable_width}
use shibori_engine.Column.Buffer.{ByteBuffer, OffsetBuffer}
use shibori_engine.Column.Validity.{Validity}
use shibori_engine.Column.Storage.{Column, validate_validity, is_set, variable_column}

pub record VariableWidthBuilder : Type 0 where
  pub type : LogicalType
  pub row_count : ℕ
  pub validity : Option Validity
  pub offsets : Option OffsetBuffer
  pub payload : Option ByteBuffer
  pub finished : Bool

abbrev pub new_variable_width : LogicalType → ℕ → VariableWidthBuilder
new_variable_width type row_count = record {
  type = type;
  row_count = row_count;
  validity = none;
  offsets = none;
  payload = none;
  finished = false;
}

unfoldable pub set_variable_validity :
    Validity → VariableWidthBuilder → Status × VariableWidthBuilder
set_variable_validity validity b =
    if b.finished || is_set b.validity
    then (
      fail ErrorCode.invalid_state Operation.validate_block
          "variable-width validity is already set",
      b,
    )
    else (ok tt, record b { validity = some validity })

unfoldable pub set_variable_offsets :
    OffsetBuffer → VariableWidthBuilder → Status × VariableWidthBuilder
set_variable_offsets offsets b =
    if b.finished || is_set b.offsets
    then (
      fail ErrorCode.invalid_state Operation.validate_block
          "variable-width offsets are already set",
      b,
    )
    else (ok tt, record b { offsets = some offsets })

unfoldable pub set_variable_payload :
    ByteBuffer → VariableWidthBuilder → Status × VariableWidthBuilder
set_variable_payload payload b =
    if b.finished || is_set b.payload
    then (
      fail ErrorCode.invalid_state Operation.validate_block "variable-width payload is already set",
      b,
    )
    else (ok tt, record b { payload = some payload })

abbrev pub variable_width_refused : VariableWidthBuilder → Bool
variable_width_refused b =
    b.finished || not (is_set b.offsets) || not (is_set b.payload) || not (is_variable_width b.type)

abbrev pub variable_width_result : Bool → VariableWidthBuilder → Result Column
variable_width_result allocates b =
    validate_validity b.row_count b.validity
    >> fail_if (not allocates) (
        new_error ErrorCode.allocation_failed Operation.validate_block
          "unable to allocate variable-width column")
    >> ok (variable_column b.type b.row_count b.validity b.offsets b.payload)

unfoldable pub finish_variable_width :
    Bool → VariableWidthBuilder → Result Column × VariableWidthBuilder
unfolding validate_validity is_variable_width
finish_variable_width allocates b =
    if variable_width_refused b
    then (
      fail ErrorCode.invalid_block Operation.validate_block
          "invalid or incomplete variable-width column",
      b,
    )
    else (variable_width_result allocates b, record b { finished = true })
