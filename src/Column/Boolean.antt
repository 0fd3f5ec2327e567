-- ===== src/Column/Boolean.antt =====
-- src/column.cpp: `BooleanColumnBuilder`.
use shibori_engine.Base.{ℕ, Bool, true, false, not, ◌||◌, if◌then◌else◌, Option, none, some}
use shibori_engine.Error.{
  ErrorCode, Operation, Result, ok, Status, fail, fail_if, new_error, ◌>>=◌, ◌>>◌,
}
use shibori_engine.LogicalType.{
  LogicalTypeKind, LogicalTypeParameters, LogicalType, create_logical_type,
}
use shibori_engine.Column.Buffer.{ByteBuffer}
use shibori_engine.Column.Validity.{Validity}
use shibori_engine.Column.Storage.{Column, validate_validity, is_set, boolean_column}

pub record BooleanBuilder : Type 0 where
  pub row_count : ℕ
  pub validity : Option Validity
  pub values : Option ByteBuffer
  pub finished : Bool

abbrev pub new_boolean : ℕ → BooleanBuilder
new_boolean row_count = record {
  row_count = row_count;
  validity = none;
  values = none;
  finished = false;
}

unfoldable pub set_boolean_validity : Validity → BooleanBuilder → Status × BooleanBuilder
set_boolean_validity validity b =
    if b.finished || is_set b.validity
    then (
      fail ErrorCode.invalid_state Operation.validate_block "boolean validity is already set",
      b,
    )
    else (ok tt, record b { validity = some validity })

unfoldable pub set_boolean_values : ByteBuffer → BooleanBuilder → Status × BooleanBuilder
set_boolean_values values b =
    if b.finished || is_set b.values
    then (fail ErrorCode.invalid_state Operation.validate_block "boolean values are already set", b)
    else (ok tt, record b { values = some values })

-- `types` and `allocates` say whether the allocations of the type and of the column have room.
abbrev pub boolean_refused : BooleanBuilder → Bool
boolean_refused b = b.finished || not (is_set b.values)

abbrev pub boolean_result : Bool → Bool → BooleanBuilder → Result Column
boolean_result types allocates b =
    validate_validity b.row_count b.validity
    >> create_logical_type types LogicalTypeKind.boolean LogicalTypeParameters.monostate
    >>= (λ (type : LogicalType).
        fail_if (not allocates) (
          new_error ErrorCode.allocation_failed Operation.validate_block
            "unable to allocate boolean column")
        >> ok (boolean_column type b.row_count b.validity b.values))

unfoldable pub finish_boolean : Bool → Bool → BooleanBuilder → Result Column × BooleanBuilder
unfolding validate_validity create_logical_type
finish_boolean types allocates b =
    if boolean_refused b
    then (
      fail ErrorCode.invalid_block Operation.validate_block "invalid or incomplete boolean column",
      b,
    )
    else (boolean_result types allocates b, record b { finished = true })
