-- ===== src/Block/Builder.antt =====
-- src/block.cpp: `Block` and `BlockBuilder`.
use shibori_engine.Base.{
  ℕ, ◌+◌, Bool, true, false, ◌||◌, not, ltb, leb, ◌==◌, ◌!=◌, if◌then◌else◌, Option, none, some,
  List, [], ◌∷◌, length, byte_at,
}
use shibori_engine.CheckedArithmetic.{wrapping_subtract}
use shibori_engine.Error.{
  ErrorCode, Operation, Error, Result, ok, err, Status, fail, fail_if, new_error, ◌>>=◌, ◌>>◌,
}
use shibori_engine.Resource.Limits.{ResourceLimits, validate_resource_limits}
use shibori_engine.Column.Storage.{ColumnStorageKind, Column, is_set}
use shibori_engine.Column.Buffer.{OffsetBuffer}
use shibori_engine.Schema.Field.{Field}
use shibori_engine.Schema.Builder.{Schema, find_field}
use shibori_engine.Block.Checks.{invalid_column, validate_column, bytes_of, subspan}

-- `Block::Impl`
pub record Block : Type 0 where
  pub schema : Schema
  pub id : ℕ
  pub row_count : ℕ
  pub columns : List Column

abbrev pub new_block : Schema → ℕ → ℕ → List Column → Block
new_block schema id row_count columns = record {
  schema = schema;
  id = id;
  row_count = row_count;
  columns = columns;
}

-- The loop of `find_column`, on the fields and the columns at the same index.
abbrev pub column_of_field : List Field → List Column → ℕ → Option Column
column_of_field [] columns field_id = none
column_of_field (field ∷ fields) [] field_id = none
column_of_field (field ∷ fields) (column ∷ columns) field_id =
    let later = column_of_field fields columns field_id in
    if field.id == field_id then some column else later

abbrev pub find_column : Block → ℕ → Option Column
find_column block field_id = column_of_field block.schema.fields block.columns field_id

abbrev pub is_variable_storage : ColumnStorageKind → Bool
is_variable_storage ColumnStorageKind.variable_width = true
is_variable_storage _ = false

-- The offsets of a column that has them.
abbrev pub offsets_of : Option OffsetBuffer → List ℕ
offsets_of none = []
offsets_of (some offsets) = offsets.values

abbrev pub outside_column : Error
outside_column =
    new_error ErrorCode.invalid_configuration Operation.validate_block
      "variable value selection is outside the validated column"

abbrev pub value_of_column : Column → ℕ → Result (List ℕ)
value_of_column column dense_index =
    let offsets = offsets_of column.offsets in
    if not (is_variable_storage column.storage_kind)
      || leb (wrapping_subtract (length offsets) 1) dense_index
    then err outside_column
    else ok (
        subspan (bytes_of column.payload) (byte_at offsets dense_index)
          (byte_at offsets (dense_index + 1)))

unfoldable pub variable_value : Block → ℕ → ℕ → Result (List ℕ)
variable_value block field_id dense_index = elim (find_column block field_id) [
  | none ↦ err outside_column
  | some column ↦ value_of_column column dense_index
]

-- `BlockBuilder::Impl`; the map of columns is only searched and counted, so its order is not kept.
pub record BlockBuilder : Type 0 where
  pub schema : Schema
  pub id : ℕ
  pub row_count : ℕ
  pub columns : List (ℕ × Column)
  pub finished : Bool

abbrev pub new_block_builder : Schema → ℕ → ℕ → BlockBuilder
new_block_builder schema id row_count = record {
  schema = schema;
  id = id;
  row_count = row_count;
  columns = [];
  finished = false;
}

abbrev pub column_set : List (ℕ × Column) → ℕ → Option Column
column_set [] field_id = none
column_set (entry ∷ columns) field_id =
    let later = column_set columns field_id in if entry.0 == field_id then some entry.1 else later

unfoldable pub set_column : Bool → ℕ → Column → BlockBuilder → Status × BlockBuilder
set_column allocates field_id column b =
    if b.finished || is_set (column_set b.columns field_id)
    then (
      fail ErrorCode.invalid_state Operation.validate_block
          "block column is already set or builder is finished",
      b,
    )
    else if not (is_set (find_field b.schema.fields field_id))
    then (err (invalid_column field_id "column field ID is absent from schema"), b)
    else if allocates
    then (ok tt, record b { columns = (field_id, column) ∷ b.columns })
    else (
      fail ErrorCode.allocation_failed Operation.validate_block "unable to retain block column",
      b,
    )

-- The loop on the schema's fields, which returns the columns in their order.
abbrev pub order_columns :
    ResourceLimits → ℕ → List (ℕ × Column) → List Field → ℕ → Result (List Column)
order_columns limits row_count columns [] decoded_bytes = ok []
order_columns limits row_count columns (field ∷ fields) decoded_bytes =
    elim (column_set columns field.id) [
      | none ↦ err (invalid_column field.id "schema field has no block column")
      | some column ↦ validate_column limits field column row_count decoded_bytes >>= λ total.
          order_columns limits row_count columns fields total >>= λ ordered. ok (column ∷ ordered)
    ]

abbrev pub block_unallocated : Error
block_unallocated =
    new_error ErrorCode.allocation_failed Operation.validate_block
      "unable to allocate immutable block"

abbrev pub check_shape : ResourceLimits → BlockBuilder → Status
check_shape limits b =
    validate_resource_limits limits
    >> (fail_if (b.row_count == 0) (
          new_error ErrorCode.invalid_block Operation.validate_block
            "empty blocks are not accepted by the standard builder")
        >> (fail_if (ltb limits.maximum_block_rows b.row_count) (
              new_error ErrorCode.limit_exceeded Operation.validate_block
                "block row count exceeds the configured limit")
            >> fail_if (length b.columns != length b.schema.fields) (
                new_error ErrorCode.invalid_block Operation.validate_block
                  "block must contain exactly one column for each schema field")))

-- `reserves` and `allocates` say whether the vector and the block have room.
unfoldable pub block_result : Bool → Bool → ResourceLimits → BlockBuilder → Result Block
unfolding validate_resource_limits validate_column
block_result reserves allocates limits b =
    check_shape limits b
    >> (fail_if (not reserves) block_unallocated
        >> (order_columns limits b.row_count b.columns b.schema.fields 0 >>= λ ordered.
            fail_if (not allocates) block_unallocated
            >> ok (new_block b.schema b.id b.row_count ordered)))

unfoldable pub finish_block :
    Bool → Bool → ResourceLimits → BlockBuilder → Result Block × BlockBuilder
unfolding block_result
finish_block reserves allocates limits b =
    if b.finished
    then (
      fail ErrorCode.invalid_state Operation.validate_block "block builder is already finished",
      b,
    )
    else (block_result reserves allocates limits b, record b { finished = true })
