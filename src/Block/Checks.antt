-- ===== src/Block/Checks.antt =====
-- src/block.cpp: what a column must satisfy to be a field's column in a block. The `decoded_bytes` that
-- the source passes by reference is an argument and the result, since no caller reads it after a
-- failure.
use shibori_engine.Base.{
  ℕ, ◌+◌, ◌-◌, ◌/◌, ◌%◌, bit_and, String, Bool, true, false, ◌&&◌, not, ltb, ◌==◌, ◌!=◌,
  if◌then◌else◌, Option, none, some, List, [], ◌∷◌, length, take, drop,
}
use shibori_engine.CheckedArithmetic.{max_u64, checked_add, checked_multiply}
use shibori_engine.Error.{
  ErrorCode, Operation, Error, Result, ok, err, Status, fail_if, new_error, with_field_id, ◌>>=◌,
  ◌>>◌,
}
use shibori_engine.LogicalType.{
  LogicalTypeKind, LogicalTypeParameters, Utf8Validation, LogicalType, fixed_width_bytes,
}
use shibori_engine.LogicalType.Equality.{same_type}
use shibori_engine.Resource.Limits.{ResourceLimits}
use shibori_engine.Utf8.{valid_utf8}
use shibori_engine.Column.Buffer.{ByteBuffer, byte_size}
use shibori_engine.Column.Bitmap.{last_byte, padding_mask}
use shibori_engine.Column.Validity.{Validity}
use shibori_engine.Column.Storage.{ColumnStorageKind, Column, null_count, is_boolean_kind, is_set}
use shibori_engine.Schema.Field.{Field}

abbrev pub invalid_column : ℕ → String → Error
invalid_column field_id message =
    with_field_id (new_error ErrorCode.invalid_block Operation.validate_block message) field_id

unfoldable pub add_decoded_bytes : ℕ → ℕ → ℕ → Result ℕ
add_decoded_bytes amount limit total =
    checked_add total amount Operation.validate_block "decoded block bytes" >>= λ next.
    fail_if (ltb limit next) (
      new_error ErrorCode.limit_exceeded Operation.validate_block
        "decoded block bytes exceed the configured limit")
    >> ok next

-- `buffer == nullptr || buffer->size() != expected`
abbrev pub has_other_size : Option ByteBuffer → ℕ → Bool
has_other_size none expected = true
has_other_size (some buffer) expected = byte_size buffer != expected

-- `fixed_width_bytes` of a type that `LogicalType::create` made is never `none`, where the program ends.
abbrev pub column_width : LogicalType → ℕ
column_width t = elim (fixed_width_bytes t) [ none ↦ 0 | some width ↦ width ]

unfoldable pub validate_fixed : ResourceLimits → Field → Column → ℕ → ℕ → Result ℕ
unfolding add_decoded_bytes
validate_fixed limits field column dense_count decoded_bytes =
    checked_multiply dense_count (column_width column.type) Operation.validate_block
      "fixed-width column bytes"
    >>= λ expected.
        fail_if (has_other_size column.values expected)
          (invalid_column field.id "fixed-width value bytes do not match the dense value count")
        >> add_decoded_bytes expected limits.maximum_decoded_block_bytes decoded_bytes

-- The bytes of a buffer that is there.
abbrev pub bytes_of : Option ByteBuffer → List ℕ
bytes_of none = []
bytes_of (some buffer) = buffer.bytes

abbrev pub has_value_padding : ℕ → List ℕ → Bool
has_value_padding dense_count bytes =
    (dense_count % 8 != 0)
    && ((dense_count + 7) / 8 != 0)
    && (bit_and (last_byte bytes) (padding_mask (dense_count % 8)) != 0)

unfoldable pub validate_boolean : ResourceLimits → Field → Column → ℕ → ℕ → Result ℕ
unfolding add_decoded_bytes
validate_boolean limits field column dense_count decoded_bytes =
    fail_if (ltb (max_u64 - 7) dense_count) (invalid_column field.id "boolean bitmap size overflow")
    >> fail_if (has_other_size column.values ((dense_count + 7) / 8))
        (invalid_column field.id "boolean value bitmap does not match the dense value count")
    >> fail_if (has_value_padding dense_count (bytes_of column.values))
        (invalid_column field.id "boolean value padding bits must be zero")
    >> add_decoded_bytes ((dense_count + 7) / 8) limits.maximum_decoded_block_bytes decoded_bytes

-- The loop on neighbouring offsets, from the one before.
abbrev pub check_offsets : ResourceLimits → Field → ℕ → List ℕ → Status
check_offsets limits field previous [] = ok tt
check_offsets limits field previous (offset ∷ offsets) =
    fail_if (ltb offset previous)
      (invalid_column field.id "variable offsets must be monotonically non-decreasing")
    >> (fail_if (ltb limits.maximum_record_bytes (offset - previous))
          (invalid_column field.id "variable value exceeds the configured record limit")
        >> check_offsets limits field offset offsets)

-- `offsets.front()`, the loop, and `offsets.back()` against the payload.
abbrev pub last_offset : ℕ → List ℕ → ℕ
last_offset previous [] = previous
last_offset previous (offset ∷ offsets) = last_offset offset offsets

abbrev pub check_all_offsets : ResourceLimits → Field → List ℕ → ℕ → Status
check_all_offsets limits field [] payload_size =
    err (invalid_column field.id "variable offsets must begin at zero")
check_all_offsets limits field (first ∷ offsets) payload_size =
    fail_if (first != 0) (invalid_column field.id "variable offsets must begin at zero")
    >> (check_offsets limits field first offsets
        >> fail_if (last_offset first offsets != payload_size)
            (invalid_column field.id "final variable offset must equal the payload size"))

-- `payload.subspan(begin, end - begin)`
abbrev pub subspan : List ℕ → ℕ → ℕ → List ℕ
subspan payload begin end = take (end - begin) (drop begin payload)

abbrev pub check_strings : Field → List ℕ → ℕ → List ℕ → Status
check_strings field payload previous [] = ok tt
check_strings field payload previous (offset ∷ offsets) =
    fail_if (not (valid_utf8 (subspan payload previous offset)))
      (invalid_column field.id "strict string column contains invalid UTF-8")
    >> check_strings field payload offset offsets

-- Whether the type is of strict strings. `std::get` of a string type that `create` made does not throw.
abbrev pub is_strict : LogicalTypeKind → LogicalTypeParameters → Bool
is_strict LogicalTypeKind.string (LogicalTypeParameters.string_parameters Utf8Validation.strict) =
    true
is_strict _ _ = false

abbrev pub check_payload : Field → LogicalType → List ℕ → List ℕ → Status
check_payload field type payload [] = ok tt
check_payload field type payload (first ∷ offsets) =
    if is_strict type.kind type.parameters then check_strings field payload first offsets else ok tt

abbrev pub components_missing : Field → Error
components_missing field =
    invalid_column field.id "variable-width physical components do not match the dense count"

abbrev pub validate_components :
    ResourceLimits → Field → LogicalType → ℕ → ℕ → List ℕ → List ℕ → Result ℕ
validate_components limits field type dense_count decoded_bytes offsets payload =
    fail_if (length offsets != dense_count + 1) (components_missing field)
    >> (check_all_offsets limits field offsets (length payload)
        >> (checked_multiply (dense_count + 1) 8 Operation.validate_block "variable offset bytes"
            >>= λ offset_bytes.
                add_decoded_bytes offset_bytes limits.maximum_decoded_block_bytes decoded_bytes
                >>= λ with_offsets.
                    add_decoded_bytes (length payload) limits.maximum_decoded_block_bytes
                      with_offsets
                    >>= λ with_payload.
                        check_payload field type payload offsets >> ok with_payload))

unfoldable pub validate_variable : ResourceLimits → Field → Column → ℕ → ℕ → Result ℕ
unfolding add_decoded_bytes
validate_variable limits field column dense_count decoded_bytes =
    let parts : Result ℕ = elim column.offsets [
      | none ↦ err (components_missing field)
      | some offsets ↦ elim column.payload [
        | none ↦ err (components_missing field)
        | some payload ↦
            validate_components limits field column.type dense_count decoded_bytes offsets.values
              payload.bytes
      ]
    ] in
    if dense_count == max_u64
    then err (invalid_column field.id "variable offset count overflow")
    else parts

abbrev pub validate_storage : ColumnStorageKind → ResourceLimits → Field → Column → ℕ → ℕ → Result ℕ
validate_storage ColumnStorageKind.fixed_width limits field column dense_count decoded_bytes =
    validate_fixed limits field column dense_count decoded_bytes
validate_storage ColumnStorageKind.boolean limits field column dense_count decoded_bytes =
    fail_if (not (is_boolean_kind field.type.kind))
      (invalid_column field.id "boolean storage requires the boolean logical type")
    >> validate_boolean limits field column dense_count decoded_bytes
validate_storage ColumnStorageKind.variable_width limits field column dense_count decoded_bytes =
    validate_variable limits field column dense_count decoded_bytes
validate_storage (ColumnStorageKind.unlisted n) limits field column dense_count decoded_bytes =
    err (invalid_column field.id "unknown column storage kind")

abbrev pub count_validity : ResourceLimits → Option Validity → ℕ → Result ℕ
count_validity limits none decoded_bytes = ok decoded_bytes
count_validity limits (some v) decoded_bytes =
    add_decoded_bytes (byte_size v.bitmap) limits.maximum_decoded_block_bytes decoded_bytes

abbrev pub check_column : Field → Column → ℕ → Status
check_column field column row_count =
    fail_if (column.row_count != row_count)
      (invalid_column field.id "column row count does not match the block")
    >> (fail_if (not (same_type column.type field.type))
          (invalid_column field.id "column logical type does not match the schema field")
        >> (fail_if (not field.nullable && is_set column.validity)
              (invalid_column field.id "non-nullable field must omit the validity bitmap")
            >> fail_if (ltb row_count (null_count column.validity))
                (invalid_column field.id "column null count exceeds row count")))

unfoldable pub validate_column : ResourceLimits → Field → Column → ℕ → ℕ → Result ℕ
unfolding validate_fixed validate_boolean validate_variable
validate_column limits field column row_count decoded_bytes =
    check_column field column row_count
    >> (count_validity limits column.validity decoded_bytes >>= λ with_validity.
        validate_storage column.storage_kind limits field column
          (row_count - null_count column.validity) with_validity)
