-- ===== src/Block/Tests.antt =====
-- Tests of blocks: two rows of a strict string field, and an empty schema.
use shibori_engine.Base.{
  ℕ, ◌*◌, ◌≡◌, refl, arith, true, false, not, ◌&&◌, none, some, List, [], ◌∷◌, ◌⊎◌, get_elem?,
  length, ◌≤◌,
}
use shibori_engine.Error.{ok}
use shibori_engine.Resource.Limits.{mebibyte, default_resource_limits, require_positive}
use shibori_engine.CheckedArithmetic.{checked_add, checked_multiply}
use shibori_engine.LogicalType.Equality.{same_type}
use shibori_engine.Utf8.{valid_utf8}
use shibori_engine.LogicalType.{
  LogicalTypeKind, LogicalTypeParameters, Utf8Validation, LogicalType, logical_type,
}
use shibori_engine.Column.Buffer.{ByteBuffer, BufferOwnership, byte_buffer, offset_buffer}
use shibori_engine.Column.Storage.{ColumnStorageKind, Column, variable_column, null_count, is_set}
use shibori_engine.Schema.Field.{Field}
use shibori_engine.Schema.Builder.{Schema, new_schema}
use shibori_engine.Block.Builder.{
  Block, BlockBuilder, new_block, new_block_builder, set_column, finish_block, variable_value,
  find_column,
}
use shibori_engine.Block.Sizes.{IsDense}
use shibori_engine.Block.Decoded.{all_decoded_bytes}
use shibori_engine.Block.Limit.{finish_block-decoded_bytes}
use shibori_engine.Block.Values.{read_values}
use shibori_engine.Block.Reading.{
  finish_block-IsDense, finish_block-find_column, finish_block-read_values,
  finish_block-variable_value,
}

abbrev strings : LogicalType
strings =
    logical_type LogicalTypeKind.string
      (LogicalTypeParameters.string_parameters Utf8Validation.strict)

abbrev word : Field
word = record { id = 7; name = 0x77 ∷ []; type = strings; nullable = false; metadata = [] }

abbrev words : Schema
words = new_schema (word ∷ []) []

-- "a" and "é"
abbrev letters : ByteBuffer
letters = byte_buffer (0x61 ∷ 0xc3 ∷ 0xa9 ∷ []) BufferOwnership.owned

abbrev two_words : Column
two_words =
    variable_column strings 2 none (some (offset_buffer (0 ∷ 1 ∷ 3 ∷ []) BufferOwnership.owned))
      (some letters)

abbrev filled : BlockBuilder
filled = (set_column true 7 two_words (new_block_builder words 1 2)).1

abbrev two_rows : Block
two_rows = new_block words 1 2 (two_words ∷ [])

block_made : (finish_block true true default_resource_limits filled).0 ≡ ok two_rows
unfolding finish_block set_column require_positive same_type checked_multiply checked_add valid_utf8
block_made = refl

second_value : variable_value two_rows 7 1 ≡ ok (0xc3 ∷ 0xa9 ∷ [])
unfolding variable_value
second_value = refl

finish_block-find_column_example :
    (column : Column) × (get_elem? (two_words ∷ []) 0 ≡ some column)
    × (find_column two_rows 7 ≡ some column)
    × (column.row_count ≡ 2)
    × (column.type ≡ strings)
    × (null_count column.validity ≤ 2)
    × ((not false && is_set column.validity) ≡ false)
unfolding set_column
finish_block-find_column_example =
    finish_block-find_column true true default_resource_limits filled two_rows block_made (tt, tt) 0
      word refl

finish_block-read_values_example :
    (payload : ByteBuffer) × (some letters ≡ some payload)
    × (read_values two_rows 7 2 ≡ ok payload.bytes)
unfolding set_column
finish_block-read_values_example =
    finish_block-read_values true true default_resource_limits filled two_rows block_made (tt, tt) 0
      word refl two_words refl refl (omega arith)

finish_block-variable_value_example :
    (value : List ℕ) × (variable_value two_rows 7 1 ≡ ok value)
    × (length value ≤ default_resource_limits.maximum_record_bytes)
    × ((true ≡ false) ⊎ (valid_utf8 value ≡ true))
unfolding set_column
finish_block-variable_value_example =
    finish_block-variable_value true true default_resource_limits filled two_rows block_made
      (tt, tt) 0 word refl two_words refl refl (omega arith) 1 (omega arith)

finish_block-decoded_bytes_example : all_decoded_bytes (two_words ∷ []) ≤ 64 * mebibyte
unfolding set_column
finish_block-decoded_bytes_example =
    finish_block-decoded_bytes true true default_resource_limits filled two_rows (omega arith)
      block_made

finish_block-IsDense_example : IsDense ColumnStorageKind.variable_width two_words 2
unfolding set_column shibori_engine.LogicalType.fixed_width_bytes
finish_block-IsDense_example =
    finish_block-IsDense true true default_resource_limits filled two_rows block_made (tt, tt) 0
      word refl two_words refl (omega arith) (omega arith)
