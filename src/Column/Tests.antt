-- ===== src/Column/Tests.antt =====
-- Tests of validity bitmaps and column builders.
use shibori_engine.Base.{
  ◌+◌, ◌-◌, ◌/◌, ◌≡◌, ◌↔◌, ◌≤◌, refl, arith, true, false, none, some, List, [], ◌∷◌, drop,
}
use shibori_engine.CheckedArithmetic.{max_u64}
use shibori_engine.Error.{ok}
use shibori_engine.LogicalType.{LogicalTypeKind, LogicalTypeParameters, LogicalType, logical_type}
use shibori_engine.Column.Buffer.{ByteBuffer, BufferOwnership, byte_buffer}
use shibori_engine.Column.Bitmap.{popcount, bit_test}
use shibori_engine.Column.Bitmap.Rows.{bitmap_bits, count_true}
use shibori_engine.Column.Validity.{
  Validity, ValidityBuilder, validity, from_bitmap, is_valid, new_validity_builder,
}
use shibori_engine.Column.Validity.NullCount.{null_rows, from_bitmap-null_count}
use shibori_engine.Column.Validity.Acceptance.{from_bitmap-decision}
use shibori_engine.Column.Validity.Builder.{
  Request, Answer, specified, all_performed, all_specified, flags_builder,
}
use shibori_engine.Column.Validity.Builder.Refinement.{all_performed-all_specified}
use shibori_engine.Column.Storage.{fixed_column}
use shibori_engine.Column.FixedWidth.{new_fixed_width, set_fixed_values, finish_fixed_width}
use shibori_engine.Column.Boolean.{new_boolean}
use shibori_engine.Column.VariableWidth.{new_variable_width}
use shibori_engine.Column.Building.{built, IsBuilt}
use shibori_engine.Column.Building.FixedWidth.{FixedWidthRequest, fixed_width_columns}
use shibori_engine.Column.Building.Boolean.{BooleanRequest, boolean_columns}
use shibori_engine.Column.Building.VariableWidth.{VariableWidthRequest, variable_width_columns}
use shibori_engine.Column.Building.Columns.{built-IsColumn}

-- Rows 0, 2 and 9 of ten.
abbrev three_of_ten : ByteBuffer
three_of_ten = byte_buffer (0x05 ∷ 0x02 ∷ []) BufferOwnership.owned

abbrev three_valid : Validity
three_valid = validity 10 7 three_of_ten

three_made : from_bitmap true 10 three_of_ten ≡ ok three_valid
unfolding from_bitmap popcount
three_made = refl

last_row : is_valid three_valid 9 ≡ true
unfolding is_valid bit_test
last_row = refl

from_bitmap-null_count_example :
    (three_valid.row_count ≡ 10) × (three_valid.null_count ≡ null_rows three_valid 10)
from_bitmap-null_count_example = from_bitmap-null_count true 10 three_of_ten three_made

from_bitmap-decision_example : ((v : Validity) × (from_bitmap true 10 three_of_ten ≡ ok v)) ↔ (
    (10 ≤ max_u64 - 7)
    × (2 ≡ (10 + 7) / 8)
    × (count_true (drop 10 (bitmap_bits three_of_ten.bytes)) ≡ 0))
from_bitmap-decision_example = from_bitmap-decision 10 three_of_ten

-- Two rows, one too many, and two finishes.
abbrev calls : List Request
calls =
    Request.append_row true
    ∷ Request.finish_rows
    ∷ Request.append_row false
    ∷ Request.append_row true
    ∷ Request.finish_rows
    ∷ Request.finish_rows
    ∷ []

all_performed-all_specified_example :
    (b : ValidityBuilder) × (new_validity_builder true 2 ≡ some b)
    × (all_performed calls b ≡ all_specified calls (flags_builder 2 [] false))
all_performed-all_specified_example = all_performed-all_specified calls 2 (omega arith)

answers :
    all_specified calls (flags_builder 2 [] false)
    ≡ Answer.appended
      ∷ Answer.refused
      ∷ Answer.appended
      ∷ Answer.refused
      ∷ Answer.built (true ∷ false ∷ [])
      ∷ Answer.refused
      ∷ []
unfolding specified
answers = refl

abbrev small_integer : LogicalType
small_integer = logical_type LogicalTypeKind.int8 LogicalTypeParameters.monostate

abbrev one_byte : ByteBuffer
one_byte = byte_buffer (42 ∷ []) BufferOwnership.owned

abbrev fixed_calls : List FixedWidthRequest
fixed_calls =
    FixedWidthRequest.finish true
    ∷ FixedWidthRequest.set_values one_byte
    ∷ FixedWidthRequest.finish true
    ∷ FixedWidthRequest.finish true
    ∷ []

fixed_built :
    built fixed_width_columns fixed_calls (new_fixed_width small_integer 1)
    ≡ fixed_column small_integer 1 none (some one_byte) ∷ []
unfolding fixed_width_columns finish_fixed_width set_fixed_values
fixed_built = refl

built-IsColumn_example :
    IsBuilt fixed_width_columns 1
      (built fixed_width_columns fixed_calls (new_fixed_width small_integer 1))
    × IsBuilt boolean_columns 1 (
        built boolean_columns
          (BooleanRequest.set_values one_byte ∷ BooleanRequest.finish true true ∷ [])
          (new_boolean 1))
    × IsBuilt variable_width_columns 1 (
        built variable_width_columns
          (VariableWidthRequest.finish true ∷ [])
          (new_variable_width small_integer 1))
built-IsColumn_example =
    built-IsColumn small_integer 1 fixed_calls
      (BooleanRequest.set_values one_byte ∷ BooleanRequest.finish true true ∷ [])
      (VariableWidthRequest.finish true ∷ [])
