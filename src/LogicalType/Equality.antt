-- ===== src/LogicalType/Equality.antt =====
-- src/logical_type.cpp: `LogicalType::operator==`, and the enumerators' values that src/schema.cpp
-- writes. An unlisted value comes after the last enumerator.
pub mod Sameness
use shibori_engine.Base.{ℕ, ◌+◌, Bool, true, false, ◌&&◌, ◌==◌}
use shibori_engine.LogicalType.{
  LogicalTypeKind, TimeUnit, TimezoneMode, Utf8Validation, ℤ, LogicalTypeParameters, LogicalType,
}

unfoldable pub kind_value : LogicalTypeKind → ℕ
kind_value LogicalTypeKind.boolean = 0
kind_value LogicalTypeKind.int8 = 1
kind_value LogicalTypeKind.int16 = 2
kind_value LogicalTypeKind.int32 = 3
kind_value LogicalTypeKind.int64 = 4
kind_value LogicalTypeKind.uint8 = 5
kind_value LogicalTypeKind.uint16 = 6
kind_value LogicalTypeKind.uint32 = 7
kind_value LogicalTypeKind.uint64 = 8
kind_value LogicalTypeKind.float32 = 9
kind_value LogicalTypeKind.float64 = 10
kind_value LogicalTypeKind.decimal = 11
kind_value LogicalTypeKind.date = 12
kind_value LogicalTypeKind.time = 13
kind_value LogicalTypeKind.timestamp = 14
kind_value LogicalTypeKind.duration = 15
kind_value LogicalTypeKind.string = 16
kind_value LogicalTypeKind.binary = 17
kind_value LogicalTypeKind.fixed_binary = 18
kind_value LogicalTypeKind.uuid = 19
kind_value (LogicalTypeKind.unlisted n) = 20 + n

unfoldable pub unit_value : TimeUnit → ℕ
unit_value TimeUnit.second = 0
unit_value TimeUnit.millisecond = 1
unit_value TimeUnit.microsecond = 2
unit_value TimeUnit.nanosecond = 3
unit_value (TimeUnit.unlisted_unit n) = 4 + n

unfoldable pub timezone_value : TimezoneMode → ℕ
timezone_value TimezoneMode.instant = 0
timezone_value TimezoneMode.local = 1
timezone_value (TimezoneMode.unlisted_mode n) = 2 + n

unfoldable pub validation_value : Utf8Validation → ℕ
validation_value Utf8Validation.strict = 0
validation_value Utf8Validation.trusted = 1
validation_value (Utf8Validation.unlisted_validation n) = 2 + n

abbrev pub same_integer : ℤ → ℤ → Bool
same_integer (ℤ.pos a) (ℤ.pos b) = a == b
same_integer (ℤ.negsuc a) (ℤ.negsuc b) = a == b
same_integer _ _ = false

-- The comparison of two `std::variant`s: of the same alternative, and its members alike.
unfoldable pub same_parameters : LogicalTypeParameters → LogicalTypeParameters → Bool
unfolding unit_value timezone_value validation_value
same_parameters LogicalTypeParameters.monostate LogicalTypeParameters.monostate = true
same_parameters (LogicalTypeParameters.decimal_parameters p s)
      (LogicalTypeParameters.decimal_parameters q r) =
    (p == q) && same_integer s r
same_parameters (LogicalTypeParameters.time_parameters u)
      (LogicalTypeParameters.time_parameters v) =
    unit_value u == unit_value v
same_parameters (LogicalTypeParameters.timestamp_parameters u z)
      (LogicalTypeParameters.timestamp_parameters v w) =
    (unit_value u == unit_value v) && (timezone_value z == timezone_value w)
same_parameters (LogicalTypeParameters.string_parameters a)
      (LogicalTypeParameters.string_parameters b) =
    validation_value a == validation_value b
same_parameters (LogicalTypeParameters.fixed_binary_parameters a)
      (LogicalTypeParameters.fixed_binary_parameters b) =
    a == b
same_parameters _ _ = false

unfoldable pub same_type : LogicalType → LogicalType → Bool
unfolding same_parameters kind_value
same_type a b =
    (kind_value a.kind == kind_value b.kind) && same_parameters a.parameters b.parameters
