-- ===== src/LogicalType.antt =====
-- include/shibori/engine/logical_type.hpp and src/logical_type.cpp: the types that a field can have,
-- with their parameters. An enumeration's underlying type has more values than it has enumerators,
-- and the source refuses them, so each has `unlisted` values besides.
pub mod Validity
pub mod Decision
pub mod Creation
pub mod Widths
pub mod Equality
pub mod Tests
use shibori_engine.Base.{
  ℕ, ◌+◌, ◌≤◌, ◌<◌, String, join_text, Bool, true, false, not, ◌&&◌, ◌||◌, leb, ◌==◌, ◌!=◌,
  if◌then◌else◌, Option, none, some,
}
use shibori_engine.Error.{
  ErrorCode, Operation, Error, Result, ok, err, Status, fail, fail_if, new_error, ◌>>=◌, ◌>>◌,
}

pub data LogicalTypeKind : Type 0 where
  boolean int8 int16 int32 int64 : LogicalTypeKind
  uint8 uint16 uint32 uint64 float32 float64 : LogicalTypeKind
  decimal date time timestamp duration string : LogicalTypeKind
  binary fixed_binary uuid : LogicalTypeKind
  unlisted : ℕ → LogicalTypeKind

pub data TimeUnit : Type 0 where
  second millisecond microsecond nanosecond : TimeUnit
  unlisted_unit : ℕ → TimeUnit

pub data TimezoneMode : Type 0 where
  instant local : TimezoneMode
  unlisted_mode : ℕ → TimezoneMode

pub data Utf8Validation : Type 0 where
  strict trusted : Utf8Validation
  unlisted_validation : ℕ → Utf8Validation

-- `std::int16_t`: `negsuc n` is `- (n + 1)`.
pub data ℤ : Type 0 where
  pos negsuc : ℕ → ℤ

pub data LogicalTypeParameters : Type 0 where
  monostate : LogicalTypeParameters
  decimal_parameters : (precision : ℕ) (scale : ℤ) → LogicalTypeParameters
  time_parameters : (unit : TimeUnit) → LogicalTypeParameters
  timestamp_parameters : (unit : TimeUnit) (timezone : TimezoneMode) → LogicalTypeParameters
  string_parameters : (validation : Utf8Validation) → LogicalTypeParameters
  fixed_binary_parameters : (byte_width : ℕ) → LogicalTypeParameters

-- `LogicalType::Impl`
pub record LogicalType : Type 0 where
  pub kind : LogicalTypeKind
  pub parameters : LogicalTypeParameters

unfoldable pub logical_kind_to_string : LogicalTypeKind → String
logical_kind_to_string LogicalTypeKind.boolean = "bool"
logical_kind_to_string LogicalTypeKind.int8 = "int8"
logical_kind_to_string LogicalTypeKind.int16 = "int16"
logical_kind_to_string LogicalTypeKind.int32 = "int32"
logical_kind_to_string LogicalTypeKind.int64 = "int64"
logical_kind_to_string LogicalTypeKind.uint8 = "uint8"
logical_kind_to_string LogicalTypeKind.uint16 = "uint16"
logical_kind_to_string LogicalTypeKind.uint32 = "uint32"
logical_kind_to_string LogicalTypeKind.uint64 = "uint64"
logical_kind_to_string LogicalTypeKind.float32 = "float32"
logical_kind_to_string LogicalTypeKind.float64 = "float64"
logical_kind_to_string LogicalTypeKind.decimal = "decimal"
logical_kind_to_string LogicalTypeKind.date = "date"
logical_kind_to_string LogicalTypeKind.time = "time"
logical_kind_to_string LogicalTypeKind.timestamp = "timestamp"
logical_kind_to_string LogicalTypeKind.duration = "duration"
logical_kind_to_string LogicalTypeKind.string = "string"
logical_kind_to_string LogicalTypeKind.binary = "binary"
logical_kind_to_string LogicalTypeKind.fixed_binary = "fixed_binary"
logical_kind_to_string LogicalTypeKind.uuid = "uuid"
logical_kind_to_string (LogicalTypeKind.unlisted n) = "unknown"

unfoldable pub valid_time_unit : TimeUnit → Bool
valid_time_unit (TimeUnit.unlisted_unit n) = false
valid_time_unit _ = true

unfoldable pub valid_timezone : TimezoneMode → Bool
valid_timezone (TimezoneMode.unlisted_mode n) = false
valid_timezone _ = true

unfoldable pub valid_utf8_mode : Utf8Validation → Bool
valid_utf8_mode (Utf8Validation.unlisted_validation n) = false
valid_utf8_mode _ = true

-- `-precision <= scale && scale <= precision`
abbrev pub scale_within : ℤ → ℕ → Bool
scale_within (ℤ.pos n) precision = leb n precision
scale_within (ℤ.negsuc n) precision = leb (n + 1) precision

abbrev pub no_parameters : LogicalTypeParameters → Bool
no_parameters LogicalTypeParameters.monostate = true
no_parameters _ = false

-- Whether the switch of `validate_parameters` returns success.
unfoldable pub accepts : LogicalTypeKind → LogicalTypeParameters → Bool
unfolding valid_time_unit valid_timezone valid_utf8_mode
accepts LogicalTypeKind.boolean parameters = no_parameters parameters
accepts LogicalTypeKind.int8 parameters = no_parameters parameters
accepts LogicalTypeKind.int16 parameters = no_parameters parameters
accepts LogicalTypeKind.int32 parameters = no_parameters parameters
accepts LogicalTypeKind.int64 parameters = no_parameters parameters
accepts LogicalTypeKind.uint8 parameters = no_parameters parameters
accepts LogicalTypeKind.uint16 parameters = no_parameters parameters
accepts LogicalTypeKind.uint32 parameters = no_parameters parameters
accepts LogicalTypeKind.uint64 parameters = no_parameters parameters
accepts LogicalTypeKind.float32 parameters = no_parameters parameters
accepts LogicalTypeKind.float64 parameters = no_parameters parameters
accepts LogicalTypeKind.date parameters = no_parameters parameters
accepts LogicalTypeKind.binary parameters = no_parameters parameters
accepts LogicalTypeKind.uuid parameters = no_parameters parameters
accepts LogicalTypeKind.decimal (LogicalTypeParameters.decimal_parameters precision scale) =
    leb 1 precision && leb precision 38 && scale_within scale precision
accepts LogicalTypeKind.time (LogicalTypeParameters.time_parameters unit) = valid_time_unit unit
accepts LogicalTypeKind.duration (LogicalTypeParameters.time_parameters unit) = valid_time_unit unit
accepts LogicalTypeKind.timestamp (LogicalTypeParameters.timestamp_parameters unit timezone) =
    valid_time_unit unit && valid_timezone timezone
accepts LogicalTypeKind.string (LogicalTypeParameters.string_parameters validation) =
    valid_utf8_mode validation
accepts LogicalTypeKind.fixed_binary (LogicalTypeParameters.fixed_binary_parameters byte_width) =
    byte_width != 0
accepts _ _ = false

abbrev pub schema_error : String → Error
schema_error message = new_error ErrorCode.invalid_schema Operation.validate_schema message

unfoldable pub validate_parameters : LogicalTypeKind → LogicalTypeParameters → Status
unfolding accepts logical_kind_to_string
validate_parameters kind parameters =
    if accepts kind parameters
    then ok tt
    else err (
        schema_error
          (join_text "invalid parameters for logical type " (logical_kind_to_string kind)))

abbrev pub is_unlisted : LogicalTypeKind → Bool
is_unlisted (LogicalTypeKind.unlisted n) = true
is_unlisted _ = false

abbrev pub logical_type : LogicalTypeKind → LogicalTypeParameters → LogicalType
logical_type kind parameters = record { kind = kind; parameters = parameters }

-- `allocates` says whether the allocator has room.
unfoldable pub create_logical_type :
    Bool → LogicalTypeKind → LogicalTypeParameters → Result LogicalType
unfolding validate_parameters
create_logical_type allocates kind parameters = do
  fail_if (is_unlisted kind) (schema_error "unknown logical type")
  validate_parameters kind parameters
  fail_if (not allocates) (
      new_error ErrorCode.allocation_failed Operation.validate_schema
        "unable to allocate logical type")
  ok (logical_type kind parameters)

unfoldable pub variable_kind : LogicalTypeKind → Bool
variable_kind LogicalTypeKind.string = true
variable_kind LogicalTypeKind.binary = true
variable_kind _ = false

unfoldable pub is_variable_width : LogicalType → Bool
unfolding variable_kind
is_variable_width t = variable_kind t.kind

unfoldable pub is_fixed_width : LogicalType → Bool
unfolding is_variable_width
is_fixed_width t = not (is_variable_width t)

-- `std::get<FixedBinaryParameters>(parameters).byte_width`. On other parameters `std::get` throws
-- out of a function that is `noexcept`, which ends the program: `none`.
abbrev byte_width_of : LogicalTypeParameters → Option ℕ
byte_width_of (LogicalTypeParameters.fixed_binary_parameters byte_width) = some byte_width
byte_width_of _ = none

unfoldable pub width_of : LogicalTypeKind → LogicalTypeParameters → Option ℕ
width_of LogicalTypeKind.boolean parameters = some 0
width_of LogicalTypeKind.int8 parameters = some 1
width_of LogicalTypeKind.int16 parameters = some 2
width_of LogicalTypeKind.int32 parameters = some 4
width_of LogicalTypeKind.int64 parameters = some 8
width_of LogicalTypeKind.uint8 parameters = some 1
width_of LogicalTypeKind.uint16 parameters = some 2
width_of LogicalTypeKind.uint32 parameters = some 4
width_of LogicalTypeKind.uint64 parameters = some 8
width_of LogicalTypeKind.float32 parameters = some 4
width_of LogicalTypeKind.float64 parameters = some 8
width_of LogicalTypeKind.decimal parameters = some 16
width_of LogicalTypeKind.date parameters = some 4
width_of LogicalTypeKind.time parameters = some 8
width_of LogicalTypeKind.timestamp parameters = some 8
width_of LogicalTypeKind.duration parameters = some 8
width_of LogicalTypeKind.string parameters = some 0
width_of LogicalTypeKind.binary parameters = some 0
width_of LogicalTypeKind.fixed_binary parameters = byte_width_of parameters
width_of LogicalTypeKind.uuid parameters = some 16
width_of (LogicalTypeKind.unlisted n) parameters = some 0

unfoldable pub fixed_width_bytes : LogicalType → Option ℕ
unfolding width_of
fixed_width_bytes t = width_of t.kind t.parameters
