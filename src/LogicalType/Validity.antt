-- ===== src/LogicalType/Validity.antt =====
-- Which kinds go with which parameters, apart from the code, and that `create` makes exactly those.
use shibori_engine.Base.{ℕ, ◌+◌, ◌≤◌, ◌<◌}
use shibori_engine.LogicalType.{
  LogicalTypeKind, TimeUnit, TimezoneMode, Utf8Validation, ℤ, LogicalTypeParameters,
}

pub data IsUnit : TimeUnit → Type 0 where
  is_second : IsUnit TimeUnit.second
  is_millisecond : IsUnit TimeUnit.millisecond
  is_microsecond : IsUnit TimeUnit.microsecond
  is_nanosecond : IsUnit TimeUnit.nanosecond

pub data IsTimezone : TimezoneMode → Type 0 where
  is_instant : IsTimezone TimezoneMode.instant
  is_local : IsTimezone TimezoneMode.local

pub data IsUtf8Mode : Utf8Validation → Type 0 where
  is_strict : IsUtf8Mode Utf8Validation.strict
  is_trusted : IsUtf8Mode Utf8Validation.trusted

-- The kinds that take no parameters.
pub data IsPlain : LogicalTypeKind → Type 0 where
  plain_boolean : IsPlain LogicalTypeKind.boolean
  plain_int8 : IsPlain LogicalTypeKind.int8
  plain_int16 : IsPlain LogicalTypeKind.int16
  plain_int32 : IsPlain LogicalTypeKind.int32
  plain_int64 : IsPlain LogicalTypeKind.int64
  plain_uint8 : IsPlain LogicalTypeKind.uint8
  plain_uint16 : IsPlain LogicalTypeKind.uint16
  plain_uint32 : IsPlain LogicalTypeKind.uint32
  plain_uint64 : IsPlain LogicalTypeKind.uint64
  plain_float32 : IsPlain LogicalTypeKind.float32
  plain_float64 : IsPlain LogicalTypeKind.float64
  plain_date : IsPlain LogicalTypeKind.date
  plain_binary : IsPlain LogicalTypeKind.binary
  plain_uuid : IsPlain LogicalTypeKind.uuid

-- How far a scale is from zero.
abbrev pub magnitude : ℤ → ℕ
magnitude (ℤ.pos n) = n
magnitude (ℤ.negsuc n) = n + 1

pub data IsTyped : LogicalTypeKind → LogicalTypeParameters → Type 0 where
  plain : {kind : LogicalTypeKind} → IsPlain kind → IsTyped kind LogicalTypeParameters.monostate
  decimals :
      {precision : ℕ} {scale : ℤ}
      → 1 ≤ precision
      → precision ≤ 38
      → magnitude scale ≤ precision
      → IsTyped LogicalTypeKind.decimal (LogicalTypeParameters.decimal_parameters precision scale)
  times :
      {unit : TimeUnit}
      → IsUnit unit
      → IsTyped LogicalTypeKind.time (LogicalTypeParameters.time_parameters unit)
  durations :
      {unit : TimeUnit}
      → IsUnit unit
      → IsTyped LogicalTypeKind.duration (LogicalTypeParameters.time_parameters unit)
  timestamps :
      {unit : TimeUnit} {timezone : TimezoneMode}
      → IsUnit unit
      → IsTimezone timezone
      → IsTyped LogicalTypeKind.timestamp (LogicalTypeParameters.timestamp_parameters unit timezone)
  strings :
      {validation : Utf8Validation}
      → IsUtf8Mode validation
      → IsTyped LogicalTypeKind.string (LogicalTypeParameters.string_parameters validation)
  fixed_binaries :
      {byte_width : ℕ}
      → 0 < byte_width
      → IsTyped LogicalTypeKind.fixed_binary
          (LogicalTypeParameters.fixed_binary_parameters byte_width)
