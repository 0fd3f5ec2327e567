-- ===== src/LogicalType/Decision.antt =====
-- That the switch of `validate_parameters` accepts exactly the well typed parameters.
use shibori_engine.Base.{ℕ, ◌≤◌, ◌≡◌, refl, arith, Bool, true, false, ◌&&◌, ap₂}
use shibori_engine.LogicalType.{
  LogicalTypeKind, TimeUnit, TimezoneMode, Utf8Validation, ℤ, LogicalTypeParameters, accepts,
  valid_time_unit, valid_timezone, valid_utf8_mode, no_parameters,
}
use shibori_engine.LogicalType.Validity.{
  IsUnit, IsTimezone, IsUtf8Mode, IsPlain, magnitude, IsTyped,
}

valid_time_unit-IsUnit : (unit : TimeUnit) → valid_time_unit unit ≡ true → IsUnit unit
unfolding valid_time_unit
valid_time_unit-IsUnit TimeUnit.second h = IsUnit.is_second
valid_time_unit-IsUnit TimeUnit.millisecond h = IsUnit.is_millisecond
valid_time_unit-IsUnit TimeUnit.microsecond h = IsUnit.is_microsecond
valid_time_unit-IsUnit TimeUnit.nanosecond h = IsUnit.is_nanosecond
valid_time_unit-IsUnit (TimeUnit.unlisted_unit n) h = absurd (cc)

valid_timezone-IsTimezone : (mode : TimezoneMode) → valid_timezone mode ≡ true → IsTimezone mode
unfolding valid_timezone
valid_timezone-IsTimezone TimezoneMode.instant h = IsTimezone.is_instant
valid_timezone-IsTimezone TimezoneMode.local h = IsTimezone.is_local
valid_timezone-IsTimezone (TimezoneMode.unlisted_mode n) h = absurd (cc)

valid_utf8_mode-IsUtf8Mode : (mode : Utf8Validation) → valid_utf8_mode mode ≡ true → IsUtf8Mode mode
unfolding valid_utf8_mode
valid_utf8_mode-IsUtf8Mode Utf8Validation.strict h = IsUtf8Mode.is_strict
valid_utf8_mode-IsUtf8Mode Utf8Validation.trusted h = IsUtf8Mode.is_trusted
valid_utf8_mode-IsUtf8Mode (Utf8Validation.unlisted_validation n) h = absurd (cc)

IsUnit-valid_time_unit : {unit : TimeUnit} → IsUnit unit → valid_time_unit unit ≡ true
unfolding valid_time_unit
IsUnit-valid_time_unit IsUnit.is_second = refl
IsUnit-valid_time_unit IsUnit.is_millisecond = refl
IsUnit-valid_time_unit IsUnit.is_microsecond = refl
IsUnit-valid_time_unit IsUnit.is_nanosecond = refl

IsTimezone-valid_timezone : {mode : TimezoneMode} → IsTimezone mode → valid_timezone mode ≡ true
unfolding valid_timezone
IsTimezone-valid_timezone IsTimezone.is_instant = refl
IsTimezone-valid_timezone IsTimezone.is_local = refl

IsUtf8Mode-valid_utf8_mode : {mode : Utf8Validation} → IsUtf8Mode mode → valid_utf8_mode mode ≡ true
unfolding valid_utf8_mode
IsUtf8Mode-valid_utf8_mode IsUtf8Mode.is_strict = refl
IsUtf8Mode-valid_utf8_mode IsUtf8Mode.is_trusted = refl

and_true : (a b : Bool) → (a && b) ≡ true → (a ≡ true) × (b ≡ true)
and_true true true h = (refl, refl)
and_true true false h = absurd (cc)
and_true false b h = absurd (cc)

plain-IsTyped :
    {kind : LogicalTypeKind} (parameters : LogicalTypeParameters)
    → IsPlain kind
    → no_parameters parameters ≡ true
    → IsTyped kind parameters
plain-IsTyped LogicalTypeParameters.monostate k h = IsTyped.plain k
plain-IsTyped (LogicalTypeParameters.decimal_parameters precision scale) k h = absurd (cc)
plain-IsTyped (LogicalTypeParameters.time_parameters unit) k h = absurd (cc)
plain-IsTyped (LogicalTypeParameters.timestamp_parameters unit timezone) k h = absurd (cc)
plain-IsTyped (LogicalTypeParameters.string_parameters validation) k h = absurd (cc)
plain-IsTyped (LogicalTypeParameters.fixed_binary_parameters byte_width) k h = absurd (cc)

decimal-IsTyped :
    (precision : ℕ) (scale : ℤ)
    → accepts LogicalTypeKind.decimal (LogicalTypeParameters.decimal_parameters precision scale)
      ≡ true
    → IsTyped LogicalTypeKind.decimal (LogicalTypeParameters.decimal_parameters precision scale)
unfolding accepts
decimal-IsTyped precision (ℤ.pos n) h =
    IsTyped.decimals (ground arith) (ground arith) (ground arith)
decimal-IsTyped precision (ℤ.negsuc n) h =
    IsTyped.decimals (ground arith) (ground arith) (ground arith)

pub accepts-IsTyped :
    (kind : LogicalTypeKind) (parameters : LogicalTypeParameters)
    → accepts kind parameters ≡ true
    → IsTyped kind parameters
unfolding accepts
accepts-IsTyped LogicalTypeKind.boolean parameters h =
    plain-IsTyped parameters IsPlain.plain_boolean h
accepts-IsTyped LogicalTypeKind.int8 parameters h = plain-IsTyped parameters IsPlain.plain_int8 h
accepts-IsTyped LogicalTypeKind.int16 parameters h = plain-IsTyped parameters IsPlain.plain_int16 h
accepts-IsTyped LogicalTypeKind.int32 parameters h = plain-IsTyped parameters IsPlain.plain_int32 h
accepts-IsTyped LogicalTypeKind.int64 parameters h = plain-IsTyped parameters IsPlain.plain_int64 h
accepts-IsTyped LogicalTypeKind.uint8 parameters h = plain-IsTyped parameters IsPlain.plain_uint8 h
accepts-IsTyped LogicalTypeKind.uint16 parameters h =
    plain-IsTyped parameters IsPlain.plain_uint16 h
accepts-IsTyped LogicalTypeKind.uint32 parameters h =
    plain-IsTyped parameters IsPlain.plain_uint32 h
accepts-IsTyped LogicalTypeKind.uint64 parameters h =
    plain-IsTyped parameters IsPlain.plain_uint64 h
accepts-IsTyped LogicalTypeKind.float32 parameters h =
    plain-IsTyped parameters IsPlain.plain_float32 h
accepts-IsTyped LogicalTypeKind.float64 parameters h =
    plain-IsTyped parameters IsPlain.plain_float64 h
accepts-IsTyped LogicalTypeKind.decimal LogicalTypeParameters.monostate h = absurd (cc)
accepts-IsTyped LogicalTypeKind.decimal (LogicalTypeParameters.decimal_parameters precision scale)
      h =
    decimal-IsTyped precision scale h
accepts-IsTyped LogicalTypeKind.decimal (LogicalTypeParameters.time_parameters unit) h = absurd (cc)
accepts-IsTyped LogicalTypeKind.decimal (LogicalTypeParameters.timestamp_parameters unit timezone)
      h =
    absurd (cc)
accepts-IsTyped LogicalTypeKind.decimal (LogicalTypeParameters.string_parameters validation) h =
    absurd (cc)
accepts-IsTyped LogicalTypeKind.decimal (LogicalTypeParameters.fixed_binary_parameters byte_width)
      h =
    absurd (cc)
accepts-IsTyped LogicalTypeKind.date parameters h = plain-IsTyped parameters IsPlain.plain_date h
accepts-IsTyped LogicalTypeKind.time LogicalTypeParameters.monostate h = absurd (cc)
accepts-IsTyped LogicalTypeKind.time (LogicalTypeParameters.decimal_parameters precision scale) h =
    absurd (cc)
accepts-IsTyped LogicalTypeKind.time (LogicalTypeParameters.time_parameters unit) h =
    IsTyped.times (valid_time_unit-IsUnit unit h)
accepts-IsTyped LogicalTypeKind.time (LogicalTypeParameters.timestamp_parameters unit timezone) h =
    absurd (cc)
accepts-IsTyped LogicalTypeKind.time (LogicalTypeParameters.string_parameters validation) h =
    absurd (cc)
accepts-IsTyped LogicalTypeKind.time (LogicalTypeParameters.fixed_binary_parameters byte_width) h =
    absurd (cc)
accepts-IsTyped LogicalTypeKind.timestamp LogicalTypeParameters.monostate h = absurd (cc)
accepts-IsTyped LogicalTypeKind.timestamp (LogicalTypeParameters.decimal_parameters precision scale)
      h =
    absurd (cc)
accepts-IsTyped LogicalTypeKind.timestamp (LogicalTypeParameters.time_parameters unit) h =
    absurd (cc)
accepts-IsTyped LogicalTypeKind.timestamp (LogicalTypeParameters.timestamp_parameters unit timezone)
      h =
    let (u, z) = and_true (valid_time_unit unit) (valid_timezone timezone) h in
    IsTyped.timestamps (valid_time_unit-IsUnit unit u) (valid_timezone-IsTimezone timezone z)
accepts-IsTyped LogicalTypeKind.timestamp (LogicalTypeParameters.string_parameters validation) h =
    absurd (cc)
accepts-IsTyped LogicalTypeKind.timestamp (LogicalTypeParameters.fixed_binary_parameters byte_width)
      h =
    absurd (cc)
accepts-IsTyped LogicalTypeKind.duration LogicalTypeParameters.monostate h = absurd (cc)
accepts-IsTyped LogicalTypeKind.duration (LogicalTypeParameters.decimal_parameters precision scale)
      h =
    absurd (cc)
accepts-IsTyped LogicalTypeKind.duration (LogicalTypeParameters.time_parameters unit) h =
    IsTyped.durations (valid_time_unit-IsUnit unit h)
accepts-IsTyped LogicalTypeKind.duration (LogicalTypeParameters.timestamp_parameters unit timezone)
      h =
    absurd (cc)
accepts-IsTyped LogicalTypeKind.duration (LogicalTypeParameters.string_parameters validation) h =
    absurd (cc)
accepts-IsTyped LogicalTypeKind.duration (LogicalTypeParameters.fixed_binary_parameters byte_width)
      h =
    absurd (cc)
accepts-IsTyped LogicalTypeKind.string LogicalTypeParameters.monostate h = absurd (cc)
accepts-IsTyped LogicalTypeKind.string (LogicalTypeParameters.decimal_parameters precision scale)
      h =
    absurd (cc)
accepts-IsTyped LogicalTypeKind.string (LogicalTypeParameters.time_parameters unit) h = absurd (cc)
accepts-IsTyped LogicalTypeKind.string (LogicalTypeParameters.timestamp_parameters unit timezone)
      h =
    absurd (cc)
accepts-IsTyped LogicalTypeKind.string (LogicalTypeParameters.string_parameters validation) h =
    IsTyped.strings (valid_utf8_mode-IsUtf8Mode validation h)
accepts-IsTyped LogicalTypeKind.string (LogicalTypeParameters.fixed_binary_parameters byte_width)
      h =
    absurd (cc)
accepts-IsTyped LogicalTypeKind.binary parameters h =
    plain-IsTyped parameters IsPlain.plain_binary h
accepts-IsTyped LogicalTypeKind.fixed_binary LogicalTypeParameters.monostate h = absurd (cc)
accepts-IsTyped LogicalTypeKind.fixed_binary
      (LogicalTypeParameters.decimal_parameters precision scale) h =
    absurd (cc)
accepts-IsTyped LogicalTypeKind.fixed_binary (LogicalTypeParameters.time_parameters unit) h =
    absurd (cc)
accepts-IsTyped LogicalTypeKind.fixed_binary
      (LogicalTypeParameters.timestamp_parameters unit timezone) h =
    absurd (cc)
accepts-IsTyped LogicalTypeKind.fixed_binary (LogicalTypeParameters.string_parameters validation)
      h =
    absurd (cc)
accepts-IsTyped LogicalTypeKind.fixed_binary
      (LogicalTypeParameters.fixed_binary_parameters byte_width) h =
    IsTyped.fixed_binaries (ground arith)
accepts-IsTyped LogicalTypeKind.uuid parameters h = plain-IsTyped parameters IsPlain.plain_uuid h
accepts-IsTyped (LogicalTypeKind.unlisted n) LogicalTypeParameters.monostate h = absurd (cc)
accepts-IsTyped (LogicalTypeKind.unlisted n)
      (LogicalTypeParameters.decimal_parameters precision scale) h =
    absurd (cc)
accepts-IsTyped (LogicalTypeKind.unlisted n) (LogicalTypeParameters.time_parameters unit) h =
    absurd (cc)
accepts-IsTyped (LogicalTypeKind.unlisted n)
      (LogicalTypeParameters.timestamp_parameters unit timezone) h =
    absurd (cc)
accepts-IsTyped (LogicalTypeKind.unlisted n) (LogicalTypeParameters.string_parameters validation)
      h =
    absurd (cc)
accepts-IsTyped (LogicalTypeKind.unlisted n)
      (LogicalTypeParameters.fixed_binary_parameters byte_width) h =
    absurd (cc)

IsPlain-accepts :
    {kind : LogicalTypeKind} → IsPlain kind → accepts kind LogicalTypeParameters.monostate ≡ true
unfolding accepts
IsPlain-accepts IsPlain.plain_boolean = refl
IsPlain-accepts IsPlain.plain_int8 = refl
IsPlain-accepts IsPlain.plain_int16 = refl
IsPlain-accepts IsPlain.plain_int32 = refl
IsPlain-accepts IsPlain.plain_int64 = refl
IsPlain-accepts IsPlain.plain_uint8 = refl
IsPlain-accepts IsPlain.plain_uint16 = refl
IsPlain-accepts IsPlain.plain_uint32 = refl
IsPlain-accepts IsPlain.plain_uint64 = refl
IsPlain-accepts IsPlain.plain_float32 = refl
IsPlain-accepts IsPlain.plain_float64 = refl
IsPlain-accepts IsPlain.plain_date = refl
IsPlain-accepts IsPlain.plain_binary = refl
IsPlain-accepts IsPlain.plain_uuid = refl

decimal_accepted :
    (precision : ℕ) (scale : ℤ)
    → 1 ≤ precision
    → precision ≤ 38
    → magnitude scale ≤ precision
    → accepts LogicalTypeKind.decimal (LogicalTypeParameters.decimal_parameters precision scale)
      ≡ true
unfolding accepts
decimal_accepted precision (ℤ.pos n) positive bounded within = ground arith
decimal_accepted precision (ℤ.negsuc n) positive bounded within = ground arith

pub IsTyped-accepts :
    {kind : LogicalTypeKind} {parameters : LogicalTypeParameters}
    → IsTyped kind parameters
    → accepts kind parameters ≡ true
unfolding accepts
IsTyped-accepts (IsTyped.plain k) = IsPlain-accepts k
IsTyped-accepts (IsTyped.decimals {precision} {scale} positive bounded within) =
    decimal_accepted precision scale positive bounded within
IsTyped-accepts (IsTyped.times u) = IsUnit-valid_time_unit u
IsTyped-accepts (IsTyped.durations u) = IsUnit-valid_time_unit u
IsTyped-accepts (IsTyped.timestamps u z) =
    ap₂ ◌&&◌ (IsUnit-valid_time_unit u) (IsTimezone-valid_timezone z)
IsTyped-accepts (IsTyped.strings m) = IsUtf8Mode-valid_utf8_mode m
IsTyped-accepts (IsTyped.fixed_binaries positive) = ground arith
