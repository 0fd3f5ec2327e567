-- ===== src/LogicalType/Equality/Sameness.antt =====
-- The equality of logical types is equality.
use Prim.Native.Nat.add
use shibori_engine.Base.{
  ℕ, zero, suc, ◌+◌, ◌≡◌, refl, sym, ap, ap₂, ◌∙◌, Bool, true, false, ◌&&◌, ◌==◌, ==_iff, List, [],
  ◌∷◌, length,
}
use shibori_engine.LogicalType.{
  LogicalTypeKind, TimeUnit, TimezoneMode, Utf8Validation, ℤ, LogicalTypeParameters, LogicalType,
  logical_type,
}
use shibori_engine.LogicalType.Equality.{
  kind_value, unit_value, timezone_value, validation_value, same_integer, same_parameters,
  same_type,
}

-- The enumerators in order.
abbrev listed_kinds : List LogicalTypeKind
listed_kinds =
    LogicalTypeKind.boolean ∷ LogicalTypeKind.int8 ∷ LogicalTypeKind.int16 ∷ LogicalTypeKind.int32
    ∷ LogicalTypeKind.int64 ∷ LogicalTypeKind.uint8 ∷ LogicalTypeKind.uint16
    ∷ LogicalTypeKind.uint32 ∷ LogicalTypeKind.uint64 ∷ LogicalTypeKind.float32
    ∷ LogicalTypeKind.float64 ∷ LogicalTypeKind.decimal ∷ LogicalTypeKind.date
    ∷ LogicalTypeKind.time ∷ LogicalTypeKind.timestamp ∷ LogicalTypeKind.duration
    ∷ LogicalTypeKind.string ∷ LogicalTypeKind.binary ∷ LogicalTypeKind.fixed_binary
    ∷ LogicalTypeKind.uuid ∷ []

-- The element at an index, and past the end the `past` of what is left of the index.
abbrev element_at : {A : Type 0} → (ℕ → A) → List A → ℕ → A
element_at past [] value = past value
element_at past (x ∷ xs) zero = x
element_at past (x ∷ xs) (suc value) = element_at past xs value

element_at-past :
    {A : Type 0} (past : ℕ → A) (xs : List A) (n : ℕ) → element_at past xs (length xs + n) ≡ past n
element_at-past past [] n = ap past (add.zero n)
element_at-past past (x ∷ xs) n =
    ap (element_at past (x ∷ xs)) (add.suc (length xs) n) ∙ element_at-past past xs n

abbrev kind_at : ℕ → LogicalTypeKind
kind_at = element_at LogicalTypeKind.unlisted listed_kinds

kind_at-kind_value : (kind : LogicalTypeKind) → kind_at (kind_value kind) ≡ kind
unfolding kind_value
kind_at-kind_value LogicalTypeKind.boolean = refl
kind_at-kind_value LogicalTypeKind.int8 = refl
kind_at-kind_value LogicalTypeKind.int16 = refl
kind_at-kind_value LogicalTypeKind.int32 = refl
kind_at-kind_value LogicalTypeKind.int64 = refl
kind_at-kind_value LogicalTypeKind.uint8 = refl
kind_at-kind_value LogicalTypeKind.uint16 = refl
kind_at-kind_value LogicalTypeKind.uint32 = refl
kind_at-kind_value LogicalTypeKind.uint64 = refl
kind_at-kind_value LogicalTypeKind.float32 = refl
kind_at-kind_value LogicalTypeKind.float64 = refl
kind_at-kind_value LogicalTypeKind.decimal = refl
kind_at-kind_value LogicalTypeKind.date = refl
kind_at-kind_value LogicalTypeKind.time = refl
kind_at-kind_value LogicalTypeKind.timestamp = refl
kind_at-kind_value LogicalTypeKind.duration = refl
kind_at-kind_value LogicalTypeKind.string = refl
kind_at-kind_value LogicalTypeKind.binary = refl
kind_at-kind_value LogicalTypeKind.fixed_binary = refl
kind_at-kind_value LogicalTypeKind.uuid = refl
kind_at-kind_value (LogicalTypeKind.unlisted n) =
    element_at-past LogicalTypeKind.unlisted listed_kinds n

pub kind_value_same : (a b : LogicalTypeKind) → kind_value a ≡ kind_value b → a ≡ b
kind_value_same a b h = sym (kind_at-kind_value a) ∙ ap kind_at h ∙ kind_at-kind_value b

abbrev unit_at : ℕ → TimeUnit
unit_at =
    element_at TimeUnit.unlisted_unit
      (TimeUnit.second ∷ TimeUnit.millisecond ∷ TimeUnit.microsecond ∷ TimeUnit.nanosecond ∷ [])

unit_at-unit_value : (x : TimeUnit) → unit_at (unit_value x) ≡ x
unfolding unit_value
unit_at-unit_value TimeUnit.second = refl
unit_at-unit_value TimeUnit.millisecond = refl
unit_at-unit_value TimeUnit.microsecond = refl
unit_at-unit_value TimeUnit.nanosecond = refl
unit_at-unit_value (TimeUnit.unlisted_unit n) =
    element_at-past TimeUnit.unlisted_unit
      (TimeUnit.second ∷ TimeUnit.millisecond ∷ TimeUnit.microsecond ∷ TimeUnit.nanosecond ∷ []) n

pub unit_value_same : (a b : TimeUnit) → unit_value a ≡ unit_value b → a ≡ b
unit_value_same a b h = sym (unit_at-unit_value a) ∙ ap unit_at h ∙ unit_at-unit_value b

abbrev timezone_at : ℕ → TimezoneMode
timezone_at = element_at TimezoneMode.unlisted_mode (TimezoneMode.instant ∷ TimezoneMode.local ∷ [])

timezone_at-timezone_value : (x : TimezoneMode) → timezone_at (timezone_value x) ≡ x
unfolding timezone_value
timezone_at-timezone_value TimezoneMode.instant = refl
timezone_at-timezone_value TimezoneMode.local = refl
timezone_at-timezone_value (TimezoneMode.unlisted_mode n) =
    element_at-past TimezoneMode.unlisted_mode (TimezoneMode.instant ∷ TimezoneMode.local ∷ []) n

pub timezone_value_same : (a b : TimezoneMode) → timezone_value a ≡ timezone_value b → a ≡ b
timezone_value_same a b h =
    sym (timezone_at-timezone_value a) ∙ ap timezone_at h ∙ timezone_at-timezone_value b

abbrev validation_at : ℕ → Utf8Validation
validation_at =
    element_at Utf8Validation.unlisted_validation
      (Utf8Validation.strict ∷ Utf8Validation.trusted ∷ [])

validation_at-validation_value : (x : Utf8Validation) → validation_at (validation_value x) ≡ x
unfolding validation_value
validation_at-validation_value Utf8Validation.strict = refl
validation_at-validation_value Utf8Validation.trusted = refl
validation_at-validation_value (Utf8Validation.unlisted_validation n) =
    element_at-past Utf8Validation.unlisted_validation
      (Utf8Validation.strict ∷ Utf8Validation.trusted ∷ []) n

pub validation_value_same : (a b : Utf8Validation) → validation_value a ≡ validation_value b → a ≡ b
validation_value_same a b h =
    sym (validation_at-validation_value a) ∙ ap validation_at h ∙ validation_at-validation_value b

both_true : (a b : Bool) → (a && b) ≡ true → (a ≡ true) × (b ≡ true)
both_true true b h = (refl, h)
both_true false b h = absurd (cc)

same_integer_eq : (a b : ℤ) → same_integer a b ≡ true → a ≡ b
same_integer_eq (ℤ.pos a) (ℤ.pos b) h = ap ℤ.pos ((==_iff a b).0 h)
same_integer_eq (ℤ.negsuc a) (ℤ.negsuc b) h = ap ℤ.negsuc ((==_iff a b).0 h)
same_integer_eq (ℤ.pos a) (ℤ.negsuc b) h = absurd (cc)
same_integer_eq (ℤ.negsuc a) (ℤ.pos b) h = absurd (cc)

same_parameters_eq : (a b : LogicalTypeParameters) → same_parameters a b ≡ true → a ≡ b
unfolding same_parameters
same_parameters_eq LogicalTypeParameters.monostate LogicalTypeParameters.monostate h = refl
same_parameters_eq LogicalTypeParameters.monostate (LogicalTypeParameters.decimal_parameters p' s')
      h =
    absurd (cc)
same_parameters_eq LogicalTypeParameters.monostate (LogicalTypeParameters.time_parameters u') h =
    absurd (cc)
same_parameters_eq LogicalTypeParameters.monostate
      (LogicalTypeParameters.timestamp_parameters u' z') h =
    absurd (cc)
same_parameters_eq LogicalTypeParameters.monostate (LogicalTypeParameters.string_parameters v') h =
    absurd (cc)
same_parameters_eq LogicalTypeParameters.monostate
      (LogicalTypeParameters.fixed_binary_parameters w') h =
    absurd (cc)
same_parameters_eq (LogicalTypeParameters.decimal_parameters p s) LogicalTypeParameters.monostate
      h =
    absurd (cc)
same_parameters_eq (LogicalTypeParameters.decimal_parameters p s)
      (LogicalTypeParameters.decimal_parameters p' s') h =
    let both = both_true (p == p') (same_integer s s') h in
    ap₂ LogicalTypeParameters.decimal_parameters ((==_iff p p').0 both.0)
      (same_integer_eq s s' both.1)
same_parameters_eq (LogicalTypeParameters.decimal_parameters p s)
      (LogicalTypeParameters.time_parameters u') h =
    absurd (cc)
same_parameters_eq (LogicalTypeParameters.decimal_parameters p s)
      (LogicalTypeParameters.timestamp_parameters u' z') h =
    absurd (cc)
same_parameters_eq (LogicalTypeParameters.decimal_parameters p s)
      (LogicalTypeParameters.string_parameters v') h =
    absurd (cc)
same_parameters_eq (LogicalTypeParameters.decimal_parameters p s)
      (LogicalTypeParameters.fixed_binary_parameters w') h =
    absurd (cc)
same_parameters_eq (LogicalTypeParameters.time_parameters u) LogicalTypeParameters.monostate h =
    absurd (cc)
same_parameters_eq (LogicalTypeParameters.time_parameters u)
      (LogicalTypeParameters.decimal_parameters p' s') h =
    absurd (cc)
same_parameters_eq (LogicalTypeParameters.time_parameters u)
      (LogicalTypeParameters.time_parameters u') h =
    ap LogicalTypeParameters.time_parameters (unit_value_same u u' ((==_iff _ _).0 h))
same_parameters_eq (LogicalTypeParameters.time_parameters u)
      (LogicalTypeParameters.timestamp_parameters u' z') h =
    absurd (cc)
same_parameters_eq (LogicalTypeParameters.time_parameters u)
      (LogicalTypeParameters.string_parameters v') h =
    absurd (cc)
same_parameters_eq (LogicalTypeParameters.time_parameters u)
      (LogicalTypeParameters.fixed_binary_parameters w') h =
    absurd (cc)
same_parameters_eq (LogicalTypeParameters.timestamp_parameters u z) LogicalTypeParameters.monostate
      h =
    absurd (cc)
same_parameters_eq (LogicalTypeParameters.timestamp_parameters u z)
      (LogicalTypeParameters.decimal_parameters p' s') h =
    absurd (cc)
same_parameters_eq (LogicalTypeParameters.timestamp_parameters u z)
      (LogicalTypeParameters.time_parameters u') h =
    absurd (cc)
same_parameters_eq (LogicalTypeParameters.timestamp_parameters u z)
      (LogicalTypeParameters.timestamp_parameters u' z') h =
    let both =
      both_true (unit_value u == unit_value u') (timezone_value z == timezone_value z') h in
    ap₂ LogicalTypeParameters.timestamp_parameters (unit_value_same u u' ((==_iff _ _).0 both.0))
      (timezone_value_same z z' ((==_iff _ _).0 both.1))
same_parameters_eq (LogicalTypeParameters.timestamp_parameters u z)
      (LogicalTypeParameters.string_parameters v') h =
    absurd (cc)
same_parameters_eq (LogicalTypeParameters.timestamp_parameters u z)
      (LogicalTypeParameters.fixed_binary_parameters w') h =
    absurd (cc)
same_parameters_eq (LogicalTypeParameters.string_parameters v) LogicalTypeParameters.monostate h =
    absurd (cc)
same_parameters_eq (LogicalTypeParameters.string_parameters v)
      (LogicalTypeParameters.decimal_parameters p' s') h =
    absurd (cc)
same_parameters_eq (LogicalTypeParameters.string_parameters v)
      (LogicalTypeParameters.time_parameters u') h =
    absurd (cc)
same_parameters_eq (LogicalTypeParameters.string_parameters v)
      (LogicalTypeParameters.timestamp_parameters u' z') h =
    absurd (cc)
same_parameters_eq (LogicalTypeParameters.string_parameters v)
      (LogicalTypeParameters.string_parameters v') h =
    ap LogicalTypeParameters.string_parameters (validation_value_same v v' ((==_iff _ _).0 h))
same_parameters_eq (LogicalTypeParameters.string_parameters v)
      (LogicalTypeParameters.fixed_binary_parameters w') h =
    absurd (cc)
same_parameters_eq (LogicalTypeParameters.fixed_binary_parameters w) LogicalTypeParameters.monostate
      h =
    absurd (cc)
same_parameters_eq (LogicalTypeParameters.fixed_binary_parameters w)
      (LogicalTypeParameters.decimal_parameters p' s') h =
    absurd (cc)
same_parameters_eq (LogicalTypeParameters.fixed_binary_parameters w)
      (LogicalTypeParameters.time_parameters u') h =
    absurd (cc)
same_parameters_eq (LogicalTypeParameters.fixed_binary_parameters w)
      (LogicalTypeParameters.timestamp_parameters u' z') h =
    absurd (cc)
same_parameters_eq (LogicalTypeParameters.fixed_binary_parameters w)
      (LogicalTypeParameters.string_parameters v') h =
    absurd (cc)
same_parameters_eq (LogicalTypeParameters.fixed_binary_parameters w)
      (LogicalTypeParameters.fixed_binary_parameters w') h =
    ap LogicalTypeParameters.fixed_binary_parameters ((==_iff w w').0 h)

-- Two logical types that `==` accepts are the same.
pub same_type_eq : (a b : LogicalType) → same_type a b ≡ true → a ≡ b
unfolding same_type
same_type_eq a b h =
    let both =
      both_true (kind_value a.kind == kind_value b.kind) (same_parameters a.parameters b.parameters)
        h in
    ap₂ logical_type (kind_value_same a.kind b.kind ((==_iff _ _).0 both.0))
      (same_parameters_eq a.parameters b.parameters both.1)
