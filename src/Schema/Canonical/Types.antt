-- ===== src/Schema/Canonical/Types.antt =====
-- Logical types in the canonical bytes.
use shibori_engine.Base.{
  ℕ, ◌^◌, ◌<◌, ◌≡◌, refl, ap, ap₂, ◌∙◌, arith, false, ◌==◌, List, [], ◌∷◌, ◌++◌, to_byte,
  to_little_endian,
}
use mathlib.Core.List.{append_assoc}
use shibori_engine.LogicalType.{ℤ, LogicalTypeParameters, LogicalType, logical_type}
use shibori_engine.LogicalType.Equality.{kind_value, unit_value, timezone_value, validation_value}
use shibori_engine.LogicalType.Equality.Sameness.{
  kind_value_same, unit_value_same, timezone_value_same, validation_value_same,
}
use shibori_engine.Schema.Canonical.{to_u16, append_parameters, append_type}
use shibori_engine.Schema.Canonical.Pieces.{append_integer-bytes, same_integer_bytes}

abbrev pub parameters_bytes : LogicalTypeParameters → List ℕ
parameters_bytes LogicalTypeParameters.monostate = 0 ∷ []
parameters_bytes (LogicalTypeParameters.decimal_parameters precision scale) =
    1 ∷ to_byte precision ∷ to_little_endian 2 (to_u16 scale)
parameters_bytes (LogicalTypeParameters.time_parameters unit) = 2 ∷ to_byte (unit_value unit) ∷ []
parameters_bytes (LogicalTypeParameters.timestamp_parameters unit timezone) =
    3 ∷ to_byte (unit_value unit) ∷ to_byte (timezone_value timezone) ∷ []
parameters_bytes (LogicalTypeParameters.string_parameters validation) =
    4 ∷ to_byte (validation_value validation) ∷ []
parameters_bytes (LogicalTypeParameters.fixed_binary_parameters byte_width) =
    5 ∷ to_little_endian 4 byte_width

append_parameters-bytes :
    (output : List ℕ) (parameters : LogicalTypeParameters)
    → append_parameters output parameters ≡ output ++ parameters_bytes parameters
append_parameters-bytes output LogicalTypeParameters.monostate = refl
append_parameters-bytes output (LogicalTypeParameters.decimal_parameters precision scale) =
    append_integer-bytes 2 (output ++ 1 ∷ to_byte precision ∷ []) (to_u16 scale)
    ∙ append_assoc output (1 ∷ to_byte precision ∷ []) (to_little_endian 2 (to_u16 scale))
append_parameters-bytes output (LogicalTypeParameters.time_parameters unit) = refl
append_parameters-bytes output (LogicalTypeParameters.timestamp_parameters unit timezone) = refl
append_parameters-bytes output (LogicalTypeParameters.string_parameters validation) = refl
append_parameters-bytes output (LogicalTypeParameters.fixed_binary_parameters byte_width) =
    append_integer-bytes 4 (output ++ 5 ∷ []) byte_width
    ∙ append_assoc output (5 ∷ []) (to_little_endian 4 byte_width)

abbrev pub type_bytes : LogicalType → List ℕ
type_bytes t = to_byte (kind_value t.kind) ∷ parameters_bytes t.parameters

pub append_type-bytes :
    (output : List ℕ) (t : LogicalType) → append_type output t ≡ output ++ type_bytes t
append_type-bytes output t =
    append_parameters-bytes (output ++ to_byte (kind_value t.kind) ∷ []) t.parameters
    ∙ append_assoc output (to_byte (kind_value t.kind) ∷ []) (parameters_bytes t.parameters)

-- The ranges of `std::int16_t`, `std::uint8_t` and `std::uint32_t`.
abbrev pub IsInt16 : ℤ → Type 0
IsInt16 (ℤ.pos n) = n < 2 ^ 15
IsInt16 (ℤ.negsuc n) = n < 2 ^ 15

abbrev pub AreInRange : LogicalTypeParameters → Type 0
AreInRange LogicalTypeParameters.monostate = Unit
AreInRange (LogicalTypeParameters.decimal_parameters precision scale) =
    (precision < 2 ^ 8) × IsInt16 scale
AreInRange (LogicalTypeParameters.time_parameters unit) = unit_value unit < 2 ^ 8
AreInRange (LogicalTypeParameters.timestamp_parameters unit timezone) =
    (unit_value unit < 2 ^ 8) × (timezone_value timezone < 2 ^ 8)
AreInRange (LogicalTypeParameters.string_parameters validation) =
    validation_value validation < 2 ^ 8
AreInRange (LogicalTypeParameters.fixed_binary_parameters byte_width) = byte_width < 2 ^ 32

abbrev pub IsInRange : LogicalType → Type 0
IsInRange t = (kind_value t.kind < 2 ^ 8) × AreInRange t.parameters

to_u16-lt : (z : ℤ) → IsInt16 z → to_u16 z < 256 ^ 2
to_u16-lt (ℤ.pos n) h = omega arith
to_u16-lt (ℤ.negsuc n) h = omega arith

to_u16_same : (a b : ℤ) → IsInt16 a → IsInt16 b → to_u16 a ≡ to_u16 b → a ≡ b
to_u16_same (ℤ.pos a) (ℤ.pos b) small few h = ap ℤ.pos h
to_u16_same (ℤ.pos a) (ℤ.negsuc b) small few h = absurd (omega arith)
to_u16_same (ℤ.negsuc a) (ℤ.pos b) small few h = absurd (omega arith)
to_u16_same (ℤ.negsuc a) (ℤ.negsuc b) small few h = ap ℤ.negsuc (omega arith)

pub head_same : (a b : ℕ) {xs ys : List ℕ} → a ∷ xs ≡ b ∷ ys → (a ≡ b) × (xs ≡ ys)
head_same a b h = (cc, cc)

to_byte_same : (a b : ℕ) → a < 2 ^ 8 → b < 2 ^ 8 → to_byte a ≡ to_byte b → a ≡ b
to_byte_same a b small few h = omega arith

apart : (a b : ℕ) → (a == b) ≡ false → a ≡ b → ⊥
apart a b different h = ground arith

same_parameters_bytes :
    (p q : LogicalTypeParameters) (rest more : List ℕ)
    → AreInRange p
    → AreInRange q
    → parameters_bytes p ++ rest ≡ parameters_bytes q ++ more
    → (p ≡ q) × (rest ≡ more)
same_parameters_bytes LogicalTypeParameters.monostate LogicalTypeParameters.monostate rest more
      small few h =
    (refl, (head_same 0 0 h).1)
same_parameters_bytes LogicalTypeParameters.monostate
      (LogicalTypeParameters.decimal_parameters p' s') rest more small few h =
    absurd (apart 0 1 refl (head_same 0 1 h).0)
same_parameters_bytes LogicalTypeParameters.monostate (LogicalTypeParameters.time_parameters u')
      rest more small few h =
    absurd (apart 0 2 refl (head_same 0 2 h).0)
same_parameters_bytes LogicalTypeParameters.monostate
      (LogicalTypeParameters.timestamp_parameters u' z') rest more small few h =
    absurd (apart 0 3 refl (head_same 0 3 h).0)
same_parameters_bytes LogicalTypeParameters.monostate (LogicalTypeParameters.string_parameters v')
      rest more small few h =
    absurd (apart 0 4 refl (head_same 0 4 h).0)
same_parameters_bytes LogicalTypeParameters.monostate
      (LogicalTypeParameters.fixed_binary_parameters w') rest more small few h =
    absurd (apart 0 5 refl (head_same 0 5 h).0)
same_parameters_bytes (LogicalTypeParameters.decimal_parameters p s) LogicalTypeParameters.monostate
      rest more small few h =
    absurd (apart 1 0 refl (head_same 1 0 h).0)
same_parameters_bytes (LogicalTypeParameters.decimal_parameters p s)
      (LogicalTypeParameters.decimal_parameters p' s') rest more small few h =
    let (one, after) = head_same 1 1 h in
    let (precision, later) = head_same (to_byte p) (to_byte p') after in
    let (scale, last) =
      same_integer_bytes 2 (to_u16 s) (to_u16 s') rest more (to_u16-lt s small.1)
        (to_u16-lt s' few.1) later in
    (
      ap₂ LogicalTypeParameters.decimal_parameters (to_byte_same p p' small.0 few.0 precision)
          (to_u16_same s s' small.1 few.1 scale),
      last,
    )
same_parameters_bytes (LogicalTypeParameters.decimal_parameters p s)
      (LogicalTypeParameters.time_parameters u') rest more small few h =
    absurd (apart 1 2 refl (head_same 1 2 h).0)
same_parameters_bytes (LogicalTypeParameters.decimal_parameters p s)
      (LogicalTypeParameters.timestamp_parameters u' z') rest more small few h =
    absurd (apart 1 3 refl (head_same 1 3 h).0)
same_parameters_bytes (LogicalTypeParameters.decimal_parameters p s)
      (LogicalTypeParameters.string_parameters v') rest more small few h =
    absurd (apart 1 4 refl (head_same 1 4 h).0)
same_parameters_bytes (LogicalTypeParameters.decimal_parameters p s)
      (LogicalTypeParameters.fixed_binary_parameters w') rest more small few h =
    absurd (apart 1 5 refl (head_same 1 5 h).0)
same_parameters_bytes (LogicalTypeParameters.time_parameters u) LogicalTypeParameters.monostate rest
      more small few h =
    absurd (apart 2 0 refl (head_same 2 0 h).0)
same_parameters_bytes (LogicalTypeParameters.time_parameters u)
      (LogicalTypeParameters.decimal_parameters p' s') rest more small few h =
    absurd (apart 2 1 refl (head_same 2 1 h).0)
same_parameters_bytes (LogicalTypeParameters.time_parameters u)
      (LogicalTypeParameters.time_parameters u') rest more small few h =
    let (two, after) = head_same 2 2 h in
    let (unit, last) = head_same (to_byte (unit_value u)) (to_byte (unit_value u')) after in
    (
      ap LogicalTypeParameters.time_parameters
          (unit_value_same u u' (to_byte_same _ _ small few unit)),
      last,
    )
same_parameters_bytes (LogicalTypeParameters.time_parameters u)
      (LogicalTypeParameters.timestamp_parameters u' z') rest more small few h =
    absurd (apart 2 3 refl (head_same 2 3 h).0)
same_parameters_bytes (LogicalTypeParameters.time_parameters u)
      (LogicalTypeParameters.string_parameters v') rest more small few h =
    absurd (apart 2 4 refl (head_same 2 4 h).0)
same_parameters_bytes (LogicalTypeParameters.time_parameters u)
      (LogicalTypeParameters.fixed_binary_parameters w') rest more small few h =
    absurd (apart 2 5 refl (head_same 2 5 h).0)
same_parameters_bytes (LogicalTypeParameters.timestamp_parameters u z)
      LogicalTypeParameters.monostate rest more small few h =
    absurd (apart 3 0 refl (head_same 3 0 h).0)
same_parameters_bytes (LogicalTypeParameters.timestamp_parameters u z)
      (LogicalTypeParameters.decimal_parameters p' s') rest more small few h =
    absurd (apart 3 1 refl (head_same 3 1 h).0)
same_parameters_bytes (LogicalTypeParameters.timestamp_parameters u z)
      (LogicalTypeParameters.time_parameters u') rest more small few h =
    absurd (apart 3 2 refl (head_same 3 2 h).0)
same_parameters_bytes (LogicalTypeParameters.timestamp_parameters u z)
      (LogicalTypeParameters.timestamp_parameters u' z') rest more small few h =
    let (three, after) = head_same 3 3 h in
    let (unit, later) = head_same (to_byte (unit_value u)) (to_byte (unit_value u')) after in
    let (zone, last) = head_same (to_byte (timezone_value z)) (to_byte (timezone_value z')) later in
    (
      ap₂ LogicalTypeParameters.timestamp_parameters
          (unit_value_same u u' (to_byte_same _ _ small.0 few.0 unit))
          (timezone_value_same z z' (to_byte_same _ _ small.1 few.1 zone)),
      last,
    )
same_parameters_bytes (LogicalTypeParameters.timestamp_parameters u z)
      (LogicalTypeParameters.string_parameters v') rest more small few h =
    absurd (apart 3 4 refl (head_same 3 4 h).0)
same_parameters_bytes (LogicalTypeParameters.timestamp_parameters u z)
      (LogicalTypeParameters.fixed_binary_parameters w') rest more small few h =
    absurd (apart 3 5 refl (head_same 3 5 h).0)
same_parameters_bytes (LogicalTypeParameters.string_parameters v) LogicalTypeParameters.monostate
      rest more small few h =
    absurd (apart 4 0 refl (head_same 4 0 h).0)
same_parameters_bytes (LogicalTypeParameters.string_parameters v)
      (LogicalTypeParameters.decimal_parameters p' s') rest more small few h =
    absurd (apart 4 1 refl (head_same 4 1 h).0)
same_parameters_bytes (LogicalTypeParameters.string_parameters v)
      (LogicalTypeParameters.time_parameters u') rest more small few h =
    absurd (apart 4 2 refl (head_same 4 2 h).0)
same_parameters_bytes (LogicalTypeParameters.string_parameters v)
      (LogicalTypeParameters.timestamp_parameters u' z') rest more small few h =
    absurd (apart 4 3 refl (head_same 4 3 h).0)
same_parameters_bytes (LogicalTypeParameters.string_parameters v)
      (LogicalTypeParameters.string_parameters v') rest more small few h =
    let (four, after) = head_same 4 4 h in
    let (validation, last) =
      head_same (to_byte (validation_value v)) (to_byte (validation_value v')) after in
    (
      ap LogicalTypeParameters.string_parameters
          (validation_value_same v v' (to_byte_same _ _ small few validation)),
      last,
    )
same_parameters_bytes (LogicalTypeParameters.string_parameters v)
      (LogicalTypeParameters.fixed_binary_parameters w') rest more small few h =
    absurd (apart 4 5 refl (head_same 4 5 h).0)
same_parameters_bytes (LogicalTypeParameters.fixed_binary_parameters w)
      LogicalTypeParameters.monostate rest more small few h =
    absurd (apart 5 0 refl (head_same 5 0 h).0)
same_parameters_bytes (LogicalTypeParameters.fixed_binary_parameters w)
      (LogicalTypeParameters.decimal_parameters p' s') rest more small few h =
    absurd (apart 5 1 refl (head_same 5 1 h).0)
same_parameters_bytes (LogicalTypeParameters.fixed_binary_parameters w)
      (LogicalTypeParameters.time_parameters u') rest more small few h =
    absurd (apart 5 2 refl (head_same 5 2 h).0)
same_parameters_bytes (LogicalTypeParameters.fixed_binary_parameters w)
      (LogicalTypeParameters.timestamp_parameters u' z') rest more small few h =
    absurd (apart 5 3 refl (head_same 5 3 h).0)
same_parameters_bytes (LogicalTypeParameters.fixed_binary_parameters w)
      (LogicalTypeParameters.string_parameters v') rest more small few h =
    absurd (apart 5 4 refl (head_same 5 4 h).0)
same_parameters_bytes (LogicalTypeParameters.fixed_binary_parameters w)
      (LogicalTypeParameters.fixed_binary_parameters w') rest more small few h =
    let (five, after) = head_same 5 5 h in
    let (width, last) = same_integer_bytes 4 w w' rest more (omega arith) (omega arith) after in
    (ap LogicalTypeParameters.fixed_binary_parameters width, last)

pub same_type_bytes :
    (t u : LogicalType) (rest more : List ℕ)
    → IsInRange t
    → IsInRange u
    → type_bytes t ++ rest ≡ type_bytes u ++ more
    → (t ≡ u) × (rest ≡ more)
same_type_bytes t u rest more small few h =
    let (kind, later) = head_same (to_byte (kind_value t.kind)) (to_byte (kind_value u.kind)) h in
    let (parameters, last) =
      same_parameters_bytes t.parameters u.parameters rest more small.1 few.1 later in
    (
      ap₂ logical_type (kind_value_same t.kind u.kind (to_byte_same _ _ small.0 few.0 kind))
          parameters,
      last,
    )
