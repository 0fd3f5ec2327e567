-- ===== src/LogicalType/Widths.antt =====
-- How wide the values of a created type are.
use shibori_engine.Base.{ℕ, ◌≡◌, refl, sym, subst, arith, Bool, true, false, ◌||◌, some, ◌==◌}
use shibori_engine.Error.{ok}
use shibori_engine.LogicalType.{
  LogicalTypeKind, LogicalTypeParameters, LogicalType, create_logical_type, is_variable_width,
  variable_kind, fixed_width_bytes, width_of,
}
use shibori_engine.LogicalType.Validity.{IsPlain, IsTyped}
use shibori_engine.LogicalType.Creation.{create_logical_type_iff}

abbrev pub is_boolean : LogicalTypeKind → Bool
is_boolean LogicalTypeKind.boolean = true
is_boolean _ = false

plain_width :
    {kind : LogicalTypeKind} (parameters : LogicalTypeParameters)
    → IsPlain kind
    → (width : ℕ) × (width_of kind parameters ≡ some width)
      × ((width == 0) ≡ (variable_kind kind || is_boolean kind))
unfolding width_of variable_kind
plain_width parameters IsPlain.plain_boolean = (0, refl, refl)
plain_width parameters IsPlain.plain_int8 = (1, refl, refl)
plain_width parameters IsPlain.plain_int16 = (2, refl, refl)
plain_width parameters IsPlain.plain_int32 = (4, refl, refl)
plain_width parameters IsPlain.plain_int64 = (8, refl, refl)
plain_width parameters IsPlain.plain_uint8 = (1, refl, refl)
plain_width parameters IsPlain.plain_uint16 = (2, refl, refl)
plain_width parameters IsPlain.plain_uint32 = (4, refl, refl)
plain_width parameters IsPlain.plain_uint64 = (8, refl, refl)
plain_width parameters IsPlain.plain_float32 = (4, refl, refl)
plain_width parameters IsPlain.plain_float64 = (8, refl, refl)
plain_width parameters IsPlain.plain_date = (4, refl, refl)
plain_width parameters IsPlain.plain_binary = (0, refl, refl)
plain_width parameters IsPlain.plain_uuid = (16, refl, refl)

typed_width :
    {kind : LogicalTypeKind} {parameters : LogicalTypeParameters}
    → IsTyped kind parameters
    → (width : ℕ) × (width_of kind parameters ≡ some width)
      × ((width == 0) ≡ (variable_kind kind || is_boolean kind))
unfolding width_of variable_kind
typed_width (IsTyped.plain k) = plain_width LogicalTypeParameters.monostate k
typed_width (IsTyped.decimals positive bounded within) = (16, refl, refl)
typed_width (IsTyped.times u) = (8, refl, refl)
typed_width (IsTyped.durations u) = (8, refl, refl)
typed_width (IsTyped.timestamps u z) = (8, refl, refl)
typed_width (IsTyped.strings m) = (0, refl, refl)
typed_width (IsTyped.fixed_binaries {byte_width} positive) = (byte_width, refl, ground arith)

-- The width in bytes of a type that was created can always be asked for, and it is zero exactly
-- for the types of variable width and for booleans.
pub create-fixed_width_bytes :
    (allocates : Bool) (kind : LogicalTypeKind) (parameters : LogicalTypeParameters)
    (t : LogicalType)
    → create_logical_type allocates kind parameters ≡ ok t
    → (width : ℕ) × (fixed_width_bytes t ≡ some width)
      × ((width == 0) ≡ (is_variable_width t || is_boolean t.kind))
unfolding fixed_width_bytes is_variable_width
create-fixed_width_bytes allocates kind parameters t h =
    let (_, typed, made) = (create_logical_type_iff allocates kind parameters t).0 h in
    subst
      (λ (u : LogicalType).
        (width : ℕ) × (fixed_width_bytes u ≡ some width)
        × ((width == 0) ≡ (is_variable_width u || is_boolean u.kind)))
      (sym made) (typed_width typed)
