-- ===== src/Schema/Canonical.antt =====
-- src/schema.cpp: the canonical bytes of a schema, and their fingerprint.
pub mod Pieces
pub mod Entries
pub mod Types
pub mod Identity
use shibori_engine.Base.{
  ℕ, zero, suc, ◌+◌, ◌-◌, ◌*◌, ◌%◌, ◌^◌, bit_and, bit_xor, if◌then◌else◌, List, [], ◌∷◌, ◌++◌,
  length, to_byte, ◌>>>◌,
}
use shibori_engine.LogicalType.{ℤ, LogicalTypeParameters, LogicalType}
use shibori_engine.LogicalType.Equality.{kind_value, unit_value, timezone_value, validation_value}
use shibori_engine.Schema.Metadata.{Metadata}
use shibori_engine.Schema.Field.{Field}

-- `append_integer`: the bytes of an unsigned value of `size` bytes.
abbrev pub append_integer : ℕ → List ℕ → ℕ → List ℕ
append_integer zero output bits = output
append_integer (suc size) output bits =
    append_integer size (output ++ to_byte (bit_and bits 0xff) ∷ []) (bits >>> 8)

abbrev pub append_bytes : List ℕ → List ℕ → List ℕ
append_bytes output bytes = append_integer 8 output (length bytes) ++ bytes

abbrev pub append_entries : List ℕ → Metadata → List ℕ
append_entries output [] = output
append_entries output (entry ∷ metadata) =
    append_entries (append_bytes (append_bytes output entry.0) entry.1) metadata

abbrev pub append_metadata : List ℕ → Metadata → List ℕ
append_metadata output metadata =
    append_entries (append_integer 8 output (length metadata)) metadata

-- `static_cast<std::uint16_t>(value)` of an `std::int16_t`
abbrev pub to_u16 : ℤ → ℕ
to_u16 (ℤ.pos n) = n
to_u16 (ℤ.negsuc n) = 2 ^ 16 - 1 - n

-- `parameters.index()` and the members of the alternative.
abbrev pub append_parameters : List ℕ → LogicalTypeParameters → List ℕ
append_parameters output LogicalTypeParameters.monostate = output ++ 0 ∷ []
append_parameters output (LogicalTypeParameters.decimal_parameters precision scale) =
    append_integer 2 (output ++ 1 ∷ to_byte precision ∷ []) (to_u16 scale)
append_parameters output (LogicalTypeParameters.time_parameters unit) =
    output ++ 2 ∷ to_byte (unit_value unit) ∷ []
append_parameters output (LogicalTypeParameters.timestamp_parameters unit timezone) =
    output ++ 3 ∷ to_byte (unit_value unit) ∷ to_byte (timezone_value timezone) ∷ []
append_parameters output (LogicalTypeParameters.string_parameters validation) =
    output ++ 4 ∷ to_byte (validation_value validation) ∷ []
append_parameters output (LogicalTypeParameters.fixed_binary_parameters byte_width) =
    append_integer 4 (output ++ 5 ∷ []) byte_width

abbrev pub append_type : List ℕ → LogicalType → List ℕ
append_type output t = append_parameters (output ++ to_byte (kind_value t.kind) ∷ []) t.parameters

abbrev pub append_field : List ℕ → Field → List ℕ
append_field output field =
    append_metadata
      (append_type (append_bytes (append_integer 4 output field.id) field.name) field.type
        ++ (if field.nullable then 1 else 0) ∷ [])
      field.metadata

abbrev pub append_fields : List ℕ → List Field → List ℕ
append_fields output [] = output
append_fields output (field ∷ fields) = append_fields (append_field output field) fields

-- "SCH" and the version, the fields, the schema's own metadata.
unfoldable pub canonical_bytes : List Field → Metadata → List ℕ
unfolding kind_value unit_value timezone_value validation_value
canonical_bytes fields metadata =
    append_metadata
      (append_fields (append_integer 4 (0x53 ∷ 0x43 ∷ 0x48 ∷ 1 ∷ []) (length fields)) fields)
      metadata

-- The loop of `make_fingerprint` on its two 64-bit words.
abbrev pub mix : ℕ × ℕ → List ℕ → ℕ × ℕ
mix words [] = words
mix words (byte ∷ canonical) =
    mix
      (
        (bit_xor words.0 byte * 1099511628211) % 2 ^ 64,
        (bit_xor words.1 (to_byte (byte + 0x9d)) * 14029467366897019727) % 2 ^ 64,
      )
      canonical

unfoldable pub make_fingerprint : List ℕ → List ℕ
make_fingerprint canonical =
    let words = mix (14695981039346656037, 1099511628211) canonical in
    append_integer 8 (append_integer 8 [] words.0) words.1
