-- ===== src/Schema/Canonical/Identity.antt =====
-- The canonical bytes tell schemas apart.
use shibori_engine.Base.{
  ℕ, ◌^◌, ◌<◌, ◌≡◌, refl, sym, ap, ap₂, ◌∙◌, arith, Bool, true, false, if◌then◌else◌, List, [], ◌∷◌,
  ◌++◌, length, All, to_little_endian,
}
use mathlib.Core.List.{append-nil, append_assoc}
use shibori_engine.LogicalType.{LogicalType}
use shibori_engine.Schema.Metadata.{Metadata}
use shibori_engine.Schema.Field.{Field}
use shibori_engine.Schema.Canonical.{
  append_integer, append_bytes, append_type, append_field, append_fields, canonical_bytes,
}
use shibori_engine.Schema.Canonical.Pieces.{
  append_integer-bytes, same_integer_bytes, sized_bytes, append_bytes-sized, same_sized_bytes,
  same_prefix,
}
use shibori_engine.Schema.Canonical.Entries.{
  metadata_bytes, append_metadata-bytes, IsSized, same_metadata,
}
use shibori_engine.Schema.Canonical.Types.{
  type_bytes, append_type-bytes, IsInRange, head_same, same_type_bytes,
}

abbrev nullable_byte : Bool → ℕ
nullable_byte nullable = if nullable then 1 else 0

abbrev after_type : Field → List ℕ
after_type field = nullable_byte field.nullable ∷ metadata_bytes field.metadata

abbrev field_bytes : Field → List ℕ
field_bytes field =
    to_little_endian 4 field.id
    ++ (sized_bytes field.name ++ (type_bytes field.type ++ after_type field))

append_field-bytes :
    (output : List ℕ) (field : Field) → append_field output field ≡ output ++ field_bytes field
append_field-bytes output field =
    let id = append_integer-bytes 4 output field.id in
    let name =
      append_bytes-sized (append_integer 4 output field.id) field.name
      ∙ ap (λ (o : List ℕ). o ++ sized_bytes field.name) id
      ∙ append_assoc output (to_little_endian 4 field.id) (sized_bytes field.name) in
    let named = append_bytes (append_integer 4 output field.id) field.name in
    let typed = append_type-bytes named field.type in
    let flag = nullable_byte field.nullable ∷ [] in
    append_metadata-bytes (append_type named field.type ++ flag) field.metadata
    ∙ append_assoc (append_type named field.type) flag (metadata_bytes field.metadata)
    ∙ ap (λ (o : List ℕ). o ++ after_type field) typed
    ∙ append_assoc named (type_bytes field.type) (after_type field)
    ∙ ap (λ (o : List ℕ). o ++ (type_bytes field.type ++ after_type field)) name
    ∙ append_assoc output (to_little_endian 4 field.id ++ sized_bytes field.name)
        (type_bytes field.type ++ after_type field)
    ∙ ap (λ (o : List ℕ). output ++ o)
        (append_assoc (to_little_endian 4 field.id) (sized_bytes field.name)
          (type_bytes field.type ++ after_type field))

abbrev fields_bytes : List Field → List ℕ
fields_bytes [] = []
fields_bytes (field ∷ fields) = field_bytes field ++ fields_bytes fields

append_fields-bytes :
    (output : List ℕ) (fields : List Field)
    → append_fields output fields ≡ output ++ fields_bytes fields
append_fields-bytes output [] = sym (append-nil output)
append_fields-bytes output (field ∷ fields) =
    append_fields-bytes (append_field output field) fields
    ∙ ap (λ (o : List ℕ). o ++ fields_bytes fields) (append_field-bytes output field)
    ∙ append_assoc output (field_bytes field) (fields_bytes fields)

-- The ranges of the C++ types of a field's members, and sizes of 64 bits.
pub record IsStored (field : Field) : Type 0 where
  pub id : field.id < 2 ^ 32
  pub name : length field.name < 2 ^ 64
  pub type : IsInRange field.type
  pub metadata : IsSized field.metadata

abbrev field_of : ℕ → List ℕ → LogicalType → Bool → Metadata → Field
field_of id name type nullable metadata = record {
  id = id;
  name = name;
  type = type;
  nullable = nullable;
  metadata = metadata;
}

same_nullable : (a b : Bool) → nullable_byte a ≡ nullable_byte b → a ≡ b
same_nullable true true h = refl
same_nullable false false h = refl
same_nullable true false h = absurd (omega arith)
same_nullable false true h = absurd (omega arith)

same_field_bytes :
    (f g : Field) (rest more : List ℕ)
    → IsStored f
    → IsStored g
    → field_bytes f ++ rest ≡ field_bytes g ++ more
    → (f ≡ g) × (rest ≡ more)
same_field_bytes f g rest more small few h =
    let (id, after_id) = same_integer_bytes 4 f.id g.id _ _ small.id few.id (
      sym (
        append_assoc (to_little_endian 4 f.id)
          (sized_bytes f.name ++ (type_bytes f.type ++ after_type f)) rest)
      ∙ h
      ∙ append_assoc (to_little_endian 4 g.id)
          (sized_bytes g.name ++ (type_bytes g.type ++ after_type g)) more) in
    let (name, after_name) = same_sized_bytes f.name g.name _ _ small.name few.name (
      sym (append_assoc (sized_bytes f.name) (type_bytes f.type ++ after_type f) rest)
      ∙ after_id
      ∙ append_assoc (sized_bytes g.name) (type_bytes g.type ++ after_type g) more) in
    let (type, typed) = same_type_bytes f.type g.type _ _ small.type few.type (
      sym (append_assoc (type_bytes f.type) (after_type f) rest)
      ∙ after_name
      ∙ append_assoc (type_bytes g.type) (after_type g) more) in
    let (flag, flagged) = head_same (nullable_byte f.nullable) (nullable_byte g.nullable) typed in
    let (metadata, last) =
      same_metadata f.metadata g.metadata rest more small.metadata few.metadata flagged in
    let nullable = same_nullable f.nullable g.nullable flag in
    (
      ap₂ (λ (i : ℕ) (n : List ℕ). field_of i n f.type f.nullable f.metadata) id name
          ∙ ap₂ (λ (t : LogicalType) (b : Bool). field_of g.id g.name t b f.metadata) type nullable
          ∙ ap (λ (m : Metadata). field_of g.id g.name g.type g.nullable m) metadata,
      last,
    )

same_fields_bytes :
    (fs gs : List Field) (rest more : List ℕ)
    → length fs ≡ length gs
    → All IsStored fs
    → All IsStored gs
    → fields_bytes fs ++ rest ≡ fields_bytes gs ++ more
    → (fs ≡ gs) × (rest ≡ more)
same_fields_bytes [] [] rest more size small few h = (refl, h)
same_fields_bytes [] (g ∷ gs) rest more size small few h = absurd (omega arith)
same_fields_bytes (f ∷ fs) [] rest more size small few h = absurd (omega arith)
same_fields_bytes (f ∷ fs) (g ∷ gs) rest more size small few h =
    let (field, later) = same_field_bytes f g _ _ small.0 few.0 (
      sym (append_assoc (field_bytes f) (fields_bytes fs) rest)
      ∙ h
      ∙ append_assoc (field_bytes g) (fields_bytes gs) more) in
    let (fields, last) = same_fields_bytes fs gs rest more (omega arith) small.1 few.1 later in
    (ap₂ ◌∷◌ field fields, last)

abbrev magic : List ℕ
magic = 0x53 ∷ 0x43 ∷ 0x48 ∷ 1 ∷ []

canonical_bytes-pieces :
    (fields : List Field) (metadata : Metadata)
    → canonical_bytes fields metadata
      ≡ magic
        ++ (to_little_endian 4 (length fields) ++ (fields_bytes fields ++ metadata_bytes metadata))
unfolding canonical_bytes
canonical_bytes-pieces fields metadata =
    let count = append_integer 4 magic (length fields) in
    append_metadata-bytes (append_fields count fields) metadata
    ∙ ap (λ (o : List ℕ). o ++ metadata_bytes metadata) (append_fields-bytes count fields)
    ∙ append_assoc count (fields_bytes fields) (metadata_bytes metadata)
    ∙ ap (λ (o : List ℕ). o ++ (fields_bytes fields ++ metadata_bytes metadata))
        (append_integer-bytes 4 magic (length fields))
    ∙ append_assoc magic (to_little_endian 4 (length fields))
        (fields_bytes fields ++ metadata_bytes metadata)

-- Two schemas with the same canonical bytes have the same fields, with their IDs, names, types,
-- nullability and metadata in order, and the same metadata, where every number is in the range of its
-- C++ type, every size is below 2^64, and the fields are fewer than 2^32.
pub canonical_bytes-identity :
    (fields others : List Field) (metadata other : Metadata)
    → length fields < 2 ^ 32
    → length others < 2 ^ 32
    → All IsStored fields
    → All IsStored others
    → IsSized metadata
    → IsSized other
    → canonical_bytes fields metadata ≡ canonical_bytes others other
    → (fields ≡ others) × (metadata ≡ other)
canonical_bytes-identity fields others metadata other few less stored kept sized small h =
    let (start, counted) =
      same_prefix 4 magic magic _ _ refl refl
        (sym (canonical_bytes-pieces fields metadata) ∙ h ∙ canonical_bytes-pieces others other) in
    let (count, listed) =
      same_integer_bytes 4 (length fields) (length others) _ _ few less counted in
    let (same, later) = same_fields_bytes fields others _ _ count stored kept listed in
    let whole = ap (λ (bytes : List ℕ). bytes ++ []) later in
    (same, (same_metadata metadata other [] [] sized small whole).0)
