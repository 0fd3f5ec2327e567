-- ===== src/Schema/Tests.antt =====
-- A schema of two fields, and one whose fields have the same name.
use shibori_engine.Base.{ℕ, ◌<◌, ◌^◌, length, arith, ◌≡◌, refl, true, false, some, List, [], ◌∷◌}
use shibori_engine.CheckedArithmetic.{checked_add}
use shibori_engine.Error.{ok, err}
use shibori_engine.LogicalType.{LogicalTypeKind, LogicalTypeParameters, logical_type}
use shibori_engine.Resource.Limits.{default_resource_limits, require_positive}
use shibori_engine.Schema.Metadata.{schema_failure}
use shibori_engine.Schema.Field.{Field}
use shibori_engine.Schema.Builder.{Schema, new_schema, SchemaBuilder, find_field, finish_schema}
use shibori_engine.LogicalType.Equality.{kind_value}
use shibori_engine.Schema.Canonical.Identity.{IsStored, canonical_bytes-identity}
use shibori_engine.Schema.Unique.{IsSchema, finish_schema-IsSchema, finish_schema-find_field}

abbrev integer_field : ℕ → List ℕ → Field
integer_field id name = record {
  id = id;
  name = name;
  type = logical_type LogicalTypeKind.int32 LogicalTypeParameters.monostate;
  nullable = true;
  metadata = [];
}

abbrev width_field : Field
width_field = integer_field 3 (0x77 ∷ [])

abbrev height_field : Field
height_field = integer_field 5 (0x68 ∷ [])

abbrev two_fields : SchemaBuilder
two_fields = record { fields = width_field ∷ height_field ∷ []; metadata = []; finished = false }

abbrev size_schema : Schema
size_schema = new_schema (width_field ∷ height_field ∷ []) []

schema_made : (finish_schema true default_resource_limits two_fields).0 ≡ ok size_schema
unfolding finish_schema require_positive checked_add
schema_made = refl

same_name_refused :
    (finish_schema true default_resource_limits (record {
      fields = width_field ∷ integer_field 4 (0x77 ∷ []) ∷ [];
      metadata = [];
      finished = false;
    })).0
    ≡ err (schema_failure "schema field IDs and top-level names must be unique")
unfolding finish_schema require_positive checked_add
same_name_refused = refl

finish_schema-IsSchema_example :
    IsSchema default_resource_limits size_schema × (size_schema.fields ≡ two_fields.fields)
finish_schema-IsSchema_example =
    finish_schema-IsSchema true default_resource_limits two_fields size_schema schema_made

finish_schema-find_field_example : find_field size_schema.fields 5 ≡ some height_field
finish_schema-find_field_example =
    finish_schema-find_field true default_resource_limits two_fields size_schema 1 height_field
      schema_made refl

stored :
    (id : ℕ) (name : List ℕ) → id < 2 ^ 32 → length name < 2 ^ 64 → IsStored (integer_field id name)
unfolding kind_value
stored id name small short = record {
  id = small;
  name = short;
  type = (omega arith, tt);
  metadata = (omega arith, tt);
}

canonical_bytes-identity_example :
    (two_fields.fields ≡ size_schema.fields) × (two_fields.metadata ≡ size_schema.metadata)
canonical_bytes-identity_example =
    canonical_bytes-identity two_fields.fields size_schema.fields [] [] (omega arith) (omega arith)
      (
        stored 3 (0x77 ∷ []) (omega arith) (omega arith),
        (stored 5 (0x68 ∷ []) (omega arith) (omega arith), tt),
      )
      (
        stored 3 (0x77 ∷ []) (omega arith) (omega arith),
        (stored 5 (0x68 ∷ []) (omega arith) (omega arith), tt),
      )
      (omega arith, tt) (omega arith, tt) refl
