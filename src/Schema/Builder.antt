-- ===== src/Schema/Builder.antt =====
-- src/schema.cpp: `Schema` and `SchemaBuilder`.
use shibori_engine.Base.{
  ℕ, Bool, true, false, ◌||◌, not, ltb, ◌==◌, if◌then◌else◌, Option, none, some, List, [], ◌∷◌,
  ◌++◌, length,
}
use shibori_engine.CheckedArithmetic.{checked_add}
use shibori_engine.Error.{
  ErrorCode, Operation, Error, Result, ok, err, Status, fail, fail_if, new_error, ◌>>=◌, ◌>>◌,
}
use shibori_engine.Resource.Limits.{ResourceLimits, validate_resource_limits}
use shibori_engine.Schema.Metadata.{
  Metadata, schema_failure, same_name, metadata_size, metadata_limit, validate_metadata,
  add_metadata_value,
}
use shibori_engine.Schema.Field.{Field}
use shibori_engine.Schema.Canonical.{canonical_bytes, make_fingerprint}

-- `Schema::Impl`
pub record Schema : Type 0 where
  pub fields : List Field
  pub metadata : Metadata
  pub canonical : List ℕ
  pub fingerprint : List ℕ

abbrev pub new_schema : List Field → Metadata → Schema
new_schema fields metadata = record {
  fields = fields;
  metadata = metadata;
  canonical = canonical_bytes fields metadata;
  fingerprint = make_fingerprint (canonical_bytes fields metadata);
}

-- `find_field(id)`, whose null is `none`.
abbrev pub find_field : List Field → ℕ → Option Field
find_field [] id = none
find_field (field ∷ fields) id =
    let later = find_field fields id in if field.id == id then some field else later

-- `SchemaBuilder::Impl`
pub record SchemaBuilder : Type 0 where
  pub fields : List Field
  pub metadata : Metadata
  pub finished : Bool

abbrev pub new_schema_builder : SchemaBuilder
new_schema_builder = record { fields = []; metadata = []; finished = false }

abbrev pub schema_finished : Error
schema_finished =
    new_error ErrorCode.invalid_state Operation.validate_schema "schema builder is already finished"

unfoldable pub add_field : Bool → Field → SchemaBuilder → Status × SchemaBuilder
add_field allocates field b =
    if b.finished
    then (err schema_finished, b)
    else if allocates
    then (ok tt, record b { fields = b.fields ++ field ∷ [] })
    else (fail ErrorCode.allocation_failed Operation.validate_schema "unable to retain field", b)

unfoldable pub add_schema_metadata : Bool → List ℕ → List ℕ → SchemaBuilder → Status × SchemaBuilder
unfolding add_metadata_value
add_schema_metadata allocates key value b =
    let added = add_metadata_value allocates b.metadata key value in
    if b.finished then (err schema_finished, b) else (added.0, record b { metadata = added.1 })

-- `any_of` over the fields before one.
abbrev pub repeats : List Field → Field → Bool
repeats [] field = false
repeats (prior ∷ priors) field =
    (prior.id == field.id) || same_name prior.name field.name || repeats priors field

-- One round of the loop on the fields, from the metadata bytes so far to those with the field's.
unfoldable pub count_field : ResourceLimits → List Field → Field → ℕ → Result ℕ
count_field limits priors field metadata_bytes =
    fail_if (repeats priors field)
      (schema_failure "schema field IDs and top-level names must be unique")
    >> checked_add metadata_bytes (length field.name) Operation.validate_schema
        "schema metadata bytes"
    >>= λ with_name. metadata_size field.metadata >>= λ own_metadata.
        checked_add with_name own_metadata Operation.validate_schema "schema metadata bytes"
        >>= λ total. fail_if (ltb limits.maximum_metadata_bytes total) metadata_limit >> ok total

abbrev pub count_fields : ResourceLimits → List Field → List Field → ℕ → Result ℕ
count_fields limits priors [] metadata_bytes = ok metadata_bytes
count_fields limits priors (field ∷ fields) metadata_bytes =
    count_field limits priors field metadata_bytes >>= λ total.
    count_fields limits (priors ++ field ∷ []) fields total

abbrev pub field_count_error : List Field → Error
field_count_error fields =
    new_error (if length fields == 0 then ErrorCode.invalid_schema else ErrorCode.limit_exceeded)
      Operation.validate_schema "schema field count is outside the configured bounds"

abbrev pub field_count_test : ResourceLimits → List Field → Bool
field_count_test limits fields = (length fields == 0) || ltb limits.maximum_fields (length fields)

abbrev pub schema_checks : ResourceLimits → List Field → Metadata → Result ℕ
schema_checks limits fields metadata =
    validate_resource_limits limits
    >> (fail_if (field_count_test limits fields) (field_count_error fields)
        >> validate_metadata metadata limits 0)

abbrev pub schema_allocated : Bool → List Field → Metadata → Result Schema
schema_allocated allocates fields metadata =
    fail_if (not allocates) (
      new_error ErrorCode.allocation_failed Operation.validate_schema
        "unable to allocate immutable schema")
    >> ok (new_schema fields metadata)

unfoldable pub schema_result : Bool → ResourceLimits → List Field → Metadata → Result Schema
unfolding validate_resource_limits validate_metadata count_field
schema_result allocates limits fields metadata =
    schema_checks limits fields metadata >>= λ metadata_bytes.
    count_fields limits [] fields metadata_bytes >> schema_allocated allocates fields metadata

unfoldable pub finish_schema : Bool → ResourceLimits → SchemaBuilder → Result Schema × SchemaBuilder
unfolding schema_result
finish_schema allocates limits b =
    if b.finished
    then (err schema_finished, b)
    else (schema_result allocates limits b.fields b.metadata, record b { finished = true })
