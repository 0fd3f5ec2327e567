-- ===== src/Schema/Field.antt =====
-- src/schema.cpp: `Field` and `FieldBuilder`.
use shibori_engine.Base.{ℕ, Bool, true, false, ◌||◌, not, ◌==◌, if◌then◌else◌, List, [], length}
use shibori_engine.Error.{
  ErrorCode, Operation, Error, Result, ok, err, Status, fail_if, new_error, ◌>>◌,
}
use shibori_engine.LogicalType.{LogicalType}
use shibori_engine.Resource.Limits.{ResourceLimits}
use shibori_engine.Utf8.{valid_utf8}
use shibori_engine.Schema.Metadata.{Metadata, schema_failure, validate_metadata, add_metadata_value}

-- `Field::Impl`
pub record Field : Type 0 where
  pub id : ℕ
  pub name : List ℕ
  pub type : LogicalType
  pub nullable : Bool
  pub metadata : Metadata

-- `FieldBuilder::Impl`: the field to come, and whether it has been asked for.
pub record FieldBuilder : Type 0 where
  pub field : Field
  pub finished : Bool

abbrev pub new_field_builder : ℕ → List ℕ → LogicalType → Bool → FieldBuilder
new_field_builder id name type nullable = record {
  field = record { id = id; name = name; type = type; nullable = nullable; metadata = [] };
  finished = false;
}

abbrev pub field_finished : Error
field_finished =
    new_error ErrorCode.invalid_state Operation.validate_schema "field builder is already finished"

unfoldable pub add_field_metadata : Bool → List ℕ → List ℕ → FieldBuilder → Status × FieldBuilder
unfolding add_metadata_value
add_field_metadata allocates key value b =
    let added = add_metadata_value allocates b.field.metadata key value in
    if b.finished
    then (err field_finished, b)
    else (added.0, record b { field = record b.field { metadata = added.1 } })

unfoldable pub field_result : Bool → ResourceLimits → Field → Result Field
unfolding validate_metadata
field_result allocates limits field =
    fail_if ((field.id == 0) || (length field.name == 0) || not (valid_utf8 field.name))
      (schema_failure "field ID must be nonzero and name must be nonempty strict UTF-8")
    >> validate_metadata field.metadata limits (length field.name)
    >> fail_if (not allocates) (
        new_error ErrorCode.allocation_failed Operation.validate_schema
          "unable to allocate immutable field")
    >> ok field

unfoldable pub finish_field : Bool → ResourceLimits → FieldBuilder → Result Field × FieldBuilder
unfolding field_result
finish_field allocates limits b =
    if b.finished
    then (err field_finished, b)
    else (field_result allocates limits b.field, record b { finished = true })
