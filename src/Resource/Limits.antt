-- ===== src/Resource/Limits.antt =====
-- The resource kinds, and the limits that a context is configured with.
pub mod Validation
pub mod Tests
use shibori_engine.Base.{ℕ, ◌*◌, String, join_text, ltb, ◌==◌, if◌then◌else◌, List, [], ◌∷◌}
use shibori_engine.Error.{ErrorCode, Operation, Error, ok, err, Status, new_error, fail_if, ◌>>◌}

pub data ResourceKind : Type 0 where
  resident_memory block_rows decoded_block_bytes record_bytes metadata_bytes : ResourceKind
  fields encoding_depth workers queued_blocks : ResourceKind

unfoldable pub kind_to_string : ResourceKind → String
kind_to_string ResourceKind.resident_memory = "resident_memory"
kind_to_string ResourceKind.block_rows = "block_rows"
kind_to_string ResourceKind.decoded_block_bytes = "decoded_block_bytes"
kind_to_string ResourceKind.record_bytes = "record_bytes"
kind_to_string ResourceKind.metadata_bytes = "metadata_bytes"
kind_to_string ResourceKind.fields = "fields"
kind_to_string ResourceKind.encoding_depth = "encoding_depth"
kind_to_string ResourceKind.workers = "workers"
kind_to_string ResourceKind.queued_blocks = "queued_blocks"

pub record ResourceLimits : Type 0 where
  pub maximum_resident_bytes : ℕ
  pub maximum_block_rows : ℕ
  pub maximum_decoded_block_bytes : ℕ
  pub maximum_record_bytes : ℕ
  pub maximum_metadata_bytes : ℕ
  pub maximum_fields : ℕ
  pub maximum_encoding_depth : ℕ
  pub maximum_workers : ℕ
  pub maximum_queued_blocks : ℕ

abbrev pub mebibyte : ℕ
mebibyte = 1024 * 1024

abbrev pub default_resource_limits : ResourceLimits
default_resource_limits = record {
  maximum_resident_bytes = 512 * mebibyte;
  maximum_block_rows = 1_000_000;
  maximum_decoded_block_bytes = 64 * mebibyte;
  maximum_record_bytes = 128 * mebibyte;
  maximum_metadata_bytes = 16 * mebibyte;
  maximum_fields = 4096;
  maximum_encoding_depth = 8;
  maximum_workers = 8;
  maximum_queued_blocks = 4;
}

abbrev pub limit_error : String → Error
limit_error message = new_error ErrorCode.invalid_resource_limit Operation.configure message

abbrev pub invalid_limit : String → Status
invalid_limit name = err (limit_error (join_text name " must be greater than zero"))

-- The loop over the named values: the first zero is reported.
unfoldable pub require_positive : List (String × ℕ) → Status
require_positive [] = ok tt
require_positive ((name, value) ∷ values) =
    let rest = require_positive values in if value == 0 then invalid_limit name else rest

abbrev pub named_limits : ResourceLimits → List (String × ℕ)
named_limits limits =
    ("maximum_resident_bytes", limits.maximum_resident_bytes)
    ∷ ("maximum_block_rows", limits.maximum_block_rows)
    ∷ ("maximum_decoded_block_bytes", limits.maximum_decoded_block_bytes)
    ∷ ("maximum_record_bytes", limits.maximum_record_bytes)
    ∷ ("maximum_metadata_bytes", limits.maximum_metadata_bytes)
    ∷ ("maximum_fields", limits.maximum_fields)
    ∷ ("maximum_encoding_depth", limits.maximum_encoding_depth)
    ∷ ("maximum_workers", limits.maximum_workers)
    ∷ ("maximum_queued_blocks", limits.maximum_queued_blocks)
    ∷ []

unfoldable pub validate_resource_limits : ResourceLimits → Status
validate_resource_limits limits = do
  require_positive (named_limits limits)
  fail_if (ltb limits.maximum_resident_bytes limits.maximum_decoded_block_bytes)
      (limit_error "maximum_decoded_block_bytes exceeds maximum_resident_bytes")
  fail_if (ltb limits.maximum_resident_bytes limits.maximum_record_bytes)
      (limit_error "maximum_record_bytes exceeds maximum_resident_bytes")
  fail_if (ltb limits.maximum_record_bytes limits.maximum_metadata_bytes)
      (limit_error "maximum_metadata_bytes exceeds maximum_record_bytes")
