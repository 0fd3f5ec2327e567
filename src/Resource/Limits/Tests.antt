-- ===== src/Resource/Limits/Tests.antt =====
-- The default limits, and a set of limits that is refused.
use shibori_engine.Base.{◌≡◌, ◌↔◌, refl}
use shibori_engine.Error.{ok, err}
use shibori_engine.Resource.Limits.{
  ResourceLimits, default_resource_limits, limit_error, require_positive, validate_resource_limits,
}
use shibori_engine.Resource.Limits.Validation.{IsConsistent, validate_resource_limits_iff}

default_limits_valid : validate_resource_limits default_resource_limits ≡ ok tt
unfolding validate_resource_limits require_positive
default_limits_valid = refl

abbrev without_workers : ResourceLimits
without_workers = record {
  maximum_resident_bytes = 64;
  maximum_block_rows = 1;
  maximum_decoded_block_bytes = 32;
  maximum_record_bytes = 16;
  maximum_metadata_bytes = 8;
  maximum_fields = 1;
  maximum_encoding_depth = 1;
  maximum_workers = 0;
  maximum_queued_blocks = 1;
}

without_workers_refused :
    validate_resource_limits without_workers
    ≡ err (limit_error "maximum_workers must be greater than zero")
unfolding validate_resource_limits require_positive
without_workers_refused = refl

validate_resource_limits_iff_example :
    (validate_resource_limits default_resource_limits ≡ ok tt)
    ↔ IsConsistent default_resource_limits
validate_resource_limits_iff_example = validate_resource_limits_iff default_resource_limits
