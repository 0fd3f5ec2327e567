-- ===== src/Resource/Limits/Validation.antt =====
-- Which limits are consistent, and that validation decides it.
use shibori_engine.Base.{ℕ, ◌≤◌, ◌<◌, ◌≡◌, ◌↔◌, refl, arith, String, List, [], ◌∷◌, All}
use shibori_engine.Error.{ErrorCode, Operation, Error, ok, err, code, operation, >>=-eq-ok}
use shibori_engine.Resource.Limits.{
  ResourceLimits, require_positive, named_limits, validate_resource_limits,
}

-- Every limit is positive, and what is contained is no larger than what contains it.
pub record IsConsistent (limits : ResourceLimits) : Type 0 where
  pub resident_positive : 0 < limits.maximum_resident_bytes
  pub rows_positive : 0 < limits.maximum_block_rows
  pub decoded_positive : 0 < limits.maximum_decoded_block_bytes
  pub record_positive : 0 < limits.maximum_record_bytes
  pub metadata_positive : 0 < limits.maximum_metadata_bytes
  pub fields_positive : 0 < limits.maximum_fields
  pub depth_positive : 0 < limits.maximum_encoding_depth
  pub workers_positive : 0 < limits.maximum_workers
  pub queue_positive : 0 < limits.maximum_queued_blocks
  pub decoded_within_resident : limits.maximum_decoded_block_bytes ≤ limits.maximum_resident_bytes
  pub record_within_resident : limits.maximum_record_bytes ≤ limits.maximum_resident_bytes
  pub metadata_within_record : limits.maximum_metadata_bytes ≤ limits.maximum_record_bytes

abbrev IsPositive : String × ℕ → Type 0
IsPositive (name, value) = 0 < value

require_positive_ok :
    (values : List (String × ℕ)) → require_positive values ≡ ok tt → All IsPositive values
unfolding require_positive
require_positive_ok [] h = tt
require_positive_ok ((name, value) ∷ values) h = ground (arith, require_positive_ok values)

ok-require_positive :
    (values : List (String × ℕ)) → All IsPositive values → require_positive values ≡ ok tt
unfolding require_positive
ok-require_positive [] h = refl
ok-require_positive ((name, value) ∷ values) h = ground (arith, ok-require_positive values h.1)

-- A failed check of the positive limits is the error `invalid_resource_limit` while configuring.
require_positive-code :
    (values : List (String × ℕ)) (e : Error)
    → require_positive values ≡ err e
    → (code e ≡ ErrorCode.invalid_resource_limit) × (operation e ≡ Operation.configure)
unfolding require_positive
require_positive-code [] e h = cc
require_positive-code ((name, value) ∷ values) e h = ground (arith, require_positive-code values e)

-- Validation succeeds exactly on the limits of which all nine are positive, the decoded block's
-- and the record's bytes are within the resident bytes, and the metadata's are within the
-- record's.
pub validate_resource_limits_iff :
    (limits : ResourceLimits) → (validate_resource_limits limits ≡ ok tt) ↔ IsConsistent limits
unfolding validate_resource_limits
validate_resource_limits_iff limits = (
  λ h.
      let (done, positive, rest) = >>=-eq-ok (require_positive (named_limits limits)) _ h in
      ground (arith, require_positive_ok (named_limits limits) positive),
  λ c. rw (ok-require_positive (named_limits limits) (omega arith)) (ground arith),
)

-- Whatever validation refuses, it refuses with `invalid_resource_limit` while configuring.
pub validate_resource_limits-code :
    (limits : ResourceLimits) (e : Error)
    → validate_resource_limits limits ≡ err e
    → (code e ≡ ErrorCode.invalid_resource_limit) × (operation e ≡ Operation.configure)
unfolding validate_resource_limits
validate_resource_limits-code limits e h =
    ground (arith, require_positive-code (named_limits limits) e)
