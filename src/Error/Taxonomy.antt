-- ===== src/Error/Taxonomy.antt =====
-- The bands of the error codes: include/shibori/engine/error.hpp and src/error.cpp.
use shibori_engine.Base.{ℕ, ◌/◌, ◌≡◌, refl}
use shibori_engine.Error.{ErrorCode, ErrorCategory, code_value, category_for, ErrorCode}

-- The place of a category in the enumeration, from 1.
abbrev pub rank : ErrorCategory → ℕ
rank ErrorCategory.invalid_argument = 1
rank ErrorCategory.invalid_data = 2
rank ErrorCategory.io = 3
rank ErrorCategory.truncated = 4
rank ErrorCategory.corrupt = 5
rank ErrorCategory.unsupported = 6
rank ErrorCategory.resource_limit = 7
rank ErrorCategory.cancelled = 8
rank ErrorCategory.plugin = 9
rank ErrorCategory.internal = 10

-- The category of a code is the band of a thousand that its value stands in.
pub category_for-band : (c : ErrorCode) → rank (category_for c) ≡ code_value c / 1000
unfolding category_for code_value
category_for-band ErrorCode.invalid_configuration = refl
category_for-band ErrorCode.invalid_state = refl
category_for-band ErrorCode.invalid_resource_limit = refl
category_for-band ErrorCode.invalid_schema = refl
category_for-band ErrorCode.invalid_block = refl
category_for-band ErrorCode.invalid_digest_text = refl
category_for-band ErrorCode.io_read_failed = refl
category_for-band ErrorCode.io_write_failed = refl
category_for-band ErrorCode.io_no_progress = refl
category_for-band ErrorCode.unexpected_end = refl
category_for-band ErrorCode.checksum_mismatch = refl
category_for-band ErrorCode.malformed_container = refl
category_for-band ErrorCode.invalid_record = refl
category_for-band ErrorCode.invalid_magic = refl
category_for-band ErrorCode.unsupported_format_version = refl
category_for-band ErrorCode.unsupported_feature = refl
category_for-band ErrorCode.missing_component = refl
category_for-band ErrorCode.limit_exceeded = refl
category_for-band ErrorCode.allocation_failed = refl
category_for-band ErrorCode.arithmetic_overflow = refl
category_for-band ErrorCode.range_exceeded = refl
category_for-band ErrorCode.operation_cancelled = refl
category_for-band ErrorCode.plugin_contract_violation = refl
category_for-band ErrorCode.plugin_failure = refl
category_for-band ErrorCode.invariant_violation = refl
