-- ===== src/Error.antt =====
-- include/shibori/engine/error.hpp, src/error.cpp and include/shibori/engine/result.hpp: the
-- error value that every fallible operation returns, and the result type that carries it.
pub mod Taxonomy
pub mod Tests
use shibori_engine.Base.{
  ◌⊎◌, inl, inr, ℕ, ◌≡◌, refl, String, Bool, true, false, Option, none, some, ltb, if◌then◌else◌,
}

pub data ErrorCategory : Type 0 where
  invalid_argument invalid_data io truncated corrupt unsupported : ErrorCategory
  resource_limit cancelled plugin internal : ErrorCategory

pub data ErrorCode : Type 0 where
  invalid_configuration invalid_state invalid_resource_limit invalid_schema : ErrorCode
  invalid_block invalid_digest_text io_read_failed io_write_failed : ErrorCode
  io_no_progress unexpected_end checksum_mismatch malformed_container : ErrorCode
  invalid_record invalid_magic unsupported_format_version unsupported_feature : ErrorCode
  missing_component limit_exceeded allocation_failed arithmetic_overflow : ErrorCode
  range_exceeded operation_cancelled plugin_contract_violation plugin_failure : ErrorCode
  invariant_violation : ErrorCode

pub data Operation : Type 0 where
  unknown configure validate_schema validate_block read write parse encode : Operation
  decode finalize inspect verify load_plugin : Operation

-- The enumerators' values.
unfoldable pub code_value : ErrorCode → ℕ
code_value ErrorCode.invalid_configuration = 1000
code_value ErrorCode.invalid_state = 1001
code_value ErrorCode.invalid_resource_limit = 1002
code_value ErrorCode.invalid_schema = 2000
code_value ErrorCode.invalid_block = 2001
code_value ErrorCode.invalid_digest_text = 2002
code_value ErrorCode.io_read_failed = 3000
code_value ErrorCode.io_write_failed = 3001
code_value ErrorCode.io_no_progress = 3002
code_value ErrorCode.unexpected_end = 4000
code_value ErrorCode.checksum_mismatch = 5000
code_value ErrorCode.malformed_container = 5001
code_value ErrorCode.invalid_record = 5002
code_value ErrorCode.invalid_magic = 5003
code_value ErrorCode.unsupported_format_version = 6000
code_value ErrorCode.unsupported_feature = 6001
code_value ErrorCode.missing_component = 6002
code_value ErrorCode.limit_exceeded = 7000
code_value ErrorCode.allocation_failed = 7001
code_value ErrorCode.arithmetic_overflow = 7002
code_value ErrorCode.range_exceeded = 7003
code_value ErrorCode.operation_cancelled = 8000
code_value ErrorCode.plugin_contract_violation = 9000
code_value ErrorCode.plugin_failure = 9001
code_value ErrorCode.invariant_violation = 10000

-- The value decides the category, a thousand at a time.
unfoldable category_of_value : ℕ → ErrorCategory
category_of_value value =
    if ltb value 2000
    then ErrorCategory.invalid_argument
    else if ltb value 3000
    then ErrorCategory.invalid_data
    else if ltb value 4000
    then ErrorCategory.io
    else if ltb value 5000
    then ErrorCategory.truncated
    else if ltb value 6000
    then ErrorCategory.corrupt
    else if ltb value 7000
    then ErrorCategory.unsupported
    else if ltb value 8000
    then ErrorCategory.resource_limit
    else if ltb value 9000
    then ErrorCategory.cancelled
    else if ltb value 10000
    then ErrorCategory.plugin
    else ErrorCategory.internal

unfoldable pub category_for : ErrorCode → ErrorCategory
unfolding code_value category_of_value
category_for code = category_of_value (code_value code)

unfoldable pub category_to_string : ErrorCategory → String
category_to_string ErrorCategory.invalid_argument = "invalid_argument"
category_to_string ErrorCategory.invalid_data = "invalid_data"
category_to_string ErrorCategory.io = "io"
category_to_string ErrorCategory.truncated = "truncated"
category_to_string ErrorCategory.corrupt = "corrupt"
category_to_string ErrorCategory.unsupported = "unsupported"
category_to_string ErrorCategory.resource_limit = "resource_limit"
category_to_string ErrorCategory.cancelled = "cancelled"
category_to_string ErrorCategory.plugin = "plugin"
category_to_string ErrorCategory.internal = "internal"

unfoldable pub code_to_string : ErrorCode → String
code_to_string ErrorCode.invalid_configuration = "invalid_configuration"
code_to_string ErrorCode.invalid_state = "invalid_state"
code_to_string ErrorCode.invalid_resource_limit = "invalid_resource_limit"
code_to_string ErrorCode.invalid_schema = "invalid_schema"
code_to_string ErrorCode.invalid_block = "invalid_block"
code_to_string ErrorCode.invalid_digest_text = "invalid_digest_text"
code_to_string ErrorCode.io_read_failed = "io_read_failed"
code_to_string ErrorCode.io_write_failed = "io_write_failed"
code_to_string ErrorCode.io_no_progress = "io_no_progress"
code_to_string ErrorCode.unexpected_end = "unexpected_end"
code_to_string ErrorCode.checksum_mismatch = "checksum_mismatch"
code_to_string ErrorCode.malformed_container = "malformed_container"
code_to_string ErrorCode.invalid_record = "invalid_record"
code_to_string ErrorCode.invalid_magic = "invalid_magic"
code_to_string ErrorCode.unsupported_format_version = "unsupported_format_version"
code_to_string ErrorCode.unsupported_feature = "unsupported_feature"
code_to_string ErrorCode.missing_component = "missing_component"
code_to_string ErrorCode.limit_exceeded = "limit_exceeded"
code_to_string ErrorCode.allocation_failed = "allocation_failed"
code_to_string ErrorCode.arithmetic_overflow = "arithmetic_overflow"
code_to_string ErrorCode.range_exceeded = "range_exceeded"
code_to_string ErrorCode.operation_cancelled = "operation_cancelled"
code_to_string ErrorCode.plugin_contract_violation = "plugin_contract_violation"
code_to_string ErrorCode.plugin_failure = "plugin_failure"
code_to_string ErrorCode.invariant_violation = "invariant_violation"

unfoldable pub operation_to_string : Operation → String
operation_to_string Operation.unknown = "unknown"
operation_to_string Operation.configure = "configure"
operation_to_string Operation.validate_schema = "validate_schema"
operation_to_string Operation.validate_block = "validate_block"
operation_to_string Operation.read = "read"
operation_to_string Operation.write = "write"
operation_to_string Operation.parse = "parse"
operation_to_string Operation.encode = "encode"
operation_to_string Operation.decode = "decode"
operation_to_string Operation.finalize = "finalize"
operation_to_string Operation.inspect = "inspect"
operation_to_string Operation.verify = "verify"
operation_to_string Operation.load_plugin = "load_plugin"

-- `Error::Impl`; the shared cause is held as a value.
mutual
  pub data Error : Type 0 where
    error :
        (code : ErrorCode) (operation : Operation) (message : String)
        (byte_offset block_id field_id component_id : Option ℕ) (cause : Cause)
        → Error

  pub data Cause : Type 0 where
    no_cause : Cause
    caused_by : Error → Cause

abbrev pub new_error : ErrorCode → Operation → String → Error
new_error c o m = error c o m none none none none Cause.no_cause

abbrev pub code : Error → ErrorCode
code (error c o m b k f d w) = c

abbrev pub operation : Error → Operation
operation (error c o m b k f d w) = o

abbrev pub message : Error → String
message (error c o m b k f d w) = m

abbrev pub byte_offset : Error → Option ℕ
byte_offset (error c o m b k f d w) = b

abbrev pub block_id : Error → Option ℕ
block_id (error c o m b k f d w) = k

abbrev pub field_id : Error → Option ℕ
field_id (error c o m b k f d w) = f

abbrev pub component_id : Error → Option ℕ
component_id (error c o m b k f d w) = d

abbrev pub cause : Error → Cause
cause (error c o m b k f d w) = w

unfoldable pub category : Error → ErrorCategory
unfolding category_for
category e = category_for (code e)

abbrev pub with_byte_offset : Error → ℕ → Error
with_byte_offset (error c o m b k f d w) v = error c o m (some v) k f d w

abbrev pub with_block_id : Error → ℕ → Error
with_block_id (error c o m b k f d w) v = error c o m b (some v) f d w

abbrev pub with_field_id : Error → ℕ → Error
with_field_id (error c o m b k f d w) v = error c o m b k (some v) d w

abbrev pub with_component_id : Error → ℕ → Error
with_component_id (error c o m b k f d w) v = error c o m b k f (some v) w

abbrev pub with_cause : Error → Error → Error
with_cause (error c o m b k f d w) e = error c o m b k f d (Cause.caused_by e)

-- `std::expected<T, Error>`; `Status` is `Result` of nothing.
pub data Result {ℓ} (T : Type ℓ) : Type ℓ where
  ok : T → Result T
  err : Error → Result T

abbrev pub Status : Type 0
Status = Result (Unit {0})

abbrev pub fail {ℓ} : {T : Type ℓ} → ErrorCode → Operation → String → Result T
fail c o m = err (new_error c o m)

-- `if (auto status = …; !status) return …`.
infixl 5 ◌>>=◌ ◌>>◌
abbrev pub ◌>>=◌ {ℓ κ} : {T : Type ℓ} {U : Type κ} → Result T → (T → Result U) → Result U
err failure >>= next = err failure
ok value >>= next = next value

abbrev pub ◌>>◌ {ℓ κ} : {T : Type ℓ} {U : Type κ} → Result T → Result U → Result U
first >> second = first >>= λ _. second

-- `if (test) return failure;`
abbrev pub fail_if : Bool → Error → Status
fail_if true e = err e
fail_if false e = ok tt

-- What a chain that succeeded went through.
pub >>=-eq-ok {ℓ κ} :
    {T : Type ℓ} {U : Type κ} (first : Result T) (next : T → Result U) {last : U}
    → (first >>= next) ≡ ok last
    → (value : T) × (first ≡ ok value) × (next value ≡ ok last)
>>=-eq-ok (err failure) next chained = cc
>>=-eq-ok (ok value) next chained = (value, refl, chained)

-- The same of `>>`, which drops the first's value.
pub >>-eq-ok {ℓ κ} :
    {T : Type ℓ} {U : Type κ} (first : Result T) (second : Result U) {last : U}
    → (first >> second) ≡ ok last
    → ((value : T) × (first ≡ ok value)) × (second ≡ ok last)
>>-eq-ok first second h =
    let (value, done, rest) = >>=-eq-ok first (λ _. second) h in ((value, done), rest)

pub fail_if-passed : (test : Bool) (e : Error) {u : Unit {0}} → fail_if test e ≡ ok u → test ≡ false
fail_if-passed true e h = absurd (cc)
fail_if-passed false e h = refl

pub Result-cases {ℓ} :
    {A : Type ℓ} (r : Result A) → ((e : Error) × (r ≡ err e)) ⊎ ((a : A) × (r ≡ ok a))
Result-cases (ok a) = inr (a, refl)
Result-cases (err e) = inl (e, refl)
