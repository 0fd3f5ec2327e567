-- ===== src/Schema/Metadata.antt =====
-- src/schema.cpp: the metadata of fields and schemas, a `std::map` from names to bytes. Names are the
-- bytes of a `std::string`, in the order of `std::less`.
use shibori_engine.Base.{
  ℕ, suc, String, ◌+◌, Bool, true, false, ◌&&◌, ◌||◌, not, ltb, ◌==◌, if◌then◌else◌, Option, none,
  some, List, [], ◌∷◌, length,
}
use shibori_engine.CheckedArithmetic.{checked_add}
use shibori_engine.Error.{
  ErrorCode, Operation, Error, Result, ok, err, Status, fail, fail_if, new_error, ◌>>=◌, ◌>>◌,
}
use shibori_engine.Resource.Limits.{ResourceLimits}
use shibori_engine.Utf8.{valid_utf8}

abbrev pub Metadata : Type 0
Metadata = List (List ℕ × List ℕ)

abbrev pub schema_failure : String → Error
schema_failure message = new_error ErrorCode.invalid_schema Operation.validate_schema message

-- `std::string::operator==` and `operator<`
abbrev pub same_name : List ℕ → List ℕ → Bool
same_name [] [] = true
same_name [] (b ∷ bs) = false
same_name (a ∷ text) [] = false
same_name (a ∷ text) (b ∷ bs) = (a == b) && same_name text bs

abbrev pub name_before : List ℕ → List ℕ → Bool
name_before text [] = false
name_before [] (b ∷ bs) = true
name_before (a ∷ text) (b ∷ bs) = ltb a b || ((a == b) && name_before text bs)

-- `metadata.find(key)`
abbrev pub find_metadata : List ℕ → Metadata → Option (List ℕ)
find_metadata key [] = none
find_metadata key (entry ∷ metadata) =
    let later = find_metadata key metadata in if same_name entry.0 key then some entry.1 else later

-- `metadata.emplace(key, value)` of a key that is not there.
abbrev pub emplace_metadata : List ℕ → List ℕ → Metadata → Metadata
emplace_metadata key value [] = (key, value) ∷ []
emplace_metadata key value (entry ∷ metadata) =
    let later = emplace_metadata key value metadata in
    if name_before key entry.0 then (key, value) ∷ entry ∷ metadata else entry ∷ later

-- `key.find('/')`
abbrev pub find_slash : List ℕ → Option ℕ
find_slash [] = none
find_slash (c ∷ key) =
    let later : Option ℕ = elim (find_slash key) [ none ↦ none | some index ↦ some (suc index) ] in
    if c == 0x2f then some 0 else later

abbrev pub starts_with : List ℕ → List ℕ → Bool
starts_with text [] = true
starts_with [] (p ∷ prefix) = false
starts_with (c ∷ text) (p ∷ prefix) = (c == p) && starts_with text prefix

-- "shibori." and "shibori.engine/"
abbrev pub reserved_prefix : List ℕ
reserved_prefix = 115 ∷ 104 ∷ 105 ∷ 98 ∷ 111 ∷ 114 ∷ 105 ∷ 46 ∷ []

abbrev pub engine_prefix : List ℕ
engine_prefix =
    115 ∷ 104 ∷ 105 ∷ 98 ∷ 111 ∷ 114 ∷ 105 ∷ 46 ∷ 101 ∷ 110 ∷ 103 ∷ 105 ∷ 110 ∷ 101 ∷ 47 ∷ []

abbrev pub unqualified : List ℕ → Bool
unqualified key = elim (find_slash key) [
  | none ↦ true
  | some slash ↦ (slash == 0) || (slash + 1 == length key)
]

unfoldable pub validate_key : List ℕ → Status
validate_key key =
    if (length key == 0) || not (valid_utf8 key) || unqualified key
    then err (schema_failure "metadata key must be a qualified, strict UTF-8 name")
    else if starts_with key reserved_prefix && not (starts_with key engine_prefix)
    then err (schema_failure "metadata key uses a reserved namespace")
    else ok tt

abbrev pub metadata_size_from : ℕ → Metadata → Result ℕ
metadata_size_from total [] = ok total
metadata_size_from total (entry ∷ metadata) =
    checked_add (length entry.0) (length entry.1) Operation.validate_schema "metadata entry"
    >>= λ size. checked_add total size Operation.validate_schema "metadata bytes" >>= λ next.
        metadata_size_from next metadata

abbrev pub metadata_size : Metadata → Result ℕ
metadata_size metadata = metadata_size_from 0 metadata

abbrev pub metadata_limit : Error
metadata_limit =
    new_error ErrorCode.limit_exceeded Operation.validate_schema
      "schema metadata exceeds the configured byte limit"

-- Returns the new `aggregate`, which no caller reads after a failure.
unfoldable pub validate_metadata : Metadata → ResourceLimits → ℕ → Result ℕ
validate_metadata metadata limits aggregate = metadata_size metadata >>= λ size.
    checked_add aggregate size Operation.validate_schema "schema metadata bytes" >>= λ next.
    fail_if (ltb limits.maximum_metadata_bytes next) metadata_limit >> ok next

unfoldable pub add_metadata_value : Bool → Metadata → List ℕ → List ℕ → Status × Metadata
unfolding validate_key
add_metadata_value allocates metadata key value = elim (validate_key key) [
  | err e ↦ (err e, metadata)
  | ok u ↦ elim (find_metadata key metadata) [
    | some found ↦ (err (schema_failure "duplicate metadata key"), metadata)
    | none ↦ if allocates then (ok tt, emplace_metadata key value metadata) else (
      fail ErrorCode.allocation_failed Operation.validate_schema "unable to copy metadata",
      metadata,
    )
  ]
]
