-- ===== src/Block/Variable.antt =====
-- What `validate_column` has checked of a variable-width column.
use shibori_engine.Base.{
  ℕ, ◌+◌, ◌≤◌, ◌<◌, ◌≡◌, ap, subst, arith, ◌==◌, ◌!=◌, some, Option-cases, Bool-cases, inl, inr,
  List, [], ◌∷◌, length, eq_of_not_!=,
}
use shibori_engine.CheckedArithmetic.{max_u64, checked_multiply}
use shibori_engine.Error.{
  Error, Operation, ok, err, fail_if, ◌>>=◌, ◌>>◌, >>=-eq-ok, >>-eq-ok, fail_if-passed,
}
use shibori_engine.Resource.Limits.{ResourceLimits}
use shibori_engine.LogicalType.{LogicalType}
use shibori_engine.Column.Buffer.{ByteBuffer, OffsetBuffer}
use shibori_engine.Column.Storage.{Column}
use shibori_engine.Schema.Field.{Field}
use shibori_engine.Block.Checks.{
  check_offsets, last_offset, check_all_offsets, check_payload, validate_components,
  validate_variable, add_decoded_bytes,
}
use shibori_engine.Block.Offsets.{Rises, check_offsets-Rises}

-- Offsets from 0 to the size of the payload, one more of them than values.
pub record IsVariable (limits : ResourceLimits) (field : Field) (column : Column) (dense_count : ℕ)
    : Type 0 where
  pub offsets : OffsetBuffer
  pub payload : ByteBuffer
  pub later : List ℕ
  pub has_offsets : column.offsets ≡ some offsets
  pub has_payload : column.payload ≡ some payload
  pub from_zero : offsets.values ≡ 0 ∷ later
  pub count : length later ≡ dense_count
  pub few : dense_count < max_u64
  pub rises : Rises limits.maximum_record_bytes 0 later (length payload.bytes)
  pub strings : check_payload field column.type payload.bytes offsets.values ≡ ok tt

check_all_offsets-Rises :
    (limits : ResourceLimits) (field : Field) (offsets : List ℕ) (size : ℕ) {u : Unit {0}}
    → check_all_offsets limits field offsets size ≡ ok u
    → (later : List ℕ) × (offsets ≡ 0 ∷ later) × Rises limits.maximum_record_bytes 0 later size
check_all_offsets-Rises limits field [] size h = absurd (never h)
  where
    never : {e : Error} {u : Unit {0}} → err e ≡ ok u → ⊥
    never h = cc
check_all_offsets-Rises limits field (first ∷ offsets) size h =
    let ((u, starting), rest) = >>-eq-ok (fail_if (first != 0) _) _ h in
    let ((v, rising), ending) = >>-eq-ok (check_offsets limits field first offsets) _ rest in
    let zero_first = eq_of_not_!= first 0 (fail_if-passed (first != 0) _ starting) in
    let last =
      eq_of_not_!= (last_offset first offsets) size
        (fail_if-passed (last_offset first offsets != size) _ ending) in
    let rises =
      subst (Rises limits.maximum_record_bytes first offsets) last
        (check_offsets-Rises limits field first offsets rising) in
    (
      offsets,
      ap (λ (o : ℕ). o ∷ offsets) zero_first,
      subst (λ (o : ℕ). Rises limits.maximum_record_bytes o offsets size) zero_first rises,
    )

validate_components-parts :
    (limits : ResourceLimits) (field : Field) (type : LogicalType) (dense before : ℕ)
    (offsets payload : List ℕ) (after : ℕ)
    → validate_components limits field type dense before offsets payload ≡ ok after
    → (length offsets ≡ dense + 1)
      × (check_all_offsets limits field offsets (length payload) ≡ ok tt)
      × (check_payload field type payload offsets ≡ ok tt)
validate_components-parts limits field type dense before offsets payload after h =
    let ((u, counted), rest) = >>-eq-ok (fail_if (length offsets != dense + 1) _) _ h in
    let ((v, rising), sized) =
      >>-eq-ok (check_all_offsets limits field offsets (length payload)) _ rest in
    let (bytes, multiplied, added) =
      >>=-eq-ok (checked_multiply (dense + 1) 8 Operation.validate_block "variable offset bytes")
        (λ (offset_bytes : ℕ).
          add_decoded_bytes offset_bytes limits.maximum_decoded_block_bytes before
          >>= λ with_offsets.
              add_decoded_bytes (length payload) limits.maximum_decoded_block_bytes with_offsets
              >>= λ with_payload. check_payload field type payload offsets >> ok with_payload)
        sized in
    let (with_offsets, first_added, second) =
      >>=-eq-ok (add_decoded_bytes bytes limits.maximum_decoded_block_bytes before)
        (λ (with_offsets : ℕ).
          add_decoded_bytes (length payload) limits.maximum_decoded_block_bytes with_offsets
          >>= λ with_payload. check_payload field type payload offsets >> ok with_payload)
        added in
    let (with_payload, second_added, checked) =
      >>=-eq-ok (add_decoded_bytes (length payload) limits.maximum_decoded_block_bytes with_offsets)
        (λ (with_payload : ℕ). check_payload field type payload offsets >> ok with_payload)
        second in
    let ((w, strings), done) =
      >>-eq-ok (check_payload field type payload offsets) (ok with_payload) checked in
    (eq_of_not_!= _ _ (fail_if-passed (length offsets != dense + 1) _ counted), rising, strings)

pub validate_variable-IsVariable :
    (limits : ResourceLimits) (field : Field) (column : Column) (dense before after : ℕ)
    → dense ≤ max_u64
    → validate_variable limits field column dense before ≡ ok after
    → IsVariable limits field column dense
unfolding validate_variable
validate_variable-IsVariable limits field column dense before after small h =
    elim (Bool-cases (dense == max_u64)) [
      | inl most ↦ absurd (never (rw most at h))
      | inr fewer ↦ elim (Option-cases column.offsets) [
        | inl missing ↦ absurd (never (rw (fewer, missing) at h))
        | inr (offsets, has_offsets) ↦ elim (Option-cases column.payload) [
          | inl missing ↦ absurd (never (rw (fewer, has_offsets, missing) at h))
          | inr (payload, has_payload) ↦
              let (size, rising, strings) =
                validate_components-parts limits field column.type dense before offsets.values
                  payload.bytes after (rw (fewer, has_offsets, has_payload) at h) in
              let (later, from_zero, rises) =
                check_all_offsets-Rises limits field offsets.values (length payload.bytes) rising in
              record {
                offsets = offsets;
                payload = payload;
                later = later;
                has_offsets = has_offsets;
                has_payload = has_payload;
                from_zero = from_zero;
                count = omega (arith, size, ap (length {A = ℕ}) from_zero);
                few = ground (arith, fewer);
                rises = rises;
                strings = strings;
              }
        ]
      ]
    ]
  where
    never : {e : Error} → err e ≡ ok after → ⊥
    never h = cc
