-- ===== src/Block/Decoded.antt =====
-- The decoded bytes that `BlockBuilder::finish` counts, against the sizes of the columns' buffers.
use shibori_engine.Base.{
  ℕ, ◌+◌, ◌-◌, ◌*◌, ◌/◌, ◌%◌, ◌^◌, ◌≤◌, ◌<◌, ◌≡◌, sym, subst, ◌∙◌, arith, false, not, ltb, ◌==◌,
  ◌!=◌, Option, none, some, Option-cases, Bool-cases, inl, inr, List, [], ◌∷◌, length, eq_of_not_!=,
  String,
}
use shibori_engine.CheckedArithmetic.{max_u64, checked_add, checked_multiply}
use shibori_engine.CheckedArithmetic.Exactness.{checked_multiply_exact}
use shibori_engine.Error.{
  Error, Operation, ok, err, fail_if, ◌>>◌, >>=-eq-ok, >>-eq-ok, fail_if-passed,
}
use shibori_engine.Resource.Limits.{ResourceLimits}
use shibori_engine.LogicalType.{LogicalType}
use shibori_engine.Column.Buffer.{ByteBuffer, byte_size}
use shibori_engine.Column.Validity.{Validity}
use shibori_engine.Column.Storage.{ColumnStorageKind, Column, is_boolean_kind}
use shibori_engine.Schema.Field.{Field}
use shibori_engine.Block.Checks.{
  add_decoded_bytes, has_other_size, bytes_of, column_width, has_value_padding, validate_fixed,
  validate_boolean, check_all_offsets, check_payload, validate_components, validate_variable,
  validate_storage,
}
use shibori_engine.Block.Builder.{offsets_of}

-- The bytes of a column that count: its validity, and the buffers of its storage kind.
abbrev pub validity_bytes : Option Validity → ℕ
validity_bytes none = 0
validity_bytes (some v) = byte_size v.bitmap

abbrev pub storage_bytes : ColumnStorageKind → Column → ℕ
storage_bytes ColumnStorageKind.fixed_width column = length (bytes_of column.values)
storage_bytes ColumnStorageKind.boolean column = length (bytes_of column.values)
storage_bytes ColumnStorageKind.variable_width column =
    8 * length (offsets_of column.offsets) + length (bytes_of column.payload)
storage_bytes (ColumnStorageKind.unlisted n) column = 0

abbrev pub decoded_bytes : Column → ℕ
decoded_bytes column = validity_bytes column.validity + storage_bytes column.storage_kind column

abbrev pub all_decoded_bytes : List Column → ℕ
all_decoded_bytes [] = 0
all_decoded_bytes (column ∷ columns) = decoded_bytes column + all_decoded_bytes columns

-- A step of the count, from a total that fits: exact, and within the limit.
abbrev pub Counts : ResourceLimits → ℕ → ℕ → ℕ → Type 0
Counts limits before amount after =
    (after ≡ before + amount) × (after ≤ limits.maximum_decoded_block_bytes)

checked_add-sum :
    (total amount : ℕ) (operation : Operation) (subject : String) (next : ℕ)
    → total ≤ max_u64
    → checked_add total amount operation subject ≡ ok next
    → (next ≡ total + amount) × (next ≤ max_u64)
unfolding checked_add
checked_add-sum total amount operation subject next small h =
    elim (Bool-cases (ltb (max_u64 - total) amount)) [
      | inl over ↦ absurd (never (rw over at h))
      | inr fits ↦
          let sum : (total + amount) % 2 ^ 64 ≡ next = same (rw fits at h) in
          (ground (arith, fits, sum, small), ground (arith, fits, sum, small))
    ]
  where
    never : {e : Error} → err e ≡ ok next → ⊥
    never h = cc

    same : {a : ℕ} → ok a ≡ ok next → a ≡ next
    same h = cc

pub add_decoded_bytes-Counts :
    (limits : ResourceLimits) (amount before after : ℕ)
    → before ≤ max_u64
    → add_decoded_bytes amount limits.maximum_decoded_block_bytes before ≡ ok after
    → Counts limits before amount after × (after ≤ max_u64)
unfolding add_decoded_bytes
add_decoded_bytes-Counts limits amount before after small h =
    let (next, added, limited) =
      >>=-eq-ok (checked_add before amount Operation.validate_block "decoded block bytes") _ h in
    let ((u, within), same) =
      >>-eq-ok (fail_if (ltb limits.maximum_decoded_block_bytes next) _) (ok next) limited in
    let bound = fail_if-passed (ltb limits.maximum_decoded_block_bytes next) _ within in
    let sum =
      checked_add-sum before amount Operation.validate_block "decoded block bytes" next small
        added in
    let last = same_number same in
    ((omega (arith, sum.0, last), ground (arith, bound, last)), omega (arith, sum.1, last))
  where
    same_number : {a b : ℕ} → ok a ≡ ok b → a ≡ b
    same_number h = cc

has_size :
    (buffer : Option ByteBuffer) (expected : ℕ)
    → has_other_size buffer expected ≡ false
    → length (bytes_of buffer) ≡ expected
has_size none expected h = absurd (cc)
has_size (some buffer) expected h = eq_of_not_!= (byte_size buffer) expected h

validate_fixed-Counts :
    (limits : ResourceLimits) (field : Field) (column : Column) (dense before after : ℕ)
    → before ≤ max_u64
    → validate_fixed limits field column dense before ≡ ok after
    → Counts limits before (length (bytes_of column.values)) after × (after ≤ max_u64)
unfolding validate_fixed
validate_fixed-Counts limits field column dense before after small h =
    let (expected, multiplied, sized) =
      >>=-eq-ok
        (checked_multiply dense (column_width column.type) Operation.validate_block
          "fixed-width column bytes")
        _ h in
    let ((u, fits), added) = >>-eq-ok (fail_if (has_other_size column.values expected) _) _ sized in
    let size =
      has_size column.values expected
        (fail_if-passed (has_other_size column.values expected) _ fits) in
    subst (λ (n : ℕ). Counts limits before n after × (after ≤ max_u64)) (sym size)
      (add_decoded_bytes-Counts limits expected before after small added)

validate_boolean-Counts :
    (limits : ResourceLimits) (field : Field) (column : Column) (dense before after : ℕ)
    → before ≤ max_u64
    → validate_boolean limits field column dense before ≡ ok after
    → Counts limits before (length (bytes_of column.values)) after × (after ≤ max_u64)
unfolding validate_boolean
validate_boolean-Counts limits field column dense before after small h =
    let (checked, added) =
      >>-eq-ok
        (fail_if (ltb (max_u64 - 7) dense) _
          >> fail_if (has_other_size column.values ((dense + 7) / 8)) _
          >> fail_if (has_value_padding dense (bytes_of column.values)) _)
        _ h in
    let ((v, sized), padded) =
      >>-eq-ok
        (fail_if (ltb (max_u64 - 7) dense) _
          >> fail_if (has_other_size column.values ((dense + 7) / 8)) _)
        _ checked.1 in
    let (few, fits) =
      >>-eq-ok (fail_if (ltb (max_u64 - 7) dense) _)
        (fail_if (has_other_size column.values ((dense + 7) / 8)) _) sized in
    let size =
      has_size column.values ((dense + 7) / 8)
        (fail_if-passed (has_other_size column.values ((dense + 7) / 8)) _ fits) in
    subst (λ (n : ℕ). Counts limits before n after × (after ≤ max_u64)) (sym size)
      (add_decoded_bytes-Counts limits ((dense + 7) / 8) before after small added)

validate_components-Counts :
    (limits : ResourceLimits) (field : Field) (type : LogicalType) (dense before : ℕ)
    (offsets payload : List ℕ) (after : ℕ)
    → before ≤ max_u64
    → dense < max_u64
    → validate_components limits field type dense before offsets payload ≡ ok after
    → Counts limits before (8 * length offsets + length payload) after × (after ≤ max_u64)
validate_components-Counts limits field type dense before offsets payload after small few h =
    let ((u, counted), rest) = >>-eq-ok (fail_if (length offsets != dense + 1) _) _ h in
    let ((v, rising), sized) =
      >>-eq-ok (check_all_offsets limits field offsets (length payload)) _ rest in
    let (bytes, multiplied, added) =
      >>=-eq-ok (checked_multiply (dense + 1) 8 Operation.validate_block "variable offset bytes") _
        sized in
    let (with_offsets, first_added, second) =
      >>=-eq-ok (add_decoded_bytes bytes limits.maximum_decoded_block_bytes before) _ added in
    let (with_payload, second_added, checked) =
      >>=-eq-ok (add_decoded_bytes (length payload) limits.maximum_decoded_block_bytes with_offsets)
        _ second in
    let (strings, same) =
      >>-eq-ok (check_payload field type payload offsets) (ok with_payload) checked in
    let count = eq_of_not_!= _ _ (fail_if-passed (length offsets != dense + 1) _ counted) in
    let first = add_decoded_bytes-Counts limits bytes before with_offsets small first_added in
    let then_payload =
      add_decoded_bytes-Counts limits (length payload) with_offsets with_payload first.1
        second_added in
    let product = eight_each bytes multiplied in
    let last = same_number same in
    (
      (
        omega (arith, count, product, first.0.0, then_payload.0.0, last),
        omega (arith, then_payload.0.1, last),
      ),
      omega (arith, then_payload.1, last),
    )
  where
    same_number : {a b : ℕ} → ok a ≡ ok b → a ≡ b
    same_number h = cc

    never : {e : Error} {n : ℕ} → err e ≡ ok n → ⊥
    never h = cc

    eight_each :
        (bytes : ℕ)
        → checked_multiply (dense + 1) 8 Operation.validate_block "variable offset bytes" ≡ ok bytes
        → bytes ≡ (dense + 1) * 8
    eight_each bytes h =
        let exact =
          sym (
            checked_multiply_exact (dense + 1) 8 Operation.validate_block "variable offset bytes"
              (omega arith) (omega arith))
          ∙ h in
        elim (Bool-cases (ltb ((dense + 1) * 8) (2 ^ 64))) [
          | inl fits ↦ sym (same_number (rw fits at exact))
          | inr over ↦ absurd (never (rw over at exact))
        ]

validate_variable-Counts :
    (limits : ResourceLimits) (field : Field) (column : Column) (dense before after : ℕ)
    → before ≤ max_u64
    → dense ≤ max_u64
    → validate_variable limits field column dense before ≡ ok after
    → Counts limits before (storage_bytes ColumnStorageKind.variable_width column) after
      × (after ≤ max_u64)
unfolding validate_variable
validate_variable-Counts limits field column dense before after small dense_small h =
    elim (Bool-cases (dense == max_u64)) [
      | inl most ↦ absurd (never (rw most at h))
      | inr fewer ↦ elim (Option-cases column.offsets) [
        | inl missing ↦ absurd (never (rw (fewer, missing) at h))
        | inr (offsets, has_offsets) ↦ elim (Option-cases column.payload) [
          | inl missing ↦ absurd (never (rw (fewer, has_offsets, missing) at h))
          | inr (payload, has_payload) ↦
              rw (has_offsets, has_payload)
                (validate_components-Counts limits field column.type dense before offsets.values
                  payload.bytes after small (ground (arith, fewer, dense_small))
                  (rw (fewer, has_offsets, has_payload) at h))
        ]
      ]
    ]
  where
    never : {e : Error} → err e ≡ ok after → ⊥
    never h = cc

pub validate_storage-Counts :
    (kind : ColumnStorageKind) (limits : ResourceLimits) (field : Field) (column : Column)
    (dense before after : ℕ)
    → before ≤ max_u64
    → dense ≤ max_u64
    → validate_storage kind limits field column dense before ≡ ok after
    → Counts limits before (storage_bytes kind column) after × (after ≤ max_u64)
validate_storage-Counts ColumnStorageKind.fixed_width limits field column dense before after small
      dense_small h =
    validate_fixed-Counts limits field column dense before after small h
validate_storage-Counts ColumnStorageKind.boolean limits field column dense before after small
      dense_small h =
    let (kind, checked) = >>-eq-ok (fail_if (not (is_boolean_kind field.type.kind)) _) _ h in
    validate_boolean-Counts limits field column dense before after small checked
validate_storage-Counts ColumnStorageKind.variable_width limits field column dense before after
      small dense_small h =
    validate_variable-Counts limits field column dense before after small dense_small h
validate_storage-Counts (ColumnStorageKind.unlisted n) limits field column dense before after small
      dense_small h =
    absurd (cc)
