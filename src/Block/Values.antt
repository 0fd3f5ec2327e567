-- ===== src/Block/Values.antt =====
-- The values of a variable-width column in a finished block, as `variable_value` reads them.
use shibori_engine.Base.{
  not-false, ℕ, zero, suc, ◌+◌, ◌-◌, ◌≤◌, ◌<◌, ◌≡◌, refl, sym, ap, subst, ◌∙◌, arith, Bool, true,
  false, not, ◌&&◌, ltb, leb, ◌!=◌, if◌then◌else◌, some, List, [], ◌∷◌, ◌++◌, length, take,
  take-all, byte_at, eq_of_not_!=, Bool-cases, ◌⊎◌, inl, inr,
}
use shibori_engine.CheckedArithmetic.{wrapping_subtract}
use shibori_engine.Error.{Result, ok, err, fail_if, ◌>>=◌, >>=-eq-ok, >>-eq-ok, fail_if-passed}
use shibori_engine.Resource.Limits.{ResourceLimits}
use shibori_engine.Utf8.{valid_utf8}
use shibori_engine.LogicalType.Equality.{same_type}
use shibori_engine.LogicalType.Equality.Sameness.{same_type_eq}
use shibori_engine.Column.Storage.{ColumnStorageKind, Column, null_count, is_set}
use shibori_engine.Schema.Field.{Field}
use shibori_engine.Block.Checks.{
  check_column, count_validity, validate_storage, validate_column, subspan, is_strict,
  check_strings, check_payload,
}
use shibori_engine.Block.Builder.{
  Block, outside_column, find_column, value_of_column, variable_value,
}
use shibori_engine.Block.Columns.{IsChecked}
use shibori_engine.Block.Offsets.{
  Rises-at, Rises-last, take-subspan, length-subspan, check_strings-valid,
}
use shibori_engine.Block.Variable.{IsVariable}

-- What every checked column shares: the rows and the type, a null count in range, and its storage checked
-- for the values that are not null.
pub record IsColumnOf (limits : ResourceLimits) (rows : ℕ) (field : Field) (column : Column)
    : Type 0 where
  pub of_rows : column.row_count ≡ rows
  pub of_type : column.type ≡ field.type
  pub nulls : null_count column.validity ≤ rows
  pub no_nulls : (not field.nullable && is_set column.validity) ≡ false
  pub before : ℕ
  pub after : ℕ
  pub storage :
      validate_storage column.storage_kind limits field column
        (rows - null_count column.validity)
        before
      ≡ ok after

pub IsChecked-IsColumnOf :
    (limits : ResourceLimits) (rows : ℕ) (field : Field) (column : Column)
    → IsChecked limits rows field column
    → IsColumnOf limits rows field column
unfolding validate_column
IsChecked-IsColumnOf limits rows field column (before, after, h) =
    let ((u, shared), counted) = >>-eq-ok (check_column field column rows) _ h in
    let (with_validity, validity, stored) =
      >>=-eq-ok (count_validity limits column.validity before)
        (λ (with_validity : ℕ).
          validate_storage column.storage_kind limits field column
            (rows - null_count column.validity) with_validity)
        counted in
    let ((v, sized), typed) = >>-eq-ok (fail_if (column.row_count != rows) _) _ shared in
    let ((w, same), nullability) =
      >>-eq-ok (fail_if (not (same_type column.type field.type)) _) _ typed in
    let ((x, without), few) =
      >>-eq-ok (fail_if (not field.nullable && is_set column.validity) _) _ nullability in
    let few_nulls = fail_if-passed (ltb rows (null_count column.validity)) _ few in
    record {
      of_rows = eq_of_not_!= _ _ (fail_if-passed (column.row_count != rows) _ sized);
      of_type =
          same_type_eq column.type field.type
            (not-false _ (fail_if-passed (not (same_type column.type field.type)) _ same));
      nulls = ground (arith, few_nulls);
      no_nulls = fail_if-passed (not field.nullable && is_set column.validity) _ without;
      before = with_validity;
      after = after;
      storage = stored;
    }

-- `variable_value` for each index below a bound, one value after the other.
abbrev pub read_values : Block → ℕ → ℕ → Result (List ℕ)
read_values block field_id zero = ok []
read_values block field_id (suc n) = read_values block field_id n >>= λ before.
    variable_value block field_id n >>= λ value. ok (before ++ value)

module _ (limits : ResourceLimits) (field : Field) (column : Column) (dense : ℕ)
    (stored : column.storage_kind ≡ ColumnStorageKind.variable_width)
    (fits : IsVariable limits field column dense) where
  pub value_of_column-slice :
      (n : ℕ)
      → n < dense
      → value_of_column column n
        ≡ ok (subspan fits.payload.bytes (byte_at (0 ∷ fits.later) n) (byte_at fits.later n))
  value_of_column-slice n below =
      let inside : leb (wrapping_subtract (length (0 ∷ fits.later)) 1) n ≡ false =
        ground (arith, fits.count, below) in
      let one : n + 1 ≡ suc n = omega arith in
      let next : byte_at (0 ∷ fits.later) (n + 1) ≡ byte_at fits.later n =
        ap (λ (k : ℕ). byte_at (0 ∷ fits.later) k) one in
      rw (fits.has_offsets, fits.has_payload, stored, fits.from_zero)
        (selected (leb (wrapping_subtract (length (0 ∷ fits.later)) 1) n) _ inside
          ∙ ap (λ (end : ℕ). ok (subspan fits.payload.bytes (byte_at (0 ∷ fits.later) n) end)) next)
    where
      selected :
          (test : Bool) (value : Result (List ℕ))
          → test ≡ false
          → (if test then err outside_column else value) ≡ value
      selected true value h = absurd (cc)
      selected false value h = refl

  pub variable_value-found :
      (block : Block) (field_id n : ℕ)
      → find_column block field_id ≡ some column
      → variable_value block field_id n ≡ value_of_column column n
  unfolding variable_value
  variable_value-found block field_id n found = rw (found, variable_value) refl

  -- The values before one are the payload up to its begin.
  pub read_values-take :
      (block : Block) (field_id n : ℕ)
      → find_column block field_id ≡ some column
      → n ≤ dense
      → read_values block field_id n ≡ ok (take (byte_at (0 ∷ fits.later) n) fits.payload.bytes)
  read_values-take block field_id zero found below = refl
  read_values-take block field_id (suc n) found below =
      let rising =
        Rises-at limits.maximum_record_bytes 0 fits.later (length fits.payload.bytes) n fits.rises
          (omega (arith, fits.count)) in
      rw
        (
          read_values-take block field_id n found (omega arith),
          variable_value-found block field_id n found,
          value_of_column-slice n (omega arith),
        )
        (ap (λ (bytes : List ℕ). ok bytes)
          (take-subspan fits.payload.bytes (byte_at (0 ∷ fits.later) n) (byte_at fits.later n)
            rising.0))

  pub read_values-all :
      (block : Block) (field_id : ℕ)
      → find_column block field_id ≡ some column
      → read_values block field_id dense ≡ ok fits.payload.bytes
  read_values-all block field_id found =
      let last : byte_at (0 ∷ fits.later) dense ≡ length fits.payload.bytes =
        ap (byte_at (0 ∷ fits.later)) (sym fits.count)
        ∙ Rises-last limits.maximum_record_bytes 0 fits.later (length fits.payload.bytes)
            fits.rises in
      read_values-take block field_id dense found (omega arith)
      ∙ ap (λ (n : ℕ). ok (take n fits.payload.bytes)) last
      ∙ ap (λ (bytes : List ℕ). ok bytes)
          (take-all (length fits.payload.bytes) fits.payload.bytes (omega arith))

  strict_strings :
      (first : ℕ) (offsets : List ℕ)
      → is_strict column.type.kind column.type.parameters ≡ true
      → check_payload field column.type fits.payload.bytes (first ∷ offsets) ≡ ok tt
      → check_strings field fits.payload.bytes first offsets ≡ ok tt
  strict_strings first offsets strict h = rw (strict, check_payload) at h

  -- One value: it is of the record limit, and valid UTF-8 in a strict string column.
  pub value_of_column-bounds :
      (n : ℕ) (value : List ℕ)
      → n < dense
      → value_of_column column n ≡ ok value
      → (length value ≤ limits.maximum_record_bytes)
        × ((is_strict column.type.kind column.type.parameters ≡ false) ⊎ (valid_utf8 value ≡ true))
  value_of_column-bounds n value below h =
      let rising =
        Rises-at limits.maximum_record_bytes 0 fits.later (length fits.payload.bytes) n fits.rises
          (omega (arith, fits.count)) in
      let same = same_value (sym (value_of_column-slice n below) ∙ h) in
      let size =
        length-subspan fits.payload.bytes (byte_at (0 ∷ fits.later) n) (byte_at fits.later n)
          rising.2 in
      (
        omega (arith, ap (length {A = ℕ}) same, size, rising.1),
        valid (Bool-cases (is_strict column.type.kind column.type.parameters)) same,
      )
    where
      same_value : {a b : List ℕ} → ok a ≡ ok b → a ≡ b
      same_value h = cc

      valid :
          (is_strict column.type.kind column.type.parameters ≡ true)
            ⊎ (is_strict column.type.kind column.type.parameters ≡ false)
          → subspan fits.payload.bytes (byte_at (0 ∷ fits.later) n) (byte_at fits.later n) ≡ value
          → (is_strict column.type.kind column.type.parameters ≡ false) ⊎ (valid_utf8 value ≡ true)
      valid (inr lax) same = inl lax
      valid (inl strict) same =
          let checked = strict_strings 0 fits.later strict (
            subst (λ (os : List ℕ). check_payload field column.type fits.payload.bytes os ≡ ok tt)
              fits.from_zero fits.strings) in
          inr (
            ap valid_utf8 (sym same)
            ∙ check_strings-valid field fits.payload.bytes 0 fits.later n checked
                (omega (arith, fits.count)))
