-- ===== src/Block/Limit.antt =====
-- The limit on the decoded bytes of a block.
use shibori_engine.Base.{
  ℕ, ◌+◌, ◌-◌, ◌≤◌, ◌≡◌, subst, arith, Bool, not, Option, none, some, Option-cases, inl, inr, List,
  [], ◌∷◌,
}
use shibori_engine.CheckedArithmetic.{max_u64}
use shibori_engine.Error.{Error, ok, err, fail_if, ◌>>=◌, ◌>>◌, >>=-eq-ok, >>-eq-ok}
use shibori_engine.Resource.Limits.{ResourceLimits}
use shibori_engine.Column.Buffer.{byte_size}
use shibori_engine.Column.Validity.{Validity}
use shibori_engine.Column.Storage.{Column, null_count}
use shibori_engine.Schema.Field.{Field}
use shibori_engine.Block.Checks.{check_column, count_validity, validate_storage, validate_column}
use shibori_engine.Block.Builder.{
  Block, new_block, BlockBuilder, column_set, order_columns, check_shape, block_unallocated,
  block_result, finish_block,
}
use shibori_engine.Block.Columns.{finish_block-result}
use shibori_engine.Block.Decoded.{
  validity_bytes, decoded_bytes, all_decoded_bytes, add_decoded_bytes-Counts,
  validate_storage-Counts,
}

-- A total that is within the limit and 64 bits.
abbrev IsWithin : ResourceLimits → ℕ → Type 0
IsWithin limits total = (total ≤ limits.maximum_decoded_block_bytes) × (total ≤ max_u64)

count_validity-IsWithin :
    (limits : ResourceLimits) (v : Option Validity) (before after : ℕ)
    → IsWithin limits before
    → count_validity limits v before ≡ ok after
    → (after ≡ before + validity_bytes v) × IsWithin limits after
count_validity-IsWithin limits none before after within h =
    let same = same_number h in
    (omega (arith, same), (omega (arith, same, within.0), omega (arith, same, within.1)))
  where
    same_number : {a b : ℕ} → ok a ≡ ok b → a ≡ b
    same_number h = cc
count_validity-IsWithin limits (some v) before after within h =
    let (counts, small) =
      add_decoded_bytes-Counts limits (byte_size v.bitmap) before after within.1 h in
    (counts.0, (counts.1, small))

validate_column-IsWithin :
    (limits : ResourceLimits) (field : Field) (column : Column) (rows before after : ℕ)
    → rows ≤ max_u64
    → IsWithin limits before
    → validate_column limits field column rows before ≡ ok after
    → (after ≡ before + decoded_bytes column) × IsWithin limits after
unfolding validate_column
validate_column-IsWithin limits field column rows before after few within h =
    let (shared, counted) = >>-eq-ok (check_column field column rows) _ h in
    let (middle, validity, stored) =
      >>=-eq-ok (count_validity limits column.validity before)
        (λ (with_validity : ℕ).
          validate_storage column.storage_kind limits field column
            (rows - null_count column.validity) with_validity)
        counted in
    let first = count_validity-IsWithin limits column.validity before middle within validity in
    let (counts, small) =
      validate_storage-Counts column.storage_kind limits field column
        (rows - null_count column.validity) middle after first.1.1 (omega arith) stored in
    (omega (arith, first.0, counts.0), (counts.1, small))

order_columns-IsWithin :
    (limits : ResourceLimits) (rows : ℕ) (columns : List (ℕ × Column)) (fields : List Field)
    (before : ℕ) (ordered : List Column)
    → rows ≤ max_u64
    → IsWithin limits before
    → order_columns limits rows columns fields before ≡ ok ordered
    → before + all_decoded_bytes ordered ≤ limits.maximum_decoded_block_bytes
order_columns-IsWithin limits rows columns [] before ordered few within h =
    subst (λ cs. before + all_decoded_bytes cs ≤ limits.maximum_decoded_block_bytes)
      (same_columns h) (omega (arith, within.0))
  where
    same_columns : {a b : List Column} → ok a ≡ ok b → a ≡ b
    same_columns h = cc
order_columns-IsWithin limits rows columns (field ∷ fields) before ordered few within h =
    elim (Option-cases (column_set columns field.id)) [
      | inl missing ↦ absurd (never (rw (missing, order_columns) at h))
      | inr (column, present) ↦
          let found = rw (present, order_columns) at h in
          let (total, checked, later) =
            >>=-eq-ok (validate_column limits field column rows before)
              (λ (total : ℕ).
                order_columns limits rows columns fields total >>= λ rest. ok (column ∷ rest))
              found in
          let (rest, ordered_rest, made) =
            >>=-eq-ok (order_columns limits rows columns fields total)
              (λ (rest : List Column). ok (column ∷ rest)) later in
          let here =
            validate_column-IsWithin limits field column rows before total few within checked in
          let bound =
            order_columns-IsWithin limits rows columns fields total rest few here.1 ordered_rest in
          subst (λ cs. before + all_decoded_bytes cs ≤ limits.maximum_decoded_block_bytes)
            (same_columns made) (omega (arith, bound, here.0))
    ]
  where
    never : {e : Error} → err e ≡ ok ordered → ⊥
    never h = cc

    same_columns : {a b : List Column} → ok a ≡ ok b → a ≡ b
    same_columns h = cc

-- Whenever `BlockBuilder::finish` succeeds with at most 2^64 - 1 rows, the bytes of the columns'
-- validity bitmaps, values, offsets (of 8 bytes each) and payloads are together at most
-- `maximum_decoded_block_bytes`.
pub finish_block-decoded_bytes :
    (reserves allocates : Bool) (limits : ResourceLimits) (b : BlockBuilder) (block : Block)
    → b.row_count ≤ max_u64
    → (finish_block reserves allocates limits b).0 ≡ ok block
    → all_decoded_bytes block.columns ≤ limits.maximum_decoded_block_bytes
unfolding block_result
finish_block-decoded_bytes reserves allocates limits b block few h =
    let result = finish_block-result reserves allocates limits b block h in
    let (shaped, reserved) = >>-eq-ok (check_shape limits b) _ result in
    let (room, ordering) = >>-eq-ok (fail_if (not reserves) block_unallocated) _ reserved in
    let (ordered, ordered_all, made) =
      >>=-eq-ok (order_columns limits b.row_count b.columns b.schema.fields 0)
        (λ (ordered : List Column).
          fail_if (not allocates) block_unallocated
          >> ok (new_block b.schema b.id b.row_count ordered))
        ordering in
    let (allocated, same_made) = >>-eq-ok (fail_if (not allocates) block_unallocated) _ made in
    let bound =
      order_columns-IsWithin limits b.row_count b.columns b.schema.fields 0 ordered few
        (omega arith, omega arith) ordered_all in
    subst (λ (k : Block). all_decoded_bytes k.columns ≤ limits.maximum_decoded_block_bytes)
      (same_block same_made) (omega (arith, bound))
  where
    same_block : {x y : Block} → ok x ≡ ok y → x ≡ y
    same_block h = cc
