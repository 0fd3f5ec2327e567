-- ===== src/Block/Columns.antt =====
-- The columns of a finished block, by the schema's fields.
use shibori_engine.Base.{
  ℕ, zero, suc, ◌≤◌, ◌<◌, ◌≡◌, refl, sym, ap, subst, ◌∙◌, arith, Bool, false, not, ltb, ◌==◌,
  ==_refl, if◌then◌else◌, some, Option-cases, List, [], ◌∷◌, get_elem?, Bool-cases, inl, inr,
}
use shibori_engine.Error.{Error, ok, err, fail_if, ◌>>=◌, ◌>>◌, >>=-eq-ok, >>-eq-ok, fail_if-passed}
use shibori_engine.Resource.Limits.{ResourceLimits, validate_resource_limits}
use shibori_engine.Column.Storage.{Column}
use shibori_engine.Schema.Field.{Field}
use shibori_engine.Schema.Unique.{IsDistinct, IsApart, apart_at}
use shibori_engine.Block.Checks.{validate_column}
use shibori_engine.Block.Builder.{
  Block, new_block, BlockBuilder, column_of_field, column_set, order_columns, check_shape,
  block_unallocated, block_result, finish_block,
}

-- The column passed the checks of the field, after some number of decoded bytes.
abbrev pub IsChecked : ResourceLimits → ℕ → Field → Column → Type 0
IsChecked limits rows field column =
    (before : ℕ) × (after : ℕ) × (validate_column limits field column rows before ≡ ok after)

-- Column by column, the columns passed the checks of the fields.
abbrev pub AreChecked : ResourceLimits → ℕ → List Field → List Column → Type 0
AreChecked limits rows [] [] = Unit
AreChecked limits rows [] (column ∷ columns) = ⊥
AreChecked limits rows (field ∷ fields) [] = ⊥
AreChecked limits rows (field ∷ fields) (column ∷ columns) =
    IsChecked limits rows field column × AreChecked limits rows fields columns

same_columns : {a b : List Column} → ok a ≡ ok b → a ≡ b
same_columns h = cc

order_columns-AreChecked :
    (limits : ResourceLimits) (rows : ℕ) (columns : List (ℕ × Column)) (fields : List Field)
    (before : ℕ) (ordered : List Column)
    → order_columns limits rows columns fields before ≡ ok ordered
    → AreChecked limits rows fields ordered
order_columns-AreChecked limits rows columns [] before ordered h =
    subst (AreChecked limits rows []) (same_columns h) tt
order_columns-AreChecked limits rows columns (field ∷ fields) before ordered h =
    elim (Option-cases (column_set columns field.id)) [
      | inl missing ↦ absurd (never (rw (missing, order_columns) at h))
      | inr (column, present) ↦
          let found = rw (present, order_columns) at h in
          let (total, checked, later) =
            >>=-eq-ok (validate_column limits field column rows before)
              (λ (total : ℕ).
                order_columns limits rows columns fields total >>= λ rest. ok (column ∷ rest))
              found in
          let (rest, ordered_rest, made) =
            >>=-eq-ok (order_columns limits rows columns fields total)
              (λ (rest : List Column). ok (column ∷ rest)) later in
          subst (AreChecked limits rows (field ∷ fields)) (same_columns made) (
            (before, total, checked),
            order_columns-AreChecked limits rows columns fields total rest ordered_rest,
          )
    ]
  where
    never : {e : Error} → err e ≡ ok ordered → ⊥
    never h = cc

-- What a finished block is.
pub record IsBlock (limits : ResourceLimits) (block : Block) : Type 0 where
  pub some_row : 0 < block.row_count
  pub bounded : block.row_count ≤ limits.maximum_block_rows
  pub checked : AreChecked limits block.row_count block.schema.fields block.columns

same_block : {a b : Block} → ok a ≡ ok b → a ≡ b
same_block h = cc

block_result-IsBlock :
    (reserves allocates : Bool) (limits : ResourceLimits) (b : BlockBuilder) (block : Block)
    → block_result reserves allocates limits b ≡ ok block
    → IsBlock limits block
      × (block.schema ≡ b.schema)
      × (block.row_count ≡ b.row_count)
      × (block.id ≡ b.id)
unfolding block_result
block_result-IsBlock reserves allocates limits b block h =
    let ((u, shaped), reserved) = >>-eq-ok (check_shape limits b) _ h in
    let ((v, room), ordering) = >>-eq-ok (fail_if (not reserves) block_unallocated) _ reserved in
    let (ordered, ordered_all, made) =
      >>=-eq-ok (order_columns limits b.row_count b.columns b.schema.fields 0)
        (λ (ordered : List Column).
          fail_if (not allocates) block_unallocated
          >> ok (new_block b.schema b.id b.row_count ordered))
        ordering in
    let (allocated, same_made) = >>-eq-ok (fail_if (not allocates) block_unallocated) _ made in
    let same = same_block same_made in
    let ((w, consistent), rows) = >>-eq-ok (validate_resource_limits limits) _ shaped in
    let ((x, filled), bounds) = >>-eq-ok (fail_if (b.row_count == 0) _) _ rows in
    let ((y, within), counts) =
      >>-eq-ok (fail_if (ltb limits.maximum_block_rows b.row_count) _) _ bounds in
    let some_rows = fail_if-passed (b.row_count == 0) _ filled in
    let few_rows = fail_if-passed (ltb limits.maximum_block_rows b.row_count) _ within in
    (
      subst (IsBlock limits) same (record {
        some_row = ground (arith, some_rows);
        bounded = ground (arith, few_rows);
        checked =
            order_columns-AreChecked limits b.row_count b.columns b.schema.fields 0 ordered
              ordered_all;
      }),
      sym (ap (λ (k : Block). k.schema) same),
      sym (ap (λ (k : Block). k.row_count) same),
      sym (ap (λ (k : Block). k.id) same),
    )

pub finish_block-result :
    (reserves allocates : Bool) (limits : ResourceLimits) (b : BlockBuilder) (block : Block)
    → (finish_block reserves allocates limits b).0 ≡ ok block
    → block_result reserves allocates limits b ≡ ok block
unfolding finish_block
finish_block-result reserves allocates limits b block h = elim (Bool-cases b.finished) [
  | inl done ↦ absurd (never (rw done at h))
  | inr fresh ↦ rw fresh at h
]
  where
    never : {e : Error} → err e ≡ ok block → ⊥
    never h = cc

pub finish_block-IsBlock :
    (reserves allocates : Bool) (limits : ResourceLimits) (b : BlockBuilder) (block : Block)
    → (finish_block reserves allocates limits b).0 ≡ ok block
    → IsBlock limits block
      × (block.schema ≡ b.schema)
      × (block.row_count ≡ b.row_count)
      × (block.id ≡ b.id)
finish_block-IsBlock reserves allocates limits b block h =
    block_result-IsBlock reserves allocates limits b block
      (finish_block-result reserves allocates limits b block h)

same_field : {a b : Field} → some a ≡ some b → a ≡ b
same_field h = cc

-- The column at the index of a field passed the field's checks, and `find_column` finds it.
pub column_of_field-IsChecked :
    (limits : ResourceLimits) (rows : ℕ) (fields : List Field) (columns : List Column) (index : ℕ)
    (field : Field)
    → IsDistinct fields
    → AreChecked limits rows fields columns
    → get_elem? fields index ≡ some field
    → (column : Column) × (get_elem? columns index ≡ some column)
      × (column_of_field fields columns field.id ≡ some column)
      × IsChecked limits rows field column
column_of_field-IsChecked limits rows [] columns index field distinct checked h = absurd (cc)
column_of_field-IsChecked limits rows (first ∷ fields) [] index field distinct checked h =
    absurd checked
column_of_field-IsChecked limits rows (first ∷ fields) (column ∷ columns) zero field distinct
      checked h =
    let same = same_field h in
    (
      column,
      refl,
      ap
            (λ (f : Field).
              if f.id == field.id then some column else column_of_field fields columns field.id)
            same
          ∙ rw (==_refl field.id) refl,
      subst (λ (f : Field). IsChecked limits rows f column) same checked.0,
    )
column_of_field-IsChecked limits rows (first ∷ fields) (column ∷ columns) (suc index) field distinct
      checked h =
    let apart = (apart_at (IsApart first) fields index field distinct.0 h).0 in
    let other : (first.id == field.id) ≡ false = ground (arith, apart) in
    let (found, at_index, selected, fits) =
      column_of_field-IsChecked limits rows fields columns index field distinct.1 checked.1 h in
    (found, at_index, rw other selected, fits)
