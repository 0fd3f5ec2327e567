-- ===== src/Block/Reading.antt =====
-- What a finished block gives its readers.
use shibori_engine.Base.{
  ℕ, ◌-◌, ◌^◌, ◌≤◌, ◌<◌, ◌≡◌, sym, ap, subst, ◌∙◌, arith, Bool, true, false, not, ◌&&◌, ◌⊎◌, some,
  List, length, get_elem?,
}
use shibori_engine.CheckedArithmetic.{max_u64}
use shibori_engine.Error.{ok}
use shibori_engine.Resource.Limits.{ResourceLimits}
use shibori_engine.Utf8.{valid_utf8}
use shibori_engine.Column.Buffer.{ByteBuffer}
use shibori_engine.Column.Storage.{ColumnStorageKind, Column, null_count, is_set}
use shibori_engine.Schema.Field.{Field}
use shibori_engine.Schema.Unique.{IsDistinct}
use shibori_engine.Block.Checks.{is_strict, column_width, validate_storage}
use shibori_engine.Block.Builder.{Block, BlockBuilder, find_column, variable_value, finish_block}
use shibori_engine.Block.Columns.{finish_block-IsBlock, column_of_field-IsChecked}
use shibori_engine.Block.Sizes.{IsDense, validate_storage-IsDense}
use shibori_engine.Block.Variable.{IsVariable, validate_variable-IsVariable}
use shibori_engine.Block.Values.{
  IsColumnOf, IsChecked-IsColumnOf, read_values, read_values-all, variable_value-found,
  value_of_column-slice, value_of_column-bounds,
}

module _ (reserves allocates : Bool) (limits : ResourceLimits) (b : BlockBuilder) (block : Block)
    (finished : (finish_block reserves allocates limits b).0 ≡ ok block)
    (distinct : IsDistinct b.schema.fields) (index : ℕ) (field : Field)
    (at_index : get_elem? block.schema.fields index ≡ some field) where
  selected :
      (column : Column) × (get_elem? block.columns index ≡ some column)
      × (find_column block field.id ≡ some column)
      × IsColumnOf limits block.row_count field column
  selected =
      let (shape, schema, rows, id) =
        finish_block-IsBlock reserves allocates limits b block finished in
      let (column, placed, found, checked) =
        column_of_field-IsChecked limits block.row_count block.schema.fields block.columns index
          field (subst (λ s. IsDistinct s) (sym (ap (λ s. s.fields) schema)) distinct) shape.checked
          at_index in
      (column, placed, found, IsChecked-IsColumnOf limits block.row_count field column checked)

  -- Whenever `BlockBuilder::finish` succeeds on a schema of distinct fields, the block has a column at
  -- each field's index, `find_column` of the field's ID returns it, it has the block's row count and the
  -- field's type, no more nulls than rows, and a validity only where the field is nullable.
  pub finish_block-find_column :
      (column : Column) × (get_elem? block.columns index ≡ some column)
      × (find_column block field.id ≡ some column)
      × (column.row_count ≡ block.row_count)
      × (column.type ≡ field.type)
      × (null_count column.validity ≤ block.row_count)
      × ((not field.nullable && is_set column.validity) ≡ false)
  finish_block-find_column =
      let (column, placed, found, fits) = selected in
      (column, placed, found, fits.of_rows, fits.of_type, fits.nulls, fits.no_nulls)

  -- Whenever `BlockBuilder::finish` succeeds on a schema of distinct fields, with at most 2^64 - 1 rows,
  -- the column at a field's index, of a type of fewer than 2^32 bytes, has as many values as rows that
  -- are not null: of fixed width, their bytes; Boolean, the fewest bytes with a bit for each and no other
  -- bit set; of variable width, one offset more. Its storage kind is one of these three.
  pub finish_block-IsDense :
      (column : Column)
      → get_elem? block.columns index ≡ some column
      → b.row_count ≤ max_u64
      → column_width column.type < 2 ^ 32
      → IsDense column.storage_kind column (block.row_count - null_count column.validity)
  finish_block-IsDense column placed few small =
      let (c, at_place, found, fits) = selected in
      let same = same_column (sym at_place ∙ placed) in
      let shape = finish_block-IsBlock reserves allocates limits b block finished in
      subst (λ (d : Column). IsDense d.storage_kind d (block.row_count - null_count d.validity))
        same
        (validate_storage-IsDense c.storage_kind limits field c
          (block.row_count - null_count c.validity) fits.before fits.after (omega (arith, shape.2))
          (subst (λ (d : Column). column_width d.type < 2 ^ 32) (sym same) small) fits.storage)
    where
      same_column : {x y : Column} → some x ≡ some y → x ≡ y
      same_column h = cc

  module _ (column : Column) (placed : get_elem? block.columns index ≡ some column)
      (stored : column.storage_kind ≡ ColumnStorageKind.variable_width)
      (small : b.row_count ≤ max_u64) where
    parts :
        (find_column block field.id ≡ some column)
        × IsVariable limits field column (block.row_count - null_count column.validity)
    parts =
        let (c, at_place, found, fits) = selected in
        let same = same_column (sym at_place ∙ placed) in
        let shape = finish_block-IsBlock reserves allocates limits b block finished in
        let kind = ap (λ (d : Column). d.storage_kind) same ∙ stored in
        let dense = block.row_count - null_count c.validity in
        let variable =
          validate_variable-IsVariable limits field c dense fits.before fits.after
            (omega (arith, shape.2))
            (subst (λ k. validate_storage k limits field c dense fits.before ≡ ok fits.after) kind
              fits.storage) in
        (
          found ∙ ap (λ (d : Column). some d) same,
          subst
              (λ (d : Column). IsVariable limits field d (block.row_count - null_count d.validity))
              same variable,
        )
      where
        same_column : {x y : Column} → some x ≡ some y → x ≡ y
        same_column h = cc

    -- Whenever `BlockBuilder::finish` succeeds on a schema of distinct fields, with at most 2^64 - 1 rows,
    -- and the column at a field's index is of variable width, reading `variable_value` of the field's ID
    -- for each row that is not null succeeds, and the values one after the other are the payload.
    pub finish_block-read_values :
        (payload : ByteBuffer) × (column.payload ≡ some payload)
        × (read_values block field.id (block.row_count - null_count column.validity)
            ≡ ok payload.bytes)
    finish_block-read_values =
        let (found, fits) = parts in
        (
          fits.payload,
          fits.has_payload,
          read_values-all limits field column (block.row_count - null_count column.validity) stored
              fits block field.id found,
        )

    -- Whenever `BlockBuilder::finish` succeeds on a schema of distinct fields, with at most 2^64 - 1 rows,
    -- and the column at a field's index is of variable width, `variable_value` of the field's ID succeeds
    -- for each index below the number of rows that are not null, with a value of at most
    -- `maximum_record_bytes`, which is valid UTF-8 where the column's type is strict strings.
    pub finish_block-variable_value :
        (n : ℕ)
        → n < block.row_count - null_count column.validity
        → (value : List ℕ) × (variable_value block field.id n ≡ ok value)
          × (length value ≤ limits.maximum_record_bytes)
          × ((is_strict column.type.kind column.type.parameters ≡ false)
              ⊎ (valid_utf8 value ≡ true))
    finish_block-variable_value n below =
        let (found, fits) = parts in
        let dense = block.row_count - null_count column.validity in
        let read = value_of_column-slice limits field column dense stored fits n below in
        let (bounded, strings) =
          value_of_column-bounds limits field column dense stored fits n _ below read in
        (
          _,
          variable_value-found limits field column dense stored fits block field.id n found ∙ read,
          bounded,
          strings,
        )
