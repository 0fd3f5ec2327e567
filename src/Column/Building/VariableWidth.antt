-- ===== src/Column/Building/VariableWidth.antt =====
-- src/column.cpp: `VariableWidthColumnBuilder` is a column builder.
use shibori_engine.Base.{
  not-false, ◌≡◌, refl, sym, ap, arith, subst, Bool, true, not, ◌||◌, Option, some, either_false,
}
use shibori_engine.Error.{Result, ok}
use shibori_engine.LogicalType.{is_variable_width}
use shibori_engine.Column.Buffer.{ByteBuffer, OffsetBuffer}
use shibori_engine.Column.Validity.{Validity}
use shibori_engine.Column.Storage.{Column, is_set, variable_column, variable_column}
use shibori_engine.Column.VariableWidth.{
  VariableWidthBuilder, set_variable_validity, set_variable_offsets, set_variable_payload,
  finish_variable_width, variable_width_refused, variable_width_result,
}
use shibori_engine.Column.Building.{IsColumn, is_refused, ColumnBuilder}
use shibori_engine.Column.Building.Checks.{
  setting, finishing, tested, present, checked_column, none_set, column_of,
}

pub data VariableWidthRequest : Type 0 where
  set_validity : Validity → VariableWidthRequest
  set_offsets : OffsetBuffer → VariableWidthRequest
  set_payload : ByteBuffer → VariableWidthRequest
  finish : Bool → VariableWidthRequest

abbrev pub perform_variable_width :
    VariableWidthRequest → VariableWidthBuilder → Result (Option Column) × VariableWidthBuilder
perform_variable_width (VariableWidthRequest.set_validity v) b = setting (set_variable_validity v b)
perform_variable_width (VariableWidthRequest.set_offsets v) b = setting (set_variable_offsets v b)
perform_variable_width (VariableWidthRequest.set_payload v) b = setting (set_variable_payload v b)
perform_variable_width (VariableWidthRequest.finish allocates) b =
    finishing (finish_variable_width allocates b)

pub variable_width-closed :
    (request : VariableWidthRequest) (b : VariableWidthBuilder)
    → b.finished ≡ true
    → (is_refused (perform_variable_width request b).0 ≡ true)
      × ((perform_variable_width request b).1 ≡ b)
unfolding set_variable_validity set_variable_offsets set_variable_payload finish_variable_width
variable_width-closed (VariableWidthRequest.set_validity v) b h = rw h (refl, refl)
variable_width-closed (VariableWidthRequest.set_offsets v) b h = rw h (refl, refl)
variable_width-closed (VariableWidthRequest.set_payload v) b h = rw h (refl, refl)
variable_width-closed (VariableWidthRequest.finish allocates) b h = rw h (refl, refl)

finish_variable_width-closing :
    (allocates : Bool) (b : VariableWidthBuilder) (c : Column)
    → (finish_variable_width allocates b).0 ≡ ok c
    → IsColumn c
      × (c.row_count ≡ b.row_count)
      × ((finish_variable_width allocates b).1.finished ≡ true)
unfolding finish_variable_width
finish_variable_width-closing allocates b c h =
    let (passes, made) =
      tested (variable_width_refused b) _ (variable_width_result allocates b) b
        (record b { finished = true }) h in
    let (parts, fits) =
      either_false (b.finished || not (is_set b.offsets) || not (is_set b.payload))
        (not (is_variable_width b.type)) passes in
    let (offset_parts, payload_set) =
      either_false (b.finished || not (is_set b.offsets)) (not (is_set b.payload)) parts in
    let (unfinished, offsets_set) = either_false b.finished (not (is_set b.offsets)) offset_parts in
    let (offsets, is_offsets) = present b.offsets offsets_set in
    let (payload, is_payload) = present b.payload payload_set in
    let (rows, same) =
      checked_column b.row_count b.validity allocates _
        (variable_column b.type b.row_count b.validity b.offsets b.payload) made in
    let shaped =
      IsColumn.variable_width_parts b.type b.row_count b.validity offsets payload (not-false _ fits)
        rows in
    let with_offsets =
      subst
        (λ (o : Option OffsetBuffer).
          IsColumn (variable_column b.type b.row_count b.validity o (some payload)))
        (sym is_offsets) shaped in
    let formed =
      subst
        (λ (o : Option ByteBuffer).
          IsColumn (variable_column b.type b.row_count b.validity b.offsets o))
        (sym is_payload) with_offsets in
    (subst IsColumn same formed, sym (ap (λ (d : Column). d.row_count) same), rw passes refl)

pub variable_width-closing :
    (request : VariableWidthRequest) (b : VariableWidthBuilder) (c : Column)
    → (perform_variable_width request b).0 ≡ ok (some c)
    → IsColumn c
      × (c.row_count ≡ b.row_count)
      × ((perform_variable_width request b).1.finished ≡ true)
variable_width-closing (VariableWidthRequest.set_validity v) b c h =
    absurd (none_set (set_variable_validity v b).0 h)
variable_width-closing (VariableWidthRequest.set_offsets v) b c h =
    absurd (none_set (set_variable_offsets v b).0 h)
variable_width-closing (VariableWidthRequest.set_payload v) b c h =
    absurd (none_set (set_variable_payload v b).0 h)
variable_width-closing (VariableWidthRequest.finish allocates) b c h =
    finish_variable_width-closing allocates b c (column_of (finish_variable_width allocates b).0 h)

pub variable_width-same_rows :
    (request : VariableWidthRequest) (b : VariableWidthBuilder)
    → (perform_variable_width request b).1.row_count ≡ b.row_count
unfolding set_variable_validity set_variable_offsets set_variable_payload finish_variable_width
variable_width-same_rows (VariableWidthRequest.set_validity v) b = ground arith
variable_width-same_rows (VariableWidthRequest.set_offsets v) b = ground arith
variable_width-same_rows (VariableWidthRequest.set_payload v) b = ground arith
variable_width-same_rows (VariableWidthRequest.finish allocates) b = ground arith

unfoldable pub variable_width_columns : ColumnBuilder VariableWidthBuilder VariableWidthRequest
variable_width_columns = record {
  perform = perform_variable_width;
  is_finished = λ b. b.finished;
  rows = λ b. b.row_count;
  closed = variable_width-closed;
  closing = variable_width-closing;
  same_rows = variable_width-same_rows;
}
