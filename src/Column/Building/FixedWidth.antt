-- ===== src/Column/Building/FixedWidth.antt =====
-- src/column.cpp: `FixedWidthColumnBuilder` is a column builder.
use shibori_engine.Base.{
  not-false, ◌≡◌, refl, sym, ap, arith, subst, Bool, true, not, ◌||◌, Option, some, either_false,
}
use shibori_engine.Error.{Result, ok}
use shibori_engine.Column.Buffer.{ByteBuffer}
use shibori_engine.Column.Validity.{Validity}
use shibori_engine.Column.Storage.{Column, is_fixed_storage_type, is_set, fixed_column}
use shibori_engine.Column.FixedWidth.{
  FixedWidthBuilder, set_fixed_validity, set_fixed_values, finish_fixed_width, fixed_width_refused,
  fixed_width_result,
}
use shibori_engine.Column.Building.{IsColumn, is_refused, ColumnBuilder}
use shibori_engine.Column.Building.Checks.{
  setting, finishing, tested, present, checked_column, none_set, column_of,
}

pub data FixedWidthRequest : Type 0 where
  set_validity : Validity → FixedWidthRequest
  set_values : ByteBuffer → FixedWidthRequest
  finish : Bool → FixedWidthRequest

abbrev pub perform_fixed_width :
    FixedWidthRequest → FixedWidthBuilder → Result (Option Column) × FixedWidthBuilder
perform_fixed_width (FixedWidthRequest.set_validity v) b = setting (set_fixed_validity v b)
perform_fixed_width (FixedWidthRequest.set_values v) b = setting (set_fixed_values v b)
perform_fixed_width (FixedWidthRequest.finish allocates) b =
    finishing (finish_fixed_width allocates b)

pub fixed_width-closed :
    (request : FixedWidthRequest) (b : FixedWidthBuilder)
    → b.finished ≡ true
    → (is_refused (perform_fixed_width request b).0 ≡ true)
      × ((perform_fixed_width request b).1 ≡ b)
unfolding set_fixed_validity set_fixed_values finish_fixed_width
fixed_width-closed (FixedWidthRequest.set_validity v) b h = rw h (refl, refl)
fixed_width-closed (FixedWidthRequest.set_values v) b h = rw h (refl, refl)
fixed_width-closed (FixedWidthRequest.finish allocates) b h = rw h (refl, refl)

finish_fixed_width-closing :
    (allocates : Bool) (b : FixedWidthBuilder) (c : Column)
    → (finish_fixed_width allocates b).0 ≡ ok c
    → IsColumn c
      × (c.row_count ≡ b.row_count)
      × ((finish_fixed_width allocates b).1.finished ≡ true)
unfolding finish_fixed_width
finish_fixed_width-closing allocates b c h =
    let (passes, made) =
      tested (fixed_width_refused b) _ (fixed_width_result allocates b) b
        (record b { finished = true }) h in
    let (parts, fits) =
      either_false (b.finished || not (is_set b.values)) (not (is_fixed_storage_type b.type))
        passes in
    let (unfinished, set) = either_false b.finished (not (is_set b.values)) parts in
    let (values, is_values) = present b.values set in
    let (rows, same) =
      checked_column b.row_count b.validity allocates _
        (fixed_column b.type b.row_count b.validity b.values) made in
    let shaped =
      IsColumn.fixed_width_parts b.type b.row_count b.validity values (not-false _ fits) rows in
    let formed =
      subst (λ (o : Option ByteBuffer). IsColumn (fixed_column b.type b.row_count b.validity o))
        (sym is_values) shaped in
    (subst IsColumn same formed, sym (ap (λ (d : Column). d.row_count) same), rw passes refl)

pub fixed_width-closing :
    (request : FixedWidthRequest) (b : FixedWidthBuilder) (c : Column)
    → (perform_fixed_width request b).0 ≡ ok (some c)
    → IsColumn c × (c.row_count ≡ b.row_count) × ((perform_fixed_width request b).1.finished ≡ true)
fixed_width-closing (FixedWidthRequest.set_validity v) b c h =
    absurd (none_set (set_fixed_validity v b).0 h)
fixed_width-closing (FixedWidthRequest.set_values v) b c h =
    absurd (none_set (set_fixed_values v b).0 h)
fixed_width-closing (FixedWidthRequest.finish allocates) b c h =
    finish_fixed_width-closing allocates b c (column_of (finish_fixed_width allocates b).0 h)

pub fixed_width-same_rows :
    (request : FixedWidthRequest) (b : FixedWidthBuilder)
    → (perform_fixed_width request b).1.row_count ≡ b.row_count
unfolding set_fixed_validity set_fixed_values finish_fixed_width
fixed_width-same_rows (FixedWidthRequest.set_validity v) b = ground arith
fixed_width-same_rows (FixedWidthRequest.set_values v) b = ground arith
fixed_width-same_rows (FixedWidthRequest.finish allocates) b = ground arith

unfoldable pub fixed_width_columns : ColumnBuilder FixedWidthBuilder FixedWidthRequest
fixed_width_columns = record {
  perform = perform_fixed_width;
  is_finished = λ b. b.finished;
  rows = λ b. b.row_count;
  closed = fixed_width-closed;
  closing = fixed_width-closing;
  same_rows = fixed_width-same_rows;
}
