-- ===== src/Column/Building/Boolean.antt =====
-- src/column.cpp: `BooleanColumnBuilder` is a column builder.
use shibori_engine.Base.{
  ◌≡◌, refl, sym, ap, arith, subst, Bool, true, false, not, Option, some, either_false,
}
use shibori_engine.Error.{
  Error, new_error, ErrorCode, Operation, Result, ok, fail_if, ◌>>◌, >>=-eq-ok,
}
use shibori_engine.LogicalType.{
  LogicalType, LogicalTypeKind, LogicalTypeParameters, logical_type, create_logical_type,
}
use shibori_engine.Column.Buffer.{ByteBuffer}
use shibori_engine.Column.Validity.{Validity}
use shibori_engine.Column.Storage.{Column, validate_validity, is_set, boolean_column}
use shibori_engine.Column.Boolean.{
  BooleanBuilder, set_boolean_validity, set_boolean_values, finish_boolean, boolean_refused,
  boolean_result,
}
use shibori_engine.Column.Building.{IsColumn, is_refused, ColumnBuilder}
use shibori_engine.Column.Building.Checks.{
  setting, finishing, tested, present, validate_validity-IsOfRows, none_set, column_of,
}

pub data BooleanRequest : Type 0 where
  set_validity : Validity → BooleanRequest
  set_values : ByteBuffer → BooleanRequest
  finish : Bool → Bool → BooleanRequest

abbrev pub perform_boolean :
    BooleanRequest → BooleanBuilder → Result (Option Column) × BooleanBuilder
perform_boolean (BooleanRequest.set_validity v) b = setting (set_boolean_validity v b)
perform_boolean (BooleanRequest.set_values v) b = setting (set_boolean_values v b)
perform_boolean (BooleanRequest.finish types allocates) b =
    finishing (finish_boolean types allocates b)

pub boolean-closed :
    (request : BooleanRequest) (b : BooleanBuilder)
    → b.finished ≡ true
    → (is_refused (perform_boolean request b).0 ≡ true) × ((perform_boolean request b).1 ≡ b)
unfolding set_boolean_validity set_boolean_values finish_boolean
boolean-closed (BooleanRequest.set_validity v) b h = rw h (refl, refl)
boolean-closed (BooleanRequest.set_values v) b h = rw h (refl, refl)
boolean-closed (BooleanRequest.finish types allocates) b h = rw h (refl, refl)

abbrev boolean_type : LogicalType
boolean_type = logical_type LogicalTypeKind.boolean LogicalTypeParameters.monostate

boolean_created :
    (types : Bool) {t : LogicalType}
    → create_logical_type types LogicalTypeKind.boolean LogicalTypeParameters.monostate ≡ ok t
    → boolean_type ≡ t
unfolding create_logical_type
boolean_created true h = cc
boolean_created false h = absurd (cc)

abbrev boolean_of_type : Bool → BooleanBuilder → LogicalType → Result Column
boolean_of_type allocates b type =
    fail_if (not allocates) (
      new_error ErrorCode.allocation_failed Operation.validate_block
        "unable to allocate boolean column")
    >> ok (boolean_column type b.row_count b.validity b.values)

allocated :
    (allocates : Bool) (e : Error) {made c : Column}
    → (fail_if (not allocates) e >> ok made) ≡ ok c
    → made ≡ c
allocated true e h = cc
allocated false e h = absurd (cc)

finish_boolean-closing :
    (types allocates : Bool) (b : BooleanBuilder) (c : Column)
    → (finish_boolean types allocates b).0 ≡ ok c
    → IsColumn c
      × (c.row_count ≡ b.row_count)
      × ((finish_boolean types allocates b).1.finished ≡ true)
unfolding finish_boolean
finish_boolean-closing types allocates b c h =
    let (passes, made) =
      tested (boolean_refused b) _ (boolean_result types allocates b) b
        (record b { finished = true }) h in
    let (unfinished, set) = either_false b.finished (not (is_set b.values)) passes in
    let (values, is_values) = present b.values set in
    let (type, typed, built) =
      >>=-eq-ok
        (validate_validity b.row_count b.validity
          >> create_logical_type types LogicalTypeKind.boolean LogicalTypeParameters.monostate)
        (boolean_of_type allocates b) made in
    let (u, valid, created) =
      >>=-eq-ok (validate_validity b.row_count b.validity)
        (λ _. create_logical_type types LogicalTypeKind.boolean LogicalTypeParameters.monostate)
        typed in
    let same = allocated allocates _ built in
    let shaped =
      IsColumn.boolean_parts b.row_count b.validity values
        (validate_validity-IsOfRows b.row_count b.validity valid) in
    let formed =
      subst
        (λ (o : Option ByteBuffer). IsColumn (boolean_column boolean_type b.row_count b.validity o))
        (sym is_values) shaped in
    let of_type =
      subst (λ (t : LogicalType). IsColumn (boolean_column t b.row_count b.validity b.values))
        (boolean_created types created) formed in
    (subst IsColumn same of_type, sym (ap (λ (d : Column). d.row_count) same), rw passes refl)

pub boolean-closing :
    (request : BooleanRequest) (b : BooleanBuilder) (c : Column)
    → (perform_boolean request b).0 ≡ ok (some c)
    → IsColumn c × (c.row_count ≡ b.row_count) × ((perform_boolean request b).1.finished ≡ true)
boolean-closing (BooleanRequest.set_validity v) b c h =
    absurd (none_set (set_boolean_validity v b).0 h)
boolean-closing (BooleanRequest.set_values v) b c h = absurd (none_set (set_boolean_values v b).0 h)
boolean-closing (BooleanRequest.finish types allocates) b c h =
    finish_boolean-closing types allocates b c (column_of (finish_boolean types allocates b).0 h)

pub boolean-same_rows :
    (request : BooleanRequest) (b : BooleanBuilder)
    → (perform_boolean request b).1.row_count ≡ b.row_count
unfolding set_boolean_validity set_boolean_values finish_boolean
boolean-same_rows (BooleanRequest.set_validity v) b = ground arith
boolean-same_rows (BooleanRequest.set_values v) b = ground arith
boolean-same_rows (BooleanRequest.finish types allocates) b = ground arith

unfoldable pub boolean_columns : ColumnBuilder BooleanBuilder BooleanRequest
boolean_columns = record {
  perform = perform_boolean;
  is_finished = λ b. b.finished;
  rows = λ b. b.row_count;
  closed = boolean-closed;
  closing = boolean-closing;
  same_rows = boolean-same_rows;
}
