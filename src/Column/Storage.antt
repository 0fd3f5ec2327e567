-- ===== src/Column/Storage.antt =====
-- src/column.cpp: `Column` and the checks its three builders share.
use shibori_engine.Base.{ℕ, Bool, true, false, not, ◌&&◌, ◌!=◌, if◌then◌else◌, Option, none, some}
use shibori_engine.Error.{ErrorCode, Operation, ok, Status, fail}
use shibori_engine.LogicalType.{LogicalTypeKind, LogicalType, is_fixed_width}
use shibori_engine.Column.Buffer.{ByteBuffer, OffsetBuffer}
use shibori_engine.Column.Validity.{Validity}

pub data ColumnStorageKind : Type 0 where
  fixed_width boolean variable_width : ColumnStorageKind
  -- a value that no enumerator names
  unlisted : ℕ → ColumnStorageKind

-- `Column::Impl`
pub record Column : Type 0 where
  pub type : LogicalType
  pub storage_kind : ColumnStorageKind
  pub row_count : ℕ
  pub validity : Option Validity
  pub values : Option ByteBuffer
  pub offsets : Option OffsetBuffer
  pub payload : Option ByteBuffer

abbrev pub null_count : Option Validity → ℕ
null_count none = 0
null_count (some v) = v.null_count

unfoldable pub validate_validity : ℕ → Option Validity → Status
validate_validity row_count none = ok tt
validate_validity row_count (some v) =
    if v.row_count != row_count
    then fail ErrorCode.invalid_block Operation.validate_block
        "validity row count does not match column row count"
    else ok tt

abbrev pub is_boolean_kind : LogicalTypeKind → Bool
is_boolean_kind LogicalTypeKind.boolean = true
is_boolean_kind _ = false

unfoldable pub is_fixed_storage_type : LogicalType → Bool
unfolding is_fixed_width
is_fixed_storage_type t = is_fixed_width t && not (is_boolean_kind t.kind)

abbrev pub is_set {ℓ} : {A : Type ℓ} → Option A → Bool
is_set none = false
is_set (some a) = true

abbrev pub fixed_column : LogicalType → ℕ → Option Validity → Option ByteBuffer → Column
fixed_column type row_count validity values = record {
  type = type;
  storage_kind = ColumnStorageKind.fixed_width;
  row_count = row_count;
  validity = validity;
  values = values;
  offsets = none;
  payload = none;
}

abbrev pub boolean_column : LogicalType → ℕ → Option Validity → Option ByteBuffer → Column
boolean_column type row_count validity values = record {
  type = type;
  storage_kind = ColumnStorageKind.boolean;
  row_count = row_count;
  validity = validity;
  values = values;
  offsets = none;
  payload = none;
}

abbrev pub variable_column :
    LogicalType → ℕ → Option Validity → Option OffsetBuffer → Option ByteBuffer → Column
variable_column type row_count validity offsets payload = record {
  type = type;
  storage_kind = ColumnStorageKind.variable_width;
  row_count = row_count;
  validity = validity;
  values = none;
  offsets = offsets;
  payload = payload;
}
