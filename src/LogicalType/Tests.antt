-- ===== src/LogicalType/Tests.antt =====
-- A decimal type, and one that is refused.
use shibori_engine.Base.{◌≡◌, ◌↔◌, refl, true}
use shibori_engine.Error.{ok, err}
use shibori_engine.LogicalType.{
  LogicalTypeKind, ℤ, LogicalTypeParameters, LogicalType, create_logical_type, validate_parameters,
  accepts, logical_kind_to_string, logical_type, schema_error,
}
use shibori_engine.LogicalType.Validity.{IsTyped}
use shibori_engine.LogicalType.Creation.{create_logical_type_iff}

abbrev money : LogicalTypeParameters
money = LogicalTypeParameters.decimal_parameters 12 (ℤ.pos 2)

abbrev money_type : LogicalType
money_type = logical_type LogicalTypeKind.decimal money

money_created : create_logical_type true LogicalTypeKind.decimal money ≡ ok money_type
unfolding create_logical_type validate_parameters accepts
money_created = refl

scale_refused :
    create_logical_type true LogicalTypeKind.decimal
      (LogicalTypeParameters.decimal_parameters 2 (ℤ.negsuc 2))
    ≡ err (schema_error "invalid parameters for logical type decimal")
unfolding create_logical_type validate_parameters accepts logical_kind_to_string
scale_refused = refl

create_logical_type_iff_example :
    (create_logical_type true LogicalTypeKind.decimal money ≡ ok money_type) ↔ (
      (true ≡ true)
      × IsTyped LogicalTypeKind.decimal money
      × (money_type ≡ logical_type LogicalTypeKind.decimal money))
create_logical_type_iff_example =
    create_logical_type_iff true LogicalTypeKind.decimal money money_type
