-- ===== src/LogicalType/Creation.antt =====
-- What `LogicalType::create` makes.
use shibori_engine.Base.{◌≡◌, refl, ◌↔◌, sym, ap, Bool, true, false, not, if◌then◌else◌}
use shibori_engine.Error.{Error, ok, err, fail_if, >>=-eq-ok}
use shibori_engine.LogicalType.{
  LogicalTypeKind, LogicalTypeParameters, LogicalType, accepts, validate_parameters,
  create_logical_type, logical_type, is_unlisted,
}
use shibori_engine.LogicalType.Validity.{IsTyped}
use shibori_engine.LogicalType.Decision.{accepts-IsTyped, IsTyped-accepts}

unlisted_refused :
    (kind : LogicalTypeKind) (parameters : LogicalTypeParameters)
    → accepts kind parameters ≡ true
    → is_unlisted kind ≡ false
unfolding accepts
unlisted_refused LogicalTypeKind.boolean parameters h = refl
unlisted_refused LogicalTypeKind.int8 parameters h = refl
unlisted_refused LogicalTypeKind.int16 parameters h = refl
unlisted_refused LogicalTypeKind.int32 parameters h = refl
unlisted_refused LogicalTypeKind.int64 parameters h = refl
unlisted_refused LogicalTypeKind.uint8 parameters h = refl
unlisted_refused LogicalTypeKind.uint16 parameters h = refl
unlisted_refused LogicalTypeKind.uint32 parameters h = refl
unlisted_refused LogicalTypeKind.uint64 parameters h = refl
unlisted_refused LogicalTypeKind.float32 parameters h = refl
unlisted_refused LogicalTypeKind.float64 parameters h = refl
unlisted_refused LogicalTypeKind.decimal parameters h = refl
unlisted_refused LogicalTypeKind.date parameters h = refl
unlisted_refused LogicalTypeKind.time parameters h = refl
unlisted_refused LogicalTypeKind.timestamp parameters h = refl
unlisted_refused LogicalTypeKind.duration parameters h = refl
unlisted_refused LogicalTypeKind.string parameters h = refl
unlisted_refused LogicalTypeKind.binary parameters h = refl
unlisted_refused LogicalTypeKind.fixed_binary parameters h = refl
unlisted_refused LogicalTypeKind.uuid parameters h = refl
unlisted_refused (LogicalTypeKind.unlisted n) LogicalTypeParameters.monostate h = absurd (cc)
unlisted_refused (LogicalTypeKind.unlisted n)
      (LogicalTypeParameters.decimal_parameters precision scale) h =
    absurd (cc)
unlisted_refused (LogicalTypeKind.unlisted n) (LogicalTypeParameters.time_parameters unit) h =
    absurd (cc)
unlisted_refused (LogicalTypeKind.unlisted n)
      (LogicalTypeParameters.timestamp_parameters unit timezone) h =
    absurd (cc)
unlisted_refused (LogicalTypeKind.unlisted n) (LogicalTypeParameters.string_parameters validation)
      h =
    absurd (cc)
unlisted_refused (LogicalTypeKind.unlisted n)
      (LogicalTypeParameters.fixed_binary_parameters byte_width) h =
    absurd (cc)

not_failed : (test : Bool) (e : Error) {u : Unit {0}} → fail_if (not test) e ≡ ok u → test ≡ true
not_failed true e h = refl
not_failed false e h = absurd (cc)

validated :
    (test : Bool) (e : Error) {u : Unit {0}} → (if test then ok tt else err e) ≡ ok u → test ≡ true
validated true e h = refl
validated false e h = absurd (cc)

made_same : {t u : LogicalType} → ok t ≡ ok u → t ≡ u
made_same h = cc

-- A logical type is created exactly if there is memory for it and its parameters are those that its
-- kind demands, within their ranges; it then has that kind and those parameters.
pub create_logical_type_iff :
    (allocates : Bool) (kind : LogicalTypeKind) (parameters : LogicalTypeParameters)
    (t : LogicalType)
    → (create_logical_type allocates kind parameters ≡ ok t)
      ↔ ((allocates ≡ true) × IsTyped kind parameters × (t ≡ logical_type kind parameters))
unfolding create_logical_type validate_parameters
create_logical_type_iff allocates kind parameters t = (
  λ h.
      let (_, listed, valid_rest) = >>=-eq-ok (fail_if (is_unlisted kind) _) _ h in
      let (_, valid, room_rest) = >>=-eq-ok (validate_parameters kind parameters) _ valid_rest in
      let (_, room, made) = >>=-eq-ok (fail_if (not allocates) _) _ room_rest in
      (
        not_failed allocates _ room,
        accepts-IsTyped kind parameters (validated (accepts kind parameters) _ valid),
        sym (made_same made),
      ),
  λ c.
      let accepted = IsTyped-accepts c.1 in
      rw (unlisted_refused kind parameters accepted, accepted, c.0) (ap ok (sym c.2)),
)
