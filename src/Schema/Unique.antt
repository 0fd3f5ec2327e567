-- ===== src/Schema/Unique.antt =====
-- The fields of the schemas that `SchemaBuilder::finish` makes.
use shibori_engine.Base.{
  ℕ, zero, suc, ◌≤◌, ◌<◌, ◌≡◌, ◌≢◌, refl, sym, ap, subst, ◌∙◌, arith, Bool, true, false, ◌||◌, ltb,
  ◌==◌, ==_refl, some, List, [], ◌∷◌, ◌++◌, length, get_elem?, All, Bool-cases, inl, inr,
  ne_of_not_==, either_false,
}
use mathlib.Core.List.{append-nil, append_assoc}
use shibori_engine.Error.{Error, ok, err, fail_if, ◌>>◌, >>=-eq-ok, >>-eq-ok, fail_if-passed}
use shibori_engine.Resource.Limits.{ResourceLimits, validate_resource_limits}
use shibori_engine.Schema.Metadata.{Metadata, same_name, validate_metadata}
use shibori_engine.Schema.Field.{Field}
use shibori_engine.Schema.Builder.{
  Schema, new_schema, SchemaBuilder, find_field, repeats, count_field, count_fields, schema_result,
  finish_schema, schema_checks, schema_allocated, field_count_test, field_count_error,
}

abbrev pub IsApart : Field → Field → Type 0
IsApart a b = (a.id ≢ b.id) × (a.name ≢ b.name)

-- No two of the fields have the same ID or the same name.
abbrev pub IsDistinct : List Field → Type 0
IsDistinct [] = Unit
IsDistinct (field ∷ fields) = All (IsApart field) fields × IsDistinct fields

same_name_refl : (a : List ℕ) → same_name a a ≡ true
same_name_refl [] = refl
same_name_refl (c ∷ text) = rw (==_refl c) (same_name_refl text)

not_same : (a b : List ℕ) → same_name a b ≡ false → a ≢ b
not_same a b h = λ e. differ (sym (same_name_refl a) ∙ ap (same_name a) e ∙ h)
  where
    differ : true ≡ false → ⊥
    differ e = cc

IsApart-snoc :
    (a field : Field) (fields : List Field)
    → All (IsApart a) fields
    → IsApart a field
    → All (IsApart a) (fields ++ field ∷ [])
IsApart-snoc a field [] all h = (h, tt)
IsApart-snoc a field (b ∷ fields) all h = (all.0, IsApart-snoc a field fields all.1 h)

IsDistinct-snoc :
    (priors : List Field) (field : Field)
    → IsDistinct priors
    → repeats priors field ≡ false
    → IsDistinct (priors ++ field ∷ [])
IsDistinct-snoc [] field distinct h = (tt, tt)
IsDistinct-snoc (prior ∷ priors) field distinct h =
    let (here, later) =
      either_false ((prior.id == field.id) || same_name prior.name field.name)
        (repeats priors field) h in
    let (ids, names) = either_false (prior.id == field.id) (same_name prior.name field.name) here in
    (
      IsApart-snoc prior field priors distinct.0
          (ne_of_not_== prior.id field.id ids, not_same prior.name field.name names),
      IsDistinct-snoc priors field distinct.1 later,
    )

count_field-apart :
    (limits : ResourceLimits) (priors : List Field) (field : Field) (before after : ℕ)
    → count_field limits priors field before ≡ ok after
    → repeats priors field ≡ false
unfolding count_field
count_field-apart limits priors field before after h =
    let (with_name, named, more) = >>=-eq-ok _ _ h in
    let (u, unrepeated, added) = >>=-eq-ok _ _ named in
    fail_if-passed (repeats priors field) _ unrepeated

count_fields-IsDistinct :
    (limits : ResourceLimits) (priors fields : List Field) (before after : ℕ)
    → IsDistinct priors
    → count_fields limits priors fields before ≡ ok after
    → IsDistinct (priors ++ fields)
count_fields-IsDistinct limits priors [] before after distinct h =
    subst IsDistinct (sym (append-nil priors)) distinct
count_fields-IsDistinct limits priors (field ∷ fields) before after distinct h =
    let (total, counted, more) =
      >>=-eq-ok (count_field limits priors field before)
        (λ total. count_fields limits (priors ++ field ∷ []) fields total) h in
    let apart = count_field-apart limits priors field before total counted in
    subst IsDistinct (append_assoc priors (field ∷ []) fields) (
      count_fields-IsDistinct limits (priors ++ field ∷ []) fields total after
        (IsDistinct-snoc priors field distinct apart) more)

-- A schema with fields, no more of them than the limit, and no two alike.
pub record IsSchema (limits : ResourceLimits) (s : Schema) : Type 0 where
  pub some_field : 0 < length s.fields
  pub bounded : length s.fields ≤ limits.maximum_fields
  pub distinct : IsDistinct s.fields

allocated_same :
    (allocates : Bool) (fields : List Field) (metadata : Metadata) (s : Schema)
    → schema_allocated allocates fields metadata ≡ ok s
    → s ≡ new_schema fields metadata
allocated_same true fields metadata s h = cc
allocated_same false fields metadata s h = absurd (cc)

pub schema_result-IsSchema :
    (allocates : Bool) (limits : ResourceLimits) (fields : List Field) (metadata : Metadata)
    (s : Schema)
    → schema_result allocates limits fields metadata ≡ ok s
    → IsSchema limits s × (s ≡ new_schema fields metadata)
unfolding schema_result
schema_result-IsSchema allocates limits fields metadata s h =
    let (metadata_bytes, checked, finished) =
      >>=-eq-ok (schema_checks limits fields metadata)
        (λ (bytes : ℕ).
          count_fields limits [] fields bytes >> schema_allocated allocates fields metadata)
        h in
    let (consistent, rest) =
      >>-eq-ok (validate_resource_limits limits)
        (fail_if (field_count_test limits fields) (field_count_error fields)
          >> validate_metadata metadata limits 0)
        checked in
    let ((u, counted), validated) =
      >>-eq-ok (fail_if (field_count_test limits fields) (field_count_error fields))
        (validate_metadata metadata limits 0) rest in
    let ((total, totalled), allocated) =
      >>-eq-ok (count_fields limits [] fields metadata_bytes)
        (schema_allocated allocates fields metadata) finished in
    let same = allocated_same allocates fields metadata s allocated in
    let (filled, within) =
      either_false (length fields == 0) (ltb limits.maximum_fields (length fields))
        (fail_if-passed (field_count_test limits fields) _ counted) in
    (
      subst (IsSchema limits) (sym same) (record {
        some_field = ground (arith, filled);
        bounded = ground (arith, within);
        distinct = count_fields-IsDistinct limits [] fields metadata_bytes total tt totalled;
      }),
      same,
    )

same_field : {a b : Field} → some a ≡ some b → a ≡ b
same_field h = cc

pub apart_at :
    (P : Field → Type 0) (fields : List Field) (index : ℕ) (field : Field)
    → All P fields
    → get_elem? fields index ≡ some field
    → P field
apart_at P [] index field all h = absurd (cc)
apart_at P (first ∷ fields) zero field all h = subst P (same_field h) all.0
apart_at P (first ∷ fields) (suc index) field all h = apart_at P fields index field all.1 h

find_field-distinct :
    (fields : List Field) (index : ℕ) (field : Field)
    → IsDistinct fields
    → get_elem? fields index ≡ some field
    → find_field fields field.id ≡ some field
find_field-distinct [] index field distinct h = absurd (cc)
find_field-distinct (first ∷ fields) zero field distinct h =
    subst (λ (f : Field). find_field (f ∷ fields) field.id ≡ some field) (sym (same_field h))
      (rw (==_refl field.id) refl)
find_field-distinct (first ∷ fields) (suc index) field distinct h =
    let apart = (apart_at (IsApart first) fields index field distinct.0 h).0 in
    let other : (first.id == field.id) ≡ false = ground (arith, apart) in
    rw other (find_field-distinct fields index field distinct.1 h)

finish_schema-result :
    (allocates : Bool) (limits : ResourceLimits) (b : SchemaBuilder) (s : Schema)
    → (finish_schema allocates limits b).0 ≡ ok s
    → schema_result allocates limits b.fields b.metadata ≡ ok s
unfolding finish_schema
finish_schema-result allocates limits b s h = elim (Bool-cases b.finished) [
  | inl done ↦ absurd (never (rw done at h))
  | inr fresh ↦ rw fresh at h
]
  where
    never : {e : Error} → err e ≡ ok s → ⊥
    never h = cc

-- Whenever `SchemaBuilder::finish` succeeds, the schema has the builder's fields, at least one and no
-- more than `maximum_fields`, no two of them with the same ID or the same name.
pub finish_schema-IsSchema :
    (allocates : Bool) (limits : ResourceLimits) (b : SchemaBuilder) (s : Schema)
    → (finish_schema allocates limits b).0 ≡ ok s
    → IsSchema limits s × (s.fields ≡ b.fields)
finish_schema-IsSchema allocates limits b s h =
    let (formed, same) =
      schema_result-IsSchema allocates limits b.fields b.metadata s
        (finish_schema-result allocates limits b s h) in
    (formed, ap (λ (t : Schema). t.fields) same)

-- Whenever `SchemaBuilder::finish` succeeds, `find_field` of the ID of the schema's field at any index
-- returns that field.
pub finish_schema-find_field :
    (allocates : Bool) (limits : ResourceLimits) (b : SchemaBuilder) (s : Schema) (index : ℕ)
    (field : Field)
    → (finish_schema allocates limits b).0 ≡ ok s
    → get_elem? s.fields index ≡ some field
    → find_field s.fields field.id ≡ some field
finish_schema-find_field allocates limits b s index field h at_index =
    let (formed, same) = finish_schema-IsSchema allocates limits b s h in
    find_field-distinct s.fields index field formed.distinct at_index
