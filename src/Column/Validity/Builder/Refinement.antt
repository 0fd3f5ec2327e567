-- ===== src/Column/Validity/Builder/Refinement.antt =====
-- `ValidityBuilder` answers as the builder that keeps the rows does.
use shibori_engine.Base.{
  some, ℕ, zero, suc, ◌+◌, ◌-◌, ◌*◌, ◌/◌, ◌≤◌, ◌<◌, ◌≡◌, refl, ap, ap₂, ◌∙◌, arith, Bool, true,
  false, ◌&&◌, ◌||◌, leb, ◌!=◌, if◌then◌else◌, List, [], ◌∷◌, ◌++◌, length, take, drop, replicate,
  length-append, length-replicate, take-append_at, drop-append_at, inl, inr, Bool-cases,
}
use shibori_engine.CheckedArithmetic.{max_u64, wrapping_subtract}
use shibori_engine.Column.Buffer.{BufferOwnership, byte_buffer, copy_bytes}
use shibori_engine.Column.Bitmap.{set_bit}
use shibori_engine.Column.Bitmap.Rows.{bitmap_bits, count_true, set_true}
use shibori_engine.Column.Bitmap.Padding.{padding_zero}
use shibori_engine.Column.Bitmap.Setting.{
  set_bit-bits, length-set_bit, set_true-next, clear_next, zero_bytes,
}
use shibori_engine.Column.Validity.{
  validity, ValidityBuilder, builder_at, new_validity_builder, append, finish, from_bitmap,
  has_padding_bits, add_popcounts,
}
use shibori_engine.Column.Validity.Acceptance.{padding_absent}
use shibori_engine.Column.Validity.NullCount.{from_bitmap-accepts}
use shibori_engine.Column.Validity.Flags.{flags_below-take}
use shibori_engine.Column.Validity.Builder.{
  FlagsBuilder, flags_builder, Request, Answer, specified, performed, all_specified, all_performed,
  Represents, finish_answer,
}

module _ (n : ℕ) (bytes : List ℕ) (rows : List Bool) (m : ℕ) (same : length rows ≡ n)
    (small : n ≤ max_u64 - 7) (size : length bytes ≡ (n + 7) / 8)
    (bits : bitmap_bits bytes ≡ rows ++ replicate m false) where
  no_flag : (m : ℕ) → count_true (replicate m false) ≡ 0
  no_flag zero = refl
  no_flag (suc m) = omega (arith, no_flag m)

  padded : has_padding_bits n bytes ≡ false
  padded =
      let above =
        ap (λ (bs : List Bool). count_true (drop n bs)) bits
        ∙ ap count_true (drop-append_at n rows (replicate m false) same)
        ∙ no_flag m in
      padding_absent n bytes (padding_zero n bytes size above)

  pub retained :
      (ownership : BufferOwnership)
      → finish_answer (from_bitmap true n (byte_buffer bytes ownership)) ≡ Answer.built rows
  retained ownership =
      let v =
        validity n (wrapping_subtract n (add_popcounts 0 bytes)) (byte_buffer bytes ownership) in
      let taken =
        flags_below-take v n (omega arith) (omega arith)
        ∙ ap (take n) bits
        ∙ take-append_at n rows (replicate m false) same in
      ap finish_answer (from_bitmap-accepts n (byte_buffer bytes ownership) small size padded)
      ∙ ap Answer.built taken

appended_bits :
    (valid : Bool) (bytes : List ℕ) (rows : List Bool) (m : ℕ)
    → bitmap_bits bytes ≡ rows ++ replicate (suc m) false
    → bitmap_bits (if valid then set_bit bytes (length rows) else bytes)
      ≡ (rows ++ valid ∷ []) ++ replicate m false
appended_bits true bytes rows m h =
    set_bit-bits bytes (length rows) ∙ ap (set_true (length rows)) h ∙ set_true-next rows m
appended_bits false bytes rows m h = h ∙ clear_next rows m

appended_length :
    (valid : Bool) (bytes : List ℕ) (row : ℕ)
    → length (if valid then set_bit bytes row else bytes) ≡ length bytes
appended_length true bytes row = length-set_bit bytes row
appended_length false bytes row = refl

module _ (b : ValidityBuilder) (s : FlagsBuilder) (represents : Represents b s) where
  -- The free rows of the bitmap, one fewer.
  one_more :
      (valid : Bool)
      → length s.rows < s.row_count
      → bitmap_bits (if valid then set_bit b.bytes (length s.rows) else b.bytes)
        ≡ (s.rows ++ valid ∷ [])
          ++ replicate
              (8 * length (if valid then set_bit b.bytes (length s.rows) else b.bytes)
                - length (s.rows ++ valid ∷ []))
              false
  one_more valid room =
      let left = 8 * length b.bytes - length s.rows in
      let some_left : left ≡ suc (left - 1) =
        omega (arith, represents.bytes_size, represents.counts) in
      let fewer : left - 1
          ≡ 8 * length (if valid then set_bit b.bytes (length s.rows) else b.bytes)
            - length (s.rows ++ valid ∷ []) =
        omega (
          arith,
          appended_length valid b.bytes (length s.rows),
          length-append s.rows (valid ∷ []),
        ) in
      appended_bits valid b.bytes s.rows (left - 1)
        (represents.bits ∙ ap (λ (m : ℕ). s.rows ++ replicate m false) some_left)
      ∙ ap (λ (m : ℕ). (s.rows ++ valid ∷ []) ++ replicate m false) fewer

  -- The same rows, in the specification's own counts.
  same_rows :
      (f : Bool)
      → Represents
          (builder_at s.row_count (length s.rows) b.bytes b.valid_size f)
          (flags_builder s.row_count s.rows f)
  same_rows f = record {
    counts = refl;
    appends = refl;
    states = refl;
    sized = represents.sized;
    small = omega (arith, represents.small, represents.counts);
    bounded = represents.bounded;
    bytes_size = omega (arith, represents.bytes_size, represents.counts);
    bits = represents.bits;
  }

  append-specified :
      (valid : Bool)
      → ((performed (Request.append_row valid) b).0 ≡ (specified (Request.append_row valid) s).0)
        × Represents
            (performed (Request.append_row valid) b).1
            (specified (Request.append_row valid) s).1
  unfolding append specified
  append-specified valid = elim (Bool-cases (s.finished || leb s.row_count (length s.rows))) [
    | inl closed ↦
        rw (represents.states, represents.counts, represents.appends, closed)
          (refl, same_rows s.finished)
    | inr room ↦
        let below : length s.rows < s.row_count =
          under s.finished s.row_count (length s.rows) room in
        rw (represents.states, represents.counts, represents.appends, room, represents.sized)
          (
            refl,
            record {
              counts = refl;
              appends = omega (arith, length-append s.rows (valid ∷ []));
              states = refl;
              sized = refl;
              small = omega (arith, represents.small, represents.counts);
              bounded = omega (arith, length-append s.rows (valid ∷ []));
              bytes_size = omega (
                arith,
                represents.bytes_size,
                represents.counts,
                appended_length valid b.bytes (length s.rows),
              );
              bits = one_more valid below;
            },
          )
  ]
    where
      under : (f : Bool) (n k : ℕ) → (f || leb n k) ≡ false → k < n
      under true n k h = absurd (cc)
      under false n k h = ground arith

  finish-specified :
      ((performed Request.finish_rows b).0 ≡ (specified Request.finish_rows s).0)
      × Represents (performed Request.finish_rows b).1 (specified Request.finish_rows s).1
  unfolding finish specified copy_bytes
  finish-specified = elim (Bool-cases (s.finished || (length s.rows != s.row_count))) [
    | inl closed ↦
        rw (represents.states, represents.counts, represents.appends, closed)
          (refl, same_rows s.finished)
    | inr complete ↦
        let full : length s.rows ≡ s.row_count =
          all_appended s.finished s.row_count (length s.rows) complete in
        rw (represents.states, represents.counts, represents.appends, complete)
          (
            retained s.row_count b.bytes s.rows (8 * length b.bytes - length s.rows) full
                (omega (arith, represents.small, represents.counts))
                (omega (arith, represents.bytes_size, represents.counts)) represents.bits
                BufferOwnership.owned,
            same_rows true,
          )
  ]
    where
      all_appended : (f : Bool) (n k : ℕ) → (f || (k != n)) ≡ false → k ≡ n
      all_appended true n k h = absurd (cc)
      all_appended false n k h = ground arith

step-specified :
    (request : Request) (b : ValidityBuilder) (s : FlagsBuilder)
    → Represents b s
    → ((performed request b).0 ≡ (specified request s).0)
      × Represents (performed request b).1 (specified request s).1
step-specified (Request.append_row valid) b s represents = append-specified b s represents valid
step-specified Request.finish_rows b s represents = finish-specified b s represents

all-specified :
    (requests : List Request) (b : ValidityBuilder) (s : FlagsBuilder)
    → Represents b s
    → all_performed requests b ≡ all_specified requests s
all-specified [] b s represents = refl
all-specified (request ∷ requests) b s represents =
    let (answer, later) = step-specified request b s represents in
    ap₂ ◌∷◌ answer (all-specified requests (performed request b).1 (specified request s).1 later)

new_validity_builder-Represents :
    (n : ℕ)
    → n ≤ max_u64 - 7
    → (b : ValidityBuilder) × (new_validity_builder true n ≡ some b)
      × Represents b (flags_builder n [] false)
unfolding new_validity_builder
new_validity_builder-Represents n small =
    let fits : (leb n (max_u64 - 7) && leb ((n + 7) / 8) max_u64) ≡ true = ground arith in
    let size : length (replicate {A = ℕ} ((n + 7) / 8) 0) ≡ (n + 7) / 8 =
      length-replicate ((n + 7) / 8) 0 in
    (
      builder_at n 0 (replicate ((n + 7) / 8) 0) true false,
      rw fits refl,
      record {
        counts = refl;
        appends = refl;
        states = refl;
        sized = refl;
        small = small;
        bounded = omega arith;
        bytes_size = size;
        bits = zero_bytes ((n + 7) / 8) ∙ ap (λ (m : ℕ). replicate m false) (omega (arith, size));
      },
    )

-- A builder for at most 2^64 - 8 rows is made where its bytes have room, and where every later
-- allocation has room too, it gives any sequence of appends and finishes the answers of a builder
-- that keeps the rows as a list: a row past the last, a finish too early and everything after a
-- finish are refused, and a finish gives the rows in the order they were appended, as `is_valid` of
-- the validity it returns reads them.
pub all_performed-all_specified :
    (requests : List Request) (n : ℕ)
    → n ≤ max_u64 - 7
    → (b : ValidityBuilder) × (new_validity_builder true n ≡ some b)
      × (all_performed requests b ≡ all_specified requests (flags_builder n [] false))
all_performed-all_specified requests n small =
    let (b, made, represents) = new_validity_builder-Represents n small in
    (b, made, all-specified requests b (flags_builder n [] false) represents)
