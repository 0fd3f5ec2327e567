-- ===== src/Column/Validity/Builder.antt =====
-- The specification of `ValidityBuilder`: a builder that keeps the rows themselves, and the relation
-- of the two. `performed` is the code's builder, where every allocation has room.
pub mod Refinement
use shibori_engine.Base.{
  ℕ, zero, suc, ◌+◌, ◌-◌, ◌*◌, ◌/◌, ◌%◌, ◌≤◌, ◌<◌, bit_and, ◌≡◌, refl, sym, ap, ap₂, ◌∙◌, arith,
  Bool, true, false, not, ◌&&◌, ◌||◌, leb, ◌==◌, ◌!=◌, if◌then◌else◌, List, [], ◌∷◌, ◌++◌, length,
  take, drop, replicate, Option, some, none, length-append, length-replicate, take-append_at,
  drop-append_at, inl, inr, ◌⊎◌, Bool-cases,
}
use shibori_engine.CheckedArithmetic.{max_u64, wrapping_subtract}
use shibori_engine.Error.{Result, ok, err, Status, fail}
use shibori_engine.Column.Buffer.{ByteBuffer, BufferOwnership, byte_buffer, copy_bytes}
use shibori_engine.Column.Bitmap.{set_bit, last_byte, padding_mask}
use shibori_engine.Column.Bitmap.Rows.{bitmap_bits, count_true, set_true}
use shibori_engine.Column.Bitmap.Padding.{padding_zero}
use shibori_engine.Column.Bitmap.Setting.{
  set_bit-bits, length-set_bit, set_true-next, clear_next, zero_bytes,
}
use shibori_engine.Column.Validity.{
  Validity, validity, ValidityBuilder, builder_at, new_validity_builder, append, finish,
  from_bitmap, has_padding_bits, add_popcounts,
}
use shibori_engine.Column.Validity.NullCount.{from_bitmap-accepts}
use shibori_engine.Column.Validity.Flags.{flags, flags_below-take}

-- The specification: a builder that keeps the rows themselves.
pub record FlagsBuilder : Type 0 where
  pub row_count : ℕ
  pub rows : List Bool
  pub finished : Bool

abbrev pub flags_builder : ℕ → List Bool → Bool → FlagsBuilder
flags_builder row_count rows finished = record {
  row_count = row_count;
  rows = rows;
  finished = finished;
}

pub data Request : Type 0 where
  append_row : Bool → Request
  finish_rows : Request

pub data Answer : Type 0 where
  refused appended : Answer
  built : List Bool → Answer

unfoldable pub specified : Request → FlagsBuilder → Answer × FlagsBuilder
specified (Request.append_row valid) b =
    if b.finished || leb b.row_count (length b.rows)
    then (Answer.refused, b)
    else (Answer.appended, flags_builder b.row_count (b.rows ++ valid ∷ []) b.finished)
specified Request.finish_rows b =
    if b.finished || (length b.rows != b.row_count)
    then (Answer.refused, b)
    else (Answer.built b.rows, flags_builder b.row_count b.rows true)

abbrev pub append_answer : Status → Answer
append_answer (ok u) = Answer.appended
append_answer (err e) = Answer.refused

abbrev pub finish_answer : Result Validity → Answer
finish_answer (ok v) = Answer.built (flags v)
finish_answer (err e) = Answer.refused

abbrev pub first_answer :
    {T : Type 0} → (T → Answer) → T × ValidityBuilder → Answer × ValidityBuilder
first_answer answer outcome = (answer outcome.0, outcome.1)

abbrev pub performed : Request → ValidityBuilder → Answer × ValidityBuilder
performed (Request.append_row valid) b = first_answer append_answer (append valid b)
performed Request.finish_rows b = first_answer finish_answer (finish true true b)

abbrev pub all_specified : List Request → FlagsBuilder → List Answer
all_specified [] b = []
all_specified (request ∷ requests) b =
    let step = specified request b in step.0 ∷ all_specified requests step.1

abbrev pub all_performed : List Request → ValidityBuilder → List Answer
all_performed [] b = []
all_performed (request ∷ requests) b =
    let step = performed request b in step.0 ∷ all_performed requests step.1

-- The bitmap holds the rows appended so far, lowest bit first, and zeros above them.
pub record Represents (b : ValidityBuilder) (s : FlagsBuilder) : Type 0 where
  pub counts : b.row_count ≡ s.row_count
  pub appends : b.appended ≡ length s.rows
  pub states : b.finished ≡ s.finished
  pub sized : b.valid_size ≡ true
  pub small : b.row_count ≤ max_u64 - 7
  pub bounded : length s.rows ≤ s.row_count
  pub bytes_size : length b.bytes ≡ (b.row_count + 7) / 8
  pub bits : bitmap_bits b.bytes ≡ s.rows ++ replicate (8 * length b.bytes - length s.rows) false
