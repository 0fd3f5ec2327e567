-- ===== src/CheckedArithmetic/Exactness.antt =====
-- The checked operations against the arithmetic that they stand for.
use native.Mathlib.Nat.{le-div_iff_mul-le}
use shibori_engine.Base.{
  ℕ, zero, suc, ◌+◌, ◌*◌, ◌^◌, ◌<◌, ◌≡◌, String, arith, ltb, leb, if◌then◌else◌,
}
use shibori_engine.Error.{Operation, ok}
use shibori_engine.CheckedArithmetic.{
  max_u64, exceeds_u64, outside_region, checked_add, checked_multiply, checked_range,
}

-- On unsigned 64-bit operands `checked_add` is the exact sum where it fits 64 bits, and
-- otherwise the error `arithmetic_overflow`.
pub checked_add_exact :
    (left right : ℕ) (operation : Operation) (subject : String)
    → left < 2 ^ 64
    → right < 2 ^ 64
    → checked_add left right operation subject
      ≡ (if ltb (left + right) (2 ^ 64) then ok (left + right) else exceeds_u64 operation subject)
unfolding checked_add
checked_add_exact left right operation subject hl hr = ground arith

-- On unsigned 64-bit operands `checked_multiply` is the exact product where it fits 64 bits, and
-- otherwise the error `arithmetic_overflow`.
pub checked_multiply_exact :
    (left right : ℕ) (operation : Operation) (subject : String)
    → left < 2 ^ 64
    → right < 2 ^ 64
    → checked_multiply left right operation subject
      ≡ (if ltb (left * right) (2 ^ 64) then ok (left * right) else exceeds_u64 operation subject)
unfolding checked_multiply
checked_multiply_exact zero right operation subject hl hr = ground arith
checked_multiply_exact (suc n) right operation subject hl hr = ground (
  arith,
  (le-div_iff_mul-le {k = suc n} {x = right} {y = max_u64} (omega arith)).0,
  (le-div_iff_mul-le {k = suc n} {x = right} {y = max_u64} (omega arith)).1,
)

-- `checked_range` accepts exactly the regions that end within the total size, without computing
-- `offset + length`, and answers `range_exceeded` for the others.
pub checked_range_exact :
    (offset length total_size : ℕ) (operation : Operation) (subject : String)
    → checked_range offset length total_size operation subject
      ≡ (if leb (offset + length) total_size then ok tt else outside_region operation subject)
unfolding checked_range
checked_range_exact offset length total_size operation subject = ground arith
