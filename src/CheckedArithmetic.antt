-- ===== src/CheckedArithmetic.antt =====
-- src/checked_arithmetic.cpp and include/shibori/engine/checked_arithmetic.hpp: unsigned 64-bit
-- arithmetic that reports an overflow and never performs it.
pub mod Exactness
pub mod Tests
use shibori_engine.Base.{
  ℕ, ◌+◌, ◌-◌, ◌*◌, ◌/◌, ◌%◌, ◌^◌, String, join_text, Bool, true, false, ◌&&◌, ◌||◌, ltb, ◌!=◌,
  if◌then◌else◌,
}
use shibori_engine.Error.{ErrorCode, Operation, Result, ok, Status, fail}

-- `std::numeric_limits<std::uint64_t>::max()`
abbrev pub max_u64 : ℕ
max_u64 = 2 ^ 64 - 1

-- Unsigned subtraction of two `std::uint64_t`.
abbrev pub wrapping_subtract : ℕ → ℕ → ℕ
wrapping_subtract a b = if ltb a b then (max_u64 + 1 - b) + a else a - b

abbrev pub exceeds_u64 {ℓ} : {A : Type ℓ} → Operation → String → Result A
exceeds_u64 operation subject =
    fail ErrorCode.arithmetic_overflow operation
      (join_text subject " exceeds the unsigned 64-bit range")

abbrev pub outside_region : Operation → String → Status
outside_region operation subject =
    fail ErrorCode.range_exceeded operation (join_text subject " falls outside the bounded region")

unfoldable pub checked_add : ℕ → ℕ → Operation → String → Result ℕ
checked_add left right operation subject =
    if ltb (max_u64 - left) right
    then exceeds_u64 operation subject
    else ok ((left + right) % 2 ^ 64)

unfoldable pub checked_multiply : ℕ → ℕ → Operation → String → Result ℕ
checked_multiply left right operation subject =
    if (left != 0) && ltb (max_u64 / left) right
    then exceeds_u64 operation subject
    else ok ((left * right) % 2 ^ 64)

unfoldable pub checked_range : ℕ → ℕ → ℕ → Operation → String → Status
checked_range offset length total_size operation subject =
    if ltb total_size offset || ltb (total_size - offset) length
    then outside_region operation subject
    else ok tt
