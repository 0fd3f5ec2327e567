-- ===== src/CheckedArithmetic/Tests.antt =====
-- Runs of the checked arithmetic, and its theorems at concrete operands.
use shibori_engine.Base.{◌≡◌, refl, arith}
use shibori_engine.Error.{Operation, ok}
use shibori_engine.CheckedArithmetic.{max_u64, exceeds_u64, checked_add, checked_range}
use shibori_engine.CheckedArithmetic.Exactness.{checked_add_exact}

add_at_limit : checked_add max_u64 0 Operation.parse "size" ≡ ok max_u64
unfolding checked_add
add_at_limit = refl

add_past_limit : checked_add max_u64 1 Operation.parse "size" ≡ exceeds_u64 Operation.parse "size"
unfolding checked_add
add_past_limit = refl

range_at_end : checked_range 8 4 12 Operation.parse "span" ≡ ok tt
unfolding checked_range
range_at_end = refl

checked_add_exact_example :
    checked_add max_u64 2 Operation.parse "size" ≡ exceeds_u64 Operation.parse "size"
checked_add_exact_example =
    checked_add_exact max_u64 2 Operation.parse "size" (omega arith) (omega arith)
