-- ===== src/Base/Words.antt =====
-- The mask and shift expressions of the byte codecs, as arithmetic.
use Prim.Native.Nat.{ℕ, ◌+◌, ◌*◌, ◌%◌, ◌^◌, ◌<◌, bit_and, bit_or}
use mathlib.Core.Path.{◌≡◌}
use native.Mathlib.Omega.{arith}
use shibori_engine.Base.Bits.{bit_and_mask, bit_or_shifted}

pub low_byte : (v : ℕ) → bit_and v 255 % 256 ≡ v % 256
low_byte v = omega (arith, bit_and_mask 8 v)

pub or_u16 : (a b : ℕ) → a < 256 → bit_or a (b * 2 ^ 8) ≡ a + 256 * b
or_u16 a b ha = omega (arith, bit_or_shifted 8 a b ha)

pub or_u32 :
    (a b c d : ℕ)
    → a < 256
    → b < 256
    → c < 256
    → bit_or (bit_or (bit_or a (b * 2 ^ 8)) (c * 2 ^ 16)) (d * 2 ^ 24)
      ≡ a + 256 * (b + 256 * (c + 256 * d))
or_u32 a b c d ha hb hc =
    rw
      (
        or_u16 a b ha,
        bit_or_shifted 16 (a + 256 * b) c (omega arith),
        bit_or_shifted 24 (a + 256 * b + c * 2 ^ 16) d (omega arith),
      )
      (omega arith)
