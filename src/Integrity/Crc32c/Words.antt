-- ===== src/Integrity/Crc32c/Words.antt =====
-- The checksum value as bytes.
use shibori_engine.Base.{
  ℕ, ◌/◌, ◌^◌, ◌≤◌, ◌<◌, ◌≡◌, ◌∙◌, arith, List, [], ◌∷◌, length, take, IsBytes, little_endian,
  to_little_endian, little_endian-to_little_endian, to_little_endian-little_endian,
}
use shibori_engine.Base.Words.{low_byte, or_u32}
use shibori_engine.Integrity.Crc32c.{little_endian_bytes, from_little_endian}

pub little_endian_bytes_digits : (v : ℕ) → little_endian_bytes v ≡ to_little_endian 4 v
unfolding little_endian_bytes
little_endian_bytes_digits v =
    ground (arith, low_byte v, low_byte (v / 2 ^ 8), low_byte (v / 2 ^ 16), low_byte (v / 2 ^ 24))

pub from_little_endian_digits :
    (bytes : List ℕ)
    → IsBytes bytes
    → 4 ≤ length bytes
    → from_little_endian bytes ≡ little_endian (take 4 bytes)
unfolding from_little_endian
from_little_endian_digits [] h len = absurd (omega arith)
from_little_endian_digits (a ∷ []) h len = absurd (omega arith)
from_little_endian_digits (a ∷ b ∷ []) h len = absurd (omega arith)
from_little_endian_digits (a ∷ b ∷ c ∷ []) h len = absurd (omega arith)
from_little_endian_digits (a ∷ b ∷ c ∷ d ∷ rest) h len = omega (arith, or_u32 a b c d)

pub from_little_endian-little_endian_bytes :
    (v : ℕ) → v < 2 ^ 32 → from_little_endian (little_endian_bytes v) ≡ v
from_little_endian-little_endian_bytes v h = rw (little_endian_bytes_digits v) (
    from_little_endian_digits (to_little_endian 4 v) (omega arith) (omega arith)
    ∙ little_endian-to_little_endian 4 v h)

pub little_endian_bytes-from_little_endian :
    (bytes : List ℕ)
    → IsBytes bytes
    → length bytes ≡ 4
    → little_endian_bytes (from_little_endian bytes) ≡ bytes
little_endian_bytes-from_little_endian [] h len = absurd (omega arith)
little_endian_bytes-from_little_endian (a ∷ []) h len = absurd (omega arith)
little_endian_bytes-from_little_endian (a ∷ b ∷ []) h len = absurd (omega arith)
little_endian_bytes-from_little_endian (a ∷ b ∷ c ∷ []) h len = absurd (omega arith)
little_endian_bytes-from_little_endian (a ∷ b ∷ c ∷ d ∷ []) h len =
    rw (from_little_endian_digits (a ∷ b ∷ c ∷ d ∷ []) h (omega arith))
      (little_endian_bytes_digits _ ∙ to_little_endian-little_endian (a ∷ b ∷ c ∷ d ∷ []) h)
little_endian_bytes-from_little_endian (a ∷ b ∷ c ∷ d ∷ e ∷ bytes) h len = absurd (omega arith)
