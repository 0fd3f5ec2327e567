-- ===== src/Base/Bytes.antt =====
-- Bytes and words as numbers: ranges, shifts, and the little-endian reading of a byte sequence.
use Prim.Native.Nat.{ℕ, zero, suc, ◌+◌, ◌*◌, ◌/◌, ◌%◌, ◌^◌, ◌<◌}
use mathlib.Core.Path.{◌≡◌, refl, ap₂}
use mathlib.Core.List.{List, [], ◌∷◌}
use native.Mathlib.Nat.{pow-suc}
use native.Mathlib.Omega.{arith}
use shibori_engine.Base.Lists.{length, All}

abbrev pub IsByte : ℕ → Type 0
IsByte b = b < 256

abbrev pub IsBytes : List ℕ → Type 0
IsBytes = All IsByte

infixl 75 ◌<<<◌ ◌>>>◌
abbrev pub ◌<<<◌ : ℕ → ℕ → ℕ
x <<< k = x * 2 ^ k

abbrev pub ◌>>>◌ : ℕ → ℕ → ℕ
x >>> k = x / 2 ^ k

-- `static_cast<std::byte>`
abbrev pub to_byte : ℕ → ℕ
to_byte n = n % 2 ^ 8

-- `bytes[i]`. Every reader checks the size first; 0 past the end is never used.
abbrev pub byte_at : List ℕ → ℕ → ℕ
byte_at [] i = 0
byte_at (b ∷ bs) zero = b
byte_at (b ∷ bs) (suc i) = byte_at bs i

-- The number whose base-256 digits, lowest first, are the bytes.
abbrev pub little_endian : List ℕ → ℕ
little_endian [] = 0
little_endian (b ∷ bs) = b + 256 * little_endian bs

-- The lowest `n` base-256 digits of a number, lowest first.
abbrev pub to_little_endian : ℕ → ℕ → List ℕ
to_little_endian zero v = []
to_little_endian (suc n) v = v % 256 ∷ to_little_endian n (v / 256)

pub to_little_endian-IsBytes : (n v : ℕ) → IsBytes (to_little_endian n v)
to_little_endian-IsBytes zero v = tt
to_little_endian-IsBytes (suc n) v = (omega arith, to_little_endian-IsBytes n (v / 256))

pub length-to_little_endian : (n v : ℕ) → length (to_little_endian n v) ≡ n
length-to_little_endian zero v = refl
length-to_little_endian (suc n) v = omega (arith, length-to_little_endian n (v / 256))

pub little_endian-lt : (bs : List ℕ) → IsBytes bs → little_endian bs < 256 ^ length bs
little_endian-lt [] h = omega arith
little_endian-lt (b ∷ bs) h = omega (arith, little_endian-lt bs h.1, pow-suc 256 (length bs), h.0)

pub little_endian-to_little_endian :
    (n v : ℕ) → v < 256 ^ n → little_endian (to_little_endian n v) ≡ v
little_endian-to_little_endian zero v h = omega arith
little_endian-to_little_endian (suc n) v h =
    let e = pow-suc 256 n in omega (arith, little_endian-to_little_endian n (v / 256) (omega arith))

pub to_little_endian-little_endian :
    (bs : List ℕ) → IsBytes bs → to_little_endian (length bs) (little_endian bs) ≡ bs
to_little_endian-little_endian [] h = refl
to_little_endian-little_endian (b ∷ bs) h =
    let low : (b + 256 * little_endian bs) % 256 ≡ b = omega (arith, h.0) in
    let high : (b + 256 * little_endian bs) / 256 ≡ little_endian bs = omega (arith, h.0) in
    ap₂ ◌∷◌ low (rw high (to_little_endian-little_endian bs h.1))
