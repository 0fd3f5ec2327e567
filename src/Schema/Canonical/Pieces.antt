-- ===== src/Schema/Canonical/Pieces.antt =====
-- The pieces of the canonical bytes as prefixes: what follows a piece does not change how it is read.
use shibori_engine.Base.{
  ℕ, zero, suc, ◌/◌, ◌%◌, ◌^◌, ◌<◌, bit_and, ◌≡◌, refl, sym, ap, ap₂, ◌∙◌, arith, List, [], ◌∷◌,
  ◌++◌, length, take, drop, take-append_at, drop-append_at, to_byte, ◌>>>◌, to_little_endian,
  little_endian, length-to_little_endian, little_endian-to_little_endian,
}
use mathlib.Core.List.{append-nil, append_assoc}
use shibori_engine.Base.Words.{low_byte}
use shibori_engine.Schema.Canonical.{append_integer, append_bytes}

pub append_integer-bytes :
    (size : ℕ) (output : List ℕ) (value : ℕ)
    → append_integer size output value ≡ output ++ to_little_endian size value
append_integer-bytes zero output value = sym (append-nil output)
append_integer-bytes (suc size) output value =
    let low : to_byte (bit_and value 0xff) ≡ value % 256 = low_byte value in
    let high : value >>> 8 ≡ value / 256 = omega arith in
    append_integer-bytes size (output ++ to_byte (bit_and value 0xff) ∷ []) (value >>> 8)
    ∙ append_assoc output (to_byte (bit_and value 0xff) ∷ []) (to_little_endian size (value >>> 8))
    ∙ ap₂ (λ (b v : ℕ). output ++ b ∷ to_little_endian size v) low high

-- Two lists that begin with pieces of the same length.
pub same_prefix :
    (n : ℕ) (xs ys rest more : List ℕ)
    → length xs ≡ n
    → length ys ≡ n
    → xs ++ rest ≡ ys ++ more
    → (xs ≡ ys) × (rest ≡ more)
same_prefix n xs ys rest more left right h = (
  sym (take-append_at n xs rest left) ∙ ap (take n) h ∙ take-append_at n ys more right,
  sym (drop-append_at n xs rest left) ∙ ap (drop n) h ∙ drop-append_at n ys more right,
)

pub same_integer_bytes :
    (size v w : ℕ) (rest more : List ℕ)
    → v < 256 ^ size
    → w < 256 ^ size
    → to_little_endian size v ++ rest ≡ to_little_endian size w ++ more
    → (v ≡ w) × (rest ≡ more)
same_integer_bytes size v w rest more small few h =
    let (same, later) =
      same_prefix size (to_little_endian size v) (to_little_endian size w) rest more
        (length-to_little_endian size v) (length-to_little_endian size w) h in
    (
      sym (little_endian-to_little_endian size v small)
          ∙ ap little_endian same
          ∙ little_endian-to_little_endian size w few,
      later,
    )

-- `append_bytes`, without what is before it.
abbrev pub sized_bytes : List ℕ → List ℕ
sized_bytes bytes = to_little_endian 8 (length bytes) ++ bytes

pub append_bytes-sized :
    (output bytes : List ℕ) → append_bytes output bytes ≡ output ++ sized_bytes bytes
append_bytes-sized output bytes =
    ap (λ (o : List ℕ). o ++ bytes) (append_integer-bytes 8 output (length bytes))
    ∙ append_assoc output (to_little_endian 8 (length bytes)) bytes

pub same_sized_bytes :
    (xs ys rest more : List ℕ)
    → length xs < 2 ^ 64
    → length ys < 2 ^ 64
    → sized_bytes xs ++ rest ≡ sized_bytes ys ++ more
    → (xs ≡ ys) × (rest ≡ more)
same_sized_bytes xs ys rest more small few h =
    let split =
      sym (append_assoc (to_little_endian 8 (length xs)) xs rest)
      ∙ h
      ∙ append_assoc (to_little_endian 8 (length ys)) ys more in
    let (size, later) =
      same_integer_bytes 8 (length xs) (length ys) (xs ++ rest) (ys ++ more) small few split in
    same_prefix (length ys) xs ys rest more size refl later
