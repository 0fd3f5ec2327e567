-- ===== src/Column/Bitmap.antt =====
-- The bit expressions of src/column.cpp and src/block.cpp: bit `row % 8` of byte `row / 8`.
pub mod Rows
pub mod Padding
pub mod Setting
use shibori_engine.Base.{
  ℕ, zero, suc, ◌+◌, ◌-◌, ◌/◌, ◌%◌, ◌^◌, bit_and, bit_or, Bool, ◌==◌, ◌!=◌, List, [], ◌∷◌, length,
  to_byte, byte_at, ◌<<<◌,
}

-- `bytes.back()`. Every caller checks first that there is a byte.
abbrev pub last_byte : List ℕ → ℕ
last_byte bytes = byte_at bytes (length bytes - 1)

-- `static_cast<std::uint8_t>(0xffU << used)`
abbrev pub padding_mask : ℕ → ℕ
padding_mask used = to_byte (0xff <<< used)

-- `(bytes[row / 8] & (1U << (row % 8))) != 0`
unfoldable pub bit_test : List ℕ → ℕ → Bool
bit_test bytes row = bit_and (byte_at bytes (row / 8)) (1 <<< (row % 8)) != 0

-- `bytes[index] |= bit`
abbrev pub or_at : List ℕ → ℕ → ℕ → List ℕ
or_at [] index bit = []
or_at (b ∷ bytes) zero bit = bit_or b bit ∷ bytes
or_at (b ∷ bytes) (suc index) bit = b ∷ or_at bytes index bit

unfoldable pub set_bit : List ℕ → ℕ → List ℕ
set_bit bytes row = or_at bytes (row / 8) (to_byte (1 <<< (row % 8)))

-- The one bits among the lowest `n`.
unfoldable pub ones : ℕ → ℕ → ℕ
ones zero value = 0
ones (suc n) value = value % 2 + ones n (value / 2)

-- `std::popcount` of a byte
unfoldable pub popcount : ℕ → ℕ
unfolding ones
popcount value = ones 8 value
