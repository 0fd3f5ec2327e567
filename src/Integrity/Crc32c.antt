-- ===== src/Integrity/Crc32c.antt =====
-- CRC32C: the table of src/integrity.cpp, the portable and the x86 update, the hasher, and the
-- checksum value of include/shibori/engine/integrity.hpp. A checksum is its 32-bit value.
pub mod Linear
pub mod Table
pub mod Hashing
pub mod Detection
pub mod Words
pub mod X86
pub mod Tests
use shibori_engine.Base.{
  ℕ, zero, suc, ◌+◌, ◌-◌, ◌%◌, ◌^◌, bit_and, bit_or, bit_xor, Bool, true, false, ◌&&◌,
  if◌then◌else◌, ltb, List, [], ◌∷◌, length, take, drop, little_endian, to_byte, byte_at, ◌<<<◌,
  ◌>>>◌,
}

abbrev pub crc32c_polynomial : ℕ
crc32c_polynomial = 0x82f63b78

-- One round of the inner loop; the mask is `0U - (remainder & 1U)`.
unfoldable pub bit_round : ℕ → ℕ
bit_round remainder =
    let mask = (2 ^ 32 - bit_and remainder 1) % 2 ^ 32 in
    bit_xor (remainder >>> 1) (bit_and crc32c_polynomial mask)

unfoldable pub bit_rounds : ℕ → ℕ → ℕ
unfolding bit_round
bit_rounds zero remainder = remainder
bit_rounds (suc n) remainder = bit_rounds n (bit_round remainder)

-- The entries from `index` on, with the number of entries left.
unfoldable pub table_from : ℕ → ℕ → List ℕ
unfolding bit_rounds
table_from zero index = []
table_from (suc left) index = bit_rounds 8 index ∷ table_from left (index + 1)

unfoldable pub crc32c_table : List ℕ
unfolding table_from
crc32c_table = table_from 256 0

-- The body of the byte loop.
unfoldable pub table_step : ℕ → ℕ → ℕ
unfolding crc32c_table
table_step state byte =
    let index = bit_and (bit_xor state byte) 0xff in
    bit_xor (byte_at crc32c_table index) (state >>> 8)

unfoldable pub portable_crc32c_update : ℕ → List ℕ → ℕ
unfolding table_step
portable_crc32c_update state [] = state
portable_crc32c_update state (byte ∷ bytes) = portable_crc32c_update (table_step state byte) bytes

-- What the build and the processor supply: whether the backend is compiled in and the processor
-- has the instructions, and `_mm_crc32_u8` and `_mm_crc32_u64`.
pub record Backend : Type 0 where
  pub compiled : Bool
  pub available : Bool
  pub crc32_u8 : ℕ → ℕ → ℕ
  pub crc32_u64 : ℕ → ℕ → ℕ

module _ (backend : Backend) where
  -- The loop over eight bytes at a time, with the bytes that it leaves. The processor is
  -- little-endian, so `memcpy` reads the bytes as a little-endian number.
  unfoldable pub wide_loop : ℕ → ℕ → List ℕ → ℕ × List ℕ
  wide_loop zero wide_state bytes = (wide_state, bytes)
  wide_loop (suc fuel) wide_state bytes =
      let rest =
        wide_loop fuel (backend.crc32_u64 wide_state (little_endian (take 8 bytes)))
          (drop 8 bytes) in
      if ltb (length bytes) 8 then (wide_state, bytes) else rest

  unfoldable pub narrow_loop : ℕ → List ℕ → ℕ
  narrow_loop state [] = state
  narrow_loop state (byte ∷ bytes) = narrow_loop (backend.crc32_u8 state byte) bytes

  unfoldable pub x86_crc32c_update : ℕ → List ℕ → ℕ
  unfolding wide_loop narrow_loop
  x86_crc32c_update state bytes =
      let (wide_state, rest) = wide_loop (length bytes) state bytes in
      narrow_loop (wide_state % 2 ^ 32) rest

pub data Crc32cMode : Type 0 where
  automatic portable : Crc32cMode

pub data Crc32cImplementation : Type 0 where
  portable hardware : Crc32cImplementation

pub record Crc32cHasher : Type 0 where
  pub state : ℕ
  pub implementation : Crc32cImplementation

abbrev pub initial_state : ℕ
initial_state = 0xffffffff

abbrev is_automatic : Crc32cMode → Bool
is_automatic Crc32cMode.automatic = true
is_automatic Crc32cMode.portable = false

unfoldable pub hardware_available : Backend → Bool
hardware_available backend = if backend.compiled then backend.available else false

unfoldable pub new_hasher : Backend → Crc32cMode → Crc32cHasher
new_hasher backend mode = record {
  state = initial_state;
  implementation =
      if backend.compiled && (is_automatic mode && backend.available)
      then Crc32cImplementation.hardware
      else Crc32cImplementation.portable;
}

abbrev is_hardware : Crc32cImplementation → Bool
is_hardware Crc32cImplementation.portable = false
is_hardware Crc32cImplementation.hardware = true

unfoldable pub update : Backend → Crc32cHasher → List ℕ → Crc32cHasher
update backend hasher bytes =
    if backend.compiled && is_hardware hasher.implementation
    then record hasher { state = x86_crc32c_update backend hasher.state bytes }
    else record hasher { state = portable_crc32c_update hasher.state bytes }

unfoldable pub finalize : Crc32cHasher → ℕ
finalize hasher = bit_xor hasher.state 0xffffffff

unfoldable pub reset : Crc32cHasher → Crc32cHasher
reset hasher = record hasher { state = initial_state }

-- `Crc32c::little_endian_bytes`
unfoldable pub little_endian_bytes : ℕ → List ℕ
little_endian_bytes value =
    to_byte (bit_and value 0xff)
    ∷ to_byte (bit_and (value >>> 8) 0xff)
    ∷ to_byte (bit_and (value >>> 16) 0xff)
    ∷ to_byte (bit_and (value >>> 24) 0xff)
    ∷ []

-- `Crc32c::from_little_endian`, of four bytes.
unfoldable pub from_little_endian : List ℕ → ℕ
from_little_endian bytes =
    bit_or (bit_or (bit_or (byte_at bytes 0) (byte_at bytes 1 <<< 8)) (byte_at bytes 2 <<< 16))
      (byte_at bytes 3 <<< 24)
