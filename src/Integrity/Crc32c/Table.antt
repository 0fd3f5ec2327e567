-- ===== src/Integrity/Crc32c/Table.antt =====
-- The table against the bit rounds that it tabulates.
use shibori_engine.Base.{
  ℕ, zero, suc, ◌+◌, ◌*◌, ◌/◌, ◌%◌, ◌^◌, ◌<◌, bit_xor, ◌≡◌, refl, sym, ap, ◌∙◌, arith, List, [],
  ◌∷◌, IsBytes, byte_at,
}
use native.Mathlib.Nat.{div-add-mod', mod-lt}
use shibori_engine.Base.Bits.{bit_and_mask}
use shibori_engine.Base.Xor.{bit_xor_assoc, bit_xor_comm, bit_xor-lt, bit_xor_shifted}
use shibori_engine.Integrity.Crc32c.{
  bit_rounds, table_from, crc32c_table, table_step, portable_crc32c_update,
}
use shibori_engine.Integrity.Crc32c.Linear.{bit_rounds-bit_xor, bit_rounds-lt}

byte_at-table_from :
    (n index i : ℕ) → i < n → byte_at (table_from n index) i ≡ bit_rounds 8 (index + i)
unfolding table_from
byte_at-table_from zero index i h = absurd (omega arith)
byte_at-table_from (suc n) index zero h = ap (bit_rounds 8) (omega arith)
byte_at-table_from (suc n) index (suc i) h =
    byte_at-table_from n (index + 1) i (omega arith) ∙ ap (bit_rounds 8) (omega arith)

-- The table holds the remainder of every byte.
byte_at-table : (i : ℕ) → i < 256 → byte_at crc32c_table i ≡ bit_rounds 8 i
unfolding crc32c_table
byte_at-table i h = byte_at-table_from 256 0 i h ∙ ap (bit_rounds 8) (omega arith)

-- A number as the disjunction of its low bits and the bits above.
pub low_xor_high : (k x : ℕ) → 0 < 2 ^ k → x ≡ bit_xor (x % 2 ^ k) (x / 2 ^ k * 2 ^ k)
low_xor_high k x pos =
    omega (arith, div-add-mod' x (2 ^ k), bit_xor_shifted k (x % 2 ^ k) (x / 2 ^ k) (mod-lt x pos))

high-bit_xor_byte : (s b : ℕ) → b < 256 → bit_xor s b / 256 ≡ s / 256
high-bit_xor_byte s b h =
    let low = bit_xor (s % 256) b in
    let small : low < 256 = bit_xor-lt 8 (s % 256) b (omega arith) h in
    let split : bit_xor s b ≡ low + s / 256 * 256 =
      ap (λ (t : ℕ). bit_xor t b) (low_xor_high 8 s (omega arith))
      ∙ bit_xor_assoc (s % 256) (s / 256 * 256) b
      ∙ ap (bit_xor (s % 256)) (bit_xor_comm (s / 256 * 256) b)
      ∙ sym (bit_xor_assoc (s % 256) b (s / 256 * 256))
      ∙ bit_xor_shifted 8 low (s / 256) small in
    omega (arith, split, small)

-- One table lookup does eight bit rounds on the state with the byte added.
pub table_step-rounds : (s b : ℕ) → b < 256 → table_step s b ≡ bit_rounds 8 (bit_xor s b)
unfolding table_step
table_step-rounds s b h =
    let x = bit_xor s b in
    rw (bit_and_mask 8 x, byte_at-table (x % 256) (omega arith), sym (high-bit_xor_byte s b h))
      (sym (bit_rounds-bit_xor 8 (x % 256) (x / 256))
        ∙ ap (bit_rounds 8) (sym (low_xor_high 8 x (omega arith))))

pub table_step-lt : (s b : ℕ) → s < 2 ^ 32 → b < 256 → table_step s b < 2 ^ 32
table_step-lt s b hs hb =
    rw (table_step-rounds s b hb)
      (bit_rounds-lt 8 (bit_xor s b) (bit_xor-lt 32 s b hs (omega arith)))

pub portable_crc32c_update-lt :
    (s : ℕ) (bytes : List ℕ) → s < 2 ^ 32 → IsBytes bytes → portable_crc32c_update s bytes < 2 ^ 32
unfolding portable_crc32c_update
portable_crc32c_update-lt s [] hs h = hs
portable_crc32c_update-lt s (b ∷ bytes) hs h =
    portable_crc32c_update-lt (table_step s b) bytes (table_step-lt s b hs h.0) h.1

-- The specification without a table: every byte is added to the state and shifted out bit by bit
-- through the reflected Castagnoli polynomial.
abbrev pub crc32c_by_bits : ℕ → List ℕ → ℕ
crc32c_by_bits s [] = s
crc32c_by_bits s (b ∷ bytes) = crc32c_by_bits (bit_rounds 8 (bit_xor s b)) bytes

-- The table-driven update computes the bit-by-bit specification, on any bytes and any state.
pub portable_crc32c_update-by_bits :
    (s : ℕ) (bytes : List ℕ)
    → IsBytes bytes
    → portable_crc32c_update s bytes ≡ crc32c_by_bits s bytes
unfolding portable_crc32c_update
portable_crc32c_update-by_bits s [] h = refl
portable_crc32c_update-by_bits s (b ∷ bytes) h =
    rw (table_step-rounds s b h.0)
      (portable_crc32c_update-by_bits (bit_rounds 8 (bit_xor s b)) bytes h.1)
