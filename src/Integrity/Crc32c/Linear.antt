-- ===== src/Integrity/Crc32c/Linear.antt =====
-- The bit rounds of the checksum are linear: bits above the lowest `n` pass `n` rounds unchanged.
use shibori_engine.Base.{
  ℕ, zero, suc, ◌+◌, ◌-◌, ◌*◌, ◌/◌, ◌%◌, ◌^◌, ◌<◌, bit_and, bit_xor, ◌≡◌, sym, ap, ◌∙◌, ◌⊎◌, inl,
  inr, arith,
}
use shibori_engine.Base.Bits.{bit_and_mask}
use shibori_engine.Base.Xor.{
  half-bit_xor, parity-bit_xor, bit_xor_assoc, bit_xor_comm, bit_xor-lt, bit_xor-zero,
}
use Prim.Native.Nat.add
use native.Mathlib.Nat.{pow-suc}
use shibori_engine.Integrity.Crc32c.{crc32c_polynomial, bit_round, bit_rounds}

pub Parity-cases : (r : ℕ) → (r % 2 ≡ 0) ⊎ (r % 2 ≡ 1)
Parity-cases r = ground arith

-- What a round adds, by the parity of the remainder.
abbrev pub feedback : ℕ → ℕ
feedback parity = bit_and crc32c_polynomial ((2 ^ 32 - parity) % 2 ^ 32)

pub bit_round-feedback : (r : ℕ) → bit_round r ≡ bit_xor (r / 2) (feedback (r % 2))
unfolding bit_round
bit_round-feedback r = rw (bit_and_mask 1 r)

pub bit_round_even : (r : ℕ) → r % 2 ≡ 0 → bit_round r ≡ r / 2
bit_round_even r e =
    bit_round-feedback r ∙ ap (λ (p : ℕ). bit_xor (r / 2) (feedback p)) e ∙ bit_xor-zero (r / 2)

pub bit_round_odd : (r : ℕ) → r % 2 ≡ 1 → bit_round r ≡ bit_xor (r / 2) crc32c_polynomial
bit_round_odd r e = bit_round-feedback r ∙ ap (λ (p : ℕ). bit_xor (r / 2) (feedback p)) e

bit_xor_swap : (a b c : ℕ) → bit_xor (bit_xor a b) c ≡ bit_xor (bit_xor a c) b
bit_xor_swap a b c =
    bit_xor_assoc a b c ∙ ap (bit_xor a) (bit_xor_comm b c) ∙ sym (bit_xor_assoc a c b)

bit_round-bit_xor : (a b : ℕ) → bit_round (bit_xor a (b * 2)) ≡ bit_xor (bit_round a) b
bit_round-bit_xor a b =
    let half : bit_xor a (b * 2) / 2 ≡ bit_xor (a / 2) b =
      half-bit_xor a (b * 2) ∙ ap (bit_xor (a / 2)) (omega arith) in
    let parity : bit_xor a (b * 2) % 2 ≡ a % 2 = omega (arith, parity-bit_xor a (b * 2)) in
    bit_round-feedback (bit_xor a (b * 2))
    ∙ rw (half, parity) (bit_xor_swap (a / 2) b (feedback (a % 2)))
    ∙ ap (λ (t : ℕ). bit_xor t b) (sym (bit_round-feedback a))

-- `n` rounds act on the lowest `n` bits and shift the others down.
pub bit_rounds-bit_xor :
    (n a b : ℕ) → bit_rounds n (bit_xor a (b * 2 ^ n)) ≡ bit_xor (bit_rounds n a) b
unfolding bit_rounds
bit_rounds-bit_xor zero a b = ap (bit_xor a) (omega arith)
bit_rounds-bit_xor (suc n) a b =
    let top : b * 2 ^ suc n ≡ b * 2 ^ n * 2 = omega (arith, ap (λ (t : ℕ). b * t) (pow-suc 2 n)) in
    rw (top, bit_round-bit_xor a (b * 2 ^ n)) (bit_rounds-bit_xor n (bit_round a) b)

pub bit_rounds_add : (m n r : ℕ) → bit_rounds (m + n) r ≡ bit_rounds n (bit_rounds m r)
unfolding bit_rounds
bit_rounds_add zero n r = rw (add.zero n)
bit_rounds_add (suc m) n r = rw (add.suc m n) (bit_rounds_add m n (bit_round r))

pub bit_round-lt : (r : ℕ) → r < 2 ^ 32 → bit_round r < 2 ^ 32
bit_round-lt r h = elim (Parity-cases r) [
  | inl e ↦ omega (arith, bit_round_even r e)
  | inr e ↦ omega (
    arith,
    bit_round_odd r e,
    bit_xor-lt 32 (r / 2) crc32c_polynomial (omega arith) (omega arith),
  )
]

pub bit_rounds-lt : (n r : ℕ) → r < 2 ^ 32 → bit_rounds n r < 2 ^ 32
unfolding bit_rounds
bit_rounds-lt zero r h = h
bit_rounds-lt (suc n) r h = bit_rounds-lt n (bit_round r) (bit_round-lt r h)
