-- ===== src/Integrity/Crc32c/Detection.antt =====
-- Corruption that the checksum detects: a byte that changed, anywhere in the message.
use shibori_engine.Base.{
  ℕ, zero, suc, ◌-◌, ◌*◌, ◌/◌, ◌%◌, ◌^◌, ◌≤◌, ◌<◌, bit_xor, ◌≡◌, ◌≢◌, sym, ap, ◌∙◌, inl, inr, arith,
  List, [], ◌∷◌, ◌++◌, IsByte, IsBytes,
}
use shibori_engine.Base.Xor.{
  bit_xor_assoc, bit_xor_comm, bit_xor_cancel, bit_xor-lt, bit_xor_shifted,
}
use shibori_engine.Integrity.Crc32c.{
  crc32c_polynomial, initial_state, bit_round, bit_rounds, table_step, portable_crc32c_update,
}
use shibori_engine.Integrity.Crc32c.Linear.{
  Parity-cases, bit_round_even, bit_round_odd, bit_round-lt,
}
use shibori_engine.Integrity.Crc32c.Table.{
  table_step-rounds, table_step-lt, portable_crc32c_update-lt,
}
use shibori_engine.Integrity.Crc32c.Hashing.{portable_crc32c_update-append, checksum}

-- The polynomial without its top bit.
abbrev polynomial_rest : ℕ
polynomial_rest = crc32c_polynomial - 2 ^ 31

-- A round sets the top bit exactly if it shifts a one out.
bit_round_top : (r : ℕ) → r < 2 ^ 32 → r % 2 ≡ 1 → 2 ^ 31 ≤ bit_round r
bit_round_top r h e =
    let low = bit_xor (r / 2) polynomial_rest in
    let small : low < 2 ^ 31 = bit_xor-lt 31 (r / 2) polynomial_rest (omega arith) (omega arith) in
    let split : crc32c_polynomial ≡ bit_xor polynomial_rest (1 * 2 ^ 31) =
      sym (bit_xor_shifted 31 polynomial_rest 1 (omega arith)) in
    omega (
      arith,
      bit_round_odd r e
          ∙ ap (bit_xor (r / 2)) split
          ∙ sym (bit_xor_assoc (r / 2) polynomial_rest (1 * 2 ^ 31))
          ∙ bit_xor_shifted 31 low 1 small,
    )

-- No two states meet after a round.
bit_round_injective : (r q : ℕ) → r < 2 ^ 32 → q < 2 ^ 32 → bit_round r ≡ bit_round q → r ≡ q
bit_round_injective r q hr hq e = elim (Parity-cases r) [
  | inl er ↦ elim (Parity-cases q) [
    | inl eq ↦ omega (arith, bit_round_even r er, bit_round_even q eq)
    | inr oq ↦ absurd (omega (arith, bit_round_even r er, bit_round_top q hq oq))
  ]
  | inr or ↦ elim (Parity-cases q) [
    | inl eq ↦ absurd (omega (arith, bit_round_even q eq, bit_round_top r hr or))
    | inr oq ↦ omega (
      arith,
      bit_xor_cancel (r / 2) (q / 2) crc32c_polynomial
          (sym (bit_round_odd r or) ∙ e ∙ bit_round_odd q oq),
    )
  ]
]

bit_rounds_injective :
    (n r q : ℕ) → r < 2 ^ 32 → q < 2 ^ 32 → bit_rounds n r ≡ bit_rounds n q → r ≡ q
unfolding bit_rounds
bit_rounds_injective zero r q hr hq e = e
bit_rounds_injective (suc n) r q hr hq e =
    bit_round_injective r q hr hq
      (bit_rounds_injective n (bit_round r) (bit_round q) (bit_round-lt r hr) (bit_round-lt q hq) e)

step_sources :
    (s t a b : ℕ)
    → s < 2 ^ 32
    → t < 2 ^ 32
    → IsByte a
    → IsByte b
    → table_step s a ≡ table_step t b
    → bit_xor s a ≡ bit_xor t b
step_sources s t a b hs ht ha hb e =
    bit_rounds_injective 8 (bit_xor s a) (bit_xor t b) (bit_xor-lt 32 s a hs (omega arith))
      (bit_xor-lt 32 t b ht (omega arith))
      (sym (table_step-rounds s a ha) ∙ e ∙ table_step-rounds t b hb)

-- The same bytes keep distinct states distinct.
pub portable_crc32c_update_injective :
    (s t : ℕ) (bytes : List ℕ)
    → s < 2 ^ 32
    → t < 2 ^ 32
    → IsBytes bytes
    → portable_crc32c_update s bytes ≡ portable_crc32c_update t bytes
    → s ≡ t
unfolding portable_crc32c_update
portable_crc32c_update_injective s t [] hs ht h e = e
portable_crc32c_update_injective s t (b ∷ bytes) hs ht h e = bit_xor_cancel s t b (
    step_sources s t b b hs ht h.0 h.0 (
      portable_crc32c_update_injective (table_step s b) (table_step t b) bytes
        (table_step-lt s b hs h.0) (table_step-lt t b ht h.0) h.1 e))

after_step :
    (s a : ℕ) (before after : List ℕ)
    → portable_crc32c_update s (before ++ a ∷ after)
      ≡ portable_crc32c_update (table_step (portable_crc32c_update s before) a) after
unfolding portable_crc32c_update
after_step s a before after = portable_crc32c_update-append s before (a ∷ after)

-- Two messages that differ in exactly one byte, wherever it stands, have different checksums.
pub checksum_detects_byte :
    (before after : List ℕ) (a b : ℕ)
    → IsBytes before
    → IsBytes after
    → IsByte a
    → IsByte b
    → a ≢ b
    → checksum (before ++ a ∷ after) ≢ checksum (before ++ b ∷ after)
unfolding checksum
checksum_detects_byte before after a b hbefore hafter ha hb differ same =
    let s = portable_crc32c_update initial_state before in
    let fits : s < 2 ^ 32 = portable_crc32c_update-lt initial_state before (omega arith) hbefore in
    let states : table_step s a ≡ table_step s b =
      portable_crc32c_update_injective (table_step s a) (table_step s b) after
        (table_step-lt s a fits ha) (table_step-lt s b fits hb) hafter
        (sym (after_step initial_state a before after)
          ∙ bit_xor_cancel _ _ 0xffffffff same
          ∙ after_step initial_state b before after) in
    differ (
      bit_xor_cancel a b s
        (bit_xor_comm a s ∙ step_sources s s a b fits fits ha hb states ∙ bit_xor_comm s b))
