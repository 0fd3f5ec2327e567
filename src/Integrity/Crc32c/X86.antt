-- ===== src/Integrity/Crc32c/X86.antt =====
-- The x86 update against the portable one, from what the processor's manual says of the two
-- instructions.
use shibori_engine.Base.{
  ℕ, zero, suc, ◌+◌, ◌*◌, ◌^◌, ◌≤◌, ◌<◌, bit_xor, ◌≡◌, refl, sym, ap, ◌∙◌, inl, inr, arith, ltb,
  ltb_false→le, Bool-cases, List, [], ◌∷◌, length, take, drop, take-append-drop, length-take,
  All-take, All-drop, IsByte, IsBytes, little_endian, little_endian-lt,
}
use native.Mathlib.Nat.{mod-eq_of_lt}
use shibori_engine.Base.Xor.{bit_xor_assoc, bit_xor-zero, bit_xor_shifted}
use shibori_engine.Integrity.Crc32c.{
  Backend, bit_rounds, portable_crc32c_update, wide_loop, narrow_loop, x86_crc32c_update,
  table_step,
}
use shibori_engine.Integrity.Crc32c.Linear.{bit_rounds-bit_xor, bit_rounds_add}
use shibori_engine.Integrity.Crc32c.Table.{
  table_step-rounds, table_step-lt, portable_crc32c_update-by_bits, crc32c_by_bits,
  portable_crc32c_update-lt,
}
use shibori_engine.Integrity.Crc32c.Hashing.{portable_crc32c_update-append}

-- The documented behaviour: each instruction adds its operand to the accumulator and shifts the
-- operand's bits out through the reflected polynomial.
pub record IsCrc32cBackend (backend : Backend) : Type 0 where
  pub u8_rounds :
      (s b : ℕ) → s < 2 ^ 32 → b < 2 ^ 8 → backend.crc32_u8 s b ≡ bit_rounds 8 (bit_xor s b)
  pub u64_rounds :
      (s v : ℕ) → s < 2 ^ 32 → v < 2 ^ 64 → backend.crc32_u64 s v ≡ bit_rounds 64 (bit_xor s v)

-- Rounds over a whole little-endian number are rounds over its bytes in turn.
bit_rounds-little_endian :
    (s : ℕ) (bytes : List ℕ)
    → IsBytes bytes
    → bit_rounds (length bytes * 8) (bit_xor s (little_endian bytes)) ≡ crc32c_by_bits s bytes
unfolding bit_rounds
bit_rounds-little_endian s [] h = bit_xor-zero s
bit_rounds-little_endian s (b ∷ bytes) h =
    let v = little_endian bytes in
    let split : b + 256 * v ≡ bit_xor b (v * 2 ^ 8) = omega (arith, bit_xor_shifted 8 b v h.0) in
    let count : suc (length bytes) * 8 ≡ 8 + length bytes * 8 = omega arith in
    ap (λ (t : ℕ). bit_rounds t (bit_xor s (b + 256 * v))) count
    ∙ bit_rounds_add 8 (length bytes * 8) (bit_xor s (b + 256 * v))
    ∙ ap (λ (t : ℕ). bit_rounds (length bytes * 8) (bit_rounds 8 t))
        (ap (bit_xor s) split ∙ sym (bit_xor_assoc s b (v * 2 ^ 8)))
    ∙ ap (bit_rounds (length bytes * 8)) (bit_rounds-bit_xor 8 (bit_xor s b) v)
    ∙ bit_rounds-little_endian (bit_rounds 8 (bit_xor s b)) bytes h.1

module _ (backend : Backend) (documented : IsCrc32cBackend backend) where
  narrow_loop-portable :
      (s : ℕ) (bytes : List ℕ)
      → s < 2 ^ 32
      → IsBytes bytes
      → narrow_loop backend s bytes ≡ portable_crc32c_update s bytes
  unfolding narrow_loop portable_crc32c_update
  narrow_loop-portable s [] hs h = refl
  narrow_loop-portable s (b ∷ bytes) hs h =
      let step : backend.crc32_u8 s b ≡ table_step s b =
        documented.u8_rounds s b hs h.0 ∙ sym (table_step-rounds s b h.0) in
      rw step (narrow_loop-portable (table_step s b) bytes (table_step-lt s b hs h.0) h.1)

  wide_step :
      (s : ℕ) (bytes : List ℕ)
      → s < 2 ^ 32
      → IsBytes bytes
      → 8 ≤ length bytes
      → backend.crc32_u64 s (little_endian (take 8 bytes)) ≡ portable_crc32c_update s (take 8 bytes)
  wide_step s bytes hs h long =
      let word = take 8 bytes in
      let is_bytes = All-take IsByte 8 bytes h in
      let len : length word ≡ 8 = length-take 8 bytes ∙ omega arith in
      let fits : little_endian word < 2 ^ 64 =
        omega (arith, little_endian-lt word is_bytes, ap (λ (n : ℕ). 256 ^ n) len) in
      documented.u64_rounds s (little_endian word) hs fits
      ∙ ap (λ (n : ℕ). bit_rounds (n * 8) (bit_xor s (little_endian word))) (sym len)
      ∙ bit_rounds-little_endian s word is_bytes
      ∙ sym (portable_crc32c_update-by_bits s word is_bytes)

  -- The wide loop leaves the state and the bytes from which the portable update goes on.
  wide_loop-portable :
      (fuel s : ℕ) (bytes : List ℕ)
      → s < 2 ^ 32
      → IsBytes bytes
      → ((wide_loop backend fuel s bytes).0 < 2 ^ 32)
        × IsBytes (wide_loop backend fuel s bytes).1
        × (portable_crc32c_update
              (wide_loop backend fuel s bytes).0
              (wide_loop backend fuel s bytes).1
            ≡ portable_crc32c_update s bytes)
  unfolding wide_loop
  wide_loop-portable zero s bytes hs h = (hs, h, refl)
  wide_loop-portable (suc fuel) s bytes hs h = elim (Bool-cases (ltb (length bytes) 8)) [
    | inl short ↦ rw short (hs, h, refl)
    | inr long ↦
        let next = portable_crc32c_update s (take 8 bytes) in
        let rest =
          wide_loop-portable fuel next (drop 8 bytes)
            (portable_crc32c_update-lt s (take 8 bytes) hs (All-take IsByte 8 bytes h))
            (All-drop IsByte 8 bytes h) in
        rw (long, wide_step s bytes hs h (ltb_false→le _ _ long))
          (
            rest.0,
            rest.1,
            rest.2
                ∙ sym (portable_crc32c_update-append s (take 8 bytes) (drop 8 bytes))
                ∙ ap (portable_crc32c_update s) (take-append-drop 8 bytes),
          )
  ]

  -- On a processor whose instructions do what its manual says, the x86 update computes what the
  -- portable one computes, on any bytes and any 32-bit state.
  pub x86_crc32c_update-portable :
      (s : ℕ) (bytes : List ℕ)
      → s < 2 ^ 32
      → IsBytes bytes
      → x86_crc32c_update backend s bytes ≡ portable_crc32c_update s bytes
  unfolding x86_crc32c_update
  x86_crc32c_update-portable s bytes hs h =
      let wide = wide_loop-portable (length bytes) s bytes hs h in
      rw (mod-eq_of_lt wide.0) (narrow_loop-portable _ _ wide.0 wide.1 ∙ wide.2)
