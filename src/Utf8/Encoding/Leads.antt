-- ===== src/Utf8/Encoding/Leads.antt =====
-- The first byte of a round of `valid_utf8`, by ranges.
use shibori_engine.Base.{
  ℕ, ◌-◌, ◌≤◌, ◌<◌, bit_and, ◌≡◌, refl, arith, true, false, leb, ◌==◌, none, some, List, IsByte,
}
use shibori_engine.Base.Bits.{bit_and_mask}
use shibori_engine.Utf8.{multibyte, round_count}
use shibori_engine.Utf8.Encoding.{top_bits}

module _ (first : ℕ) (bytes : List ℕ) (byte : IsByte first) where
  pub lead_one : first < 0x80 → round_count first bytes ≡ some 1
  unfolding round_count
  lead_one h = let plain : leb first 0x7f ≡ true = ground arith in rw plain refl

  pub lead_two :
      0xc0 ≤ first → first < 0xe0 → round_count first bytes ≡ multibyte 2 (first - 0xc0) bytes
  unfolding round_count
  lead_two low high =
      let plain : leb first 0x7f ≡ false = ground arith in
      let two : (bit_and first 0xe0 == 0xc0) ≡ true = ground (arith, (top_bits first byte).1) in
      let bits : bit_and first 0x1f ≡ first - 0xc0 = omega (arith, bit_and_mask 5 first) in
      rw (plain, two, bits) refl

  pub lead_three :
      0xe0 ≤ first → first < 0xf0 → round_count first bytes ≡ multibyte 3 (first - 0xe0) bytes
  unfolding round_count
  lead_three low high =
      let plain : leb first 0x7f ≡ false = ground arith in
      let two : (bit_and first 0xe0 == 0xc0) ≡ false = ground (arith, (top_bits first byte).1) in
      let three : (bit_and first 0xf0 == 0xe0) ≡ true = ground (arith, (top_bits first byte).2) in
      let bits : bit_and first 0x0f ≡ first - 0xe0 = omega (arith, bit_and_mask 4 first) in
      rw (plain, two, three, bits) refl

  pub lead_four :
      0xf0 ≤ first → first < 0xf8 → round_count first bytes ≡ multibyte 4 (first - 0xf0) bytes
  unfolding round_count
  lead_four low high =
      let plain : leb first 0x7f ≡ false = ground arith in
      let two : (bit_and first 0xe0 == 0xc0) ≡ false = ground (arith, (top_bits first byte).1) in
      let three : (bit_and first 0xf0 == 0xe0) ≡ false = ground (arith, (top_bits first byte).2) in
      let four : (bit_and first 0xf8 == 0xf0) ≡ true = ground (arith, (top_bits first byte).3) in
      let bits : bit_and first 0x07 ≡ first - 0xf0 = omega (arith, bit_and_mask 3 first) in
      rw (plain, two, three, four, bits) refl

  pub lead_stray : 0x80 ≤ first → first < 0xc0 → round_count first bytes ≡ none
  unfolding round_count
  lead_stray low high =
      let plain : leb first 0x7f ≡ false = ground arith in
      let two : (bit_and first 0xe0 == 0xc0) ≡ false = ground (arith, (top_bits first byte).1) in
      let three : (bit_and first 0xf0 == 0xe0) ≡ false = ground (arith, (top_bits first byte).2) in
      let four : (bit_and first 0xf8 == 0xf0) ≡ false = ground (arith, (top_bits first byte).3) in
      rw (plain, two, three, four) refl

  pub lead_beyond : 0xf8 ≤ first → round_count first bytes ≡ none
  unfolding round_count
  lead_beyond low =
      let plain : leb first 0x7f ≡ false = ground arith in
      let two : (bit_and first 0xe0 == 0xc0) ≡ false = ground (arith, (top_bits first byte).1) in
      let three : (bit_and first 0xf0 == 0xe0) ≡ false = ground (arith, (top_bits first byte).2) in
      let four : (bit_and first 0xf8 == 0xf0) ≡ false = ground (arith, (top_bits first byte).3) in
      rw (plain, two, three, four) refl
