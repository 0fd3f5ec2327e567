-- ===== src/Utf8.antt =====
-- src/schema.cpp and src/block.cpp: `valid_utf8`, which both files define alike. `index` only moves
-- forward, so a round of the loop has the bytes from `index` on.
pub mod Encoding
pub mod Decision
pub mod Tests
use shibori_engine.Base.{
  ℕ, zero, suc, ◌+◌, ◌-◌, ◌*◌, ◌%◌, ◌^◌, bit_and, bit_or, Bool, true, false, ◌&&◌, ◌||◌, ltb, leb,
  ◌==◌, ◌!=◌, if◌then◌else◌, Option, none, some, List, [], ◌∷◌, length, drop, ◌<<<◌,
}

-- The loop on `offset`. The caller has checked that the bytes are there.
abbrev pub continuations : ℕ → List ℕ → ℕ → Option ℕ
continuations zero bytes codepoint = some codepoint
continuations (suc n) [] codepoint = none
continuations (suc n) (byte ∷ bytes) codepoint =
    let later = continuations n bytes (bit_or ((codepoint <<< 6) % 2 ^ 32) (bit_and byte 0x3f)) in
    if bit_and byte 0xc0 != 0x80 then none else later

abbrev pub overlong : ℕ → ℕ → Bool
overlong count codepoint =
    ((count == 2) && ltb codepoint 0x80)
    || ((count == 3) && ltb codepoint 0x800)
    || ((count == 4) && ltb codepoint 0x10000)

unfoldable pub refused_codepoint : ℕ → ℕ → Bool
refused_codepoint count codepoint =
    overlong count codepoint
    || ltb 0x10ffff codepoint
    || (leb 0xd800 codepoint && leb codepoint 0xdfff)

-- The sequence of `count` bytes whose first has the bits `codepoint`.
unfoldable pub multibyte : ℕ → ℕ → List ℕ → Option ℕ
unfolding refused_codepoint
multibyte count codepoint bytes =
    if ltb (length bytes + 1) count
    then none
    else elim (continuations (count - 1) bytes codepoint) [
      | none ↦ none
      | some value ↦ if refused_codepoint count value then none else some count
    ]

-- How far a round moves `index`, where it does not return false.
unfoldable pub round_count : ℕ → List ℕ → Option ℕ
unfolding multibyte
round_count first bytes =
    if leb first 0x7f
    then some 1
    else if bit_and first 0xe0 == 0xc0
    then multibyte 2 (bit_and first 0x1f) bytes
    else if bit_and first 0xf0 == 0xe0
    then multibyte 3 (bit_and first 0x0f) bytes
    else if bit_and first 0xf8 == 0xf0
    then multibyte 4 (bit_and first 0x07) bytes
    else none

abbrev pub valid_rounds : ℕ → List ℕ → Bool
valid_rounds fuel [] = true
valid_rounds zero (first ∷ bytes) = false
valid_rounds (suc fuel) (first ∷ bytes) = elim (round_count first bytes) [
  | none ↦ false
  | some count ↦ valid_rounds fuel (drop count (first ∷ bytes))
]

-- Every round moves `index`, so there are at most as many as bytes.
unfoldable pub valid_utf8 : List ℕ → Bool
unfolding round_count
valid_utf8 bytes = valid_rounds (length bytes) bytes
