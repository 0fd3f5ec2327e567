-- ===== src/Utf8/Encoding/Accepted.antt =====
-- One round of `valid_utf8`: it accepts the encodings of the scalar values, and nothing else.
use shibori_engine.Base.{
  ℕ, ◌+◌, ◌-◌, ◌/◌, ◌^◌, ◌≤◌, ◌<◌, ◌≡◌, refl, sym, ap, ap₂, ◌∙◌, arith, inl, inr, false, ltb, none,
  some, List, [], ◌∷◌, ◌++◌, length, IsBytes, Bool-cases, le→ltb_false, lt→ltb, ltb→lt,
  ltb_false→le,
}
use shibori_engine.Utf8.Encoding.Leads.{
  lead_one, lead_two, lead_three, lead_four, lead_stray, lead_beyond,
}
use shibori_engine.Utf8.{overlong, refused_codepoint, round_count}
use shibori_engine.Utf8.Encoding.{IsScalar, tail, encode, some_same}
use shibori_engine.Utf8.Encoding.Rounds.{length-tail, multibyte-accepted, IsSequence}

refused_codepoint-IsScalar : (count c : ℕ) → refused_codepoint count c ≡ false → IsScalar c
unfolding refused_codepoint
refused_codepoint-IsScalar count c h = elim (Bool-cases (ltb c 0xd800)) [
  | inl low ↦ inl (ltb→lt c 0xd800 low)
  | inr high ↦ inr (ground (arith, h, high), ground (arith, h))
]

pub accepted_of :
    (count c : ℕ) → IsScalar c → overlong count c ≡ false → refused_codepoint count c ≡ false
unfolding refused_codepoint
accepted_of count c (inl low) h = ground arith
accepted_of count c (inr high) h = ground arith

-- The encoding of a scalar value, by the count of its bytes.
abbrev pub IsEncoding : ℕ → List ℕ → ℕ → Type 0
IsEncoding first bytes count =
    (c : ℕ) × (rest : List ℕ) × IsScalar c
    × (first ∷ bytes ≡ encode c ++ rest)
    × (count ≡ length (encode c))

pub encode_two : (c : ℕ) → 0x80 ≤ c → c < 0x800 → encode c ≡ (0xc0 + c / 64) ∷ tail 1 c
unfolding encode
encode_two c low high = rw (le→ltb_false c 0x80 low, lt→ltb c 0x800 high) refl

pub encode_three : (c : ℕ) → 0x800 ≤ c → c < 0x10000 → encode c ≡ (0xe0 + c / 64 ^ 2) ∷ tail 2 c
unfolding encode
encode_three c low high =
    rw (le→ltb_false c 0x80 (omega arith), le→ltb_false c 0x800 low, lt→ltb c 0x10000 high) refl

pub encode_four : (c : ℕ) → 0x10000 ≤ c → encode c ≡ (0xf0 + c / 64 ^ 3) ∷ tail 3 c
unfolding encode
encode_four c low =
    rw
      (
        le→ltb_false c 0x80 (omega arith),
        le→ltb_false c 0x800 (omega arith),
        le→ltb_false c 0x10000 low,
      )
      refl

pub encode_one : (c : ℕ) → c < 0x80 → encode c ≡ c ∷ []
unfolding encode
encode_one c h = rw (lt→ltb c 0x80 h) refl

sequence-IsEncoding :
    (first base count : ℕ) (bytes : List ℕ) (k : ℕ)
    → 0 < count
    → base ≤ first
    → ((c : ℕ)
        → c / 64 ^ (count - 1) ≡ first - base
        → refused_codepoint count c ≡ false
        → encode c ≡ (base + c / 64 ^ (count - 1)) ∷ tail (count - 1) c)
    → IsSequence count (first - base) bytes k
    → IsEncoding first bytes k
sequence-IsEncoding first base count bytes k positive above encoded
      (c, rest, same, digits, accepted, counted) =
    let e = encoded c digits accepted in
    let head : first ≡ base + c / 64 ^ (count - 1) = omega (arith, digits, above) in
    (
      c,
      rest,
      refused_codepoint-IsScalar count c accepted,
      ap₂ ◌∷◌ head same ∙ ap (λ (bs : List ℕ). bs ++ rest) (sym e),
      omega (arith, counted, ap length e, length-tail (count - 1) c),
    )

refused_unless : {k : ℕ} → none ≡ some k → ⊥
refused_unless h = cc

in_two :
    (c d : ℕ)
    → c / 64 ≡ d
    → d < 0x20
    → refused_codepoint 2 c ≡ false
    → encode c ≡ (0xc0 + c / 64) ∷ tail 1 c
unfolding refused_codepoint
in_two c d digits small accepted = encode_two c (ground (arith, accepted)) (omega arith)

in_three :
    (c d : ℕ)
    → c / 64 ^ 2 ≡ d
    → d < 0x10
    → refused_codepoint 3 c ≡ false
    → encode c ≡ (0xe0 + c / 64 ^ 2) ∷ tail 2 c
unfolding refused_codepoint
in_three c d digits small accepted = encode_three c (ground (arith, accepted)) (omega arith)

in_four : (c : ℕ) → refused_codepoint 4 c ≡ false → encode c ≡ (0xf0 + c / 64 ^ 3) ∷ tail 3 c
unfolding refused_codepoint
in_four c accepted = encode_four c (ground (arith, accepted))

pub round_count-IsEncoding :
    (first : ℕ) (bytes : List ℕ) (k : ℕ)
    → IsBytes (first ∷ bytes)
    → round_count first bytes ≡ some k
    → IsEncoding first bytes k
round_count-IsEncoding first bytes k all h = elim (Bool-cases (ltb first 0x80)) [
  | inl low ↦
      let below = ltb→lt first 0x80 low in
      let one = encode_one first below in
      (
        first,
        bytes,
        inl (omega arith),
        ap (λ (bs : List ℕ). bs ++ bytes) (sym one),
        sym (some_same (sym (lead_one first bytes all.0 below) ∙ h)) ∙ ap length (sym one),
      )
  | inr high ↦ elim (Bool-cases (ltb first 0xc0)) [
    | inl stray ↦ absurd (
        refused_unless (
          sym
            (lead_stray first bytes all.0 (ltb_false→le first 0x80 high) (ltb→lt first 0xc0 stray))
          ∙ h))
    | inr high ↦ elim (Bool-cases (ltb first 0xe0)) [
      | inl two ↦
          let below = ltb→lt first 0xe0 two in
          let above = ltb_false→le first 0xc0 high in
          sequence-IsEncoding first 0xc0 2 bytes k (omega arith) above
            (λ c digits accepted. in_two c (first - 0xc0) digits (omega arith) accepted)
            (multibyte-accepted 2 (first - 0xc0) bytes k all.1 (omega arith)
              (sym (lead_two first bytes all.0 above below) ∙ h))
      | inr high ↦ elim (Bool-cases (ltb first 0xf0)) [
        | inl three ↦
            let below = ltb→lt first 0xf0 three in
            let above = ltb_false→le first 0xe0 high in
            sequence-IsEncoding first 0xe0 3 bytes k (omega arith) above
              (λ c digits accepted. in_three c (first - 0xe0) digits (omega arith) accepted)
              (multibyte-accepted 3 (first - 0xe0) bytes k all.1 (omega arith)
                (sym (lead_three first bytes all.0 above below) ∙ h))
        | inr high ↦ elim (Bool-cases (ltb first 0xf8)) [
          | inl four ↦
              let below = ltb→lt first 0xf8 four in
              let above = ltb_false→le first 0xf0 high in
              sequence-IsEncoding first 0xf0 4 bytes k (omega arith) above
                (λ c digits accepted. in_four c accepted)
                (multibyte-accepted 4 (first - 0xf0) bytes k all.1 (omega arith)
                  (sym (lead_four first bytes all.0 above below) ∙ h))
          | inr beyond ↦ absurd (
              refused_unless
                (sym (lead_beyond first bytes all.0 (ltb_false→le first 0xf8 beyond)) ∙ h))
        ]
      ]
    ]
  ]
]
