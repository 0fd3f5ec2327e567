-- ===== src/Utf8/Decision.antt =====
-- `valid_utf8` of src/schema.cpp and src/block.cpp decides UTF-8.
use shibori_engine.Base.{
  ℕ, zero, suc, ◌+◌, ◌-◌, ◌/◌, ◌^◌, ◌≤◌, ◌<◌, ◌≡◌, refl, sym, ap, ◌∙◌, ◌↔◌, arith, inl, inr, true,
  false, ltb, some, List, [], ◌∷◌, ◌++◌, length, drop, drop-append, drop-append_at, length-append,
  All, All-drop, IsByte, IsBytes, Bool-cases, Option-cases, ltb→lt, ltb_false→le,
}
use shibori_engine.Utf8.{multibyte, round_count, valid_rounds, valid_utf8, overlong}
use shibori_engine.Utf8.Encoding.{IsScalar, tail, encode, encode_all, Fits}
use shibori_engine.Utf8.Encoding.Leads.{lead_one, lead_two, lead_three, lead_four}
use shibori_engine.Utf8.Encoding.Rounds.{length-tail, multibyte-encoded}
use shibori_engine.Utf8.Encoding.Accepted.{
  round_count-IsEncoding, encode_one, encode_two, encode_three, encode_four, accepted_of,
}

-- The bytes of an encoding, and the round that goes past them.
abbrev IsRound : ℕ → List ℕ → Type 0
IsRound c rest =
    (first : ℕ) × (bytes : List ℕ) × (encode c ++ rest ≡ first ∷ bytes)
    × (round_count first bytes ≡ some (length (encode c)))

multibyte-IsRound :
    (c first count : ℕ) (rest : List ℕ)
    → 0 < count
    → encode c ≡ first ∷ tail (count - 1) c
    → Fits (count - 1) (c / 64 ^ (count - 1))
    → IsScalar c
    → overlong count c ≡ false
    → round_count first (tail (count - 1) c ++ rest)
      ≡ multibyte count (c / 64 ^ (count - 1)) (tail (count - 1) c ++ rest)
    → IsRound c rest
multibyte-IsRound c first count rest positive encoded fits scalar shortest round =
    let size : count ≡ length (encode c) =
      omega (arith, ap length encoded, length-tail (count - 1) c) in
    (
      first,
      tail (count - 1) c ++ rest,
      ap (λ (bs : List ℕ). bs ++ rest) encoded,
      round
          ∙ multibyte-encoded count c rest positive fits (accepted_of count c scalar shortest)
          ∙ ap some size,
    )

below_top : (c : ℕ) → IsScalar c → c < 0x110000
below_top c (inl low) = omega arith
below_top c (inr high) = high.1

encode-IsRound : (c : ℕ) (rest : List ℕ) → IsScalar c → IsRound c rest
encode-IsRound c rest scalar = elim (Bool-cases (ltb c 0x80)) [
  | inl low ↦
      let below = ltb→lt c 0x80 low in
      let one = encode_one c below in
      (
        c,
        rest,
        ap (λ (bs : List ℕ). bs ++ rest) one,
        lead_one c rest (omega arith) below ∙ ap some (sym (ap length one)),
      )
  | inr high ↦ elim (Bool-cases (ltb c 0x800)) [
    | inl two ↦
        let above = ltb_false→le c 0x80 high in
        let below = ltb→lt c 0x800 two in
        let first = 0xc0 + c / 64 in
        let digits : first - 0xc0 ≡ c / 64 ^ 1 = omega arith in
        multibyte-IsRound c first 2 rest (omega arith) (encode_two c above below) (omega arith)
          scalar (ground arith)
          (lead_two first (tail 1 c ++ rest) (omega arith) (omega arith) (omega arith)
            ∙ ap (λ (d : ℕ). multibyte 2 d (tail 1 c ++ rest)) digits)
    | inr high ↦ elim (Bool-cases (ltb c 0x10000)) [
      | inl three ↦
          let above = ltb_false→le c 0x800 high in
          let below = ltb→lt c 0x10000 three in
          let first = 0xe0 + c / 64 ^ 2 in
          let digits : first - 0xe0 ≡ c / 64 ^ 2 = omega arith in
          multibyte-IsRound c first 3 rest (omega arith) (encode_three c above below) (omega arith)
            scalar (ground arith)
            (lead_three first (tail 2 c ++ rest) (omega arith) (omega arith) (omega arith)
              ∙ ap (λ (d : ℕ). multibyte 3 d (tail 2 c ++ rest)) digits)
      | inr four ↦
          let above = ltb_false→le c 0x10000 four in
          let below = below_top c scalar in
          let first = 0xf0 + c / 64 ^ 3 in
          let digits : first - 0xf0 ≡ c / 64 ^ 3 = omega arith in
          multibyte-IsRound c first 4 rest (omega arith) (encode_four c above) (omega arith) scalar
            (ground arith)
            (lead_four first (tail 3 c ++ rest) (omega arith) (omega arith) (omega arith)
              ∙ ap (λ (d : ℕ). multibyte 4 d (tail 3 c ++ rest)) digits)
    ]
  ]
]

encode_nonempty : (c : ℕ) → 0 < length (encode c)
unfolding encode
encode_nonempty c = ground arith

valid_rounds-encode_all :
    (scalars : List ℕ) (fuel : ℕ)
    → All IsScalar scalars
    → length (encode_all scalars) ≤ fuel
    → valid_rounds fuel (encode_all scalars) ≡ true
valid_rounds-encode_all [] fuel all enough = refl
valid_rounds-encode_all (c ∷ scalars) zero all enough =
    absurd (omega (arith, encode_nonempty c, length-append (encode c) (encode_all scalars)))
valid_rounds-encode_all (c ∷ scalars) (suc fuel) all enough =
    let (first, bytes, same, round) = encode-IsRound c (encode_all scalars) all.0 in
    let rest =
      ap (drop (length (encode c))) (sym same) ∙ drop-append (encode c) (encode_all scalars) in
    let later =
      valid_rounds-encode_all scalars fuel all.1
        (omega (arith, encode_nonempty c, length-append (encode c) (encode_all scalars))) in
    ap (valid_rounds (suc fuel)) same ∙ rw (round, rest, valid_rounds) later

valid_rounds-encodes :
    (fuel : ℕ) (bytes : List ℕ)
    → IsBytes bytes
    → valid_rounds fuel bytes ≡ true
    → (scalars : List ℕ) × All IsScalar scalars × (bytes ≡ encode_all scalars)
valid_rounds-encodes fuel [] all h = ([], tt, refl)
valid_rounds-encodes zero (first ∷ bytes) all h = absurd (cc)
valid_rounds-encodes (suc fuel) (first ∷ bytes) all h =
    elim (Option-cases (round_count first bytes)) [
      | inl stopped ↦ absurd (not_true (rw (stopped, valid_rounds) at h))
      | inr (count, round) ↦
          let (c, rest, scalar, same, counted) =
            round_count-IsEncoding first bytes count all round in
          let later = ap (drop count) same ∙ drop-append_at count (encode c) rest (sym counted) in
          let (scalars, all_scalars, encoded) =
            valid_rounds-encodes fuel (drop count (first ∷ bytes))
              (All-drop IsByte count (first ∷ bytes) all) (rw (round, valid_rounds) at h) in
          (
            c ∷ scalars,
            (scalar, all_scalars),
            same ∙ ap (λ (bs : List ℕ). encode c ++ bs) (sym later ∙ encoded),
          )
    ]
  where
    not_true : false ≡ true → ⊥
    not_true e = cc

-- On bytes, `valid_utf8` holds exactly where the bytes are the UTF-8 encoding of some sequence of
-- Unicode scalar values: no surrogate, no value beyond 0x10ffff, and each in its shortest form.
pub valid_utf8-decision :
    (bytes : List ℕ)
    → IsBytes bytes
    → (valid_utf8 bytes ≡ true)
      ↔ ((scalars : List ℕ) × All IsScalar scalars × (bytes ≡ encode_all scalars))
unfolding valid_utf8
valid_utf8-decision bytes all = (
  λ h. valid_rounds-encodes (length bytes) bytes all h,
  λ (encoded : (scalars : List ℕ) × All IsScalar scalars × (bytes ≡ encode_all scalars)).
      let (scalars, all_scalars, same) = encoded in
      ap (valid_rounds (length bytes)) same
      ∙ valid_rounds-encode_all scalars (length bytes) all_scalars (omega (arith, ap length same)),
)
