-- ===== src/Utf8/Encoding/Rounds.antt =====
-- The continuation bytes of one round of `valid_utf8`.
use shibori_engine.Base.{
  ℕ, zero, suc, ◌+◌, ◌-◌, ◌/◌, ◌^◌, ◌<◌, ◌≡◌, refl, ap, arith, inl, inr, Bool, true, false, ltb,
  if◌then◌else◌, none, some, List, ◌++◌, length, length-append, IsBytes, Bool-cases, Option-cases,
}
use shibori_engine.Utf8.{continuations, refused_codepoint, multibyte}
use shibori_engine.Utf8.Encoding.{tail, Fits, continuations-tail, continuations-accepted}

pub length-tail : (n c : ℕ) → length (tail n c) ≡ n
length-tail zero c = refl
length-tail (suc n) c = ap suc (length-tail n c)

pub multibyte-encoded :
    (count c : ℕ) (rest : List ℕ)
    → 0 < count
    → Fits (count - 1) (c / 64 ^ (count - 1))
    → refused_codepoint count c ≡ false
    → multibyte count (c / 64 ^ (count - 1)) (tail (count - 1) c ++ rest) ≡ some count
unfolding multibyte
multibyte-encoded count c rest positive fits accepted =
    let enough : ltb (length (tail (count - 1) c ++ rest) + 1) count ≡ false =
      ground (arith, length-append (tail (count - 1) c) rest, length-tail (count - 1) c) in
    rw (enough, continuations-tail (count - 1) c rest fits, accepted) refl

-- What a sequence that is accepted holds.
abbrev pub IsSequence : ℕ → ℕ → List ℕ → ℕ → Type 0
IsSequence count codepoint bytes k =
    (c : ℕ) × (rest : List ℕ) × (bytes ≡ tail (count - 1) c ++ rest)
    × (c / 64 ^ (count - 1) ≡ codepoint)
    × (refused_codepoint count c ≡ false)
    × (k ≡ count)

pub multibyte-accepted :
    (count codepoint : ℕ) (bytes : List ℕ) (k : ℕ)
    → IsBytes bytes
    → Fits (count - 1) codepoint
    → multibyte count codepoint bytes ≡ some k
    → IsSequence count codepoint bytes k
unfolding multibyte
multibyte-accepted count codepoint bytes k all fits h =
    elim (Bool-cases (ltb (length bytes + 1) count)) [
      | inl short ↦ absurd (none_some (rw short at h))
      | inr enough ↦ elim (Option-cases (continuations (count - 1) bytes codepoint)) [
        | inl stopped ↦ absurd (none_some (rw (enough, stopped) at h))
        | inr (c, went) ↦
            let (rest, same, digits) =
              continuations-accepted (count - 1) bytes codepoint c all fits went in
            let (accepted, counted) = kept (refused_codepoint count c) (rw (enough, went) at h) in
            (c, rest, same, digits, accepted, counted)
      ]
    ]
  where
    none_some : {a : ℕ} → none ≡ some a → ⊥
    none_some h = cc

    kept : (r : Bool) → (if r then none else some count) ≡ some k → (r ≡ false) × (k ≡ count)
    kept true h = absurd (cc)
    kept false h = (refl, cc)
