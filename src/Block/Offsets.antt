-- ===== src/Block/Offsets.antt =====
-- The offsets of a checked variable-width column, and the values that they cut the payload into.
use shibori_engine.Base.{
  not-false, ℕ, zero, suc, ◌+◌, ◌-◌, ◌≤◌, ◌<◌, ◌≡◌, refl, ap, ◌∙◌, arith, true, not, ltb, List, [],
  ◌∷◌, ◌++◌, length, take, drop, take-take-drop, length-take, length-drop, byte_at,
}
use shibori_engine.Error.{ok, fail_if, >>-eq-ok, fail_if-passed}
use shibori_engine.Resource.Limits.{ResourceLimits}
use shibori_engine.Utf8.{valid_utf8}
use shibori_engine.Schema.Field.{Field}
use shibori_engine.Block.Checks.{check_offsets, last_offset, check_strings, subspan}

-- From the offset before them on, offsets that rise in steps of at most `most` to `size`.
abbrev pub Rises : ℕ → ℕ → List ℕ → ℕ → Type 0
Rises most previous [] size = previous ≡ size
Rises most previous (offset ∷ offsets) size =
    (previous ≤ offset) × (offset - previous ≤ most) × Rises most offset offsets size

pub check_offsets-Rises :
    (limits : ResourceLimits) (field : Field) (previous : ℕ) (offsets : List ℕ) {u : Unit {0}}
    → check_offsets limits field previous offsets ≡ ok u
    → Rises limits.maximum_record_bytes previous offsets (last_offset previous offsets)
check_offsets-Rises limits field previous [] h = refl
check_offsets-Rises limits field previous (offset ∷ offsets) h =
    let ((u, rising), rest) = >>-eq-ok (fail_if (ltb offset previous) _) _ h in
    let ((v, fitting), later) =
      >>-eq-ok (fail_if (ltb limits.maximum_record_bytes (offset - previous)) _) _ rest in
    let no_fall = fail_if-passed (ltb offset previous) _ rising in
    let no_excess =
      fail_if-passed (ltb limits.maximum_record_bytes (offset - previous)) _ fitting in
    (
      ground (arith, no_fall),
      ground (arith, no_excess),
      check_offsets-Rises limits field offset offsets later,
    )

Rises-le :
    (most previous : ℕ) (offsets : List ℕ) (size : ℕ)
    → Rises most previous offsets size
    → previous ≤ size
Rises-le most previous [] size h = omega (arith, h)
Rises-le most previous (offset ∷ offsets) size h =
    omega (arith, h.0, Rises-le most offset offsets size h.2)

-- Two neighbouring offsets.
pub Rises-at :
    (most previous : ℕ) (offsets : List ℕ) (size n : ℕ)
    → Rises most previous offsets size
    → n < length offsets
    → (byte_at (previous ∷ offsets) n ≤ byte_at offsets n)
      × (byte_at offsets n - byte_at (previous ∷ offsets) n ≤ most)
      × (byte_at offsets n ≤ size)
Rises-at most previous [] size n h below = absurd (omega arith)
Rises-at most previous (offset ∷ offsets) size zero h below =
    (h.0, h.1, Rises-le most offset offsets size h.2)
Rises-at most previous (offset ∷ offsets) size (suc n) h below =
    Rises-at most offset offsets size n h.2 (omega arith)

pub Rises-last :
    (most previous : ℕ) (offsets : List ℕ) (size : ℕ)
    → Rises most previous offsets size
    → byte_at (previous ∷ offsets) (length offsets) ≡ size
Rises-last most previous [] size h = h
Rises-last most previous (offset ∷ offsets) size h = Rises-last most offset offsets size h.2

-- The first values together are the payload up to their end.
pub take-subspan :
    (payload : List ℕ) (begin end : ℕ)
    → begin ≤ end
    → take begin payload ++ subspan payload begin end ≡ take end payload
take-subspan payload begin end h =
    let whole : begin + (end - begin) ≡ end = omega arith in
    take-take-drop begin (end - begin) payload ∙ ap (λ (n : ℕ). take n payload) whole

pub length-subspan :
    (payload : List ℕ) (begin end : ℕ)
    → end ≤ length payload
    → length (subspan payload begin end) ≡ end - begin
length-subspan payload begin end h =
    omega (arith, length-take (end - begin) (drop begin payload), length-drop begin payload)

pub check_strings-valid :
    (field : Field) (payload : List ℕ) (previous : ℕ) (offsets : List ℕ) (n : ℕ) {u : Unit {0}}
    → check_strings field payload previous offsets ≡ ok u
    → n < length offsets
    → valid_utf8 (subspan payload (byte_at (previous ∷ offsets) n) (byte_at offsets n)) ≡ true
check_strings-valid field payload previous [] n h below = absurd (omega arith)
check_strings-valid field payload previous (offset ∷ offsets) zero h below =
    let ((u, valid), rest) =
      >>-eq-ok (fail_if (not (valid_utf8 (subspan payload previous offset))) _) _ h in
    not-false _ (fail_if-passed (not (valid_utf8 (subspan payload previous offset))) _ valid)
check_strings-valid field payload previous (offset ∷ offsets) (suc n) h below =
    let ((u, valid), rest) =
      >>-eq-ok (fail_if (not (valid_utf8 (subspan payload previous offset))) _) _ h in
    check_strings-valid field payload offset offsets n rest (omega arith)
