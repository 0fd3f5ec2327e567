-- ===== src/Format/Buffer.antt =====
-- Fixed output arrays and the prefixes that readers compare: `write_bytes` of
-- src/format/record.cpp, and the loops over the magic of src/format/preamble.cpp.
use shibori_engine.Base.{
  ℕ, zero, suc, ◌+◌, ◌≤◌, ◌≡◌, ◌≢◌, refl, sym, ap, ◌∙◌, Bool, true, false, ◌&&◌, ◌==◌, List, [],
  ◌∷◌, length, take, drop, length-take, length-drop, All-take, All-drop, IsByte, IsBytes,
  little_endian, to_little_endian, to_little_endian-little_endian, arith,
}

-- `std::copy` to the front of an array; what does not fit is dropped.
abbrev pub overwrite : List ℕ → List ℕ → List ℕ
overwrite [] bytes = []
overwrite (o ∷ output) [] = o ∷ output
overwrite (o ∷ output) (b ∷ bytes) = b ∷ overwrite output bytes

-- `std::copy(bytes.begin(), bytes.end(), output.begin() + offset)`
abbrev pub write_bytes : List ℕ → ℕ → List ℕ → List ℕ
write_bytes output zero bytes = overwrite output bytes
write_bytes [] (suc offset) bytes = []
write_bytes (o ∷ output) (suc offset) bytes = o ∷ write_bytes output offset bytes

-- Whether each byte of the constant stands at its index.
abbrev pub starts_with : List ℕ → List ℕ → Bool
starts_with [] bytes = true
starts_with (m ∷ magic) [] = false
starts_with (m ∷ magic) (b ∷ bytes) = (b == m) && starts_with magic bytes

pub starts_with-take :
    (magic bytes : List ℕ) → starts_with magic bytes ≡ true → take (length magic) bytes ≡ magic
starts_with-take [] bytes h = refl
starts_with-take (m ∷ magic) [] h = cc
starts_with-take (m ∷ magic) (b ∷ bytes) h = ground (arith, starts_with-take magic bytes)

pub starts_with-false :
    (magic bytes : List ℕ) → starts_with magic bytes ≡ false → take (length magic) bytes ≢ magic
starts_with-false [] bytes h e = cc
starts_with-false (m ∷ magic) [] h e = cc
starts_with-false (m ∷ magic) (b ∷ bytes) h e = ground (arith, starts_with-false magic bytes)

-- The bytes `[offset, offset + size)` of a span.
abbrev pub field_at : ℕ → ℕ → List ℕ → List ℕ
field_at offset size bytes = take size (drop offset bytes)

pub length-field_at :
    (offset size : ℕ) (bytes : List ℕ)
    → offset + size ≤ length bytes
    → length (field_at offset size bytes) ≡ size
length-field_at offset size bytes h =
    omega (arith, length-take size (drop offset bytes), length-drop offset bytes)

pub field_at-IsBytes :
    (offset size : ℕ) (bytes : List ℕ) → IsBytes bytes → IsBytes (field_at offset size bytes)
field_at-IsBytes offset size bytes h =
    All-take IsByte size (drop offset bytes) (All-drop IsByte offset bytes h)

-- A field of a span holds the digits of the number read from it.
pub field_digits :
    (offset size : ℕ) (bytes : List ℕ)
    → IsBytes bytes
    → offset + size ≤ length bytes
    → to_little_endian size (little_endian (field_at offset size bytes))
      ≡ field_at offset size bytes
field_digits offset size bytes h fits =
    let field = field_at offset size bytes in
    ap (λ (n : ℕ). to_little_endian n (little_endian field))
      (sym (length-field_at offset size bytes fits))
    ∙ to_little_endian-little_endian field (field_at-IsBytes offset size bytes h)
