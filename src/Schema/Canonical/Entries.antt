-- ===== src/Schema/Canonical/Entries.antt =====
-- Metadata and types in the canonical bytes.
use shibori_engine.Base.{
  ℕ, ◌^◌, ◌<◌, ◌≡◌, refl, sym, ap, ap₂, ◌∙◌, arith, List, [], ◌∷◌, ◌++◌, length, All,
  to_little_endian,
}
use mathlib.Core.List.{append-nil, append_assoc}
use shibori_engine.Schema.Metadata.{Metadata}
use shibori_engine.Schema.Canonical.{append_integer, append_bytes, append_entries, append_metadata}
use shibori_engine.Schema.Canonical.Pieces.{
  append_integer-bytes, same_integer_bytes, sized_bytes, append_bytes-sized, same_sized_bytes,
}

abbrev pub entries_bytes : Metadata → List ℕ
entries_bytes [] = []
entries_bytes (entry ∷ metadata) =
    sized_bytes entry.0 ++ (sized_bytes entry.1 ++ entries_bytes metadata)

append_entries-bytes :
    (output : List ℕ) (metadata : Metadata)
    → append_entries output metadata ≡ output ++ entries_bytes metadata
append_entries-bytes output [] = sym (append-nil output)
append_entries-bytes output (entry ∷ metadata) =
    let both =
      append_bytes-sized (append_bytes output entry.0) entry.1
      ∙ ap (λ (o : List ℕ). o ++ sized_bytes entry.1) (append_bytes-sized output entry.0)
      ∙ append_assoc output (sized_bytes entry.0) (sized_bytes entry.1) in
    append_entries-bytes (append_bytes (append_bytes output entry.0) entry.1) metadata
    ∙ ap (λ (o : List ℕ). o ++ entries_bytes metadata) both
    ∙ append_assoc output (sized_bytes entry.0 ++ sized_bytes entry.1) (entries_bytes metadata)
    ∙ ap (λ (o : List ℕ). output ++ o)
        (append_assoc (sized_bytes entry.0) (sized_bytes entry.1) (entries_bytes metadata))

abbrev pub metadata_bytes : Metadata → List ℕ
metadata_bytes metadata = to_little_endian 8 (length metadata) ++ entries_bytes metadata

pub append_metadata-bytes :
    (output : List ℕ) (metadata : Metadata)
    → append_metadata output metadata ≡ output ++ metadata_bytes metadata
append_metadata-bytes output metadata =
    append_entries-bytes (append_integer 8 output (length metadata)) metadata
    ∙ ap (λ (o : List ℕ). o ++ entries_bytes metadata)
        (append_integer-bytes 8 output (length metadata))
    ∙ append_assoc output (to_little_endian 8 (length metadata)) (entries_bytes metadata)

-- What fits in memory has a size of 64 bits.
abbrev pub IsSized : Metadata → Type 0
IsSized metadata =
    (length metadata < 2 ^ 64)
    × All (λ (entry : List ℕ × List ℕ). (length entry.0 < 2 ^ 64) × (length entry.1 < 2 ^ 64))
        metadata

abbrev AreSized : Metadata → Type 0
AreSized metadata =
    All (λ (entry : List ℕ × List ℕ). (length entry.0 < 2 ^ 64) × (length entry.1 < 2 ^ 64))
      metadata

same_entries :
    (m k : Metadata) (rest more : List ℕ)
    → length m ≡ length k
    → AreSized m
    → AreSized k
    → entries_bytes m ++ rest ≡ entries_bytes k ++ more
    → (m ≡ k) × (rest ≡ more)
same_entries [] [] rest more size small few h = (refl, h)
same_entries [] (f ∷ k) rest more size small few h = absurd (omega arith)
same_entries (e ∷ m) [] rest more size small few h = absurd (omega arith)
same_entries (e ∷ m) (f ∷ k) rest more size small few h =
    let (key, after_key) =
      same_sized_bytes e.0 f.0 ((sized_bytes e.1 ++ entries_bytes m) ++ rest)
        ((sized_bytes f.1 ++ entries_bytes k) ++ more) small.0.0 few.0.0
        (sym (append_assoc (sized_bytes e.0) (sized_bytes e.1 ++ entries_bytes m) rest)
          ∙ h
          ∙ append_assoc (sized_bytes f.0) (sized_bytes f.1 ++ entries_bytes k) more) in
    let (value, after_value) =
      same_sized_bytes e.1 f.1 (entries_bytes m ++ rest) (entries_bytes k ++ more) small.0.1 few.0.1
        (sym (append_assoc (sized_bytes e.1) (entries_bytes m) rest)
          ∙ after_key
          ∙ append_assoc (sized_bytes f.1) (entries_bytes k) more) in
    let (entries, last) = same_entries m k rest more (omega arith) small.1 few.1 after_value in
    (ap₂ ◌∷◌ (ap₂ (λ (x y : List ℕ). (x, y)) key value) entries, last)

pub same_metadata :
    (m k : Metadata) (rest more : List ℕ)
    → IsSized m
    → IsSized k
    → metadata_bytes m ++ rest ≡ metadata_bytes k ++ more
    → (m ≡ k) × (rest ≡ more)
same_metadata m k rest more small few h =
    let (size, later) =
      same_integer_bytes 8 (length m) (length k) (entries_bytes m ++ rest) (entries_bytes k ++ more)
        small.0 few.0
        (sym (append_assoc (to_little_endian 8 (length m)) (entries_bytes m) rest)
          ∙ h
          ∙ append_assoc (to_little_endian 8 (length k)) (entries_bytes k) more) in
    same_entries m k rest more size small.1 few.1 later
