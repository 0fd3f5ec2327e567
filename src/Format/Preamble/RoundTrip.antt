-- ===== src/Format/Preamble/RoundTrip.antt =====
-- The encoder and the parser of the preamble against one another.
use shibori_engine.Base.{
  ℕ, ◌^◌, ◌≤◌, ◌<◌, ◌≡◌, refl, sym, ap, ap₂, subst, ◌∙◌, inl, inr, arith, Bool, true, if◌then◌else◌,
  ltb, ltb→lt, ltb_false→le, Bool-cases, ◌!=◌, List, ◌++◌, length, take, take-take-drop, IsBytes,
  IsByte, All-append, little_endian, to_little_endian, little_endian-lt,
  little_endian-to_little_endian,
}
use shibori_engine.Error.{ErrorCode, ok, err}
use shibori_engine.Integrity.Crc32c.{Backend}
use shibori_engine.Integrity.Crc32c.Hashing.{checksum, checksum-lt}
use shibori_engine.Format.Buffer.{
  starts_with, starts_with-take, field_at, length-field_at, field_at-IsBytes, field_digits,
}
use shibori_engine.Format.Preamble.{
  FilePreamble, file_magic, encode_file_preamble, parse_file_preamble, preamble_error,
}
use shibori_engine.Format.Preamble.Layout.{covered, encode_file_preamble_layout}
use shibori_engine.Format.Preamble.Parsing.{
  decision, parse_file_preamble-short, parse_file_preamble-decision,
}

-- The encoding of a major and a minor version below 2 ^ 16, whatever follows it, parses to those
-- versions and the stored checksum if the major version is 1, and is refused with
-- `unsupported_format_version` otherwise.
pub parse_file_preamble-encode :
    (backend : Backend) (major minor : ℕ) (rest : List ℕ)
    → major < 2 ^ 16
    → minor < 2 ^ 16
    → IsBytes rest
    → parse_file_preamble backend (encode_file_preamble backend major minor ++ rest) ≡ (
        if major != 1
        then err (
            preamble_error ErrorCode.unsupported_format_version
              "file preamble uses an unsupported major version")
        else ok
            (record { major = major; minor = minor; checksum = checksum (covered major minor) }))
parse_file_preamble-encode backend major minor rest hmajor hminor h =
    let bytes = encode_file_preamble backend major minor ++ rest in
    let whole =
      covered major minor ++ (to_little_endian 4 (checksum (covered major minor)) ++ rest) in
    let shape : bytes ≡ whole = rw (encode_file_preamble_layout backend major minor) refl in
    let covered_bytes : IsBytes (covered major minor) = omega arith in
    let is_bytes : IsBytes whole =
      All-append IsByte (covered major minor)
        (to_little_endian 4 (checksum (covered major minor)) ++ rest) covered_bytes
        (All-append IsByte (to_little_endian 4 (checksum (covered major minor))) rest (omega arith)
          h) in
    ap (parse_file_preamble backend) shape
    ∙ parse_file_preamble-decision backend whole is_bytes (omega arith)
    ∙ rw
        (
          little_endian-to_little_endian 2 major hmajor,
          little_endian-to_little_endian 2 minor hminor,
          little_endian-to_little_endian 4 (checksum (covered major minor))
              (checksum-lt (covered major minor) covered_bytes),
        )
        (ground arith)

decision_ok :
    (magic : Bool) (major minor stored computed : ℕ) (p : FilePreamble)
    → decision magic major minor stored computed ≡ ok p
    → (magic ≡ true)
      × (stored ≡ computed)
      × (major ≡ 1)
      × (p ≡ record { major = major; minor = minor; checksum = stored })
decision_ok magic major minor stored computed p e = ground arith

-- What the parser accepts is what the encoder emits: the first sixteen bytes are the encoding of
-- the versions that it returns, and the major version is 1.
pub encode-parse_file_preamble :
    (backend : Backend) (bytes : List ℕ) (p : FilePreamble)
    → IsBytes bytes
    → parse_file_preamble backend bytes ≡ ok p
    → (16 ≤ length bytes)
      × (p.major ≡ 1)
      × (p.minor < 2 ^ 16)
      × (p.checksum ≡ checksum (take 12 bytes))
      × (encode_file_preamble backend p.major p.minor ≡ take 16 bytes)
encode-parse_file_preamble backend bytes p h e = elim (Bool-cases (ltb (length bytes) 16)) [
  | inl short ↦ cc (parse_file_preamble-short backend bytes (ltb→lt (length bytes) 16 short))
  | inr enough ↦
      let long = ltb_false→le (length bytes) 16 enough in
      let major = little_endian (field_at 8 2 bytes) in
      let minor = little_endian (field_at 10 2 bytes) in
      let stored = little_endian (field_at 12 4 bytes) in
      let checks =
        decision_ok (starts_with file_magic bytes) major minor stored (checksum (take 12 bytes)) p
          (sym (parse_file_preamble-decision backend bytes h long) ∙ e) in
      let magic : take 8 bytes ≡ file_magic = starts_with-take file_magic bytes checks.0 in
      let versions : covered major minor ≡ take 12 bytes =
        ap₂ ◌++◌ (ap₂ ◌++◌ (sym magic) (field_digits 8 2 bytes h (omega arith)))
          (field_digits 10 2 bytes h (omega arith))
        ∙ ap (λ (t : List ℕ). t ++ field_at 10 2 bytes) (take-take-drop 8 2 bytes)
        ∙ take-take-drop 10 2 bytes in
      let sum : to_little_endian 4 (checksum (covered major minor)) ≡ field_at 12 4 bytes =
        ap (λ (t : List ℕ). to_little_endian 4 (checksum t)) versions
        ∙ ap (to_little_endian 4) (sym checks.1)
        ∙ field_digits 12 4 bytes h (omega arith) in
      let minor_fits : minor < 2 ^ 16 = omega (
        arith,
        little_endian-lt (field_at 10 2 bytes) (field_at-IsBytes 10 2 bytes h),
        ap (λ (n : ℕ). 256 ^ n) (length-field_at 10 2 bytes (omega arith)),
      ) in
      subst
        (λ q.
          (16 ≤ length bytes)
          × (q.major ≡ 1)
          × (q.minor < 2 ^ 16)
          × (q.checksum ≡ checksum (take 12 bytes))
          × (encode_file_preamble backend q.major q.minor ≡ take 16 bytes))
        (sym checks.3)
        (
          long,
          checks.2,
          minor_fits,
          checks.1,
          encode_file_preamble_layout backend major minor
              ∙ ap₂ ◌++◌ versions sum
              ∙ take-take-drop 12 4 bytes,
        )
]
