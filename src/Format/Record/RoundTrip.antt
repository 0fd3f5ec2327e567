-- ===== src/Format/Record/RoundTrip.antt =====
-- The encoder and the parser of the envelope against one another.
use shibori_engine.Base.{
  ℕ, zero, suc, ◌+◌, ◌%◌, ◌^◌, ◌≤◌, ◌<◌, bit_and, ◌≡◌, refl, sym, ap, ap₂, subst, ◌∙◌, inl, inr,
  arith, Bool, true, ltb, ltb→lt, ltb_false→le, Bool-cases, List, [], ◌∷◌, ◌++◌, length, take,
  take-take-drop, IsBytes, IsByte, All-append, byte_at, little_endian, to_little_endian,
  little_endian-to_little_endian,
}
use shibori_engine.Error.{ok}
use shibori_engine.Integrity.Crc32c.{Backend}
use shibori_engine.Integrity.Crc32c.Hashing.{checksum, checksum-lt}
use shibori_engine.Format.Buffer.{starts_with, starts_with-take, field_at, field_digits}
use shibori_engine.Format.Record.{
  RecordEnvelope, RecordEnvelopeLimits, record_sync, record_reserved_flags, encode_record_envelope,
  parse_record_envelope,
}
use shibori_engine.Format.Record.Layout.{
  IsEnvelope, covered, layout, reserved_flags_clear, encode_record_envelope-layout,
}
use shibori_engine.Format.Record.Parsing.{
  read_envelope, check_lengths, decision, field_at-lt, parse_record_envelope-short,
  parse_record_envelope-decision,
}

-- The lengths that a reader with these limits admits.
pub record IsWithin (limits : RecordEnvelopeLimits) (e : RecordEnvelope) : Type 0 where
  pub extension_allowed : e.extension_length ≤ limits.maximum_extension_length
  pub payload_allowed : e.payload_length ≤ limits.maximum_payload_length
  pub total_fits : 32 + (e.extension_length + e.payload_length) < 2 ^ 64

check_lengths-IsWithin :
    (limits : RecordEnvelopeLimits) (e : RecordEnvelope)
    → IsWithin limits e
    → check_lengths limits e ≡ ok e
check_lengths-IsWithin limits e w = ground arith

IsWithin-check_lengths :
    (limits : RecordEnvelopeLimits) (e r : RecordEnvelope)
    → check_lengths limits e ≡ ok r
    → IsWithin limits e × (r ≡ e)
IsWithin-check_lengths limits e r h = ground arith

-- Reading the fields of an encoded envelope gives the envelope.
read_envelope-layout :
    (e : RecordEnvelope) (rest : List ℕ) → IsEnvelope e → read_envelope (layout e ++ rest) ≡ e
read_envelope-layout e rest v = ground (
  arith,
  little_endian-to_little_endian 2 e.extension_length,
  little_endian-to_little_endian 8 e.payload_length,
  little_endian-to_little_endian 8 e.sequence,
  little_endian-to_little_endian 4 e.payload_checksum,
)

decision-IsWithin :
    (limits : RecordEnvelopeLimits) (e : RecordEnvelope) (sum : ℕ)
    → e.flags < 2
    → IsWithin limits e
    → decision true limits e sum sum ≡ ok e
decision-IsWithin limits e sum h w =
    rw (reserved_flags_clear e.flags (omega arith), check_lengths-IsWithin limits e w)
      (ground arith)

layout-IsBytes : (e : RecordEnvelope) (rest : List ℕ) → IsBytes rest → IsBytes (layout e ++ rest)
layout-IsBytes e rest h = All-append IsByte (layout e) rest (omega arith) h

-- An envelope whose fields are in the ranges of their types, which uses no reserved flag, and
-- whose lengths the reader's limits admit, encodes to 32 bytes; whatever bytes follow them, the
-- parser returns the envelope.
pub parse_record_envelope-encode :
    (backend : Backend) (e : RecordEnvelope) (limits : RecordEnvelopeLimits) (rest : List ℕ)
    → IsEnvelope e
    → e.flags < 2
    → IsWithin limits e
    → IsBytes rest
    → (out : List ℕ) × (encode_record_envelope backend e ≡ ok out)
      × (length out ≡ 32)
      × (parse_record_envelope backend (out ++ rest) limits ≡ ok e)
parse_record_envelope-encode backend e limits rest v flags w h =
    let sum = checksum (covered e) in
    let stored = to_little_endian 4 sum in
    (
      layout e,
      encode_record_envelope-layout backend e flags,
      refl,
      parse_record_envelope-decision backend (layout e ++ rest) limits (layout-IsBytes e rest h)
            (omega arith)
          ∙ ap (λ q. decision true limits q (little_endian stored) sum)
              (read_envelope-layout e rest v)
          ∙ ap (λ n. decision true limits e n sum)
              (little_endian-to_little_endian 4 sum (checksum-lt (covered e) (omega arith)))
          ∙ decision-IsWithin limits e sum flags w,
    )

decision_ok :
    (sync : Bool) (limits : RecordEnvelopeLimits) (e r : RecordEnvelope) (stored computed : ℕ)
    → decision sync limits e stored computed ≡ ok r
    → (sync ≡ true)
      × (bit_and e.flags record_reserved_flags ≡ 0)
      × (check_lengths limits e ≡ ok r)
      × (stored ≡ computed)
decision_ok sync limits e r stored computed h = ground arith

-- The byte at an index, as a field.
byte_field :
    (i : ℕ) (bytes : List ℕ)
    → IsBytes bytes
    → i < length bytes
    → (byte_at bytes i < 256) × (byte_at bytes i % 256 ∷ [] ≡ field_at i 1 bytes)
byte_field i [] h fits = absurd (omega arith)
byte_field zero (b ∷ bytes) h fits = ground arith
byte_field (suc i) (b ∷ bytes) h fits = byte_field i bytes h.1 (omega arith)

read_envelope-IsEnvelope :
    (bytes : List ℕ) → IsBytes bytes → 32 ≤ length bytes → IsEnvelope (read_envelope bytes)
read_envelope-IsEnvelope bytes h long = record {
  type_fits = (byte_field 4 bytes h (omega arith)).0;
  flags_fit = (byte_field 5 bytes h (omega arith)).0;
  extension_fits = field_at-lt 6 2 bytes h (omega arith);
  payload_fits = field_at-lt 8 8 bytes h (omega arith);
  sequence_fits = field_at-lt 16 8 bytes h (omega arith);
  checksum_fits = field_at-lt 28 4 bytes h (omega arith);
}

-- The fields of the first 24 bytes, one after the other.
join_fields :
    (bytes : List ℕ)
    → take 4 bytes
        ++ field_at 4 1 bytes
        ++ field_at 5 1 bytes
        ++ field_at 6 2 bytes
        ++ field_at 8 8 bytes
        ++ field_at 16 8 bytes
      ≡ take 24 bytes
join_fields bytes = rw (
  take-take-drop 4 1 bytes,
  take-take-drop 5 1 bytes,
  take-take-drop 6 2 bytes,
  take-take-drop 8 8 bytes,
  take-take-drop 16 8 bytes,
)

-- The bytes that an accepted envelope's checksum covers are those of its fields.
covered-read_envelope :
    (bytes : List ℕ)
    → IsBytes bytes
    → 32 ≤ length bytes
    → take 4 bytes ≡ record_sync
    → covered (read_envelope bytes) ≡ take 24 bytes
covered-read_envelope bytes h long sync =
    let appended = λ (left right : List ℕ). left ++ right in
    ap₂ appended
      (ap₂ appended
        (ap₂ appended
          (ap₂ appended (ap₂ appended (sym sync) (byte_field 4 bytes h (omega arith)).1)
            (byte_field 5 bytes h (omega arith)).1)
          (field_digits 6 2 bytes h (omega arith)))
        (field_digits 8 8 bytes h (omega arith)))
      (field_digits 16 8 bytes h (omega arith))
    ∙ join_fields bytes

layout-read_envelope :
    (bytes : List ℕ)
    → IsBytes bytes
    → 32 ≤ length bytes
    → take 4 bytes ≡ record_sync
    → little_endian (field_at 24 4 bytes) ≡ checksum (take 24 bytes)
    → layout (read_envelope bytes) ≡ take 32 bytes
layout-read_envelope bytes h long sync sum =
    let covers = covered-read_envelope bytes h long sync in
    let appended = λ (left right : List ℕ). left ++ right in
    ap₂ appended
      (ap₂ appended covers (
        ap (λ (b : List ℕ). to_little_endian 4 (checksum b)) covers
        ∙ ap (to_little_endian 4) (sym sum)
        ∙ field_digits 24 4 bytes h (omega arith)))
      (field_digits 28 4 bytes h long)
    ∙ ap (λ (t : List ℕ). t ++ field_at 28 4 bytes) (take-take-drop 24 4 bytes)
    ∙ take-take-drop 28 4 bytes

-- What the parser accepts is what the encoder emits: the fields are in the ranges of their types,
-- the lengths are within the limits and a complete record's length fits 64 bits, and the first 32
-- bytes are the encoding of the envelope.
pub encode-parse_record_envelope :
    (backend : Backend) (bytes : List ℕ) (limits : RecordEnvelopeLimits) (e : RecordEnvelope)
    → IsBytes bytes
    → parse_record_envelope backend bytes limits ≡ ok e
    → (32 ≤ length bytes)
      × IsEnvelope e
      × IsWithin limits e
      × (encode_record_envelope backend e ≡ ok (take 32 bytes))
encode-parse_record_envelope backend bytes limits e h accepted =
    elim (Bool-cases (ltb (length bytes) 32)) [
      | inl short ↦
          cc (parse_record_envelope-short backend bytes limits (ltb→lt (length bytes) 32 short))
      | inr enough ↦
          let long = ltb_false→le (length bytes) 32 enough in
          let r = read_envelope bytes in
          let sum = checksum (take 24 bytes) in
          let checks =
            decision_ok (starts_with record_sync bytes) limits r e
              (little_endian (field_at 24 4 bytes)) sum
              (sym (parse_record_envelope-decision backend bytes limits h long) ∙ accepted) in
          let within = IsWithin-check_lengths limits r e checks.2 in
          let v = read_envelope-IsEnvelope bytes h long in
          let unreserved : r.flags < 2 =
            omega (arith, reserved_flags_clear r.flags v.flags_fit, checks.1) in
          subst
            (λ q.
              (32 ≤ length bytes)
              × IsEnvelope q
              × IsWithin limits q
              × (encode_record_envelope backend q ≡ ok (take 32 bytes)))
            (sym within.1)
            (
              long,
              v,
              within.0,
              encode_record_envelope-layout backend r unreserved
                  ∙ ap ok (
                      layout-read_envelope bytes h long
                        (starts_with-take record_sync bytes checks.0) checks.3),
            )
    ]
