-- ===== src/Format/Record/Verification.antt =====
-- What `verify_record` certifies, and the corruption that it refuses.
use shibori_engine.Base.{
  ℕ, ◌<◌, ◌≡◌, ◌≢◌, ◌↔◌, refl, sym, ap, subst, ◌∙◌, arith, ◌!=◌, ◌||◌, List, [], ◌∷◌, ◌++◌, length,
  length-append, IsBytes, IsByte,
}
use mathlib.Core.List.{append_assoc, append-nil}
use shibori_engine.Error.{
  ErrorCode, Operation, Result, ok, err, new_error, fail_if, ◌>>=◌, ◌>>◌, >>=-eq-ok,
}
use shibori_engine.Integrity.Crc32c.{Backend}
use shibori_engine.Integrity.Crc32c.Hashing.{checksum, finalize-two_updates}
use shibori_engine.Integrity.Crc32c.Detection.{checksum_detects_byte}
use shibori_engine.Format.Record.{
  RecordEnvelope, RecordEnvelopeLimits, VerifiedRecord, encode_record_envelope,
  parse_record_envelope, verify_record,
}
use shibori_engine.Format.Record.Layout.{IsEnvelope}
use shibori_engine.Format.Record.RoundTrip.{IsWithin, parse_record_envelope-encode}

-- The content of a record fits its envelope.
pub record IsContent (e : RecordEnvelope) (extension payload : List ℕ) : Type 0 where
  pub extension_length : length extension ≡ e.extension_length
  pub payload_length : length payload ≡ e.payload_length
  pub intact : checksum (extension ++ payload) ≡ e.payload_checksum

-- The checks on the content, once the envelope is parsed.
check_content : RecordEnvelope → List ℕ → List ℕ → Result VerifiedRecord
check_content e extension payload = do
  fail_if (length extension != e.extension_length || length payload != e.payload_length) (
      new_error ErrorCode.invalid_record Operation.verify
        "record content does not match the envelope lengths")
  fail_if (checksum (extension ++ payload) != e.payload_checksum) (
      new_error ErrorCode.checksum_mismatch Operation.verify "record payload CRC32C does not match")
  ok (record { envelope = e })

verify_record-check_content :
    (backend : Backend) (envelope_bytes extension payload : List ℕ) (limits : RecordEnvelopeLimits)
    → verify_record backend envelope_bytes extension payload limits ≡ (
        parse_record_envelope backend envelope_bytes limits >>= λ e.
        check_content e extension payload)
unfolding verify_record check_content
verify_record-check_content backend envelope_bytes extension payload limits =
    rw (finalize-two_updates backend extension payload) refl

check_content-IsContent :
    (e : RecordEnvelope) (extension payload : List ℕ) (r : VerifiedRecord)
    → check_content e extension payload ≡ ok r
    → (r.envelope ≡ e) × IsContent e extension payload
unfolding check_content
check_content-IsContent e extension payload r h = ground arith

IsContent-check_content :
    (e : RecordEnvelope) (extension payload : List ℕ)
    → IsContent e extension payload
    → check_content e extension payload ≡ ok (record { envelope = e })
unfolding check_content
IsContent-check_content e extension payload c = ground arith

-- A record is verified exactly if its envelope parses and the extension and payload have the
-- lengths and the joint checksum that the envelope declares.
pub verify_record_iff :
    (backend : Backend) (envelope_bytes extension payload : List ℕ) (limits : RecordEnvelopeLimits)
    (r : VerifiedRecord)
    → (verify_record backend envelope_bytes extension payload limits ≡ ok r) ↔ (
        (parse_record_envelope backend envelope_bytes limits ≡ ok r.envelope)
        × IsContent r.envelope extension payload)
verify_record_iff backend envelope_bytes extension payload limits r = (
  λ h.
      let (e, parsed, checked) =
        >>=-eq-ok (parse_record_envelope backend envelope_bytes limits)
          (λ e. check_content e extension payload)
          (sym (verify_record-check_content backend envelope_bytes extension payload limits) ∙ h) in
      let (same, content) = check_content-IsContent e extension payload r checked in
      (parsed ∙ ap ok (sym same), subst (λ q. IsContent q extension payload) (sym same) content),
  λ h.
      verify_record-check_content backend envelope_bytes extension payload limits
      ∙ rw h.0 (IsContent-check_content r.envelope extension payload h.1),
)

-- An envelope whose fields are in the ranges of their types, which uses no reserved flag and whose
-- lengths the reader's limits admit encodes, and the encoding with an extension and a payload of
-- the lengths and the joint checksum that the envelope declares is verified.
pub verify_record-encode :
    (backend : Backend) (e : RecordEnvelope) (extension payload : List ℕ)
    (limits : RecordEnvelopeLimits)
    → IsEnvelope e
    → e.flags < 2
    → IsWithin limits e
    → IsContent e extension payload
    → (out : List ℕ) × (encode_record_envelope backend e ≡ ok out)
      × (verify_record backend out extension payload limits ≡ ok (record { envelope = e }))
verify_record-encode backend e extension payload limits v flags w content =
    let (out, encoded, size, parsed) =
      parse_record_envelope-encode backend e limits [] v flags w tt in
    (
      out,
      encoded,
      (verify_record_iff backend out extension payload limits (record { envelope = e })).1
          (rw (append-nil out) at parsed, content),
    )

check_content-corrupted :
    (e : RecordEnvelope) (extension before after : List ℕ) (a b : ℕ)
    → IsContent e extension (before ++ a ∷ after)
    → checksum (extension ++ (before ++ a ∷ after)) ≢ checksum (extension ++ (before ++ b ∷ after))
    → check_content e extension (before ++ b ∷ after)
      ≡ err (
          new_error ErrorCode.checksum_mismatch Operation.verify
            "record payload CRC32C does not match")
unfolding check_content
check_content-corrupted e extension before after a b content differ =
    ground (arith, length-append before (a ∷ after), length-append before (b ∷ after))

-- If a record whose extension and payload are bytes was verified, then it is refused with
-- `checksum_mismatch` after any one byte of its payload changes to another.
pub verify_record-corrupted :
    (backend : Backend) (envelope_bytes extension before after : List ℕ) (a b : ℕ)
    (limits : RecordEnvelopeLimits) (r : VerifiedRecord)
    → IsBytes (extension ++ before)
    → IsBytes after
    → IsByte a
    → IsByte b
    → a ≢ b
    → verify_record backend envelope_bytes extension (before ++ a ∷ after) limits ≡ ok r
    → verify_record backend envelope_bytes extension (before ++ b ∷ after) limits
      ≡ err (
          new_error ErrorCode.checksum_mismatch Operation.verify
            "record payload CRC32C does not match")
verify_record-corrupted backend envelope_bytes extension before after a b limits r hbefore hafter ha
      hb differ verified =
    let was =
      (verify_record_iff backend envelope_bytes extension (before ++ a ∷ after) limits r).0
        verified in
    verify_record-check_content backend envelope_bytes extension (before ++ b ∷ after) limits
    ∙ rw was.0 (
        check_content-corrupted r.envelope extension before after a b was.1 (λ same.
          checksum_detects_byte (extension ++ before) after a b hbefore hafter ha hb differ (
            ap checksum (append_assoc extension before (a ∷ after))
            ∙ same
            ∙ ap checksum (sym (append_assoc extension before (b ∷ after))))))
