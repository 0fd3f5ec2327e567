-- ===== src/Format/Record/Refusal.antt =====
-- The refusals of `RecordSequenceTracker::accept`, and where a run of records ends at one.
use shibori_engine.Base.{
  ℕ, ◌+◌, ◌^◌, ◌<◌, ◌≡◌, ◌≢◌, ◌↔◌, ◌⊎◌, refl, ap, ap₂, ◌∙◌, subst, inl, inr, arith, true, false,
  not, ◌||◌, List, [], ◌∷◌, ◌++◌, length,
}
use shibori_engine.Error.{ErrorCode, Error, Operation, Result, ok, err, ◌>>=◌}
use shibori_engine.CheckedArithmetic.Exactness.{checked_add_exact}
use shibori_engine.Format.Record.{
  RecordDisposition, VerifiedRecord, RecordSequenceTracker, is_known_record_type, mandatory, accept,
  parse_error, unknown_mandatory,
}
use shibori_engine.Format.Record.Sequence.{
  Run, accept_all, IsInOrder, accept-IsInOrder, accept_inversion, answer_cases,
}

abbrev pub at_sequence : ℕ → RecordSequenceTracker
at_sequence n = record { expected_sequence = n }

-- Why a tracker that expects `n` has no place for a record, with the error for it: another number,
-- an unknown mandatory type, or the last number of 64 bits.
abbrev pub IsRefused : ℕ → VerifiedRecord → Error → Type 0
IsRefused n r e =
    let admitted = is_known_record_type r.envelope.type || not (mandatory r.envelope) in
    ((r.envelope.sequence ≢ n)
      × (e
          ≡ parse_error ErrorCode.invalid_record
              "record sequence does not match the expected value"))
    ⊎ (((r.envelope.sequence ≡ n) × (admitted ≡ false) × (e ≡ unknown_mandatory r.envelope.type))
        ⊎ ((r.envelope.sequence ≡ n)
            × (admitted ≡ true)
            × (n + 1 ≡ 2 ^ 64)
            × (e
                ≡ parse_error ErrorCode.arithmetic_overflow
                    "next record sequence exceeds the unsigned 64-bit range")))

accept-IsRefused :
    (t u : RecordSequenceTracker) (r : VerifiedRecord) (e : Error)
    → t.expected_sequence < 2 ^ 64
    → accept t r ≡ (u, err e)
    → (u ≡ t) × IsRefused t.expected_sequence r e
unfolding accept
accept-IsRefused t u r e fits h =
    ground (arith, checked_add_exact t.expected_sequence 1 Operation.parse "next record sequence")

IsRefused-accept :
    (n : ℕ) (r : VerifiedRecord) (e : Error)
    → n < 2 ^ 64
    → IsRefused n r e
    → accept (at_sequence n) r ≡ (at_sequence n, err e)
unfolding accept
IsRefused-accept n r e fits h =
    ground (arith, checked_add_exact n 1 Operation.parse "next record sequence")

-- A run that begins with records in order and goes on with one that is refused.
abbrev pub IsStopped : ℕ → List VerifiedRecord → RecordSequenceTracker → Error → Type 0
IsStopped n records u e =
    (before : List VerifiedRecord) × (r : VerifiedRecord) × (after : List VerifiedRecord) × (records
      ≡ before ++ r ∷ after)
    × IsInOrder n before
    × (u ≡ at_sequence (n + length before))
    × IsRefused (n + length before) r e

-- Records in order before a run that is stopped make a run that is stopped.
IsStopped-cons :
    (n : ℕ) (r : VerifiedRecord) (records : List VerifiedRecord) (u : RecordSequenceTracker)
    (e : Error)
    → r.envelope.sequence ≡ n
    → (is_known_record_type r.envelope.type || not (mandatory r.envelope)) ≡ true
    → n + 1 < 2 ^ 64
    → IsStopped (n + 1) records u e
    → IsStopped n (r ∷ records) u e
IsStopped-cons n r records u e numbered admitted fits h =
    let (before, stop, after, same, ordered, left, refused) = h in
    let further : n + 1 + length before ≡ n + length (r ∷ before) = omega arith in
    (
      r ∷ before,
      stop,
      after,
      ap (λ rs. r ∷ rs) same,
      (numbered, admitted, fits, ordered),
      left ∙ ap at_sequence further,
      subst (λ m. IsRefused m stop e) further refused,
    )

>>=-eq-err :
    (first : Result (List RecordDisposition)) (d : RecordDisposition) (e : Error)
    → (first >>= λ ds. ok (d ∷ ds)) ≡ err e
    → first ≡ err e
>>=-eq-err (ok ds) d e h = absurd (cc)
>>=-eq-err (err e') d e h = cc

accept_all-IsStopped :
    (t u : RecordSequenceTracker) (records : List VerifiedRecord) (e : Error)
    → t.expected_sequence < 2 ^ 64
    → accept_all t records ≡ (u, err e)
    → IsStopped t.expected_sequence records u e
unfolding accept_all
accept_all-IsStopped t u [] e fits h = absurd (cc)
accept_all-IsStopped t u (r ∷ records) e fits h = elim (answer_cases (accept t r)) [
  | inl (e', refused) ↦
      let same : ◌≡◌ {A = Run} ((accept t r).0, err e') (u, err e) = rw refused at h in
      let stopped : accept t r ≡ (u, err e) = cc in
      let (left, why) = accept-IsRefused t u r e fits stopped in
      (
        [],
        r,
        records,
        refl,
        tt,
        ground (arith, left),
        subst (λ m. IsRefused m r e) (omega arith) why,
      )
  | inr (d, accepted) ↦
      let moved = (accept t r).0 in
      let first = accept_inversion t moved r d fits accepted in
      let rest = accept_all moved records in
      let run : ◌≡◌ {A = Run} (rest.0, (rest.1 >>= λ ds. ok (d ∷ ds))) (u, err e) =
        rw accepted at h in
      let ended : rest ≡ (u, err e) =
        ap₂ (λ a b. (a, b)) (ap (λ (p : Run). p.0) run)
          (>>=-eq-err rest.1 d e (ap (λ (p : Run). p.1) run)) in
      IsStopped-cons t.expected_sequence r records u e first.0 first.1 first.2 (
        subst (λ n. IsStopped n records u e) first.3
          (accept_all-IsStopped moved u records e (omega (arith, first)) ended))
]

IsStopped-accept_all :
    (n : ℕ) (before : List VerifiedRecord) (r : VerifiedRecord) (after : List VerifiedRecord)
    (e : Error)
    → n < 2 ^ 64
    → IsInOrder n before
    → IsRefused (n + length before) r e
    → accept_all (at_sequence n) (before ++ r ∷ after) ≡ (at_sequence (n + length before), err e)
unfolding accept_all
IsStopped-accept_all n [] r after e fits h refused =
    rw (IsRefused-accept n r e fits (subst (λ m. IsRefused m r e) (omega arith) refused))
      (ground arith)
IsStopped-accept_all n (first ∷ before) r after e fits h refused =
    rw
      (
        accept-IsInOrder n first h.0 h.1 h.2,
        IsStopped-accept_all (n + 1) before r after e h.2 h.3
            (subst (λ m. IsRefused m r e) (omega arith) refused),
      )
      (ground arith)

-- A tracker that expects sequence number `n`, of 64 bits, stops a run of records with an error exactly if the
-- run is some records in order and then a record that is refused after them: it has another number
-- than the next (`invalid_record`), or its type is unknown and mandatory (`unsupported_feature`,
-- with the type), or it has the last number of 64 bits (`arithmetic_overflow`). The tracker then
-- expects the number after the records in order, whatever the refusal.
pub accept_all-IsStopped_iff :
    (n : ℕ) (records : List VerifiedRecord) (u : RecordSequenceTracker) (e : Error)
    → n < 2 ^ 64
    → (accept_all (at_sequence n) records ≡ (u, err e)) ↔ IsStopped n records u e
accept_all-IsStopped_iff n records u e fits = (
  accept_all-IsStopped (at_sequence n) u records e fits,
  λ h.
      let (before, r, after, same, ordered, left, refused) = h in
      rw (same, left) (IsStopped-accept_all n before r after e fits ordered refused),
)
