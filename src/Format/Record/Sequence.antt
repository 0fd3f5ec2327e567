-- ===== src/Format/Record/Sequence.antt =====
-- The order in which a reader takes records: one tracker over a whole run of records.
use shibori_engine.Base.{
  ℕ, ◌+◌, ◌^◌, ◌<◌, ◌≡◌, ◌↔◌, ◌⊎◌, refl, ap, subst, inl, inr, arith, true, not, if◌then◌else◌, ◌||◌,
  List, [], ◌∷◌, length, map,
}
use shibori_engine.Error.{Error, Operation, Result, ok, err, ◌>>=◌, >>=-eq-ok}
use shibori_engine.CheckedArithmetic.Exactness.{checked_add_exact}
use shibori_engine.Format.Record.{
  RecordDisposition, VerifiedRecord, RecordSequenceTracker, is_known_record_type, mandatory, accept,
}

abbrev pub Run : Type 0
Run = RecordSequenceTracker × Result (List RecordDisposition)

abbrev continue_with :
    RecordSequenceTracker × Result RecordDisposition → (RecordSequenceTracker → Run) → Run
continue_with (moved, err e) k = (moved, err e)
continue_with (moved, ok d) k = let (last, rest) = k moved in (last, (rest >>= λ ds. ok (d ∷ ds)))

-- A reader that offers one record after the other and stops at the first refusal.
unfoldable pub accept_all : RecordSequenceTracker → List VerifiedRecord → Run
accept_all tracker [] = (tracker, ok [])
accept_all tracker (r ∷ records) =
    continue_with (accept tracker r) (λ moved. accept_all moved records)

abbrev pub disposition : VerifiedRecord → RecordDisposition
disposition r =
    if is_known_record_type r.envelope.type
    then RecordDisposition.process
    else RecordDisposition.skip

-- Records numbered one by one from `n`, each of a known type or optional.
abbrev pub IsInOrder : ℕ → List VerifiedRecord → Type 0
IsInOrder n [] = Unit {0}
IsInOrder n (r ∷ records) =
    (r.envelope.sequence ≡ n)
    × ((is_known_record_type r.envelope.type || not (mandatory r.envelope)) ≡ true)
    × (n + 1 < 2 ^ 64)
    × IsInOrder (n + 1) records

pub accept-IsInOrder :
    (n : ℕ) (r : VerifiedRecord)
    → r.envelope.sequence ≡ n
    → (is_known_record_type r.envelope.type || not (mandatory r.envelope)) ≡ true
    → n + 1 < 2 ^ 64
    → accept (record { expected_sequence = n }) r
      ≡ (record { expected_sequence = n + 1 }, ok (disposition r))
unfolding accept
accept-IsInOrder n r numbered admitted fits =
    ground (arith, checked_add_exact n 1 Operation.parse "next record sequence")

-- What an accepted record was, and where the tracker stands after it.
pub accept_inversion :
    (t u : RecordSequenceTracker) (r : VerifiedRecord) (d : RecordDisposition)
    → t.expected_sequence < 2 ^ 64
    → accept t r ≡ (u, ok d)
    → (r.envelope.sequence ≡ t.expected_sequence)
      × ((is_known_record_type r.envelope.type || not (mandatory r.envelope)) ≡ true)
      × (t.expected_sequence + 1 < 2 ^ 64)
      × (u.expected_sequence ≡ t.expected_sequence + 1)
      × (d ≡ disposition r)
unfolding accept
accept_inversion t u r d fits h =
    ground (arith, checked_add_exact t.expected_sequence 1 Operation.parse "next record sequence")

accept_all-IsInOrder :
    (n : ℕ) (records : List VerifiedRecord)
    → IsInOrder n records
    → accept_all (record { expected_sequence = n }) records
      ≡ (record { expected_sequence = n + length records }, ok (map disposition records))
unfolding accept_all
accept_all-IsInOrder n [] h = ground arith
accept_all-IsInOrder n (r ∷ records) h =
    rw (accept-IsInOrder n r h.0 h.1 h.2, accept_all-IsInOrder (n + 1) records h.3) (ground arith)

pub answer_cases {ℓ κ} :
    {A : Type ℓ} {B : Type κ} (p : A × Result B)
    → ((e : Error) × (p ≡ (p.0, err e))) ⊎ ((b : B) × (p ≡ (p.0, ok b)))
answer_cases (a, ok b) = inr (b, refl)
answer_cases (a, err e) = inl (e, refl)

IsInOrder-accept_all :
    (t u : RecordSequenceTracker) (records : List VerifiedRecord) (ds : List RecordDisposition)
    → t.expected_sequence < 2 ^ 64
    → accept_all t records ≡ (u, ok ds)
    → IsInOrder t.expected_sequence records
unfolding accept_all
IsInOrder-accept_all t u [] ds fits h = tt
IsInOrder-accept_all t u (r ∷ records) ds fits h = elim (answer_cases (accept t r)) [
  | inl (e, refused) ↦ cc (rw refused at h)
  | inr (d, accepted) ↦
      let moved = (accept t r).0 in
      let first = accept_inversion t moved r d fits accepted in
      let (rest, ran, joined) =
        >>=-eq-ok (accept_all moved records).1 (λ ds. ok (d ∷ ds)) {last = ds}
          (ap (λ (p : Run). p.1) (rw accepted at h)) in
      let tail =
        IsInOrder-accept_all moved (accept_all moved records).0 records rest (omega (arith, first))
          (ap (λ (q : Result (List RecordDisposition)). ((accept_all moved records).0, q)) ran) in
      (first.0, first.1, first.2, subst (λ n. IsInOrder n records) first.3 tail)
]

-- A tracker that expects sequence number `n` accepts a whole run of records, processing the known
-- types and skipping the others, and then expects the number after the last, exactly if the
-- records are numbered one by one from `n`, none is of an unknown mandatory type, and the numbers
-- do not overflow.
pub accept_all_iff :
    (n : ℕ) (records : List VerifiedRecord)
    → n < 2 ^ 64
    → (accept_all (record { expected_sequence = n }) records
        ≡ (record { expected_sequence = n + length records }, ok (map disposition records)))
      ↔ IsInOrder n records
accept_all_iff n records fits = (
  IsInOrder-accept_all (record { expected_sequence = n })
      (record { expected_sequence = n + length records }) records (map disposition records) fits,
  accept_all-IsInOrder n records,
)
