-- ===== src/Io/Termination.antt =====
-- The loops end over every device, and stay within the span that they were given.
use shibori_engine.Base.{
  ℕ, zero, suc, ◌+◌, ◌≤◌, ◌<◌, ◌≡◌, refl, ◌∙◌, inl, inr, arith, Bool-cases, some, List, [], ◌∷◌,
  ◌++◌, length, take, drop, length-append, length-take, length-drop,
}
use shibori_engine.Error.{ok, ◌>>=◌, >>=-eq-ok, Result-cases}
use shibori_engine.Io.Rounds.{
  read_loop-cancelled, read_loop-fails, read_loop-goes_on, write_loop-cancelled, write_loop-fails,
  write_loop-goes_on,
}
use shibori_engine.Io.{
  CancellationToken, ReadOutcome, ByteSource, ByteSink, ReadRun, WriteRun, after_read, after_write,
  read_loop, read_exact, write_loop, write_all,
}

-- A source writes within the destination that it is handed, as a span cannot grow.
pub record IsSource {S : Type 0} (source : ByteSource S) : Type 0 where
  pub keeps_span :
      (token : CancellationToken) (polls : ℕ) (device : S) (destination : List ℕ)
      → length (source.read token polls device destination).1 ≡ length destination

pub after_read_ok :
    (outcome : ReadOutcome) (remaining n : ℕ)
    → after_read outcome remaining ≡ ok n
    → (0 < n) × (n ≤ remaining) × (n ≡ outcome.bytes_read)
unfolding after_read
after_read_ok outcome remaining n h = ground arith

pub after_write_ok :
    (written remaining n : ℕ)
    → after_write written remaining ≡ ok n
    → (0 < n) × (n ≤ remaining) × (n ≡ written)
unfolding after_write
after_write_ok written remaining n h = ground arith

module _ {S : Type 0} (source : ByteSource S) (law : IsSource source)
    (token : CancellationToken) where
  read_loop_ends :
      (fuel : ℕ) (device : S) (polls : ℕ) (completed rest : List ℕ)
      → length rest < fuel
      → (r : ReadRun S) × (read_loop source token fuel device polls completed rest ≡ some r)
        × (length r.destination ≡ length completed + length rest)
  unfolding read_loop
  read_loop_ends zero device polls completed rest h = absurd (omega arith)
  read_loop_ends (suc fuel) device polls completed [] h = (_, refl, omega arith)
  read_loop_ends (suc fuel) device polls completed (x ∷ rest) h =
      let replied = (source.read token (polls + 1) device (x ∷ rest)).0 in
      let span = (source.read token (polls + 1) device (x ∷ rest)).1 in
      let kept = law.keeps_span token (polls + 1) device (x ∷ rest) in
      elim (Bool-cases (token polls)) [
        | inl stopped ↦ (
          _,
          read_loop-cancelled source token fuel device polls completed x rest stopped,
          length-append completed (x ∷ rest),
        )
        | inr going ↦
            elim (Result-cases
              (replied.answer >>= λ outcome. after_read outcome (suc (length rest)))) [
                | inl (e, failed) ↦ (
                  _,
                  read_loop-fails source token fuel device polls completed x rest e going failed,
                  omega (arith, length-append completed span, kept),
                )
                | inr (n, went) ↦
                    let (_, _, answered) =
                      >>=-eq-ok replied.answer (λ outcome. after_read outcome (suc (length rest)))
                        went in
                    let (some_read, within, _) = after_read_ok _ (suc (length rest)) n answered in
                    let (r, ends, size) =
                      read_loop_ends fuel replied.device replied.polls (completed ++ take n span)
                        (drop n span) (omega (arith, length-drop n span, kept)) in
                    (
                      r,
                      read_loop-goes_on source token fuel device polls completed x rest n going went
                          ∙ ends,
                      omega (
                        arith,
                        size,
                        kept,
                        length-append completed (take n span),
                        length-take n span,
                        length-drop n span,
                      ),
                    )
              ]
      ]

  -- Over a source that writes within the span it is handed, reading a span always ends, whatever
  -- the source answers and whenever the token is cancelled, and leaves a span of the same length.
  pub read_exact_ends :
      (device : S) (polls : ℕ) (destination : List ℕ)
      → (r : ReadRun S) × (read_exact source token device polls destination ≡ some r)
        × (length r.destination ≡ length destination)
  unfolding read_exact
  read_exact_ends device polls destination =
      let (r, ends, size) =
        read_loop_ends (suc (length destination)) device polls [] destination (omega arith) in
      (r, ends, omega (arith, size))

module _ {S : Type 0} (sink : ByteSink S) (token : CancellationToken) where
  write_loop_ends :
      (fuel : ℕ) (device : S) (polls : ℕ) (bytes : List ℕ)
      → length bytes < fuel
      → (r : WriteRun S) × (write_loop sink token fuel device polls bytes ≡ some r)
  unfolding write_loop
  write_loop_ends zero device polls bytes h = absurd (omega arith)
  write_loop_ends (suc fuel) device polls [] h = (_, refl)
  write_loop_ends (suc fuel) device polls (x ∷ bytes) h =
      let replied = sink.write token (polls + 1) device (x ∷ bytes) in
      elim (Bool-cases (token polls)) [
        | inl stopped ↦ (_, write_loop-cancelled sink token fuel device polls x bytes stopped)
        | inr going ↦
            elim (Result-cases
              (replied.answer >>= λ written. after_write written (suc (length bytes)))) [
                | inl (e, failed) ↦
                    (_, write_loop-fails sink token fuel device polls x bytes e going failed)
                | inr (n, went) ↦
                    let (_, _, answered) =
                      >>=-eq-ok replied.answer (λ written. after_write written (suc (length bytes)))
                        went in
                    let (some_written, within, _) =
                      after_write_ok _ (suc (length bytes)) n answered in
                    let (r, ends) =
                      write_loop_ends fuel replied.device replied.polls (drop n (x ∷ bytes))
                        (omega (arith, length-drop n (x ∷ bytes))) in
                    (r, write_loop-goes_on sink token fuel device polls x bytes n going went ∙ ends)
              ]
      ]

  -- Writing a span always ends, whatever the sink answers and whenever the token is cancelled.
  pub write_all_ends :
      (device : S) (polls : ℕ) (bytes : List ℕ)
      → (r : WriteRun S) × (write_all sink token device polls bytes ≡ some r)
  unfolding write_all
  write_all_ends device polls bytes =
      write_loop_ends (suc (length bytes)) device polls bytes (omega arith)
