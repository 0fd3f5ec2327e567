-- ===== src/Io/Memory/Short.antt =====
-- What reading a span that is longer than what is left of a memory source gives.
use shibori_engine.Base.{
  ℕ, zero, suc, ◌+◌, ◌-◌, ◌≤◌, ◌<◌, ◌≡◌, sym, ap, ap₂, ◌∙◌, arith, Bool, true, false, ◌==◌,
  Bool-cases, Option, List, [], ◌∷◌, ◌++◌, length, take, drop, inl, inr, length-drop,
  take-append-drop, take-all, drop-drop, ==_iff, ne_of_not_==,
}
use mathlib.Core.List.{append_assoc}
use shibori_engine.Error.{ErrorCode, Operation, new_error, ◌>>=◌}
use shibori_engine.Io.{
  CancellationToken, is_cancelled, ReadOutcome, Reply, ReadRun, after_read, read_loop, read_exact,
  read_run, premature_end,
}
use shibori_engine.Io.Rounds.{read_loop-fails}
use shibori_engine.Io.Memory.{MemoryByteSource, source_at, read_count, memory_source, read_outcome}
use shibori_engine.Io.Memory.Source.{
  read_count-exact, length-copied, memory_read_going, read_loop_step,
}

module _ (token : CancellationToken) (never : (polls : ℕ) → is_cancelled token polls ≡ false)
    (bytes : List ℕ) (maximum_read_size : ℕ) (reads_some : 0 < maximum_read_size) where
  -- The bytes that one round and the rounds after it have copied, and the rest of the span.
  short_pieces :
      (completed : List ℕ) (count position : ℕ) (rest : List ℕ)
      → position + count ≤ length bytes
      → (completed ++ take count (drop position bytes))
          ++ (drop (position + count) bytes
              ++ drop (length bytes - (position + count)) (drop count rest))
        ≡ completed ++ (drop position bytes ++ drop (length bytes - position) rest)
  short_pieces completed count position rest within =
      append_assoc completed (take count (drop position bytes)) _
      ∙ ap (◌++◌ completed) (
          sym (append_assoc (take count (drop position bytes)) (drop (position + count) bytes) _)
          ∙ ap₂ ◌++◌
              (ap (◌++◌ (take count (drop position bytes))) (sym (drop-drop position count bytes))
                ∙ take-append-drop count (drop position bytes))
              (drop-drop count (length bytes - (position + count)) rest
                ∙ ap (λ (n : ℕ). drop n rest) (omega arith)))

  after_read-short :
      (count remaining : ℕ)
      → count < remaining
      → after_read (read_outcome count true) remaining ≡ premature_end
  unfolding after_read
  after_read-short count remaining h = ground arith

  abbrev short_result : ℕ → List ℕ → ℕ → List ℕ → Option (ReadRun MemoryByteSource)
  short_result calls completed position rest =
      read_run (source_at bytes maximum_read_size (length bytes)) calls
        (completed ++ (drop position bytes ++ drop (length bytes - position) rest)) premature_end

  -- The round that reaches the end.
  read_loop_last :
      (fuel position polls : ℕ) (completed : List ℕ) (x : ℕ) (rest : List ℕ)
      → length bytes < position + suc (length rest)
      → position + read_count (source_at bytes maximum_read_size position) (x ∷ rest) ≡ length bytes
      → read_loop memory_source token
          (suc fuel)
          (source_at bytes maximum_read_size position)
          polls
          completed
          (x ∷ rest)
        ≡ short_result (polls + 1 + 1) completed position (x ∷ rest)
  read_loop_last fuel position polls completed x rest short at_end =
      let source = source_at bytes maximum_read_size position in
      let count = read_count source (x ∷ rest) in
      let copied = take count (drop position bytes) in
      let size = length-copied bytes (x ∷ rest) maximum_read_size position (omega arith) in
      let all_copied : copied ≡ drop position bytes =
        take-all count (drop position bytes) (omega (arith, length-drop position bytes)) in
      let read_ends =
        memory_read_going token never bytes maximum_read_size reads_some (polls + 1) position
          (x ∷ rest) in
      let ended : (position + count == length bytes) ≡ true =
        (==_iff (position + count) (length bytes)).1 at_end in
      read_loop-fails memory_source token fuel source polls completed x rest
        (new_error ErrorCode.unexpected_end Operation.read
          "byte source ended before the requested bytes")
        (never polls)
        (ap
            (λ (r : Reply MemoryByteSource ReadOutcome × List ℕ).
              r.0.answer >>= λ outcome. after_read outcome (suc (length rest)))
            read_ends
          ∙ ap (λ (eof : Bool). after_read (read_outcome count eof) (suc (length rest))) ended
          ∙ after_read-short count (suc (length rest)) (omega arith))
      ∙ ap
          (λ (r : Reply MemoryByteSource ReadOutcome × List ℕ).
            read_run r.0.device r.0.polls (completed ++ r.1) premature_end)
          read_ends
      ∙ ap₂
          (λ (p : ℕ) (span : List ℕ).
            read_run (source_at bytes maximum_read_size p) (polls + 1 + 1) (completed ++ span)
              premature_end)
          at_end
          (ap₂ (λ (front : List ℕ) (n : ℕ). front ++ drop n (x ∷ rest)) all_copied
            (omega (arith, size)))

  read_loop_short :
      (fuel position polls : ℕ) (completed rest : List ℕ)
      → length rest < fuel
      → position ≤ length bytes
      → length bytes < position + length rest
      → (calls : ℕ) × (read_loop memory_source token fuel
            (source_at bytes maximum_read_size position)
            polls
            completed
            rest
          ≡ short_result calls completed position rest)
  read_loop_short zero position polls completed rest enough within short = absurd (omega arith)
  read_loop_short (suc fuel) position polls completed [] enough within short = absurd (omega arith)
  read_loop_short (suc fuel) position polls completed (x ∷ rest) enough within short =
      let count = read_count (source_at bytes maximum_read_size position) (x ∷ rest) in
      let counted = read_count-exact bytes (x ∷ rest) maximum_read_size position within in
      elim (Bool-cases (position + count == length bytes)) [
        | inl ended ↦ (
          _,
          read_loop_last fuel position polls completed x rest short
              ((==_iff (position + count) (length bytes)).0 ended),
        )
        | inr further ↦
            let other = ne_of_not_== (position + count) (length bytes) further in
            let left = length-drop count (x ∷ rest) in
            let (calls, ends) =
              read_loop_short fuel (position + count) (polls + 1 + 1)
                (completed ++ take count (drop position bytes)) (drop count (x ∷ rest))
                (omega arith) (omega arith) (omega arith) in
            (
              calls,
              read_loop_step token never bytes maximum_read_size reads_some fuel position polls
                    completed x rest (omega arith) (λ at_end. absurd (other at_end))
                  ∙ ends
                  ∙ ap
                      (λ (destination : List ℕ).
                        read_run (source_at bytes maximum_read_size (length bytes)) calls
                          destination premature_end)
                      (short_pieces completed count position (x ∷ rest) (omega arith)),
            )
      ]

  -- From a memory source that returns at least a byte each time, with a token that is never
  -- cancelled, reading a span longer than what is left ends with `unexpected_end`: the bytes that
  -- are left stand in front of the span, whose rest is as it was, and the source is at its end.
  pub read_exact-short :
      (position polls : ℕ) (destination : List ℕ)
      → position ≤ length bytes
      → length bytes < position + length destination
      → (calls : ℕ) × (read_exact memory_source token
            (source_at bytes maximum_read_size position)
            polls
            destination
          ≡ read_run
              (source_at bytes maximum_read_size (length bytes))
              calls
              (drop position bytes ++ drop (length bytes - position) destination)
              premature_end)
  unfolding read_exact
  read_exact-short position polls destination within short =
      read_loop_short (suc (length destination)) position polls [] destination (omega arith) within
        short
