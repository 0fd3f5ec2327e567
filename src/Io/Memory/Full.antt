-- ===== src/Io/Memory/Full.antt =====
-- What writing a span beyond the maximum size of a memory sink leaves.
use shibori_engine.Base.{
  ℕ, zero, suc, ◌+◌, ◌-◌, ◌≤◌, ◌<◌, ◌≡◌, refl, sym, ap, ap₂, ◌∙◌, arith, Bool, true, false, not,
  ◌&&◌, ◌==◌, Bool-cases, Option, List, [], ◌∷◌, ◌++◌, length, take, drop, inl, inr, length-take,
  length-drop, take-append-drop, take-take-drop, ==_iff, ne_of_not_==, le→ltb_false,
}
use mathlib.Core.List.{append-nil}
use shibori_engine.Error.{ErrorCode, Operation, new_error, ◌>>=◌, fail}
use shibori_engine.Io.{
  CancellationToken, is_cancelled, Reply, reply, WriteRun, after_write, write_loop, write_all,
  write_run,
}
use shibori_engine.Io.Rounds.{write_loop-fails}
use shibori_engine.Io.Memory.Copying.{memcpy-memcpy, reached_by}
use shibori_engine.Io.Memory.{MemoryByteSink, memcpy, write_count, memory_write, memory_sink}
use shibori_engine.Io.Memory.Sink.{sink_at, write_loop_step}

no_space_left :
    (supplied position maximum_size : ℕ)
    → position ≡ maximum_size
    → (not (suc supplied == 0) && (maximum_size - position == 0)) ≡ true
no_space_left supplied position maximum_size h = ground arith

module _ (has_room : ℕ → Bool) (room : (size : ℕ) → has_room size ≡ true)
    (token : CancellationToken) (never : (polls : ℕ) → is_cancelled token polls ≡ false)
    (maximum_size maximum_write_size : ℕ) (writes_some : 0 < maximum_write_size) where
  memory_write_full :
      (polls position : ℕ) (bytes : List ℕ) (x : ℕ) (supplied : List ℕ)
      → position ≡ maximum_size
      → (let sink = sink_at maximum_size maximum_write_size bytes position in
          memory_write has_room token polls sink (x ∷ supplied)
          ≡ reply sink (polls + 1) (
              fail ErrorCode.limit_exceeded Operation.write "memory sink maximum size was reached"))
  unfolding memory_write
  memory_write_full polls position bytes x supplied full =
      rw
        (
          never polls,
          le→ltb_false maximum_size position (omega arith),
          no_space_left (length supplied) position maximum_size full,
        )
        refl

  full_result : ℕ → List ℕ → ℕ → List ℕ → Option (WriteRun MemoryByteSink)
  full_result calls bytes position supplied =
      write_run
        (sink_at maximum_size maximum_write_size
          (memcpy bytes position (take (maximum_size - position) supplied)) maximum_size)
        calls (fail ErrorCode.limit_exceeded Operation.write "memory sink maximum size was reached")

  memcpy_nothing :
      (bytes : List ℕ) (position : ℕ) (supplied : List ℕ)
      → position ≡ maximum_size
      → bytes ≡ memcpy bytes position (take (maximum_size - position) supplied)
  memcpy_nothing bytes position supplied full =
      let none_left : maximum_size - position ≡ 0 = omega arith in
      sym (
        ap (λ (n : ℕ). memcpy bytes position (take n supplied)) none_left
        ∙ ap₂ (λ (front : List ℕ) (n : ℕ). front ++ drop n bytes) (append-nil (take position bytes))
            (omega arith)
        ∙ take-append-drop position bytes)

  write_loop_full :
      (fuel position polls : ℕ) (bytes supplied : List ℕ)
      → length supplied < fuel
      → position ≤ length bytes
      → position ≤ maximum_size
      → maximum_size < position + length supplied
      → (calls : ℕ) × (write_loop
            (memory_sink has_room)
            token
            fuel
            (sink_at maximum_size maximum_write_size bytes position)
            polls
            supplied
          ≡ full_result calls bytes position supplied)
  unfolding full_result
  write_loop_full zero position polls bytes supplied enough within bounded over =
      absurd (omega arith)
  write_loop_full (suc fuel) position polls bytes [] enough within bounded over =
      absurd (omega arith)
  write_loop_full (suc fuel) position polls bytes (x ∷ supplied) enough within bounded over =
      let sink = sink_at maximum_size maximum_write_size bytes position in
      elim (Bool-cases (position == maximum_size)) [
        | inl at_end ↦
            let full = (==_iff position maximum_size).0 at_end in
            let write_ends = memory_write_full (polls + 1) position bytes x supplied full in
            (
              _,
              write_loop-fails (memory_sink has_room) token fuel sink polls x supplied
                    (new_error ErrorCode.limit_exceeded Operation.write
                      "memory sink maximum size was reached")
                    (never polls)
                    (ap
                      (λ (r : Reply MemoryByteSink ℕ).
                        r.answer >>= λ written. after_write written (suc (length supplied)))
                      write_ends)
                  ∙ ap
                      (λ (r : Reply MemoryByteSink ℕ). write_run r.device r.polls (
                        fail ErrorCode.limit_exceeded Operation.write
                          "memory sink maximum size was reached"))
                      write_ends
                  ∙ ap₂
                      (λ (stored : List ℕ) (p : ℕ).
                        write_run (sink_at maximum_size maximum_write_size stored p) (polls + 1 + 1)
                          (fail ErrorCode.limit_exceeded Operation.write
                            "memory sink maximum size was reached"))
                      (memcpy_nothing bytes position (x ∷ supplied) full) full,
            )
        | inr further ↦
            let other = ne_of_not_== position maximum_size further in
            let count = write_count sink (x ∷ supplied) in
            let piece = take count (x ∷ supplied) in
            let later = drop count (x ∷ supplied) in
            let size = length-take count (x ∷ supplied) in
            let left = length-drop count (x ∷ supplied) in
            let reached = reached_by bytes piece position within in
            let taken : position + count ≡ position + length piece = omega arith in
            let total : count + (maximum_size - (position + count)) ≡ maximum_size - position =
              omega arith in
            let (calls, ends) =
              write_loop_full fuel (position + count) (polls + 1 + 1) (memcpy bytes position piece)
                later (omega arith) (omega arith) (omega arith) (omega arith) in
            (
              calls,
              write_loop_step has_room room token never maximum_size maximum_write_size writes_some
                    fuel position polls bytes x supplied within (omega arith)
                  ∙ ends
                  ∙ ap
                      (λ (stored : List ℕ).
                        write_run (sink_at maximum_size maximum_write_size stored maximum_size)
                          calls
                          (fail ErrorCode.limit_exceeded Operation.write
                            "memory sink maximum size was reached"))
                      (ap
                          (λ (p : ℕ).
                            memcpy (memcpy bytes position piece) p
                              (take (maximum_size - (position + count)) later))
                          taken
                        ∙ memcpy-memcpy bytes piece (take (maximum_size - (position + count)) later)
                            position within
                        ∙ ap (memcpy bytes position) (
                            take-take-drop count (maximum_size - (position + count)) (x ∷ supplied)
                            ∙ ap (λ (n : ℕ). take n (x ∷ supplied)) total)),
            )
      ]

  -- To a memory sink that takes at least a byte each time and whose vector can grow, with a token
  -- that is never cancelled, writing a span that goes beyond the maximum size ends with
  -- `limit_exceeded`: as many of its bytes as fit stand from the sink's position on, and the
  -- position is the maximum.
  pub write_all-full :
      (position polls : ℕ) (bytes supplied : List ℕ)
      → position ≤ length bytes
      → position ≤ maximum_size
      → maximum_size < position + length supplied
      → (calls : ℕ) × (write_all
            (memory_sink has_room)
            token
            (sink_at maximum_size maximum_write_size bytes position)
            polls
            supplied
          ≡ write_run
              (sink_at maximum_size maximum_write_size
                (memcpy bytes position (take (maximum_size - position) supplied))
                maximum_size)
              calls
              (fail ErrorCode.limit_exceeded Operation.write
                "memory sink maximum size was reached"))
  unfolding write_all full_result
  write_all-full position polls bytes supplied within bounded over =
      write_loop_full (suc (length supplied)) position polls bytes supplied (omega arith) within
        bounded over
