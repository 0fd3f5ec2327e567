-- ===== src/Io/Memory/Sink.antt =====
-- What writing a whole span to a memory sink leaves, however few bytes one write takes.
use shibori_engine.Base.{
  ℕ, zero, suc, ◌+◌, ◌-◌, ◌≤◌, ◌<◌, ◌≡◌, refl, sym, ap, ap₂, ◌∙◌, arith, Bool, true, false, not,
  ◌&&◌, ltb, ◌==◌, Option, List, [], ◌∷◌, ◌++◌, length, take, drop, length-take, length-drop,
  take-append-drop, le→ltb_false,
}
use mathlib.Core.List.{append-nil}
use shibori_engine.Error.{ok, Status, ◌>>=◌}
use shibori_engine.Io.{
  CancellationToken, is_cancelled, Reply, reply, WriteRun, after_write, write_loop, write_all,
  write_run,
}
use shibori_engine.Io.Rounds.{write_loop-goes_on}
use shibori_engine.Io.Memory.Copying.{memcpy-grown, memcpy-memcpy, reached_by}
use shibori_engine.Io.Memory.{MemoryByteSink, memcpy, grown, write_count, memory_write, memory_sink}

abbrev pub sink_at : ℕ → ℕ → List ℕ → ℕ → MemoryByteSink
sink_at maximum_size maximum_write_size bytes position = record {
  bytes = bytes;
  position = position;
  maximum_size = maximum_size;
  maximum_write_size = maximum_write_size;
}

module _ (supplied position maximum_size : ℕ) where
  space_left :
      position < maximum_size → (not (supplied == 0) && (maximum_size - position == 0)) ≡ false
  space_left h = ground arith

grows : (beyond : Bool) → (beyond && not true) ≡ false
grows true = refl
grows false = refl

module _ (has_room : ℕ → Bool) (room : (size : ℕ) → has_room size ≡ true)
    (token : CancellationToken) (never : (polls : ℕ) → is_cancelled token polls ≡ false)
    (maximum_size maximum_write_size : ℕ) (writes_some : 0 < maximum_write_size) where
  memory_write_going :
      (polls position : ℕ) (bytes : List ℕ) (x : ℕ) (supplied : List ℕ)
      → position ≤ length bytes
      → position < maximum_size
      → (let sink = sink_at maximum_size maximum_write_size bytes position in
          let count = write_count sink (x ∷ supplied) in
          memory_write has_room token polls sink (x ∷ supplied)
          ≡ reply
              (sink_at maximum_size maximum_write_size
                (memcpy bytes position (take count (x ∷ supplied)))
                (position + count))
              (polls + 1)
              (ok count))
  unfolding memory_write
  memory_write_going polls position bytes x supplied within space =
      let sink = sink_at maximum_size maximum_write_size bytes position in
      let count = write_count sink (x ∷ supplied) in
      let piece = take count (x ∷ supplied) in
      let size = length-take count (x ∷ supplied) in
      let fits : position + count ≡ position + length piece = omega arith in
      rw
        (
          never polls,
          le→ltb_false maximum_size position (omega arith),
          space_left (suc (length supplied)) position maximum_size space,
          room (position + count),
          grows (ltb (length bytes) (position + count)),
        )
        (ap
          (λ (stored : List ℕ).
            reply (sink_at maximum_size maximum_write_size stored (position + count)) (polls + 1)
              (ok count))
          (ap (λ (end : ℕ). memcpy (grown bytes end) position piece) fits
            ∙ memcpy-grown bytes piece position within))

  after_write-all :
      (written remaining : ℕ)
      → 0 < written
      → written ≤ remaining
      → after_write written remaining ≡ ok written
  unfolding after_write
  after_write-all written remaining some_written within = ground arith

  abbrev end_of_write : ℕ → List ℕ → ℕ → List ℕ → Status → Option (WriteRun MemoryByteSink)
  end_of_write calls bytes position supplied status =
      write_run
        (sink_at maximum_size maximum_write_size (memcpy bytes position supplied)
          (position + length supplied))
        calls status

  -- One round that goes on.
  pub write_loop_step :
      (fuel position polls : ℕ) (bytes : List ℕ) (x : ℕ) (supplied : List ℕ)
      → position ≤ length bytes
      → position < maximum_size
      → (let sink = sink_at maximum_size maximum_write_size bytes position in
          let count = write_count sink (x ∷ supplied) in
          write_loop (memory_sink has_room) token (suc fuel) sink polls (x ∷ supplied)
          ≡ write_loop
              (memory_sink has_room)
              token
              fuel
              (sink_at maximum_size maximum_write_size
                (memcpy bytes position (take count (x ∷ supplied)))
                (position + count))
              (polls + 1 + 1)
              (drop count (x ∷ supplied)))
  write_loop_step fuel position polls bytes x supplied within space =
      let sink = sink_at maximum_size maximum_write_size bytes position in
      let count = write_count sink (x ∷ supplied) in
      let write_ends = memory_write_going (polls + 1) position bytes x supplied within space in
      write_loop-goes_on (memory_sink has_room) token fuel sink polls x supplied count (never polls)
        (ap
            (λ (r : Reply MemoryByteSink ℕ).
              r.answer >>= λ written. after_write written (suc (length supplied)))
            write_ends
          ∙ after_write-all count (suc (length supplied)) (omega arith) (omega arith))
      ∙ ap
          (λ (r : Reply MemoryByteSink ℕ).
            write_loop (memory_sink has_room) token fuel r.device r.polls
              (drop count (x ∷ supplied)))
          write_ends

  write_loop_stores :
      (fuel position polls : ℕ) (bytes supplied : List ℕ)
      → length supplied < fuel
      → position ≤ length bytes
      → position + length supplied ≤ maximum_size
      → (calls : ℕ) × (write_loop
            (memory_sink has_room)
            token
            fuel
            (sink_at maximum_size maximum_write_size bytes position)
            polls
            supplied
          ≡ end_of_write calls bytes position supplied (ok tt))
  unfolding write_loop
  write_loop_stores zero position polls bytes supplied enough within fits = absurd (omega arith)
  write_loop_stores (suc fuel) position polls bytes [] enough within fits =
      let kept : bytes ≡ memcpy bytes position [] = sym (
        ap₂ (λ (front : List ℕ) (n : ℕ). front ++ drop n bytes) (append-nil (take position bytes))
          (omega arith)
        ∙ take-append-drop position bytes) in
      (
        polls,
        ap₂
            (λ (stored : List ℕ) (p : ℕ).
              write_run (sink_at maximum_size maximum_write_size stored p) polls (ok tt))
            kept (omega arith),
      )
  write_loop_stores (suc fuel) position polls bytes (x ∷ supplied) enough within fits =
      let count =
        write_count (sink_at maximum_size maximum_write_size bytes position) (x ∷ supplied) in
      let piece = take count (x ∷ supplied) in
      let size = length-take count (x ∷ supplied) in
      let left = length-drop count (x ∷ supplied) in
      let reached = reached_by bytes piece position within in
      let taken : position + count ≡ position + length piece = omega arith in
      let (calls, ends) =
        write_loop_stores fuel (position + count) (polls + 1 + 1) (memcpy bytes position piece)
          (drop count (x ∷ supplied)) (omega arith) (omega arith) (omega arith) in
      (
        calls,
        write_loop_step fuel position polls bytes x supplied within (omega arith)
            ∙ ends
            ∙ ap₂
                (λ (stored : List ℕ) (p : ℕ).
                  write_run (sink_at maximum_size maximum_write_size stored p) calls (ok tt))
                (ap (λ (p : ℕ). memcpy (memcpy bytes position piece) p (drop count (x ∷ supplied)))
                    taken
                  ∙ memcpy-memcpy bytes piece (drop count (x ∷ supplied)) position within
                  ∙ ap (memcpy bytes position) (take-append-drop count (x ∷ supplied)))
                (omega arith),
      )

  -- To a memory sink that takes at least a byte each time and whose vector can grow, with a token
  -- that is never cancelled, writing a span that fits below the maximum size succeeds whatever the
  -- largest write is: the span stands from the sink's position on, the bytes before and after it
  -- are as they were, and the position moves by its length.
  pub write_all-stores :
      (position polls : ℕ) (bytes supplied : List ℕ)
      → position ≤ length bytes
      → position + length supplied ≤ maximum_size
      → (calls : ℕ) × (write_all
            (memory_sink has_room)
            token
            (sink_at maximum_size maximum_write_size bytes position)
            polls
            supplied
          ≡ write_run
              (sink_at maximum_size maximum_write_size
                (memcpy bytes position supplied)
                (position + length supplied))
              calls
              (ok tt))
  unfolding write_all
  write_all-stores position polls bytes supplied within fits =
      write_loop_stores (suc (length supplied)) position polls bytes supplied (omega arith) within
        fits
