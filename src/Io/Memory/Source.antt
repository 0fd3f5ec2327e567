-- ===== src/Io/Memory/Source.antt =====
-- What reading a whole span from a memory source gives, however few bytes one read returns.
use shibori_engine.Base.{
  ℕ, zero, suc, ◌+◌, ◌-◌, ◌≤◌, ◌<◌, min, ◌≡◌, refl, sym, ap, ap₂, ◌∙◌, arith, Bool, true, false,
  ◌==◌, Bool-cases, List, [], ◌∷◌, ◌++◌, length, take, drop, length-append, inl, inr, length-take,
  length-drop, take-append_at, drop-append_at, take-take-drop, drop-drop, ==_iff,
}
use mathlib.Core.List.{append_assoc, append-nil}
use shibori_engine.Error.{ok, ◌>>=◌}
use shibori_engine.Io.{
  CancellationToken, is_cancelled, ReadOutcome, Reply, reply, after_read, read_loop, read_exact,
  read_run,
}
use shibori_engine.Io.Rounds.{read_loop-goes_on}
use shibori_engine.Io.Termination.{IsSource}
use shibori_engine.Io.Memory.{
  MemoryByteSource, source_at, memcpy, read_count, memory_read, memory_source, read_outcome,
}

pub read_count-exact :
    (bytes destination : List ℕ) (maximum_read_size position : ℕ)
    → position ≤ length bytes
    → read_count (source_at bytes maximum_read_size position) destination
      ≡ min (min (length destination) maximum_read_size) (length bytes - position)
read_count-exact bytes destination maximum_read_size position h = ground arith

pub length-copied :
    (bytes destination : List ℕ) (maximum_read_size position : ℕ)
    → position ≤ length bytes
    → length (
        take
          (read_count (source_at bytes maximum_read_size position) destination)
          (drop position bytes))
      ≡ read_count (source_at bytes maximum_read_size position) destination
length-copied bytes destination maximum_read_size position h =
    let count = read_count (source_at bytes maximum_read_size position) destination in
    omega (
      arith,
      length-take count (drop position bytes),
      length-drop position bytes,
      read_count-exact bytes destination maximum_read_size position h,
    )

-- A read writes within the span that it is handed.
pub memory_source-IsSource : IsSource memory_source
unfolding memory_read
memory_source-IsSource = record { keeps_span = keeps }
  where
    keeps :
        (token : CancellationToken) (polls : ℕ) (source : MemoryByteSource) (destination : List ℕ)
        → length (memory_read token polls source destination).1 ≡ length destination
    keeps token polls source destination =
        let count = read_count source destination in
        let copied = take count (drop source.position source.bytes) in
        let size = length-take count (drop source.position source.bytes) in
        elim (Bool-cases (token polls)) [
          | inl stopped ↦ rw stopped refl
          | inr going ↦ rw going (
              omega (
                arith,
                size,
                length-append copied (drop (0 + length copied) destination),
                length-drop (0 + length copied) destination,
              ))
        ]

after_read-all :
    (count remaining : ℕ) (eof : Bool)
    → 0 < count
    → count ≤ remaining
    → (eof ≡ true → count ≡ remaining)
    → after_read (read_outcome count eof) remaining ≡ ok count
unfolding after_read
after_read-all count remaining eof some_read within ends = ground (arith, ends)

module _ (token : CancellationToken) (never : (polls : ℕ) → is_cancelled token polls ≡ false)
    (bytes : List ℕ) (maximum_read_size : ℕ) (reads_some : 0 < maximum_read_size) where
  pub memory_read_going :
      (polls position : ℕ) (destination : List ℕ)
      → (let source = source_at bytes maximum_read_size position in
          let count = read_count source destination in
          memory_read token polls source destination ≡ (
            reply
                (source_at bytes maximum_read_size (position + count))
                (polls + 1)
                (ok (read_outcome count (position + count == length bytes))),
            memcpy destination 0 (take count (drop position bytes)),
          ))
  unfolding memory_read
  memory_read_going polls position destination = rw (never polls) refl

  -- One round that goes on.
  pub read_loop_step :
      (fuel position polls : ℕ) (completed : List ℕ) (x : ℕ) (rest : List ℕ)
      → (let count = read_count (source_at bytes maximum_read_size position) (x ∷ rest) in
          position < length bytes
          → (position + count ≡ length bytes → count ≡ suc (length rest))
          → read_loop memory_source token
              (suc fuel)
              (source_at bytes maximum_read_size position)
              polls
              completed
              (x ∷ rest)
            ≡ read_loop memory_source token fuel
                (source_at bytes maximum_read_size (position + count))
                (polls + 1 + 1)
                (completed ++ take count (drop position bytes))
                (drop count (x ∷ rest)))
  read_loop_step fuel position polls completed x rest within at_end =
      let source = source_at bytes maximum_read_size position in
      let count = read_count source (x ∷ rest) in
      let counted = read_count-exact bytes (x ∷ rest) maximum_read_size position (omega arith) in
      let copied = take count (drop position bytes) in
      let size = length-copied bytes (x ∷ rest) maximum_read_size position (omega arith) in
      let goes_on =
        after_read-all count (suc (length rest)) (position + count == length bytes) (omega arith)
          (omega arith) (λ ends. at_end ((==_iff (position + count) (length bytes)).0 ends)) in
      let read_ends = memory_read_going (polls + 1) position (x ∷ rest) in
      read_loop-goes_on memory_source token fuel source polls completed x rest count (never polls) (
        ap
          (λ (r : Reply MemoryByteSource ReadOutcome × List ℕ).
            r.0.answer >>= λ outcome. after_read outcome (suc (length rest)))
          read_ends
        ∙ goes_on)
      ∙ ap
          (λ (r : Reply MemoryByteSource ReadOutcome × List ℕ).
            read_loop memory_source token fuel r.0.device r.0.polls (completed ++ take count r.1)
              (drop count r.1))
          read_ends
      ∙ ap₂
          (λ (front back : List ℕ).
            read_loop memory_source token fuel
              (source_at bytes maximum_read_size (position + count)) (polls + 1 + 1)
              (completed ++ front) back)
          (take-append_at count copied (drop (0 + length copied) (x ∷ rest)) size)
          (drop-append_at count copied (drop (0 + length copied) (x ∷ rest)) size
            ∙ ap (λ (n : ℕ). drop n (x ∷ rest)) (omega (arith, size)))

  pieces :
      (completed : List ℕ) (count total position : ℕ) (rest : List ℕ)
      → count ≤ total
      → length rest ≡ total - count
      → (completed ++ take count (drop position bytes))
          ++ take (length rest) (drop (position + count) bytes)
        ≡ completed ++ take total (drop position bytes)
  pieces completed count total position rest within size =
      append_assoc completed (take count (drop position bytes)) _
      ∙ ap
          (λ (end : List ℕ).
            completed ++ (take count (drop position bytes) ++ take (length rest) end))
          (sym (drop-drop position count bytes))
      ∙ ap (λ (end : List ℕ). completed ++ end)
          (take-take-drop count (length rest) (drop position bytes)
            ∙ ap (λ (n : ℕ). take n (drop position bytes)) (omega arith))

  read_loop_fills :
      (fuel position polls : ℕ) (completed rest : List ℕ)
      → length rest < fuel
      → position + length rest ≤ length bytes
      → (calls : ℕ) × (read_loop memory_source token fuel
            (source_at bytes maximum_read_size position)
            polls
            completed
            rest
          ≡ read_run
              (source_at bytes maximum_read_size (position + length rest))
              calls
              (completed ++ take (length rest) (drop position bytes))
              (ok tt))
  unfolding read_loop
  read_loop_fills zero position polls completed rest enough fits = absurd (omega arith)
  read_loop_fills (suc fuel) position polls completed [] enough fits = (
    polls,
    ap₂
        (λ (p : ℕ) (destination : List ℕ).
          read_run (source_at bytes maximum_read_size p) polls destination (ok tt))
        (omega arith) (sym (append-nil completed)),
  )
  read_loop_fills (suc fuel) position polls completed (x ∷ rest) enough fits =
      let count = read_count (source_at bytes maximum_read_size position) (x ∷ rest) in
      let counted = read_count-exact bytes (x ∷ rest) maximum_read_size position (omega arith) in
      let left = length-drop count (x ∷ rest) in
      let (calls, fills) =
        read_loop_fills fuel (position + count) (polls + 1 + 1)
          (completed ++ take count (drop position bytes)) (drop count (x ∷ rest)) (omega arith)
          (omega arith) in
      (
        calls,
        read_loop_step fuel position polls completed x rest (omega arith) (λ ends. omega arith)
            ∙ fills
            ∙ ap₂
                (λ (p : ℕ) (destination : List ℕ).
                  read_run (source_at bytes maximum_read_size p) calls destination (ok tt))
                (omega arith)
                (pieces completed count (suc (length rest)) position (drop count (x ∷ rest))
                  (omega arith) left),
      )

  -- From a memory source that returns at least a byte each time, with a token that is never
  -- cancelled, reading a span that the source can fill succeeds whatever the largest read is: the
  -- span becomes the bytes from the source's position on, and the position moves by its length.
  pub read_exact-fills :
      (position polls : ℕ) (destination : List ℕ)
      → position + length destination ≤ length bytes
      → (calls : ℕ) × (read_exact memory_source token
            (source_at bytes maximum_read_size position)
            polls
            destination
          ≡ read_run
              (source_at bytes maximum_read_size (position + length destination))
              calls
              (take (length destination) (drop position bytes))
              (ok tt))
  unfolding read_exact
  read_exact-fills position polls destination fits =
      read_loop_fills (suc (length destination)) position polls [] destination (omega arith) fits
