-- ===== src/Io/Memory/Tests.antt =====
-- Devices over a few bytes, and the theorems on the loops at them.
use shibori_engine.Base.{
  ℕ, ◌≡◌, refl, arith, Bool, true, false, not, ltb, some, List, [], ◌∷◌, length,
}
use shibori_engine.Error.{ErrorCode, Operation, fail, ok}
use shibori_engine.Io.{
  CancellationToken, ReadRun, WriteRun, read_exact, read_loop, after_read, read_run, write_all,
  write_loop, after_write, write_run, premature_end, cancelled, read_exact_at, write_all_at,
}
use shibori_engine.Io.Termination.{read_exact_ends, write_all_ends}
use shibori_engine.Io.Memory.{
  MemoryByteSource, source_at, copy_source, memory_read, memory_source, memory_source_seek,
  MemoryByteSink, create_sink, memory_write, memory_sink,
}
use shibori_engine.Io.Memory.Source.{memory_source-IsSource, read_exact-fills}
use shibori_engine.Io.Memory.Short.{read_exact-short}
use shibori_engine.Io.Memory.Sink.{sink_at, write_all-stores}
use shibori_engine.Io.Memory.Full.{write_all-full}
use shibori_engine.Io.Memory.RoundTrip.{read_exact_at-write_all_at}
use shibori_engine.Io.Memory.Reachable.{
  copied, after_a_read, after_a_seek, IsMemorySource, ReachableSource-invariant, created,
  after_a_write, IsMemorySink, ReachableSink-invariant,
}

abbrev never_cancelled : CancellationToken
never_cancelled polls = false

-- Cancelled from the third question on.
abbrev cancelled_third : CancellationToken
cancelled_third polls = not (ltb polls 2)

abbrev always_room : ℕ → Bool
always_room size = true

abbrev five_bytes : List ℕ
five_bytes = 10 ∷ 20 ∷ 30 ∷ 40 ∷ 50 ∷ []

abbrev blank : List ℕ
blank = 0 ∷ 0 ∷ 0 ∷ []

abbrev small_source : MemoryByteSource
small_source = source_at five_bytes 2 0

abbrev small_sink : MemoryByteSink
small_sink = sink_at 8 2 five_bytes 1

-- The second round is cancelled after the first two bytes were copied.
read_stops :
    read_exact memory_source cancelled_third small_source 0 blank
    ≡ read_run (source_at five_bytes 2 2) 3 (10 ∷ 20 ∷ 0 ∷ []) (cancelled Operation.read)
unfolding read_exact read_loop after_read memory_read
read_stops = refl

write_twice :
    write_all (memory_sink always_room) never_cancelled small_sink 0 (1 ∷ 2 ∷ 3 ∷ [])
    ≡ write_run (sink_at 8 2 (10 ∷ 1 ∷ 2 ∷ 3 ∷ 50 ∷ []) 4) 4 (ok tt)
unfolding write_all write_loop after_write memory_write
write_twice = refl

read_exact_ends_example :
    (r : ReadRun MemoryByteSource) × (read_exact memory_source cancelled_third small_source 0 blank
      ≡ some r)
    × (length r.destination ≡ length blank)
read_exact_ends_example =
    read_exact_ends memory_source memory_source-IsSource cancelled_third small_source 0 blank

write_all_ends_example :
    (r : WriteRun MemoryByteSink) × (write_all
        (memory_sink always_room)
        cancelled_third
        small_sink
        0
        five_bytes
      ≡ some r)
write_all_ends_example =
    write_all_ends (memory_sink always_room) cancelled_third small_sink 0 five_bytes

read_exact-fills_example :
    (calls : ℕ) × (read_exact memory_source never_cancelled (source_at five_bytes 2 1) 0 blank
      ≡ read_run (source_at five_bytes 2 4) calls (20 ∷ 30 ∷ 40 ∷ []) (ok tt))
read_exact-fills_example =
    read_exact-fills never_cancelled (λ polls. refl) five_bytes 2 (omega arith) 1 0 blank
      (omega arith)

read_exact-short_example :
    (calls : ℕ) × (read_exact memory_source never_cancelled (source_at five_bytes 2 3) 0 blank
      ≡ read_run (source_at five_bytes 2 5) calls (40 ∷ 50 ∷ 0 ∷ []) premature_end)
read_exact-short_example =
    read_exact-short never_cancelled (λ polls. refl) five_bytes 2 (omega arith) 3 0 blank
      (omega arith) (omega arith)

write_all-stores_example :
    (calls : ℕ) × (write_all (memory_sink always_room) never_cancelled small_sink 0 (1 ∷ 2 ∷ 3 ∷ [])
      ≡ write_run (sink_at 8 2 (10 ∷ 1 ∷ 2 ∷ 3 ∷ 50 ∷ []) 4) calls (ok tt))
write_all-stores_example =
    write_all-stores always_room (λ size. refl) never_cancelled (λ polls. refl) 8 2 (omega arith) 1
      0 five_bytes (1 ∷ 2 ∷ 3 ∷ []) (omega arith) (omega arith)

write_all-full_example :
    (calls : ℕ) × (write_all
        (memory_sink always_room)
        never_cancelled
        (sink_at 6 2 five_bytes 4)
        0
        (1 ∷ 2 ∷ 3 ∷ [])
      ≡ write_run
          (sink_at 6 2 (10 ∷ 20 ∷ 30 ∷ 40 ∷ 1 ∷ 2 ∷ []) 6)
          calls
          (fail ErrorCode.limit_exceeded Operation.write "memory sink maximum size was reached"))
write_all-full_example =
    write_all-full always_room (λ size. refl) never_cancelled (λ polls. refl) 6 2 (omega arith) 4 0
      five_bytes (1 ∷ 2 ∷ 3 ∷ []) (omega arith) (omega arith) (omega arith)

small_source_copied : copy_source true five_bytes 2 ≡ ok small_source
unfolding copy_source
small_source_copied = refl

ReachableSource-invariant_example :
    IsMemorySource
      (memory_read never_cancelled 1
        (memory_source_seek never_cancelled 0 small_source 3).device
        blank).0.device
ReachableSource-invariant_example = ReachableSource-invariant _ (
    after_a_read never_cancelled 1 blank
      (after_a_seek never_cancelled 0 3 (copied true five_bytes 2 small_source_copied)))

empty_sink_created : create_sink true 8 2 ≡ ok (sink_at 8 2 [] 0)
unfolding create_sink
empty_sink_created = refl

ReachableSink-invariant_example :
    IsMemorySink (memory_write always_room never_cancelled 0 (sink_at 8 2 [] 0) five_bytes).device
ReachableSink-invariant_example =
    ReachableSink-invariant _
      (after_a_write always_room never_cancelled 0 five_bytes (created true 8 2 empty_sink_created))

read_exact_at-write_all_at_example :
    (sink : MemoryByteSink) × (source : MemoryByteSource) × (writes : ℕ) × (reads : ℕ)
    × (write_all_at
          (memory_sink always_room)
          never_cancelled
          (sink_at 8 2 five_bytes 0)
          0
          4
          (1 ∷ 2 ∷ 3 ∷ [])
        ≡ write_run sink writes (ok tt))
    × (read_exact_at memory_source never_cancelled (source_at sink.bytes 1 0) writes 4 blank
        ≡ read_run source reads (1 ∷ 2 ∷ 3 ∷ []) (ok tt))
read_exact_at-write_all_at_example =
    read_exact_at-write_all_at never_cancelled (λ polls. refl) always_room (λ size. refl) 8 2 1
      (omega arith) (omega arith) 0 0 4 five_bytes (1 ∷ 2 ∷ 3 ∷ []) blank (omega arith)
      (omega arith) refl
