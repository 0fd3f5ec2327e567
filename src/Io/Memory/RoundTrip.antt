-- ===== src/Io/Memory/RoundTrip.antt =====
-- Writing at a position and reading from it again: `write_all_at` and `read_exact_at` of src/io.cpp
-- over the memory devices.
use shibori_engine.Base.{
  ℕ, ◌+◌, ◌≤◌, ◌<◌, ◌≡◌, refl, ap, ◌∙◌, arith, Bool, true, false, List, ◌++◌, length, take, drop,
  length-take, take-append_at, drop-append_at, le→ltb_false,
}
use mathlib.Core.List.{append_assoc}
use shibori_engine.Error.{ok}
use shibori_engine.Io.{
  CancellationToken, is_cancelled, reply, read_run, write_run, read_exact_at, write_all_at,
  require_source_capabilities, require_sink_capabilities,
}
use shibori_engine.Io.Rounds.{read_exact_at-seeks, write_all_at-seeks}
use shibori_engine.Io.Memory.{
  MemoryByteSource, MemoryByteSink, source_at, memcpy, memory_source, memory_sink,
  memory_source_seek, memory_sink_seek,
}
use shibori_engine.Io.Memory.Copying.{reached_by}
use shibori_engine.Io.Memory.Source.{read_exact-fills}
use shibori_engine.Io.Memory.Sink.{sink_at, write_all-stores}

-- What was copied to a position stands there.
copied_back :
    (bytes supplied : List ℕ) (position : ℕ)
    → position ≤ length bytes
    → take (length supplied) (drop position (memcpy bytes position supplied)) ≡ supplied
copied_back bytes supplied position within =
    let back = drop (position + length supplied) bytes in
    let size : length (take position bytes) ≡ position =
      omega (arith, length-take position bytes) in
    ap (take (length supplied)) (
      ap (drop position) (append_assoc (take position bytes) supplied back)
      ∙ drop-append_at position (take position bytes) (supplied ++ back) size)
    ∙ take-append_at (length supplied) supplied back refl

module _ (token : CancellationToken) (never : (polls : ℕ) → is_cancelled token polls ≡ false) where
  memory_source_seek-sought :
      (bytes : List ℕ) (maximum_read_size start position polls : ℕ)
      → position ≤ length bytes
      → memory_source_seek token polls (source_at bytes maximum_read_size start) position
        ≡ reply (source_at bytes maximum_read_size position) (polls + 1) (ok tt)
  unfolding memory_source_seek
  memory_source_seek-sought bytes maximum_read_size start position polls within =
      rw (never polls, le→ltb_false (length bytes) position within) refl

  memory_sink_seek-sought :
      (has_room : ℕ → Bool) (bytes : List ℕ)
      (maximum_size maximum_write_size start position polls : ℕ)
      → position ≤ length bytes
      → memory_sink_seek has_room token polls
          (sink_at maximum_size maximum_write_size bytes start)
          position
        ≡ reply (sink_at maximum_size maximum_write_size bytes position) (polls + 1) (ok tt)
  unfolding memory_sink_seek
  memory_sink_seek-sought has_room bytes maximum_size maximum_write_size start position polls
        within =
      rw (never polls, le→ltb_false (length bytes) position within) refl

  read_exact_at-fills :
      (bytes : List ℕ) (maximum_read_size : ℕ)
      → 0 < maximum_read_size
      → (start position polls : ℕ) (destination : List ℕ)
      → position + length destination ≤ length bytes
      → (calls : ℕ) × (read_exact_at memory_source token
            (source_at bytes maximum_read_size start)
            polls
            position
            destination
          ≡ read_run
              (source_at bytes maximum_read_size (position + length destination))
              calls
              (take (length destination) (drop position bytes))
              (ok tt))
  unfolding require_source_capabilities
  read_exact_at-fills bytes maximum_read_size reads_some start position polls destination fits =
      let (calls, fills) =
        read_exact-fills token never bytes maximum_read_size reads_some position (polls + 1 + 1)
          destination fits in
      (
        calls,
        read_exact_at-seeks memory_source token (source_at bytes maximum_read_size start)
              (source_at bytes maximum_read_size position) polls (polls + 1 + 1) position
              destination refl (never polls)
              (memory_source_seek-sought bytes maximum_read_size start position (polls + 1)
                (omega arith))
            ∙ fills,
      )

  write_all_at-stores :
      (has_room : ℕ → Bool)
      → ((size : ℕ) → has_room size ≡ true)
      → (maximum_size maximum_write_size : ℕ) → 0 < maximum_write_size
      → (start position polls : ℕ) (bytes supplied : List ℕ) → position ≤ length bytes
      → position + length supplied ≤ maximum_size
      → (calls : ℕ) × (write_all_at
            (memory_sink has_room)
            token
            (sink_at maximum_size maximum_write_size bytes start)
            polls
            position
            supplied
          ≡ write_run
              (sink_at maximum_size maximum_write_size
                (memcpy bytes position supplied)
                (position + length supplied))
              calls
              (ok tt))
  unfolding require_sink_capabilities
  write_all_at-stores has_room room maximum_size maximum_write_size writes_some start position polls
        bytes supplied within fits =
      let (calls, stores) =
        write_all-stores has_room room token never maximum_size maximum_write_size writes_some
          position (polls + 1 + 1) bytes supplied within fits in
      (
        calls,
        write_all_at-seeks (memory_sink has_room) token
              (sink_at maximum_size maximum_write_size bytes start)
              (sink_at maximum_size maximum_write_size bytes position) polls (polls + 1 + 1)
              position supplied refl (never polls)
              (memory_sink_seek-sought has_room bytes maximum_size maximum_write_size start position
                (polls + 1) within)
            ∙ stores,
      )

  -- With a token that is never cancelled, bytes written at a position of a memory sink, wherever it
  -- stood, and within its maximum size are read back from the same position of a memory source over
  -- the sink's bytes, wherever that stood and whatever the largest write and read are, as long as
  -- each is at least one byte and the sink's vector can grow.
  pub read_exact_at-write_all_at :
      (has_room : ℕ → Bool)
      → ((size : ℕ) → has_room size ≡ true)
      → (maximum_size maximum_write_size maximum_read_size : ℕ) → 0 < maximum_write_size
      → 0 < maximum_read_size
      → (start origin position : ℕ) (bytes supplied destination : List ℕ) → position ≤ length bytes
      → position + length supplied ≤ maximum_size
      → length destination ≡ length supplied
      → (sink : MemoryByteSink) × (source : MemoryByteSource) × (writes : ℕ) × (reads : ℕ)
        × (write_all_at
              (memory_sink has_room)
              token
              (sink_at maximum_size maximum_write_size bytes start)
              0
              position
              supplied
            ≡ write_run sink writes (ok tt))
        × (read_exact_at memory_source token
              (source_at sink.bytes maximum_read_size origin)
              writes
              position
              destination
            ≡ read_run source reads supplied (ok tt))
  read_exact_at-write_all_at has_room room maximum_size maximum_write_size maximum_read_size
        writes_some reads_some start origin position bytes supplied destination within fits same =
      let stored = memcpy bytes position supplied in
      let reached = reached_by bytes supplied position within in
      let (writes, stores) =
        write_all_at-stores has_room room maximum_size maximum_write_size writes_some start position
          0 bytes supplied within fits in
      let (reads, fills) =
        read_exact_at-fills stored maximum_read_size reads_some origin position writes destination
          (omega arith) in
      let back : take (length destination) (drop position stored) ≡ supplied =
        ap (λ (n : ℕ). take n (drop position stored)) same
        ∙ copied_back bytes supplied position within in
      (
        _,
        _,
        writes,
        reads,
        stores,
        fills
            ∙ ap
                (λ (span : List ℕ).
                  read_run (source_at stored maximum_read_size (position + length destination))
                    reads span (ok tt))
                back,
      )
