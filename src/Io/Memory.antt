-- ===== src/Io/Memory.antt =====
-- src/io.cpp: `MemoryByteSource` and `MemoryByteSink`.
pub mod Copying
pub mod Source
pub mod Short
pub mod Sink
pub mod Full
pub mod RoundTrip
pub mod Reachable
pub mod Tests
use shibori_engine.Base.{
  ℕ, zero, suc, ◌+◌, ◌-◌, min, Bool, true, false, not, ◌&&◌, ◌||◌, ltb, ◌==◌, if◌then◌else◌, Option,
  none, some, List, [], ◌∷◌, ◌++◌, length, take, drop, replicate,
}
use shibori_engine.CheckedArithmetic.{max_u64, wrapping_subtract}
use shibori_engine.Error.{ErrorCode, Operation, Result, ok, err, Status, fail}
use shibori_engine.Io.{
  CancellationToken, is_cancelled, cancelled, ByteSourceCapabilities, ByteSinkCapabilities,
  ReadOutcome, Reply, reply, ByteSource, ByteSink,
}

-- `std::memcpy(destination.data() + offset, bytes.data(), bytes.size())`
abbrev pub memcpy : List ℕ → ℕ → List ℕ → List ℕ
memcpy destination offset bytes =
    take offset destination ++ bytes ++ drop (offset + length bytes) destination

-- `MemoryByteSource::Impl`; the vector is shared and constant, so it is its bytes.
pub record MemoryByteSource : Type 0 where
  pub bytes : List ℕ
  pub maximum_read_size : ℕ
  pub position : ℕ

abbrev pub source_at : List ℕ → ℕ → ℕ → MemoryByteSource
source_at bytes maximum_read_size position = record {
  bytes = bytes;
  maximum_read_size = maximum_read_size;
  position = position;
}

-- The allocator is not part of the program, so `allocates` says whether it has room.
unfoldable pub copy_source : Bool → List ℕ → ℕ → Result MemoryByteSource
copy_source allocates bytes maximum_read_size =
    if maximum_read_size == 0
    then fail ErrorCode.invalid_configuration Operation.configure
        "memory source maximum read size must be nonzero"
    else if allocates
    then ok (source_at bytes maximum_read_size 0)
    else fail ErrorCode.allocation_failed Operation.configure
        "unable to allocate memory byte source"

abbrev invalid_share : Result MemoryByteSource
invalid_share =
    fail ErrorCode.invalid_configuration Operation.configure
      "shared memory source and read size must be valid"

-- A null shared pointer is `none`.
unfoldable pub share_source : Bool → Option (List ℕ) → ℕ → Result MemoryByteSource
share_source allocates none maximum_read_size = invalid_share
share_source allocates (some bytes) maximum_read_size =
    if maximum_read_size == 0
    then invalid_share
    else if allocates
    then ok (source_at bytes maximum_read_size 0)
    else fail ErrorCode.allocation_failed Operation.configure
        "unable to retain shared memory source"

abbrev pub read_count : MemoryByteSource → List ℕ → ℕ
read_count source destination =
    min (min (length destination) source.maximum_read_size)
      (wrapping_subtract (length source.bytes) source.position)

abbrev pub read_outcome : ℕ → Bool → ReadOutcome
read_outcome bytes_read eof = record { bytes_read = bytes_read; eof = eof }

unfoldable pub memory_read :
    CancellationToken → ℕ → MemoryByteSource → List ℕ → Reply MemoryByteSource ReadOutcome × List ℕ
memory_read token polls source destination =
    let count = read_count source destination in
    let position = source.position + count in
    if is_cancelled token polls
    then (reply source (polls + 1) (cancelled Operation.read), destination)
    else (
      reply (source_at source.bytes source.maximum_read_size position) (polls + 1)
          (ok (read_outcome count (position == length source.bytes))),
      memcpy destination 0 (take count (drop source.position source.bytes)),
    )

unfoldable pub memory_source_seek :
    CancellationToken → ℕ → MemoryByteSource → ℕ → Reply MemoryByteSource (Unit {0})
memory_source_seek token polls source position =
    if is_cancelled token polls
    then reply source (polls + 1) (cancelled Operation.read)
    else if ltb (length source.bytes) position
    then reply source (polls + 1)
        (fail ErrorCode.io_read_failed Operation.read "memory source seek is beyond the end")
    else reply (source_at source.bytes source.maximum_read_size position) (polls + 1) (ok tt)

abbrev pub memory_source_capabilities : MemoryByteSource → ByteSourceCapabilities
memory_source_capabilities source = record { position = true; size = true; seek = true }

abbrev pub memory_source : ByteSource MemoryByteSource
memory_source = record {
  read = memory_read;
  capabilities = memory_source_capabilities;
  seek = memory_source_seek;
}

-- `MemoryByteSink::Impl`
pub record MemoryByteSink : Type 0 where
  pub bytes : List ℕ
  pub position : ℕ
  pub maximum_size : ℕ
  pub maximum_write_size : ℕ

-- A sink with the limits of another one.
abbrev pub sink_with : MemoryByteSink → List ℕ → ℕ → MemoryByteSink
sink_with sink bytes position = record {
  bytes = bytes;
  position = position;
  maximum_size = sink.maximum_size;
  maximum_write_size = sink.maximum_write_size;
}

abbrev empty_sink : ℕ → ℕ → MemoryByteSink
empty_sink maximum_size maximum_write_size = record {
  bytes = [];
  position = 0;
  maximum_size = maximum_size;
  maximum_write_size = maximum_write_size;
}

unfoldable pub create_sink : Bool → ℕ → ℕ → Result MemoryByteSink
create_sink allocates maximum_size maximum_write_size =
    if (maximum_write_size == 0) || ltb max_u64 maximum_size
    then fail ErrorCode.invalid_configuration Operation.configure
        "memory sink size and write size must be valid"
    else if allocates
    then ok (empty_sink maximum_size maximum_write_size)
    else fail ErrorCode.allocation_failed Operation.configure "unable to allocate memory byte sink"

-- `bytes.resize(end)` when `end` is beyond the bytes.
abbrev pub grown : List ℕ → ℕ → List ℕ
grown bytes end = bytes ++ replicate (end - length bytes) 0

abbrev pub write_count : MemoryByteSink → List ℕ → ℕ
write_count sink source =
    min (min (length source) sink.maximum_write_size) (sink.maximum_size - sink.position)

-- `has_room` says whether the vector can grow to a size.
module _ (has_room : ℕ → Bool) where
  unfoldable pub memory_write :
      CancellationToken → ℕ → MemoryByteSink → List ℕ → Reply MemoryByteSink ℕ
  memory_write token polls sink source =
      let count = write_count sink source in
      let end = sink.position + count in
      if is_cancelled token polls
      then reply sink (polls + 1) (cancelled Operation.write)
      else if ltb sink.maximum_size sink.position
      then reply sink (polls + 1) (
          fail ErrorCode.invariant_violation Operation.write
            "memory sink position exceeds its bound")
      else if not (length source == 0) && (sink.maximum_size - sink.position == 0)
      then reply sink (polls + 1)
          (fail ErrorCode.limit_exceeded Operation.write "memory sink maximum size was reached")
      else if ltb (length sink.bytes) end && not (has_room end)
      then reply sink (polls + 1)
          (fail ErrorCode.allocation_failed Operation.write "unable to grow memory byte sink")
      else reply
          (sink_with sink (memcpy (grown sink.bytes end) sink.position (take count source)) end)
          (polls + 1) (ok count)

  unfoldable pub memory_sink_seek :
      CancellationToken → ℕ → MemoryByteSink → ℕ → Reply MemoryByteSink (Unit {0})
  memory_sink_seek token polls sink position =
      if is_cancelled token polls
      then reply sink (polls + 1) (cancelled Operation.write)
      else if ltb (length sink.bytes) position
      then reply sink (polls + 1) (
          fail ErrorCode.io_write_failed Operation.write
            "memory sink cannot seek beyond written bytes")
      else reply (sink_with sink sink.bytes position) (polls + 1) (ok tt)

  unfoldable pub memory_sink_flush :
      CancellationToken → ℕ → MemoryByteSink → Reply MemoryByteSink (Unit {0})
  memory_sink_flush token polls sink =
      if is_cancelled token polls
      then reply sink (polls + 1) (cancelled Operation.write)
      else reply sink (polls + 1) (ok tt)

  abbrev pub memory_sink_capabilities : MemoryByteSink → ByteSinkCapabilities
  memory_sink_capabilities sink = record { position = true; seek = true; flush = true }

  abbrev pub memory_sink : ByteSink MemoryByteSink
  memory_sink = record {
    write = memory_write;
    capabilities = memory_sink_capabilities;
    seek = memory_sink_seek;
    flush = memory_sink_flush;
  }
