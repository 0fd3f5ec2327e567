-- ===== src/Io/Memory/Reachable.antt =====
-- The states that memory devices can get into, whatever is called on them and in whatever order.
use shibori_engine.Base.{
  ℕ, ◌+◌, ◌-◌, ◌≤◌, ◌<◌, ◌≡◌, refl, arith, Bool, true, false, not, ◌&&◌, ltb, ◌==◌, if◌then◌else◌,
  Bool-cases, Option, none, some, List, length, take, inl, inr, length-take, ltb_false→le,
  ne_of_not_==, subst, ◌||◌,
}
use shibori_engine.Error.{Error, Result, ok, err}
use shibori_engine.CheckedArithmetic.{max_u64}
use shibori_engine.Io.{CancellationToken, Reply, reply, ReadOutcome}
use shibori_engine.Io.Memory.Copying.{length-memcpy-grown}
use shibori_engine.Io.Memory.{
  MemoryByteSource, source_at, copy_source, share_source, memory_read, memory_source_seek,
  MemoryByteSink, create_sink, memory_write, memory_sink_seek, memory_sink_flush, write_count,
  sink_with, memcpy, grown,
}

-- A source made by `copy` or `share`, after any reads and seeks.
pub data ReachableSource : MemoryByteSource → Type 0 where
  copied :
      (allocates : Bool) (bytes : List ℕ) (maximum_read_size : ℕ) {source : MemoryByteSource}
      → copy_source allocates bytes maximum_read_size ≡ ok source
      → ReachableSource source
  shared :
      (allocates : Bool) (bytes : Option (List ℕ)) (maximum_read_size : ℕ)
      {source : MemoryByteSource}
      → share_source allocates bytes maximum_read_size ≡ ok source
      → ReachableSource source
  after_a_read :
      {source : MemoryByteSource} (token : CancellationToken) (polls : ℕ) (destination : List ℕ)
      → ReachableSource source
      → ReachableSource (memory_read token polls source destination).0.device
  after_a_seek :
      {source : MemoryByteSource} (token : CancellationToken) (polls position : ℕ)
      → ReachableSource source
      → ReachableSource (memory_source_seek token polls source position).device

-- A sink made by `create`, after any writes, seeks and flushes, with or without room to grow.
pub data ReachableSink : MemoryByteSink → Type 0 where
  created :
      (allocates : Bool) (maximum_size maximum_write_size : ℕ) {sink : MemoryByteSink}
      → create_sink allocates maximum_size maximum_write_size ≡ ok sink
      → ReachableSink sink
  after_a_write :
      {sink : MemoryByteSink} (has_room : ℕ → Bool) (token : CancellationToken) (polls : ℕ)
      (supplied : List ℕ)
      → ReachableSink sink
      → ReachableSink (memory_write has_room token polls sink supplied).device
  after_a_sink_seek :
      {sink : MemoryByteSink} (has_room : ℕ → Bool) (token : CancellationToken) (polls position : ℕ)
      → ReachableSink sink
      → ReachableSink (memory_sink_seek has_room token polls sink position).device
  after_a_flush :
      {sink : MemoryByteSink} (has_room : ℕ → Bool) (token : CancellationToken) (polls : ℕ)
      → ReachableSink sink
      → ReachableSink (memory_sink_flush has_room token polls sink).device

pub record IsMemorySource (source : MemoryByteSource) : Type 0 where
  pub inside : source.position ≤ length source.bytes
  pub reads_some : 0 < source.maximum_read_size

pub record IsMemorySink (sink : MemoryByteSink) : Type 0 where
  pub within : sink.position ≤ length sink.bytes
  pub bounded : length sink.bytes ≤ sink.maximum_size
  pub addressable : sink.maximum_size ≤ max_u64
  pub writes_some : 0 < sink.maximum_write_size

both {ℓ κ} :
    {A : Type ℓ} (P : A → Type κ) (test : Bool) (a b : A) → P a → P b → P (if test then a else b)
both P true a b p q = p
both P false a b p q = q

not_refused {ℓ} :
    {A : Type ℓ} (test : Bool) (e : Error) (r : Result A) {a : A}
    → (if test then err e else r) ≡ ok a
    → (test ≡ false) × (r ≡ ok a)
not_refused true e r h = absurd (cc)
not_refused false e r h = (refl, h)

not_unallocated {ℓ} :
    {A : Type ℓ} (test : Bool) (e : Error) (made : A) {a : A}
    → (if test then ok made else err e) ≡ ok a
    → made ≡ a
not_unallocated true e made h = cc
not_unallocated false e made h = absurd (cc)

made_source :
    (bytes : List ℕ) (maximum_read_size : ℕ)
    → (maximum_read_size == 0) ≡ false
    → IsMemorySource (source_at bytes maximum_read_size 0)
made_source bytes maximum_read_size h = record {
  inside = omega arith;
  reads_some = omega (arith, ne_of_not_== maximum_read_size 0 h);
}

copy_source-IsMemorySource :
    (allocates : Bool) (bytes : List ℕ) (maximum_read_size : ℕ) (source : MemoryByteSource)
    → copy_source allocates bytes maximum_read_size ≡ ok source
    → IsMemorySource source
unfolding copy_source
copy_source-IsMemorySource allocates bytes maximum_read_size source h =
    let (nonzero, rest) = not_refused (maximum_read_size == 0) _ _ h in
    subst IsMemorySource (not_unallocated allocates _ (source_at bytes maximum_read_size 0) rest)
      (made_source bytes maximum_read_size nonzero)

share_source-IsMemorySource :
    (allocates : Bool) (bytes : Option (List ℕ)) (maximum_read_size : ℕ) (source : MemoryByteSource)
    → share_source allocates bytes maximum_read_size ≡ ok source
    → IsMemorySource source
unfolding share_source
share_source-IsMemorySource allocates none maximum_read_size source h = absurd (cc)
share_source-IsMemorySource allocates (some bytes) maximum_read_size source h =
    let (nonzero, rest) = not_refused (maximum_read_size == 0) _ _ h in
    subst IsMemorySource (not_unallocated allocates _ (source_at bytes maximum_read_size 0) rest)
      (made_source bytes maximum_read_size nonzero)

memory_read-IsMemorySource :
    (token : CancellationToken) (polls : ℕ) (source : MemoryByteSource) (destination : List ℕ)
    → IsMemorySource source
    → IsMemorySource (memory_read token polls source destination).0.device
unfolding memory_read
memory_read-IsMemorySource token polls source destination h =
    both (λ (r : Reply MemoryByteSource ReadOutcome × List ℕ). IsMemorySource r.0.device)
      (token polls) _ _ h (record { inside = ground (arith, h.inside); reads_some = h.reads_some })

memory_source_seek-IsMemorySource :
    (token : CancellationToken) (polls : ℕ) (source : MemoryByteSource) (position : ℕ)
    → IsMemorySource source
    → IsMemorySource (memory_source_seek token polls source position).device
unfolding memory_source_seek
memory_source_seek-IsMemorySource token polls source position h = elim (Bool-cases (token polls)) [
  | inl stopped ↦ rw stopped h
  | inr going ↦ elim (Bool-cases (ltb (length source.bytes) position)) [
    | inl beyond ↦ rw (going, beyond) h
    | inr inside ↦
        rw (going, inside)
          (record {
            inside = ltb_false→le (length source.bytes) position inside;
            reads_some = h.reads_some;
          })
  ]
]

-- Every source that `copy` or `share` made stays within its bytes, and its largest read is at
-- least one byte, whatever is read and sought; so the subtraction of the position in `read` never
-- wraps around.
pub ReachableSource-invariant :
    (source : MemoryByteSource) → ReachableSource source → IsMemorySource source
ReachableSource-invariant source (copied allocates bytes maximum h) =
    copy_source-IsMemorySource allocates bytes maximum source h
ReachableSource-invariant source (shared allocates bytes maximum h) =
    share_source-IsMemorySource allocates bytes maximum source h
ReachableSource-invariant _ (after_a_read token polls destination before) =
    memory_read-IsMemorySource token polls _ destination (ReachableSource-invariant _ before)
ReachableSource-invariant _ (after_a_seek token polls position before) =
    memory_source_seek-IsMemorySource token polls _ position (ReachableSource-invariant _ before)

create_sink-IsMemorySink :
    (allocates : Bool) (maximum_size maximum_write_size : ℕ) (sink : MemoryByteSink)
    → create_sink allocates maximum_size maximum_write_size ≡ ok sink
    → IsMemorySink sink
unfolding create_sink
create_sink-IsMemorySink allocates maximum_size maximum_write_size sink h =
    let (valid, rest) = not_refused ((maximum_write_size == 0) || ltb max_u64 maximum_size) _ _ h in
    subst IsMemorySink (not_unallocated allocates _ _ rest) (record {
      within = omega arith;
      bounded = omega arith;
      addressable = ground arith;
      writes_some = ground arith;
    })

memory_write-IsMemorySink :
    (has_room : ℕ → Bool) (token : CancellationToken) (polls : ℕ) (sink : MemoryByteSink)
    (supplied : List ℕ)
    → IsMemorySink sink
    → IsMemorySink (memory_write has_room token polls sink supplied).device
unfolding memory_write
memory_write-IsMemorySink has_room token polls sink supplied h =
    let P : Reply MemoryByteSink ℕ → Type 0 = λ r. IsMemorySink r.device in
    let count = write_count sink supplied in
    let piece = take count supplied in
    let size =
      length-memcpy-grown sink.bytes piece sink.position (sink.position + count)
        (omega (arith, length-take count supplied)) h.within in
    let end = sink.position + count in
    let wrote : IsMemorySink
        (sink_with sink (memcpy (grown sink.bytes end) sink.position piece) end) =
      record {
        within = omega (arith, size);
        bounded = omega (arith, size, h.within, h.bounded);
        addressable = h.addressable;
        writes_some = h.writes_some;
      } in
    both P (token polls) (reply sink (polls + 1) _) _ h (
      both P (ltb sink.maximum_size sink.position) (reply sink (polls + 1) _) _ h (
        both P (not (length supplied == 0) && (sink.maximum_size - sink.position == 0))
          (reply sink (polls + 1) _) _ h
          (both P (ltb (length sink.bytes) end && not (has_room end)) (reply sink (polls + 1) _)
            (reply _ (polls + 1) _) h wrote)))

memory_sink_seek-IsMemorySink :
    (has_room : ℕ → Bool) (token : CancellationToken) (polls : ℕ) (sink : MemoryByteSink)
    (position : ℕ)
    → IsMemorySink sink
    → IsMemorySink (memory_sink_seek has_room token polls sink position).device
unfolding memory_sink_seek
memory_sink_seek-IsMemorySink has_room token polls sink position h =
    elim (Bool-cases (token polls)) [
      | inl stopped ↦ rw stopped h
      | inr going ↦ elim (Bool-cases (ltb (length sink.bytes) position)) [
        | inl beyond ↦ rw (going, beyond) h
        | inr inside ↦
            rw (going, inside)
              (record {
                within = ltb_false→le (length sink.bytes) position inside;
                bounded = h.bounded;
                addressable = h.addressable;
                writes_some = h.writes_some;
              })
      ]
    ]

memory_sink_flush-IsMemorySink :
    (has_room : ℕ → Bool) (token : CancellationToken) (polls : ℕ) (sink : MemoryByteSink)
    → IsMemorySink sink
    → IsMemorySink (memory_sink_flush has_room token polls sink).device
unfolding memory_sink_flush
memory_sink_flush-IsMemorySink has_room token polls sink h =
    both (λ (r : Reply MemoryByteSink (Unit {0})). IsMemorySink r.device) (token polls) _ _ h h

-- Every sink that `create` made keeps its position within its bytes and its bytes within its
-- maximum size, which 64 bits hold, and its largest write is at least one byte, whatever is
-- written, sought and flushed, with or without room to grow.
pub ReachableSink-invariant : (sink : MemoryByteSink) → ReachableSink sink → IsMemorySink sink
ReachableSink-invariant sink (created allocates maximum_size maximum_write_size h) =
    create_sink-IsMemorySink allocates maximum_size maximum_write_size sink h
ReachableSink-invariant _ (after_a_write has_room token polls supplied before) =
    memory_write-IsMemorySink has_room token polls _ supplied (ReachableSink-invariant _ before)
ReachableSink-invariant _ (after_a_sink_seek has_room token polls position before) =
    memory_sink_seek-IsMemorySink has_room token polls _ position (ReachableSink-invariant _ before)
ReachableSink-invariant _ (after_a_flush has_room token polls before) =
    memory_sink_flush-IsMemorySink has_room token polls _ (ReachableSink-invariant _ before)
