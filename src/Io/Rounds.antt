-- ===== src/Io/Rounds.antt =====
-- One round of the loops of src/io.cpp, by what the device answers.
use shibori_engine.Base.{
  ℕ, suc, ◌+◌, ◌≡◌, refl, ap, true, false, List, ◌∷◌, ◌++◌, length, take, drop,
}
use shibori_engine.Error.{Error, Operation, ok, err, ◌>>=◌}
use shibori_engine.Io.{
  CancellationToken, ByteSource, ByteSink, read_run, write_run, cancelled, after_read, after_write,
  read_loop, write_loop, Reply, reply, read_exact, read_exact_at, write_all, write_all_at,
  require_source_capabilities, require_sink_capabilities, source_seek_required, sink_seek_required,
}

module _ {S : Type 0} (source : ByteSource S) (token : CancellationToken) where
  module _ (fuel : ℕ) (device : S) (polls : ℕ) (completed : List ℕ) (x : ℕ) (rest : List ℕ) where
    pub read_loop-cancelled :
        token polls ≡ true
        → read_loop source token (suc fuel) device polls completed (x ∷ rest)
          ≡ read_run device (polls + 1) (completed ++ x ∷ rest) (cancelled Operation.read)
    unfolding read_loop
    read_loop-cancelled stopped = rw stopped refl

    pub read_loop-fails :
        (e : Error)
        → token polls ≡ false
        → ((source.read token (polls + 1) device (x ∷ rest)).0.answer >>= λ outcome.
            after_read outcome (suc (length rest)))
          ≡ err e
        → (let (replied, span) = source.read token (polls + 1) device (x ∷ rest) in
            read_loop source token (suc fuel) device polls completed (x ∷ rest)
            ≡ read_run replied.device replied.polls (completed ++ span) (err e))
    unfolding read_loop
    read_loop-fails e going failed = rw (going, failed, read_loop) refl

    pub read_loop-goes_on :
        (n : ℕ)
        → token polls ≡ false
        → ((source.read token (polls + 1) device (x ∷ rest)).0.answer >>= λ outcome.
            after_read outcome (suc (length rest)))
          ≡ ok n
        → (let (replied, span) = source.read token (polls + 1) device (x ∷ rest) in
            read_loop source token (suc fuel) device polls completed (x ∷ rest)
            ≡ read_loop source token fuel replied.device replied.polls
                (completed ++ take n span)
                (drop n span))
    unfolding read_loop
    read_loop-goes_on n going went = rw (going, went, read_loop) refl

module _ {S : Type 0} (sink : ByteSink S) (token : CancellationToken) where
  module _ (fuel : ℕ) (device : S) (polls : ℕ) (x : ℕ) (bytes : List ℕ) where
    pub write_loop-cancelled :
        token polls ≡ true
        → write_loop sink token (suc fuel) device polls (x ∷ bytes)
          ≡ write_run device (polls + 1) (cancelled Operation.write)
    unfolding write_loop
    write_loop-cancelled stopped = rw stopped refl

    pub write_loop-fails :
        (e : Error)
        → token polls ≡ false
        → ((sink.write token (polls + 1) device (x ∷ bytes)).answer >>= λ written.
            after_write written (suc (length bytes)))
          ≡ err e
        → (let replied = sink.write token (polls + 1) device (x ∷ bytes) in
            write_loop sink token (suc fuel) device polls (x ∷ bytes)
            ≡ write_run replied.device replied.polls (err e))
    unfolding write_loop
    write_loop-fails e going failed = rw (going, failed, write_loop) refl

    pub write_loop-goes_on :
        (n : ℕ)
        → token polls ≡ false
        → ((sink.write token (polls + 1) device (x ∷ bytes)).answer >>= λ written.
            after_write written (suc (length bytes)))
          ≡ ok n
        → (let replied = sink.write token (polls + 1) device (x ∷ bytes) in
            write_loop sink token (suc fuel) device polls (x ∷ bytes)
            ≡ write_loop sink token fuel replied.device replied.polls (drop n (x ∷ bytes)))
    unfolding write_loop
    write_loop-goes_on n going went = rw (going, went, write_loop) refl

-- A seek that succeeds.
pub read_exact_at-seeks :
    {S : Type 0} (source : ByteSource S) (token : CancellationToken) (device sought : S)
    (polls calls position : ℕ) (destination : List ℕ)
    → require_source_capabilities source device source_seek_required ≡ ok tt
    → token polls ≡ false
    → source.seek token (polls + 1) device position ≡ reply sought calls (ok tt)
    → read_exact_at source token device polls position destination
      ≡ read_exact source token sought calls destination
unfolding read_exact_at
read_exact_at-seeks source token device sought polls calls position destination able going seeks =
    let answered : (source.seek token (polls + 1) device position).answer ≡ ok tt =
      ap (λ (r : Reply _ (Unit {0})). r.answer) seeks in
    rw (able, going, answered, read_exact_at)
      (ap (λ (r : Reply _ (Unit {0})). read_exact source token r.device r.polls destination) seeks)

pub write_all_at-seeks :
    {S : Type 0} (sink : ByteSink S) (token : CancellationToken) (device sought : S)
    (polls calls position : ℕ) (bytes : List ℕ)
    → require_sink_capabilities sink device sink_seek_required ≡ ok tt
    → token polls ≡ false
    → sink.seek token (polls + 1) device position ≡ reply sought calls (ok tt)
    → write_all_at sink token device polls position bytes ≡ write_all sink token sought calls bytes
unfolding write_all_at
write_all_at-seeks sink token device sought polls calls position bytes able going seeks =
    let answered : (sink.seek token (polls + 1) device position).answer ≡ ok tt =
      ap (λ (r : Reply _ (Unit {0})). r.answer) seeks in
    rw (able, going, answered, write_all_at)
      (ap (λ (r : Reply _ (Unit {0})). write_all sink token r.device r.polls bytes) seeks)
