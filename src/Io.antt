-- ===== src/Io.antt =====
-- include/shibori/engine/io.hpp and src/io.cpp: byte sources and sinks, and the loops that read or
-- write a whole span over operations that may stop short.
pub mod Rounds
pub mod Termination
pub mod Memory
use shibori_engine.Base.{
  ℕ, zero, suc, ◌+◌, String, join_text, Bool, true, false, not, ◌&&◌, ltb, ◌==◌, ◌!=◌,
  if◌then◌else◌, Option, none, some, List, [], ◌∷◌, ◌++◌, length, take, drop,
}
use shibori_engine.Error.{
  ErrorCode, Operation, Result, ok, err, Status, fail, fail_if, new_error, ◌>>=◌, ◌>>◌,
}

-- Another thread may cancel at any moment, so a token is the answers that successive calls of
-- `is_cancelled` get, and every operation counts the calls that were made.
abbrev pub CancellationToken : Type 0
CancellationToken = ℕ → Bool

abbrev pub is_cancelled : CancellationToken → ℕ → Bool
is_cancelled token polls = token polls

abbrev pub cancelled {ℓ} : {A : Type ℓ} → Operation → Result A
cancelled operation =
    fail ErrorCode.operation_cancelled operation "byte I/O operation was cancelled"

abbrev pub unsupported : String → Status
unsupported feature =
    fail ErrorCode.unsupported_feature Operation.configure
      (join_text feature " capability is required")

pub record ByteSourceCapabilities : Type 0 where
  pub position : Bool
  pub size : Bool
  pub seek : Bool

pub record ByteSinkCapabilities : Type 0 where
  pub position : Bool
  pub seek : Bool
  pub flush : Bool

pub record ReadOutcome : Type 0 where
  pub bytes_read : ℕ
  pub eof : Bool

-- The state of a device after an operation, the calls of `is_cancelled` so far, and the answer.
pub record Reply (S : Type 0) (A : Type 0) : Type 0 where
  pub device : S
  pub polls : ℕ
  pub answer : Result A

abbrev pub reply : {S A : Type 0} → S → ℕ → Result A → Reply S A
reply device polls answer = record { device = device; polls = polls; answer = answer }

-- `read` is handed the destination's bytes and returns them as it leaves them.
pub record ByteSource (S : Type 0) : Type 0 where
  pub read : CancellationToken → ℕ → S → List ℕ → Reply S ReadOutcome × List ℕ
  pub capabilities : S → ByteSourceCapabilities
  pub seek : CancellationToken → ℕ → S → ℕ → Reply S (Unit {0})

pub record ByteSink (S : Type 0) : Type 0 where
  pub write : CancellationToken → ℕ → S → List ℕ → Reply S ℕ
  pub capabilities : S → ByteSinkCapabilities
  pub seek : CancellationToken → ℕ → S → ℕ → Reply S (Unit {0})
  pub flush : CancellationToken → ℕ → S → Reply S (Unit {0})

-- The base classes' own `seek` and `flush`.
abbrev refuse : {S : Type 0} → CancellationToken → ℕ → S → Operation → String → Reply S (Unit {0})
refuse token polls device operation feature =
    reply device (polls + 1)
      (if is_cancelled token polls then cancelled operation else unsupported feature)

unfoldable pub default_source_seek :
    {S : Type 0} → CancellationToken → ℕ → S → ℕ → Reply S (Unit {0})
default_source_seek token polls device position =
    refuse token polls device Operation.read "source seek"

unfoldable pub default_sink_seek : {S : Type 0} → CancellationToken → ℕ → S → ℕ → Reply S (Unit {0})
default_sink_seek token polls device position =
    refuse token polls device Operation.write "sink seek"

unfoldable pub default_sink_flush : {S : Type 0} → CancellationToken → ℕ → S → Reply S (Unit {0})
default_sink_flush token polls device = refuse token polls device Operation.write "sink flush"

abbrev require_one : Bool → Bool → String → Status
require_one required actual feature = if required && not actual then unsupported feature else ok tt

unfoldable pub require_source_capabilities :
    {S : Type 0} → ByteSource S → S → ByteSourceCapabilities → Status
require_source_capabilities source device required = do
  let actual = source.capabilities device
  require_one required.position actual.position "source position"
  require_one required.size actual.size "source size"
  require_one required.seek actual.seek "source seek"

unfoldable pub require_sink_capabilities :
    {S : Type 0} → ByteSink S → S → ByteSinkCapabilities → Status
require_sink_capabilities sink device required = do
  let actual = sink.capabilities device
  require_one required.position actual.position "sink position"
  require_one required.seek actual.seek "sink seek"
  require_one required.flush actual.flush "sink flush"

-- The end of `read_exact`: the device, the calls of `is_cancelled`, the destination and the status.
pub record ReadRun (S : Type 0) : Type 0 where
  pub device : S
  pub polls : ℕ
  pub destination : List ℕ
  pub status : Status

abbrev pub read_run : {S : Type 0} → S → ℕ → List ℕ → Status → Option (ReadRun S)
read_run device polls destination status =
    some (record { device = device; polls = polls; destination = destination; status = status })

abbrev pub source_seek_required : ByteSourceCapabilities
source_seek_required = record { position = false; size = false; seek = true }

abbrev pub sink_seek_required : ByteSinkCapabilities
sink_seek_required = record { position = false; seek = true; flush = false }

abbrev pub premature_end {ℓ} : {A : Type ℓ} → Result A
premature_end =
    fail ErrorCode.unexpected_end Operation.read "byte source ended before the requested bytes"

abbrev pub no_read_progress : Status
no_read_progress = fail ErrorCode.io_no_progress Operation.read "byte source made no progress"

abbrev pub over_read : Status
over_read =
    fail ErrorCode.plugin_contract_violation Operation.read
      "byte source reported more bytes than requested"

-- What the loop does with an answer: a status to return with, or the number of bytes to go on from.
unfoldable pub after_read : ReadOutcome → ℕ → Result ℕ
after_read outcome remaining = do
  (if ltb remaining outcome.bytes_read then over_read else ok tt)
  (if outcome.bytes_read == 0
      then if outcome.eof then premature_end else no_read_progress
      else ok tt)
  (if outcome.eof && (outcome.bytes_read != remaining)
      then fail ErrorCode.unexpected_end Operation.read
          "byte source ended before the requested bytes"
      else ok outcome.bytes_read)

module _ {S : Type 0} (source : ByteSource S) (token : CancellationToken) where
  -- The loop with the bytes completed and the rest of the destination. It runs on fuel; `none`
  -- means that the fuel ran out.
  unfoldable pub read_loop : ℕ → S → ℕ → List ℕ → List ℕ → Option (ReadRun S)
  read_loop zero device polls completed rest = none
  read_loop (suc fuel) device polls completed [] = read_run device polls completed (ok tt)
  read_loop (suc fuel) device polls completed (x ∷ rest) =
      let (replied, span) = source.read token (polls + 1) device (x ∷ rest) in
      if is_cancelled token polls
      then read_run device (polls + 1) (completed ++ x ∷ rest) (cancelled Operation.read)
      else elim (replied.answer >>= λ outcome. after_read outcome (suc (length rest))) [
        | err e ↦ read_run replied.device replied.polls (completed ++ span) (err e)
        | ok n ↦
            read_loop fuel replied.device replied.polls (completed ++ take n span) (drop n span)
      ]

  -- Every round completes a byte, so one round more than there are bytes is enough.
  unfoldable pub read_exact : S → ℕ → List ℕ → Option (ReadRun S)
  unfolding read_loop
  read_exact device polls destination =
      read_loop (suc (length destination)) device polls [] destination

  unfoldable pub read_exact_at : S → ℕ → ℕ → List ℕ → Option (ReadRun S)
  unfolding read_exact require_source_capabilities
  read_exact_at device polls position destination =
      let sought = source.seek token (polls + 1) device position in
      elim (require_source_capabilities source device source_seek_required) [
        | err e ↦ read_run device polls destination (err e)
        | ok _ ↦
            if is_cancelled token polls
            then read_run device (polls + 1) destination (cancelled Operation.read)
            else elim sought.answer [
              | err e ↦ read_run sought.device sought.polls destination (err e)
              | ok _ ↦ read_exact sought.device sought.polls destination
            ]
      ]

-- The end of `write_all`: the device, the calls of `is_cancelled` and the status.
pub record WriteRun (S : Type 0) : Type 0 where
  pub device : S
  pub polls : ℕ
  pub status : Status

abbrev pub write_run : {S : Type 0} → S → ℕ → Status → Option (WriteRun S)
write_run device polls status = some (record { device = device; polls = polls; status = status })

abbrev pub over_write {ℓ} : {A : Type ℓ} → Result A
over_write =
    fail ErrorCode.plugin_contract_violation Operation.write
      "byte sink reported more bytes than supplied"

abbrev pub no_write_progress {ℓ} : {A : Type ℓ} → Result A
no_write_progress = fail ErrorCode.io_no_progress Operation.write "byte sink made no progress"

-- What the loop does with a count: a status to return with, or the number of bytes to go on from.
unfoldable pub after_write : ℕ → ℕ → Result ℕ
after_write written remaining =
    if ltb remaining written
    then over_write
    else if written == 0
    then no_write_progress
    else ok written

module _ {S : Type 0} (sink : ByteSink S) (token : CancellationToken) where
  -- The loop with the bytes still to be written, on fuel.
  unfoldable pub write_loop : ℕ → S → ℕ → List ℕ → Option (WriteRun S)
  write_loop zero device polls bytes = none
  write_loop (suc fuel) device polls [] = write_run device polls (ok tt)
  write_loop (suc fuel) device polls (x ∷ bytes) =
      let replied = sink.write token (polls + 1) device (x ∷ bytes) in
      if is_cancelled token polls
      then write_run device (polls + 1) (cancelled Operation.write)
      else elim (replied.answer >>= λ written. after_write written (suc (length bytes))) [
        | err e ↦ write_run replied.device replied.polls (err e)
        | ok n ↦ write_loop fuel replied.device replied.polls (drop n (x ∷ bytes))
      ]

  unfoldable pub write_all : S → ℕ → List ℕ → Option (WriteRun S)
  unfolding write_loop
  write_all device polls bytes = write_loop (suc (length bytes)) device polls bytes

  unfoldable pub write_all_at : S → ℕ → ℕ → List ℕ → Option (WriteRun S)
  unfolding write_all require_sink_capabilities
  write_all_at device polls position bytes =
      let sought = sink.seek token (polls + 1) device position in
      elim (require_sink_capabilities sink device sink_seek_required) [
        | err e ↦ write_run device polls (err e)
        | ok _ ↦
            if is_cancelled token polls
            then write_run device (polls + 1) (cancelled Operation.write)
            else elim sought.answer [
              | err e ↦ write_run sought.device sought.polls (err e)
              | ok _ ↦ write_all sought.device sought.polls bytes
            ]
      ]
