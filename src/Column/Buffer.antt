-- ===== src/Column/Buffer.antt =====
-- src/column.cpp: `ByteBuffer` and `OffsetBuffer`. The storage is shared and constant, so it is its
-- contents; `allocates` says whether the allocator has room.
use shibori_engine.Base.{ℕ, String, Bool, if◌then◌else◌, Option, none, some, List, length}
use shibori_engine.Error.{ErrorCode, Operation, Error, Result, ok, err, new_error}

pub data BufferOwnership : Type 0 where
  owned shared : BufferOwnership

pub record ByteBuffer : Type 0 where
  pub bytes : List ℕ
  pub ownership : BufferOwnership

pub record OffsetBuffer : Type 0 where
  pub values : List ℕ
  pub ownership : BufferOwnership

abbrev pub block_error : ErrorCode → String → Error
block_error code message = new_error code Operation.validate_block message

abbrev pub byte_buffer : List ℕ → BufferOwnership → ByteBuffer
byte_buffer bytes ownership = record { bytes = bytes; ownership = ownership }

abbrev pub offset_buffer : List ℕ → BufferOwnership → OffsetBuffer
offset_buffer values ownership = record { values = values; ownership = ownership }

unfoldable pub copy_bytes : Bool → List ℕ → Result ByteBuffer
copy_bytes allocates bytes =
    if allocates
    then ok (byte_buffer bytes BufferOwnership.owned)
    else err (block_error ErrorCode.allocation_failed "unable to copy byte buffer")

-- A null shared pointer is `none`.
unfoldable pub share_bytes : Bool → Option (List ℕ) → Result ByteBuffer
share_bytes allocates none =
    err (block_error ErrorCode.invalid_configuration "shared byte buffer must not be null")
share_bytes allocates (some bytes) =
    if allocates
    then ok (byte_buffer bytes BufferOwnership.shared)
    else err (block_error ErrorCode.allocation_failed "unable to retain shared byte buffer")

unfoldable pub copy_offsets : Bool → List ℕ → Result OffsetBuffer
copy_offsets allocates offsets =
    if allocates
    then ok (offset_buffer offsets BufferOwnership.owned)
    else err (block_error ErrorCode.allocation_failed "unable to copy offset buffer")

unfoldable pub share_offsets : Bool → Option (List ℕ) → Result OffsetBuffer
share_offsets allocates none =
    err (block_error ErrorCode.invalid_configuration "shared offset buffer must not be null")
share_offsets allocates (some offsets) =
    if allocates
    then ok (offset_buffer offsets BufferOwnership.shared)
    else err (block_error ErrorCode.allocation_failed "unable to retain shared offset buffer")

abbrev pub byte_size : ByteBuffer → ℕ
byte_size buffer = length buffer.bytes

abbrev pub offset_count : OffsetBuffer → ℕ
offset_count buffer = length buffer.values
