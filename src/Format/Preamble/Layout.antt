-- ===== src/Format/Preamble/Layout.antt =====
-- The preamble as a sequence of bytes.
use shibori_engine.Base.{ℕ, ◌≡◌, arith, List, ◌++◌, IsBytes, to_little_endian}
use shibori_engine.Integrity.Crc32c.{Backend}
use shibori_engine.Integrity.Crc32c.Hashing.{checksum, finalize-portable}
use shibori_engine.Integrity.Crc32c.Words.{little_endian_bytes_digits}
use shibori_engine.Format.Endian.Codec.{encode_u16_le_digits}
use shibori_engine.Format.Preamble.{file_magic, encode_file_preamble}

-- The twelve bytes that the checksum covers.
abbrev pub covered : ℕ → ℕ → List ℕ
covered major minor = file_magic ++ to_little_endian 2 major ++ to_little_endian 2 minor

-- The encoder emits the magic, the versions and the checksum of these, all little-endian.
pub encode_file_preamble_layout :
    (backend : Backend) (major minor : ℕ)
    → encode_file_preamble backend major minor
      ≡ covered major minor ++ to_little_endian 4 (checksum (covered major minor))
unfolding encode_file_preamble
encode_file_preamble_layout backend major minor = rw (
  encode_u16_le_digits major,
  encode_u16_le_digits minor,
  finalize-portable backend (covered major minor),
  little_endian_bytes_digits (checksum (covered major minor)),
)

pub encode_file_preamble-IsBytes :
    (backend : Backend) (major minor : ℕ) → IsBytes (encode_file_preamble backend major minor)
encode_file_preamble-IsBytes backend major minor =
    rw (encode_file_preamble_layout backend major minor) (omega arith)
