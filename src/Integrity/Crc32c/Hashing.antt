-- ===== src/Integrity/Crc32c/Hashing.antt =====
-- The hasher: feeding a message in pieces, and the checksum of a whole message.
use shibori_engine.Base.{ℕ, ◌^◌, ◌<◌, bit_xor, ◌≡◌, refl, arith, List, [], ◌∷◌, ◌++◌, IsBytes}
use shibori_engine.Base.Xor.{bit_xor-lt}
use shibori_engine.Integrity.Crc32c.{
  Backend, Crc32cMode, initial_state, table_step, portable_crc32c_update, new_hasher, update,
  finalize,
}
use shibori_engine.Integrity.Crc32c.Table.{portable_crc32c_update-lt}

pub portable_crc32c_update-append :
    (s : ℕ) (xs ys : List ℕ)
    → portable_crc32c_update s (xs ++ ys) ≡ portable_crc32c_update (portable_crc32c_update s xs) ys
unfolding portable_crc32c_update
portable_crc32c_update-append s [] ys = refl
portable_crc32c_update-append s (x ∷ xs) ys = portable_crc32c_update-append (table_step s x) xs ys

-- The CRC32C of a message, as the portable path computes it.
unfoldable pub checksum : List ℕ → ℕ
checksum bytes = bit_xor (portable_crc32c_update initial_state bytes) 0xffffffff

pub checksum-lt : (bytes : List ℕ) → IsBytes bytes → checksum bytes < 2 ^ 32
unfolding checksum
checksum-lt bytes h =
    bit_xor-lt 32 (portable_crc32c_update initial_state bytes) 0xffffffff
      (portable_crc32c_update-lt initial_state bytes (omega arith) h) (omega arith)

-- A portable hasher gives the checksum of the message on every build and every processor.
pub finalize-portable :
    (backend : Backend) (bytes : List ℕ)
    → finalize (update backend (new_hasher backend Crc32cMode.portable) bytes) ≡ checksum bytes
unfolding finalize update new_hasher checksum
finalize-portable backend bytes = ground arith

-- Feeding a portable hasher two pieces one after the other gives the checksum of the joined
-- message, on every build and processor.
pub finalize-two_updates :
    (backend : Backend) (xs ys : List ℕ)
    → finalize (update backend (update backend (new_hasher backend Crc32cMode.portable) xs) ys)
      ≡ checksum (xs ++ ys)
unfolding finalize update new_hasher checksum
finalize-two_updates backend xs ys =
    ground (arith, portable_crc32c_update-append initial_state xs ys)
