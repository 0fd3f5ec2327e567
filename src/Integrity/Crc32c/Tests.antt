-- ===== src/Integrity/Crc32c/Tests.antt =====
-- Runs of the checksum, and its theorems at concrete messages.
use Prim.Native.Nat.{bit_xor}
use shibori_engine.Base.{ℕ, ◌≡◌, ◌≢◌, refl, arith, true, List, [], ◌∷◌}
use shibori_engine.Integrity.Crc32c.{
  Backend, Crc32cMode, new_hasher, update, finalize, bit_rounds, initial_state,
  portable_crc32c_update, x86_crc32c_update,
}
use shibori_engine.Integrity.Crc32c.Table.{crc32c_by_bits, portable_crc32c_update-by_bits}
use shibori_engine.Integrity.Crc32c.Hashing.{checksum, finalize-two_updates}
use shibori_engine.Integrity.Crc32c.Detection.{checksum_detects_byte}
use shibori_engine.Integrity.Crc32c.X86.{IsCrc32cBackend, x86_crc32c_update-portable}

-- "123456789", the message whose checksum catalogues give.
abbrev digits_text : List ℕ
digits_text = 49 ∷ 50 ∷ 51 ∷ 52 ∷ 53 ∷ 54 ∷ 55 ∷ 56 ∷ 57 ∷ []

check_value : checksum digits_text ≡ 0xe3069283
unfolding checksum portable_crc32c_update
check_value = refl

portable_crc32c_update-by_bits_example :
    portable_crc32c_update 7 digits_text ≡ crc32c_by_bits 7 digits_text
portable_crc32c_update-by_bits_example = portable_crc32c_update-by_bits 7 digits_text (omega arith)

checksum_detects_byte_example : checksum (1 ∷ 2 ∷ 3 ∷ 4 ∷ []) ≢ checksum (1 ∷ 2 ∷ 9 ∷ 4 ∷ [])
checksum_detects_byte_example =
    checksum_detects_byte (1 ∷ 2 ∷ []) (4 ∷ []) 3 9 (omega arith) (omega arith) (omega arith)
      (omega arith) (omega arith)

-- A processor that does the rounds.
abbrev by_rounds : Backend
by_rounds = record {
  compiled = true;
  available = true;
  crc32_u8 = λ s b. bit_rounds 8 (bit_xor s b);
  crc32_u64 = λ s v. bit_rounds 64 (bit_xor s v);
}

by_rounds-IsCrc32cBackend : IsCrc32cBackend by_rounds
by_rounds-IsCrc32cBackend = record { u8_rounds = λ s b hs hb. refl; u64_rounds = λ s v hs hv. refl }

x86_crc32c_update-portable_example :
    x86_crc32c_update by_rounds initial_state digits_text
    ≡ portable_crc32c_update initial_state digits_text
x86_crc32c_update-portable_example =
    x86_crc32c_update-portable by_rounds by_rounds-IsCrc32cBackend initial_state digits_text
      (omega arith) (omega arith)

finalize-two_updates_example :
    finalize (
      update by_rounds
        (update by_rounds (new_hasher by_rounds Crc32cMode.portable) (1 ∷ 2 ∷ []))
        (3 ∷ []))
    ≡ checksum (1 ∷ 2 ∷ 3 ∷ [])
finalize-two_updates_example = finalize-two_updates by_rounds (1 ∷ 2 ∷ []) (3 ∷ [])
