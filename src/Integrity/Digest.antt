-- ===== src/Integrity/Digest.antt =====
-- The digest and its text: `Blake3Digest` of include/shibori/engine/integrity.hpp and
-- src/integrity.cpp. The hash itself is a third-party library's. A character is its code.
pub mod Text
pub mod Tests
use shibori_engine.Base.{
  ℕ, ◌+◌, ◌-◌, ◌*◌, bit_and, bit_or, ◌&&◌, leb, ◌!=◌, if◌then◌else◌, Option, none, some, List, [],
  ◌∷◌, length, to_byte, byte_at, ◌<<<◌, ◌>>>◌, String,
}
use shibori_engine.Error.{
  ErrorCode, Operation, Error, Result, ok, err, new_error, fail_if, ◌>>=◌, ◌>>◌,
}

abbrev pub digest_byte_size : ℕ
digest_byte_size = 32

abbrev pub digest_hex_size : ℕ
digest_hex_size = digest_byte_size * 2

-- "0123456789abcdef"
abbrev pub hex_digits : List ℕ
hex_digits = 48 ∷ 49 ∷ 50 ∷ 51 ∷ 52 ∷ 53 ∷ 54 ∷ 55 ∷ 56 ∷ 57 ∷ 97 ∷ 98 ∷ 99 ∷ 100 ∷ 101 ∷ 102 ∷ []

-- `none` stands for -1.
unfoldable pub decode_hex : ℕ → Option ℕ
decode_hex value =
    if leb 48 value && leb value 57
    then some (value - 48)
    else if leb 97 value && leb value 102
    then some (value - 97 + 10)
    else if leb 65 value && leb value 70
    then some (value - 65 + 10)
    else none

-- The string is filled two characters at a time.
unfoldable pub to_hex : List ℕ → List ℕ
to_hex [] = []
to_hex (b ∷ bytes) =
    byte_at hex_digits (b >>> 4) ∷ byte_at hex_digits (bit_and b 0x0f) ∷ to_hex bytes

abbrev pub digest_error : String → Error
digest_error message = new_error ErrorCode.invalid_digest_text Operation.parse message

abbrev pub not_hexadecimal : Error
not_hexadecimal = digest_error "BLAKE3-256 digest text contains a non-hexadecimal character"

abbrev pub wrong_size : Error
wrong_size = digest_error "BLAKE3-256 digest text must contain exactly 64 hexadecimal characters"

unfoldable pub decode_pair : Option ℕ → Option ℕ → Result ℕ
decode_pair (some high) (some low) = ok (to_byte (bit_or (high <<< 4) low))
decode_pair _ _ = err not_hexadecimal

-- The loop over the pairs of characters, of which there is no half one when the size is even.
unfoldable pub decode_pairs : List ℕ → Result (List ℕ)
unfolding decode_hex decode_pair
decode_pairs (high ∷ low ∷ text) = decode_pair (decode_hex high) (decode_hex low) >>= λ byte.
    decode_pairs text >>= λ bytes. ok (byte ∷ bytes)
decode_pairs _ = ok []

unfoldable pub from_hex : List ℕ → Result (List ℕ)
unfolding decode_pairs
from_hex text = fail_if (length text != digest_hex_size) wrong_size >> decode_pairs text
