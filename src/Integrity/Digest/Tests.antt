-- ===== src/Integrity/Digest/Tests.antt =====
-- Texts of digests.
use shibori_engine.Base.{ℕ, ◌≡◌, refl, arith, List, ◌∷◌, map, length, replicate, IsBytes}
use shibori_engine.Error.{ok, err}
use shibori_engine.Integrity.Digest.{
  decode_hex, decode_pair, decode_pairs, to_hex, from_hex, wrong_size, not_hexadecimal,
}
use shibori_engine.Integrity.Digest.Text.{lower_case, from_hex-to_hex, to_hex-from_hex}

abbrev digest_bytes : List ℕ
digest_bytes = 0xa5 ∷ 0x0f ∷ replicate 30 0x77

-- "A50f" and sixty times "7".
abbrev digest_text : List ℕ
digest_text = 65 ∷ 53 ∷ 48 ∷ 102 ∷ replicate 60 55

digest_parsed : from_hex digest_text ≡ ok digest_bytes
unfolding from_hex decode_pairs decode_pair decode_hex
digest_parsed = refl

letter_refused : from_hex (71 ∷ replicate 63 48) ≡ err not_hexadecimal
unfolding from_hex decode_pairs decode_pair decode_hex
letter_refused = refl

short_text_refused : from_hex (replicate 63 48) ≡ err wrong_size
unfolding from_hex
short_text_refused = refl

from_hex-to_hex_example : from_hex (to_hex digest_bytes) ≡ ok digest_bytes
from_hex-to_hex_example = from_hex-to_hex digest_bytes refl (omega arith)

to_hex-from_hex_example :
    (length digest_bytes ≡ 32)
    × IsBytes digest_bytes
    × (to_hex digest_bytes ≡ map lower_case digest_text)
to_hex-from_hex_example = to_hex-from_hex digest_text digest_bytes digest_parsed
