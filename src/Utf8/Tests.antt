-- ===== src/Utf8/Tests.antt =====
-- "é€" with the encodings of one and of three bytes, and three that are not UTF-8.
use shibori_engine.Base.{ℕ, ◌≡◌, ◌↔◌, refl, arith, true, false, List, [], ◌∷◌, All}
use shibori_engine.Utf8.{valid_utf8}
use shibori_engine.Utf8.Encoding.{IsScalar, encode_all}
use shibori_engine.Utf8.Decision.{valid_utf8-decision}

abbrev euro : List ℕ
euro = 0x65 ∷ 0xe2 ∷ 0x82 ∷ 0xac ∷ []

euro_valid : valid_utf8 euro ≡ true
unfolding valid_utf8
euro_valid = refl

surrogate_refused : valid_utf8 (0xed ∷ 0xa0 ∷ 0x80 ∷ []) ≡ false
unfolding valid_utf8
surrogate_refused = refl

overlong_refused : valid_utf8 (0xc0 ∷ 0xaf ∷ []) ≡ false
unfolding valid_utf8
overlong_refused = refl

cut_refused : valid_utf8 (0xe2 ∷ 0x82 ∷ []) ≡ false
unfolding valid_utf8
cut_refused = refl

valid_utf8-decision_example :
    (valid_utf8 euro ≡ true)
    ↔ ((scalars : List ℕ) × All IsScalar scalars × (euro ≡ encode_all scalars))
valid_utf8-decision_example =
    valid_utf8-decision euro (omega arith, (omega arith, (omega arith, (omega arith, tt))))
