-- ===== src/Format/Endian/Tests.antt =====
-- Little-endian numbers at concrete bytes.
use shibori_engine.Base.{ℕ, ◌≡◌, refl, List, [], ◌∷◌}
use shibori_engine.Error.{Operation, ok}
use shibori_engine.Format.Endian.{decode_u16_le, decode_u64_le}

abbrev eight_bytes : List ℕ
eight_bytes = 1 ∷ 2 ∷ 3 ∷ 4 ∷ 5 ∷ 6 ∷ 7 ∷ 8 ∷ 9 ∷ []

decoded : decode_u64_le eight_bytes Operation.parse "number" ≡ ok 0x0807060504030201
unfolding decode_u64_le
decoded = refl

decoded_u16 : decode_u16_le eight_bytes Operation.parse "number" ≡ ok 0x0201
unfolding decode_u16_le
decoded_u16 = refl
