-- ===== src/Column/Validity/Flags.antt =====
-- The rows of a validity as a list of Booleans, the view of it that forgets the bitmap.
use shibori_engine.Base.{
  ℕ, zero, suc, ◌*◌, ◌≤◌, ◌<◌, ◌≡◌, refl, sym, ap, ◌∙◌, arith, Bool, List, [], ◌∷◌, ◌++◌, length,
  take, Option, some, none, get_elem?,
}
use shibori_engine.Column.Bitmap.{bit_test}
use shibori_engine.Column.Bitmap.Rows.{bitmap_bits, get_elem?-bitmap_bits}
use shibori_engine.Column.Validity.{Validity, is_valid}

-- The answers of `is_valid` for the rows below `n`.
abbrev pub flags_below : Validity → ℕ → List Bool
flags_below v zero = []
flags_below v (suc n) = flags_below v n ++ is_valid v n ∷ []

abbrev pub flags : Validity → List Bool
flags v = flags_below v v.row_count

take-suc :
    (n : ℕ) (bits : List Bool) (b : Bool)
    → get_elem? bits n ≡ some b
    → take (suc n) bits ≡ take n bits ++ b ∷ []
take-suc n [] b h = absurd (cc)
take-suc zero (x ∷ bits) b h = ap (λ (o : Option Bool). single o) h
  where
    single : Option Bool → List Bool
    single none = []
    single (some c) = c ∷ []
take-suc (suc n) (x ∷ bits) b h = ap (◌∷◌ x) (take-suc n bits b h)

in_range : (v : Validity) (n : ℕ) → n < v.row_count → is_valid v n ≡ bit_test v.bitmap.bytes n
unfolding is_valid
in_range v n h = ground arith

pub flags_below-take :
    (v : Validity) (n : ℕ)
    → n ≤ v.row_count
    → v.row_count ≤ 8 * length v.bitmap.bytes
    → flags_below v n ≡ take n (bitmap_bits v.bitmap.bytes)
flags_below-take v zero below enough = refl
flags_below-take v (suc n) below enough =
    let here = get_elem?-bitmap_bits v.bitmap.bytes n (omega arith) in
    let next = take-suc n (bitmap_bits v.bitmap.bytes) (bit_test v.bitmap.bytes n) here in
    let tested = in_range v n (omega arith) in
    ap (λ (b : Bool). flags_below v n ++ b ∷ []) tested
    ∙ ap (λ (fs : List Bool). fs ++ bit_test v.bitmap.bytes n ∷ [])
        (flags_below-take v n (omega arith) enough)
    ∙ sym next
