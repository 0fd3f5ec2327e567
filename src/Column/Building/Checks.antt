-- ===== src/Column/Building/Checks.antt =====
-- What a finish of src/column.cpp that returns a column has tested.
use shibori_engine.Base.{
  ℕ, ◌≡◌, refl, arith, Bool, true, false, not, if◌then◌else◌, Option, none, some,
}
use shibori_engine.Error.{Error, Result, ok, err, Status, ◌>>◌, >>=-eq-ok, fail_if}
use shibori_engine.Column.Validity.{Validity}
use shibori_engine.Column.Storage.{Column, is_set, validate_validity}
use shibori_engine.Column.Building.{IsOfRows}

-- A setter returns no column.
abbrev pub no_column : Status → Result (Option Column)
no_column (ok u) = ok none
no_column (err e) = err e

abbrev pub a_column : Result Column → Result (Option Column)
a_column (ok c) = ok (some c)
a_column (err e) = err e

abbrev pub setting : {S : Type 0} → Status × S → Result (Option Column) × S
setting outcome = (no_column outcome.0, outcome.1)

abbrev pub finishing : {S : Type 0} → Result Column × S → Result (Option Column) × S
finishing outcome = (a_column outcome.0, outcome.1)

pub validate_validity-IsOfRows :
    (n : ℕ) (validity : Option Validity) {u : Unit {0}}
    → validate_validity n validity ≡ ok u
    → IsOfRows n validity
unfolding validate_validity
validate_validity-IsOfRows n none h = tt
validate_validity-IsOfRows n (some v) h = ground (arith, h)

abbrev pub guarded : {S : Type 0} → Bool → Error → Result Column → S → S → Result Column × S
guarded refuses e result s t = if refuses then (err e, s) else (result, t)

-- What a finish that returns a column has tested.
pub tested :
    {S : Type 0} (refuses : Bool) (e : Error) (result : Result Column) (s t : S) {c : Column}
    → (guarded refuses e result s t).0 ≡ ok c
    → (refuses ≡ false) × (result ≡ ok c)
tested true e result s t h = absurd (cc)
tested false e result s t h = (refl, h)

pub present {ℓ} : {A : Type ℓ} (o : Option A) → not (is_set o) ≡ false → (a : A) × (o ≡ some a)
present none h = absurd (cc)
present (some a) h = (a, refl)

pub checked_column :
    (n : ℕ) (validity : Option Validity) (allocates : Bool) (e : Error) (made : Column) {c : Column}
    → (validate_validity n validity >> fail_if (not allocates) e >> ok made) ≡ ok c
    → IsOfRows n validity × (made ≡ c)
checked_column n validity allocates e made h =
    let checks = validate_validity n validity >> fail_if (not allocates) e in
    let (u, checked, same) = >>=-eq-ok checks (λ _. ok made) h in
    let (v, valid, room) =
      >>=-eq-ok (validate_validity n validity) (λ _. fail_if (not allocates) e) checked in
    (validate_validity-IsOfRows n validity valid, ok_same same)
  where
    ok_same : {a b : Column} → ok a ≡ ok b → a ≡ b
    ok_same h = cc

pub none_set : (s : Status) {c : Column} → no_column s ≡ ok (some c) → ⊥
none_set (ok u) h = cc
none_set (err e) h = cc

pub column_of : (r : Result Column) {c : Column} → a_column r ≡ ok (some c) → r ≡ ok c
column_of (ok d) h = cc
column_of (err e) h = absurd (cc)
