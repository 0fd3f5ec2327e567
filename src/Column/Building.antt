-- ===== src/Column/Building.antt =====
-- src/column.cpp: what the three column builders have in common. A builder is any sequence of requests to
-- one state, a finish among them, and the laws say what a finish leaves behind.
pub mod Checks
pub mod FixedWidth
pub mod Boolean
pub mod VariableWidth
pub mod Columns
use shibori_engine.Base.{
  ℕ, zero, suc, ◌+◌, ◌≤◌, ◌≡◌, refl, sym, subst, ap, ◌∙◌, arith, Bool, true, false, not, ◌&&◌, ◌||◌,
  if◌then◌else◌, Option, none, some, List, [], ◌∷◌, length, All,
}
use shibori_engine.Error.{Error, Result, ok, err}
use shibori_engine.LogicalType.{
  LogicalTypeKind, LogicalTypeParameters, LogicalType, logical_type, is_variable_width,
}
use shibori_engine.Column.Buffer.{ByteBuffer, OffsetBuffer}
use shibori_engine.Column.Validity.{Validity}
use shibori_engine.Column.Storage.{
  Column, is_fixed_storage_type, fixed_column, boolean_column, variable_column,
}

-- A validity, if there is one, is of the column's rows.
abbrev pub IsOfRows : ℕ → Option Validity → Type 0
IsOfRows n none = Unit
IsOfRows n (some v) = v.row_count ≡ n

-- The parts a column of each storage kind has, and the types it can be of.
pub data IsColumn : Column → Type 0 where
  fixed_width_parts :
      (type : LogicalType) (n : ℕ) (validity : Option Validity) (values : ByteBuffer)
      → is_fixed_storage_type type ≡ true
      → IsOfRows n validity
      → IsColumn (fixed_column type n validity (some values))
  boolean_parts :
      (n : ℕ) (validity : Option Validity) (values : ByteBuffer)
      → IsOfRows n validity
      → IsColumn (
          boolean_column
            (logical_type LogicalTypeKind.boolean LogicalTypeParameters.monostate)
            n
            validity
            (some values))
  variable_width_parts :
      (type : LogicalType) (n : ℕ) (validity : Option Validity) (offsets : OffsetBuffer)
      (payload : ByteBuffer)
      → is_variable_width type ≡ true
      → IsOfRows n validity
      → IsColumn (variable_column type n validity (some offsets) (some payload))

abbrev pub is_refused : Result (Option Column) → Bool
is_refused (ok answer) = false
is_refused (err e) = true

-- A builder: `perform` answers a request with the column that a finish returns, if it does.
pub record ColumnBuilder (S Request : Type 0) : Type 0 where
  pub perform : Request → S → Result (Option Column) × S
  pub is_finished : S → Bool
  pub rows : S → ℕ
  pub closed :
      (request : Request) (s : S)
      → is_finished s ≡ true
      → (is_refused (perform request s).0 ≡ true) × ((perform request s).1 ≡ s)
  pub closing :
      (request : Request) (s : S) (c : Column)
      → (perform request s).0 ≡ ok (some c)
      → IsColumn c × (c.row_count ≡ rows s) × (is_finished (perform request s).1 ≡ true)
  pub same_rows : (request : Request) (s : S) → rows (perform request s).1 ≡ rows s

abbrev pub kept : Result (Option Column) → List Column → List Column
kept (ok (some c)) columns = c ∷ columns
kept (ok none) columns = columns
kept (err e) columns = columns

none_kept :
    (r : Result (Option Column)) (columns : List Column)
    → is_refused r ≡ true
    → kept r columns ≡ columns
none_kept (ok answer) columns h = absurd (cc)
none_kept (err e) columns h = refl

module _ {S Request : Type 0} (B : ColumnBuilder S Request) where
  -- The columns that a sequence of requests returns.
  abbrev pub built : List Request → S → List Column
  built [] s = []
  built (request ∷ requests) s =
      let step = B.perform request s in let later = built requests step.1 in kept step.0 later

  pub built-closed :
      (requests : List Request) (s : S) → B.is_finished s ≡ true → built requests s ≡ []
  built-closed [] s done = refl
  built-closed (request ∷ requests) s done =
      let (refused, stays) = B.closed request s done in
      none_kept (B.perform request s).0 (built requests (B.perform request s).1) refused
      ∙ ap (built requests) stays
      ∙ built-closed requests s done

  abbrev pub IsBuilt : ℕ → List Column → Type 0
  IsBuilt n columns =
      (length columns ≤ 1) × All (λ (c : Column). IsColumn c × (c.row_count ≡ n)) columns

  -- One request, where the requests after it are well built from any state.
  step-IsBuilt :
      (request : Request) (requests : List Request) (s t : S) (r : Result (Option Column))
      → ((u : S) → IsBuilt (B.rows u) (built requests u))
      → B.perform request s ≡ (r, t)
      → IsBuilt (B.rows s) (kept r (built requests t))
  step-IsBuilt request requests s t r rest same = answered r same
    where
      moved : (B.perform request s).1 ≡ t
      moved = ap (λ (p : Result (Option Column) × S). p.1) same

      later : IsBuilt (B.rows s) (built requests t)
      later =
          subst (λ (n : ℕ). IsBuilt n (built requests t))
            (ap B.rows (sym moved) ∙ B.same_rows request s) (rest t)

      answered :
          (r : Result (Option Column))
          → B.perform request s ≡ (r, t)
          → IsBuilt (B.rows s) (kept r (built requests t))
      answered (err e) same = later
      answered (ok none) same = later
      answered (ok (some c)) same =
          let (formed, sized, done) =
            B.closing request s c (ap (λ (p : Result (Option Column) × S). p.0) same) in
          let none_left = built-closed requests t (ap B.is_finished (sym moved) ∙ done) in
          subst (IsBuilt (B.rows s)) (ap (◌∷◌ c) (sym none_left))
            (omega arith, ((formed, sized), tt))

  -- Any sequence of requests returns one column at most, and its parts are those of its storage kind
  -- and type, of the builder's rows.
  pub built-IsBuilt : (requests : List Request) (s : S) → IsBuilt (B.rows s) (built requests s)
  built-IsBuilt [] s = (omega arith, tt)
  built-IsBuilt (request ∷ requests) s =
      let step = B.perform request s in
      step-IsBuilt request requests s step.1 step.0 (λ u. built-IsBuilt requests u) refl
