-- ===== src/Io/Memory/Copying.antt =====
-- Copying into a vector: growing it first, and two pieces one after the other.
use shibori_engine.Base.{
  ℕ, ◌+◌, ◌-◌, ◌≤◌, max, ◌≡◌, sym, ap, ap₂, ◌∙◌, arith, ltb, Bool-cases, List, ◌++◌, length, take,
  drop, replicate, length-append, inl, inr, length-take, length-drop, length-replicate,
  take-append_at, drop-append_at, drop-drop, ltb→lt, ltb_false→le, take-before, drop-all,
}
use mathlib.Core.List.{append_assoc, append-nil}
use shibori_engine.Io.Memory.{memcpy, grown}

length-grown :
    (bytes : List ℕ) (end : ℕ) → length (grown bytes end) ≡ length bytes + (end - length bytes)
length-grown bytes end =
    let added = end - length bytes in
    omega (arith, length-append bytes (replicate added 0), length-replicate {A = ℕ} added 0)

drop-grown : (bytes : List ℕ) (end : ℕ) → drop end (grown bytes end) ≡ drop end bytes
drop-grown bytes end = elim (Bool-cases (ltb (length bytes) end)) [
  | inl beyond ↦
      let past = ltb→lt (length bytes) end beyond in
      drop-all end (grown bytes end) (omega (arith, length-grown bytes end))
      ∙ sym (drop-all end bytes (omega arith))
  | inr within ↦
      let inside = ltb_false→le (length bytes) end within in
      let none_added : end - length bytes ≡ 0 = omega arith in
      ap (drop end) (ap (λ (n : ℕ). bytes ++ replicate n 0) none_added ∙ append-nil bytes)
]

-- Growing the vector first is copying beyond its end.
pub memcpy-grown :
    (bytes piece : List ℕ) (position : ℕ)
    → position ≤ length bytes
    → memcpy (grown bytes (position + length piece)) position piece ≡ memcpy bytes position piece
memcpy-grown bytes piece position within =
    let end = position + length piece in
    ap₂ (λ (front back : List ℕ). front ++ piece ++ back)
      (take-before position bytes (replicate (end - length bytes) 0) within) (drop-grown bytes end)

-- The bytes reach to the end of the piece.
pub reached_by :
    (bytes piece : List ℕ) (position : ℕ)
    → position ≤ length bytes
    → position + length piece ≤ length (memcpy bytes position piece)
reached_by bytes piece position within =
    let back = drop (position + length piece) bytes in
    omega (
      arith,
      length-append (take position bytes ++ piece) back,
      length-append (take position bytes) piece,
      length-take position bytes,
    )

-- Two pieces, one after the other.
pub memcpy-memcpy :
    (bytes first second : List ℕ) (position : ℕ)
    → position ≤ length bytes
    → memcpy (memcpy bytes position first) (position + length first) second
      ≡ memcpy bytes position (first ++ second)
memcpy-memcpy bytes first second position within =
    let end = position + length first in
    let front = take position bytes ++ first in
    let size : length front ≡ end =
      omega (arith, length-append (take position bytes) first, length-take position bytes) in
    ap₂ (λ (before after : List ℕ). before ++ second ++ after)
      (take-append_at end front (drop end bytes) size)
      (sym (drop-drop end (length second) (front ++ drop end bytes))
        ∙ ap (drop (length second)) (drop-append_at end front (drop end bytes) size)
        ∙ drop-drop end (length second) bytes)
    ∙ ap₂ (λ (before : List ℕ) (n : ℕ). before ++ drop n bytes)
        (append_assoc (take position bytes) first second)
        (omega (arith, length-append first second))

pub length-memcpy-grown :
    (bytes piece : List ℕ) (position end : ℕ)
    → position + length piece ≡ end
    → position ≤ length bytes
    → length (memcpy (grown bytes end) position piece) ≡ max (length bytes) end
length-memcpy-grown bytes piece position end ends within =
    let vector = grown bytes end in
    omega (
      arith,
      length-append (take position vector ++ piece) (drop (position + length piece) vector),
      length-append (take position vector) piece,
      length-take position vector,
      length-drop (position + length piece) vector,
      length-grown bytes end,
    )
