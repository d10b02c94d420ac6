-- ===== src/Exits/Wrappers.antt =====
-- `xrealloc` of includes/ty_alloc.h never asks for a number of bytes that wraps.
use tyto_h.Base.{ℕ, ◌*◌, ◌/◌, ◌%◌, ◌^◌, ◌≤◌, ◌<◌, ◌≡◌, refl, inl, inr, Option, none, some}
use tyto_h.Base.{List, arith, ◌==◌, ltb, ==_iff, Bool-cases, Option-cases, codes, Outcome}
use tyto_h.Base.{done, fault}
use native.Mathlib.Nat.{div-lt_iff_lt-mul}
use tyto_h.Exits.{Exit, Site, given, panic_text, xrealloc, size_max}

-- What the call gives: for elements of no bytes a fault, for too many bytes a panic, and for
-- all others what realloc answers for just their number.
pub data Reallocated (site : Site) (realloc : Option (List ℕ) → ℕ → Option (List ℕ))
    (ptr : Option (List ℕ)) (count size : ℕ) (o : Outcome (Exit (List ℕ))) : Type 0 where
  divided : size ≡ 0 → o ≡ fault → Reallocated site realloc ptr count size o
  too_many :
      0 < size
      → 2 ^ 64 ≤ count * size
      → o ≡ done (Exit.exited (panic_text site (codes "Allocation overflow.")))
      → Reallocated site realloc ptr count size o
  refused :
      0 < size
      → count * size < 2 ^ 64
      → realloc ptr (count * size) ≡ none
      → o ≡ done (Exit.exited (panic_text site (codes "Cannot reallocate memory.")))
      → Reallocated site realloc ptr count size o
  passed :
      (result : List ℕ)
      → 0 < size
      → count * size < 2 ^ 64
      → realloc ptr (count * size) ≡ some result
      → o ≡ done (Exit.passed result)
      → Reallocated site realloc ptr count size o

-- xrealloc of any count and size: for a size of 0 it divides by zero; for 2^64 bytes or more it
-- panics and realloc is not called; for fewer it gives what realloc answers for just so many
-- bytes, or panics where that is the null pointer.
pub xrealloc-Reallocated :
    (site : Site) (realloc : Option (List ℕ) → ℕ → Option (List ℕ)) (ptr : Option (List ℕ))
    (count size : ℕ)
    → Reallocated site realloc ptr count size (xrealloc site realloc ptr count size)
unfolding xrealloc given
xrealloc-Reallocated site realloc ptr count size = elim (Bool-cases (size == 0)) [
  | inl z ↦ Reallocated.divided ((==_iff size 0).0 z) (rw z refl)
  | inr nz ↦
      let some_size : 0 < size = ground arith in
      elim (Bool-cases (ltb (size_max / size) count)) [
        | inl t ↦
            let many : size_max < count * size = (div-lt_iff_lt-mul some_size).0 (ground arith) in
            Reallocated.too_many some_size (omega (arith, many)) (rw (nz, t) refl)
        | inr f ↦
            let few : ¬ size_max < count * size =
              λ m. absurd (ground (arith, (div-lt_iff_lt-mul some_size).1 m)) in
            let small : count * size < 2 ^ 64 = omega (arith, few) in
            let exact : count * size % 2 ^ 64 ≡ count * size = omega (arith, small) in
            elim (Option-cases (realloc ptr (count * size))) [
              | inl e ↦ Reallocated.refused some_size small e (rw (nz, f, exact, e) refl)
              | inr (result, e) ↦
                  Reallocated.passed result some_size small e (rw (nz, f, exact, e) refl)
            ]
      ]
]
