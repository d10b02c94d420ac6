-- ===== src/Flyvec/Tests.antt =====
-- Runs of `FLY_PUSH` of includes/ty_flyvec.h, on a vector of five `int`.
use tyto_h.Base.{ℕ, zero, suc, ◌/◌, ◌≤◌, ◌≡◌, refl, sym, ap, ◌∙◌, true, Option, some}
use tyto_h.Base.{List, [], ◌∷◌, arith, length, take, done}
use mathlib.Core.Option.{some-injective}
use tyto_h.Flyvec.{FlyVec, push, resize, replaced, store_at}
use tyto_h.Flyvec.Push.{Reallocates, filled, Holds, Pushed, push-Pushed, or_empty}

-- Elements up to a number, with zeros behind them.
pad : List ℕ → ℕ → List ℕ
pad xs zero = []
pad [] (suc n) = 0 ∷ pad [] n
pad (x ∷ xs) (suc n) = x ∷ pad xs n

abbrev realloc_ints : Option (List ℕ) → ℕ → Option (List ℕ)
realloc_ints old bytes = some (pad (or_empty old) (bytes / 4))

length-pad : (xs : List ℕ) (n : ℕ) → length (pad xs n) ≡ n
unfolding pad
length-pad xs zero = refl
length-pad [] (suc n) = ap suc (length-pad [] n)
length-pad (x ∷ xs) (suc n) = ap suc (length-pad xs n)

take-pad : (xs : List ℕ) (m n : ℕ) → n ≤ length xs → n ≤ m → take n (pad xs m) ≡ take n xs
unfolding pad
take-pad xs m zero a b = refl
take-pad xs zero (suc n) a b = absurd (omega arith)
take-pad [] (suc m) (suc n) a b = absurd (omega arith)
take-pad (x ∷ xs) (suc m) (suc n) a b =
    ap (λ ys. x ∷ ys) (take-pad xs m n (omega arith) (omega arith))

realloc_ints-Reallocates : Reallocates 4 realloc_ints
unfolding Reallocates
realloc_ints-Reallocates old new bytes e =
    let same = some-injective (pad (or_empty old) (bytes / 4)) new e in
    (
      ap length (sym same) ∙ length-pad (or_empty old) (bytes / 4),
      λ n a b.
          ap (take n) (sym same)
          ∙ take-pad (or_empty old) (bytes / 4) n a
              (omega (arith, ap length same, length-pad (or_empty old) (bytes / 4))),
    )

abbrev four : FlyVec ℕ
four = record { len = 4; buffer = some (42 ∷ 43 ∷ 44 ∷ 45 ∷ []) }

four-Holds : Holds four (42 ∷ 43 ∷ 44 ∷ 45 ∷ [])
four-Holds = record {
  room = filled 2 4 (42 ∷ 43 ∷ 44 ∷ 45 ∷ []) refl (omega arith) (omega arith) (omega arith);
  held = refl;
}

fifth :
    push realloc_ints 4 four 46
    ≡ done (record { len = 5; buffer = some (42 ∷ 43 ∷ 44 ∷ 45 ∷ 46 ∷ 0 ∷ 0 ∷ 0 ∷ []) }, true)
unfolding push resize replaced store_at pad
fifth = refl

push-Pushed_example :
    Pushed realloc_ints 4 four (42 ∷ 43 ∷ 44 ∷ 45 ∷ []) 46 (push realloc_ints 4 four 46)
push-Pushed_example =
    push-Pushed realloc_ints 4 four (42 ∷ 43 ∷ 44 ∷ 45 ∷ []) 46 (omega arith)
      realloc_ints-Reallocates four-Holds
