-- ===== src/Bignum/Value/Split.antt =====
-- The value of a list of words that is put together or cut in two.
use tyto_h.Base.{ℕ, zero, suc, ◌+◌, ◌*◌, ◌/◌, ◌%◌, ◌^◌, ◌<◌, ◌≡◌, refl, ap, sym, ◌∙◌, arith}
use tyto_h.Base.{List, [], ◌∷◌, ◌++◌, length, take, drop, mod_unique, pow-add, pow_pos}
use native.Mathlib.Nat.{pow-suc, mul_comm, add-mul-div_left, div-eq_of_lt}
use tyto_h.Bignum.Value.{base, val, IsWords}

pub val-append : (xs ys : List ℕ) → val (xs ++ ys) ≡ val xs + base ^ length xs * val ys
unfolding val
val-append [] ys = omega arith
val-append (x ∷ xs) ys =
    omega (arith, val-append xs ys, ap (λ (t : ℕ). t * val ys) (pow-suc base (length xs)))

pub append-IsWords : (xs ys : List ℕ) → IsWords xs → IsWords ys → IsWords (xs ++ ys)
append-IsWords [] ys h h' = h'
append-IsWords (x ∷ xs) ys h h' = (h.0, append-IsWords xs ys h.1 h')

pub take-IsWords : (n : ℕ) (xs : List ℕ) → IsWords xs → IsWords (take n xs)
take-IsWords zero xs h = tt
take-IsWords (suc n) [] h = tt
take-IsWords (suc n) (x ∷ xs) h = (h.0, take-IsWords n xs h.1)

pub drop-IsWords : (n : ℕ) (xs : List ℕ) → IsWords xs → IsWords (drop n xs)
drop-IsWords zero xs h = h
drop-IsWords (suc n) [] h = tt
drop-IsWords (suc n) (x ∷ xs) h = drop-IsWords n xs h.1

pub val-take-lt : (n : ℕ) (xs : List ℕ) → IsWords xs → val (take n xs) < base ^ n
unfolding val
val-take-lt zero xs h = omega arith
val-take-lt (suc n) [] h = pow_pos base (suc n) (omega arith)
val-take-lt (suc n) (x ∷ xs) h = omega (arith, val-take-lt n xs h.1, pow-suc base n)

pub val-take-drop : (n : ℕ) (xs : List ℕ) → val (take n xs) + val (drop n xs) * base ^ n ≡ val xs
unfolding val
val-take-drop zero xs = omega arith
val-take-drop (suc n) [] = omega arith
val-take-drop (suc n) (x ∷ xs) =
    omega (arith, val-take-drop n xs, ap (λ (t : ℕ). val (drop n xs) * t) (pow-suc base n))

pub val-take : (n : ℕ) (xs : List ℕ) → IsWords xs → val (take n xs) ≡ val xs % base ^ n
val-take n xs h =
    mod_unique (base ^ n) (val (take n xs)) (val (drop n xs)) (val xs) (val-take-lt n xs h)
      (val-take-drop n xs)

pub val-drop : (n : ℕ) (xs : List ℕ) → IsWords xs → val (drop n xs) ≡ val xs / base ^ n
val-drop n xs h = sym (
    ap (λ (t : ℕ). t / base ^ n)
      (sym (val-take-drop n xs)
        ∙ ap (λ (t : ℕ). val (take n xs) + t) (mul_comm (val (drop n xs)) (base ^ n)))
    ∙ add-mul-div_left (val (take n xs)) (val (drop n xs)) (pow_pos base n (omega arith))
    ∙ ap (λ (t : ℕ). t + val (drop n xs)) (div-eq_of_lt (val-take-lt n xs h))
    ∙ omega arith)

pub base-pow : (n : ℕ) → base ^ n ≡ 2 ^ (n * 32)
base-pow zero = refl
base-pow (suc n) =
    pow-suc base n
    ∙ ap (λ (t : ℕ). t * base) (base-pow n)
    ∙ sym (pow-add 2 (n * 32) 32)
    ∙ ap (λ (t : ℕ). 2 ^ t) {x = n * 32 + 32} {y = suc n * 32} (omega arith)
