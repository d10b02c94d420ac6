-- ===== src/Bignum/Mul/Product.antt =====
-- `ty_bignum_mul` is multiplication modulo 2^1024.
use tyto_h.Base.{ℕ, suc, ◌+◌, ◌-◌, ◌*◌, ◌%◌, ◌^◌, ◌<◌, ◌≤◌, ◌≡◌, ap, sym, ◌∙◌, arith}
use tyto_h.Base.{List, [], ◌∷◌, ltb, lt→ltb, le→ltb, if◌then◌else◌, pow-add}
use native.Mathlib.Decide.{dec_lt}
use native.Mathlib.Nat.{pow-suc, mod-add-mod, add-mod-mod, mod-eq_of_lt, add-mul-mod_self_right}
use native.Mathlib.Nat.{mul-le-mul}
use tyto_h.Bignum.{Bn, array_size}
use tyto_h.Bignum.Value.{base, val, IsWords, IsBn, modulus, val-lt-modulus, init-IsBn, val-init}
use tyto_h.Bignum.Arith.{from_int, add}
use tyto_h.Bignum.Arith.Sums.{val-add}
use tyto_h.Bignum.Arith.Order.{val-from_int}
use tyto_h.Bignum.Shift.{shl_word}
use tyto_h.Bignum.Shift.WordsUp.{val-shl_word}
use tyto_h.Bignum.Mul.{row_loop, mul_loop, mul}

word_product-lt : (x y : ℕ) → x < base → y < base → x * y < 2 ^ 64
word_product-lt x y hx hy =
    let top : ℕ = 2 ^ 32 - 1 in
    let bound : x * y ≤ top * top =
      mul-le-mul {n₁ = x} {m₁ = y} {n₂ = top} {m₂ = top} (omega arith) (omega arith) in
    omega arith

-- The row after one column.
step : ℕ → ℕ → ℕ → Bn → Bn
step ai bj k row =
    if ltb k array_size then add (shl_word (from_int (ai * bj % 2 ^ 64)) k) row else row

-- Beyond the last word every product is a multiple of 2^1024.
beyond : (r p k : ℕ) → r < modulus → array_size ≤ k → r ≡ (r + p * base ^ k) % modulus
beyond r p k h le = sym (
    ap (λ (t : ℕ). (r + p * t) % modulus)
      (ap (λ (e : ℕ). base ^ e) {x = k} {y = k - 32 + 32} (omega arith) ∙ pow-add base (k - 32) 32)
    ∙ ap (λ (t : ℕ). t % modulus) {y = r + p * base ^ (k - 32) * modulus} (omega arith)
    ∙ add-mul-mod_self_right r (p * base ^ (k - 32)) modulus
    ∙ mod-eq_of_lt h)

val-step :
    (ai bj k : ℕ) {row : Bn}
    → ai < base
    → bj < base
    → IsBn row
    → IsBn (step ai bj k row) × (val (step ai bj k row) ≡ (val row + ai * bj * base ^ k) % modulus)
unfolding step
val-step ai bj k {row} ha hb v = elim (dec_lt k array_size) [
  | yes p ↦
      let small = word_product-lt ai bj ha hb in
      let (t, et) = val-from_int (ai * bj % 2 ^ 64) (omega arith) in
      let (s, es) = val-shl_word k t in
      let (r, er) = val-add s v in
      rw (lt→ltb k array_size p) (
        r,
        er
            ∙ ap (λ (x : ℕ). (x + val row) % modulus)
                (es ∙ ap (λ (x : ℕ). x * base ^ k % modulus) (et ∙ mod-eq_of_lt small))
            ∙ mod-add-mod (ai * bj * base ^ k) modulus (val row)
            ∙ ap (λ (x : ℕ). x % modulus) (omega arith),
      )
  | no p ↦
      rw (le→ltb k array_size (omega arith))
        (v, beyond (val row) (ai * bj) k (val-lt-modulus v) (omega arith))
]

next_power : (i j : ℕ) → base ^ (i + suc j) ≡ base ^ (i + j) * base
next_power i j = ap (λ (k : ℕ). base ^ k) {y = suc (i + j)} (omega arith) ∙ pow-suc base (i + j)

pub val-row_loop :
    (ai i j : ℕ) (bs : List ℕ) {row : Bn}
    → ai < base
    → IsWords bs
    → IsBn row
    → IsBn (row_loop ai i j bs row)
      × (val (row_loop ai i j bs row) ≡ (val row + ai * val bs * base ^ (i + j)) % modulus)
unfolding row_loop val step
val-row_loop ai i j [] {row} ha hb v =
    (v, sym (mod-eq_of_lt (val-lt-modulus v)) ∙ ap (λ (x : ℕ). x % modulus) (omega arith))
val-row_loop ai i j (bj ∷ bs) {row} ha hb v =
    let (s, es) = val-step ai bj (i + j) ha hb.0 v in
    let (r, er) = val-row_loop ai i (suc j) bs ha hb.1 s in
    (
      r,
      er
          ∙ ap (λ (x : ℕ). (x + ai * val bs * base ^ (i + suc j)) % modulus) es
          ∙ mod-add-mod (val row + ai * bj * base ^ (i + j)) modulus
              (ai * val bs * base ^ (i + suc j))
          ∙ ap (λ (x : ℕ). x % modulus)
              (omega (arith, ap (λ (t : ℕ). ai * val bs * t) (next_power i j))),
    )

val-mul_loop :
    (i : ℕ) (as' : List ℕ) {b c : Bn}
    → IsWords as'
    → IsBn b
    → IsBn c
    → IsBn (mul_loop i as' b c)
      × (val (mul_loop i as' b c) ≡ (val c + val as' * val b * base ^ i) % modulus)
unfolding mul_loop val
val-mul_loop i [] {b} {c} ha vb vc =
    (vc, sym (mod-eq_of_lt (val-lt-modulus vc)) ∙ ap (λ (x : ℕ). x % modulus) (omega arith))
val-mul_loop i (x ∷ xs) {b} {c} ha vb vc =
    let (s, es) = val-row_loop x i 0 b ha.0 vb.words init-IsBn in
    let (t, et) = val-add vc s in
    let (r, er) = val-mul_loop (suc i) xs ha.1 vb t in
    (
      r,
      er
          ∙ ap (λ (n : ℕ). (n + val xs * val b * base ^ suc i) % modulus)
              (et
                ∙ ap (λ (n : ℕ). (val c + n) % modulus)
                    (es ∙ ap (λ (n : ℕ). (n + x * val b * base ^ (i + 0)) % modulus) val-init)
                ∙ add-mod-mod (val c) (0 + x * val b * base ^ (i + 0)) modulus)
          ∙ mod-add-mod (val c + (0 + x * val b * base ^ (i + 0))) modulus
              (val xs * val b * base ^ suc i)
          ∙ ap (λ (n : ℕ). n % modulus)
              (omega (
                arith,
                ap (λ (t : ℕ). val xs * val b * t) (pow-suc base i),
                ap (λ (k : ℕ). x * val b * base ^ k) {x = i + 0} {y = i} (omega arith),
              )),
    )

-- `ty_bignum_mul` of two numbers is a number, their product modulo 2^1024.
pub val-mul :
    {a b : Bn} → IsBn a → IsBn b → IsBn (mul a b) × (val (mul a b) ≡ val a * val b % modulus)
unfolding mul
val-mul {a} {b} va vb =
    let (r, e) = val-mul_loop 0 a va.words vb init-IsBn in
    (
      r,
      e
          ∙ ap (λ (n : ℕ). (n + val a * val b * base ^ 0) % modulus) val-init
          ∙ ap (λ (n : ℕ). n % modulus) (omega arith),
    )
