-- ===== src/Bignum/Arith/Order.antt =====
-- `ty_bignum_cmp` and `ty_bignum_is_zero` decide the order of the numbers, and the conversions
-- from and to `int`.
use tyto_h.Base.{ℕ, zero, suc, ◌+◌, ◌*◌, ◌/◌, ◌%◌, ◌^◌, ◌<◌, ◌≤◌, ◌≡◌, refl, ap, sym, ◌∙◌}
use tyto_h.Base.{List, [], ◌∷◌, length, take, take-length, get_or, replicate, arith}
use tyto_h.Base.{ltb, ◌==◌, if◌then◌else◌, pos, signed32}
use mathlib.Core.Path.{ap₂}
use native.Mathlib.Nat.{pow-suc, mul-le-mul_right}
use tyto_h.Bignum.{Bn, array_size}
use tyto_h.Bignum.Value.{base, val, IsWords, IsBn, val-replicate, replicate-IsWords}
use tyto_h.Bignum.Value.Split.{val-take-lt}
use tyto_h.Bignum.Arith.{
  Comparison, smaller, equal, larger, cmp_loop, cmp, is_zero, from_int, to_int,
}
use tyto_h.Bignum.Arith.{assign}

-- The order of two natural numbers, as `ty_bignum_cmp` reports it.
abbrev pub order_of : ℕ → ℕ → Comparison
order_of x y = if ltb y x then larger else if ltb x y then smaller else equal

pub val-take-suc :
    (xs : List ℕ) (i : ℕ)
    → i < length xs
    → val (take (suc i) xs) ≡ val (take i xs) + get_or xs i 0 * base ^ i
unfolding val
val-take-suc [] i h = absurd (omega arith)
val-take-suc (x ∷ xs) zero h = omega arith
val-take-suc (x ∷ xs) (suc i) h =
    omega
      (arith, val-take-suc xs i (omega arith), ap (λ (t : ℕ). get_or xs i 0 * t) (pow-suc base i))

-- The first word that differs decides.
order_of_word :
    (p a b x y : ℕ)
    → a < p
    → b < p
    → (if ltb y x then larger else if ltb x y then smaller else order_of a b)
      ≡ order_of (a + x * p) (b + y * p)
order_of_word p a b x y ha hb =
    ground (arith, mul-le-mul_right {m = suc y} {n = x} p, mul-le-mul_right {m = suc x} {n = y} p)

cmp_loop-order_of :
    (i : ℕ) (a b : Bn)
    → i ≤ length a
    → i ≤ length b
    → IsWords a
    → IsWords b
    → cmp_loop i a b ≡ order_of (val (take i a)) (val (take i b))
unfolding cmp_loop
cmp_loop-order_of zero a b ha hb wa wb = unfold val in refl
cmp_loop-order_of (suc i) a b ha hb wa wb =
    rw (cmp_loop-order_of i a b (omega arith) (omega arith) wa wb) (
      rw (val-take-suc a i ha, val-take-suc b i hb)
        (order_of_word (base ^ i) _ _ (get_or a i 0) (get_or b i 0) (val-take-lt i a wa)
          (val-take-lt i b wb)))

cmp_loop_whole :
    (n : ℕ) (a b : Bn)
    → length a ≡ n
    → length b ≡ n
    → IsWords a
    → IsWords b
    → cmp_loop n a b ≡ order_of (val a) (val b)
cmp_loop_whole n a b ha hb wa wb =
    cmp_loop-order_of n a b (omega arith) (omega arith) wa wb
    ∙ ap₂ (λ xs ys. order_of (val xs) (val ys)) (ap (λ (k : ℕ). take k a) (sym ha) ∙ take-length a)
        (ap (λ (k : ℕ). take k b) (sym hb) ∙ take-length b)

-- `ty_bignum_cmp` is the order of the numbers.
pub cmp-order_of : {a b : Bn} → IsBn a → IsBn b → cmp a b ≡ order_of (val a) (val b)
unfolding cmp
cmp-order_of {a} {b} va vb = cmp_loop_whole array_size a b va.size vb.size va.words vb.words

-- `ty_bignum_is_zero` decides whether the number is zero.
pub is_zero-eq : (a : Bn) → is_zero a ≡ (val a == 0)
unfolding is_zero val
is_zero-eq [] = refl
is_zero-eq (x ∷ xs) = ground (arith, is_zero-eq xs)

from_int_words : (i : ℕ) → from_int i ≡ i % 2 ^ 32 ∷ i / 2 ^ 32 % 2 ^ 32 ∷ replicate 30 0
unfolding from_int
from_int_words i = refl

val-two_words : (x y n : ℕ) → val (x ∷ y ∷ replicate n 0) ≡ x + base * y
unfolding val
val-two_words x y n = omega (arith, val-replicate n)

-- `ty_bignum_from_int` keeps every 64-bit value.
pub val-from_int : (i : ℕ) → i < 2 ^ 64 → IsBn (from_int i) × (val (from_int i) ≡ i)
val-from_int i h = rw (from_int_words i) (
  record { size = refl; words = (omega arith, (omega arith, replicate-IsWords 30)) },
  val-two_words (i % 2 ^ 32) (i / 2 ^ 32 % 2 ^ 32) 30 ∙ omega arith,
)

get_or-val : (a : Bn) → IsWords a → get_or a 0 0 ≡ val a % base
unfolding val
get_or-val [] h = refl
get_or-val (x ∷ xs) h = omega arith

-- `ty_bignum_to_int` reads the number modulo 2^32 as a signed value.
pub to_int-signed : {a : Bn} → IsBn a → to_int a ≡ signed32 (val a % 2 ^ 32)
unfolding to_int
to_int-signed {a} v = ap (λ (w : ℕ). signed32 w) (get_or-val a v.words)

-- An `int` that is not negative comes back from `ty_bignum_from_int`.
pub to_int-from_int : (i : ℕ) → i < 2 ^ 31 → to_int (from_int i) ≡ pos i
to_int-from_int i h =
    let (v, e) = val-from_int i (omega arith) in
    to_int-signed v ∙ ap (λ (w : ℕ). signed32 (w % 2 ^ 32)) e ∙ ground arith

-- `ty_bignum_assign` copies.
pub assign_lem : (a : Bn) → assign a ≡ a
unfolding assign
assign_lem [] = refl
assign_lem (x ∷ xs) = ap (λ ys. x ∷ ys) (assign_lem xs)
