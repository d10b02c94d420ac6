-- ===== src/Base/Modular.antt =====
-- Remainders and powers of native numbers.
use Prim.Native.Nat.{ℕ, zero, suc, ◌+◌, ◌*◌, ◌/◌, ◌%◌, ◌^◌, ◌<◌}
use mathlib.Core.Path.{◌≡◌, sym, ap, ◌∙◌}
use native.Mathlib.Nat.{mul_comm, pow-suc, pow-zero, add-zero, add-suc, one-le-pow}
use native.Mathlib.Nat.{mul-le-mul_right, div-eq_of_lt-le, mod-lt, div-lt_iff_lt-mul}
use native.Mathlib.Nat.{div-add-mod', add-mul-mod_self_right, mod-eq_of_lt}
use native.Mathlib.Omega.{arith}

pub pow-add : (b m n : ℕ) → b ^ (m + n) ≡ b ^ m * b ^ n
pow-add b m zero = rw (add-zero, pow-zero) (omega arith)
pow-add b m (suc n) = rw (add-suc, pow-suc, pow-suc, pow-add b m n) (omega arith)

pub pow_pos : (b n : ℕ) → 0 < b → 0 < b ^ n
pow_pos b n h = one-le-pow n b h

-- A remainder does not see a multiple of the divisor.
pub mod-mul-mod : (a b m : ℕ) → (a % m * b) % m ≡ (a * b) % m
mod-mul-mod a b m = sym (
    ap (λ (t : ℕ). t % m) (omega (arith, ap (λ (t : ℕ). t * b) (div-add-mod' a m)))
    ∙ add-mul-mod_self_right (a % m * b) (a / m * b) m)

pub mul-mod-mod : (a b m : ℕ) → (a * (b % m)) % m ≡ (a * b) % m
mul-mod-mod a b m =
    ap (λ (t : ℕ). t % m) (mul_comm a (b % m))
    ∙ mod-mul-mod b a m
    ∙ ap (λ (t : ℕ). t % m) (mul_comm b a)

-- The remainder is the only number below `m` that differs from `s` by a multiple of `m`.
pub mod_unique : (m v k s : ℕ) → v < m → v + k * m ≡ s → v ≡ s % m
mod_unique m v k s h e =
    sym (mod-eq_of_lt h) ∙ sym (add-mul-mod_self_right v k m) ∙ ap (λ (t : ℕ). t % m) e

-- The remainder of a product by a product with the same factor.
pub mul-mod-mul : (x t u : ℕ) → 0 < t → 0 < u → x * t % (u * t) ≡ x % u * t
mul-mod-mul x t u ht hu = sym (
    mod_unique (u * t) (x % u * t) (x / u) (x * t)
      (omega (arith, mul-le-mul_right {m = suc (x % u)} {n = u} t (mod-lt x hu)))
      (omega (arith, ap (λ (k : ℕ). k * t) (div-add-mod' x u))))

pub div-lt_of_mul : (y t u : ℕ) → 0 < u → y < u * t → y / u < t
div-lt_of_mul y t u hu h = (div-lt_iff_lt-mul hu).1 (omega arith)

-- The quotient is the only number that leaves a rest below the divisor.
pub div_unique : (s d q r : ℕ) → r < d → q * d + r ≡ s → s / d ≡ q
div_unique s d q r h e = div-eq_of_lt-le {k = q} d {m = s} (omega arith) (omega arith)
