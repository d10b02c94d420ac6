-- ===== src/Bitpool/Bits.antt =====
-- Single bits of words.
use tyto_h.Base.{ℕ, zero, suc, ◌-◌, ◌*◌, ◌/◌, ◌%◌, ◌^◌, ◌<◌, bit_and, bit_or, ◌≡◌, refl}
use tyto_h.Base.{ap, ◌∙◌, ◌≢◌, arith, pow_pos, bit_and-zero}
use Prim.Native.Nat.{min, max}
use tyto_h.Base.Bits.Digits.{bit_and_step, bit_or_step}
use native.Mathlib.Nat.{pow-suc}
use tyto_h.Bitpool.{flip}

-- The bit at a place.
unfoldable pub bit : ℕ → ℕ → ℕ
bit w zero = w % 2
bit w (suc k) = bit (w / 2) k

pub bit_lt : (w k : ℕ) → bit w k < 2
unfolding bit
bit_lt w zero = omega arith
bit_lt w (suc k) = bit_lt (w / 2) k

half_or : (a b : ℕ) → bit_or a b / 2 ≡ bit_or (a / 2) (b / 2)
half_or a b = omega (arith, bit_or_step a b)

half_and : (a b : ℕ) → bit_and a b / 2 ≡ bit_and (a / 2) (b / 2)
half_and a b = omega (arith, bit_and_step a b)

pub bit-bit_or : (a b k : ℕ) → bit (bit_or a b) k ≡ max (bit a k) (bit b k)
unfolding bit
bit-bit_or a b zero = omega (arith, bit_or_step a b)
bit-bit_or a b (suc k) = rw (half_or a b) (bit-bit_or (a / 2) (b / 2) k)

pub bit-bit_and : (a b k : ℕ) → bit (bit_and a b) k ≡ min (bit a k) (bit b k)
unfolding bit
bit-bit_and a b zero = omega (arith, bit_and_step a b)
bit-bit_and a b (suc k) = rw (half_and a b) (bit-bit_and (a / 2) (b / 2) k)

pub bit-pow_self : (s : ℕ) → bit (2 ^ s) s ≡ 1
unfolding bit
bit-pow_self zero = refl
bit-pow_self (suc s) =
    ap (λ w. bit w s) {x = 2 ^ suc s / 2} {y = 2 ^ s} (omega (arith, pow-suc 2 s)) ∙ bit-pow_self s

bit-zero : (k : ℕ) → bit 0 k ≡ 0
unfolding bit
bit-zero zero = refl
bit-zero (suc k) = bit-zero k

pub bit-pow_other : (s k : ℕ) → s ≢ k → bit (2 ^ s) k ≡ 0
unfolding bit
bit-pow_other zero zero ne = absurd (ne refl)
bit-pow_other zero (suc k) ne = bit-zero k
bit-pow_other (suc s) zero ne = omega (arith, pow-suc 2 s)
bit-pow_other (suc s) (suc k) ne =
    ap (λ w. bit w k) {x = 2 ^ suc s / 2} {y = 2 ^ s} (omega (arith, pow-suc 2 s))
    ∙ bit-pow_other s k (λ e. ne (ap suc e))

bit_complement : (n w k : ℕ) → w < 2 ^ n → k < n → bit (2 ^ n - 1 - w) k ≡ 1 - bit w k
unfolding bit
bit_complement zero w k h lt = absurd (omega arith)
bit_complement (suc n) w zero h lt = omega (arith, pow-suc 2 n)
bit_complement (suc n) w (suc k) h lt =
    ap (λ v. bit v k) {x = (2 ^ suc n - 1 - w) / 2} {y = 2 ^ n - 1 - w / 2}
      (omega (arith, pow-suc 2 n))
    ∙ bit_complement n (w / 2) k (omega (arith, pow-suc 2 n)) (omega arith)

pub bit-flip : (w k : ℕ) → w < 2 ^ 64 → k < 64 → bit (flip w) k ≡ 1 - bit w k
bit-flip w k h lt = bit_complement 64 w k h lt

-- A word is full exactly if all its bits are set.
all_ones : (n w : ℕ) → w < 2 ^ n → ((k : ℕ) → k < n → bit w k ≡ 1) → w ≡ 2 ^ n - 1
unfolding bit
all_ones zero w h f = omega arith
all_ones (suc n) w h f = omega (
  arith,
  pow-suc 2 n,
  f 0 (omega arith),
  all_ones n (w / 2) (omega (arith, pow-suc 2 n)) (λ k lt. f (suc k) (omega arith)),
)

pub full_of_bits : (w : ℕ) → w < 2 ^ 64 → ((k : ℕ) → k < 64 → bit w k ≡ 1) → w ≡ 2 ^ 64 - 1
full_of_bits w h f = all_ones 64 w h f

bits_of_ones : (n k : ℕ) → k < n → bit (2 ^ n - 1) k ≡ 1
unfolding bit
bits_of_ones zero k lt = absurd (omega arith)
bits_of_ones (suc n) zero lt = omega (arith, pow-suc 2 n, pow_pos 2 n (omega arith))
bits_of_ones (suc n) (suc k) lt =
    ap (λ v. bit v k) {x = (2 ^ suc n - 1) / 2} {y = 2 ^ n - 1} (omega (arith, pow-suc 2 n))
    ∙ bits_of_ones n k (omega arith)

pub bits_of_full : (w k : ℕ) → w ≡ 2 ^ 64 - 1 → k < 64 → bit w k ≡ 1
bits_of_full w k e lt = ap (λ v. bit v k) e ∙ bits_of_ones 64 k lt

-- The mask of one bit keeps just that bit.
pub bit_and-pow : (w s : ℕ) → bit_and w (2 ^ s) ≡ bit w s * 2 ^ s
unfolding bit
bit_and-pow w zero = omega (arith, bit_and_step w 1, bit_and-zero (w / 2))
bit_and-pow w (suc s) =
    let half : 2 ^ suc s / 2 ≡ 2 ^ s = omega (arith, pow-suc 2 s) in
    let even : 2 ^ suc s % 2 ≡ 0 = omega (arith, pow-suc 2 s) in
    rw (bit_and_step w (2 ^ suc s), half, even, bit_and-pow (w / 2) s)
      (omega (arith, ap (λ (t : ℕ). bit (w / 2) s * t) (pow-suc 2 s)))
