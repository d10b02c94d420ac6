-- ===== src/Base/Bits/Digits.antt =====
-- One equation for the lowest digit of each bit operation.
use Prim.Native.Nat.{ℕ, zero, suc, ◌+◌, ◌*◌, ◌/◌, ◌%◌, ◌≤◌, min, max, differ, digits, bitwise}
use Prim.Native.Nat.{bit_and, bit_or, bit_xor, bit_and-bitwise, bit_or-bitwise, bit_xor-bitwise}
use mathlib.Core.Path.{◌≡◌, refl, sym, ap, ◌∙◌}
use native.Mathlib.Decide.{dec_le}
use native.Mathlib.Omega.{arith}

-- An operation that is the digit recursion for `f`, where `z b` is the result once the first
-- number has run out.
module _ (z : ℕ → ℕ) (f op : ℕ → ℕ → ℕ) (is_digits : (a b : ℕ) → op a b ≡ bitwise z f a b)
    (at_zero : (b : ℕ) → z b ≡ z (b / 2) * 2 + f 0 (b % 2)) where
  abbrev join : ℕ → ℕ → ℕ → ℕ
  join a b rest = rest * 2 + f (suc a % 2) (b % 2)

  -- A round more than there are digits changes nothing.
  spare_round : (n a b : ℕ) → a ≤ n → digits z f (suc n) a b ≡ digits z f n a b
  spare_round zero zero b h = refl
  spare_round (suc n) zero b h = refl
  spare_round zero (suc a) b h = absurd (omega arith)
  spare_round (suc n) (suc a) b h = ap (join a b) (spare_round n (suc a / 2) (b / 2) (omega arith))

  spare_rounds : (n a b : ℕ) → a ≤ n → digits z f n a b ≡ op a b
  spare_rounds zero zero b h = sym (is_digits 0 b)
  spare_rounds zero (suc a) b h = absurd (omega arith)
  spare_rounds (suc n) a b h = elim (dec_le a n) [
    | yes p ↦ spare_round n a b p ∙ spare_rounds n a b p
    | no p ↦
        ap (λ (m : ℕ). digits z f m a b) {x = suc n} {y = a} (omega arith) ∙ sym (is_digits a b)
  ]

  lowest_digit : (a b : ℕ) → op a b ≡ op (a / 2) (b / 2) * 2 + f (a % 2) (b % 2)
  lowest_digit zero b =
      is_digits 0 b
      ∙ at_zero b
      ∙ ap (λ (rest : ℕ). rest * 2 + f 0 (b % 2)) (sym (is_digits 0 (b / 2)))
  lowest_digit (suc a) b =
      is_digits (suc a) b ∙ ap (join a b) (spare_rounds a (suc a / 2) (b / 2) (omega arith))

pub bit_and_step : (a b : ℕ) → bit_and a b ≡ bit_and (a / 2) (b / 2) * 2 + min (a % 2) (b % 2)
bit_and_step = lowest_digit (λ y. 0) min bit_and bit_and-bitwise (λ b. omega arith)

pub bit_or_step : (a b : ℕ) → bit_or a b ≡ bit_or (a / 2) (b / 2) * 2 + max (a % 2) (b % 2)
bit_or_step = lowest_digit (λ y. y) max bit_or bit_or-bitwise (λ b. omega arith)

pub bit_xor_step : (a b : ℕ) → bit_xor a b ≡ bit_xor (a / 2) (b / 2) * 2 + differ (a % 2) (b % 2)
bit_xor_step = lowest_digit (λ y. y) differ bit_xor bit_xor-bitwise (λ b. omega arith)
