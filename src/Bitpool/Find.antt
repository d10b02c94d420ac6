-- ===== src/Bitpool/Find.antt =====
-- The count of trailing zeros of includes/ty_bitpool.h.
use tyto_h.Base.{ℕ, zero, suc, ◌+◌, ◌/◌, ◌%◌, ◌^◌, ◌<◌, bit_and, ◌≡◌, refl, ap, ◌∙◌, ◌≢◌}
use tyto_h.Base.{inl, inr, true, false, arith, ◌==◌, Bool-cases, done, out_of_fuel}
use tyto_h.Bitpool.{ctz_loop, ctz64}
use tyto_h.Bitpool.Bits.{bit, bit_and-pow}
use native.Mathlib.Nat.{pow-suc}

low_bit : (x : ℕ) → bit_and x 1 ≡ x % 2
unfolding bit
low_bit x = bit_and-pow x 0 ∙ omega arith

-- The place of the lowest bit that is set.
pub record Lowest (x k : ℕ) : Type 0 where
  pub set_at : bit x k ≡ 1
  pub clear_below : (j : ℕ) → j < k → bit x j ≡ 0

odd_bit : (x : ℕ) → (x % 2 == 0) ≡ false → bit x 0 ≡ 1
unfolding bit
odd_bit x f = ground arith

Lowest-up : (x k : ℕ) → (x % 2 == 0) ≡ true → Lowest (x / 2) k → Lowest x (suc k)
unfolding bit
Lowest-up x k t l = record { set_at = l.set_at; clear_below = below }
  where
    below : (j : ℕ) → j < suc k → bit x j ≡ 0
    below zero lt = ground arith
    below (suc j) lt = l.clear_below j (omega arith)

ctz_loop_zero : (fuel n : ℕ) → ctz_loop fuel 0 n ≡ out_of_fuel
unfolding ctz_loop
ctz_loop_zero zero n = refl
ctz_loop_zero (suc fuel) n = ctz_loop_zero fuel (n + 1)

pub ctz_loop-Lowest :
    (fuel x n : ℕ)
    → x ≢ 0
    → x < 2 ^ fuel
    → (k : ℕ) × ((ctz_loop fuel x n ≡ done (n + k)) × ((k < fuel) × Lowest x k))
unfolding ctz_loop
ctz_loop-Lowest zero x n ne h = absurd (ne (omega arith))
ctz_loop-Lowest (suc fuel) x n ne h = rw (low_bit x) (elim (Bool-cases (x % 2 == 0)) [
  | inr f ↦ rw f (
    0,
    (
      ap done (omega arith),
      (omega arith, record { set_at = odd_bit x f; clear_below = λ j lt. absurd (omega arith) }),
    ),
  )
  | inl t ↦ rw t (
      let r =
        ctz_loop-Lowest fuel (x / 2) (n + 1) (λ e. ne (ground arith))
          (omega (arith, pow-suc 2 fuel)) in
      (
        suc r.0,
        (r.1.0 ∙ ap done (omega arith), (omega (arith, r.1.1.0), Lowest-up x r.0 t r.1.1.1)),
      ))
])

pub ctz64_zero : (fuel : ℕ) → ctz64 fuel 0 ≡ out_of_fuel
unfolding ctz64
ctz64_zero fuel = ctz_loop_zero fuel 0
