-- ===== src/Flyvec/Guards.antt =====
-- The tests of `flyvec_resize_` in includes/ty_flyvec.h: where a length is a power of two, and
-- where a number of bytes is too many.
use tyto_h.Base.{ℕ, zero, suc, ◌-◌, ◌*◌, ◌/◌, ◌%◌, ◌^◌, ◌≤◌, ◌<◌, bit_and, ◌≡◌, ap, ◌∙◌}
use tyto_h.Base.{◌≢◌, inl, inr, true, ◌||◌, arith, ◌==◌, if◌then◌else◌, ltb, leb}
use tyto_h.Base.{Bool-cases, pow_pos}
use tyto_h.Base.Bits.Digits.{bit_and_step}
use tyto_h.Flyvec.{size_max}
use native.Mathlib.Nat.{pow-suc, mul_comm, mul-le-mul_right, div-lt_iff_lt-mul}

-- Two numbers with the same highest bit have it in common.
common_bit :
    (k a b : ℕ) → 2 ^ k ≤ a → a < 2 ^ suc k → 2 ^ k ≤ b → b < 2 ^ suc k → 2 ^ k ≤ bit_and a b
common_bit zero a b la ha lb hb = omega (arith, bit_and_step a b)
common_bit (suc k) a b la ha lb hb = omega (
  arith,
  pow-suc 2 k,
  pow-suc 2 (suc k),
  bit_and_step a b,
  common_bit k (a / 2) (b / 2) (omega (arith, pow-suc 2 k))
      (omega (arith, pow-suc 2 k, pow-suc 2 (suc k))) (omega (arith, pow-suc 2 k))
      (omega (arith, pow-suc 2 k, pow-suc 2 (suc k))),
)

-- A power of two and its predecessor have no bit in common.
pow_test : (k : ℕ) → bit_and (2 ^ k) (2 ^ k - 1) ≡ 0
pow_test zero = omega (arith, bit_and_step 1 0)
pow_test (suc k) =
    let half : 2 ^ suc k / 2 ≡ 2 ^ k = omega (arith, pow-suc 2 k) in
    let half1 : (2 ^ suc k - 1) / 2 ≡ 2 ^ k - 1 = omega (arith, pow-suc 2 k) in
    bit_and_step (2 ^ suc k) (2 ^ suc k - 1)
    ∙ rw (half, half1, pow_test k) (omega (arith, pow-suc 2 k))

-- The length is a power of two exactly where the test of the source says so.
pub test_full :
    (k len : ℕ) → len ≤ 2 ^ k → 2 ^ k < 2 * len → bit_and len (len - 1) ≡ 0 → len ≡ 2 ^ k
test_full zero len le lt e = omega arith
test_full (suc k) len le lt e = elim (Bool-cases (ltb len (2 ^ suc k))) [
  | inr f ↦ ground arith
  | inl t ↦ absurd (
      omega (
        arith,
        e,
        pow_pos 2 k (omega arith),
        common_bit k len (len - 1) (omega (arith, pow-suc 2 k)) (ground arith)
            (omega (arith, pow-suc 2 k)) (ground arith),
      ))
]

pub test_roomy : (k len : ℕ) → len ≤ 2 ^ k → bit_and len (len - 1) ≢ 0 → len < 2 ^ k
test_roomy k len le ne = elim (Bool-cases (ltb len (2 ^ k))) [
  | inl t ↦ ground arith
  | inr f ↦
      let e : len ≡ 2 ^ k = ground arith in absurd (ne (ap (λ n. bit_and n (n - 1)) e ∙ pow_test k))
]

-- The number of elements that a full vector asks memory for.
abbrev pub wanted : ℕ → ℕ
wanted len = if len == 0 then 1 else 2 * len

pub too_many :
    (element_size capacity : ℕ)
    → 0 < element_size
    → size_max / element_size < capacity
    → size_max < element_size * capacity
too_many element_size capacity some_size h =
    rw (mul_comm element_size capacity) ((div-lt_iff_lt-mul some_size).0 h)

-- The guard of the source refuses only what is too many.
pub refused_capacity :
    (element_size len : ℕ)
    → 0 < element_size
    → 0 < len
    → len < 2 ^ 64
    → (ltb (size_max / element_size) (len * 2 % 2 ^ 64) || leb (len * 2 % 2 ^ 64) len) ≡ true
    → size_max < element_size * (2 * len)
refused_capacity element_size len some_size pos_len lim g =
    elim (Bool-cases (leb (len * 2 % 2 ^ 64) len)) [
      | inl t ↦
          let wraps : len * 2 % 2 ^ 64 ≤ len = ground arith in
          omega (arith, wraps, mul-le-mul_right {m = 1} {n = element_size} (2 * len) some_size)
      | inr f ↦ too_many element_size (2 * len) some_size (ground arith)
    ]
