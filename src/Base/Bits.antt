-- ===== src/Base/Bits.antt =====
-- Laws of `&`, `|` and `^` at variables: an operation on binary digits works on the high and on
-- the low part of a number on their own.
pub mod Digits
use Digits.{bit_and_step, bit_or_step, bit_xor_step}
use Prim.Native.Nat.{ℕ, zero, suc, ◌+◌, ◌-◌, ◌*◌, ◌/◌, ◌%◌, ◌^◌, ◌≤◌, ◌<◌, min, max}
use Prim.Native.Nat.{bit_and, bit_or, bit_xor, bit_or-bitwise, differ}
use mathlib.Core.Path.{◌≡◌, refl, ap, ap₂, ◌∙◌}
use native.Mathlib.Nat.{pow-suc, mod-lt, div-add-mod'}
use tyto_h.Base.Modular.{pow_pos}
use native.Mathlib.Omega.{arith}

mul-two-pow : (q k : ℕ) → q * 2 ^ suc k ≡ 2 * (q * 2 ^ k)
mul-two-pow q k = omega (arith, ap (λ (t : ℕ). q * t) (pow-suc 2 k))

half_field : (q r k : ℕ) → (q * 2 ^ suc k + r) / 2 ≡ q * 2 ^ k + r / 2
half_field q r k = omega (arith, mul-two-pow q k)

low_field : (q r k : ℕ) → (q * 2 ^ suc k + r) % 2 ≡ r % 2
low_field q r k = omega (arith, mul-two-pow q k)

half-lt : (r k : ℕ) → r < 2 ^ suc k → r / 2 < 2 ^ k
half-lt r k h = omega (arith, pow-suc 2 k)

-- An operation that works digit by digit.
module _ (op f : ℕ → ℕ → ℕ) (step : (a b : ℕ) → op a b ≡ op (a / 2) (b / 2) * 2 + f (a % 2) (b % 2))
    (op-zero : op 0 0 ≡ 0) where
  op_fields :
      (k q r q' r' : ℕ)
      → r < 2 ^ k
      → r' < 2 ^ k
      → op (q * 2 ^ k + r) (q' * 2 ^ k + r') ≡ op q q' * 2 ^ k + op r r'
  op_fields zero q r q' r' h h' =
      let e : r ≡ 0 = omega arith in
      let e' : r' ≡ 0 = omega arith in
      rw (e, e', op-zero)
        (ap₂ op {x = q * 1 + 0} {y = q} {u = q' * 1 + 0} {v = q'} (omega arith) (omega arith)
          ∙ omega arith)
  op_fields (suc k) q r q' r' h h' =
      rw
        (
          step (q * 2 ^ suc k + r) (q' * 2 ^ suc k + r'),
          half_field q r k,
          half_field q' r' k,
          low_field q r k,
          low_field q' r' k,
          op_fields k q (r / 2) q' (r' / 2) (half-lt r k h) (half-lt r' k h'),
        )
        (omega (arith, mul-two-pow (op q q') k, step r r'))

  op-lt :
      ((a b : ℕ) → a < 2 → b < 2 → f a b < 2)
      → (k r r' : ℕ) → r < 2 ^ k
      → r' < 2 ^ k
      → op r r' < 2 ^ k
  op-lt small zero r r' h h' =
      let e : r ≡ 0 = omega arith in
      let e' : r' ≡ 0 = omega arith in rw (e, e', op-zero) (omega arith)
  op-lt small (suc k) r r' h h' = omega (
    arith,
    step r r',
    pow-suc 2 k,
    small (r % 2) (r' % 2) (omega arith) (omega arith),
    op-lt small k (r / 2) (r' / 2) (half-lt r k h) (half-lt r' k h'),
  )

pub bit_and_fields :
    (k q r q' r' : ℕ)
    → r < 2 ^ k
    → r' < 2 ^ k
    → bit_and (q * 2 ^ k + r) (q' * 2 ^ k + r') ≡ bit_and q q' * 2 ^ k + bit_and r r'
bit_and_fields = op_fields bit_and min bit_and_step refl

pub bit_or_fields :
    (k q r q' r' : ℕ)
    → r < 2 ^ k
    → r' < 2 ^ k
    → bit_or (q * 2 ^ k + r) (q' * 2 ^ k + r') ≡ bit_or q q' * 2 ^ k + bit_or r r'
bit_or_fields = op_fields bit_or max bit_or_step refl

pub bit_xor_fields :
    (k q r q' r' : ℕ)
    → r < 2 ^ k
    → r' < 2 ^ k
    → bit_xor (q * 2 ^ k + r) (q' * 2 ^ k + r') ≡ bit_xor q q' * 2 ^ k + bit_xor r r'
bit_xor_fields = op_fields bit_xor differ bit_xor_step refl

differ-lt : (a b : ℕ) → a < 2 → b < 2 → differ a b < 2
differ-lt zero b h h' = h'
differ-lt (suc zero) zero h h' = h
differ-lt (suc zero) (suc zero) h h' = omega arith
differ-lt (suc zero) (suc (suc b)) h h' = absurd (omega arith)
differ-lt (suc (suc a)) b h h' = absurd (omega arith)

-- No operation sets a digit beyond the width of its arguments.
pub bit_and-lt : (k a b : ℕ) → a < 2 ^ k → b < 2 ^ k → bit_and a b < 2 ^ k
bit_and-lt = op-lt bit_and min bit_and_step refl (λ a b h h'. omega arith)

pub bit_or-lt : (k a b : ℕ) → a < 2 ^ k → b < 2 ^ k → bit_or a b < 2 ^ k
bit_or-lt = op-lt bit_or max bit_or_step refl (λ a b h h'. omega arith)

pub bit_xor-lt : (k a b : ℕ) → a < 2 ^ k → b < 2 ^ k → bit_xor a b < 2 ^ k
bit_xor-lt = op-lt bit_xor differ bit_xor_step refl differ-lt

bit_and-zero_below : (n a : ℕ) → a ≤ n → bit_and a 0 ≡ 0
bit_and-zero_below n zero h = refl
bit_and-zero_below zero (suc a) h = absurd (omega arith)
bit_and-zero_below (suc n) (suc a) h =
    omega (arith, bit_and_step (suc a) 0, bit_and-zero_below n (suc a / 2) (omega arith))

pub bit_and-zero : (a : ℕ) → bit_and a 0 ≡ 0
bit_and-zero a = bit_and-zero_below a a (omega arith)

bit_or-zero_below : (n a : ℕ) → a ≤ n → bit_or a 0 ≡ a
bit_or-zero_below n zero h = refl
bit_or-zero_below zero (suc a) h = absurd (omega arith)
bit_or-zero_below (suc n) (suc a) h =
    omega (arith, bit_or_step (suc a) 0, bit_or-zero_below n (suc a / 2) (omega arith))

pub bit_or-zero : (a : ℕ) → bit_or a 0 ≡ a
bit_or-zero a = bit_or-zero_below a a (omega arith)

pub zero-bit_or : (a : ℕ) → bit_or 0 a ≡ a
zero-bit_or a = bit_or-bitwise 0 a

-- `(q << k) | r` is a sum when `r` fits `k` bits.
pub bit_or_disjoint : (k q r : ℕ) → r < 2 ^ k → bit_or (q * 2 ^ k) r ≡ q * 2 ^ k + r
bit_or_disjoint k q r h =
    ap₂ bit_or {x = q * 2 ^ k} {y = q * 2 ^ k + 0} {u = r} {v = 0 * 2 ^ k + r} (omega arith)
      (omega arith)
    ∙ bit_or_fields k q 0 0 r (pow_pos 2 k (omega arith)) h
    ∙ omega (arith, ap (λ (t : ℕ). t * 2 ^ k) (bit_or-zero q), zero-bit_or r)

bit_and_all_ones : (k r : ℕ) → r < 2 ^ k → bit_and r (2 ^ k - 1) ≡ r
bit_and_all_ones zero r h = bit_and-zero r ∙ omega arith
bit_and_all_ones (suc k) r h =
    let e : (2 ^ suc k - 1) / 2 ≡ 2 ^ k - 1 = omega (arith, pow-suc 2 k) in
    rw (bit_and_step r (2 ^ suc k - 1), e, bit_and_all_ones k (r / 2) (half-lt r k h))
      (omega (arith, pow-suc 2 k, pow_pos 2 k))

-- A mask of `k` low bits is the remainder by `2 ^ k`.
pub bit_and_mask : (k a : ℕ) → bit_and a (2 ^ k - 1) ≡ a % 2 ^ k
bit_and_mask k a =
    let pos = pow_pos 2 k (omega arith) in
    ap₂ bit_and {x = a} {y = a / 2 ^ k * 2 ^ k + a % 2 ^ k} {u = 2 ^ k - 1}
      {v = 0 * 2 ^ k + (2 ^ k - 1)} (omega (arith, div-add-mod' a (2 ^ k))) (omega arith)
    ∙ bit_and_fields k (a / 2 ^ k) (a % 2 ^ k) 0 (2 ^ k - 1) (mod-lt a pos) (omega arith)
    ∙ rw (bit_and-zero, bit_and_all_ones k (a % 2 ^ k) (mod-lt a pos)) (omega arith)

-- The same with the low part first.
pub bit_or_disjoint_low : (k q r : ℕ) → r < 2 ^ k → bit_or r (q * 2 ^ k) ≡ q * 2 ^ k + r
bit_or_disjoint_low k q r h =
    ap₂ bit_or {x = r} {y = 0 * 2 ^ k + r} {u = q * 2 ^ k} {v = q * 2 ^ k + 0} (omega arith)
      (omega arith)
    ∙ bit_or_fields k 0 r q 0 h (pow_pos 2 k (omega arith))
    ∙ omega (arith, ap (λ (t : ℕ). t * 2 ^ k) (zero-bit_or q), bit_or-zero r)
