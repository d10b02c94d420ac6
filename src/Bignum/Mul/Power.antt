-- ===== src/Bignum/Mul/Power.antt =====
-- `ty_bignum_pow` is exponentiation modulo 2^1024, in as many rounds as the exponent says.
use tyto_h.Base.{ℕ, zero, suc, ◌-◌, ◌*◌, ◌%◌, ◌^◌, ◌<◌, ◌≤◌, ◌≡◌, refl, ap, sym, ◌∙◌, arith}
use tyto_h.Base.{◌==◌, ==_iff, Bool-cases, inl, inr, mod-mul-mod}
use tyto_h.Base.{lt→ltb}
use tyto_h.Base.Partial.{Outcome, done}
use native.Mathlib.Nat.{pow-succ', mod-eq_of_lt, mul_assoc, pow-zero}
use mathlib.Core.Path.{ap₂}
use tyto_h.Bignum.{Bn, init}
use tyto_h.Bignum.Value.{val, IsBn, modulus, val-lt-modulus, init-IsBn, val-init}
use tyto_h.Bignum.Arith.{equal, larger, inc, dec, cmp}
use tyto_h.Bignum.Arith.Sums.{val-inc}
use tyto_h.Bignum.Arith.Differences.{val-dec}
use tyto_h.Bignum.Arith.Order.{is_zero-eq, cmp-order_of, assign_lem}
use tyto_h.Bignum.Mul.{mul, pow_loop, pow}
use tyto_h.Bignum.Mul.Product.{val-mul}

-- A run that returns a number of the given value.
pub record Computes (run : Outcome Bn) (n : ℕ) : Type 0 where
  pub result : Bn
  pub returns : run ≡ done result
  pub number : IsBn result
  pub value : val result ≡ n

val-dec_pos : {a : Bn} → IsBn a → 0 < val a → val (dec a) ≡ val a - 1
val-dec_pos {a} v h = let below = val-lt-modulus v in (val-dec v).1 ∙ omega arith

one_factor : (t a v : ℕ) → 0 < v → t * a % modulus * a ^ (v - 1) % modulus ≡ t * a ^ v % modulus
one_factor t a v h =
    mod-mul-mod (t * a) (a ^ (v - 1)) modulus
    ∙ ap (λ (n : ℕ). n % modulus)
        (mul_assoc t a (a ^ (v - 1))
          ∙ ap (λ (n : ℕ). t * n)
              (sym (pow-succ' a (v - 1)) ∙ ap (λ (k : ℕ). a ^ k) {y = v} (omega arith)))

no_factor : (t a v : ℕ) → t < modulus → v ≡ 0 → t ≡ t * a ^ v % modulus
no_factor t a v h e =
    sym (mod-eq_of_lt h)
    ∙ ap (λ (n : ℕ). n % modulus) {y = t * a ^ v} (rw (e, pow-zero) (omega arith))

pow_loop-Computes :
    (fuel : ℕ) {a bcopy tmp : Bn}
    → IsBn a
    → IsBn bcopy
    → IsBn tmp
    → val bcopy < fuel
    → Computes (pow_loop fuel a bcopy tmp) (val tmp * val a ^ val bcopy % modulus)
unfolding pow_loop
pow_loop-Computes zero va vb vt h = absurd (omega arith)
pow_loop-Computes (suc fuel) {a} {bcopy} {tmp} va vb vt h = elim (Bool-cases (val bcopy == 0)) [
  | inl stop ↦
      rw (is_zero-eq bcopy, stop, assign_lem tmp)
        (record {
          result = tmp;
          returns = refl;
          number = vt;
          value =
              no_factor (val tmp) (val a) (val bcopy) (val-lt-modulus vt)
                ((==_iff (val bcopy) 0).0 stop);
        })
  | inr more ↦
      let positive : 0 < val bcopy = ground arith in
      let smaller_now = val-dec_pos vb positive in
      let (vm, em) = val-mul vt va in
      let rest = pow_loop-Computes fuel va (val-dec vb).0 vm (omega arith) in
      rw (is_zero-eq bcopy, more, assign_lem (mul tmp a))
        (record {
          result = rest.result;
          returns = rest.returns;
          number = rest.number;
          value =
              rest.value
              ∙ ap₂ (λ (s k : ℕ). s * val a ^ k % modulus) em smaller_now
              ∙ one_factor (val tmp) (val a) (val bcopy) positive;
        })
]

cmp-init_zero : {b : Bn} → IsBn b → val b ≡ 0 → cmp b init ≡ equal
cmp-init_zero {b} v e = cmp-order_of v init-IsBn ∙ rw (val-init, e) refl

cmp-init_pos : {b : Bn} → IsBn b → 0 < val b → cmp b init ≡ larger
cmp-init_pos {b} v h = cmp-order_of v init-IsBn ∙ rw (val-init, lt→ltb 0 (val b) h) refl

-- `ty_bignum_pow` of two numbers returns a number, the power modulo 2^1024, if its loop is given
-- as many rounds as the exponent says; zero to the zero is one.
pub pow-Computes :
    (fuel : ℕ) {a b : Bn}
    → IsBn a
    → IsBn b
    → val b ≤ fuel
    → Computes (pow fuel a b) (val a ^ val b % modulus)
unfolding pow
pow-Computes fuel {a} {b} va vb h = elim (Bool-cases (val b == 0)) [
  | inl z ↦
      let e : val b ≡ 0 = (==_iff (val b) 0).0 z in
      rw (cmp-init_zero vb e, pow)
        (record {
          result = inc init;
          returns = refl;
          number = (val-inc init-IsBn).0;
          value = (val-inc init-IsBn).1 ∙ rw (val-init, e, pow-zero) refl;
        })
  | inr nz ↦
      let positive : 0 < val b = ground arith in
      let less = val-dec_pos vb positive in
      let loop =
        pow_loop-Computes fuel {a = a} {bcopy = dec b} {tmp = a} va (val-dec vb).0 va
          (omega arith) in
      rw (cmp-init_pos vb positive, pow, assign_lem b, assign_lem a)
        (record {
          result = loop.result;
          returns = loop.returns;
          number = loop.number;
          value =
              loop.value
              ∙ ap (λ (k : ℕ). val a * val a ^ k % modulus) less
              ∙ ap (λ (n : ℕ). n % modulus)
                  (sym (pow-succ' (val a) (val b - 1))
                    ∙ ap (λ (k : ℕ). val a ^ k) {y = val b} (omega arith));
        })
]
