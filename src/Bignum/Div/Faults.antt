-- ===== src/Bignum/Div/Faults.antt =====
-- What `ty_bignum_div` and the functions that call it do: `shr_one` reads `array[-1]`, and they
-- all reach it, but for a division by zero, whose first loop never ends.
use tyto_h.Base.{ℕ, zero, suc, ◌+◌, ◌-◌, ◌*◌, ◌^◌, ◌≤◌, ◌<◌, ◌≡◌, refl, sym, ap, ◌∙◌, ◌⊎◌}
use tyto_h.Base.{inl, inr, Bool, true, false, List, [], ◌∷◌, arith, ◌==◌, if◌then◌else◌}
use tyto_h.Base.{ltb, leb, lt→ltb, le→ltb, ==_iff, Bool-cases, pow_pos, Outcome, length}
use tyto_h.Base.{get_or, take, take-length}
use tyto_h.Base.Partial.{Outcome, done, fault, out_of_fuel, ◌>>=◌}
use native.Mathlib.Nat.{pow-suc, pow-le-pow_right, mul-le-mul_right, mod-eq_of_lt}
use tyto_h.Bignum.{Bn, init}
use tyto_h.Bignum.Value.{base, val, IsWords, IsBn, modulus, val-lt-modulus, init-IsBn, val-init}
use tyto_h.Bignum.Value.Split.{val-take-lt}
use tyto_h.Bignum.Arith.{from_int, cmp, is_zero, assign}
use tyto_h.Bignum.Arith.Order.{val-take-suc, cmp-order_of, is_zero-eq, assign_lem, val-from_int}
use tyto_h.Bignum.Shift.{shl_one, shr_one, shr_one_loop}
use tyto_h.Bignum.Shift.Left.{val-shl_one}
use tyto_h.Bignum.Div.{
  is_larger, half_max, Aligned, align_loop, unshift, divide_loop, div, divmod, modulo, isqrt_loop,
  isqrt,
}

-- `shr_one` reads outside its array, whatever the number is.
pub shr_one-fault : (a : Bn) → shr_one a ≡ fault
unfolding shr_one shr_one_loop
shr_one-fault [] = refl
shr_one-fault (x ∷ xs) = refl

is_larger-cmp : {a b : Bn} → IsBn a → IsBn b → is_larger (cmp a b) ≡ ltb (val b) (val a)
is_larger-cmp {a} {b} va vb = ap is_larger (cmp-order_of va vb) ∙ ground arith

-- A number whose top bit is clear can be doubled.
top_bit :
    (n : ℕ) (xs : List ℕ)
    → length xs ≡ suc n
    → IsWords xs
    → get_or xs n 0 < half_max
    → 2 * val xs < base ^ suc n
top_bit n xs e w h =
    let whole : val (take (suc n) xs) ≡ val xs =
      ap (λ (k : ℕ). val (take k xs)) (sym e) ∙ ap val (take-length xs) in
    let top : get_or xs n 0 * base ^ n ≤ (2 ^ 31 - 1) * base ^ n =
      mul-le-mul_right (base ^ n) (omega arith) in
    omega (arith, whole, top, val-take-suc xs n (omega arith), val-take-lt n xs w, pow-suc base n)

-- The loop doubles both numbers.
double : {a : Bn} → IsBn a → val a * 2 < modulus → IsBn (shl_one a) × (val (shl_one a) ≡ val a * 2)
double v h = let (w, e) = val-shl_one v in (w, e ∙ mod-eq_of_lt h)

-- What the first loop hands on.
record Ends (run : Outcome Aligned) : Type 0 where
  last : Aligned
  returns : run ≡ done last
  stopped : (last.overflow ≡ false) ⊎ (is_zero last.current ≡ false)

-- In round `k` the divisor has been doubled `k` times at least from one, and the quotient bit with it.
align_loop-Ends :
    (fuel k : ℕ) {a denom current : Bn}
    → IsBn a
    → IsBn denom
    → IsBn current
    → 1024 < fuel + k
    → val current ≡ 2 ^ k
    → 2 ^ k ≤ val denom
    → Ends (align_loop fuel a denom current)
unfolding align_loop
align_loop-Ends zero k va vd vc enough ec ed =
    let big : 2 ^ 1024 ≤ 2 ^ k =
      pow-le-pow_right {n = 2} (omega arith) {i = 1024} {j = k} (omega arith) in
    let below = val-lt-modulus vd in absurd (omega arith)
align_loop-Ends (suc fuel) k {a} {denom} {current} va vd vc enough ec ed =
    elim (Bool-cases (ltb (val a) (val denom))) [
      | inl over ↦
          rw (is_larger-cmp vd va, over) (record { last = _; returns = refl; stopped = inl refl })
      | inr under ↦
          rw (is_larger-cmp vd va, under)
            (elim (Bool-cases (leb half_max (get_or denom 31 0))) [
              | inl full ↦ rw full (record { last = _; returns = refl; stopped = inr nonzero })
              | inr clear ↦ rw clear (
                  let room = top_bit 31 denom vd.size vd.words (ground arith) in
                  let (vd', ed') = double vd (omega arith) in
                  let (vc', ec') = double vc (omega arith) in
                  align_loop-Ends fuel (suc k) va vd' vc' (omega arith)
                    (omega (arith, ec', pow-suc 2 k)) (omega (arith, ed', pow-suc 2 k)))
            ])
    ]
  where
    nonzero : is_zero current ≡ false
    nonzero = is_zero-eq current ∙ ground (arith, pow_pos 2 k)

unshift-fault : (x : Bn) → unshift false x ≡ fault
unfolding unshift
unshift-fault x = shr_one-fault x

divide_loop-fault :
    (fuel : ℕ) (tmp denom current c : Bn)
    → is_zero current ≡ false
    → divide_loop (suc fuel) tmp denom current c ≡ fault
unfolding divide_loop
divide_loop-fault fuel tmp denom current c h = rw (h, shr_one-fault current) refl

-- What follows the first loop.
finish-fault :
    (fuel : ℕ) (tmp denom current c : Bn) (overflow : Bool)
    → (overflow ≡ false) ⊎ (is_zero current ≡ false)
    → (unshift overflow denom >>= λ d.
        unshift overflow current >>= λ q. divide_loop (suc fuel) tmp d q c)
      ≡ fault
finish-fault fuel tmp denom current c false h = rw (unshift-fault denom) refl
finish-fault fuel tmp denom current c true (inl e) = cc
finish-fault fuel tmp denom current c true (inr z) =
    unfold unshift in divide_loop-fault fuel tmp denom current c z

-- `ty_bignum_div` by a number other than zero always reads outside an array, and gets there
-- within 1026 rounds.
div_faults :
    (fuel : ℕ) {a b : Bn} → IsBn a → IsBn b → 0 < val b → 1024 < fuel → div fuel a b ≡ fault
unfolding div
div_faults zero va vb h enough = absurd (omega arith)
div_faults (suc fuel) {a} {b} va vb h enough =
    let (one, e) = val-from_int 1 (omega arith) in
    let ends = align_loop-Ends (suc fuel) 0 va vb one (omega arith) e (omega arith) in
    rw (assign_lem b, ends.returns)
      (finish-fault fuel (assign a) ends.last.denom ends.last.current init ends.last.overflow
        ends.stopped)

zero_words : (xs : List ℕ) (i : ℕ) → val xs ≡ 0 → get_or xs i 0 ≡ 0
unfolding val
zero_words [] i h = refl
zero_words (x ∷ xs) zero h = omega arith
zero_words (x ∷ xs) (suc i) h = zero_words xs i (omega arith)

align_loop_diverges :
    (fuel : ℕ) {a denom : Bn} (current : Bn)
    → IsBn a
    → IsBn denom
    → val denom ≡ 0
    → align_loop fuel a denom current ≡ out_of_fuel
unfolding align_loop
align_loop_diverges zero current va vd h = refl
align_loop_diverges (suc fuel) {a} {denom} current va vd h =
    let (vd', e) = double vd (omega arith) in
    rw (is_larger-cmp vd va, h, zero_words denom 31 h, le→ltb (val a) 0 (omega arith))
      (align_loop_diverges fuel (shl_one current) va vd' (omega arith))

div-zero_diverges : (fuel : ℕ) {a b : Bn} → IsBn a → IsBn b → val b ≡ 0 → div fuel a b ≡ out_of_fuel
unfolding div
div-zero_diverges fuel {a} {b} va vb h =
    rw (assign_lem b, align_loop_diverges fuel (from_int 1) va vb h) refl

-- ty_bignum_div, ty_bignum_divmod and ty_bignum_mod of two numbers: by a divisor of value zero
-- they do not end, in any number of rounds above 1024; by any other divisor they end within
-- 1026 rounds of each loop in a read outside an array, through shr_one.
pub div-divmod-modulo :
    (fuel : ℕ) {a b : Bn}
    → IsBn a
    → IsBn b
    → 1024 < fuel
    → (div fuel a b ≡ (if val b == 0 then out_of_fuel else fault))
      × ((divmod fuel a b ≡ (if val b == 0 then out_of_fuel else fault))
          × (modulo fuel a b ≡ (if val b == 0 then out_of_fuel else fault)))
unfolding divmod modulo
div-divmod-modulo fuel {a} {b} va vb enough = elim (Bool-cases (val b == 0)) [
  | inl t ↦
      let e = div-zero_diverges fuel va vb ((==_iff (val b) 0).0 t) in
      rw (t, e) (refl, (refl, refl))
  | inr f ↦ let e = div_faults fuel va vb (ground arith) enough in rw (f, e) (refl, (refl, refl))
]

-- `ty_bignum_isqrt` of zero is zero, and of any other number reads outside an array in the first
-- round of its loop.
pub isqrt-fault :
    (fuel : ℕ) {a : Bn} → IsBn a → isqrt (suc fuel) a ≡ (if val a == 0 then done init else fault)
unfolding isqrt isqrt_loop
isqrt-fault fuel {a} v = elim (Bool-cases (val a == 0)) [
  | inl zero_arg ↦
      rw
        (
          assign_lem a,
          is_larger-cmp v init-IsBn,
          val-init,
          zero_arg,
          le→ltb 0 (val a) (ground arith),
          assign_lem init,
        )
        refl
  | inr other ↦
      rw
        (
          assign_lem a,
          is_larger-cmp v init-IsBn,
          val-init,
          other,
          lt→ltb 0 (val a) (ground arith),
          shr_one-fault,
        )
        refl
]
