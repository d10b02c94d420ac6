-- ===== src/Bignum/Div.antt =====
-- `ty_bignum_div`, `ty_bignum_divmod`, `ty_bignum_mod` and `ty_bignum_isqrt`. Their loops take
-- fuel; each calls `shr_one`, which reads outside its array.
pub mod Faults
use tyto_h.Base.{ℕ, zero, suc, ◌+◌, ◌-◌, ◌^◌, Bool, true, false, not, leb, get_or, if◌then◌else◌}
use tyto_h.Base.Partial.{Outcome, done, out_of_fuel, ◌>>=◌}
use tyto_h.Bignum.{Bn, array_size, init}
use tyto_h.Bignum.Arith.{Comparison, from_int, add, sub, inc, dec, cmp, is_zero, assign, or}
use tyto_h.Bignum.Shift.{shl_one, shr_one, shr}
use tyto_h.Bignum.Mul.{mul}

abbrev pub is_larger : Comparison → Bool
is_larger Comparison.larger = true
is_larger _ = false

abbrev pub is_smaller : Comparison → Bool
is_smaller Comparison.smaller = true
is_smaller _ = false

-- `half_max`.
abbrev pub half_max : ℕ
half_max = 2 ^ 31

-- The variables of the first loop at its end.
pub record Aligned : Type 0 where
  pub denom : Bn
  pub current : Bn
  pub overflow : Bool

unfoldable pub align_loop : ℕ → Bn → (denom current : Bn) → Outcome Aligned
align_loop zero a denom current = out_of_fuel
align_loop (suc fuel) a denom current =
    let rest = align_loop fuel a (shl_one denom) (shl_one current) in
    if is_larger (cmp denom a)
    then done (record { denom = denom; current = current; overflow = false })
    else if leb half_max (get_or denom (array_size - 1) 0)
    then done (record { denom = denom; current = current; overflow = true })
    else rest

-- The shifts behind the first loop.
unfoldable pub unshift : Bool → Bn → Outcome Bn
unshift overflow x = if overflow then done x else shr_one x

unfoldable pub divide_loop : ℕ → (tmp denom current c : Bn) → Outcome Bn
divide_loop zero tmp denom current c = out_of_fuel
divide_loop (suc fuel) tmp denom current c =
    let fits = not (is_smaller (cmp tmp denom)) in
    let rest : Outcome Bn = (do
      current' ← shr_one current
      denom' ← shr_one denom
      divide_loop fuel (if fits then sub tmp denom else tmp) denom' current'
          (if fits then or c current else c)) in
    if is_zero current then done c else rest

unfoldable pub div : ℕ → Bn → Bn → Outcome Bn
div fuel a b = do
  s ← align_loop fuel a (assign b) (from_int 1)
  denom ← unshift s.overflow s.denom
  current ← unshift s.overflow s.current
  divide_loop fuel (assign a) denom current init

unfoldable pub divmod : ℕ → Bn → Bn → Outcome (Bn × Bn)
divmod fuel a b = do c ← div fuel a b; done (c, sub a (mul c b))

unfoldable pub modulo : ℕ → Bn → Bn → Outcome Bn
modulo fuel a b = do (c, d) ← divmod fuel a b; done d

-- The loop of `ty_bignum_isqrt`.
unfoldable pub isqrt_loop : ℕ → Bn → (low high mid : Bn) → Outcome Bn
isqrt_loop zero a low high mid = out_of_fuel
isqrt_loop (suc fuel) a low high mid =
    let above = is_larger (cmp (mul mid mid) a) in
    let high' = if above then dec (assign mid) else high in
    let low' = if above then low else assign mid in
    let rest : Outcome Bn = (do
      half ← shr_one (sub high' low')
      isqrt_loop fuel a low' high' (inc (add low' half))) in
    if is_larger (cmp high low) then rest else done (assign low)

unfoldable pub isqrt : ℕ → Bn → Outcome Bn
isqrt fuel a = isqrt_loop fuel a init (assign a) (inc (shr (assign a) 1))
