-- ===== src/Bignum/Mul.antt =====
-- `ty_bignum_mul` and `ty_bignum_pow`. The result is another object than the arguments.
pub mod Product
pub mod Power
use tyto_h.Base.{ℕ, zero, suc, ◌+◌, ◌*◌, ◌%◌, ◌^◌, List, [], ◌∷◌, ltb, if◌then◌else◌}
use tyto_h.Base.Partial.{Outcome, done, out_of_fuel}
use tyto_h.Bignum.{Bn, array_size, init}
use tyto_h.Bignum.Arith.{Comparison, from_int, add, inc, dec, cmp, is_zero, assign}
use tyto_h.Bignum.Shift.{shl_word}

-- The inner loop from column `j` on; the list holds the words of `b` that are left. The product
-- of two words is a `uint64_t`.
unfoldable pub row_loop : (ai i j : ℕ) → List ℕ → Bn → Bn
row_loop ai i j [] row = row
row_loop ai i j (bj ∷ bs) row = row_loop ai i (suc j) bs (
    if ltb (i + j) array_size
    then add (shl_word (from_int (ai * bj % 2 ^ 64)) (i + j)) row
    else row)

-- The outer loop from row `i` on; the list holds the words of `a` that are left.
unfoldable pub mul_loop : (i : ℕ) → List ℕ → Bn → Bn → Bn
mul_loop i [] b c = c
mul_loop i (ai ∷ rest) b c = mul_loop (suc i) rest b (add c (row_loop ai i 0 b init))

unfoldable pub mul : Bn → Bn → Bn
mul a b = mul_loop 0 a b init

-- The loop of `ty_bignum_pow`; the copy of the exponent is counted down.
unfoldable pub pow_loop : ℕ → Bn → (bcopy tmp : Bn) → Outcome Bn
pow_loop zero a bcopy tmp = out_of_fuel
pow_loop (suc fuel) a bcopy tmp =
    let rest = pow_loop fuel a (dec bcopy) (assign (mul tmp a)) in
    if is_zero bcopy then done (assign tmp) else rest

unfoldable pub pow : ℕ → Bn → Bn → Outcome Bn
pow fuel a b = elim (cmp b init) [
  | Comparison.equal ↦ done (inc init)
  | _ ↦ pow_loop fuel a (dec (assign b)) (assign a)
]
