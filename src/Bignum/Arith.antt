-- ===== src/Bignum/Arith.antt =====
-- Conversion, addition, subtraction, comparison and the bitwise operations of src/ty_bignum.c.
-- A loop over `i` that reads and writes only the words at `i` is a recursion on the words.
pub mod Sums
pub mod Differences
pub mod Order
pub mod Bitwise
use tyto_h.Base.{ℕ, zero, suc, ◌+◌, ◌-◌, ◌/◌, ◌%◌, ◌^◌, bit_and, bit_or, bit_xor}
use tyto_h.Base.{Bool, true, false, not, ltb, leb, ◌==◌, if◌then◌else◌}
use tyto_h.Base.{List, [], ◌∷◌, get_or, set, ℤ, signed32}
use tyto_h.Bignum.{Bn, array_size, max_val, init}

-- `SMALLER`, `EQUAL` and `LARGER`.
pub data Comparison : Type 0 where
  smaller equal larger : Comparison

-- The argument is a `uint64_t`; a store into a word cuts it to 32 bits.
unfoldable pub from_int : ℕ → Bn
unfolding init
from_int i = set (set init 0 (i % 2 ^ 32)) 1 (i / 2 ^ 32 % 2 ^ 32)

-- The low word alone, as an `int`.
unfoldable pub to_int : Bn → ℤ
to_int bn = signed32 (get_or bn 0 0)

-- `tmp` is a `uint64_t`.
unfoldable pub add_loop : List ℕ → List ℕ → ℕ → List ℕ
add_loop (x ∷ xs) (y ∷ ys) carry =
    let tmp = (x + y + carry) % 2 ^ 64 in
    bit_and tmp max_val ∷ add_loop xs ys (if ltb max_val tmp then 1 else 0)
add_loop _ _ _ = []

unfoldable pub add : Bn → Bn → Bn
add a b = add_loop a b 0

-- The subtraction of `uint64_t` wraps.
unfoldable pub sub_loop : List ℕ → List ℕ → ℕ → List ℕ
sub_loop (x ∷ xs) (y ∷ ys) borrow =
    let tmp1 = (x + (max_val + 1)) % 2 ^ 64 in
    let tmp2 = (y + borrow) % 2 ^ 64 in
    let res = (tmp1 + 2 ^ 64 - tmp2) % 2 ^ 64 in
    bit_and res max_val ∷ sub_loop xs ys (if leb res max_val then 1 else 0)
sub_loop _ _ _ = []

unfoldable pub sub : Bn → Bn → Bn
sub a b = sub_loop a b 0

-- The loop breaks at the first word that does not wrap.
unfoldable pub dec : Bn → Bn
dec [] = []
dec (tmp ∷ xs) =
    let res = (tmp + 2 ^ 32 - 1) % 2 ^ 32 in res ∷ (if not (ltb tmp res) then xs else dec xs)

unfoldable pub inc : Bn → Bn
inc [] = []
inc (tmp ∷ xs) = let res = (tmp + 1) % 2 ^ 32 in res ∷ (if ltb tmp res then xs else inc xs)

-- The loop from word `i - 1` down to word 0.
unfoldable pub cmp_loop : ℕ → Bn → Bn → Comparison
cmp_loop zero a b = equal
cmp_loop (suc i) a b =
    let below = cmp_loop i a b in
    let x = get_or a i 0 in
    let y = get_or b i 0 in if ltb y x then larger else if ltb x y then smaller else below

unfoldable pub cmp : Bn → Bn → Comparison
cmp a b = cmp_loop array_size a b

unfoldable pub is_zero : Bn → Bool
is_zero [] = true
is_zero (x ∷ xs) = if not (x == 0) then false else is_zero xs

unfoldable pub and : Bn → Bn → Bn
and (x ∷ xs) (y ∷ ys) = bit_and x y ∷ and xs ys
and _ _ = []

unfoldable pub or : Bn → Bn → Bn
or (x ∷ xs) (y ∷ ys) = bit_or x y ∷ or xs ys
or _ _ = []

unfoldable pub xor : Bn → Bn → Bn
xor (x ∷ xs) (y ∷ ys) = bit_xor x y ∷ xor xs ys
xor _ _ = []

-- The loop copies word by word.
unfoldable pub assign : Bn → Bn
assign [] = []
assign (x ∷ xs) = x ∷ assign xs
