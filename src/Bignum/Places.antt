-- ===== src/Bignum/Places.antt =====
-- The operations of src/ty_bignum.c on numbers behind pointers, some of which may be equal. A
-- loop reads the words of its arguments in every round, when the result is partly written.
pub mod Aliases
pub mod Rows
pub mod Products
mod Tests
use tyto_h.Base.{ℕ, zero, suc, ◌+◌, ◌-◌, ◌%◌, ◌^◌, bit_and, bit_or, bit_xor, ◌==◌}
use tyto_h.Base.{if◌then◌else◌, ltb, leb, get_or, set}
use tyto_h.Bignum.{Bn, array_size, max_val, init}
use tyto_h.Bignum.Mul.{row_loop}

-- The numbers that the pointers stand for.
abbrev pub Objects : Type 0
Objects = ℕ → Bn

unfoldable pub write : Objects → (c : ℕ) → Bn → Objects
write m c v p = if p == c then v else m p

-- One round: the word that is written, and the carry into the next.
abbrev pub Round : Type 0
Round = (x y carry : ℕ) → ℕ × ℕ

-- `for (i = 0; ...; ++i)`, from word `i` on, with `left` rounds to go.
unfoldable pub words_at : Round → (a b c : ℕ) → (left i carry : ℕ) → Objects → Objects
words_at round a b c zero i carry m = m
words_at round a b c (suc left) i carry m =
    let r = round (get_or (m a) i 0) (get_or (m b) i 0) carry in
    words_at round a b c left (suc i) r.1 (write m c (set (m c) i r.0))

unfoldable pub add_round : Round
add_round x y carry =
    let tmp = (x + y + carry) % 2 ^ 64 in (bit_and tmp max_val, if ltb max_val tmp then 1 else 0)

unfoldable pub sub_round : Round
sub_round x y borrow =
    let tmp1 = (x + (max_val + 1)) % 2 ^ 64 in
    let tmp2 = (y + borrow) % 2 ^ 64 in
    let res = (tmp1 + 2 ^ 64 - tmp2) % 2 ^ 64 in
    (bit_and res max_val, if leb res max_val then 1 else 0)

unfoldable pub add_at : (a b c : ℕ) → Objects → Objects
add_at a b c m = words_at add_round a b c array_size 0 0 m

unfoldable pub sub_at : (a b c : ℕ) → Objects → Objects
sub_at a b c m = words_at sub_round a b c array_size 0 0 m

unfoldable pub and_at : (a b c : ℕ) → Objects → Objects
and_at a b c m = words_at (λ x y carry. (bit_and x y, 0)) a b c array_size 0 0 m

unfoldable pub or_at : (a b c : ℕ) → Objects → Objects
or_at a b c m = words_at (λ x y carry. (bit_or x y, 0)) a b c array_size 0 0 m

unfoldable pub xor_at : (a b c : ℕ) → Objects → Objects
xor_at a b c m = words_at (λ x y carry. (bit_xor x y, 0)) a b c array_size 0 0 m

-- The outer loop of `ty_bignum_mul` from row `i` on. The row is an object of the function's
-- own, and is put together while none of the three numbers changes.
unfoldable pub mul_rows : (a b c : ℕ) → (left i : ℕ) → (row : ℕ) → Objects → Objects
mul_rows a b c zero i row m = m
mul_rows a b c (suc left) i row m =
    let filled = write m row (row_loop (get_or (m a) i 0) i 0 (m b) init) in
    mul_rows a b c left (suc i) row (add_at c row c filled)

unfoldable pub mul_at : (a b c : ℕ) → (row : ℕ) → Objects → Objects
mul_at a b c row m = mul_rows a b c array_size 0 row (write m c init)
