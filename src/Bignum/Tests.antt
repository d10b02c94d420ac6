-- ===== src/Bignum/Tests.antt =====
-- Runs of the big numbers, and the theorems at concrete numbers.
use tyto_h.Base.{◌+◌, ◌-◌, ◌*◌, ◌/◌, ◌%◌, ◌^◌, ◌≤◌, bit_and, bit_or, bit_xor, ◌≡◌, refl}
use tyto_h.Base.{◌≢◌, ◌⊎◌, arith, ◌==◌, if◌then◌else◌, done, pos}
use tyto_h.Base.Partial.{done, fault, out_of_fuel}
use tyto_h.Bignum.{Bn, init}
use tyto_h.Bignum.Value.{val, IsBn, modulus}
use tyto_h.Bignum.Arith.{from_int, to_int, add, sub, inc, dec, cmp, smaller, and, or, xor}
use tyto_h.Bignum.Arith.Sums.{val-add}
use tyto_h.Bignum.Arith.Differences.{val-sub, inc-dec}
use tyto_h.Bignum.Arith.Order.{order_of, cmp-order_of, val-from_int, to_int-from_int}
use tyto_h.Bignum.Arith.Bitwise.{bitwise_values}
use tyto_h.Bignum.Shift.{shl, shr, shr_one}
use tyto_h.Bignum.Shift.Up.{val-shl}
use tyto_h.Bignum.Shift.Right.{shr_value, val-shr_values}
use tyto_h.Bignum.Mul.{mul, pow}
use tyto_h.Bignum.Mul.Product.{val-mul}
use tyto_h.Bignum.Mul.Power.{Computes, pow-Computes}
use tyto_h.Bignum.Div.{div, divmod, modulo, isqrt}
use tyto_h.Bignum.Div.Faults.{div-divmod-modulo, isqrt-fault}

abbrev big : Bn
big = from_int 0xffff_ffff_ffff_ffff

abbrev seven : Bn
seven = from_int 7

big-IsBn : IsBn big
big-IsBn = (val-from_int 0xffff_ffff_ffff_ffff (omega arith)).0

seven-IsBn : IsBn seven
seven-IsBn = (val-from_int 7 (omega arith)).0

add_carries : val (add big seven) ≡ 0x1_0000_0000_0000_0006
unfolding val from_int add tyto_h.Bignum.Arith.add_loop
add_carries = refl

mul_runs : val (mul big seven) ≡ 0x6_ffff_ffff_ffff_fff9
unfolding val from_int mul tyto_h.Bignum.Mul.mul_loop tyto_h.Bignum.Mul.row_loop
    tyto_h.Bignum.Shift.shl_word tyto_h.Bignum.Shift.copy_up tyto_h.Bignum.Shift.clear_below add
    tyto_h.Bignum.Arith.add_loop
mul_runs = refl

to_int_of_seven : to_int (from_int 7) ≡ pos 7
to_int_of_seven = to_int-from_int 7 (omega arith)

val-add_example : IsBn (add big seven) × (val (add big seven) ≡ (val big + val seven) % modulus)
val-add_example = val-add big-IsBn seven-IsBn

val-sub_example :
    IsBn (sub seven big) × (val (sub seven big) ≡ (val seven + modulus - val big) % modulus)
val-sub_example = val-sub seven-IsBn big-IsBn

counts_of_big :
    (val (inc big) ≡ (val big + 1) % modulus)
    × (val (dec big) ≡ (val big + modulus - 1) % modulus)
    × (inc (dec big) ≡ big)
    × (dec (inc big) ≡ big)
counts_of_big = inc-dec big-IsBn

cmp-order_of_example : cmp seven big ≡ order_of (val seven) (val big)
cmp-order_of_example = cmp-order_of seven-IsBn big-IsBn

bitwise_values_example :
    (IsBn (and big seven) × (val (and big seven) ≡ bit_and (val big) (val seven)))
    × (IsBn (or big seven) × (val (or big seven) ≡ bit_or (val big) (val seven)))
    × (IsBn (xor big seven) × (val (xor big seven) ≡ bit_xor (val big) (val seven)))
bitwise_values_example = bitwise_values big-IsBn seven-IsBn

val-shl_example : IsBn (shl big 45) × (val (shl big 45) ≡ val big * 2 ^ 45 % modulus)
val-shl_example = val-shl 45 big-IsBn

val-shr_values_example :
    IsBn (shr big 64)
    × ((val (shr big 64) ≡ shr_value (val big) 64)
        × ((val (shr big 64) ≡ val big / 2 ^ 64)
            ⊎ ((64 % 32 ≢ 0) × (2 ^ (64 / 32 * 32 + 128) ≤ val big))))
val-shr_values_example = val-shr_values 64 big-IsBn

val-mul_example : IsBn (mul big seven) × (val (mul big seven) ≡ val big * val seven % modulus)
val-mul_example = val-mul big-IsBn seven-IsBn

pow-Computes_example : Computes (pow 7 big seven) (val big ^ val seven % modulus)
pow-Computes_example =
    pow-Computes 7 big-IsBn seven-IsBn (omega (arith, (val-from_int 7 (omega arith)).1))

div-divmod-modulo_example :
    (div 1026 big seven ≡ (if val seven == 0 then out_of_fuel else fault))
    × ((divmod 1026 big seven ≡ (if val seven == 0 then out_of_fuel else fault))
        × (modulo 1026 big seven ≡ (if val seven == 0 then out_of_fuel else fault)))
div-divmod-modulo_example = div-divmod-modulo 1026 big-IsBn seven-IsBn (omega arith)

isqrt-fault_example : isqrt 4 big ≡ (if val big == 0 then done init else fault)
isqrt-fault_example = isqrt-fault 3 big-IsBn
