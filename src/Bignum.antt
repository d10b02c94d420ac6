-- ===== src/Bignum.antt =====
-- `struct ty_bn` of includes/ty_bignum.h, with `TY_BIGNUM_WORD_SIZE` 4: 32 words of 32 bits,
-- least significant word first. The operations of src/ty_bignum.c stand in the modules below.
-- A function that writes through a pointer returns the new number. The null checks of `require`
-- have no counterpart, since a number is never absent.
pub mod Value
pub mod Arith
pub mod Shift
pub mod Mul
pub mod Div
pub mod Text
pub mod Places
mod Tests
use tyto_h.Base.{ℕ, suc, ◌^◌, ◌-◌, List, replicate}

-- `array`.
abbrev pub Bn : Type 0
Bn = List ℕ

-- `TY_BIGNUM_ARRAY_SIZE`, `8 * TY_BIGNUM_WORD_SIZE`, and `TY_BIGNUM_MAX_VAL`.
abbrev pub array_size : ℕ
array_size = 32

abbrev pub word_bits : ℕ
word_bits = 32

abbrev pub max_val : ℕ
max_val = 2 ^ 32 - 1

-- `ty_bignum_init`: every word is zero.
unfoldable pub init : Bn
init = replicate array_size 0
