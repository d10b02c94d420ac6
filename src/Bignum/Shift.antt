-- ===== src/Bignum/Shift.antt =====
-- The shifts of src/ty_bignum.c. They work in place, so a loop reads and writes by index, in the
-- source's order. `ty_bignum_shl` and `ty_bignum_shr` start from a copy, which is the argument.
pub mod Left
pub mod Up
pub mod WordsUp
pub mod WordsDown
pub mod Right
use tyto_h.Base.{ℕ, zero, suc, ◌+◌, ◌-◌, ◌*◌, ◌/◌, ◌%◌, ◌^◌, bit_or}
use tyto_h.Base.{Bool, ltb, leb, ◌==◌, if◌then◌else◌, Option, none, some, get_elem?, get_or, set}
use tyto_h.Base.{Outcome, done, ◌>>=◌, need}
use tyto_h.Bignum.{Bn, array_size, word_bits}

-- `<<` of a `uint32_t` wraps.
abbrev pub shl32 : ℕ → ℕ → ℕ
shl32 x k = x * 2 ^ k % 2 ^ 32

abbrev pub shr32 : ℕ → ℕ → ℕ
shr32 x k = x / 2 ^ k

-- The loop of `shl_one` and `ty_bignum_shl` from word `i` down to word 1.
unfoldable pub shl_loop : ℕ → ℕ → Bn → Bn
shl_loop nbits zero a = a
shl_loop nbits (suc i) a = shl_loop nbits i (
    set a (suc i)
      (bit_or (shl32 (get_or a (suc i) 0) nbits) (shr32 (get_or a i 0) (word_bits - nbits))))

-- The loop, and the write to word 0 behind it.
unfoldable pub shl_bits : ℕ → Bn → Bn
shl_bits nbits a = let b = shl_loop nbits (array_size - 1) a in set b 0 (shl32 (get_or b 0 0) nbits)

unfoldable pub shl_one : Bn → Bn
shl_one a = shl_bits 1 a

-- `array[i - 1]` at `i = 0` lies outside the array.
abbrev pub before : Bn → ℕ → Option ℕ
before a zero = none
before a (suc i) = get_elem? a i

-- The loop of `shr_one` from word `i` on, with `left` rounds to go.
unfoldable pub shr_one_loop : ℕ → ℕ → Bn → Outcome Bn
shr_one_loop zero i a = done a
shr_one_loop (suc left) i a = do
  x ← need (get_elem? a i)
  y ← need (before a i)
  shr_one_loop left (i + 1) (set a i (bit_or (shr32 x 1) (shl32 y (word_bits - 1))))

unfoldable pub shr_one : Bn → Outcome Bn
shr_one a = do
  b ← shr_one_loop (array_size - 1) 0 a
  x ← need (get_elem? b (array_size - 1))
  done (set b (array_size - 1) (shr32 x 1))

-- The second loop of `shl_word`, below word `i`.
unfoldable pub clear_below : ℕ → Bn → Bn
clear_below zero a = a
clear_below (suc i) a = clear_below i (set a i 0)

-- The first loop of `shl_word`, below word `i`; it ends at word `nwords`.
unfoldable pub copy_up : ℕ → ℕ → Bn → Bn
copy_up nwords zero a = a
copy_up nwords (suc i) a =
    let rest = copy_up nwords i (set a i (get_or a (i - nwords) 0)) in
    if leb nwords i then rest else clear_below (suc i) a

unfoldable pub shl_word : Bn → ℕ → Bn
shl_word a nwords = copy_up nwords array_size a

-- The loops of `shr_word` from word `i` on, with `left` rounds to go.
unfoldable pub copy_down : ℕ → ℕ → ℕ → Bn → Bn
copy_down nwords zero i a = a
copy_down nwords (suc left) i a = copy_down nwords left (i + 1) (set a i (get_or a (i + nwords) 0))

unfoldable pub clear_from : ℕ → ℕ → Bn → Bn
clear_from zero i a = a
clear_from (suc left) i a = clear_from left (i + 1) (set a i 0)

unfoldable pub shr_word : Bn → ℕ → Bn
shr_word a nwords =
    if leb array_size nwords
    then clear_from array_size 0 a
    else clear_from nwords (array_size - nwords) (copy_down nwords (array_size - nwords) 0 a)

unfoldable pub shl : Bn → ℕ → Bn
shl a nbits =
    let nwords = nbits / word_bits in
    let b = if nwords == 0 then a else shl_word a nwords in
    let rest = if nwords == 0 then nbits else nbits - nwords * word_bits in
    if rest == 0 then b else shl_bits rest b

-- The loop of `ty_bignum_shr`, with `left` rounds to go.
unfoldable pub shr_loop : ℕ → ℕ → ℕ → Bn → Bn
shr_loop nbits zero i b = b
shr_loop nbits (suc left) i b =
    shr_loop nbits left (i + 1) (
      set b i
        (bit_or (shr32 (get_or b i 0) nbits) (shl32 (get_or b (i + 1) 0) (word_bits - nbits))))

-- Its bound is `TY_BIGNUM_WORD_SIZE - 1`, and the last write is to word 3.
abbrev pub word_size : ℕ
word_size = 4

unfoldable pub shr_bits : ℕ → Bn → Bn
shr_bits nbits a =
    let b = shr_loop nbits (word_size - 1) 0 a in
    set b (word_size - 1) (shr32 (get_or b (word_size - 1) 0) nbits)

unfoldable pub shr : Bn → ℕ → Bn
shr a nbits =
    let nwords = nbits / word_bits in
    let b = if nwords == 0 then a else shr_word a nwords in
    let rest = if nwords == 0 then nbits else nbits - nwords * word_bits in
    if rest == 0 then b else shr_bits rest b
