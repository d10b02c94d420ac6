-- ===== src/Bignum/Shift/Left.antt =====
-- The bit loop of `ty_bignum_shl`, and `shl_one`: multiplication by a power of two.
use tyto_h.Base.{ℕ, zero, suc, ◌+◌, ◌-◌, ◌*◌, ◌/◌, ◌%◌, ◌^◌, ◌<◌, ◌≤◌, ◌≡◌, refl, ap, sym, ◌∙◌}
use tyto_h.Base.{List, [], ◌∷◌, length, get_or, set, length-set, get_or_ext, get_or-set_self}
use tyto_h.Base.{get_or-set_ne, arith, bit_or, bit_or_disjoint, bit_or-lt, bit_or-zero, pow-add}
use tyto_h.Base.{pow_pos, mod_unique, mul-mod-mul, div-lt_of_mul}
use mathlib.Core.Path.{ap₂, subst}
use native.Mathlib.Decide.{dec_lt}
use native.Mathlib.Nat.{pow-suc, div-add-mod', zero-div, div-le_self}
use tyto_h.Bignum.{Bn, word_bits}
use tyto_h.Bignum.Value.{base, val, IsWords, IsBn, modulus, val-lt-modulus}
use tyto_h.Bignum.Shift.{shl32, shr32, shl_loop, shl_bits, shl_one}

-- The word that the loop stores: `x` is the word itself and `y` the one below.
abbrev word : ℕ → ℕ → ℕ → ℕ
word n x y = bit_or (shl32 x n) (shr32 y (word_bits - n))

-- The words of the result, from word `x` on, with `p` the word below.
shifted : ℕ → ℕ → List ℕ → List ℕ
shifted n p [] = []
shifted n p (x ∷ xs) = word n x p ∷ shifted n x xs

length-shifted : (n p : ℕ) (xs : List ℕ) → length (shifted n p xs) ≡ length xs
unfolding shifted
length-shifted n p [] = refl
length-shifted n p (x ∷ xs) = ap suc (length-shifted n x xs)

get_or-shifted :
    (n p : ℕ) (xs : List ℕ) (i : ℕ)
    → suc i < length xs
    → get_or (shifted n p xs) (suc i) 0 ≡ word n (get_or xs (suc i) 0) (get_or xs i 0)
unfolding shifted
get_or-shifted n p [] i h = absurd (omega arith)
get_or-shifted n p (x ∷ []) i h = absurd (omega arith)
get_or-shifted n p (x ∷ y ∷ xs) zero h = refl
get_or-shifted n p (x ∷ y ∷ xs) (suc i) h = get_or-shifted n x (y ∷ xs) i (omega arith)

length-shl_loop : (n i : ℕ) (a : Bn) → length (shl_loop n i a) ≡ length a
unfolding shl_loop
length-shl_loop n zero a = refl
length-shl_loop n (suc i) a =
    length-shl_loop n i _ ∙ length-set a (suc i) (word n (get_or a (suc i) 0) (get_or a i 0))

-- Going down, the loop reads only words that it has not written.
shl_loop_above : (n i j : ℕ) (a : Bn) → i < j → get_or (shl_loop n i a) j 0 ≡ get_or a j 0
unfolding shl_loop
shl_loop_above n zero j a h = refl
shl_loop_above n (suc i) j a h =
    shl_loop_above n i j _ (omega arith) ∙ get_or-set_ne a (suc i) j _ 0 (omega arith)

shl_loop_zero : (n i : ℕ) (a : Bn) → get_or (shl_loop n i a) 0 0 ≡ get_or a 0 0
unfolding shl_loop
shl_loop_zero n zero a = refl
shl_loop_zero n (suc i) a = shl_loop_zero n i _ ∙ get_or-set_ne a (suc i) 0 _ 0 (omega arith)

shl_loop_below :
    (n i j : ℕ) (a : Bn)
    → i < length a
    → j < i
    → get_or (shl_loop n i a) (suc j) 0 ≡ word n (get_or a (suc j) 0) (get_or a j 0)
unfolding shl_loop
shl_loop_below n zero j a h lt = absurd (omega arith)
shl_loop_below n (suc i) j a h lt = elim (dec_lt j i) [
  | yes p ↦
      shl_loop_below n i j (set a (suc i) w) (rw length-set (omega arith)) p
      ∙ ap₂ (word n) (get_or-set_ne a (suc i) (suc j) w 0 (omega arith))
          (get_or-set_ne a (suc i) j w 0 (omega arith))
  | no p ↦
      subst
        (λ k.
          get_or (shl_loop n i (set a (suc i) w)) (suc k) 0
          ≡ word n (get_or a (suc k) 0) (get_or a k 0))
        {x = i} (omega arith)
        (shl_loop_above n i (suc i) (set a (suc i) w) (omega arith)
          ∙ get_or-set_self a (suc i) w 0 h)
]
  where
    w : ℕ
    w = word n (get_or a (suc i) 0) (get_or a i 0)

shifted_head :
    (n : ℕ) (xs : List ℕ) → 0 < length xs → shl32 (get_or xs 0 0) n ≡ get_or (shifted n 0 xs) 0 0
unfolding shifted
shifted_head n [] h = absurd (omega arith)
shifted_head n (x ∷ xs) h =
    sym (ap (λ (t : ℕ). bit_or (shl32 x n) t) (zero-div (2 ^ (32 - n))) ∙ bit_or-zero (shl32 x n))

-- The loop with the write behind it, at any length.
bits_at : ℕ → ℕ → Bn → Bn
bits_at n i a = let b = shl_loop n i a in set b 0 (shl32 (get_or b 0 0) n)

bits_at-shifted : (n i : ℕ) (a : Bn) → length a ≡ suc i → bits_at n i a ≡ shifted n 0 a
unfolding bits_at
bits_at-shifted n i a e =
    get_or_ext 0 (bits_at n i a) (shifted n 0 a)
      (length-set (shl_loop n i a) 0 _ ∙ length-shl_loop n i a ∙ sym (length-shifted n 0 a))
      (λ j lt. at j (
        omega (
          arith,
          length-set (shl_loop n i a) 0 (shl32 (get_or (shl_loop n i a) 0 0) n),
          length-shl_loop n i a,
        )))
  where
    at : (j : ℕ) → j < length a → get_or (bits_at n i a) j 0 ≡ get_or (shifted n 0 a) j 0
    at zero lt =
        get_or-set_self (shl_loop n i a) 0 _ 0 (omega (arith, length-shl_loop n i a))
        ∙ ap (λ (x : ℕ). shl32 x n) (shl_loop_zero n i a)
        ∙ shifted_head n a lt
    at (suc j) lt =
        get_or-set_ne (shl_loop n i a) 0 (suc j) _ 0 (omega arith)
        ∙ shl_loop_below n i j a (omega arith) (omega arith)
        ∙ sym (get_or-shifted n 0 a j lt)

-- `x << n` is the low part of `x` moved up; the high part goes to the next word.
module _ (n : ℕ) (small : n ≤ 32) where
  abbrev up : ℕ
  up = 2 ^ n

  abbrev down : ℕ
  down = 2 ^ (32 - n)

  down-mul-up : down * up ≡ base
  down-mul-up = sym (pow-add 2 (32 - n) n) ∙ ap (λ (k : ℕ). 2 ^ k) {y = 32} (omega arith)

  up_pos : 0 < up
  up_pos = pow_pos 2 n (omega arith)

  down_pos : 0 < down
  down_pos = pow_pos 2 (32 - n) (omega arith)

  shl32-mod : (x : ℕ) → shl32 x n ≡ x % down * up
  shl32-mod x = ap (λ (m : ℕ). x * up % m) (sym down-mul-up) ∙ mul-mod-mul x up down up_pos down_pos

  shr32-lt : (y : ℕ) → y < base → y / down < up
  shr32-lt y h = div-lt_of_mul y up down down_pos (omega (arith, down-mul-up))

  word-sum : (x y : ℕ) → y < base → word n x y ≡ x % down * up + y / down
  word-sum x y hy =
      ap (λ (t : ℕ). bit_or t (y / down)) (shl32-mod x)
      ∙ bit_or_disjoint n (x % down) (y / down) (shr32-lt y hy)

  word-lt : (x y : ℕ) → y < base → word n x y < base
  word-lt x y hy =
      bit_or-lt 32 (shl32 x n) (y / down) (omega arith) (omega (arith, div-le_self y down))

  split : (x : ℕ) → x * up ≡ x % down * up + x / down * base
  split x =
      ap (λ (k : ℕ). k * up) (sym (div-add-mod' x down))
      ∙ omega (arith, ap (λ (k : ℕ). x / down * k) down-mul-up)

  shifted-IsWords : (p : ℕ) (xs : List ℕ) → p < base → IsWords xs → IsWords (shifted n p xs)
  unfolding shifted
  shifted-IsWords p [] hp h = tt
  shifted-IsWords p (x ∷ xs) hp h = (word-lt x p hp, shifted-IsWords x xs h.0 h.1)

  val-shifted :
      (p : ℕ) (xs : List ℕ)
      → p < base
      → IsWords xs
      → (k : ℕ) × (val (shifted n p xs) + k * base ^ length xs ≡ val xs * up + p / down)
  unfolding shifted val
  val-shifted p [] hp h = (p / down, omega arith)
  val-shifted p (x ∷ xs) hp h =
      let (k, e) = val-shifted x xs h.0 h.1 in
      (
        k,
        omega
            (arith, e, split x, word-sum x p hp, ap (λ (t : ℕ). k * t) (pow-suc base (length xs))),
      )

-- The bits of a number, `n` places up.
pub val-shl_bits :
    (n : ℕ) {a : Bn}
    → n ≤ 32
    → IsBn a
    → IsBn (shl_bits n a) × (val (shl_bits n a) ≡ val a * 2 ^ n % modulus)
unfolding shl_bits bits_at
val-shl_bits n {a} small v = rw (bits_at-shifted n 31 a v.size) (
  r,
  mod_unique modulus (val (shifted n 0 a)) k (val a * 2 ^ n) (val-lt-modulus r) (
      ap (λ (m : ℕ). val (shifted n 0 a) + k * base ^ m) (sym v.size)
      ∙ e
      ∙ omega (arith, zero-div (2 ^ (32 - n)))),
)
  where
    r : IsBn (shifted n 0 a)
    r = record {
      size = length-shifted n 0 a ∙ v.size;
      words = shifted-IsWords n small 0 a (omega arith) v.words;
    }

    k : ℕ
    k = (val-shifted n small 0 a (omega arith) v.words).0

    e : val (shifted n 0 a) + k * base ^ length a ≡ val a * 2 ^ n + 0 / 2 ^ (32 - n)
    e = (val-shifted n small 0 a (omega arith) v.words).1

-- `shl_one` doubles a number modulo 2^1024.
pub val-shl_one : {a : Bn} → IsBn a → IsBn (shl_one a) × (val (shl_one a) ≡ val a * 2 % modulus)
unfolding shl_one
val-shl_one v = val-shl_bits 1 (omega arith) v
