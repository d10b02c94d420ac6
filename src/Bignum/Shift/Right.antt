-- ===== src/Bignum/Shift/Right.antt =====
-- `ty_bignum_shr`. Its bit loop stops at word 3, since its bound is the size of a word and not
-- that of the array: only the low 128 bits are shifted.
use tyto_h.Base.{ℕ, ◌+◌, ◌-◌, ◌*◌, ◌/◌, ◌%◌, ◌^◌, ◌<◌, ◌≤◌, ◌≡◌, ◌≢◌, refl, ap, sym, ◌∙◌}
use tyto_h.Base.{
  ◌⊎◌, inl, inr, List, [], ◌∷◌, length, arith, bit_or, bit_or_disjoint_low, bit_or-lt,
}
use tyto_h.Base.{
  pow-add, pow_pos, mul-mod-mul, div-lt_of_mul, div_unique, ==_iff, ◌==◌, if◌then◌else◌, Bool-cases,
}
use mathlib.Core.Path.{ap₂}
use native.Mathlib.Decide.{dec_lt}
use native.Mathlib.Nat.{
  div-add-mod', mod-lt, div-le_self, div-one, div-div-eq-div-mul, mod-eq_of_lt, div-eq_of_lt,
}
use tyto_h.Bignum.{Bn, word_bits}
use tyto_h.Bignum.Value.{base, val, IsWords, IsBn}
use tyto_h.Bignum.Value.Split.{base-pow}
use tyto_h.Bignum.Shift.{shl32, shr32, shr_loop, shr_bits, shr_word, shr}
use tyto_h.Bignum.Shift.WordsDown.{val-shr_word}

-- The word that the loop stores: `x` is the word itself and `y` the one above.
abbrev word : ℕ → ℕ → ℕ → ℕ
word n x y = bit_or (shr32 x n) (shl32 y (word_bits - n))

-- The four words that the loop reaches.
shr_bits_words :
    (n x y z w : ℕ) (rest : List ℕ)
    → shr_bits n (x ∷ y ∷ z ∷ w ∷ rest) ≡ word n x y ∷ word n y z ∷ word n z w ∷ shr32 w n ∷ rest
unfolding shr_bits shr_loop
shr_bits_words n x y z w rest = refl

module _ (n : ℕ) (small : n ≤ 32) where
  abbrev low : ℕ
  low = 2 ^ n

  abbrev high : ℕ
  high = 2 ^ (32 - n)

  low-mul-high : low * high ≡ base
  low-mul-high = sym (pow-add 2 n (32 - n)) ∙ ap (λ (k : ℕ). 2 ^ k) {y = 32} (omega arith)

  low_pos : 0 < low
  low_pos = pow_pos 2 n (omega arith)

  high_pos : 0 < high
  high_pos = pow_pos 2 (32 - n) (omega arith)

  word-sum : (x y : ℕ) → x < base → word n x y ≡ y % low * high + x / low
  word-sum x y h =
      ap (λ (t : ℕ). bit_or (x / low) t)
        (ap (λ (m : ℕ). y * high % m) (sym low-mul-high) ∙ mul-mod-mul y high low high_pos low_pos)
      ∙ bit_or_disjoint_low (32 - n) (y % low) (x / low)
          (div-lt_of_mul x high low low_pos (omega (arith, low-mul-high)))

  word-lt : (x y : ℕ) → x < base → word n x y < base
  word-lt x y hx =
      bit_or-lt 32 (x / low) (shl32 y (32 - n)) (omega (arith, div-le_self x low)) (omega arith)

  -- The bits that leave a word come in at the word below.
  word-mul : (x y : ℕ) → x < base → word n x y * low + x % low ≡ y % low * base + x
  word-mul x y h = omega (
    arith,
    ap (λ (t : ℕ). t * low) (word-sum x y h),
    ap (λ (t : ℕ). y % low * t) low-mul-high,
    div-add-mod' x low,
  )

  -- Four words, `n` places down.
  four_words :
      (x y z w : ℕ)
      → x < base
      → y < base
      → z < base
      → (x + base * (y + base * (z + base * w))) / low
        ≡ word n x y + base * (word n y z + base * (word n z w + base * (w / low)))
  four_words x y z w hx hy hz =
      div_unique (x + base * (y + base * (z + base * w))) low
        (word n x y + base * (word n y z + base * (word n z w + base * (w / low)))) (x % low)
        (mod-lt x low_pos)
        (omega (arith, word-mul x y hx, word-mul y z hy, word-mul z w hz, div-add-mod' w low))

  -- The bit loop on a list of words.
  bits_value :
      (a : Bn)
      → 4 ≤ length a
      → IsWords a
      → (length (shr_bits n a) ≡ length a)
        × IsWords (shr_bits n a)
        × (val (shr_bits n a) ≡ val a % 2 ^ 128 / low + val a / 2 ^ 128 * 2 ^ 128)
  unfolding val
  bits_value [] h v = absurd (omega arith)
  bits_value (x ∷ []) h v = absurd (omega arith)
  bits_value (x ∷ y ∷ []) h v = absurd (omega arith)
  bits_value (x ∷ y ∷ z ∷ []) h v = absurd (omega arith)
  bits_value (x ∷ y ∷ z ∷ w ∷ rest) h (hx, (hy, (hz, (hw, hr)))) =
      rw (shr_bits_words n x y z w rest) (
        refl,
        (
          word-lt x y hx,
          (word-lt y z hy, (word-lt z w hz, (omega (arith, div-le_self w low), hr))),
        ),
        sym (
            ap₂ (λ (s t : ℕ). s / low + t * 2 ^ 128) {y = x + base * (y + base * (z + base * w))}
              {v = val rest} (omega arith) (omega arith)
            ∙ ap (λ (t : ℕ). t + val rest * 2 ^ 128) (four_words x y z w hx hy hz)
            ∙ omega arith),
      )

-- What `ty_bignum_shr` makes of the value `v`: whole words are shifted, and the bits left over
-- only in the low 128 bits.
abbrev pub shr_value : ℕ → ℕ → ℕ
shr_value v n =
    let u = v / 2 ^ (n / 32 * 32) in
    if n % 32 == 0 then u else u % 2 ^ 128 / 2 ^ (n % 32) + u / 2 ^ 128 * 2 ^ 128

val-shr_bits :
    {a : Bn} (n : ℕ)
    → n ≤ 32
    → IsBn a
    → IsBn (shr_bits n a)
      × (val (shr_bits n a) ≡ val a % 2 ^ 128 / 2 ^ n + val a / 2 ^ 128 * 2 ^ 128)
val-shr_bits {a} n small v =
    let size = v.size in
    let (len, words, value) = bits_value n small a (omega arith) v.words in
    (record { size = len ∙ size; words = words }, value)

-- The copy that the bit loop works on.
words_down : Bn → ℕ → Bn
words_down a n = if n / word_bits == 0 then a else shr_word a (n / word_bits)

val-words_down :
    {a : Bn} (n : ℕ)
    → IsBn a
    → IsBn (words_down a n) × (val (words_down a n) ≡ val a / 2 ^ (n / 32 * 32))
unfolding words_down
val-words_down {a} n v = elim (Bool-cases (n / word_bits == 0)) [
  | inl e ↦ rw e (
    v,
    sym (div-one (val a))
        ∙ ap (λ (k : ℕ). val a / 2 ^ k) {x = 0} {y = n / 32 * 32}
            (omega (arith, (==_iff (n / 32) 0).0 e)),
  )
  | inr e ↦ rw e (
      let (w, value) = val-shr_word (n / 32) v in
      (w, value ∙ ap (λ (t : ℕ). val a / t) (base-pow (n / 32))))
]

bits_left : (n : ℕ) → (if n / word_bits == 0 then n else n - n / word_bits * word_bits) ≡ n % 32
bits_left n = ground arith

shr-eq :
    (a : Bn) (n : ℕ)
    → shr a n ≡ (if n % 32 == 0 then words_down a n else shr_bits (n % 32) (words_down a n))
unfolding shr words_down
shr-eq a n =
    ap (λ (r : ℕ). if r == 0 then words_down a n else shr_bits r (words_down a n)) (bits_left n)

val-shr : {a : Bn} (n : ℕ) → IsBn a → IsBn (shr a n) × (val (shr a n) ≡ shr_value (val a) n)
val-shr {a} n v =
    let (w, e) = val-words_down n v in
    rw (shr-eq a n) (elim (Bool-cases (n % 32 == 0)) [
      | inl whole ↦ rw whole (w, e)
      | inr part ↦ rw part (
          let (r, value) = val-shr_bits (n % 32) (omega arith) w in
          (r, value ∙ ap (λ (u : ℕ). u % 2 ^ 128 / 2 ^ (n % 32) + u / 2 ^ 128 * 2 ^ 128) e))
    ])

shr_value_whole : (v n : ℕ) → n % 32 ≡ 0 → shr_value v n ≡ v / 2 ^ n
shr_value_whole v n whole =
    rw ((==_iff (n % 32) 0).1 whole)
      (ap (λ (k : ℕ). v / 2 ^ k) {x = n / 32 * 32} {y = n} (omega arith))

shr_value_low : (v n : ℕ) → v < 2 ^ (n / 32 * 32 + 128) → shr_value v n ≡ v / 2 ^ n
shr_value_low v n h = elim (Bool-cases (n % 32 == 0)) [
  | inl whole ↦ shr_value_whole v n ((==_iff (n % 32) 0).0 whole)
  | inr part ↦
      let k : ℕ = n / 32 * 32 in
      let u : ℕ = v / 2 ^ k in
      let small : u < 2 ^ 128 =
        div-lt_of_mul v (2 ^ 128) (2 ^ k) (pow_pos 2 k (omega arith)) (rw pow-add at h) in
      rw (part, mod-eq_of_lt small, div-eq_of_lt small)
        (omega (
          arith,
          div-div-eq-div-mul v (2 ^ k) (2 ^ (n % 32))
              ∙ ap (λ (t : ℕ). v / t)
                  (sym (pow-add 2 k (n % 32)) ∙ ap (λ (t : ℕ). 2 ^ t) {y = n} (omega arith)),
        ))
]

-- `ty_bignum_shr` of a number by any count gives a number. It divides the value by a power of
-- 2^32 for the whole words; the bits left over are shifted only in the low 128 bits. So it
-- divides by 2^n, unless the count is no multiple of 32 and more than 128 bits are left behind
-- the whole words.
pub val-shr_values :
    {a : Bn} (n : ℕ)
    → IsBn a
    → IsBn (shr a n)
      × ((val (shr a n) ≡ shr_value (val a) n)
          × ((val (shr a n) ≡ val a / 2 ^ n) ⊎ ((n % 32 ≢ 0) × (2 ^ (n / 32 * 32 + 128) ≤ val a))))
val-shr_values {a} n v =
    let (w, e) = val-shr n v in
    let divided : (val (shr a n) ≡ val a / 2 ^ n)
        ⊎ ((n % 32 ≢ 0) × (2 ^ (n / 32 * 32 + 128) ≤ val a)) =
      elim (dec_lt 0 (n % 32)) [
        | no whole ↦ inl (e ∙ shr_value_whole (val a) n (omega arith))
        | yes part ↦ elim (dec_lt (val a) (2 ^ (n / 32 * 32 + 128))) [
          | yes lt ↦ inl (e ∙ shr_value_low (val a) n lt)
          | no ge ↦ inr ((λ z. absurd (omega arith)), omega arith)
        ]
      ] in
    (w, (e, divided))
