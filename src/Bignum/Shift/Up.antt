-- ===== src/Bignum/Shift/Up.antt =====
-- `ty_bignum_shl` multiplies by a power of two modulo 2^1024.
use tyto_h.Base.{ℕ, ◌-◌, ◌*◌, ◌/◌, ◌%◌, ◌^◌, ◌≡◌, ap, sym, ◌∙◌, arith}
use tyto_h.Base.{◌==◌, ==_iff, if◌then◌else◌, Bool-cases, inl, inr, pow-add, mod-mul-mod}
use native.Mathlib.Nat.{mod-eq_of_lt, mul_assoc}
use tyto_h.Bignum.{Bn, word_bits}
use tyto_h.Bignum.Value.{val, IsBn, modulus, val-lt-modulus}
use tyto_h.Bignum.Value.Split.{base-pow}
use tyto_h.Bignum.Shift.{shl_bits, shl_word, shl}
use tyto_h.Bignum.Shift.Left.{val-shl_bits}
use tyto_h.Bignum.Shift.WordsUp.{val-shl_word}

-- The copy that the bit loop works on.
words_up : Bn → ℕ → Bn
words_up a n = if n / word_bits == 0 then a else shl_word a (n / word_bits)

val-words_up :
    {a : Bn} (n : ℕ)
    → IsBn a
    → IsBn (words_up a n) × (val (words_up a n) ≡ val a * 2 ^ (n / 32 * 32) % modulus)
unfolding words_up
val-words_up {a} n v = elim (Bool-cases (n / word_bits == 0)) [
  | inl e ↦ rw e (
    v,
    sym (mod-eq_of_lt (val-lt-modulus v))
        ∙ ap (λ (t : ℕ). t % modulus) {x = val a} {y = val a * 2 ^ (n / 32 * 32)}
            (omega (
              arith,
              ap (λ (k : ℕ). val a * 2 ^ k) {x = n / 32 * 32} {y = 0}
                  (omega (arith, (==_iff (n / 32) 0).0 e)),
            )),
  )
  | inr e ↦ rw e (
      let (w, value) = val-shl_word (n / 32) v in
      (w, value ∙ ap (λ (t : ℕ). val a * t % modulus) (base-pow (n / 32))))
]

bits_left : (n : ℕ) → (if n / word_bits == 0 then n else n - n / word_bits * word_bits) ≡ n % 32
bits_left n = ground arith

shl-eq :
    (a : Bn) (n : ℕ)
    → shl a n ≡ (if n % 32 == 0 then words_up a n else shl_bits (n % 32) (words_up a n))
unfolding shl words_up
shl-eq a n =
    ap (λ (r : ℕ). if r == 0 then words_up a n else shl_bits r (words_up a n)) (bits_left n)

two_parts : (v n : ℕ) → v * 2 ^ (n / 32 * 32) * 2 ^ (n % 32) ≡ v * 2 ^ n
two_parts v n =
    mul_assoc v (2 ^ (n / 32 * 32)) (2 ^ (n % 32))
    ∙ ap (λ (t : ℕ). v * t)
        (sym (pow-add 2 (n / 32 * 32) (n % 32)) ∙ ap (λ (t : ℕ). 2 ^ t) {y = n} (omega arith))

-- `ty_bignum_shl` of a number is a number, the product with 2^n modulo 2^1024.
pub val-shl : {a : Bn} (n : ℕ) → IsBn a → IsBn (shl a n) × (val (shl a n) ≡ val a * 2 ^ n % modulus)
val-shl {a} n v =
    let (w, e) = val-words_up n v in
    rw (shl-eq a n) (elim (Bool-cases (n % 32 == 0)) [
      | inl whole ↦ rw whole (
        w,
        e
            ∙ ap (λ (k : ℕ). val a * 2 ^ k % modulus) {y = n}
                (omega (arith, (==_iff (n % 32) 0).0 whole)),
      )
      | inr part ↦ rw part (
          let (r, value) = val-shl_bits (n % 32) (omega arith) w in
          (
            r,
            value
                ∙ ap (λ (t : ℕ). t * 2 ^ (n % 32) % modulus) e
                ∙ mod-mul-mod (val a * 2 ^ (n / 32 * 32)) (2 ^ (n % 32)) modulus
                ∙ ap (λ (t : ℕ). t % modulus) (two_parts (val a) n),
          ))
    ])
