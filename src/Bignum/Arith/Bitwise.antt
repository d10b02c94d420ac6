-- ===== src/Bignum/Arith/Bitwise.antt =====
-- `ty_bignum_and`, `ty_bignum_or` and `ty_bignum_xor` work on the binary digits of the numbers.
use tyto_h.Base.{ℕ, suc, ◌+◌, ◌*◌, ◌^◌, ◌<◌, ◌≡◌, refl, ap, sym, ◌∙◌, List, [], ◌∷◌, length, arith}
use tyto_h.Base.{bit_and, bit_or, bit_xor, bit_and_fields, bit_or_fields, bit_xor_fields}
use tyto_h.Base.{bit_and-lt, bit_or-lt, bit_xor-lt}
use mathlib.Core.Path.{ap₂}
use tyto_h.Bignum.{Bn}
use tyto_h.Bignum.Value.{base, val, IsWords, IsBn}
use tyto_h.Bignum.Arith.{and, or, xor}

-- What the three loops share: `op` works on the low word and on the rest on their own.
module _ (op : ℕ → ℕ → ℕ) (loop : List ℕ → List ℕ → List ℕ)
    (fields : (k q r q' r' : ℕ)
      → r < 2 ^ k
      → r' < 2 ^ k
      → op (q * 2 ^ k + r) (q' * 2 ^ k + r') ≡ op q q' * 2 ^ k + op r r')
    (lt : (k a b : ℕ) → a < 2 ^ k → b < 2 ^ k → op a b < 2 ^ k) (zeros : op 0 0 ≡ 0)
    (loop-nil : loop [] [] ≡ [])
    (loop-cons : (x y : ℕ) (xs ys : List ℕ) → loop (x ∷ xs) (y ∷ ys) ≡ op x y ∷ loop xs ys) where
  record Bits (xs ys : List ℕ) : Type 0 where
    size : length (loop xs ys) ≡ length xs
    words : IsWords (loop xs ys)
    value : val (loop xs ys) ≡ op (val xs) (val ys)

  op_word :
      (x y vx vy : ℕ)
      → x < base
      → y < base
      → op x y + base * op vx vy ≡ op (x + base * vx) (y + base * vy)
  op_word x y vx vy hx hy =
      omega arith
      ∙ sym (fields 32 vx x vy y hx hy)
      ∙ ap₂ op {x = vx * 2 ^ 32 + x} {u = vy * 2 ^ 32 + y} (omega arith) (omega arith)

  loop-Bits : (xs ys : List ℕ) → length xs ≡ length ys → IsWords xs → IsWords ys → Bits xs ys
  unfolding val
  loop-Bits [] [] e hx hy = record {
    size = rw loop-nil refl;
    words = rw loop-nil tt;
    value = rw loop-nil (sym zeros);
  }
  loop-Bits [] (y ∷ ys) e hx hy = absurd (omega arith)
  loop-Bits (x ∷ xs) [] e hx hy = absurd (omega arith)
  loop-Bits (x ∷ xs) (y ∷ ys) e hx hy =
      let rest = loop-Bits xs ys (omega arith) hx.1 hy.1 in
      record {
        size = rw loop-cons (ap suc rest.size);
        words = rw loop-cons (lt 32 x y hx.0 hy.0, rest.words);
        value = rw (loop-cons, rest.value) (op_word x y (val xs) (val ys) hx.0 hy.0);
      }

  val-loop : {a b : Bn} → IsBn a → IsBn b → IsBn (loop a b) × (val (loop a b) ≡ op (val a) (val b))
  val-loop {a} {b} va vb =
      let bits = loop-Bits a b (va.size ∙ sym vb.size) va.words vb.words in
      (record { size = bits.size ∙ va.size; words = bits.words }, bits.value)

-- `ty_bignum_and` is the conjunction of the numbers digit by digit.
pub val-and :
    {a b : Bn} → IsBn a → IsBn b → IsBn (and a b) × (val (and a b) ≡ bit_and (val a) (val b))
unfolding and
val-and va vb = val-loop bit_and and bit_and_fields bit_and-lt refl refl (λ x y xs ys. refl) va vb

-- `ty_bignum_or` is the disjunction of the numbers digit by digit.
pub val-or : {a b : Bn} → IsBn a → IsBn b → IsBn (or a b) × (val (or a b) ≡ bit_or (val a) (val b))
unfolding or
val-or va vb = val-loop bit_or or bit_or_fields bit_or-lt refl refl (λ x y xs ys. refl) va vb

-- `ty_bignum_xor` is the exclusive disjunction of the numbers digit by digit.
pub val-xor :
    {a b : Bn} → IsBn a → IsBn b → IsBn (xor a b) × (val (xor a b) ≡ bit_xor (val a) (val b))
unfolding xor
val-xor va vb = val-loop bit_xor xor bit_xor_fields bit_xor-lt refl refl (λ x y xs ys. refl) va vb

-- `ty_bignum_and`, `ty_bignum_or` and `ty_bignum_xor` of two numbers are numbers, and are the
-- bitwise operations on the values.
pub bitwise_values :
    {a b : Bn}
    → IsBn a
    → IsBn b
    → (IsBn (and a b) × (val (and a b) ≡ bit_and (val a) (val b)))
      × (IsBn (or a b) × (val (or a b) ≡ bit_or (val a) (val b)))
      × (IsBn (xor a b) × (val (xor a b) ≡ bit_xor (val a) (val b)))
bitwise_values va vb = (val-and va vb, val-or va vb, val-xor va vb)
