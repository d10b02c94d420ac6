-- ===== src/Bignum/Arith/Sums.antt =====
-- `ty_bignum_add` and `ty_bignum_inc` count modulo 2^1024.
use tyto_h.Base.{ℕ, suc, ◌+◌, ◌*◌, ◌%◌, ◌^◌, ◌<◌, ◌≤◌, ◌≡◌, refl, ap, sym, ◌∙◌}
use tyto_h.Base.{
  List, [], ◌∷◌, length, arith, ltb, if◌then◌else◌, bit_and, bit_and_mask, Bool-cases, inl, inr,
}
use tyto_h.Base.{mod_unique}
use native.Mathlib.Nat.{pow-suc}
use tyto_h.Bignum.{Bn, max_val}
use tyto_h.Bignum.Value.{base, val, IsWords, IsBn, modulus, val-lt-modulus}
use tyto_h.Bignum.Arith.{add_loop, add, inc}

-- The words of a sum, with the carry out.
record Carried (n : ℕ) (r : List ℕ) (s : ℕ) : Type 0 where
  carry : ℕ
  small : carry ≤ 1
  size : length r ≡ n
  words : IsWords r
  total : val r + carry * base ^ n ≡ s

Carried-cons :
    {n s t : ℕ} {r : List ℕ} (w : ℕ)
    → w < base
    → Carried n r s
    → w + base * s ≡ t
    → Carried (suc n) (w ∷ r) t
unfolding val
Carried-cons {n} w h c e = record {
  carry = c.carry;
  small = c.small;
  size = ap suc c.size;
  words = (h, c.words);
  total = omega (arith, c.total, ap (λ (t : ℕ). c.carry * t) (pow-suc base n));
}

add_word :
    (x y c vx vy : ℕ)
    → x < base
    → y < base
    → c ≤ 1
    → bit_and ((x + y + c) % 2 ^ 64) max_val
        + base * (vx + vy + (if ltb max_val ((x + y + c) % 2 ^ 64) then 1 else 0))
      ≡ x + base * vx + (y + base * vy) + c
add_word x y c vx vy hx hy hc = ground (arith, bit_and_mask 32 ((x + y + c) % 2 ^ 64))

add_loop-Carried :
    (xs ys : List ℕ) (c : ℕ)
    → length xs ≡ length ys
    → IsWords xs
    → IsWords ys
    → c ≤ 1
    → Carried (length xs) (add_loop xs ys c) (val xs + val ys + c)
unfolding add_loop val
add_loop-Carried [] [] c e hx hy hc = record {
  carry = c;
  small = hc;
  size = refl;
  words = tt;
  total = omega arith;
}
add_loop-Carried [] (y ∷ ys) c e hx hy hc = absurd (omega arith)
add_loop-Carried (x ∷ xs) [] c e hx hy hc = absurd (omega arith)
add_loop-Carried (x ∷ xs) (y ∷ ys) c e hx hy hc =
    Carried-cons (bit_and ((x + y + c) % 2 ^ 64) max_val)
      (omega (arith, bit_and_mask 32 ((x + y + c) % 2 ^ 64)))
      (add_loop-Carried xs ys (if ltb max_val ((x + y + c) % 2 ^ 64) then 1 else 0) (omega arith)
        hx.1 hy.1 (ground arith))
      (add_word x y c (val xs) (val ys) hx.0 hy.0 hc)

-- A result with its carry, as a number of 32 words.
Carried-modulus :
    {a r : Bn} {s : ℕ} → IsBn a → Carried (length a) r s → IsBn r × (val r ≡ s % modulus)
Carried-modulus {a} {r} {s} v c =
    let b : IsBn r = record { size = c.size ∙ v.size; words = c.words } in
    (
      b,
      mod_unique modulus (val r) c.carry s (val-lt-modulus b)
          (ap (λ (n : ℕ). val r + c.carry * base ^ n) (sym v.size) ∙ c.total),
    )

-- `ty_bignum_add` of two numbers is a number, their sum modulo 2^1024.
pub val-add :
    {a b : Bn} → IsBn a → IsBn b → IsBn (add a b) × (val (add a b) ≡ (val a + val b) % modulus)
unfolding add
val-add {a} {b} va vb =
    let (r, e) =
      Carried-modulus va
        (add_loop-Carried a b 0 (va.size ∙ sym vb.size) va.words vb.words (omega arith)) in
    (r, e ∙ ap (λ (t : ℕ). t % modulus) (omega arith))

-- A number left as it is.
Carried-same : (xs : List ℕ) → IsWords xs → Carried (length xs) xs (val xs)
Carried-same xs h = record {
  carry = 0;
  small = omega arith;
  size = refl;
  words = h;
  total = omega arith;
}

inc-Carried : (xs : List ℕ) → IsWords xs → Carried (length xs) (inc xs) (val xs + 1)
unfolding inc val
inc-Carried [] h = record {
  carry = 1;
  small = omega arith;
  size = refl;
  words = tt;
  total = omega arith;
}
inc-Carried (x ∷ xs) h = elim (Bool-cases (ltb x ((x + 1) % 2 ^ 32))) [
  | inl stop ↦
      rw stop (Carried-cons ((x + 1) % 2 ^ 32) (omega arith) (Carried-same xs h.1) (ground arith))
  | inr wrap ↦
      rw wrap (Carried-cons ((x + 1) % 2 ^ 32) (omega arith) (inc-Carried xs h.1) (ground arith))
]

-- `ty_bignum_inc` adds one modulo 2^1024.
pub val-inc : {a : Bn} → IsBn a → IsBn (inc a) × (val (inc a) ≡ (val a + 1) % modulus)
val-inc {a} v = Carried-modulus v (inc-Carried a v.words)
