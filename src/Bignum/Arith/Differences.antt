-- ===== src/Bignum/Arith/Differences.antt =====
-- `ty_bignum_sub` and `ty_bignum_dec` count modulo 2^1024; `ty_bignum_dec` undoes
-- `ty_bignum_inc`.
use tyto_h.Base.{ℕ, suc, ◌+◌, ◌-◌, ◌*◌, ◌%◌, ◌^◌, ◌<◌, ◌≤◌, ◌≡◌, refl, ap, sym, ◌∙◌}
use tyto_h.Base.{
  List, [], ◌∷◌, length, arith, ltb, leb, if◌then◌else◌, bit_and, bit_and_mask, Bool-cases, inl,
  inr,
}
use tyto_h.Base.{mod_unique}
use native.Mathlib.Nat.{pow-suc}
use tyto_h.Bignum.{Bn, max_val}
use tyto_h.Bignum.Value.{base, val, IsWords, IsBn, modulus, val-lt-modulus, val_injective}
use tyto_h.Bignum.Arith.{sub_loop, sub, inc, dec}
use tyto_h.Bignum.Arith.Sums.{val-inc}

-- The words of a difference, with the borrow out.
record Borrowed (n : ℕ) (r : List ℕ) (s t : ℕ) : Type 0 where
  borrow : ℕ
  small : borrow ≤ 1
  size : length r ≡ n
  words : IsWords r
  total : val r + t ≡ s + borrow * base ^ n

Borrowed-cons :
    {n s t s' t' : ℕ} {r : List ℕ} (w : ℕ)
    → w < base
    → Borrowed n r s t
    → w + base * s + t' ≡ s' + base * t
    → Borrowed (suc n) (w ∷ r) s' t'
unfolding val
Borrowed-cons {n} w h c e = record {
  borrow = c.borrow;
  small = c.small;
  size = ap suc c.size;
  words = (h, c.words);
  total = omega (arith, c.total, ap (λ (t : ℕ). c.borrow * t) (pow-suc base n));
}

-- What the loop of `ty_bignum_sub` computes before the mask.
abbrev difference : ℕ → ℕ → ℕ → ℕ
difference x y b = ((x + (max_val + 1)) % 2 ^ 64 + 2 ^ 64 - (y + b) % 2 ^ 64) % 2 ^ 64

sub_word :
    (x y b vx vy : ℕ)
    → x < base
    → y < base
    → b ≤ 1
    → bit_and (difference x y b) max_val + base * vx + (y + base * vy + b)
      ≡ x + base * vx + base * (vy + (if leb (difference x y b) max_val then 1 else 0))
sub_word x y b vx vy hx hy hb = ground (arith, bit_and_mask 32 (difference x y b))

sub_loop-Borrowed :
    (xs ys : List ℕ) (b : ℕ)
    → length xs ≡ length ys
    → IsWords xs
    → IsWords ys
    → b ≤ 1
    → Borrowed (length xs) (sub_loop xs ys b) (val xs) (val ys + b)
unfolding sub_loop val
sub_loop-Borrowed [] [] b e hx hy hb = record {
  borrow = b;
  small = hb;
  size = refl;
  words = tt;
  total = omega arith;
}
sub_loop-Borrowed [] (y ∷ ys) b e hx hy hb = absurd (omega arith)
sub_loop-Borrowed (x ∷ xs) [] b e hx hy hb = absurd (omega arith)
sub_loop-Borrowed (x ∷ xs) (y ∷ ys) b e hx hy hb =
    Borrowed-cons (bit_and (difference x y b) max_val)
      (omega (arith, bit_and_mask 32 (difference x y b)))
      (sub_loop-Borrowed xs ys (if leb (difference x y b) max_val then 1 else 0) (omega arith) hx.1
        hy.1 (ground arith))
      (sub_word x y b (val xs) (val ys) hx.0 hy.0 hb)

Borrowed-modulus :
    {a r : Bn} {s t : ℕ}
    → IsBn a
    → s < modulus
    → t ≤ modulus
    → Borrowed (length a) r s t
    → IsBn r × (val r ≡ (s + modulus - t) % modulus)
Borrowed-modulus {a} {r} {s} {t} v hs ht c =
    let b : IsBn r = record { size = c.size ∙ v.size; words = c.words } in
    let total : val r + t ≡ s + c.borrow * modulus =
      c.total ∙ ap (λ (n : ℕ). s + c.borrow * base ^ n) v.size in
    let small = c.small in
    (
      b,
      mod_unique modulus (val r) (1 - c.borrow) (s + modulus - t) (val-lt-modulus b) (omega arith),
    )

-- `ty_bignum_sub` of two numbers is a number, their difference modulo 2^1024.
pub val-sub :
    {a b : Bn}
    → IsBn a
    → IsBn b
    → IsBn (sub a b) × (val (sub a b) ≡ (val a + modulus - val b) % modulus)
unfolding sub
val-sub {a} {b} va vb =
    let below = val-lt-modulus vb in
    let (r, e) =
      Borrowed-modulus va (val-lt-modulus va) (omega arith)
        (sub_loop-Borrowed a b 0 (va.size ∙ sym vb.size) va.words vb.words (omega arith)) in
    (r, e ∙ ap (λ (t : ℕ). (val a + modulus - t) % modulus) (omega arith))

Borrowed-same : (xs : List ℕ) → IsWords xs → Borrowed (length xs) xs (val xs) 0
Borrowed-same xs h = record {
  borrow = 0;
  small = omega arith;
  size = refl;
  words = h;
  total = omega arith;
}

dec-Borrowed : (xs : List ℕ) → IsWords xs → Borrowed (length xs) (dec xs) (val xs) 1
unfolding dec val
dec-Borrowed [] h = record {
  borrow = 1;
  small = omega arith;
  size = refl;
  words = tt;
  total = omega arith;
}
dec-Borrowed (x ∷ xs) h = elim (Bool-cases (ltb x ((x + 2 ^ 32 - 1) % 2 ^ 32))) [
  | inl wrap ↦
      rw wrap (
        Borrowed-cons ((x + 2 ^ 32 - 1) % 2 ^ 32) (omega arith) (dec-Borrowed xs h.1)
          (ground arith))
  | inr stop ↦ rw stop (
      Borrowed-cons ((x + 2 ^ 32 - 1) % 2 ^ 32) (omega arith) (Borrowed-same xs h.1) (ground arith))
]

-- `ty_bignum_dec` takes one away modulo 2^1024.
pub val-dec : {a : Bn} → IsBn a → IsBn (dec a) × (val (dec a) ≡ (val a + modulus - 1) % modulus)
val-dec {a} v = Borrowed-modulus v (val-lt-modulus v) (omega arith) (dec-Borrowed a v.words)

-- `ty_bignum_inc` and `ty_bignum_dec` keep a number a number, count by one modulo 2^1024, and
-- each undoes the other.
pub inc-dec :
    {a : Bn}
    → IsBn a
    → (val (inc a) ≡ (val a + 1) % modulus)
      × (val (dec a) ≡ (val a + modulus - 1) % modulus)
      × (inc (dec a) ≡ a)
      × (dec (inc a) ≡ a)
inc-dec {a} v =
    let (vi, ei) = val-inc v in
    let (vd, ed) = val-dec v in
    let (vid, eid) = val-inc vd in
    let (vdi, edi) = val-dec vi in
    let below = val-lt-modulus v in
    (
      ei,
      ed,
      val_injective (inc (dec a)) a (vid.size ∙ sym v.size) vid.words v.words (omega arith),
      val_injective (dec (inc a)) a (vdi.size ∙ sym v.size) vdi.words v.words (omega arith),
    )
