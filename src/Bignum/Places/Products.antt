-- ===== src/Bignum/Places/Products.antt =====
-- `ty_bignum_mul` of src/ty_bignum.c when the result is one of the arguments: it clears the
-- result before it reads them.
use tyto_h.Base.{ℕ, zero, suc, ◌+◌, ◌*◌, ◌%◌, ◌^◌, ◌≡◌, refl, sym, ap, ◌∙◌, ◌≢◌, ◌⊎◌, inl}
use tyto_h.Base.{inr, ◌||◌, List, arith, ◌==◌, if◌then◌else◌, ==_iff, Bool-cases, get_or}
use tyto_h.Base.{get_or-replicate}
use mathlib.Core.Path.{ap₂, subst}
use tyto_h.Bignum.{array_size, init}
use tyto_h.Bignum.Value.{val, IsBn, base, init-IsBn, val-init, val_injective, get_or-lt, modulus}
use tyto_h.Bignum.Arith.{add}
use tyto_h.Bignum.Arith.Sums.{val-add}
use tyto_h.Bignum.Mul.{row_loop, mul_loop, mul}
use tyto_h.Bignum.Mul.Product.{val-row_loop}
use tyto_h.Bignum.Places.{Objects, write, mul_rows, mul_at}
use tyto_h.Bignum.Places.Aliases.{write_same, write_other, write_again, write_self, From}
use tyto_h.Bignum.Places.Rows.{row_added, after_row, after_row-lem, rows_apart}

-- The rows, where the result is one of the arguments.
nothing_added :
    (a b c row i : ℕ) (m : Objects)
    → (a ≡ c) ⊎ (b ≡ c)
    → m c ≡ init
    → IsBn (m a)
    → IsBn (m b)
    → row_added a b c row i m ≡ init
unfolding row_added init
nothing_added a b c row i m over cleared va vb =
    let x = get_or (m a) i 0 in
    let (r, er) = val-row_loop x i 0 (m b) (get_or-lt (m a) i va.words) vb.words init-IsBn in
    let none_left : x * val (m b) ≡ 0 = elim over [
      | inl e ↦
          ap (λ v. get_or v i 0 * val (m b)) (ap m e ∙ cleared)
          ∙ ap (λ t. t * val (m b)) (get_or-replicate 32 i 0)
          ∙ omega arith
      | inr e ↦ ap (λ (t : ℕ). x * t) (ap val (ap m e ∙ cleared) ∙ val-init) ∙ omega arith
    ] in
    let row_zero : val (row_loop x i 0 (m b) init) ≡ 0 =
      er ∙ ap₂ (λ (s t : ℕ). (s + t * base ^ (i + 0)) % modulus) val-init none_left ∙ omega arith in
    let (t, et) = val-add init-IsBn r in
    ap (λ v. add v (row_loop x i 0 (m b) init)) cleared
    ∙ val_injective (add init (row_loop x i 0 (m b) init)) init (t.size ∙ sym init-IsBn.size)
        t.words init-IsBn.words
        (et ∙ ap₂ (λ (u v : ℕ). (u + v) % modulus) val-init row_zero ∙ sym val-init)

rows_over :
    (a b c row left i : ℕ) (m : Objects) (p : ℕ)
    → a ≢ row
    → b ≢ row
    → c ≢ row
    → (a ≡ c) ⊎ (b ≡ c)
    → m c ≡ init
    → IsBn (m a)
    → IsBn (m b)
    → p ≢ row
    → mul_rows a b c left i row m p ≡ m p
unfolding mul_rows
rows_over a b c row zero i m p ar br cr over cleared va vb pr = refl
rows_over a b c row (suc left) i m p ar br cr over cleared va vb pr =
    let m' = after_row a b c row i m in
    let vc : IsBn (m c) = subst IsBn (sym cleared) init-IsBn in
    let same = λ (q : ℕ) (qr : q ≢ row).
      after_row-lem a b c row i m q cr va vb vc qr
      ∙ ap (λ v. write m c v q) (nothing_added a b c row i m over cleared va vb ∙ sym cleared)
      ∙ write_self m c q in
    rows_over a b c row left (suc i) m' p ar br cr over (same c cr ∙ cleared)
      (subst IsBn (sym (same a ar)) va) (subst IsBn (sym (same b br)) vb) pr
    ∙ same p pr

From-start : (whole : List ℕ) → From whole 0 whole
unfolding From
From-start whole j lt = ap (λ k. get_or whole k 0) {x = 0 + j} {y = j} (omega arith)

-- ty_bignum_mul of two numbers, with a result behind a pointer and the row in an object of its
-- own: if the result is another object than the two numbers, it becomes their product; if it
-- is one of them, it becomes zero. No other object but the row changes.
pub mul_in_place :
    (a b c row : ℕ) (m : Objects) (p : ℕ)
    → a ≢ row
    → b ≢ row
    → c ≢ row
    → IsBn (m a)
    → IsBn (m b)
    → p ≢ row
    → mul_at a b c row m p ≡ write m c (if a == c || b == c then init else mul (m a) (m b)) p
unfolding mul_at mul
mul_in_place a b c row m p ar br cr va vb pr =
    let m' = write m c init in
    let clean : m' c ≡ init = write_same m c init in
    let kept = λ (q : ℕ) (v : IsBn (m q)). elim (Bool-cases (q == c)) as (λ _. IsBn (m' q)) [
      | inl e ↦ subst IsBn (sym (ap m' ((==_iff q c).0 e) ∙ clean)) init-IsBn
      | inr e ↦ subst IsBn (sym (write_other m c init q (λ f. absurd (ground arith)))) v
    ] in
    let over = λ (e : (a ≡ c) ⊎ (b ≡ c)).
      rows_over a b c row array_size 0 m' p ar br cr e clean (kept a va) (kept b vb) pr in
    elim (Bool-cases (a == c)) [
      | inl e ↦ rw e (over (inl ((==_iff a c).0 e)))
      | inr e ↦ rw e (elim (Bool-cases (b == c)) [
        | inl f ↦ rw f (over (inr ((==_iff b c).0 f)))
        | inr f ↦ rw f (
            let ac : a ≢ c = λ h. absurd (ground arith) in
            let bc : b ≢ c = λ h. absurd (ground arith) in
            rows_apart a b c row array_size 0 (m a) m' p ar br cr ac bc (kept a va) (kept b vb)
              (subst IsBn (sym clean) init-IsBn) va.size
              (subst (λ v. From v 0 (m a)) (sym (write_other m c init a ac)) (From-start (m a))) pr
            ∙ write_again m c init (mul_loop 0 (m a) (m' b) (m' c)) p
            ∙ ap₂ (λ u v. write m c (mul_loop 0 (m a) u v) p) (write_other m c init b bc) clean)
      ])
    ]
