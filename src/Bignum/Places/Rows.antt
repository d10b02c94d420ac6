-- ===== src/Bignum/Places/Rows.antt =====
-- The rows of `ty_bignum_mul` in src/ty_bignum.c, where the numbers stand behind pointers.
use tyto_h.Base.{ℕ, zero, suc, ◌+◌, ◌≡◌, refl, sym, ap, ◌∙◌, ◌≢◌, inl, inr, List, [], ◌∷◌}
use tyto_h.Base.{arith, ◌==◌, Bool-cases, ne→==, length, get_or}
use mathlib.Core.Path.{ap₂, subst}
use tyto_h.Bignum.{Bn, init}
use tyto_h.Bignum.Value.{IsBn, init-IsBn, get_or-lt}
use tyto_h.Bignum.Arith.{add}
use tyto_h.Bignum.Arith.Sums.{val-add}
use tyto_h.Bignum.Mul.{row_loop, mul_loop}
use tyto_h.Bignum.Mul.Product.{val-row_loop}
use tyto_h.Bignum.Places.{Objects, write, add_at, mul_rows}
use tyto_h.Bignum.Places.Aliases.{write_same, write_other, in_place, write_self, From, From-head}

-- One row: the third number becomes the sum, and only the row's own object changes besides.
unfoldable pub row_added : (a b c row i : ℕ) → Objects → Bn
row_added a b c row i m = add (m c) (row_loop (get_or (m a) i 0) i 0 (m b) init)

abbrev pub after_row : (a b c row i : ℕ) → Objects → Objects
after_row a b c row i m = add_at c row c (write m row (row_loop (get_or (m a) i 0) i 0 (m b) init))

write_outside :
    (m : Objects) (row c : ℕ) (w v : Bn) (p : ℕ)
    → p ≢ row
    → write (write m row w) c v p ≡ write m c v p
unfolding write
write_outside m row c w v p other = rw (ne→== p row other) refl

pub after_row-lem :
    (a b c row i : ℕ) (m : Objects) (p : ℕ)
    → c ≢ row
    → IsBn (m a)
    → IsBn (m b)
    → IsBn (m c)
    → p ≢ row
    → after_row a b c row i m p ≡ write m c (row_added a b c row i m) p
unfolding row_added
after_row-lem a b c row i m p ne va vb vc other =
    let w = row_loop (get_or (m a) i 0) i 0 (m b) init in
    let filled = write m row w in
    let at_row : filled row ≡ w = write_same m row w in
    let at_c : filled c ≡ m c = write_other m row w c ne in
    let r =
      val-row_loop (get_or (m a) i 0) i 0 (m b) (get_or-lt (m a) i va.words) vb.words init-IsBn in
    (in_place c row c filled (ap length at_c ∙ vc.size) (ap length at_row ∙ r.0.size)
      (ap length at_c ∙ vc.size) p).0
    ∙ ap₂ (λ u v. write filled c (add u v) p) at_c at_row
    ∙ write_outside m row c w (add (m c) w) p other

write_over :
    (m m' : Objects) (c : ℕ) (u v : Bn) (p : ℕ)
    → m' p ≡ write m c u p
    → write m' c v p ≡ write m c v p
unfolding write
write_over m m' c u v p e = elim (Bool-cases (p == c)) [
  | inl same ↦ rw same refl
  | inr apart ↦ rw apart (e ∙ rw apart refl)
]

From-next : (whole : List ℕ) (i x : ℕ) (xs : List ℕ) → From whole i (x ∷ xs) → From whole (suc i) xs
unfolding From
From-next whole i x xs h j lt =
    ap (λ k. get_or whole k 0) {x = suc i + j} {y = i + suc j} (omega arith)
    ∙ h (suc j) (omega arith)

row_added-IsBn :
    (a b c row i : ℕ) (m : Objects)
    → IsBn (m a)
    → IsBn (m b)
    → IsBn (m c)
    → IsBn (row_added a b c row i m)
unfolding row_added
row_added-IsBn a b c row i m va vb vc =
    (val-add vc
      (val-row_loop (get_or (m a) i 0) i 0 (m b) (get_or-lt (m a) i va.words) vb.words
        init-IsBn).0).0

-- The rows, where the result is another object than the arguments.
pub rows_apart :
    (a b c row left i : ℕ) (xs : List ℕ) (m : Objects) (p : ℕ)
    → a ≢ row
    → b ≢ row
    → c ≢ row
    → a ≢ c
    → b ≢ c
    → IsBn (m a)
    → IsBn (m b)
    → IsBn (m c)
    → length xs ≡ left
    → From (m a) i xs
    → p ≢ row
    → mul_rows a b c left i row m p ≡ write m c (mul_loop i xs (m b) (m c)) p
unfolding mul_rows mul_loop row_added
rows_apart a b c row zero i [] m p ar br cr ac bc va vb vc len from pr = sym (write_self m c p)
rows_apart a b c row zero i (x ∷ xs) m p ar br cr ac bc va vb vc len from pr = absurd (omega arith)
rows_apart a b c row (suc left) i [] m p ar br cr ac bc va vb vc len from pr = absurd (omega arith)
rows_apart a b c row (suc left) i (x ∷ xs) m p ar br cr ac bc va vb vc len from pr =
    let m' = after_row a b c row i m in
    let sum = row_added a b c row i m in
    let same = λ (q : ℕ) (qr : q ≢ row) (qc : q ≢ c).
      after_row-lem a b c row i m q cr va vb vc qr ∙ write_other m c sum q qc in
    let result = after_row-lem a b c row i m c cr va vb vc cr ∙ write_same m c sum in
    let sum_of : sum ≡ add (m c) (row_loop x i 0 (m b) init) =
      ap (λ w. add (m c) (row_loop w i 0 (m b) init)) (From-head (m a) i x xs from) in
    let rest =
      rows_apart a b c row left (suc i) xs m' p ar br cr ac bc (subst IsBn (sym (same a ar ac)) va)
        (subst IsBn (sym (same b br bc)) vb)
        (subst IsBn (sym result) (row_added-IsBn a b c row i m va vb vc)) (omega (arith, len))
        (subst (λ v. From v (suc i) xs) (sym (same a ar ac)) (From-next (m a) i x xs from)) pr in
    rest
    ∙ write_over m m' c sum (mul_loop (suc i) xs (m' b) (m' c)) p
        (after_row-lem a b c row i m p cr va vb vc pr)
    ∙ ap₂ (λ u v. write m c (mul_loop (suc i) xs u v) p) (same b br bc) (result ∙ sum_of)
