-- ===== src/Bignum/Text/Strip.antt =====
-- The end of `ty_bignum_to_str`: the leading zeros are counted, and the rest moves to the front.
use tyto_h.Base.{ℕ, zero, suc, ◌+◌, ◌-◌, ◌*◌, ◌^◌, ◌≤◌, ◌<◌, ◌≡◌, refl, sym, ap, ◌∙◌, ◌≢◌}
use tyto_h.Base.{inl, inr, true, List, [], ◌∷◌, ◌++◌, arith, ◌==◌, leb, le→leb}
use tyto_h.Base.{Bool-cases, Outcome, length, take, drop, length-append, length-take}
use tyto_h.Base.{length-drop, take_prefix, drop_at, done}
use tyto_h.Bignum.Text.{put_text, zeros_loop, move_loop, skip_zeros, digit_0}
use tyto_h.Bignum.Text.Digits.{AllHex, digit, hex}
use mathlib.Core.List.{append_assoc}

-- The text does not start with '0'.
abbrev pub NoZero : List ℕ → Type 0
NoZero [] = Unit {0}
NoZero (c ∷ s) = c ≢ digit_0

-- What is left of some digits without their leading zeros.
pub record Strips (s t : List ℕ) (o : Outcome ℕ) : Type 0 where
  pub zeros : ℕ
  pub left : List ℕ
  pub runs : o ≡ done zeros
  pub behind : drop zeros (s ++ 0 ∷ t) ≡ left ++ 0 ∷ t
  pub counted : zeros + length left ≡ length s
  pub digits : AllHex left
  pub first : NoZero left
  pub same : hex left ≡ hex s

pub zeros_loop-Strips : (s t : List ℕ) → AllHex s → Strips s t (zeros_loop (s ++ 0 ∷ t))
unfolding zeros_loop hex digit
zeros_loop-Strips [] t h = record {
  zeros = 0;
  left = [];
  runs = refl;
  behind = refl;
  counted = refl;
  digits = tt;
  first = tt;
  same = refl;
}
zeros_loop-Strips (c ∷ s) t h = elim (Bool-cases (c == digit_0)) [
  | inr f ↦ rw f (record {
    zeros = 0;
    left = c ∷ s;
    runs = refl;
    behind = refl;
    counted = omega arith;
    digits = h;
    first = λ e. absurd (ground arith);
    same = refl;
  })
  | inl e ↦
      let r = zeros_loop-Strips s t h.1 in
      let is : c ≡ 48 = ground arith in
      rw (e, r.runs)
        (record {
          zeros = r.zeros + 1;
          left = r.left;
          runs = refl;
          behind =
              ap (λ n. drop n (c ∷ s ++ 0 ∷ t)) {x = r.zeros + 1} {y = suc r.zeros} (omega arith)
              ∙ r.behind;
          counted = omega (arith, r.counted);
          digits = r.digits;
          first = r.first;
          same = omega (arith, r.same, ap (λ (k : ℕ). digit k * 16 ^ length s) is);
        })
]

pub move_loop-done :
    (n j : ℕ) (str : List ℕ)
    → n + j ≤ length str
    → move_loop n j str ≡ done (take n (drop j str) ++ drop n str)
unfolding move_loop
move_loop-done zero j str h = refl
move_loop-done (suc n) j [] h = absurd (omega arith)
move_loop-done (suc n) j (c ∷ str) h =
    let d = drop_at (c ∷ str) j (omega arith) in
    rw (d.1.0, move_loop-done n j str (omega arith))
      (ap (λ t. done (take (suc n) t ++ drop n str)) (sym d.1.1))

-- A text and its null character, cut behind the text, and another null character.
cut_behind :
    (n : ℕ) (r t y : List ℕ)
    → length r ≤ n
    → (tail : List ℕ) × (take n (r ++ 0 ∷ t) ++ 0 ∷ y ≡ r ++ 0 ∷ tail)
cut_behind zero [] t y h = (y, refl)
cut_behind (suc n) [] t y h = (take n t ++ 0 ∷ y, refl)
cut_behind zero (c ∷ r) t y h = absurd (omega arith)
cut_behind (suc n) (c ∷ r) t y h =
    let rest = cut_behind n r t y (omega arith) in (rest.0, ap (λ s. c ∷ s) rest.1)

pub skip_zeros-Strips :
    (nbytes : ℕ) (s t : List ℕ)
    → AllHex s
    → length s ≤ nbytes
    → nbytes < length (s ++ 0 ∷ t)
    → (left : List ℕ) × ((tail : List ℕ) × ((skip_zeros nbytes (s ++ 0 ∷ t)
            ≡ done (left ++ 0 ∷ tail))
          × (AllHex left × (NoZero left × ((hex left ≡ hex s) × (length left ≤ length s))))))
unfolding skip_zeros put_text
skip_zeros-Strips nbytes s t h le lt =
    let str = s ++ 0 ∷ t in
    let r = zeros_loop-Strips s t h in
    let n = nbytes - r.zeros in
    let front = take n (drop r.zeros str) in
    let front_len : length front ≡ n =
      omega (arith, r.counted, length-take n (drop r.zeros str), length-drop r.zeros str) in
    let moved = front ++ drop n str in
    let sum = length-append front (drop n str) in
    let room : leb (n + 1) (length moved) ≡ true =
      le→leb (n + 1) (length moved) (omega (arith, sum, length-drop n str, front_len, r.counted)) in
    let c = cut_behind n r.left t (drop (n + 1) moved) (omega (arith, r.counted)) in
    let written : take n moved ++ 0 ∷ [] ++ drop (n + 1) moved ≡ r.left ++ 0 ∷ c.0 =
      ap (λ u. u ++ 0 ∷ [] ++ drop (n + 1) moved)
        (take_prefix front (drop n str) n (sym front_len) ∙ ap (take n) r.behind)
      ∙ (simp append_assoc)
      ∙ c.1 in
    (
      r.left,
      (
        c.0,
        (
          rw (r.runs, move_loop-done n r.zeros str (omega (arith, r.counted)), room)
              (ap done written),
          (r.digits, (r.first, (r.same, omega (arith, r.counted)))),
        ),
      ),
    )
