-- ===== src/Slices/Fixes.antt =====
-- Prefixes and suffixes of slices in src/ty_string.c.
use tyto_h.Base.{ℕ, zero, suc, ◌+◌, ◌-◌, ◌≤◌, ◌<◌, ◌≡◌, refl, ap, ◌∙◌, ◌↔◌, inl, inr}
use tyto_h.Base.{Bool, true, false, arith, ◌==◌, if◌then◌else◌, ltb, lt→ltb, le→ltb}
use tyto_h.Base.{Bool-cases, Outcome, length, done}
use tyto_h.Slices.{Slice, Valid, char_of, slice_at-char_of}
use tyto_h.Slices.{starts_loop, ends_loop, slice_starts_with, slice_ends_with}
use native.Mathlib.Decide.{dec_lt}

-- The slices agree on `n` characters, the first from index `a`, the second from index `b` on.
unfoldable pub Agree : (s t : Slice) (a b n : ℕ) → Type 0
Agree s t a b n = (j : ℕ) → j < n → char_of s (a + j) ≡ char_of t (b + j)

-- An answer of the code to a question.
unfoldable pub Decides : Outcome Bool → Type 0 → Type 0
Decides o P = (b : Bool) × ((o ≡ done b) × ((b ≡ true) ↔ P))

Agree-head :
    (s t : Slice) (a b n : ℕ)
    → char_of s a ≡ char_of t b
    → Agree s t (suc a) (suc b) n
    → Agree s t a b (suc n)
unfolding Agree
Agree-head s t a b n e h zero lt =
    ap (char_of s) {x = a + 0} {y = a} (omega arith)
    ∙ e
    ∙ ap (char_of t) {x = b} {y = b + 0} (omega arith)
Agree-head s t a b n e h (suc j) lt =
    ap (char_of s) {x = a + suc j} {y = suc a + j} (omega arith)
    ∙ h j (omega arith)
    ∙ ap (char_of t) {x = suc b + j} {y = b + suc j} (omega arith)

Agree-tail : (s t : Slice) (a b n : ℕ) → Agree s t a b (suc n) → Agree s t (suc a) (suc b) n
unfolding Agree
Agree-tail s t a b n h j lt =
    ap (char_of s) {x = suc a + j} {y = a + suc j} (omega arith)
    ∙ h (suc j) (omega arith)
    ∙ ap (char_of t) {x = b + suc j} {y = suc b + j} (omega arith)

Agree-at :
    (s t : Slice) (a b n j : ℕ) → Agree s t a b n → j < n → char_of s (a + j) ≡ char_of t (b + j)
unfolding Agree
Agree-at s t a b n j h lt = h j lt

Agree-none : (s t : Slice) (a b : ℕ) → Agree s t a b 0
unfolding Agree
Agree-none s t a b j lt = absurd (omega arith)

Agree-first : (s t : Slice) (a b n : ℕ) → Agree s t a b (suc n) → char_of s a ≡ char_of t b
Agree-first s t a b n h =
    ap (char_of s) {x = a} {y = a + 0} (omega arith)
    ∙ Agree-at s t a b (suc n) 0 h (omega arith)
    ∙ ap (char_of t) {x = b + 0} {y = b} (omega arith)

starts_loop-Agree :
    (s p : Slice) (left i : ℕ)
    → s.start + i + left ≤ length s.object
    → p.start + i + left ≤ length p.object
    → Decides (starts_loop s p left i) (Agree s p i i left)
unfolding starts_loop Decides
starts_loop-Agree s p zero i a b = (true, (refl, ((λ e. Agree-none s p i i), (λ h. refl))))
starts_loop-Agree s p (suc left) i a b =
    rw (slice_at-char_of p i (omega arith), slice_at-char_of s i (omega arith))
      (elim (Bool-cases (char_of p i == char_of s i)) [
        | inl t ↦ rw t (
            let r = starts_loop-Agree s p left (suc i) (omega arith) (omega arith) in
            (
              r.0,
              (
                r.1.0,
                (
                  (λ e. Agree-head s p i i left (ground arith) (r.1.1.0 e)),
                  (λ h. r.1.1.1 (Agree-tail s p i i left h)),
                ),
              ),
            ))
        | inr f ↦ rw f (
          false,
          (
            refl,
            (
              (λ e. absurd (ground arith)),
              (λ h. absurd (ground (arith, Agree-first s p i i left h))),
            ),
          ),
        )
      ])

Agree-snoc :
    (s t : Slice) (d n : ℕ)
    → char_of s (d + n) ≡ char_of t n
    → Agree s t d 0 n
    → Agree s t d 0 (suc n)
unfolding Agree
Agree-snoc s t d n e h j lt = elim (dec_lt j n) [
  | yes p ↦ h j p
  | no p ↦
      ap (char_of s) {x = d + j} {y = d + n} (omega arith)
      ∙ e
      ∙ ap (char_of t) {x = n} {y = 0 + j} (omega arith)
]

Agree-init : (s t : Slice) (d n : ℕ) → Agree s t d 0 (suc n) → Agree s t d 0 n
unfolding Agree
Agree-init s t d n h j lt = h j (omega arith)

Agree-end : (s t : Slice) (d n : ℕ) → Agree s t d 0 (suc n) → char_of s (d + n) ≡ char_of t n
Agree-end s t d n h =
    Agree-at s t d 0 (suc n) n h (omega arith) ∙ ap (char_of t) {x = 0 + n} {y = n} (omega arith)

pred-sum : (d i j : ℕ) → i ≡ d + suc j → i - 1 ≡ d + j
pred-sum d i j e = omega arith

ends_loop-Agree :
    (s p : Slice) (d i j : ℕ)
    → i ≡ d + j
    → s.start + i ≤ length s.object
    → p.start + j ≤ length p.object
    → Decides (ends_loop s p i j) (Agree s p d 0 j)
unfolding ends_loop Decides
ends_loop-Agree s p d i zero e a b = (true, (refl, ((λ e. Agree-none s p d 0), (λ h. refl))))
ends_loop-Agree s p d i (suc j) e a b =
    rw
      (
        pred-sum d i j e,
        slice_at-char_of s (d + j) (omega arith),
        slice_at-char_of p j (omega arith),
      )
      (elim (Bool-cases (char_of s (d + j) == char_of p j)) [
        | inl t ↦ rw t (
            let r = ends_loop-Agree s p d (d + j) j refl (omega arith) (omega arith) in
            (
              r.0,
              (
                r.1.0,
                (
                  (λ e. Agree-snoc s p d j (ground arith) (r.1.1.0 e)),
                  (λ h. r.1.1.1 (Agree-init s p d j h)),
                ),
              ),
            ))
        | inr f ↦ rw f (
          false,
          (
            refl,
            ((λ e. absurd (ground arith)), (λ h. absurd (ground (arith, Agree-end s p d j h)))),
          ),
        )
      ])

decided :
    (o : Outcome Bool) (P : Type 0) (s p : ℕ)
    → (p ≤ s → Decides o P)
    → Decides (if ltb s p then done false else o) ((p ≤ s) × P)
unfolding Decides
decided o P s p h = elim (dec_lt s p) [
  | yes lt ↦
      rw (lt→ltb s p lt)
        (false, (refl, ((λ e. absurd (ground arith)), (λ q. absurd (omega (arith, q.0))))))
  | no ge ↦ rw (le→ltb s p (omega arith)) (
      let r = h (omega arith) in
      (r.0, (r.1.0, ((λ e. (omega arith, r.1.1.0 e)), (λ q. r.1.1.1 q.1)))))
]

slice_starts_with-Decides :
    (s p : Slice)
    → Valid s
    → Valid p
    → Decides (slice_starts_with s p) ((p.size ≤ s.size) × Agree s p 0 0 p.size)
unfolding slice_starts_with Valid
slice_starts_with-Decides s p v w =
    decided _ _ s.size p.size (λ le. starts_loop-Agree s p p.size 0 (omega arith) (omega arith))

slice_ends_with-Decides :
    (s p : Slice)
    → Valid s
    → Valid p
    → Decides (slice_ends_with s p) ((p.size ≤ s.size) × Agree s p (s.size - p.size) 0 p.size)
unfolding slice_ends_with Valid
slice_ends_with-Decides s p v w =
    decided _ _ s.size p.size
      (λ le. ends_loop-Agree s p (s.size - p.size) s.size p.size (omega arith) v w)

-- For slices within their objects, `slice_starts_with` and `slice_ends_with` end without a
-- fault and answer whether the second slice is no longer than the first and agrees with it
-- from the start, or up to the end.
pub slice_starts_with-slice_ends_with :
    (s p : Slice)
    → Valid s
    → Valid p
    → Decides (slice_starts_with s p) ((p.size ≤ s.size) × Agree s p 0 0 p.size)
      × Decides (slice_ends_with s p) ((p.size ≤ s.size) × Agree s p (s.size - p.size) 0 p.size)
slice_starts_with-slice_ends_with s p v w =
    (slice_starts_with-Decides s p v w, slice_ends_with-Decides s p v w)
