-- ===== src/Argparse/Total.antt =====
-- `arg_next` of includes/ty_argparse.h returns, and reads no character behind an argument.
use tyto_h.Base.{ℕ, zero, suc, ◌+◌, ◌≤◌, ◌<◌, ◌≡◌, refl, sym, ap, ◌∙◌, ◌≢◌, ◌⊎◌, inl, inr}
use tyto_h.Base.{Bool, true, false, List, [], ◌∷◌, arith, ◌==◌, if◌then◌else◌, ltb}
use tyto_h.Base.{Bool-cases, Outcome, length, drop, done}
use mathlib.Core.Bool.{true≢false}
use tyto_h.Argparse.{
  Arg, Context, char_at, next_short, next_positional, next_fresh, next_of, arg_next,
}

-- The place in a group of short options lies inside the first argument that is left.
unfoldable pub Placed : Context → Type 0
Placed c =
    (c.short_index ≡ 0)
    ⊎ ((c.only_pos ≡ false)
        × ((s : List ℕ) × ((rest : List (List ℕ)) × ((c.args ≡ s ∷ rest)
                × (c.short_index < length s)))))

-- A step of the parser returns, and leaves a context in which the next step can start.
unfoldable pub Steps : Outcome (Arg × Context) → Type 0
Steps o = (r : Arg × Context) × ((o ≡ done r) × Placed r.1)

char_at-done :
    (s : List ℕ) (i : ℕ)
    → i ≤ length s
    → (x : ℕ) × ((char_at s i ≡ done x) × (x ≢ 0 → i < length s))
unfolding char_at
char_at-done [] zero h = (0, (refl, (λ ne. absurd (ne refl))))
char_at-done [] (suc i) h = absurd (omega arith)
char_at-done (y ∷ s) zero h = (y, (refl, (λ ne. omega arith)))
char_at-done (y ∷ s) (suc i) h =
    let r = char_at-done s i (omega arith) in (r.0, (r.1.0, (λ ne. omega (arith, r.1.1 ne))))

next_short-Steps :
    (c : Context) (s : List ℕ) (rest : List (List ℕ))
    → c.only_pos ≡ false
    → c.args ≡ s ∷ rest
    → c.short_index < length s
    → Steps (next_short c s rest)
unfolding next_short Steps Placed
next_short-Steps c s rest op e lt =
    let x = char_at-done s c.short_index (omega arith) in
    let y = char_at-done s (c.short_index + 1) (omega arith) in
    rw (x.1.0, y.1.0)
      (elim (Bool-cases (y.0 == 0)) [
        | inl t ↦ rw t (_, (refl, inl refl))
        | inr f ↦ rw f (_, (refl, inr (op, (s, (rest, (e, y.1.1 (λ z. absurd (ground arith))))))))
      ])

abbrev head_length : List (List ℕ) → ℕ
head_length [] = 0
head_length (s ∷ rest) = length s

in_group :
    (c : Context) (s : List ℕ) (rest : List (List ℕ))
    → c.args ≡ s ∷ rest
    → c.short_index ≢ 0
    → Placed c
    → c.short_index < length s
unfolding Placed
in_group c s rest e ne (inl z) = absurd (ne z)
in_group c s rest e ne (inr (op, (t, (more, (e', lt))))) =
    omega (arith, lt, ap head_length (sym e' ∙ e))

positional-Steps :
    (c : Context) (s : List ℕ) (rest : List (List ℕ))
    → c.short_index ≡ 0
    → Steps (done (next_positional c s rest))
unfolding next_positional Steps Placed
positional-Steps c s rest z = (_, (refl, inl z))

only_pos-zero : (c : Context) → c.only_pos ≡ true → Placed c → c.short_index ≡ 0
unfolding Placed
only_pos-zero c op (inl z) = z
only_pos-zero c op (inr (no_pos, _)) = absurd (true≢false (sym op ∙ no_pos))

if-Steps :
    (b : Bool) (x y : Outcome (Arg × Context))
    → (b ≡ true → Steps x)
    → (b ≡ false → Steps y)
    → Steps (if b then x else y)
if-Steps true x y t f = t refl
if-Steps false x y t f = f refl

next_of-Steps :
    (again : Context → Outcome (Arg × Context)) (c : Context) (xs : List (List ℕ))
    → c.args ≡ xs
    → Placed c
    → ((s : List ℕ) (rest : List (List ℕ))
        → c.only_pos ≡ false
        → c.short_index ≡ 0
        → c.args ≡ s ∷ rest
        → Steps (next_fresh again c s rest))
    → Steps (next_of again c xs)
unfolding next_of Steps
next_of-Steps again c [] e p fresh = (_, (refl, p))
next_of-Steps again c (s ∷ rest) e p fresh =
    if-Steps c.only_pos _ _ (λ op. positional-Steps c s rest (only_pos-zero c op p))
      (λ op.
        if-Steps (ltb 0 c.short_index) _ _
          (λ t. next_short-Steps c s rest op e (in_group c s rest e (λ z. absurd (ground arith)) p))
          (λ f. fresh s rest op (ground arith) e))

long-Steps :
    (c : Context) (s : List ℕ) (rest : List (List ℕ))
    → c.short_index ≡ 0
    → Steps (
        done (
          Arg.long (drop 2 s),
          record { only_pos = c.only_pos; short_index = c.short_index; args = rest },
        ))
unfolding Steps Placed
long-Steps c s rest z = (_, (refl, inl z))

next_fresh-Steps :
    (again : Context → Outcome (Arg × Context)) (c : Context) (s : List ℕ) (rest : List (List ℕ))
    → c.short_index ≡ 0
    → Steps (again (record { only_pos = true; short_index = c.short_index; args = rest }))
    → (1 < length s
        → Steps (again (record { only_pos = c.only_pos; short_index = 1; args = c.args })))
    → Steps (next_fresh again c s rest)
unfolding next_fresh Placed
next_fresh-Steps again c s rest z dashes group =
    let x = char_at-done s 0 (omega arith) in
    rw (x.1.0) (
      if-Steps (x.0 == 45) _ _
        (λ t.
          let y = char_at-done s 1 (x.1.1 (λ e. absurd (ground arith))) in
          rw (y.1.0) (
            if-Steps (y.0 == 0) _ _ (λ t1. positional-Steps c s rest z)
              (λ f1.
                let long_enough = y.1.1 (λ e. absurd (ground arith)) in
                if-Steps (y.0 == 45) _ _
                  (λ t2.
                    let w = char_at-done s 2 long_enough in
                    rw (w.1.0)
                      (if-Steps (w.0 == 0) _ _ (λ t3. dashes) (λ f3. long-Steps c s rest z)))
                  (λ f2. group long_enough))))
        (λ f. positional-Steps c s rest z))

-- The second pass behind the argument "--" reads no fresh argument.
after_dashes :
    (fuel : ℕ) (c : Context) (rest : List (List ℕ))
    → c.short_index ≡ 0
    → Steps
        (arg_next (suc fuel) (record { only_pos = true; short_index = c.short_index; args = rest }))
unfolding arg_next Placed
after_dashes fuel c rest z =
    next_of-Steps (arg_next fuel)
      (record { only_pos = true; short_index = c.short_index; args = rest }) rest refl (inl z)
      (λ s more op. absurd (true≢false op))

-- Nor does the second pass at the start of a group of short options.
in_new_group :
    (fuel : ℕ) (c : Context) (s : List ℕ) (rest : List (List ℕ))
    → c.only_pos ≡ false
    → c.args ≡ s ∷ rest
    → 1 < length s
    → Steps (arg_next (suc fuel) (record { only_pos = c.only_pos; short_index = 1; args = c.args }))
unfolding arg_next Placed
in_new_group fuel c s rest op e lt =
    next_of-Steps (arg_next fuel) (record { only_pos = c.only_pos; short_index = 1; args = c.args })
      c.args refl (inr (op, (s, (rest, (e, lt))))) (λ t more op' z. absurd (omega (arith, z)))

-- From a context whose place in a group of short options is inside its first argument,
-- `arg_next` returns after at most two passes of `start_label`, reads no character behind an
-- argument, and leaves such a context again.
pub arg_next-Steps : (fuel : ℕ) (c : Context) → Placed c → Steps (arg_next (suc (suc fuel)) c)
unfolding arg_next
arg_next-Steps fuel c p = next_of-Steps (arg_next (suc fuel)) c c.args refl p (λ s rest op z e.
    next_fresh-Steps (arg_next (suc fuel)) c s rest z (after_dashes fuel c rest z)
      (in_new_group fuel c s rest op e))
