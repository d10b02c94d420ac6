-- ===== src/Flyvec/Push.antt =====
-- `FLY_PUSH` of includes/ty_flyvec.h writes inside the elements, behind those there are.
use tyto_h.Base.{ℕ, zero, suc, ◌+◌, ◌-◌, ◌*◌, ◌/◌, ◌%◌, ◌^◌, ◌≤◌, ◌<◌, bit_and, ◌≡◌, refl}
use tyto_h.Base.{sym, ap, ◌∙◌, ◌⊎◌, inl, inr, Bool, true, false, ◌||◌, Option, none, some}
use tyto_h.Base.{List, [], ◌∷◌, ◌++◌, arith, ◌==◌, ltb, leb, lt→ltb, Bool-cases}
use tyto_h.Base.{Option-cases, ne→==, Outcome, length, set, take, length-set}
use tyto_h.Base.{done}
use tyto_h.Flyvec.{FlyVec, size_max, replaced, resize, store_at, push}
use native.Mathlib.Nat.{pow-suc, mul-le-mul_left, mul-div_cancel_left, mul-div-le, div-le_self}
use mathlib.Core.Path.{subst}
use tyto_h.Flyvec.Guards.{test_full, test_roomy, wanted, too_many, refused_capacity}

module _ {ℓ} {A : Type ℓ} where
  abbrev pub or_empty : Option (List A) → List A
  or_empty none = []
  or_empty (some xs) = xs

  -- What `realloc` is documented to do: memory of so many bytes with the old elements.
  unfoldable pub Reallocates : ℕ → (Option (List A) → ℕ → Option (List A)) → Type ℓ
  Reallocates element_size realloc =
      (old : Option (List A)) (new : List A) (bytes : ℕ)
      → realloc old bytes ≡ some new
      → (length new ≡ bytes / element_size)
        × ((n : ℕ)
            → n ≤ length (or_empty old)
            → n ≤ length new
            → take n new ≡ take n (or_empty old))

  -- The room for elements is the least power of two that is enough, or there is none yet.
  pub data Room : ℕ → Option (List A) → Type ℓ where
    unset : Room 0 none
    filled :
        (k len : ℕ) (xs : List A)
        → length xs ≡ 2 ^ k
        → len ≤ 2 ^ k
        → 2 ^ k < 2 * len
        → 2 ^ k < 2 ^ 64
        → Room len (some xs)

  -- The vector holds these elements.
  pub record Holds (v : FlyVec A) (cs : List A) : Type ℓ where
    pub room : Room v.len v.buffer
    pub held : take v.len (or_empty v.buffer) ≡ cs

  -- Room for one element more.
  record Grown (len : ℕ) (buffer : Option (List A)) (xs : List A) : Type ℓ where
    k : ℕ
    size : length xs ≡ 2 ^ k
    inside : len < 2 ^ k
    least : 2 ^ k < 2 * (len + 1)
    limited : 2 ^ k < 2 ^ 64
    kept : take len xs ≡ take len (or_empty buffer)

  -- A push is refused where all the room is in use, and there is no memory for twice as many
  -- elements, or their bytes are too many for a `size_t`.
  pub record Refusal (realloc : Option (List A) → ℕ → Option (List A)) (element_size : ℕ)
      (buffer : Option (List A)) (len : ℕ) : Type ℓ where
    pub full : len ≡ length (or_empty buffer)
    pub why :
        (realloc buffer (element_size * wanted len) ≡ none) ⊎ (size_max < element_size * wanted len)

  Resized :
      (realloc : Option (List A) → ℕ → Option (List A)) (element_size : ℕ)
      (buffer : Option (List A)) (len : ℕ)
      → Option (List A) × Bool
      → Type ℓ
  Resized realloc element_size buffer len r =
      ((r ≡ (buffer, false)) × Refusal realloc element_size buffer len)
      ⊎ ((xs : List A) × ((r ≡ (some xs, true)) × Grown len buffer xs))

  replaced-Grown :
      (realloc : Option (List A) → ℕ → Option (List A)) (element_size : ℕ)
      (buffer : Option (List A)) (len k : ℕ)
      → 0 < element_size
      → Reallocates element_size realloc
      → 2 ^ k ≤ size_max / element_size
      → len < 2 ^ k
      → 2 ^ k < 2 * (len + 1)
      → len ≡ length (or_empty buffer)
      → wanted len ≡ 2 ^ k
      → Resized realloc element_size buffer len
          (replaced buffer (realloc buffer (element_size * 2 ^ k % 2 ^ 64)))
  unfolding replaced Reallocates Resized
  replaced-Grown realloc element_size buffer len k some_size law fits lt least old want =
      let bytes = element_size * 2 ^ k % 2 ^ 64 in
      let small : element_size * 2 ^ k ≤ size_max = omega (
        arith,
        mul-le-mul_left {m = 2 ^ k} {n = size_max / element_size} element_size fits,
        mul-div-le size_max element_size,
      ) in
      let exact : bytes / element_size ≡ 2 ^ k =
        ap (λ n. n / element_size) {x = bytes} {y = element_size * 2 ^ k} (omega arith)
        ∙ mul-div_cancel_left (2 ^ k) some_size in
      elim (Option-cases (realloc buffer bytes)) [
        | inl e ↦ rw e (
            inl (
              refl,
              record {
                full = old;
                why = inl (
                    ap (realloc buffer) {x = element_size * wanted len} {y = bytes}
                      (ap (λ n. element_size * n) want ∙ omega arith)
                    ∙ e);
              },
            ))
        | inr e ↦
            let law' = law buffer e.0 bytes e.1 in
            rw e.1 (
              inr (
                e.0,
                (
                  refl,
                  record {
                    k = k;
                    size = law'.0 ∙ exact;
                    inside = lt;
                    least = least;
                    limited = omega (arith, fits, div-le_self size_max element_size);
                    kept = law'.1 len (omega (arith, old)) (omega (arith, law'.0, exact));
                  },
                ),
              ))
      ]

  resize-Resized :
      (realloc : Option (List A) → ℕ → Option (List A)) (element_size len : ℕ)
      (buffer : Option (List A))
      → 0 < element_size
      → Reallocates element_size realloc
      → Room len buffer
      → Resized realloc element_size buffer len (resize realloc element_size buffer len)
  unfolding resize Resized
  resize-Resized realloc element_size _ _ some_size law unset =
      elim (Bool-cases (ltb (size_max / element_size) 1 || leb 1 0)) [
        | inl t ↦ rw t (
            inl (
              refl,
              record { full = refl; why = inr (too_many element_size 1 some_size (ground arith)) },
            ))
        | inr f ↦ rw f (
            replaced-Grown realloc element_size none 0 0 some_size law (ground arith) (omega arith)
              (omega arith) refl refl)
      ]
  resize-Resized realloc element_size len _ some_size law (filled k _ xs size le lt lim) =
      let before : (len + size_max) % 2 ^ 64 ≡ len - 1 = omega arith in
      rw (before, ne→== len 0 (λ e. absurd (omega arith)))
        (elim (Bool-cases (bit_and len (len - 1) == 0)) [
          | inr f ↦ rw f (
              inr (
                xs,
                (
                  refl,
                  record {
                    k = k;
                    size = size;
                    inside = test_roomy k len le (λ e. absurd (ground arith));
                    least = omega arith;
                    limited = lim;
                    kept = refl;
                  },
                ),
              ))
          | inl t ↦
              let all : len ≡ 2 ^ k = test_full k len le lt (ground arith) in
              let want : wanted len ≡ 2 * len = rw (ne→== len 0 (λ e. absurd (omega arith))) refl in
              rw t
                (elim (Bool-cases (
                  ltb (size_max / element_size) (len * 2 % 2 ^ 64) || leb (len * 2 % 2 ^ 64) len)) [
                    | inl g ↦ rw g (
                        inl (
                          refl,
                          record {
                            full = all ∙ sym size;
                            why = inr (
                                subst (λ n. size_max < element_size * n) (sym want)
                                  (refused_capacity element_size len some_size (omega arith)
                                    (omega (arith, lim, le)) g));
                          },
                        ))
                    | inr g ↦
                        let double : len * 2 % 2 ^ 64 ≡ 2 ^ suc k = ground (arith, pow-suc 2 k) in
                        rw (g, double)
                          (replaced-Grown realloc element_size (some xs) len (suc k) some_size law
                            (ground arith) (omega (arith, pow-suc 2 k)) (omega (arith, pow-suc 2 k))
                            (all ∙ sym size) (want ∙ omega (arith, pow-suc 2 k)))
                  ])
        ])

  take-set :
      (xs : List A) (n : ℕ) (x : A)
      → n < length xs
      → take (suc n) (set xs n x) ≡ take n xs ++ x ∷ []
  take-set [] n x h = absurd (omega arith)
  take-set (y ∷ xs) zero x h = refl
  take-set (y ∷ xs) (suc n) x h = ap (λ ys. y ∷ ys) (take-set xs n x (omega arith))

  -- A push is refused and changes nothing, or the element stands behind the others.
  pub data Pushed (realloc : Option (List A) → ℕ → Option (List A)) (element_size : ℕ)
      (v : FlyVec A) (cs : List A) (x : A) : Outcome (FlyVec A × Bool) → Type ℓ where
    refused :
        Refusal realloc element_size v.buffer v.len
        → Pushed realloc element_size v cs x (done (v, false))
    pushed :
        (v' : FlyVec A)
        → Holds v' (cs ++ x ∷ [])
        → Pushed realloc element_size v cs x (done (v', true))

  -- `FLY_PUSH` on a vector that holds some elements, with a `realloc` that keeps what there
  -- is where it gives memory, does not fault: it is refused and changes nothing, where the room
  -- is all in use and there is no memory for twice as many elements or their bytes are too
  -- many for a `size_t`, or the vector then holds the new element behind the others, in room
  -- for the least power of two elements.
  pub push-Pushed :
      (realloc : Option (List A) → ℕ → Option (List A)) (element_size : ℕ) (v : FlyVec A)
      (cs : List A) (x : A)
      → 0 < element_size
      → Reallocates element_size realloc
      → Holds v cs
      → Pushed realloc element_size v cs x (push realloc element_size v x)
  unfolding push Resized store_at
  push-Pushed realloc element_size v cs x some_size law h =
      elim (resize-Resized realloc element_size v.len v.buffer some_size law h.room) [
        | inl e ↦ rw e.0 (Pushed.refused e.1)
        | inr e ↦
            let xs = e.0 in
            let g = e.1.1 in
            let inside : v.len < length xs = omega (arith, g.size, g.inside) in
            let next : (v.len + 1) % 2 ^ 64 ≡ suc v.len = omega (arith, g.inside, g.limited) in
            rw (e.1.0, lt→ltb v.len (length xs) inside)
              (Pushed.pushed (record { len = (v.len + 1) % 2 ^ 64; buffer = some (set xs v.len x) })
                (record {
                  room =
                      filled g.k ((v.len + 1) % 2 ^ 64) (set xs v.len x)
                        (length-set xs v.len x ∙ g.size) (omega (arith, g.inside, g.limited))
                        (omega (arith, g.inside, g.limited, g.least)) g.limited;
                  held =
                      ap (λ n. take n (set xs v.len x)) next
                      ∙ take-set xs v.len x inside
                      ∙ ap (λ ys. ys ++ x ∷ []) (g.kept ∙ h.held);
                }))
      ]
