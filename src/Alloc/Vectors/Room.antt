-- ===== src/Alloc/Vectors/Room.antt =====
-- `Vector_ensure` of src/ty_alloc.c makes room, or says that there is none.
use tyto_h.Base.{ℕ, zero, suc, ◌+◌, ◌*◌, ◌/◌, ◌%◌, ◌^◌, ◌≤◌, ◌<◌, ◌≡◌, refl, sym, ap, ◌∙◌}
use tyto_h.Base.{◌⊎◌, inl, inr, true, false, Option, none, some, List, [], arith, ◌==◌}
use tyto_h.Base.{if◌then◌else◌, lt→ltb, le→ltb, le→leb, lt→leb, Option-cases, length}
use tyto_h.Base.{take, take-take, done}
use native.Mathlib.Nat.{
  mul-le-mul_right, mul-le-mul_left, mul-div_cancel_left, mul_comm, mul_assoc, pow-suc,
}
use native.Mathlib.Decide.{dec_lt}
use tyto_h.Alloc.{double_loop}
use tyto_h.Alloc.Vectors.{Vector, vector_ensure, vector_grown}

doubled : (size needed k : ℕ) → needed ≤ size * 2 ^ suc k → needed ≤ size * 2 * 2 ^ k
doubled size needed k h = omega (
  arith,
  h,
  ap (λ (t : ℕ). size * t) (pow-suc 2 k),
  mul_assoc size 2 (2 ^ k),
  ap (λ (t : ℕ). size * t) (mul_comm (2 ^ k) 2),
)

-- The loop that doubles a size ends, with room enough and no more than twice as much.
pub double_loop-done :
    (fuel size needed : ℕ)
    → 0 < size
    → needed ≤ size * 2 ^ fuel
    → needed ≤ 2 ^ 63
    → (n : ℕ) × ((double_loop (suc fuel) size needed ≡ done n)
        × ((size ≤ n) × ((needed ≤ n) × ((n ≡ size) ⊎ (n < 2 * needed)))))
unfolding double_loop
double_loop-done zero size needed some_size enough lim =
    rw (le→ltb size needed (omega arith)) (size, (refl, (omega arith, (omega arith, inl refl))))
double_loop-done (suc fuel) size needed some_size enough lim = elim (dec_lt size needed) [
  | no le ↦
      rw (le→ltb size needed (omega arith)) (size, (refl, (omega arith, (omega arith, inl refl))))
  | yes lt ↦
      let whole : size * 2 % 2 ^ 64 ≡ size * 2 = omega arith in
      let (n, (runs, (more, (room, bound)))) =
        double_loop-done fuel (size * 2) needed (omega arith) (doubled size needed fuel enough)
          lim in
      rw (lt→ltb size needed lt, whole)
        (n, (runs, (omega arith, (room, inr (elim bound [ inl e ↦ omega arith | inr b ↦ b ])))))
]

-- The loop of `Vector_ensure` gives a capacity whose bytes fit a `size_t`.
new_capacity :
    (capacity needed element_size : ℕ)
    → 0 < element_size
    → capacity < needed
    → (2 * needed + 16) * element_size < 2 ^ 64
    → (k : ℕ) × ((double_loop 65 (if capacity == 0 then 16 else capacity) needed ≡ done k)
        × ((needed ≤ k)
            × ((k * element_size < 2 ^ 64) × (capacity * element_size ≤ k * element_size))))
new_capacity capacity needed element_size some_size small lim =
    let start = if capacity == 0 then 16 else capacity in
    let start_pos : 0 < start = ground arith in
    let start_top : start ≤ 2 * needed + 16 = ground arith in
    let top = mul-le-mul_left {m = 1} {n = element_size} (2 * needed + 16) some_size in
    let (k, (runs, (above, (room, bound)))) =
      double_loop-done 64 start needed start_pos (omega (arith, start_pos, top))
        (omega (arith, top)) in
    let most : k ≤ 2 * needed + 16 = elim bound [
      | inl e ↦ omega (arith, e, start_top)
      | inr b ↦ omega (arith, b)
    ] in
    let bytes = mul-le-mul_right {m = k} {n = 2 * needed + 16} element_size most in
    (
      k,
      (
        runs,
        (
          room,
          (
            omega (arith, bytes),
            mul-le-mul_right {m = capacity} {n = k} element_size (omega (arith, room)),
          ),
        ),
      ),
    )

module _ {ℓ} {A : Type ℓ} where
  abbrev pub or_empty : Option (List A) → List A
  or_empty none = []
  or_empty (some xs) = xs

  -- What `remap` is documented to do: a buffer of so many bytes with the old elements.
  unfoldable pub Remaps : ℕ → (Option (List A) → ℕ → Option (List A)) → Type ℓ
  Remaps element_size remap =
      (old : Option (List A)) (new : List A) (bytes : ℕ)
      → length (or_empty old) * element_size ≤ bytes
      → remap old bytes ≡ some new
      → (length new ≡ bytes / element_size) × (take (length (or_empty old)) new ≡ or_empty old)

  -- The vector holds these elements, in a buffer of its capacity.
  pub record Holds (v : Vector A) (cs : List A) : Type ℓ where
    pub room : length (or_empty v.elements) ≡ v.capacity
    pub fits : v.size ≤ v.capacity
    pub held : take v.size (or_empty v.elements) ≡ cs

  -- There is no room for `n` elements more, and no memory for them.
  unfoldable pub Starved : ℕ → (Option (List A) → ℕ → Option (List A)) → Vector A → (n : ℕ) → Type ℓ
  Starved element_size remap v n =
      (v.capacity < v.size + n)
      × ((capacity : ℕ) × ((v.size + n ≤ capacity)
            × (remap v.elements (capacity * element_size) ≡ none)))

  -- What the vector is when there is room.
  pub record Roomy (v w : Vector A) (cs : List A) (n : ℕ) : Type ℓ where
    pub same : w.size ≡ v.size
    pub enough : v.size + n ≤ w.capacity
    pub holds : Holds w cs

  pub vector_ensure-Roomy :
      (remap : Option (List A) → ℕ → Option (List A)) (element_size : ℕ) (v : Vector A)
      (cs : List A) (n : ℕ)
      → 0 < element_size
      → Remaps element_size remap
      → Holds v cs
      → (2 * (v.size + n) + 16) * element_size < 2 ^ 64
      → ((vector_ensure remap element_size v n ≡ done (v, false)) × Starved element_size remap v n)
        ⊎ ((w : Vector A) × ((vector_ensure remap element_size v n ≡ done (w, true))
              × Roomy v w cs n))
  unfolding vector_ensure vector_grown Remaps Starved
  vector_ensure-Roomy remap element_size v cs n some_size law h lim =
      let top = mul-le-mul_left {m = 1} {n = element_size} (2 * (v.size + n) + 16) some_size in
      let whole : (v.size + n) % 2 ^ 64 ≡ v.size + n = omega (arith, top) in
      elim (dec_lt v.capacity (v.size + n)) [
        | no le ↦
            rw (whole, le→leb (v.size + n) v.capacity (omega arith))
              (inr (v, (refl, record { same = refl; enough = omega arith; holds = h })))
        | yes lt ↦
            let (k, (runs, (room, (bytes, more)))) =
              new_capacity v.capacity (v.size + n) element_size some_size lt lim in
            let exact : k * element_size % 2 ^ 64 ≡ k * element_size = omega (arith, bytes) in
            rw (whole, lt→leb (v.size + n) v.capacity lt, runs, exact)
              (elim (Option-cases (remap v.elements (k * element_size))) [
                | inl e ↦ rw e (inl (refl, (lt, (k, (room, e)))))
                | inr (xs, e) ↦
                    let (len, kept) =
                      law v.elements xs (k * element_size)
                        (omega (arith, more, ap (λ (t : ℕ). t * element_size) h.room)) e in
                    let count : length xs ≡ k =
                      len
                      ∙ ap (λ (t : ℕ). t / element_size) (mul_comm k element_size)
                      ∙ mul-div_cancel_left k some_size in
                    rw e (
                      inr (
                        record { size = v.size; elements = some xs; capacity = k },
                        (
                          refl,
                          record {
                            same = refl;
                            enough = room;
                            holds = record {
                              room = count;
                              fits = omega (arith, room);
                              held =
                                  sym (
                                    take-take xs v.size (length (or_empty v.elements))
                                      (omega (arith, h.room, h.fits)))
                                  ∙ ap (take v.size) kept
                                  ∙ h.held;
                            };
                          },
                        ),
                      ))
              ])
      ]
