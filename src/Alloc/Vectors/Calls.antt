-- ===== src/Alloc/Vectors/Calls.antt =====
-- What each macro of the vector in includes/ty_alloc.h does to its elements.
use tyto_h.Base.{ℕ, ◌+◌, ◌%◌, ◌^◌, ◌≤◌, ◌<◌, ◌≡◌, refl, ap, ◌∙◌, Bool, true, false}
use tyto_h.Base.{Option, none, some, List, [], ◌∷◌, ◌++◌, arith, le→leb, Outcome, length}
use tyto_h.Base.{take, drop, length-append, length-take, length-drop, take_prefix, done}
use tyto_h.Alloc.Vectors.{Vector, vector_push, vector_push_n, vector_pop, vector_clear}
use tyto_h.Alloc.Vectors.{append_elements, write_elements}
use tyto_h.Alloc.Vectors.Room.{or_empty, Holds, Starved, Roomy}

pub data Op {ℓ} (A : Type ℓ) : Type ℓ where
  push : A → Op A
  push_n : (arr : List A) → (n : ℕ) → Op A
  pop : Op A
  clear : Op A

module _ {ℓ} {A : Type ℓ} where
  -- One of the macros; what it answers.
  unfoldable pub call :
      (remap : Option (List A) → ℕ → Option (List A)) (element_size : ℕ)
      → Vector A
      → Op A
      → Outcome (Vector A × Bool)
  call remap element_size v (Op.push x) = vector_push remap element_size v x
  call remap element_size v (Op.push_n arr n) = vector_push_n remap element_size v arr n
  call remap element_size v Op.pop = done (vector_pop v)
  call remap element_size v Op.clear = done (vector_clear v, true)

  -- The number of elements that a call puts in.
  unfoldable pub amount : Op A → ℕ
  amount (Op.push x) = 1
  amount (Op.push_n arr n) = n
  amount Op.pop = 0
  amount Op.clear = 0

  -- At least one element is pushed, and the array has so many.
  unfoldable pub Legal : Op A → Type 0
  Legal (Op.push x) = Unit
  Legal (Op.push_n arr n) = (0 < n) × (n ≤ length arr)
  Legal Op.pop = Unit
  Legal Op.clear = Unit

  -- The answer of a call on a vector that holds `cs`, and what the vector holds then.
  pub data Answered (element_size : ℕ) (remap : Option (List A) → ℕ → Option (List A))
      (v : Vector A) (cs : List A) : Op A → Bool → List A → Type ℓ where
    pushed : (x : A) → Answered element_size remap v cs (Op.push x) true (cs ++ x ∷ [])
    push_refused :
        (x : A)
        → Starved element_size remap v 1
        → Answered element_size remap v cs (Op.push x) false cs
    pushed_n :
        (arr : List A) (n : ℕ)
        → Answered element_size remap v cs (Op.push_n arr n) true (cs ++ take n arr)
    push_n_refused :
        (arr : List A) (n : ℕ)
        → Starved element_size remap v n
        → Answered element_size remap v cs (Op.push_n arr n) false cs
    popped :
        (ds : List A) (x : A) → cs ≡ ds ++ x ∷ [] → Answered element_size remap v cs Op.pop true ds
    pop_refused : cs ≡ [] → Answered element_size remap v cs Op.pop false cs
    cleared : Answered element_size remap v cs Op.clear true []

  write_elements-done :
      (o : Option (List A)) (i : ℕ) (ys : List A)
      → 0 < length ys
      → i + length ys ≤ length (or_empty o)
      → write_elements o i ys
        ≡ done (take i (or_empty o) ++ ys ++ drop (i + length ys) (or_empty o))
  unfolding write_elements
  write_elements-done none i ys some_elements h = absurd (omega arith)
  write_elements-done (some xs) i ys some_elements h =
      rw (le→leb (i + length ys) (length xs) h) refl

  pub append_elements-Holds :
      (v w : Vector A) (cs ys : List A)
      → Roomy v w cs (length ys)
      → 0 < length ys
      → v.size + length ys < 2 ^ 64
      → (t : Vector A) × ((append_elements w ys ≡ done (t, true))
          × (Holds t (cs ++ ys) × (t.size ≡ v.size + length ys)))
  unfolding append_elements
  append_elements-Holds v w cs ys r some_elements lim =
      let old = or_empty w.elements in
      let full = take w.size old ++ ys ++ drop (w.size + length ys) old in
      let count : length (take w.size old) ≡ w.size =
        omega (arith, length-take w.size old, r.holds.room, r.holds.fits) in
      let total : length full ≡ w.capacity = omega (
        arith,
        length-append (take w.size old ++ ys) (drop (w.size + length ys) old),
        length-append (take w.size old) ys,
        length-drop (w.size + length ys) old,
        count,
        r.holds.room,
        r.same,
        r.enough,
      ) in
      let size : (w.size + length ys) % 2 ^ 64 ≡ v.size + length ys = omega (arith, r.same) in
      rw
        (write_elements-done w.elements w.size ys some_elements
          (omega (arith, r.same, r.enough, r.holds.room)))
        (
          record {
            size = (w.size + length ys) % 2 ^ 64;
            elements = some full;
            capacity = w.capacity;
          },
          (
            refl,
            (
              record {
                room = total;
                fits = omega (arith, size, r.enough);
                held =
                    take_prefix (take w.size old ++ ys) (drop (w.size + length ys) old)
                      ((w.size + length ys) % 2 ^ 64)
                      (omega (arith, length-append (take w.size old) ys, count, size, r.same))
                    ∙ ap (λ xs. xs ++ ys) r.holds.held;
              },
              size,
            ),
          ),
        )
