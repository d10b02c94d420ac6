-- ===== src/Alloc/Vectors.antt =====
-- The vector of includes/ty_alloc.h and `Vector_ensure` of src/ty_alloc.c. Its buffer is the
-- list of the elements that it has room for, or the null pointer. `remap` of its allocator is a
-- parameter: what it answers for a buffer and a number of bytes, `none` for the null pointer.
pub mod Room
pub mod Calls
pub mod Runs
mod Tests
use tyto_h.Base.{ℕ, ◌+◌, ◌-◌, ◌*◌, ◌%◌, ◌^◌, Bool, true, false, Option, none, some, List}
use tyto_h.Base.{[], ◌∷◌, ◌++◌, ◌>>=◌, ◌==◌, if◌then◌else◌, ltb, leb, Outcome, length}
use tyto_h.Base.{take, drop, done, fault}
use tyto_h.Alloc.{double_loop}

pub record Vector {ℓ} (A : Type ℓ) : Type ℓ where
  pub size : ℕ
  pub elements : Option (List A)
  pub capacity : ℕ

module _ {ℓ} {A : Type ℓ} where
  unfoldable pub vector_init : Vector A
  vector_init = record { size = 0; elements = none; capacity = 0 }

  unfoldable pub vector_grown : Vector A → (new_capacity : ℕ) → Option (List A) → Vector A × Bool
  vector_grown v new_capacity none = (v, false)
  vector_grown v new_capacity (some xs) =
      (record { size = v.size; elements = some xs; capacity = new_capacity }, true)

  -- The doubling of the capacity takes 65 rounds at most.
  unfoldable pub vector_ensure :
      (remap : Option (List A) → (bytes : ℕ) → Option (List A))
      → (element_size : ℕ) → Vector A
      → (add_count : ℕ) → Outcome (Vector A × Bool)
  vector_ensure remap element_size v add_count =
      let needed = (v.size + add_count) % 2 ^ 64 in
      let grown =
        double_loop 65 (if v.capacity == 0 then 16 else v.capacity) needed
        >>= (λ n. done (vector_grown v n (remap v.elements (n * element_size % 2 ^ 64)))) in
      if leb needed v.capacity then done (v, true) else grown

  -- A write of some elements; outside the buffer it is a fault.
  unfoldable pub write_elements : Option (List A) → ℕ → List A → Outcome (List A)
  write_elements none i ys = fault
  write_elements (some xs) i ys =
      if leb (i + length ys) (length xs)
      then done (take i xs ++ ys ++ drop (i + length ys) xs)
      else fault

  -- What `Vector_push` and `Vector_pushN` do behind `Vector_ensure`.
  unfoldable pub append_elements : Vector A → List A → Outcome (Vector A × Bool)
  append_elements v ys = write_elements v.elements v.size ys >>= (λ xs. done (
    record { size = (v.size + length ys) % 2 ^ 64; elements = some xs; capacity = v.capacity },
    true,
  ))

  unfoldable pub vector_push :
      (remap : Option (List A) → (bytes : ℕ) → Option (List A))
      → (element_size : ℕ) → Vector A
      → A
      → Outcome (Vector A × Bool)
  vector_push remap element_size v x =
      vector_ensure remap element_size v 1
      >>= (λ r. let stored = append_elements r.0 (x ∷ []) in if r.1 then stored else done r)

  -- `memcpy` reads `n` elements of an array.
  unfoldable pub read_elements : List A → (n : ℕ) → Outcome (List A)
  read_elements arr n = if leb n (length arr) then done (take n arr) else fault

  unfoldable pub vector_push_n :
      (remap : Option (List A) → (bytes : ℕ) → Option (List A))
      → (element_size : ℕ) → Vector A
      → (arr : List A) → (n : ℕ) → Outcome (Vector A × Bool)
  vector_push_n remap element_size v arr n = vector_ensure remap element_size v n >>= (λ r.
      let stored = read_elements arr n >>= append_elements r.0 in if r.1 then stored else done r)

  unfoldable pub vector_pop : Vector A → Vector A × Bool
  vector_pop v = if ltb 0 v.size then (record v { size = v.size - 1 }, true) else (v, false)

  unfoldable pub vector_clear : Vector A → Vector A
  vector_clear v = record v { size = 0 }

  -- The vector, and the buffer that is given back to the allocator.
  unfoldable pub vector_deinit : Vector A → Vector A × Option (List A)
  vector_deinit v = (record { size = 0; elements = none; capacity = 0 }, v.elements)
