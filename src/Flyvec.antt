-- ===== src/Flyvec.antt =====
-- The vector of two pointers of includes/ty_flyvec.h: the first is the length, the second the
-- elements. `realloc` is a parameter, on the elements and a number of bytes.
mod Guards
mod Push
mod Tests
use tyto_h.Base.{ℕ, ◌+◌, ◌*◌, ◌/◌, ◌%◌, ◌^◌, bit_and, Bool, true, false, ◌||◌, Option}
use tyto_h.Base.{none, some, List, ◌>>=◌, ◌==◌, if◌then◌else◌, ltb, leb, Outcome, need}
use tyto_h.Base.{length, set, done, fault}

pub record FlyVec {ℓ} (A : Type ℓ) : Type ℓ where
  pub len : ℕ
  pub buffer : Option (List A)

abbrev pub size_max : ℕ
size_max = 18446744073709551615

module _ {ℓ} {A : Type ℓ} where
  -- What `realloc` gives takes the place of the elements, if it gives anything.
  unfoldable pub replaced : Option (List A) → Option (List A) → Option (List A) × Bool
  replaced elements none = (elements, false)
  replaced elements (some allocation) = (some allocation, true)

  unfoldable pub resize :
      (realloc : Option (List A) → (bytes : ℕ) → Option (List A))
      → (element_size : ℕ) → Option (List A)
      → (len : ℕ) → Option (List A) × Bool
  resize realloc element_size elements len =
      let capacity = if len == 0 then 1 else len * 2 % 2 ^ 64 in
      let grown = replaced elements (realloc elements (element_size * capacity % 2 ^ 64)) in
      if bit_and len ((len + size_max) % 2 ^ 64) == 0
      then (if ltb (size_max / element_size) capacity || leb capacity len
          then (elements, false)
          else grown)
      else (elements, true)

  -- The write of the new element; a write outside the elements is a fault.
  unfoldable pub store_at : List A → ℕ → A → Outcome (List A)
  store_at xs i x = if ltb i (length xs) then done (set xs i x) else fault

  unfoldable pub push :
      (realloc : Option (List A) → (bytes : ℕ) → Option (List A))
      → (element_size : ℕ) → FlyVec A
      → A
      → Outcome (FlyVec A × Bool)
  push realloc element_size v x =
      let r = resize realloc element_size v.buffer v.len in
      let pushed =
        need r.0
        >>= (λ xs. store_at xs v.len x)
        >>= (λ xs. done (record { len = (v.len + 1) % 2 ^ 64; buffer = some xs }, true)) in
      if r.1 then pushed else done (record v { buffer = r.0 }, false)
