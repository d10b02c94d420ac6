-- ===== src/Alloc/Vectors/Runs.antt =====
-- Runs of the vector in includes/ty_alloc.h against a list of its elements.
use tyto_h.Base.{ℕ, zero, suc, ◌+◌, ◌-◌, ◌*◌, ◌^◌, ◌≤◌, ◌<◌, ◌≡◌, refl, sym, ap, ◌∙◌, ◌⊎◌}
use tyto_h.Base.{inl, inr, Bool, true, false, Option, List, [], ◌∷◌, ◌++◌, arith, ◌>>=◌}
use tyto_h.Base.{if◌then◌else◌, lt→ltb, le→ltb, le→leb, Outcome, length, take}
use tyto_h.Base.{length-take, done}
use native.Mathlib.Decide.{dec_lt}
use mathlib.Core.Path.{subst}
use native.Mathlib.Nat.{mul-le-mul_left, mul-le-mul_right}
use tyto_h.Alloc.Vectors.{Vector, vector_push, vector_push_n, vector_pop, vector_clear}
use tyto_h.Alloc.Vectors.{read_elements, append_elements, vector_ensure}
use tyto_h.Alloc.Vectors.Room.{or_empty, Remaps, Holds, Starved, Roomy, vector_ensure-Roomy}
use tyto_h.Alloc.Vectors.Calls.{Op, call, amount, Legal, Answered, append_elements-Holds}

module _ {ℓ} {A : Type ℓ} where
  -- The last of some elements.
  take_last :
      (xs : List A) (m : ℕ) → m < length xs → (x : A) × (take (suc m) xs ≡ take m xs ++ x ∷ [])
  take_last [] m h = absurd (omega arith)
  take_last (x ∷ xs) zero h = (x, refl)
  take_last (x ∷ xs) (suc m) h = let (y, e) = take_last xs m (omega arith) in (y, ap (λ t. x ∷ t) e)

  -- A call that ends, and what it leaves.
  record Ended (remap : Option (List A) → ℕ → Option (List A)) (element_size : ℕ) (v : Vector A)
      (cs : List A) (op : Op A) : Type ℓ where
    after : Vector A
    answer : Bool
    held : List A
    runs : call remap element_size v op ≡ done (after, answer)
    holds : Holds after held
    answered : Answered element_size remap v cs op answer held
    small : after.size ≤ v.size + amount op

  -- What both pushes do behind `Vector_ensure`.
  filled :
      (remap : Option (List A) → ℕ → Option (List A)) (element_size : ℕ) (v : Vector A)
      (cs ys : List A) (n : ℕ) (chars : Outcome (List A))
      → 0 < element_size
      → Remaps element_size remap
      → Holds v cs
      → 0 < n
      → length ys ≡ n
      → chars ≡ done ys
      → (2 * (v.size + n) + 16) * element_size < 2 ^ 64
      → let stored =
          vector_ensure remap element_size v n
          >>= (λ r. let stored = chars >>= append_elements r.0 in if r.1 then stored else done r) in
        ((stored ≡ done (v, false)) × Starved element_size remap v n)
        ⊎ ((t : Vector A) × ((stored ≡ done (t, true))
              × (Holds t (cs ++ ys) × (t.size ≡ v.size + n))))
  filled remap element_size v cs ys n chars some_size law h some_elements len read lim =
      let top = mul-le-mul_left {m = 1} {n = element_size} (2 * (v.size + n) + 16) some_size in
      elim (vector_ensure-Roomy remap element_size v cs n some_size law h lim) [
        | inl (e, starved) ↦ rw e (inl (refl, starved))
        | inr (w, (e, r)) ↦
            let room : Roomy v w cs (length ys) = subst (λ m. Roomy v w cs m) (sym len) r in
            let (t, (runs, (holds, size))) =
              append_elements-Holds v w cs ys room (omega (arith, len)) (omega (arith, len, top)) in
            rw (e, read) (inr (t, (runs, (holds, size ∙ omega (arith, len)))))
      ]

  read_elements-done :
      (arr : List A) (n : ℕ) → n ≤ length arr → read_elements arr n ≡ done (take n arr)
  unfolding read_elements
  read_elements-done arr n h = rw (le→leb n (length arr) h) refl

  call-Ended :
      (remap : Option (List A) → ℕ → Option (List A)) (element_size : ℕ) (v : Vector A)
      (cs : List A) (op : Op A)
      → 0 < element_size
      → Remaps element_size remap
      → Holds v cs
      → Legal op
      → (2 * (v.size + amount op) + 16) * element_size < 2 ^ 64
      → Ended remap element_size v cs op
  unfolding call amount Legal vector_push vector_push_n vector_pop vector_clear
  call-Ended remap element_size v cs (Op.push x) some_size law h legal lim =
      elim (filled remap element_size v cs (x ∷ []) 1 (done (x ∷ [])) some_size law h (omega arith)
        refl refl lim) [
          | inl (e, starved) ↦ record {
            after = v;
            answer = false;
            held = cs;
            runs = e;
            holds = h;
            answered = Answered.push_refused x starved;
            small = omega arith;
          }
          | inr (t, (e, (holds, size))) ↦ record {
            after = t;
            answer = true;
            held = cs ++ x ∷ [];
            runs = e;
            holds = holds;
            answered = Answered.pushed x;
            small = omega (arith, size);
          }
        ]
  call-Ended remap element_size v cs (Op.push_n arr n) some_size law h (some_elements, there) lim =
      let len : length (take n arr) ≡ n = omega (arith, length-take n arr) in
      elim (filled remap element_size v cs (take n arr) n (read_elements arr n) some_size law h
        some_elements len (read_elements-done arr n there) lim) [
          | inl (e, starved) ↦ record {
            after = v;
            answer = false;
            held = cs;
            runs = e;
            holds = h;
            answered = Answered.push_n_refused arr n starved;
            small = omega arith;
          }
          | inr (t, (e, (holds, size))) ↦ record {
            after = t;
            answer = true;
            held = cs ++ take n arr;
            runs = e;
            holds = holds;
            answered = Answered.pushed_n arr n;
            small = omega (arith, size);
          }
        ]
  call-Ended remap element_size v cs Op.pop some_size law h legal lim = elim (dec_lt 0 v.size) [
    | no none_left ↦ record {
      after = v;
      answer = false;
      held = cs;
      runs = rw (le→ltb 0 v.size (omega arith)) refl;
      holds = h;
      answered =
          Answered.pop_refused (
            sym h.held ∙ ap (λ n. take n (or_empty v.elements)) {x = v.size} {y = 0} (omega arith));
      small = omega arith;
    }
    | yes some_left ↦
        let xs = or_empty v.elements in
        let (x, last) = take_last xs (v.size - 1) (omega (arith, h.room, h.fits)) in
        record {
          after = record v { size = v.size - 1 };
          answer = true;
          held = take (v.size - 1) xs;
          runs = rw (lt→ltb 0 v.size some_left) refl;
          holds = record { room = h.room; fits = omega (arith, h.fits); held = refl };
          answered = Answered.popped (take (v.size - 1) xs) x (
              sym h.held
              ∙ ap (λ n. take n xs) {x = v.size} {y = suc (v.size - 1)} (omega arith)
              ∙ last);
          small = omega arith;
        }
  ]
  call-Ended remap element_size v cs Op.clear some_size law h legal lim = record {
    after = vector_clear v;
    answer = true;
    held = [];
    runs = refl;
    holds = record { room = h.room; fits = omega arith; held = refl };
    answered = Answered.cleared;
    small = omega arith;
  }

  unfoldable pub total : List (Op A) → ℕ
  total [] = 0
  total (op ∷ ops) = amount op + total ops

  unfoldable pub AllLegal : List (Op A) → Type 0
  AllLegal [] = Unit
  AllLegal (op ∷ ops) = Legal op × AllLegal ops

  -- Calls one after the other: the vector, what it holds, the calls, and in the end the vector
  -- with what it holds.
  pub data Run (remap : Option (List A) → ℕ → Option (List A)) (element_size : ℕ)
      : Vector A → List A → List (Op A) → Vector A → List A → Type ℓ where
    stop : (v : Vector A) (cs : List A) → Run remap element_size v cs [] v cs
    step :
        (v t u : Vector A) (cs ds es : List A) (op : Op A) (ops : List (Op A)) (answer : Bool)
        → call remap element_size v op ≡ done (t, answer)
        → Answered element_size remap v cs op answer ds
        → Run remap element_size t ds ops u es
        → Run remap element_size v cs (op ∷ ops) u es

  -- Any calls of the macros, each push of at least one element, on a vector that holds a list,
  -- with elements of some bytes, twice the number of all elements and 16 more of them below
  -- 2^64 bytes, and a remap that keeps the old elements where it does not fail: every call
  -- ends without a fault. A push is answered by true and puts its elements behind the list, or
  -- by false, this only where there is no room and remap fails, and changes nothing; a pop
  -- takes the last element, or is answered by false if there is none; a clear leaves none. The
  -- vector holds the list that is left.
  pub calls-Run :
      (remap : Option (List A) → ℕ → Option (List A)) (element_size : ℕ) (v : Vector A)
      (cs : List A) (ops : List (Op A))
      → 0 < element_size
      → Remaps element_size remap
      → Holds v cs
      → AllLegal ops
      → (2 * (v.size + total ops) + 16) * element_size < 2 ^ 64
      → (t : Vector A) × ((ds : List A) × (Run remap element_size v cs ops t ds × Holds t ds))
  unfolding total AllLegal
  calls-Run remap element_size v cs [] some_size law h legal lim = (v, (cs, (Run.stop v cs, h)))
  calls-Run remap element_size v cs (op ∷ ops) some_size law h (legal, rest) lim =
      let now =
        mul-le-mul_right {m = 2 * (v.size + amount op) + 16}
          {n = 2 * (v.size + (amount op + total ops)) + 16} element_size (omega arith) in
      let r =
        call-Ended remap element_size v cs op some_size law h legal (omega (arith, now, lim)) in
      let later =
        mul-le-mul_right {m = 2 * (r.after.size + total ops) + 16}
          {n = 2 * (v.size + (amount op + total ops)) + 16} element_size (omega (arith, r.small)) in
      let (t, (ds, (run, holds))) =
        calls-Run remap element_size r.after r.held ops some_size law r.holds rest
          (omega (arith, later, lim)) in
      (t, (ds, (Run.step v r.after t cs r.held ds op ops r.answer r.runs r.answered run, holds)))
