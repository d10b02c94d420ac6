-- ===== src/Strings/Pop.antt =====
-- What `string_pop` of src/ty_string.c does, on a string with a text and on an empty one.
use tyto_h.Base.{ℕ, zero, suc, ◌+◌, ◌-◌, ◌%◌, ◌^◌, ◌≤◌, ◌<◌, ◌≡◌, refl, sym, ap, ◌∙◌, ◌⊎◌}
use tyto_h.Base.{inl, inr, none, some, List, [], ◌∷◌, ◌++◌, arith, Outcome, length}
use tyto_h.Base.{get_elem?, get_or, take, length-append, length-take, take_prefix}
use tyto_h.Base.{take-take, get_elem?-eq-get_or, get_or-take, get_or-append_above, done}
use tyto_h.Base.{fault}
use mathlib.Core.Path.{subst}
use tyto_h.Strings.{string_pop, TyString, size_max}
use tyto_h.Strings.Change.{Wf, Holds}

get_elem?_beyond : (b : List ℕ) (i : ℕ) → length b ≤ i → get_elem? b i ≡ none
get_elem?_beyond [] i h = refl
get_elem?_beyond (x ∷ b) zero h = absurd (omega arith)
get_elem?_beyond (x ∷ b) (suc i) h = get_elem?_beyond b i (omega arith)

-- The parts of a text with a last character.
snoc-parts :
    (b cs : List ℕ) (c n : ℕ)
    → n ≤ length b
    → take n b ≡ cs ++ c ∷ []
    → (n ≡ length cs + 1) × ((get_elem? b (length cs) ≡ some c) × (take (length cs) b ≡ cs))
snoc-parts b cs c n le e =
    let size : n ≡ length cs + 1 =
      omega (arith, length-take n b, ap length e, length-append cs (c ∷ [])) in
    (
      size,
      (
        get_elem?-eq-get_or b (length cs) 0 (omega (arith, size))
            ∙ ap some (
                sym (get_or-take b n (length cs) 0 (omega (arith, size)))
                ∙ ap (λ xs. get_or xs (length cs) 0) e
                ∙ ap (λ i. get_or (cs ++ c ∷ []) i 0) {x = length cs} {y = length cs + 0}
                    (omega arith)
                ∙ get_or-append_above cs (c ∷ []) 0 0),
        sym (take-take b (length cs) n (omega (arith, size)))
            ∙ ap (take (length cs)) e
            ∙ take_prefix cs (c ∷ []) (length cs) refl,
      ),
    )

string_pop-Holds :
    (s : TyString) (cs : List ℕ) (c : ℕ)
    → Holds s (cs ++ c ∷ [])
    → s.capacity < 2 ^ 64
    → (t : TyString) × ((string_pop s ≡ done (t, c)) × Holds t cs)
unfolding string_pop Holds
string_pop-Holds s cs c (b, (w, e)) lim =
    let parts = snoc-parts b cs c s.size (omega (arith, w.room, w.fits)) e in
    let size : (s.size + size_max) % 2 ^ 64 ≡ length cs = omega (arith, parts.0, w.fits) in
    rw (w.has, size, parts.1.0)
      (
        record { buffer = some b; size = length cs; capacity = s.capacity },
        (
          refl,
          (
            b,
            (
              record { has = refl; room = w.room; fits = omega (arith, w.fits, parts.0) },
              parts.1.1,
            ),
          ),
        ),
      )

string_pop-fault :
    (s : TyString) (b : List ℕ)
    → Wf s b
    → s.size ≡ 0
    → s.capacity < 2 ^ 64 - 1
    → string_pop s ≡ fault
unfolding string_pop
string_pop-fault s b w e lim =
    rw (w.has, e, get_elem?_beyond b size_max (omega (arith, w.room))) refl

-- A text is empty or has a last character.
last_cases : (cs : List ℕ) → (cs ≡ []) ⊎ ((ds : List ℕ) × ((c : ℕ) × (cs ≡ ds ++ c ∷ [])))
last_cases [] = inl refl
last_cases (x ∷ cs) = elim (last_cases cs) [
  | inl e ↦ inr ([], (x, ap (λ t. x ∷ t) e))
  | inr (ds, (c, e)) ↦ inr (x ∷ ds, (c, ap (λ t. x ∷ t) e))
]

-- What `string_pop` gives: the last character and the text without it, or a fault.
pub data Popped (o : Outcome (TyString × ℕ)) (cs : List ℕ) : Type 0 where
  taken :
      (ds : List ℕ) (c : ℕ) (t : TyString)
      → cs ≡ ds ++ c ∷ []
      → o ≡ done (t, c)
      → Holds t ds
      → Popped o cs
  outside : cs ≡ [] → o ≡ fault → Popped o cs

-- string_pop of a string that holds a text, its capacity below 2^64 - 1: where the text has a
-- last character it does not fault, and gives that character and a string with the rest of the
-- text; where it is empty it faults, since the size wraps and the read lies outside the buffer.
pub string_pop-Popped :
    (s : TyString) (cs : List ℕ) → Holds s cs → s.capacity < 2 ^ 64 - 1 → Popped (string_pop s) cs
unfolding Holds
string_pop-Popped s cs h lim = elim (last_cases cs) [
  | inl e ↦
      let (b, (w, same)) = h in
      let size : s.size ≡ 0 =
        omega (arith, length-take s.size b, ap length same, ap length e, w.room, w.fits) in
      Popped.outside e (string_pop-fault s b w size lim)
  | inr (ds, (c, e)) ↦
      let (t, (runs, holds)) = string_pop-Holds s ds c (subst (Holds s) e h) (omega arith) in
      Popped.taken ds c t e runs holds
]
