-- ===== src/Strings/Push.antt =====
-- `string_push` of src/ty_string.c.
use tyto_h.Base.{ℕ, ◌+◌, ◌%◌, ◌^◌, ◌<◌, ◌≡◌, refl, sym, ap, ◌∙◌, ◌⊎◌, inl, inr, Option}
use tyto_h.Base.{none, some, List, [], ◌∷◌, ◌++◌, arith, ◌==◌, ==_iff, Bool-cases}
use tyto_h.Base.{Option-cases, length, take, done}
use mathlib.Core.Path.{subst, ap₂}
use tyto_h.Strings.{TyString, string_push, store_end, string_grow, regrown, string_empty}
use tyto_h.Strings.{string_is_null, string_null, next_capacity, initial_capacity, growth_factor}
use tyto_h.Strings.Change.{Wf, Holds, Kept, Reallocates, moved, grown_text, with_room}
use tyto_h.Strings.Change.{string_is_null-null}

store_end-Holds :
    (s : TyString) (b cs : List ℕ) (c : ℕ)
    → Wf s b
    → take s.size b ≡ cs
    → s.size < s.capacity
    → s.capacity < 2 ^ 64
    → (t : TyString) × ((store_end s c ≡ done t) × Holds t (cs ++ c ∷ []))
unfolding store_end Holds
store_end-Holds s b cs c w e lt lim =
    let r = grown_text s b (c ∷ []) w (omega arith) lim in
    rw (w.has, r.1.0)
      (
        record { buffer = some r.0; size = (s.size + 1) % 2 ^ 64; capacity = s.capacity },
        (
          refl,
          (
            r.0,
            (
              record { has = refl; room = r.1.1.0; fits = omega arith },
              r.1.1.1 ∙ ap (λ xs. xs ++ c ∷ []) e,
            ),
          ),
        ),
      )

pub next_capacity-bounds : (c : ℕ) → c < 2 ^ 63 → (c < next_capacity c) × (next_capacity c < 2 ^ 64)
unfolding next_capacity initial_capacity growth_factor
next_capacity-bounds c lim = elim (Bool-cases (c == 0)) [
  | inl t ↦ rw t (ground arith, ground arith)
  | inr f ↦ rw f (ground arith, ground arith)
]

-- The string has no room left, and `realloc` fails.
unfoldable pub Starved : (Option (List ℕ) → ℕ → Option (List ℕ)) → TyString → Type 0
Starved realloc s = (s.size ≡ s.capacity) × (realloc s.buffer (next_capacity s.capacity) ≡ none)

string_push-Kept :
    (realloc : Option (List ℕ) → ℕ → Option (List ℕ)) (s : TyString) (cs : List ℕ) (c : ℕ)
    → Reallocates realloc
    → Holds s cs
    → s.capacity < 2 ^ 63
    → (t : TyString) × ((string_push realloc s c ≡ done t)
        × Kept (Starved realloc s) t (cs ++ c ∷ []))
unfolding string_push string_grow Holds Kept moved Starved
string_push-Kept realloc s cs c law (b, (w, e)) lim =
    let cap = next_capacity-bounds s.capacity lim in
    elim (Bool-cases (s.size == s.capacity)) [
      | inl t ↦ rw t (
          with_room (λ u. store_end u c) s b (cs ++ c ∷ []) (next_capacity s.capacity)
            (Starved realloc s) realloc law w (omega (arith, cap.0, w.fits))
            (omega (arith, cap.0, w.room)) (λ r. ((==_iff s.size s.capacity).0 t, r))
            (λ d wd same.
              let r =
                store_end-Holds (moved s d (next_capacity s.capacity)) d cs c wd (same ∙ e)
                  (omega (arith, cap.0, w.fits)) cap.1 in
              (r.0, (r.1.0, r.1.1))))
      | inr f ↦ rw f (
          let r = store_end-Holds s b cs c w e (ground (arith, w.fits)) (omega arith) in
          (r.0, (r.1.0, inr r.1.1)))
    ]

-- A `realloc` of the null pointer gives as many characters as are asked for, or fails.
unfoldable pub AllocatesNull : (Option (List ℕ) → ℕ → Option (List ℕ)) → Type 0
AllocatesNull realloc = (c : List ℕ) (n : ℕ) → realloc none n ≡ some c → length c ≡ n

string_push_empty-Kept :
    (realloc : Option (List ℕ) → ℕ → Option (List ℕ)) (c : ℕ)
    → AllocatesNull realloc
    → (t : TyString) × ((string_push realloc string_empty c ≡ done t)
        × Kept (Starved realloc string_empty) t (c ∷ []))
unfolding string_push string_grow string_empty Starved next_capacity initial_capacity regrown Kept
    AllocatesNull string_is_null store_end
string_push_empty-Kept realloc c law = elim (Option-cases (realloc none 8)) [
  | inl e ↦ rw (e, string_is_null-null) (string_null, (refl, inl ((refl, refl), refl)))
  | inr e ↦
      let s : TyString = record { buffer = some e.0; size = 0; capacity = 8 } in
      let r =
        store_end-Holds s e.0 [] c (record { has = refl; room = law e.0 8 e.1; fits = omega arith })
          refl (omega arith) (omega arith) in
      rw (e.1) (r.0, (r.1.0, inr r.1.1))
]

-- A string that holds a text, or the empty string, which has no buffer.
unfoldable pub Started : TyString → List ℕ → Type 0
Started s cs = Holds s cs ⊎ ((s ≡ string_empty) × (cs ≡ []))

-- string_push on the empty string, or on a string with a text and a capacity below 2^63, with
-- a realloc that gives as many characters as are asked for and keeps the old ones, where it
-- does not fail, does not fault. It gives a string with the character behind the text, or the
-- null string, this only where the text fills the capacity and realloc fails.
pub string_push-Started :
    (realloc : Option (List ℕ) → ℕ → Option (List ℕ)) (s : TyString) (cs : List ℕ) (c : ℕ)
    → Reallocates realloc
    → AllocatesNull realloc
    → Started s cs
    → s.capacity < 2 ^ 63
    → (t : TyString) × ((string_push realloc s c ≡ done t)
        × Kept (Starved realloc s) t (cs ++ c ∷ []))
unfolding Started
string_push-Started realloc s cs c law fresh (inl h) lim = string_push-Kept realloc s cs c law h lim
string_push-Started realloc s cs c law fresh (inr (e, f)) lim =
    subst
      (λ (p : TyString × List ℕ).
        (t : TyString) × ((string_push realloc p.0 c ≡ done t)
          × Kept (Starved realloc p.0) t (p.1 ++ c ∷ [])))
      (ap₂ (λ (u : TyString) (ds : List ℕ). (u, ds)) (sym e) (sym f))
      (string_push_empty-Kept realloc c fresh)
