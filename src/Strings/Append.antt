-- ===== src/Strings/Append.antt =====
-- Slices put behind a string, and strings made of slices, in src/ty_string.c.
use tyto_h.Base.{ℕ, ◌+◌, ◌%◌, ◌^◌, ◌≤◌, ◌<◌, ◌≡◌, refl, sym, ap, ◌∙◌, inl, inr, Option}
use tyto_h.Base.{none, some, List, ◌++◌, arith, ltb, le→leb, Bool-cases, Option-cases, length}
use tyto_h.Base.{take, drop, length-take, length-drop, done}
use tyto_h.Slices.{Slice, Valid, text, slice_raw}
use tyto_h.Strings.{TyString, read_bytes, store_slice, string_push_slice}
use tyto_h.Strings.{string_grow_to, string_slice, filled, string_null}
use tyto_h.Strings.Change.{Wf, Holds, Kept, Reallocates, moved, grown_text, with_room}
use tyto_h.Strings.Change.{write_bytes-done}

-- What `memmove` reads of a slice within its object is its text.
pub read_bytes-text :
    (sl : Slice)
    → Valid sl
    → (read_bytes sl.object sl.start sl.size ≡ done (text sl)) × (length (text sl) ≡ sl.size)
unfolding read_bytes text slice_raw Valid
read_bytes-text sl v = rw (le→leb (sl.start + sl.size) (length sl.object) v) (
  refl,
  omega (arith, length-take sl.size (drop sl.start sl.object), length-drop sl.start sl.object),
)

store_slice-Holds :
    (s : TyString) (b cs : List ℕ) (sl : Slice)
    → Wf s b
    → take s.size b ≡ cs
    → Valid sl
    → s.size + sl.size ≤ s.capacity
    → s.capacity < 2 ^ 64
    → (t : TyString) × ((store_slice s sl ≡ done t) × Holds t (cs ++ text sl))
unfolding store_slice Holds
store_slice-Holds s b cs sl w e v le lim =
    let chars = read_bytes-text sl v in
    let r = grown_text s b (text sl) w (omega (arith, chars.1)) lim in
    let total : (s.size + length (text sl)) % 2 ^ 64 ≡ (s.size + sl.size) % 2 ^ 64 =
      omega (arith, chars.1) in
    rw (w.has, chars.0, r.1.0)
      (
        record { buffer = some r.0; size = (s.size + sl.size) % 2 ^ 64; capacity = s.capacity },
        (
          refl,
          (
            r.0,
            (
              record { has = refl; room = r.1.1.0; fits = omega arith },
              ap (λ n. take n r.0) (sym total) ∙ r.1.1.1 ∙ ap (λ xs. xs ++ text sl) e,
            ),
          ),
        ),
      )

-- The string has no room for `n` characters more, and `realloc` fails.
unfoldable pub StarvedBy : (Option (List ℕ) → ℕ → Option (List ℕ)) → TyString → ℕ → Type 0
StarvedBy realloc s n = (s.capacity < s.size + n) × (realloc s.buffer (s.size + n) ≡ none)

-- string_push_slice of a string with a text and a slice within its object, the sum of their
-- sizes and the capacity below 2^64, with a realloc that keeps the old characters where it
-- does not fail, does not fault, and gives a string with the text of the slice behind its own,
-- or the null string, this only where the sum is beyond the capacity and realloc fails.
pub string_push_slice-Kept :
    (realloc : Option (List ℕ) → ℕ → Option (List ℕ)) (s : TyString) (cs : List ℕ) (sl : Slice)
    → Reallocates realloc
    → Holds s cs
    → Valid sl
    → s.size + sl.size < 2 ^ 64
    → s.capacity < 2 ^ 64
    → (t : TyString) × ((string_push_slice realloc s sl ≡ done t)
        × Kept (StarvedBy realloc s sl.size) t (cs ++ text sl))
unfolding string_push_slice string_grow_to Holds Kept moved StarvedBy
string_push_slice-Kept realloc s cs sl law (b, (w, e)) v total lim =
    let same : (s.size + sl.size) % 2 ^ 64 ≡ s.size + sl.size = omega arith in
    rw same (elim (Bool-cases (ltb s.capacity (s.size + sl.size))) [
      | inl t ↦ rw t (
          with_room (λ u. store_slice u sl) s b (cs ++ text sl) (s.size + sl.size)
            (StarvedBy realloc s sl.size) realloc law w (omega arith) (ground (arith, w.room))
            (λ r. (ground arith, r))
            (λ d wd kept.
              store_slice-Holds (moved s d (s.size + sl.size)) d cs sl wd (kept ∙ e) v (omega arith)
                total))
      | inr f ↦ rw f (
          let r = store_slice-Holds s b cs sl w e v (ground arith) lim in (r.0, (r.1.0, inr r.1.1)))
    ])

-- `malloc`, where it does not fail, gives as many characters as are asked for.
unfoldable pub Allocates : (ℕ → Option (List ℕ)) → Type 0
Allocates malloc = (n : ℕ) (b : List ℕ) → malloc n ≡ some b → length b ≡ n

-- string_slice of a slice within its object, with a malloc that gives as many characters as
-- asked for where it does not fail, does not fault, and gives a string with the text of the
-- slice, or the null string, this only where malloc fails.
pub string_slice-Kept :
    (malloc : ℕ → Option (List ℕ)) (sl : Slice)
    → Allocates malloc
    → Valid sl
    → (t : TyString) × ((string_slice malloc sl ≡ done t)
        × Kept (malloc sl.size ≡ none) t (text sl))
unfolding string_slice filled Kept Holds Allocates
string_slice-Kept malloc sl law v =
    let chars = read_bytes-text sl v in
    elim (Option-cases (malloc sl.size)) [
      | inl e ↦ rw e (string_null, (refl, inl (refl, refl)))
      | inr e ↦
          let w = write_bytes-done e.0 0 (text sl) (omega (arith, chars.1, law sl.size e.0 e.1)) in
          rw (e.1, chars.0, w.1.0)
            (
              record { buffer = some w.0; size = sl.size; capacity = sl.size },
              (
                refl,
                inr (
                  w.0,
                  (
                    record { has = refl; room = w.1.1.0 ∙ law sl.size e.0 e.1; fits = omega arith },
                    ap (λ n. take n w.0) {x = sl.size} {y = 0 + length (text sl)}
                          (omega (arith, chars.1))
                        ∙ w.1.1.1,
                  ),
                ),
              ),
            )
    ]
