-- ===== src/Strings/Insert.antt =====
-- Insertion into a string, in src/ty_string.c.
use tyto_h.Base.{ℕ, ◌+◌, ◌%◌, ◌^◌, ◌<◌, ◌≡◌, refl, ap, ◌∙◌, ◌≢◌, inl, inr, Option, List}
use tyto_h.Base.{[], ◌∷◌, ◌++◌, arith, ◌==◌, ltb, le→leb, lt→leb, ==_iff, Bool-cases}
use tyto_h.Base.{length, done}
use tyto_h.Slices.{Slice, Valid, text}
use tyto_h.Strings.{
  TyString, store_between, string_insert, string_insert_slice, string_grow, string_grow_to,
  string_null, next_capacity,
}
use tyto_h.Strings.Change.{Holds, Kept, Reallocates, moved, with_room}
use tyto_h.Strings.Push.{Starved, next_capacity-bounds}
use tyto_h.Strings.Append.{StarvedBy, read_bytes-text}
use tyto_h.Strings.Between.{parts_of, store_between_of, store_between-Holds}

-- What becomes of a string whose text stands in two parts, when `cs` is put between them.
pub data Inserted (Cause : Type 0) (t : TyString) (p cs r : List ℕ) : Type 0 where
  between : r ≢ [] → Kept Cause t (p ++ (cs ++ r)) → Inserted Cause t p cs r
  at_end : r ≡ [] → t ≡ string_null → Inserted Cause t p cs r

string_insert-Inserted :
    (realloc : Option (List ℕ) → ℕ → Option (List ℕ)) (s : TyString) (p r : List ℕ) (c : ℕ)
    → Reallocates realloc
    → Holds s (p ++ r)
    → s.capacity < 2 ^ 63
    → (t : TyString) × ((string_insert realloc s (length p) c ≡ done t)
        × Inserted (Starved realloc s) t p (c ∷ []) r)
unfolding string_insert string_grow Holds Kept moved Starved
string_insert-Inserted realloc s p [] c law (b, (w, e)) lim =
    let (q, (whole, (size, room))) = parts_of s b p [] w e in
    rw (le→leb s.size (length p) (omega (arith, size)))
      (string_null, (refl, Inserted.at_end refl refl))
string_insert-Inserted realloc s p (x ∷ r) c law (b, (w, e)) lim =
    let (q, (whole, (size, room))) = parts_of s b p (x ∷ r) w e in
    let cap = next_capacity-bounds s.capacity lim in
    let n = next_capacity s.capacity in
    let full : x ∷ r ≢ [] = λ h. absurd (omega (arith, ap length h)) in
    rw (lt→leb s.size (length p) (omega (arith, size))) (elim (Bool-cases (s.size == s.capacity)) [
      | inl t ↦ rw t (
          let r' =
            with_room (λ u. store_between u (length p) (done (c ∷ [])) 1) s b (p ++ (c ∷ x ∷ r)) n
              (Starved realloc s) realloc law w (omega (arith, cap.0, w.fits))
              (omega (arith, cap.0, w.room)) (λ g. ((==_iff s.size s.capacity).0 t, g))
              (λ d wd same.
                store_between-Holds (moved s d n) d p (x ∷ r) (c ∷ []) wd (same ∙ e)
                  (omega (arith, cap.0, w.fits)) cap.1) in
          (r'.0, (r'.1.0, Inserted.between full r'.1.1)))
      | inr f ↦ rw f (
          let r' =
            store_between-Holds s b p (x ∷ r) (c ∷ []) w e (ground (arith, w.fits)) (omega arith) in
          (r'.0, (r'.1.0, Inserted.between full (inr r'.1.1))))
    ])

string_insert_slice-Inserted :
    (realloc : Option (List ℕ) → ℕ → Option (List ℕ)) (s : TyString) (p r : List ℕ) (sl : Slice)
    → Reallocates realloc
    → Holds s (p ++ r)
    → Valid sl
    → s.size + sl.size < 2 ^ 64
    → s.capacity < 2 ^ 64
    → (t : TyString) × ((string_insert_slice realloc s (length p) sl ≡ done t)
        × Inserted (StarvedBy realloc s sl.size) t p (text sl) r)
unfolding string_insert_slice string_grow_to Holds Kept moved StarvedBy
string_insert_slice-Inserted realloc s p [] sl law (b, (w, e)) v total lim =
    let (q, (whole, (size, room))) = parts_of s b p [] w e in
    rw (le→leb s.size (length p) (omega (arith, size)))
      (string_null, (refl, Inserted.at_end refl refl))
string_insert_slice-Inserted realloc s p (x ∷ r) sl law (b, (w, e)) v total lim =
    let (q, (whole, (size, room))) = parts_of s b p (x ∷ r) w e in
    let full : x ∷ r ≢ [] = λ h. absurd (omega (arith, ap length h)) in
    let same : (s.size + sl.size) % 2 ^ 64 ≡ s.size + sl.size = omega arith in
    let (chars, len) = read_bytes-text sl v in
    rw (lt→leb s.size (length p) (omega (arith, size)), same, chars)
      (elim (Bool-cases (ltb s.capacity (s.size + sl.size))) [
        | inl t ↦ rw t (
            let r' =
              with_room (λ u. store_between u (length p) (done (text sl)) sl.size) s b
                (p ++ (text sl ++ (x ∷ r))) (s.size + sl.size) (StarvedBy realloc s sl.size) realloc
                law w (omega arith) (ground (arith, w.room)) (λ g. (ground arith, g))
                (λ d wd kept.
                  store_between_of (moved s d (s.size + sl.size)) d p (x ∷ r) (text sl) sl.size len
                    wd (kept ∙ e) (omega arith) total) in
            (r'.0, (r'.1.0, Inserted.between full r'.1.1)))
        | inr f ↦ rw f (
            let r' = store_between_of s b p (x ∷ r) (text sl) sl.size len w e (ground arith) lim in
            (r'.0, (r'.1.0, Inserted.between full (inr r'.1.1))))
      ])

-- string_insert of a character, and string_insert_slice of a slice within its object, into a
-- string with a text that stands in two parts, at the length of the first, the capacity below
-- 2^63 and the sum of the sizes below 2^64, with a realloc that keeps the old characters where
-- it does not fail, do not fault. Where the second part is not empty they give a string with
-- the character, or the text of the slice, between the parts, or the null string, this only
-- where it does not fit the capacity and realloc fails. Where it is empty they give the null
-- string.
pub string_insert-string_insert_slice :
    (realloc : Option (List ℕ) → ℕ → Option (List ℕ)) (s : TyString) (p r : List ℕ) (c : ℕ)
    (sl : Slice)
    → Reallocates realloc
    → Holds s (p ++ r)
    → Valid sl
    → s.size + sl.size < 2 ^ 64
    → s.capacity < 2 ^ 63
    → ((t : TyString) × ((string_insert realloc s (length p) c ≡ done t)
          × Inserted (Starved realloc s) t p (c ∷ []) r))
      × ((t : TyString) × ((string_insert_slice realloc s (length p) sl ≡ done t)
            × Inserted (StarvedBy realloc s sl.size) t p (text sl) r))
string_insert-string_insert_slice realloc s p r c sl law h v total lim = (
  string_insert-Inserted realloc s p r c law h lim,
  string_insert_slice-Inserted realloc s p r sl law h v total (omega arith),
)
