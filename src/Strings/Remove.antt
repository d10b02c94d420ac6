-- ===== src/Strings/Remove.antt =====
-- `string_remove` of src/ty_string.c.
use tyto_h.Base.{ℕ, suc, ◌+◌, ◌-◌, ◌%◌, ◌^◌, ◌<◌, ◌≡◌, refl, sym, ap, ◌∙◌, inl, inr, some}
use tyto_h.Base.{List, [], ◌∷◌, ◌++◌, arith, lt→leb, Option-cases, Outcome, length}
use tyto_h.Base.{get_elem?, take, drop, length-append, length-drop, take_prefix, done}
use tyto_h.Base.{fault}
use mathlib.Core.Path.{ap₂}
use mathlib.Core.List.{append_assoc}
use tyto_h.Strings.{TyString, read_bytes, string_remove, size_max}
use tyto_h.Strings.Change.{Wf, Holds}
use tyto_h.Strings.Between.{read_bytes-middle, write_bytes-behind, parts_of}

-- What a removal between two parts of a text gives: the first character of the second part
-- and the text without it, or a fault.
pub data Removed (o : Outcome (TyString × ℕ)) (p r : List ℕ) : Type 0 where
  taken :
      (c : ℕ) (rest : List ℕ) (t : TyString)
      → r ≡ c ∷ rest
      → o ≡ done (t, c)
      → Holds t (p ++ rest)
      → Removed o p r
  outside : r ≡ [] → o ≡ fault → Removed o p r

-- The characters behind the removed one, and where the move puts them.
get_elem?-middle : (p q : List ℕ) (c : ℕ) → get_elem? (p ++ (c ∷ q)) (length p) ≡ some c
get_elem?-middle [] q c = refl
get_elem?-middle (x ∷ p) q c = get_elem?-middle p q c

read_bytes-far : (b : List ℕ) (i n : ℕ) → length b < i + n → read_bytes b i n ≡ fault
unfolding read_bytes
read_bytes-far b i n h = rw (lt→leb (i + n) (length b) h) refl

read_bytes-rest :
    (p r q : List ℕ) (c i n : ℕ)
    → i ≡ length p + 1
    → n ≡ length r
    → read_bytes (p ++ ((c ∷ r) ++ q)) i n ≡ done r
read_bytes-rest p r q c i n e f =
    ap₂ (λ k m. read_bytes (p ++ ((c ∷ r) ++ q)) k m) {x = i} {y = length (p ++ (c ∷ []))}
      (omega (arith, length-append p (c ∷ []))) f
    ∙ ap (λ xs. read_bytes xs (length (p ++ (c ∷ []))) (length r))
        (sym (append_assoc p (c ∷ []) (r ++ q)))
    ∙ read_bytes-middle (p ++ (c ∷ [])) r q

removed_within :
    (s : TyString) (b p r q : List ℕ) (c : ℕ)
    → Wf s b
    → b ≡ p ++ ((c ∷ r) ++ q)
    → s.size ≡ length p + suc (length r)
    → s.capacity ≡ s.size + length q
    → s.capacity < 2 ^ 64
    → Removed (string_remove s (length p)) p (c ∷ r)
unfolding string_remove Holds
removed_within s b p r q c w whole size room lim =
    let count : (s.size + (2 ^ 64 - length p % 2 ^ 64) + size_max) % 2 ^ 64 ≡ length r =
      omega (arith, size, room) in
    let behind = drop (0 + length r) ((c ∷ r) ++ q) in
    let full = p ++ (r ++ behind) in
    let total : length full ≡ s.capacity = omega (
      arith,
      length-append p (r ++ behind),
      length-append r behind,
      length-drop (0 + length r) ((c ∷ r) ++ q),
      length-append (c ∷ r) q,
      size,
      room,
    ) in
    let t : TyString = record {
      buffer = some full;
      size = (s.size + size_max) % 2 ^ 64;
      capacity = s.capacity;
    } in
    let runs : string_remove s (length p) ≡ done (t, c) =
      rw
        (
          w.has,
          whole,
          count,
          get_elem?-middle p (r ++ q) c,
          read_bytes-rest p r q c (length p + 1) (length r) refl refl,
          write_bytes-behind p ((c ∷ r) ++ q) r (length p) 0 (omega arith)
              (omega (arith, length-append r q)),
        )
        refl in
    let kept : take ((s.size + size_max) % 2 ^ 64) full ≡ p ++ r =
      ap (λ xs. take ((s.size + size_max) % 2 ^ 64) xs) (sym (append_assoc p r behind))
      ∙ take_prefix (p ++ r) behind ((s.size + size_max) % 2 ^ 64)
          (omega (arith, length-append p r, size, room)) in
    Removed.taken c r t refl runs
      (full, (record { has = refl; room = total; fits = omega (arith, w.fits, size) }, kept))

-- string_remove at a place of a string with a text that stands in two parts, at the length of
-- the first, the capacity below 2^64. Where the second part is not empty it does not fault,
-- and gives its first character and a string with the text without it. Where it is empty it
-- faults: the number of characters to move wraps.
pub string_remove-Removed :
    (s : TyString) (p r : List ℕ)
    → Holds s (p ++ r)
    → s.capacity < 2 ^ 64
    → Removed (string_remove s (length p)) p r
unfolding string_remove Holds
string_remove-Removed s p [] (b, (w, e)) lim =
    let (q, (whole, (size, room))) = parts_of s b p [] w e in
    let count : (s.size + (2 ^ 64 - length p % 2 ^ 64) + size_max) % 2 ^ 64 ≡ size_max =
      omega (arith, size, room) in
    let far = read_bytes-far b (length p + 1) size_max (omega (arith, size, w.room)) in
    Removed.outside refl (
      rw (w.has, count)
        (elim (Option-cases (get_elem? b (length p))) [
          | inl none_left ↦ rw none_left refl
          | inr (c, read) ↦ rw (read, far) refl
        ]))
string_remove-Removed s p (c ∷ r) (b, (w, e)) lim =
    let (q, (whole, (size, room))) = parts_of s b p (c ∷ r) w e in
    removed_within s b p r q c w whole size room lim
