-- ===== src/Strings/Change.antt =====
-- What the operations of src/ty_string.c that change a string do to its text.
use tyto_h.Base.{ℕ, ◌+◌, ◌%◌, ◌^◌, ◌≤◌, ◌<◌, ◌≡◌, refl, sym, ap, ◌∙◌, ◌⊎◌, inl, inr, true}
use tyto_h.Base.{false, Option, none, some, List, ◌++◌, arith, if◌then◌else◌, le→leb}
use tyto_h.Base.{Option-cases, Outcome, length, take, drop, length-append, length-take}
use tyto_h.Base.{length-drop, take_prefix, take-take, done}
use tyto_h.Strings.{TyString, write_bytes, regrown}
use tyto_h.Strings.{string_is_null, string_null}

-- A string with a buffer of as many characters as its capacity says.
pub record Wf (s : TyString) (b : List ℕ) : Type 0 where
  pub has : s.buffer ≡ some b
  pub room : length b ≡ s.capacity
  pub fits : s.size ≤ s.capacity

-- `realloc`, where it does not fail, gives as many characters as are asked for, and keeps
-- those of the old buffer.
unfoldable pub Reallocates : (Option (List ℕ) → ℕ → Option (List ℕ)) → Type 0
Reallocates realloc =
    (b c : List ℕ) (n : ℕ)
    → length b ≤ n
    → realloc (some b) n ≡ some c
    → (length c ≡ n) × (take (length b) c ≡ b)

-- The string holds the text.
unfoldable pub Holds : TyString → List ℕ → Type 0
Holds s cs = (b : List ℕ) × (Wf s b × (take s.size b ≡ cs))

pub write_bytes-done :
    (b : List ℕ) (i : ℕ) (cs : List ℕ)
    → i + length cs ≤ length b
    → (b' : List ℕ) × ((write_bytes b i cs ≡ done b')
        × ((length b' ≡ length b) × (take (i + length cs) b' ≡ take i b ++ cs)))
unfolding write_bytes
write_bytes-done b i cs h = rw (le→leb (i + length cs) (length b) h) (
  take i b ++ cs ++ drop (i + length cs) b,
  (
    refl,
    (
      omega (
        arith,
        length-append (take i b ++ cs) (drop (i + length cs) b),
        length-append (take i b) cs,
        length-take i b,
        length-drop (i + length cs) b,
      ),
      take_prefix (take i b ++ cs) (drop (i + length cs) b) (i + length cs)
          (omega (arith, length-append (take i b) cs, length-take i b)),
    ),
  ),
)

-- A write at the end of the text, in room that is there.
pub grown_text :
    (s : TyString) (b cs : List ℕ)
    → Wf s b
    → s.size + length cs ≤ s.capacity
    → s.capacity < 2 ^ 64
    → (b' : List ℕ) × ((write_bytes b s.size cs ≡ done b')
        × ((length b' ≡ s.capacity)
            × (take ((s.size + length cs) % 2 ^ 64) b' ≡ take s.size b ++ cs)))
grown_text s b cs w le lt =
    let r = write_bytes-done b s.size cs (omega (arith, w.room)) in
    (
      r.0,
      (
        r.1.0,
        (
          omega (arith, r.1.1.0, w.room),
          ap (λ n. take n r.0) {x = (s.size + length cs) % 2 ^ 64} {y = s.size + length cs}
                (omega arith)
              ∙ r.1.1.1,
        ),
      ),
    )

-- The null string, for which there is the cause, or a string that holds the text.
unfoldable pub Kept : (Cause : Type 0) → TyString → List ℕ → Type 0
Kept Cause t cs = (Cause × (t ≡ string_null)) ⊎ Holds t cs

-- The string with the buffer that `realloc` gave.
unfoldable pub moved : TyString → List ℕ → ℕ → TyString
moved s c n = record { buffer = some c; size = s.size; capacity = n }

regrown-cases :
    (realloc : Option (List ℕ) → ℕ → Option (List ℕ)) (s : TyString) (b : List ℕ) (n : ℕ)
    → Reallocates realloc
    → Wf s b
    → s.size ≤ n
    → length b ≤ n
    → ((realloc s.buffer n ≡ none) × (regrown (realloc s.buffer n) s.size n ≡ string_null))
      ⊎ ((c : List ℕ) × ((regrown (realloc s.buffer n) s.size n ≡ moved s c n)
            × (Wf (moved s c n) c × (take s.size c ≡ take s.size b))))
unfolding regrown moved Reallocates
regrown-cases realloc s b n law w le room = rw (w.has) (elim (Option-cases (realloc (some b) n)) [
  | inl e ↦ rw e (inl (refl, refl))
  | inr e ↦ rw (e.1) (
      inr (
        let r = law b e.0 n room e.1 in
        (
          e.0,
          (
            refl,
            (
              record { has = refl; room = r.0; fits = le },
              sym (take-take e.0 s.size (length b) (omega (arith, w.room, w.fits)))
                  ∙ ap (take s.size) r.1,
            ),
          ),
        )))
])

string_is_null-moved : (s : TyString) (c : List ℕ) (n : ℕ) → string_is_null (moved s c n) ≡ false
unfolding string_is_null moved
string_is_null-moved s c n = refl

pub string_is_null-null : string_is_null string_null ≡ true
unfolding string_is_null string_null
string_is_null-null = refl

-- What an operation does that makes room first and then writes.
pub with_room :
    (f : TyString → Outcome TyString) (s : TyString) (b cs : List ℕ) (n : ℕ) (Cause : Type 0)
    → (realloc : Option (List ℕ) → ℕ → Option (List ℕ)) → Reallocates realloc
    → Wf s b
    → s.size ≤ n
    → length b ≤ n
    → (realloc s.buffer n ≡ none → Cause)
    → ((c : List ℕ)
        → Wf (moved s c n) c
        → take s.size c ≡ take s.size b
        → (t : TyString) × ((f (moved s c n) ≡ done t) × Holds t cs))
    → (t : TyString) × (((let grown = regrown (realloc s.buffer n) s.size n in
            if string_is_null grown then done grown else f grown)
          ≡ done t)
        × Kept Cause t cs)
unfolding Kept
with_room f s b cs n Cause realloc law w le room cause h =
    elim (regrown-cases realloc s b n law w le room) [
      | inl e ↦ rw (e.1, string_is_null-null) (string_null, (refl, inl (cause e.0, refl)))
      | inr e ↦
          rw (e.1.0, string_is_null-moved s e.0 n)
            (let r = h e.0 e.1.1.0 e.1.1.1 in (r.0, (r.1.0, inr r.1.1)))
    ]
