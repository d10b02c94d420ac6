-- ===== src/Strings.antt =====
-- The growing strings of src/ty_string.c and includes/ty_string.h.
-- The buffer is an array of characters, or the null pointer. `malloc` and `realloc` are
-- parameters: what they answer for a request, `none` for the null pointer. `SIZE_MAX` is
-- 2^64 - 1 and sizes are of 64 bits. A slice that is put in stands in another array.
mod Change
mod Pop
mod Append
mod Push
mod Between
mod Insert
mod Remove
mod Files
mod Tests
use tyto_h.Base.{ℕ, ◌+◌, ◌-◌, ◌*◌, ◌%◌, ◌^◌, Bool, true, false, ◌&&◌, Option, none, some}
use tyto_h.Base.{List, [], ◌∷◌, ◌++◌, map, ◌>>=◌, ◌==◌, if◌then◌else◌, ltb, leb, Outcome}
use tyto_h.Base.{need, length, get_elem?, take, drop, ℤ, done, fault}
use tyto_h.Slices.{Slice, slice_make, is_zero_int}

abbrev pub size_max : ℕ
size_max = 18446744073709551615

pub record TyString : Type 0 where
  pub buffer : Option (List ℕ)
  pub size : ℕ
  pub capacity : ℕ

unfoldable pub initial_capacity : ℕ
initial_capacity = 8

unfoldable pub growth_factor : ℕ
growth_factor = 2

unfoldable pub string_empty : TyString
string_empty = record { buffer = none; size = 0; capacity = 0 }

unfoldable pub string_null : TyString
string_null = record { buffer = none; size = size_max; capacity = size_max }

-- `memmove` reads `n` characters from index `i` on.
unfoldable pub read_bytes : List ℕ → (i n : ℕ) → Outcome (List ℕ)
read_bytes b i n = if leb (i + n) (length b) then done (take n (drop i b)) else fault

-- `memmove` writes characters from index `i` on.
unfoldable pub write_bytes : List ℕ → ℕ → List ℕ → Outcome (List ℕ)
write_bytes b i cs =
    if leb (i + length cs) (length b)
    then done (take i b ++ cs ++ drop (i + length cs) b)
    else fault

unfoldable pub string_make : (malloc : ℕ → Option (List ℕ)) → ℕ → TyString
string_make malloc cap = elim (malloc cap) [
  | none ↦ string_null
  | some b ↦ record { buffer = some b; size = 0; capacity = cap }
]

-- The fresh buffer filled from an array: what `string_slice` and `string_copy` share.
unfoldable pub filled : Option (List ℕ) → Outcome (List ℕ) → (size capacity : ℕ) → Outcome TyString
filled none chars size capacity = done string_null
filled (some b) chars size capacity =
    chars
    >>= (λ cs. write_bytes b 0 cs)
    >>= (λ full. done (record { buffer = some full; size = size; capacity = capacity }))

unfoldable pub string_slice : (malloc : ℕ → Option (List ℕ)) → Slice → Outcome TyString
string_slice malloc sl =
    filled (malloc sl.size) (read_bytes sl.object sl.start sl.size) sl.size sl.size

unfoldable pub string_copy : (malloc : ℕ → Option (List ℕ)) → TyString → Outcome TyString
string_copy malloc s =
    filled (malloc s.capacity) (need s.buffer >>= (λ b. read_bytes b 0 s.size)) s.size s.capacity

-- The string that is moved, and what is left behind.
unfoldable pub string_move : TyString → TyString × TyString
string_move s = (s, string_empty)

-- The slice of a string without a buffer has the null pointer: here, no slice.
unfoldable pub string_toslice : TyString → Option Slice
string_toslice s = elim s.buffer [ none ↦ none | some b ↦ some (slice_make b 0 s.size) ]

unfoldable pub string_free : TyString → TyString
string_free s = string_empty

unfoldable pub string_size : TyString → ℕ
string_size s = s.size

unfoldable pub string_cap : TyString → ℕ
string_cap s = s.capacity

abbrev pub is_none : Option (List ℕ) → Bool
is_none none = true
is_none (some b) = false

unfoldable pub string_is_empty : TyString → Bool
string_is_empty s = is_none s.buffer && s.size == 0

unfoldable pub string_is_null : TyString → Bool
string_is_null s = is_none s.buffer && s.size == size_max && s.capacity == size_max

unfoldable pub string_cmp : (strncmp : List ℕ → List ℕ → ℕ → ℤ) → TyString → TyString → Outcome ℤ
string_cmp strncmp s1 s2 = need s1.buffer >>= (λ a.
    need s2.buffer >>= (λ b. done (strncmp a b (if ltb s1.size s2.size then s1.size else s2.size))))

unfoldable pub string_eq : (strncmp : List ℕ → List ℕ → ℕ → ℤ) → TyString → TyString → Outcome Bool
string_eq strncmp s1 s2 =
    let same =
      need s1.buffer
      >>= (λ a. need s2.buffer >>= (λ b. done (is_zero_int (strncmp a b s1.size)))) in
    if s1.size == s2.size then same else done false

-- The buffer that `realloc` gives, or a null string.
unfoldable pub regrown : Option (List ℕ) → ℕ → ℕ → TyString
regrown none size capacity = string_null
regrown (some b) size capacity = record { buffer = some b; size = size; capacity = capacity }

unfoldable pub string_grow_to :
    (realloc : Option (List ℕ) → ℕ → Option (List ℕ)) → TyString → ℕ → TyString
string_grow_to realloc s cap = regrown (realloc s.buffer cap) s.size cap

-- The capacity after `string_grow`.
unfoldable pub next_capacity : ℕ → ℕ
next_capacity c = if c == 0 then initial_capacity else c * growth_factor % 2 ^ 64

unfoldable pub string_grow : (realloc : Option (List ℕ) → ℕ → Option (List ℕ)) → TyString → TyString
string_grow realloc s =
    regrown (realloc s.buffer (next_capacity s.capacity)) s.size (next_capacity s.capacity)

-- `s->buffer[s->size++] = c`.
unfoldable pub store_end : TyString → ℕ → Outcome TyString
store_end s c = need s.buffer >>= (λ b. write_bytes b s.size (c ∷ [])) >>= (λ b.
    done (record { buffer = some b; size = (s.size + 1) % 2 ^ 64; capacity = s.capacity }))

unfoldable pub string_push :
    (realloc : Option (List ℕ) → ℕ → Option (List ℕ)) → TyString → ℕ → Outcome TyString
string_push realloc s c =
    let grown = string_grow realloc s in
    if s.size == s.capacity
    then if string_is_null grown then done grown else store_end grown c
    else store_end s c

-- The `memmove` behind the text, and the new size.
unfoldable pub store_slice : TyString → Slice → Outcome TyString
store_slice s sl =
    need s.buffer
    >>= (λ b. read_bytes sl.object sl.start sl.size >>= (λ cs. write_bytes b s.size cs))
    >>= (λ b.
        done
          (record { buffer = some b; size = (s.size + sl.size) % 2 ^ 64; capacity = s.capacity }))

unfoldable pub string_push_slice :
    (realloc : Option (List ℕ) → ℕ → Option (List ℕ)) → TyString → Slice → Outcome TyString
string_push_slice realloc s sl =
    let total = (s.size + sl.size) % 2 ^ 64 in
    let grown = string_grow_to realloc s total in
    if ltb s.capacity total
    then if string_is_null grown then done grown else store_slice grown sl
    else store_slice s sl

-- The text from `idx` on moves up by the length of `cs`, which takes its place.
unfoldable pub store_between : TyString → ℕ → Outcome (List ℕ) → ℕ → Outcome TyString
store_between s idx chars n =
    need s.buffer
    >>= (λ b. read_bytes b idx (s.size - idx) >>= (λ rest. write_bytes b (idx + n) rest))
    >>= (λ b. chars >>= (λ cs. write_bytes b idx cs))
    >>= (λ b.
        done (record { buffer = some b; size = (s.size + n) % 2 ^ 64; capacity = s.capacity }))

unfoldable pub string_insert :
    (realloc : Option (List ℕ) → ℕ → Option (List ℕ)) → TyString → ℕ → ℕ → Outcome TyString
string_insert realloc s idx c =
    let grown = string_grow realloc s in
    if leb s.size idx
    then done string_null
    else if s.size == s.capacity
    then if string_is_null grown then done grown else store_between grown idx (done (c ∷ [])) 1
    else store_between s idx (done (c ∷ [])) 1

unfoldable pub string_insert_slice :
    (realloc : Option (List ℕ) → ℕ → Option (List ℕ)) → TyString → ℕ → Slice → Outcome TyString
string_insert_slice realloc s idx v =
    let total = (s.size + v.size) % 2 ^ 64 in
    let chars = read_bytes v.object v.start v.size in
    let grown = string_grow_to realloc s total in
    if leb s.size idx
    then done string_null
    else if ltb s.capacity total
    then if string_is_null grown then done grown else store_between grown idx chars v.size
    else store_between s idx chars v.size

-- The string, and the character that is returned; `--s->size` wraps at zero.
unfoldable pub string_pop : TyString → Outcome (TyString × ℕ)
string_pop s =
    let size' = (s.size + size_max) % 2 ^ 64 in
    need s.buffer
    >>= (λ b. need (get_elem? b size'))
    >>= (λ c. done (record { buffer = s.buffer; size = size'; capacity = s.capacity }, c))

-- `s->size - idx - 1` wraps; a read of that many characters is then out of range.
unfoldable pub string_remove : TyString → ℕ → Outcome (TyString × ℕ)
string_remove s idx =
    let count = (s.size + (2 ^ 64 - idx % 2 ^ 64) + size_max) % 2 ^ 64 in
    need s.buffer >>= (λ b. need (get_elem? b idx) >>= (λ c.
      read_bytes b (idx + 1) count >>= (λ rest. write_bytes b idx rest) >>= (λ b'. done (
        record { buffer = some b'; size = (s.size + size_max) % 2 ^ 64; capacity = s.capacity },
        c,
      ))))
