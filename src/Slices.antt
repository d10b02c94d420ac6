-- ===== src/Slices.antt =====
-- The slices of src/ty_string.c and includes/ty_string.h.
-- A pointer is an object, the characters of an array, and an offset in it; a read outside
-- the object is a fault. `strncmp` and `strlen` belong to the C library: parameters.
mod Search
mod Fixes
mod Tests
use tyto_h.Base.{ℕ, zero, suc, ◌+◌, ◌-◌, ◌%◌, ◌^◌, ◌≤◌, ◌<◌, ◌≡◌, ap, Bool, true, false}
use tyto_h.Base.{not, ◌&&◌, Option, none, some, List, [], ◌∷◌, ◌>>=◌, ◌==◌, if◌then◌else◌}
use tyto_h.Base.{ltb, Outcome, need, length, get_elem?, get_or, take, drop}
use tyto_h.Base.{get_elem?-eq-get_or, ℤ, done, pos, negsuc}

pub record Slice : Type 0 where
  pub object : List ℕ
  pub start : ℕ
  pub size : ℕ

-- `s.buffer[i]`.
unfoldable pub slice_at : Slice → ℕ → Outcome ℕ
slice_at s i = need (get_elem? s.object (s.start + i))

-- The address of `s.buffer[i]` stays in the object: the offset.
unfoldable pub slice_ref : Slice → ℕ → ℕ
slice_ref s i = s.start + i

unfoldable pub slice_raw : Slice → List ℕ
slice_raw s = drop s.start s.object

unfoldable pub slice_size : Slice → ℕ
slice_size s = s.size

-- The literal "" is an array of one null character.
unfoldable pub slice_empty : Slice
slice_empty = record { object = 0 ∷ []; start = 0; size = 0 }

unfoldable pub slice_make : List ℕ → ℕ → ℕ → Slice
slice_make object start size = record { object = object; start = start; size = size }

-- Two pointers into one object.
unfoldable pub slice_range : List ℕ → ℕ → ℕ → Slice
slice_range object start end =
    if ltb end start
    then slice_make object end (start - end)
    else slice_make object start (end - start)

unfoldable pub slice_cstring : (strlen : List ℕ → ℕ) → List ℕ → Slice
slice_cstring strlen cstring = slice_make cstring 0 (strlen cstring)

unfoldable pub slice_cmp : (strncmp : List ℕ → List ℕ → ℕ → ℤ) → Slice → Slice → ℤ
slice_cmp strncmp s1 s2 =
    strncmp (slice_raw s1) (slice_raw s2) (if ltb s2.size s1.size then s2.size else s1.size)

unfoldable pub is_zero_int : ℤ → Bool
is_zero_int (pos n) = n == 0
is_zero_int (negsuc n) = false

unfoldable pub slice_eq : (strncmp : List ℕ → List ℕ → ℕ → ℤ) → Slice → Slice → Bool
slice_eq strncmp s1 s2 =
    s1.size == s2.size && is_zero_int (strncmp (slice_raw s1) (slice_raw s2) s1.size)

-- The loop that looks for a character from index `i` on, with `left` rounds to go.
unfoldable pub scan : Slice → ℕ → (left i : ℕ) → Outcome (Option ℕ)
scan s c zero i = done none
scan s c (suc left) i =
    let rest = scan s c left (suc i) in
    slice_at s i >>= (λ x. if x == c then done (some i) else rest)

-- What `slice_split` stores behind `pre` and `post`, and returns.
pub record Split : Type 0 where
  pub ret : Bool
  pub pre : Slice
  pub post : Slice

-- The slice behind the delimiter at `i`.
unfoldable pub after : Slice → ℕ → Slice
after s i = slice_make s.object (slice_ref s (i + 1)) (s.size - i - 1)

-- The empty slice at the end.
unfoldable pub at_end : Slice → Slice
at_end s = slice_make s.object (slice_ref s s.size) 0

unfoldable pub split_at : Slice → Option ℕ → Split
split_at s (some i) = record {
  ret = true;
  pre = slice_make s.object (slice_ref s 0) i;
  post = after s i;
}
split_at s none = record {
  ret = false;
  pre = slice_make s.object (slice_ref s 0) s.size;
  post = at_end s;
}

unfoldable pub slice_split : Slice → ℕ → Outcome Split
slice_split s delim = scan s delim s.size 0 >>= (λ found. done (split_at s found))

unfoldable pub split_n_at : Slice → Option ℕ → Split
split_n_at s (some i) = record { ret = true; pre = slice_make s.object s.start i; post = after s i }
split_n_at s none = record { ret = false; pre = s; post = at_end s }

unfoldable pub slice_split_n : Slice → ℕ → ℕ → Outcome Split
slice_split_n s delim n =
    scan s delim (if ltb n s.size then n else s.size) 0 >>= (λ found. done (split_n_at s found))

unfoldable pub slice_is_empty : Slice → Bool
slice_is_empty s = s.size == 0

abbrev is_found : Option ℕ → Bool
is_found none = false
is_found (some i) = true

unfoldable pub slice_has : Slice → ℕ → Outcome Bool
slice_has s c = scan s c s.size 0 >>= (λ found. done (is_found found))

-- The index, where there is one, is what the code stores behind `idx`.
unfoldable pub slice_find : Slice → ℕ → Outcome (Option ℕ)
slice_find s c = scan s c s.size 0

unfoldable pub rfind_loop : Slice → ℕ → ℕ → Outcome (Option ℕ)
rfind_loop s c zero = done none
rfind_loop s c (suc i) =
    let rest = rfind_loop s c i in slice_at s i >>= (λ x. if x == c then done (some i) else rest)

unfoldable pub slice_rfind : Slice → ℕ → Outcome (Option ℕ)
slice_rfind s c = rfind_loop s c s.size

unfoldable pub count_loop : Slice → ℕ → (left i count : ℕ) → Outcome ℕ
count_loop s c zero i count = done count
count_loop s c (suc left) i count =
    slice_at s i
    >>= (λ x. count_loop s c left (suc i) (if x == c then (count + 1) % 2 ^ 64 else count))

unfoldable pub slice_count : Slice → ℕ → Outcome ℕ
slice_count s c = count_loop s c s.size 0 0

unfoldable pub starts_loop : Slice → Slice → (left i : ℕ) → Outcome Bool
starts_loop s prefix zero i = done true
starts_loop s prefix (suc left) i =
    let rest = starts_loop s prefix left (suc i) in
    slice_at prefix i >>= (λ x. slice_at s i >>= (λ y. if not (x == y) then done false else rest))

unfoldable pub slice_starts_with : Slice → Slice → Outcome Bool
slice_starts_with s prefix =
    let looked = starts_loop s prefix prefix.size 0 in
    if ltb s.size prefix.size then done false else looked

-- The loop of `slice_ends_with`; `i` and `j` count down together.
unfoldable pub ends_loop : Slice → Slice → (i j : ℕ) → Outcome Bool
ends_loop s postfix i zero = done true
ends_loop s postfix i (suc j) =
    let rest = ends_loop s postfix (i - 1) j in
    slice_at s (i - 1)
    >>= (λ x. slice_at postfix j >>= (λ y. if not (x == y) then done false else rest))

unfoldable pub slice_ends_with : Slice → Slice → Outcome Bool
slice_ends_with s postfix =
    let looked = ends_loop s postfix s.size postfix.size in
    if ltb s.size postfix.size then done false else looked

-- The characters of a slice, and that they lie in its object.
unfoldable pub text : Slice → List ℕ
text s = take s.size (slice_raw s)

unfoldable pub Valid : Slice → Type 0
Valid s = s.start + s.size ≤ length s.object

unfoldable pub char_of : Slice → ℕ → ℕ
char_of s i = get_or s.object (s.start + i) 0

pub slice_at-char_of :
    (s : Slice) (i : ℕ) → s.start + i < length s.object → slice_at s i ≡ done (char_of s i)
unfolding slice_at char_of
slice_at-char_of s i h = ap need (get_elem?-eq-get_or s.object (s.start + i) 0 h)
