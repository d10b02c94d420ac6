-- ===== src/Slices/Search.antt =====
-- Searching and splitting slices of src/ty_string.c.
use tyto_h.Base.{ℕ, zero, suc, ◌+◌, ◌-◌, ◌≤◌, ◌<◌, ◌≡◌, refl, sym, ap, ◌∙◌, ◌≢◌, inl, inr}
use tyto_h.Base.{true, false, Option, none, some, List, [], ◌∷◌, ◌++◌, arith, ◌>>=◌, ◌==◌}
use tyto_h.Base.{Bool-cases, length, get_or, take, drop, length-drop, get_or-drop, done}
use mathlib.Core.Path.{ap₂}
use native.Mathlib.Decide.{dec_lt}
use tyto_h.Slices.{Slice, Valid, Split, scan, rfind_loop, char_of, slice_at-char_of}
use tyto_h.Slices.{slice_split, slice_find, slice_rfind, split_at, text}
use tyto_h.Slices.{after, at_end, slice_make, slice_ref, slice_raw}

-- What a search from `i` up to `n` may answer: the first place, or none.
pub data First (s : Slice) (c i n : ℕ) : Option ℕ → Type 0 where
  at :
      (k : ℕ)
      → i ≤ k
      → k < n
      → char_of s k ≡ c
      → ((j : ℕ) → i ≤ j → j < k → char_of s j ≢ c)
      → First s c i n (some k)
  nowhere : ((j : ℕ) → i ≤ j → j < n → char_of s j ≢ c) → First s c i n none

later :
    (s : Slice) (c i k : ℕ)
    → char_of s i ≢ c
    → ((j : ℕ) → suc i ≤ j → j < k → char_of s j ≢ c)
    → (j : ℕ) → i ≤ j
    → j < k
    → char_of s j ≢ c
later s c i k ne f j a b = elim (dec_lt i j) [
  | yes p ↦ f j (omega arith) b
  | no p ↦ λ e. ne (ap (char_of s) {x = i} {y = j} (omega arith) ∙ e)
]

First-later :
    (s : Slice) (c i n : ℕ) (o : Option ℕ)
    → char_of s i ≢ c
    → First s c (suc i) n o
    → First s c i n o
First-later s c i n (some _) ne (First.at k a b e f) =
    First.at k (omega arith) b e (later s c i k ne f)
First-later s c i n none ne (First.nowhere f) = First.nowhere (later s c i n ne f)

scan-First :
    (s : Slice) (c left i n : ℕ)
    → i + left ≡ n
    → s.start + n ≤ length s.object
    → (o : Option ℕ) × ((scan s c left i ≡ done o) × First s c i n o)
unfolding scan
scan-First s c zero i n e h = (none, (refl, First.nowhere (λ j a b. absurd (omega arith))))
scan-First s c (suc left) i n e h =
    rw (slice_at-char_of s i (omega arith)) (elim (Bool-cases (char_of s i == c)) [
      | inl t ↦ rw t (
        some i,
        (
          refl,
          First.at i (omega arith) (omega arith) (ground arith) (λ j a b. absurd (omega arith)),
        ),
      )
      | inr f ↦ rw f (
          let r = scan-First s c left (suc i) n (omega arith) h in
          (r.0, (r.1.0, First-later s c i n r.0 (ground arith) r.1.1)))
    ])

slice_find-First :
    (s : Slice) (c : ℕ)
    → Valid s
    → (o : Option ℕ) × ((slice_find s c ≡ done o) × First s c 0 s.size o)
unfolding slice_find Valid
slice_find-First s c v = scan-First s c s.size 0 s.size (omega arith) v

-- What a search from the end may answer: the last place below `n`, or none.
pub data Last (s : Slice) (c n : ℕ) : Option ℕ → Type 0 where
  at :
      (k : ℕ)
      → k < n
      → char_of s k ≡ c
      → ((j : ℕ) → k < j → j < n → char_of s j ≢ c)
      → Last s c n (some k)
  nowhere : ((j : ℕ) → j < n → char_of s j ≢ c) → Last s c n none

beyond :
    (s : Slice) (c k n : ℕ)
    → char_of s n ≢ c
    → ((j : ℕ) → k < j → j < n → char_of s j ≢ c)
    → (j : ℕ) → k < j
    → j < suc n
    → char_of s j ≢ c
beyond s c k n ne f j a b = elim (dec_lt j n) [
  | yes p ↦ f j a p
  | no p ↦ λ e. ne (ap (char_of s) {x = n} {y = j} (omega arith) ∙ e)
]

Last-beyond :
    (s : Slice) (c n : ℕ) (o : Option ℕ) → char_of s n ≢ c → Last s c n o → Last s c (suc n) o
Last-beyond s c n (some _) ne (Last.at k b e f) = Last.at k (omega arith) e (beyond s c k n ne f)
Last-beyond s c n none ne (Last.nowhere f) = Last.nowhere (λ j b. elim (dec_lt j n) [
  | yes p ↦ f j p
  | no p ↦ λ e. ne (ap (char_of s) {x = n} {y = j} (omega arith) ∙ e)
])

rfind_loop-Last :
    (s : Slice) (c n : ℕ)
    → s.start + n ≤ length s.object
    → (o : Option ℕ) × ((rfind_loop s c n ≡ done o) × Last s c n o)
unfolding rfind_loop
rfind_loop-Last s c zero h = (none, (refl, Last.nowhere (λ j b. absurd (omega arith))))
rfind_loop-Last s c (suc n) h =
    rw (slice_at-char_of s n (omega arith)) (elim (Bool-cases (char_of s n == c)) [
      | inl t ↦
          rw t
            (some n, (refl, Last.at n (omega arith) (ground arith) (λ j a b. absurd (omega arith))))
      | inr f ↦ rw f (
          let r = rfind_loop-Last s c n (omega arith) in
          (r.0, (r.1.0, Last-beyond s c n r.0 (ground arith) r.1.1)))
    ])

slice_rfind-Last :
    (s : Slice) (c : ℕ)
    → Valid s
    → (o : Option ℕ) × ((slice_rfind s c ≡ done o) × Last s c s.size o)
unfolding slice_rfind Valid
slice_rfind-Last s c v = rfind_loop-Last s c s.size v

-- In a slice within its object, `slice_find` and `slice_rfind` end without a fault, and answer
-- the first and the last place of the character, or none if it stands nowhere in the slice.
pub slice_find-slice_rfind :
    (s : Slice) (c : ℕ)
    → Valid s
    → ((o : Option ℕ) × ((slice_find s c ≡ done o) × First s c 0 s.size o))
      × ((o : Option ℕ) × ((slice_rfind s c ≡ done o) × Last s c s.size o))
slice_find-slice_rfind s c v = (slice_find-First s c v, slice_rfind-Last s c v)

-- What a split at the delimiter gives: the text before its first place and the text behind
-- it, or the whole text and nothing.
pub data Parted (s : Slice) (c : ℕ) (r : Split) : Type 0 where
  parted :
      r.ret ≡ true
      → text s ≡ text r.pre ++ c ∷ text r.post
      → ((j : ℕ) → j < r.pre.size → char_of r.pre j ≢ c)
      → Parted s c r
  whole :
      r.ret ≡ false
      → text r.pre ≡ text s
      → text r.post ≡ []
      → ((j : ℕ) → j < s.size → char_of s j ≢ c)
      → Parted s c r

take-at :
    (xs : List ℕ) (k n : ℕ)
    → k < n
    → n ≤ length xs
    → take n xs ≡ take k xs ++ get_or xs k 0 ∷ take (n - k - 1) (drop (suc k) xs)
take-at [] k n a b = absurd (omega arith)
take-at (x ∷ xs) zero (suc n) a b = ap (λ m. x ∷ take m xs) {x = n} (omega arith)
take-at (x ∷ xs) (suc k) (suc n) a b =
    ap (λ t. x ∷ t)
      (take-at xs k n (omega arith) (omega arith)
        ∙ ap (λ m. take k xs ++ get_or xs k 0 ∷ take m (drop (suc k) xs)) {x = n - k - 1}
            {y = suc n - suc k - 1} (omega arith))
take-at xs k zero a b = absurd (omega arith)

drop-nil : (k : ℕ) → drop {A = ℕ} k [] ≡ []
drop-nil zero = refl
drop-nil (suc k) = refl

drop-drop : (xs : List ℕ) (p k : ℕ) → drop k (drop p xs) ≡ drop (p + k) xs
drop-drop xs zero k = ap (λ m. drop m xs) {x = k} (omega arith)
drop-drop [] (suc p) zero = sym (drop-nil (suc p + 0))
drop-drop [] (suc p) (suc k) = sym (drop-nil (suc p + suc k))
drop-drop (x ∷ xs) (suc p) k =
    drop-drop xs p k ∙ ap (λ m. drop m (x ∷ xs)) {x = suc (p + k)} {y = suc p + k} (omega arith)

text-at :
    (s : Slice) (c k : ℕ)
    → Valid s
    → k < s.size
    → char_of s k ≡ c
    → text s ≡ text (slice_make s.object s.start k) ++ c ∷ text (after s k)
unfolding text slice_raw slice_make after slice_ref char_of Valid
text-at s c k v h e =
    take-at (drop s.start s.object) k s.size h (omega (arith, length-drop s.start s.object))
    ∙ ap₂ (λ x t. take k (drop s.start s.object) ++ x ∷ t)
        (get_or-drop s.object s.start k 0
          ∙ ap (λ i. get_or s.object i 0) {x = k + s.start} {y = s.start + k} (omega arith)
          ∙ e)
        (ap (take (s.size - k - 1)) (
          drop-drop s.object s.start (suc k)
          ∙ ap (λ m. drop m s.object) {x = s.start + suc k} {y = s.start + (k + 1)} (omega arith)))

slice_ref-zero : (s : Slice) → slice_ref s 0 ≡ s.start
unfolding slice_ref
slice_ref-zero s = omega arith

text-pre :
    (s : Slice) (k : ℕ)
    → text (slice_make s.object (slice_ref s 0) k) ≡ text (slice_make s.object s.start k)
text-pre s k = ap (λ p. text (slice_make s.object p k)) (slice_ref-zero s)

char_of-pre :
    (s : Slice) (k j : ℕ) → char_of (slice_make s.object (slice_ref s 0) k) j ≡ char_of s j
unfolding char_of slice_make
char_of-pre s k j = ap (λ p. get_or s.object (p + j) 0) (slice_ref-zero s)

text-whole : (s : Slice) → text (slice_make s.object s.start s.size) ≡ text s
unfolding text slice_raw slice_make
text-whole s = refl

text-at_end : (s : Slice) → text (at_end s) ≡ []
unfolding text slice_raw slice_make at_end
text-at_end s = refl

split_at-Parted :
    (s : Slice) (c : ℕ) (o : Option ℕ) → Valid s → First s c 0 s.size o → Parted s c (split_at s o)
unfolding split_at slice_make
split_at-Parted s c (some _) v (First.at k a b e f) =
    Parted.parted refl
      (text-at s c k v b e ∙ ap (λ t. t ++ c ∷ text (after s k)) (sym (text-pre s k)))
      (λ j lt h. f j (omega arith) lt (sym (char_of-pre s k j) ∙ h))
split_at-Parted s c none v (First.nowhere f) =
    Parted.whole refl (text-pre s s.size ∙ text-whole s) (text-at_end s)
      (λ j b. f j (omega arith) b)

-- In a slice within its object, `slice_split` ends without a fault: it either returns true,
-- with the text before the first delimiter, which does not hold it, and the text behind it,
-- or it returns false, with the whole text, which does not hold it, and an empty one.
pub slice_split-Parted :
    (s : Slice) (c : ℕ) → Valid s → (r : Split) × ((slice_split s c ≡ done r) × Parted s c r)
unfolding slice_split Valid
slice_split-Parted s c v =
    let found = scan-First s c s.size 0 s.size (omega arith) v in
    (
      split_at s found.0,
      (
        ap (λ o. o >>= (λ f. done (split_at s f))) found.1.0,
        split_at-Parted s c found.0 v found.1.1,
      ),
    )
