-- ===== src/Harness/Names.antt =====
-- The name of a suite in src/ty_test.c: `_ty_base_strip_extension` of the file, where a test
-- has no suite of its own. `strdup` is a parameter: whether it has memory.
use tyto_h.Base.{ℕ, ◌≡◌, refl, ap, ◌≢◌, ◌⊎◌, inl, inr, Bool, true, false, Option, none}
use tyto_h.Base.{some, List, [], ◌∷◌, ◌++◌, arith, ◌==◌, if◌then◌else◌, ==_iff}
use tyto_h.Base.{Bool-cases, take, length, length-append}

-- The text behind the last `c`, as `strrchr` finds it, and the text in front of it.
unfoldable pub behind_last : ℕ → List ℕ → Option (List ℕ)
behind_last c [] = none
behind_last c (x ∷ s) = elim (behind_last c s) [
  | some t ↦ some t
  | none ↦ if x == c then some s else none
]

unfoldable pub before_last : ℕ → List ℕ → Option (List ℕ)
before_last c [] = none
before_last c (x ∷ s) = elim (before_last c s) [
  | some t ↦ some (x ∷ t)
  | none ↦ if x == c then some [] else none
]

abbrev pub quote : ℕ
quote = 34

unfoldable pub strip_back : List ℕ → List ℕ
strip_back [] = []
strip_back (c ∷ []) = if c == quote then [] else c ∷ []
strip_back (c ∷ d ∷ s) = c ∷ strip_back (d ∷ s)

unfoldable pub strip_front : List ℕ → List ℕ
strip_front [] = []
strip_front (c ∷ s) = if c == quote then s else c ∷ s

abbrev or_whole : List ℕ → Option (List ℕ) → List ℕ
or_whole s none = s
or_whole s (some t) = t

-- `buffer` has 256 characters, one of them for the null character.
unfoldable pub base_strip_extension : List ℕ → List ℕ
base_strip_extension filename =
    let base = or_whole filename (behind_last 47 filename) in
    let buffer = take 255 (strip_front (strip_back base)) in or_whole buffer (before_last 46 buffer)

unfoldable pub suite_of : (strdup_ok : Bool) → Option (List ℕ) → List ℕ → Option (List ℕ)
suite_of strdup_ok (some suite) file_name = some suite
suite_of strdup_ok none file_name =
    if strdup_ok then some (base_strip_extension file_name) else none

-- No character of the text is `c`.
unfoldable pub Lacks : ℕ → List ℕ → Type 0
Lacks c [] = Unit
Lacks c (x ∷ s) = (x ≢ c) × Lacks c s

-- What follows the last slash, or all of it.
pub data BaseOf (file base : List ℕ) : Type 0 where
  whole : file ≡ base → Lacks 47 file → BaseOf file base
  behind : (directory : List ℕ) → file ≡ directory ++ 47 ∷ base → Lacks 47 base → BaseOf file base

-- Less one quote at the end, if there is one.
pub data BackOf (s t : List ℕ) : Type 0 where
  quoted_back : s ≡ t ++ quote ∷ [] → BackOf s t
  plain_back : s ≡ t → ((u : List ℕ) → s ≢ u ++ quote ∷ []) → BackOf s t

-- Less one quote at the start, if there is one.
pub data FrontOf (s t : List ℕ) : Type 0 where
  quoted_front : s ≡ quote ∷ t → FrontOf s t
  plain_front : s ≡ t → ((u : List ℕ) → s ≢ quote ∷ u) → FrontOf s t

-- What is before the last dot, or all of it.
pub data StemOf (s stem : List ℕ) : Type 0 where
  bare : s ≡ stem → Lacks 46 s → StemOf s stem
  before : (extension : List ℕ) → s ≡ stem ++ 46 ∷ extension → Lacks 46 extension → StemOf s stem

-- The name of a file, without its directory, quotes and extension, from 255 characters.
pub record FileStem (file stem : List ℕ) : Type 0 where
  pub base : List ℕ
  pub unclosed : List ℕ
  pub unquoted : List ℕ
  pub in_directory : BaseOf file base
  pub at_back : BackOf base unclosed
  pub at_front : FrontOf unclosed unquoted
  pub without_extension : StemOf (take 255 unquoted) stem

-- The suite that a test is given: its own, else the name of the file, if there is memory for it.
pub data Named (strdup_ok : Bool) (own : Option (List ℕ)) (file : List ℕ) (given : Option (List ℕ))
    : Type 0 where
  by_itself : (s : List ℕ) → own ≡ some s → given ≡ some s → Named strdup_ok own file given
  by_file :
      (s : List ℕ)
      → own ≡ none
      → strdup_ok ≡ true
      → given ≡ some s
      → FileStem file s
      → Named strdup_ok own file given
  by_nothing : own ≡ none → strdup_ok ≡ false → given ≡ none → Named strdup_ok own file given

-- The text is cut at its last `c`, where it has one.
last-cases :
    (c : ℕ) (s : List ℕ)
    → ((behind_last c s ≡ none) × ((before_last c s ≡ none) × Lacks c s))
      ⊎ ((u : List ℕ) × ((v : List ℕ) × ((behind_last c s ≡ some v)
              × ((before_last c s ≡ some u) × ((s ≡ u ++ c ∷ v) × Lacks c v)))))
unfolding behind_last before_last Lacks
last-cases c [] = inl (refl, (refl, tt))
last-cases c (x ∷ s) = elim (last-cases c s) [
  | inr (u, (v, (b, (f, (e, k))))) ↦
      rw (b, f) (inr (x ∷ u, (v, (refl, (refl, (ap (λ xs. x ∷ xs) e, k))))))
  | inl (b, (f, k)) ↦
      rw (b, f)
        (elim (Bool-cases (x == c)) [
          | inl t ↦ rw t (inr ([], (s, (refl, (refl, (ap (λ y. y ∷ s) ((==_iff x c).0 t), k))))))
          | inr n ↦ rw n (inl (refl, (refl, ((λ e. absurd (ground arith)), k))))
        ])
]

base-BaseOf : (s : List ℕ) → BaseOf s (or_whole s (behind_last 47 s))
base-BaseOf s = elim (last-cases 47 s) [
  | inl (b, (f, k)) ↦ rw b (BaseOf.whole refl k)
  | inr (u, (v, (b, (f, (e, k))))) ↦ rw b (BaseOf.behind u e k)
]

stem-StemOf : (s : List ℕ) → StemOf s (or_whole s (before_last 46 s))
stem-StemOf s = elim (last-cases 46 s) [
  | inl (b, (f, k)) ↦ rw f (StemOf.bare refl k)
  | inr (u, (v, (b, (f, (e, k))))) ↦ rw f (StemOf.before v e k)
]

abbrev head_or : ℕ → List ℕ → ℕ
head_or k [] = k
head_or k (x ∷ s) = x

abbrev tail_of : List ℕ → List ℕ
tail_of [] = []
tail_of (x ∷ s) = s

strip_front-FrontOf : (s : List ℕ) → FrontOf s (strip_front s)
unfolding strip_front
strip_front-FrontOf [] = FrontOf.plain_front refl (λ u e. cc)
strip_front-FrontOf (c ∷ s) = elim (Bool-cases (c == quote)) [
  | inl t ↦ rw t (FrontOf.quoted_front (ap (λ x. x ∷ s) ((==_iff c quote).0 t)))
  | inr n ↦ rw n (FrontOf.plain_front refl (λ u e. absurd (ground (arith, ap (head_or 0) e))))
]

single : (c : ℕ) → (c == quote) ≡ false → (u : List ℕ) → c ∷ [] ≢ u ++ quote ∷ []
single c n [] e = absurd (ground (arith, ap (head_or 0) e))
single c n (y ∷ u) e = absurd (omega (arith, ap length e, length-append u (quote ∷ [])))

longer :
    (c d : ℕ) (s : List ℕ)
    → ((u : List ℕ) → d ∷ s ≢ u ++ quote ∷ [])
    → (u : List ℕ) → c ∷ d ∷ s ≢ u ++ quote ∷ []
longer c d s n [] e = absurd (omega (arith, ap length e))
longer c d s n (y ∷ u) e = n u (ap tail_of e)

strip_back-BackOf : (s : List ℕ) → BackOf s (strip_back s)
unfolding strip_back
strip_back-BackOf [] =
    BackOf.plain_back refl
      (λ u e. absurd (omega (arith, ap length e, length-append u (quote ∷ []))))
strip_back-BackOf (c ∷ []) = elim (Bool-cases (c == quote)) [
  | inl t ↦ rw t (BackOf.quoted_back (ap (λ x. x ∷ []) ((==_iff c quote).0 t)))
  | inr n ↦ rw n (BackOf.plain_back refl (λ u e. single c n u e))
]
strip_back-BackOf (c ∷ d ∷ s) = elim (strip_back-BackOf (d ∷ s)) [
  | BackOf.quoted_back e ↦ BackOf.quoted_back (ap (λ xs. c ∷ xs) e)
  | BackOf.plain_back e n ↦ BackOf.plain_back (ap (λ xs. c ∷ xs) e) (λ u e. longer c d s n u e)
]

-- The name that a test is registered under.
pub suite_of-Named :
    (strdup_ok : Bool) (own : Option (List ℕ)) (file : List ℕ)
    → Named strdup_ok own file (suite_of strdup_ok own file)
unfolding suite_of base_strip_extension
suite_of-Named strdup_ok (some s) file = Named.by_itself s refl refl
suite_of-Named false none file = Named.by_nothing refl refl refl
suite_of-Named true none file =
    let base = or_whole file (behind_last 47 file) in
    Named.by_file (base_strip_extension file) refl refl refl (record {
      base = base;
      unclosed = strip_back base;
      unquoted = strip_front (strip_back base);
      in_directory = base-BaseOf file;
      at_back = strip_back-BackOf base;
      at_front = strip_front-FrontOf (strip_back base);
      without_extension = stem-StemOf (take 255 (strip_front (strip_back base)));
    })
