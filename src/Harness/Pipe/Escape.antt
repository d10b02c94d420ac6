-- ===== src/Harness/Pipe/Escape.antt =====
-- The escapes of src/ty_test.c: a text is escaped, split off at its bar, and unescaped again.
use tyto_h.Base.{ℕ, zero, suc, ◌+◌, ◌≤◌, ◌≡◌, refl, ap, ◌∙◌, inl, inr, true, false, some}
use tyto_h.Base.{List, [], ◌∷◌, ◌++◌, map, arith, if◌then◌else◌, Bool-cases, length}
use tyto_h.Harness.Pipe.{backslash, bar, is_special, escaped, scan_field, split_fields, unescape}

-- Escaping with room enough.
unfoldable pub escape : List ℕ → List ℕ
escape [] = []
escape (c ∷ s) = let rest = escape s in if is_special c then backslash ∷ c ∷ rest else c ∷ rest

-- Fields, a bar behind each.
unfoldable pub line_of : List (List ℕ) → List ℕ
line_of [] = []
line_of (f ∷ fs) = f ++ bar ∷ line_of fs

abbrev pub All {ℓ κ} : {A : Type ℓ} → (A → Type κ) → List A → Type κ
All P [] = Unit
All P (x ∷ xs) = P x × All P xs

abbrev pub total : List (List ℕ) → ℕ
total [] = 0
total (f ∷ fs) = length f + 1 + total fs

pub escaped-escape : (room : ℕ) (s : List ℕ) → length (escape s) ≤ room → escaped room s ≡ escape s
unfolding escaped escape
escaped-escape room [] h = refl
escaped-escape zero (c ∷ s) h = absurd (ground arith)
escaped-escape (suc zero) (c ∷ s) h = ground (arith, escaped-escape 0 s)
escaped-escape (suc (suc room)) (c ∷ s) h =
    ground (arith, escaped-escape room s, escaped-escape (suc room) s)

scan_field-bar : (t : List ℕ) → scan_field (bar ∷ t) ≡ ([], some t)
unfolding scan_field
scan_field-bar [] = refl
scan_field-bar (d ∷ t) = refl

scan_field_plain :
    (c : ℕ) (t : List ℕ)
    → is_special c ≡ false
    → scan_field (c ∷ t) ≡ (c ∷ (scan_field t).0, (scan_field t).1)
unfolding scan_field is_special
scan_field_plain c [] e = ground arith
scan_field_plain c (d ∷ t) e = ground arith

scan_field_pair :
    (d : ℕ) (t : List ℕ)
    → scan_field (backslash ∷ d ∷ t) ≡ (backslash ∷ d ∷ (scan_field t).0, (scan_field t).1)
unfolding scan_field
scan_field_pair d t = refl

scan_field-escape : (s rest : List ℕ) → scan_field (escape s ++ bar ∷ rest) ≡ (escape s, some rest)
unfolding escape
scan_field-escape [] rest = scan_field-bar rest
scan_field-escape (c ∷ s) rest = elim (Bool-cases (is_special c)) [
  | inl t ↦ rw t (
      scan_field_pair c (escape s ++ bar ∷ rest)
      ∙ ap (λ r. (backslash ∷ c ∷ r.0, r.1)) (scan_field-escape s rest))
  | inr f ↦ rw f (
      scan_field_plain c (escape s ++ bar ∷ rest) f
      ∙ ap (λ r. (c ∷ r.0, r.1)) (scan_field-escape s rest))
]

unescape_plain : (c : ℕ) (t : List ℕ) → is_special c ≡ false → unescape (c ∷ t) ≡ c ∷ unescape t
unfolding unescape is_special
unescape_plain c [] e = refl
unescape_plain c (d ∷ t) e = ground arith

unescape_pair :
    (c : ℕ) (t : List ℕ) → is_special c ≡ true → unescape (backslash ∷ c ∷ t) ≡ c ∷ unescape t
unfolding unescape is_special
unescape_pair c t e = rw e refl

unescape_nil : unescape [] ≡ []
unfolding unescape
unescape_nil = refl

pub unescape-escape : (s : List ℕ) → unescape (escape s) ≡ s
unfolding escape
unescape-escape [] = unescape_nil
unescape-escape (c ∷ s) = elim (Bool-cases (is_special c)) [
  | inl t ↦ rw t (unescape_pair c (escape s) t ∙ ap (λ t. c ∷ t) (unescape-escape s))
  | inr f ↦ rw f (unescape_plain c (escape s) f ∙ ap (λ t. c ∷ t) (unescape-escape s))
]

split_fields_none : split_fields 0 [] ≡ []
unfolding split_fields
split_fields_none = refl

split_fields_next :
    (n : ℕ) (f s rest : List ℕ)
    → scan_field s ≡ (f, some rest)
    → split_fields (suc n) s ≡ f ∷ split_fields n rest
unfolding split_fields
split_fields_next n f s rest e = rw (split_fields, ap (λ r. r.1) e, ap (λ r. r.0) e) refl

pub split_fields-line_of :
    (fs : List (List ℕ)) → split_fields (length fs) (line_of (map escape fs)) ≡ map escape fs
unfolding line_of
split_fields-line_of [] = split_fields_none
split_fields-line_of (f ∷ fs) =
    rw
      (split_fields_next (length fs) (escape f) _ _ (scan_field-escape f (line_of (map escape fs))))
      (ap (λ t. escape f ∷ t) (split_fields-line_of fs))
