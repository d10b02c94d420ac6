-- ===== src/Errors.antt =====
-- The error values of includes/ty_err.h: a small code that is stored in a pointer of 64 bits.
mod Tests
use tyto_h.Base.{ℕ, ◌-◌, ◌%◌, ◌^◌, ◌<◌, ◌≡◌, ◌≢◌, inl, inr, Bool, true, false, not, ◌&&◌}
use tyto_h.Base.{arith, if◌then◌else◌, ltb, leb, Bool-cases, ℤ, pos, negsuc}

-- `TY_ERRPTR_MAX`.
unfoldable pub errptr_max : ℕ
errptr_max = 4095

-- The word of an `intptr_t`, and the `intptr_t` of a word.
unfoldable pub word_of : ℤ → ℕ
word_of (pos n) = n % 2 ^ 64
word_of (negsuc n) = 2 ^ 64 - 1 - n % 2 ^ 64

unfoldable pub signed64 : ℕ → ℤ
signed64 w = if leb (2 ^ 63) w then negsuc (2 ^ 64 - 1 - w) else pos w

-- The unary minus on words.
abbrev pub minus : ℕ → ℕ
minus w = (2 ^ 64 - w) % 2 ^ 64

unfoldable pub err : ℤ → ℕ
err code = minus (word_of code)

unfoldable pub is_err : ℕ → Bool
is_err ptr = leb (minus errptr_max) ptr

unfoldable pub is_ok : ℕ → Bool
is_ok ptr = not (is_err ptr)

unfoldable pub err_code : ℕ → ℤ
err_code ptr = signed64 (minus ptr)

unfoldable pub try_or {ℓ} : {A : Type ℓ} → (ptr : ℕ) → (exp_a exp_b : A) → A
try_or ptr exp_a exp_b = if is_err ptr then exp_a else exp_b

-- The codes that an error pointer can carry.
abbrev pub is_code : ℤ → Bool
is_code (pos n) = ltb 0 n && leb n 4095
is_code (negsuc n) = false

-- An `intptr_t` whose negation is one too.
abbrev pub Negatable : ℤ → Type 0
Negatable (pos n) = n < 2 ^ 63
Negatable (negsuc n) = n < 2 ^ 63 - 1

decoded : (code : ℤ) → Negatable code → err_code (err code) ≡ code
unfolding err err_code signed64 word_of
decoded (pos n) h = ground arith
decoded (negsuc n) h = ground arith

told : (code : ℤ) → Negatable code → is_err (err code) ≡ is_code code
unfolding err is_err word_of errptr_max
told (pos n) h = ground arith
told (negsuc n) h = ground arith

encoded : (ptr : ℕ) → ptr < 2 ^ 64 → ptr ≢ 2 ^ 63 → err (err_code ptr) ≡ ptr
unfolding err err_code signed64 word_of
encoded ptr lt ne = elim (Bool-cases (leb (2 ^ 63) (minus ptr))) [
  | inl t ↦ rw t (ground arith)
  | inr f ↦ rw f (ground arith)
]

-- A code that can be negated comes back from the pointer that `ERR` makes of it, and `IS_ERR`
-- takes that pointer for an error exactly if the code lies between 1 and 4095; and a pointer
-- other than 2^63 comes back from the code that `ERR_CODE` makes of it.
pub err_code-err :
    (code : ℤ) (ptr : ℕ)
    → Negatable code
    → ptr < 2 ^ 64
    → ptr ≢ 2 ^ 63
    → (err_code (err code) ≡ code)
      × ((is_err (err code) ≡ is_code code) × (err (err_code ptr) ≡ ptr))
err_code-err code ptr h lt ne = (decoded code h, (told code h, encoded ptr lt ne))
