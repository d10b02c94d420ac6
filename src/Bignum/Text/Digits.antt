-- ===== src/Bignum/Text/Digits.antt =====
-- The number that hexadecimal digits spell, and what is assumed of `sscanf` and `sprintf`.
use tyto_h.Base.{ℕ, zero, suc, ◌+◌, ◌-◌, ◌*◌, ◌^◌, ◌≤◌, ◌<◌, ◌≡◌, refl, sym, ap, ◌∙◌, ◌⊎◌}
use tyto_h.Base.{List, [], ◌∷◌, ◌++◌, arith, if◌then◌else◌, leb, pow-add, length, take}
use tyto_h.Base.{drop, length-append}
use tyto_h.Bignum.Value.{base}
use tyto_h.Bignum.Text.{word_digits}
use native.Mathlib.Nat.{pow-suc, mul-le-mul_right}

-- '0' to '9' or 'a' to 'f', as "%x" writes them.
abbrev pub IsHex : ℕ → Type 0
IsHex c = ((48 ≤ c) × (c ≤ 57)) ⊎ ((97 ≤ c) × (c ≤ 102))

unfoldable pub digit : ℕ → ℕ
digit c = if leb c 57 then c - 48 else c - 87

abbrev pub AllHex : List ℕ → Type 0
AllHex [] = Unit {0}
AllHex (c ∷ s) = IsHex c × AllHex s

-- The number of a text, the highest digit first.
unfoldable pub hex : List ℕ → ℕ
hex [] = 0
hex (c ∷ s) = digit c * 16 ^ length s + hex s

-- `sprintf` with "%.08x" writes 8 digits that spell the word.
pub record Formats (format : ℕ → List ℕ) : Type 0 where
  pub eight : (w : ℕ) → w < 2 ^ 32 → length (format w) ≡ word_digits
  pub digits : (w : ℕ) → w < 2 ^ 32 → AllHex (format w)
  pub spells : (w : ℕ) → w < 2 ^ 32 → hex (format w) ≡ w

-- `sscanf` with "%8x" reads 8 digits, whatever follows them.
abbrev pub Scans : (List ℕ → ℕ) → Type 0
Scans scan = (s rest : List ℕ) → length s ≡ word_digits → AllHex s → scan (s ++ rest) ≡ hex s

pub digit_lt : (c : ℕ) → IsHex c → digit c < 16
unfolding digit
digit_lt c h = ground arith

pub hex_lt : (s : List ℕ) → AllHex s → hex s < 16 ^ length s
unfolding hex
hex_lt [] h = omega arith
hex_lt (c ∷ s) h = omega (
  arith,
  pow-suc 16 (length s),
  hex_lt s h.1,
  mul-le-mul_right {m = digit c} {n = 15} (16 ^ length s) (omega (arith, digit_lt c h.0)),
)

pub hex-append : (s t : List ℕ) → hex (s ++ t) ≡ hex s * 16 ^ length t + hex t
unfolding hex
hex-append [] t = omega arith
hex-append (c ∷ s) t = omega (
  arith,
  hex-append s t,
  ap (λ (n : ℕ). digit c * n)
      (ap (λ n. 16 ^ n) (length-append s t) ∙ pow-add 16 (length s) (length t)),
)

pub append-AllHex : (s t : List ℕ) → AllHex s → AllHex t → AllHex (s ++ t)
append-AllHex [] t h h' = h'
append-AllHex (c ∷ s) t h h' = (h.0, append-AllHex s t h.1 h')

pub take-AllHex : (n : ℕ) (s : List ℕ) → AllHex s → AllHex (take n s)
take-AllHex zero s h = tt
take-AllHex (suc n) [] h = tt
take-AllHex (suc n) (c ∷ s) h = (h.0, take-AllHex n s h.1)

pub drop-AllHex : (n : ℕ) (s : List ℕ) → AllHex s → AllHex (drop n s)
drop-AllHex zero s h = h
drop-AllHex (suc n) [] h = tt
drop-AllHex (suc n) (c ∷ s) h = drop-AllHex n s h.1

-- A word of 8 digits for each place of the base.
pub base-hex : (n : ℕ) → base ^ n ≡ 16 ^ (n * 8)
base-hex zero = refl
base-hex (suc n) =
    pow-suc base n
    ∙ ap (λ (t : ℕ). t * base) (base-hex n)
    ∙ sym (pow-add 16 (n * 8) 8)
    ∙ ap (λ (t : ℕ). 16 ^ t) {x = n * 8 + 8} {y = suc n * 8} (omega arith)
