-- ===== src/Bignum/Text/Tests.antt =====
-- A number that is printed and read again.
use tyto_h.Base.{ℕ, zero, suc, ◌+◌, ◌/◌, ◌%◌, ◌^◌, ◌<◌, ◌≡◌, refl, sym, ap, ◌∙◌, some}
use tyto_h.Base.{List, [], ◌∷◌, ◌++◌, arith, if◌then◌else◌, ltb, codes, length, take}
use tyto_h.Base.{replicate, length-append, take_prefix, done}
use tyto_h.Bignum.{Bn, init}
use tyto_h.Bignum.Arith.{from_int}
use tyto_h.Bignum.Arith.Order.{val-from_int}
use tyto_h.Bignum.Value.{val}
use tyto_h.Bignum.Text.{to_str, from_str, from_loop}
use tyto_h.Bignum.Text.Digits.{AllHex, hex, digit, Formats, Scans, hex-append, append-AllHex}
use tyto_h.Bignum.Text.Strip.{NoZero}
use tyto_h.Bignum.Text.RoundTrip.{padded, from_str-to_str}
use native.Mathlib.Nat.{pow-suc}

abbrev digit_char : ℕ → ℕ
digit_char d = if ltb d 10 then 48 + d else 87 + d

-- The digits of a word, so many of them.
word_text : ℕ → ℕ → List ℕ
word_text zero w = []
word_text (suc k) w = word_text k (w / 16) ++ digit_char (w % 16) ∷ []

length-word_text : (k w : ℕ) → length (word_text k w) ≡ k
unfolding word_text
length-word_text zero w = refl
length-word_text (suc k) w = omega (
  arith,
  length-append (word_text k (w / 16)) (digit_char (w % 16) ∷ []),
  length-word_text k (w / 16),
)

word_text-AllHex : (k w : ℕ) → AllHex (word_text k w)
unfolding word_text
word_text-AllHex zero w = tt
word_text-AllHex (suc k) w =
    append-AllHex (word_text k (w / 16)) (digit_char (w % 16) ∷ []) (word_text-AllHex k (w / 16))
      (ground arith, tt)

hex-word_text : (k w : ℕ) → w < 16 ^ k → hex (word_text k w) ≡ w
unfolding word_text hex digit
hex-word_text zero w h = omega arith
hex-word_text (suc k) w h =
    let last : digit (digit_char (w % 16)) ≡ w % 16 = ground arith in
    hex-append (word_text k (w / 16)) (digit_char (w % 16) ∷ [])
    ∙ omega (arith, hex-word_text k (w / 16) (omega (arith, pow-suc 16 k)), last)

abbrev format : ℕ → List ℕ
format w = word_text 8 w

format-Formats : Formats format
format-Formats = record {
  eight = λ w h. length-word_text 8 w;
  digits = λ w h. word_text-AllHex 8 w;
  spells = λ w h. hex-word_text 8 w (omega arith);
}

abbrev scan : List ℕ → ℕ
scan s = hex (take 8 s)

scan-Scans : Scans scan
scan-Scans s rest len h = ap hex (take_prefix s rest 8 (sym len))

abbrev number : Bn
number = from_int 0xb0b

abbrev buffer : List ℕ
buffer = replicate 257 7

from_str-to_str_example :
    (text : List ℕ) × ((tail : List ℕ) × ((to_str format number buffer 256
          ≡ done (some (text ++ 0 ∷ tail)))
        × (AllHex text
            × (NoZero text
                × ((hex text ≡ val number)
                    × (from_str scan (padded text ++ 0 ∷ tail) (length (padded text))
                        ≡ done (some number)))))))
from_str-to_str_example =
    from_str-to_str format scan number buffer 256 format-Formats scan-Scans
      (val-from_int 0xb0b (omega arith)).0 (omega arith) (omega arith) (omega arith)

reads : from_str scan (codes "00000b0b") 8 ≡ done (some number)
unfolding from_str from_loop init from_int hex digit
reads = refl
