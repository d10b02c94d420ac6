-- ===== src/Bignum/Text/RoundTrip.antt =====
-- What `ty_bignum_to_str` prints, `ty_bignum_from_str` reads back.
use tyto_h.Base.{ℕ, zero, suc, ◌+◌, ◌-◌, ◌*◌, ◌/◌, ◌%◌, ◌≤◌, ◌<◌, ◌≡◌, refl, sym, ap, ◌∙◌}
use tyto_h.Base.{inl, some, List, ◌∷◌, ◌++◌, arith, ◌==◌, if◌then◌else◌, length}
use tyto_h.Base.{replicate, length-append, length-replicate, done}
use tyto_h.Bignum.{Bn, array_size}
use tyto_h.Bignum.Value.{val, IsBn, val_injective}
use tyto_h.Bignum.Text.{to_str, from_str, digit_0}
use tyto_h.Bignum.Text.Digits.{AllHex, hex, digit, Formats, Scans, append-AllHex}
use tyto_h.Bignum.Text.Strip.{NoZero}
use tyto_h.Bignum.Text.Parse.{from_str-hex}
use tyto_h.Bignum.Text.Print.{to_str-hex}

-- The zeros in front of a text that bring its length to a multiple of 8, and at least 8.
unfoldable pub padding : ℕ → ℕ
padding n = if n == 0 then 8 else (8 - n % 8) % 8

unfoldable pub padded : List ℕ → List ℕ
padded text = replicate (padding (length text)) digit_0 ++ text

hex-replicate : (n : ℕ) (text : List ℕ) → hex (replicate n digit_0 ++ text) ≡ hex text
unfolding hex digit
hex-replicate zero text = refl
hex-replicate (suc n) text = omega (arith, hex-replicate n text)

replicate-AllHex : (n : ℕ) → AllHex (replicate n digit_0)
replicate-AllHex zero = tt
replicate-AllHex (suc n) = (inl (omega arith, omega arith), replicate-AllHex n)

length-padded :
    (text : List ℕ)
    → length text ≤ 256
    → (chunks : ℕ) × ((length (padded text) ≡ suc chunks * 8) × (chunks < array_size))
unfolding padded padding
length-padded text h =
    let n = padding (length text) + length text in
    let sum : length (padded text) ≡ n = omega (
      arith,
      length-append (replicate (padding (length text)) digit_0) text,
      length-replicate (padding (length text)) digit_0,
    ) in
    (n / 8 - 1, (ground (arith, sum), ground arith))

-- A number that `ty_bignum_to_str` prints into a buffer of more than `nbytes` characters, an
-- even number from 256 on, stands there as hexadecimal digits without a leading zero that
-- spell it, a null character behind them; and `ty_bignum_from_str` of these digits, with zeros
-- in front up to a multiple of 8, is the number again.
pub from_str-to_str :
    (format : ℕ → List ℕ) (scan : List ℕ → ℕ) (bn : Bn) (str : List ℕ) (nbytes : ℕ)
    → Formats format
    → Scans scan
    → IsBn bn
    → 256 ≤ nbytes
    → nbytes % 2 ≡ 0
    → nbytes < length str
    → (text : List ℕ) × ((tail : List ℕ) × ((to_str format bn str nbytes
            ≡ done (some (text ++ 0 ∷ tail)))
          × (AllHex text
              × (NoZero text
                  × ((hex text ≡ val bn)
                      × (from_str scan (padded text ++ 0 ∷ tail) (length (padded text))
                          ≡ done (some bn)))))))
unfolding padded
from_str-to_str format scan bn str nbytes law law' v large even room =
    let (text, (tail, (runs, (digits, (first, (spells, len)))))) =
      to_str-hex format bn str nbytes law v large even room in
    let zeros = replicate (padding (length text)) digit_0 in
    let p = length-padded text len in
    let r =
      from_str-hex scan (padded text) (0 ∷ tail) p.0 law' p.1.0
        (append-AllHex zeros text (replicate-AllHex (padding (length text))) digits) p.1.1 in
    let same : r.0 ≡ bn =
      val_injective r.0 bn (r.1.1.0.size ∙ sym v.size) r.1.1.0.words v.words
        (r.1.1.1 ∙ hex-replicate (padding (length text)) text ∙ spells) in
    (text, (tail, (runs, (digits, (first, (spells, r.1.0 ∙ ap (λ b. done (some b)) same))))))
