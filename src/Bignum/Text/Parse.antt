-- ===== src/Bignum/Text/Parse.antt =====
-- `ty_bignum_from_str` reads the number that hexadecimal digits spell.
use tyto_h.Base.{ℕ, zero, suc, ◌+◌, ◌*◌, ◌/◌, ◌%◌, ◌^◌, ◌≤◌, ◌<◌, ◌≡◌, refl, sym, ap, ◌∙◌}
use tyto_h.Base.{true, ◌&&◌, some, List, [], ◌∷◌, ◌++◌, arith, ◌==◌, ltb, leb, Outcome}
use tyto_h.Base.{length, get_or, set, take, drop, length-append, length-set, length-take}
use tyto_h.Base.{length-drop, drop-append, take-append-drop, get_or-set_ne, get_or-replicate}
use tyto_h.Base.{done}
use tyto_h.Bignum.{Bn, array_size, init}
use tyto_h.Bignum.Value.{base, val, IsWords, IsBn, init-IsBn, val-init}
use tyto_h.Bignum.Text.{from_str, from_loop}
use tyto_h.Bignum.Text.Digits.{AllHex, hex, Scans, hex_lt, hex-append, take-AllHex, drop-AllHex}
use mathlib.Core.List.{append_assoc}
use native.Mathlib.Nat.{pow-suc}

set-IsWords : (xs : List ℕ) (i w : ℕ) → w < base → IsWords xs → IsWords (set xs i w)
set-IsWords [] i w lt h = tt
set-IsWords (x ∷ xs) zero w lt h = (lt, h.1)
set-IsWords (x ∷ xs) (suc i) w lt h = (h.0, set-IsWords xs i w lt h.1)

-- A word that was zero is written.
val-set :
    (xs : List ℕ) (i w : ℕ)
    → i < length xs
    → get_or xs i 0 ≡ 0
    → val (set xs i w) ≡ val xs + base ^ i * w
unfolding val
val-set [] i w lt z = absurd (omega arith)
val-set (x ∷ xs) zero w lt z = omega (arith, z)
val-set (x ∷ xs) (suc i) w lt z =
    omega (arith, val-set xs i w (omega arith) z, ap (λ (n : ℕ). n * w) (pow-suc base i))

-- The number that is read of the words from `j` on.
record Reads (bn : Bn) (j : ℕ) (value : ℕ) (o : Outcome Bn) : Type 0 where
  result : Bn
  runs : o ≡ done result
  valid : IsBn result
  total : val result ≡ val bn + base ^ j * value

piece :
    (chunks : ℕ) (s : List ℕ)
    → length s ≡ suc chunks * 8
    → hex s ≡ hex (take (chunks * 8) s) * base + hex (drop (chunks * 8) s)
piece chunks s len =
    let n = chunks * 8 in
    let behind : length (drop n s) ≡ 8 = omega (arith, length-drop n s) in
    ap hex (sym (take-append-drop n s))
    ∙ hex-append (take n s) (drop n s)
    ∙ ap (λ (k : ℕ). hex (take n s) * 16 ^ k + hex (drop n s)) behind
    ∙ omega arith

from_loop-Reads :
    (scan : List ℕ → ℕ) (chunks j : ℕ) (str rest : List ℕ) (bn : Bn)
    → Scans scan
    → length str ≡ chunks * 8
    → AllHex str
    → j + chunks ≤ array_size
    → IsBn bn
    → ((i : ℕ) → j ≤ i → get_or bn i 0 ≡ 0)
    → Reads bn j (hex str) (from_loop scan chunks j (str ++ rest) bn)
unfolding from_loop hex
from_loop-Reads scan zero j [] rest bn law len digits fits v z = record {
  result = bn;
  runs = refl;
  valid = v;
  total = omega arith;
}
from_loop-Reads scan zero j (c ∷ str) rest bn law len digits fits v z = absurd (omega arith)
from_loop-Reads scan (suc chunks) j str rest bn law len digits fits v z =
    let n = chunks * 8 in
    let front = take n str in
    let last = drop n str in
    let last_len : length last ≡ 8 = omega (arith, length-drop n str) in
    let w = hex last in
    let small : w < base =
      omega (arith, hex_lt last (drop-AllHex n str digits), ap (λ (k : ℕ). 16 ^ k) last_len) in
    let at : drop n (str ++ rest) ≡ last ++ rest = drop-append n str rest (omega (arith, len)) in
    let read : scan (drop n (str ++ rest)) ≡ w =
      ap scan at ∙ law last rest last_len (drop-AllHex n str digits) in
    let split : front ++ (last ++ rest) ≡ str ++ rest =
      sym (append_assoc front last rest) ∙ ap (λ t. t ++ rest) (take-append-drop n str) in
    let next =
      from_loop-Reads scan chunks (j + 1) front (last ++ rest) (set bn j w) law
        (omega (arith, length-take n str)) (take-AllHex n str digits) (omega arith)
        (record { size = length-set bn j w ∙ v.size; words = set-IsWords bn j w small v.words })
        (λ i le. get_or-set_ne bn j i w 0 (λ e. absurd (omega arith)) ∙ z i (omega arith)) in
    let inside : (leb n (length (str ++ rest)) && ltb j array_size) ≡ true =
      ground (arith, length-append str rest) in
    rw (inside, read)
      (record {
        result = next.result;
        runs = ap (λ t. from_loop scan chunks (j + 1) t (set bn j w)) (sym split) ∙ next.runs;
        valid = next.valid;
        total = omega (
          arith,
          next.total,
          val-set bn j w (omega (arith, v.size)) (z j (omega arith)),
          ap (λ (k : ℕ). k * hex front)
              (ap (λ (i : ℕ). base ^ i) {x = j + 1} {y = suc j} (omega arith) ∙ pow-suc base j),
          ap (λ (k : ℕ). base ^ j * k) (piece chunks str len),
        );
      })

-- `ty_bignum_from_str` of a text that starts with `nbytes` hexadecimal digits, a multiple of
-- 8 from 8 to 256, is a number, the one that they spell.
pub from_str-hex :
    (scan : List ℕ → ℕ) (str rest : List ℕ) (chunks : ℕ)
    → Scans scan
    → length str ≡ suc chunks * 8
    → AllHex str
    → chunks < array_size
    → (bn : Bn) × ((from_str scan (str ++ rest) (length str) ≡ done (some bn))
        × (IsBn bn × (val bn ≡ hex str)))
unfolding from_str init
from_str-hex scan str rest chunks law len digits fits =
    let r =
      from_loop-Reads scan (suc chunks) 0 str rest init law len digits (omega arith) init-IsBn
        (λ i le. get_or-replicate array_size i 0) in
    let whole : length str / 8 ≡ suc chunks = omega arith in
    let some_text : (ltb 0 (length str) && (length str % 2 == 0 && length str % 8 == 0)) ≡ true =
      ground arith in
    (r.result, (rw (some_text, whole, r.runs) refl, (r.valid, omega (arith, r.total, val-init))))
