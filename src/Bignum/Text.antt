-- ===== src/Bignum/Text.antt =====
-- `ty_bignum_from_str` and `ty_bignum_to_str` of src/ty_bignum.c. A buffer is the list of its
-- characters. `scan` is what `sscanf` with "%8x" stores of a text, 0 where it stores nothing;
-- `format` is what `sprintf` with "%.08x" writes in front of its null character. A `require`
-- that fails exits the process, here none.
pub mod Digits
pub mod Parse
pub mod Strip
pub mod Print
pub mod RoundTrip
mod Tests
use tyto_h.Base.{ℕ, zero, suc, ◌+◌, ◌-◌, ◌*◌, ◌/◌, ◌%◌, ◌&&◌, Option, none, some, List}
use tyto_h.Base.{[], ◌∷◌, ◌++◌, ◌>>=◌, ◌==◌, if◌then◌else◌, ltb, leb, Outcome, need}
use tyto_h.Base.{length, get_elem?, set, take, drop, done, fault}
use tyto_h.Bignum.{Bn, array_size, init}

-- The characters for one word.
abbrev pub word_digits : ℕ
word_digits = 8

-- `while (i >= 0)`, with `chunks` pieces of 8 characters left in front of the text.
unfoldable pub from_loop : (scan : List ℕ → ℕ) → (chunks : ℕ) → (j : ℕ) → List ℕ → Bn → Outcome Bn
from_loop scan zero j str bn = done bn
from_loop scan (suc chunks) j str bn =
    let i = chunks * word_digits in
    let rest = from_loop scan chunks (j + 1) str (set bn j (scan (drop i str))) in
    if leb i (length str) && ltb j array_size then rest else fault

unfoldable pub from_str : (scan : List ℕ → ℕ) → (str : List ℕ) → (nbytes : ℕ) → Outcome (Option Bn)
from_str scan str nbytes =
    let read = from_loop scan (nbytes / word_digits) 0 str init >>= (λ bn. done (some bn)) in
    if ltb 0 nbytes && (nbytes % 2 == 0 && nbytes % word_digits == 0) then read else done none

-- A write of some characters; outside the buffer it is a fault.
unfoldable pub put_text : List ℕ → (i : ℕ) → List ℕ → Outcome (List ℕ)
put_text str i cs =
    if leb (i + length cs) (length str)
    then done (take i str ++ cs ++ drop (i + length cs) str)
    else fault

-- The first loop, with `words` words left: the next is `j = words - 1`.
unfoldable pub print_loop :
    (format : ℕ → List ℕ) → Bn → (words : ℕ) → (nbytes i : ℕ) → List ℕ → Outcome (List ℕ)
print_loop format bn zero nbytes i str = done str
print_loop format bn (suc j) nbytes i str =
    let printed =
      need (get_elem? bn j)
      >>= (λ w. put_text str i (format w ++ 0 ∷ []))
      >>= print_loop format bn j nbytes (i + word_digits) in
    if ltb (i + 1) nbytes then printed else done str

abbrev pub digit_0 : ℕ
digit_0 = 48

-- `while (str[j] == '0')`.
unfoldable pub zeros_loop : List ℕ → Outcome ℕ
zeros_loop [] = fault
zeros_loop (c ∷ str) =
    let rest = zeros_loop str >>= (λ j. done (j + 1)) in if c == digit_0 then rest else done 0

-- `str[i] = str[i + j]` for `n` places: every read is of a place that is not written yet.
unfoldable pub move_loop : (n j : ℕ) → List ℕ → Outcome (List ℕ)
move_loop zero j str = done str
move_loop (suc n) j [] = fault
move_loop (suc n) j (c ∷ str) =
    need (get_elem? (c ∷ str) j) >>= (λ d. move_loop n j str >>= (λ rest. done (d ∷ rest)))

-- The buffer behind the first loop, without its leading zeros.
unfoldable pub skip_zeros : (nbytes : ℕ) → List ℕ → Outcome (List ℕ)
skip_zeros nbytes str =
    zeros_loop str
    >>= (λ j. move_loop (nbytes - j) j str >>= (λ moved. put_text moved (nbytes - j) (0 ∷ [])))

unfoldable pub to_str :
    (format : ℕ → List ℕ) → Bn → (str : List ℕ) → (nbytes : ℕ) → Outcome (Option (List ℕ))
to_str format bn str nbytes =
    let printed =
      print_loop format bn array_size nbytes 0 str
      >>= skip_zeros nbytes
      >>= (λ text. done (some text)) in
    if ltb 0 nbytes && nbytes % 2 == 0 then printed else done none
