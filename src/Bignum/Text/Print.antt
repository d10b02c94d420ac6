-- ===== src/Bignum/Text/Print.antt =====
-- `ty_bignum_to_str` writes the hexadecimal digits of a number, without leading zeros.
use tyto_h.Base.{ℕ, zero, suc, ◌+◌, ◌*◌, ◌%◌, ◌^◌, ◌≤◌, ◌<◌, ◌≡◌, refl, sym, ap, ◌∙◌}
use tyto_h.Base.{true, ◌&&◌, some, List, [], ◌∷◌, ◌++◌, arith, ◌==◌, ltb, lt→ltb, le→leb}
use tyto_h.Base.{Outcome, length, get_or, take, drop, length-append, length-take}
use tyto_h.Base.{length-drop, take_prefix, drop_prefix, take-length, get_elem?-eq-get_or}
use tyto_h.Base.{done}
use tyto_h.Bignum.{Bn}
use tyto_h.Bignum.Value.{base, val, IsWords, IsBn, get_or-lt}
use tyto_h.Bignum.Value.Split.{val-append}
use tyto_h.Bignum.Text.{put_text, print_loop, to_str}
use tyto_h.Bignum.Text.Strip.{NoZero, skip_zeros-Strips}
use tyto_h.Bignum.Text.Digits.{base-hex, AllHex, hex, Formats, hex-append, append-AllHex}
use mathlib.Core.List.{append_assoc, append-nil}

-- The digits of the first `n` words, the highest first.
unfoldable pub digits_of : (format : ℕ → List ℕ) → Bn → ℕ → List ℕ
digits_of format bn zero = []
digits_of format bn (suc j) = format (get_or bn j 0) ++ digits_of format bn j

length-digits_of :
    (format : ℕ → List ℕ) (bn : Bn) (n : ℕ)
    → Formats format
    → IsWords bn
    → length (digits_of format bn n) ≡ n * 8
unfolding digits_of
length-digits_of format bn zero law v = refl
length-digits_of format bn (suc j) law v = omega (
  arith,
  length-append (format (get_or bn j 0)) (digits_of format bn j),
  law.eight (get_or bn j 0) (get_or-lt bn j v),
  length-digits_of format bn j law v,
)

digits_of-AllHex :
    (format : ℕ → List ℕ) (bn : Bn) (n : ℕ)
    → Formats format
    → IsWords bn
    → AllHex (digits_of format bn n)
unfolding digits_of
digits_of-AllHex format bn zero law v = tt
digits_of-AllHex format bn (suc j) law v =
    append-AllHex (format (get_or bn j 0)) (digits_of format bn j)
      (law.digits (get_or bn j 0) (get_or-lt bn j v)) (digits_of-AllHex format bn j law v)

take-suc : (xs : List ℕ) (n : ℕ) → n < length xs → take (suc n) xs ≡ take n xs ++ get_or xs n 0 ∷ []
take-suc [] n h = absurd (omega arith)
take-suc (x ∷ xs) zero h = refl
take-suc (x ∷ xs) (suc n) h = ap (λ t. x ∷ t) (take-suc xs n (omega arith))

hex-digits_of :
    (format : ℕ → List ℕ) (bn : Bn) (n : ℕ)
    → Formats format
    → IsWords bn
    → n ≤ length bn
    → hex (digits_of format bn n) ≡ val (take n bn)
unfolding digits_of hex val
hex-digits_of format bn zero law v h = refl
hex-digits_of format bn (suc j) law v h =
    let w = get_or bn j 0 in
    let rest = digits_of format bn j in
    omega (
      arith,
      hex-append (format w) rest,
      law.spells w (get_or-lt bn j v),
      hex-digits_of format bn j law v (omega arith),
      ap val (take-suc bn j (omega arith)),
      val-append (take j bn) (w ∷ []),
      ap (λ (n : ℕ). w * n)
          (ap (λ n. 16 ^ n) (length-digits_of format bn j law v) ∙ sym (base-hex j)),
      ap (λ (n : ℕ). w * n)
          (ap (λ n. base ^ n) {x = length (take j bn)} {y = j} (omega (arith, length-take j bn))),
      ap (λ (n : ℕ). hex (format w) * n)
          (ap (λ n. 16 ^ n) (length-digits_of format bn j law v) ∙ sym (base-hex j)),
      ap (λ (n : ℕ). n * base ^ j) (law.spells w (get_or-lt bn j v)),
    )

put_text_behind :
    (pre rest cs : List ℕ) (i : ℕ)
    → i ≡ length pre
    → length cs ≤ length rest
    → put_text (pre ++ rest) i cs ≡ done ((pre ++ cs) ++ drop (length cs) rest)
unfolding put_text
put_text_behind pre rest cs i e room =
    rw
      (
        le→leb (i + length cs) (length (pre ++ rest)) (omega (arith, length-append pre rest)),
        take_prefix pre rest i e,
        drop_prefix pre rest (i + length cs) (length cs) (omega arith),
      )
      refl

-- The text of some words, and its null character, behind what is there.
record Prints (pre digits : List ℕ) (size : ℕ) (o : Outcome (List ℕ)) : Type 0 where
  tail : List ℕ
  runs : o ≡ done (pre ++ (digits ++ 0 ∷ tail))
  same_size : length (pre ++ (digits ++ 0 ∷ tail)) ≡ size

-- One round of the loop.
print_step :
    (format : ℕ → List ℕ) (bn : Bn) (j nbytes i : ℕ) (pre rest : List ℕ)
    → Formats format
    → IsWords bn
    → j < length bn
    → i ≡ length pre
    → i + 1 < nbytes
    → 8 < length rest
    → print_loop format bn (suc j) nbytes i (pre ++ rest)
      ≡ print_loop format bn j nbytes (i + 8) ((pre ++ format (get_or bn j 0)) ++ 0 ∷ drop 9 rest)
unfolding print_loop
print_step format bn j nbytes i pre rest law v inside e fits room =
    let w = get_or bn j 0 in
    let cs = format w ++ 0 ∷ [] in
    let nine : length cs ≡ 9 =
      omega (arith, length-append (format w) (0 ∷ []), law.eight w (get_or-lt bn j v)) in
    let put : put_text (pre ++ rest) i cs ≡ done ((pre ++ format w) ++ 0 ∷ drop 9 rest) =
      put_text_behind pre rest cs i e (omega (arith, nine))
      ∙ ap (λ n. done ((pre ++ cs) ++ drop n rest)) nine
      ∙ ap done (simp append_assoc) in
    rw (lt→ltb (i + 1) nbytes fits, get_elem?-eq-get_or bn j 0 inside, put) refl

length_step :
    (pre rest cs : List ℕ)
    → length cs ≡ 8
    → 8 < length rest
    → length ((pre ++ cs) ++ 0 ∷ drop 9 rest) ≡ length (pre ++ rest)
length_step pre rest cs eight room = omega (
  arith,
  length-append (pre ++ cs) (0 ∷ drop 9 rest),
  length-append pre cs,
  length-append pre rest,
  length-drop 9 rest,
  eight,
)

print_loop-Prints :
    (format : ℕ → List ℕ) (bn : Bn) (j nbytes i : ℕ) (pre rest : List ℕ)
    → Formats format
    → IsWords bn
    → j < length bn
    → i ≡ length pre
    → i + suc j * 8 ≤ nbytes
    → suc j * 8 < length rest
    → Prints pre
        (digits_of format bn (suc j))
        (length (pre ++ rest))
        (print_loop format bn (suc j) nbytes i (pre ++ rest))
unfolding print_loop digits_of
print_loop-Prints format bn zero nbytes i pre rest law v inside e fits room =
    let cs = format (get_or bn 0 0) in
    let same : (pre ++ cs) ++ 0 ∷ drop 9 rest ≡ pre ++ ((cs ++ []) ++ 0 ∷ drop 9 rest) =
      simp (append_assoc, append-nil) in
    record {
      tail = drop 9 rest;
      runs =
          print_step format bn 0 nbytes i pre rest law v inside e (omega arith) (omega arith)
          ∙ ap done same;
      same_size =
          ap length (sym same)
          ∙ length_step pre rest cs (law.eight (get_or bn 0 0) (get_or-lt bn 0 v)) (omega arith);
    }
print_loop-Prints format bn (suc j) nbytes i pre rest law v inside e fits room =
    let w = get_or bn (suc j) 0 in
    let cs = format w in
    let eight = law.eight w (get_or-lt bn (suc j) v) in
    let next =
      print_loop-Prints format bn j nbytes (i + 8) (pre ++ cs) (0 ∷ drop 9 rest) law v (omega arith)
        (omega (arith, length-append pre cs, eight)) (omega arith)
        (omega (arith, length-drop 9 rest)) in
    let more = digits_of format bn (suc j) in
    let same : (pre ++ cs) ++ (more ++ 0 ∷ next.tail) ≡ pre ++ ((cs ++ more) ++ 0 ∷ next.tail) =
      simp append_assoc in
    record {
      tail = next.tail;
      runs =
          print_step format bn (suc j) nbytes i pre rest law v inside e (omega arith) (omega arith)
          ∙ next.runs
          ∙ ap done same;
      same_size =
          ap length (sym same) ∙ next.same_size ∙ length_step pre rest cs eight (omega arith);
    }

-- `ty_bignum_to_str` of a number, into a buffer of more than `nbytes` characters, an even
-- number from 256 on, ends without a fault: the buffer starts with hexadecimal digits that
-- spell the number, without a leading zero, and a null character.
pub to_str-hex :
    (format : ℕ → List ℕ) (bn : Bn) (str : List ℕ) (nbytes : ℕ)
    → Formats format
    → IsBn bn
    → 256 ≤ nbytes
    → nbytes % 2 ≡ 0
    → nbytes < length str
    → (text : List ℕ) × ((tail : List ℕ) × ((to_str format bn str nbytes
            ≡ done (some (text ++ 0 ∷ tail)))
          × (AllHex text × (NoZero text × ((hex text ≡ val bn) × (length text ≤ 256))))))
unfolding to_str
to_str-hex format bn str nbytes law v large even room =
    let digits = digits_of format bn 32 in
    let p =
      print_loop-Prints format bn 31 nbytes 0 [] str law v.words (omega (arith, v.size)) refl
        (omega arith) (omega arith) in
    let len = length-digits_of format bn 32 law v.words in
    let s =
      skip_zeros-Strips nbytes digits p.tail (digits_of-AllHex format bn 32 law v.words)
        (omega (arith, len)) (omega (arith, p.same_size)) in
    let all : take 32 bn ≡ bn = ap (λ n. take n bn) (sym v.size) ∙ take-length bn in
    let guard : (ltb 0 nbytes && nbytes % 2 == 0) ≡ true = ground arith in
    (
      s.0,
      (
        s.1.0,
        (
          rw (guard, p.runs, s.1.1.0) refl,
          (
            s.1.1.1.0,
            (
              s.1.1.1.1.0,
              (
                s.1.1.1.1.1.0
                    ∙ hex-digits_of format bn 32 law v.words (omega (arith, v.size))
                    ∙ ap val all,
                omega (arith, s.1.1.1.1.1.1, len),
              ),
            ),
          ),
        ),
      ),
    )
