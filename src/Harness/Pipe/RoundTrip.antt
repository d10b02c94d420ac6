-- ===== src/Harness/Pipe/RoundTrip.antt =====
-- A failure that is written to the pipe of src/ty_test.c is read back as it was.
use tyto_h.Base.{ℕ, zero, suc, ◌+◌, ◌-◌, ◌≤◌, ◌≡◌, refl, sym, ap, ◌∙◌, ◌≢◌, ◌⊎◌, inl, inr}
use tyto_h.Base.{true, false, Option, some, List, [], ◌∷◌, ◌++◌, map, arith, ◌==◌}
use tyto_h.Base.{if◌then◌else◌, le→ltb, Bool-cases, ne→==, length, take, length-append, ℤ}
use tyto_h.Base.{pos}
use mathlib.Core.List.{append_assoc}
use tyto_h.Harness.Pipe.Escape.{
  escape, line_of, All, total, escaped-escape, unescape-escape, split_fields-line_of,
}
use tyto_h.Harness.{Result, fail_assert, fail_string, fail_number, clip}
use tyto_h.Harness.Pipe.{Failure, bar, is_special, append_escaped, append_literal}
use tyto_h.Harness.Pipe.{append_int, limit, or_nothing, expression_text, message}
use tyto_h.Harness.Pipe.{write_failure, read_failure, parse_failure, split_fields}
use tyto_h.Harness.Pipe.{c_string, kind_of, field, store_fields, store_texts}
use mathlib.Core.Path.{ap₂}

length-line_of : (fs : List (List ℕ)) → length (line_of fs) ≡ total fs
unfolding line_of
length-line_of [] = refl
length-line_of (f ∷ fs) = omega (arith, length-append f (bar ∷ line_of fs), length-line_of fs)

take_all : (n : ℕ) (s : List ℕ) → length s ≤ n → take n s ≡ s
take_all zero [] h = refl
take_all zero (c ∷ s) h = absurd (omega arith)
take_all (suc n) [] h = refl
take_all (suc n) (c ∷ s) h = ap (λ t. c ∷ t) (take_all n s (omega arith))

line_of-snoc :
    (fs : List (List ℕ)) (f : List ℕ) → line_of (fs ++ f ∷ []) ≡ (line_of fs ++ f) ++ bar ∷ []
unfolding line_of
line_of-snoc [] f = refl
line_of-snoc (g ∷ fs) f = ap (λ t. g ++ bar ∷ t) (line_of-snoc fs f) ∙ simp append_assoc

-- One field and its bar, where there is room for both.
append_field :
    (fs : List (List ℕ)) (t : List ℕ)
    → total fs + length t + 1 ≤ limit
    → append_literal (line_of fs ++ t) (bar ∷ []) ≡ line_of (fs ++ t ∷ [])
unfolding append_literal limit
append_field fs t h =
    let fits : length (line_of fs ++ t) + 1 ≤ 4095 =
      omega (arith, length-append (line_of fs) t, length-line_of fs) in
    ap (λ u. (line_of fs ++ t) ++ u)
      (take_all (4095 - length (line_of fs ++ t)) (bar ∷ []) (omega arith))
    ∙ sym (line_of-snoc fs t)

append_text :
    (fs : List (List ℕ)) (s : Option (List ℕ))
    → total fs + length (escape (or_nothing s)) + 1 ≤ limit
    → append_literal (append_escaped (line_of fs) s) (bar ∷ [])
      ≡ line_of (fs ++ escape (or_nothing s) ∷ [])
unfolding append_escaped limit
append_text fs s h =
    let fits : length (escape (or_nothing s)) ≤ 4095 - length (line_of fs) =
      omega (arith, length-line_of fs) in
    ap (λ t. append_literal (line_of fs ++ t) (bar ∷ []))
      (escaped-escape (4095 - length (line_of fs)) (or_nothing s) fits)
    ∙ append_field fs (escape (or_nothing s)) h

append_number :
    (format : ℤ → List ℕ) (fs : List (List ℕ)) (n : ℤ)
    → length (format n) ≤ 15
    → total fs + length (format n) + 1 ≤ limit
    → append_literal (append_int format (line_of fs) n) (bar ∷ []) ≡ line_of (fs ++ format n ∷ [])
unfolding append_int append_literal limit
append_number format fs n small h =
    let fits : length (format n) ≤ 4095 - length (line_of fs) = omega (arith, length-line_of fs) in
    ap (λ t. append_literal (line_of fs ++ t) (bar ∷ []))
      (ap (take (4095 - length (line_of fs))) (take_all 15 (format n) small)
        ∙ take_all (4095 - length (line_of fs)) (format n) fits)
    ∙ append_field fs (format n) h

-- The fields of the message, in order.
abbrev pub fields_of : (format : ℤ → List ℕ) → Failure → List ℕ → List (List ℕ)
fields_of format f text =
    format (pos f.kind)
    ∷ escape (or_nothing f.file)
    ∷ escape text
    ∷ escape (or_nothing f.expected)
    ∷ escape (or_nothing f.got)
    ∷ format f.line
    ∷ []

message-line_of :
    (format : ℤ → List ℕ) (f : Failure) (text : List ℕ)
    → length (format (pos f.kind)) ≤ 15
    → length (format f.line) ≤ 15
    → total (fields_of format f text) ≤ limit
    → message format f text ≡ line_of (fields_of format f text)
unfolding message line_of
message-line_of format f text k l h =
    let t0 = format (pos f.kind) in
    let t1 = escape (or_nothing f.file) in
    let t2 = escape text in
    let t3 = escape (or_nothing f.expected) in
    let t4 = escape (or_nothing f.got) in
    rw
      (
        append_number format [] (pos f.kind) k (omega arith),
        append_text (t0 ∷ []) f.file (omega arith),
        append_text (t0 ∷ t1 ∷ []) (some text) (omega arith),
        append_text (t0 ∷ t1 ∷ t2 ∷ []) f.expected (omega arith),
        append_text (t0 ∷ t1 ∷ t2 ∷ t3 ∷ []) f.got (omega arith),
      )
      (append_number format (t0 ∷ t1 ∷ t2 ∷ t3 ∷ t4 ∷ []) f.line l (omega arith))

-- A C string holds no null character.
abbrev pub Chars : List ℕ → Type 0
Chars = All (λ c. c ≢ 0)

Chars-append : (s t : List ℕ) → Chars s → Chars t → Chars (s ++ t)
Chars-append [] t hs ht = ht
Chars-append (c ∷ s) t hs ht = (hs.0, Chars-append s t hs.1 ht)

escape-Chars : (s : List ℕ) → Chars s → Chars (escape s)
unfolding escape
escape-Chars [] h = tt
escape-Chars (c ∷ s) h = elim (Bool-cases (is_special c)) [
  | inl t ↦ rw t ((λ e. absurd (omega arith)), (h.0, escape-Chars s h.1))
  | inr f ↦ rw f (h.0, escape-Chars s h.1)
]

line_of-Chars : (fs : List (List ℕ)) → All Chars fs → Chars (line_of (map escape fs))
unfolding line_of
line_of-Chars [] h = tt
line_of-Chars (f ∷ fs) h =
    Chars-append (escape f) (bar ∷ line_of (map escape fs)) (escape-Chars f h.0)
      ((λ e. absurd (omega arith)), line_of-Chars fs h.1)

c_string-Chars : (s : List ℕ) → Chars s → c_string s ≡ s
unfolding c_string
c_string-Chars [] h = refl
c_string-Chars (c ∷ s) h = rw (ne→== c 0 h.0) (ap (λ t. c ∷ t) (c_string-Chars s h.1))

-- What is used of `snprintf` with "%d" and of `atoi` at a number: at most 15 characters, no
-- bar, backslash or null character among them, and they read back as the number.
pub record Legible (format : ℤ → List ℕ) (atoi : List ℕ → ℤ) (n : ℤ) : Type 0 where
  pub short : length (format n) ≤ 15
  pub plain : All (λ c. is_special c ≡ false) (format n)
  pub chars : Chars (format n)
  pub back : atoi (format n) ≡ n

escape_plain : (s : List ℕ) → All (λ c. is_special c ≡ false) s → escape s ≡ s
unfolding escape
escape_plain [] h = refl
escape_plain (c ∷ s) h = rw (h.0) (ap (λ t. c ∷ t) (escape_plain s h.1))

-- The result with the kind, the texts and the line of a failure.
unfoldable pub reported : (kind : ℕ) → (file text expected got : List ℕ) → ℤ → Result → Result
reported kind file text expected got line r = record r {
  result = kind;
  failure_expression = clip text;
  failure_expected = if kind == fail_assert then r.failure_expected else clip expected;
  failure_got = if kind == fail_assert then r.failure_got else clip got;
  failure_file = clip file;
  failure_line = line;
}

store_fields-reported :
    (atoi : List ℕ → ℤ) (kind : ℕ) (t0 file text expected got t5 : List ℕ) (line : ℤ) (r : Result)
    → atoi t0 ≡ pos kind
    → atoi t5 ≡ line
    → (kind ≡ fail_assert) ⊎ ((kind ≡ fail_string) ⊎ (kind ≡ fail_number))
    → store_fields atoi (t0 ∷ escape file ∷ escape text ∷ escape expected ∷ escape got ∷ t5 ∷ []) r
      ≡ reported kind file text expected got line r
unfolding store_fields store_texts field kind_of reported
store_fields-reported atoi kind t0 file text expected got t5 line r k l h =
    rw
      (
        k,
        l,
        unescape-escape file,
        unescape-escape text,
        unescape-escape expected,
        unescape-escape got,
      )
      (ground arith)

write_failure-some :
    (format : ℤ → List ℕ) (f : Failure) (text : List ℕ)
    → expression_text f.kind f.expression ≡ some text
    → write_failure true format f ≡ some (message format f text)
unfolding write_failure
write_failure-some format f text e = rw (write_failure, e) refl

parsed :
    (atoi : List ℕ → ℤ) (bytes : List ℕ) (fields : List (List ℕ)) (r : Result)
    → split_fields 6 (c_string (take 4095 bytes)) ≡ fields
    → 2 ≤ length fields
    → read_failure atoi (some bytes) r ≡ (true, store_fields atoi fields r)
unfolding read_failure parse_failure limit
parsed atoi bytes fields r e h =
    rw (read_failure, parse_failure, e, le→ltb (length fields) 2 h) refl

-- A failed assertion, or failed comparison of strings or numbers, that is written to an open
-- pipe is read back with its kind, file, line and texts, each text cut to 1023 characters:
-- its texts are C strings, its numbers are legible, and it fits the buffer of 4095 characters.
pub read_failure-write_failure :
    (format : ℤ → List ℕ) (atoi : List ℕ → ℤ) (f : Failure) (text : List ℕ) (r : Result)
    → (f.kind ≡ fail_assert) ⊎ ((f.kind ≡ fail_string) ⊎ (f.kind ≡ fail_number))
    → expression_text f.kind f.expression ≡ some text
    → Legible format atoi (pos f.kind)
    → Legible format atoi f.line
    → Chars (or_nothing f.file)
    → Chars text
    → Chars (or_nothing f.expected)
    → Chars (or_nothing f.got)
    → total (fields_of format f text) ≤ limit
    → read_failure atoi (write_failure true format f) r ≡ (
      true,
      reported f.kind (or_nothing f.file) text (or_nothing f.expected) (or_nothing f.got) f.line r,
    )
unfolding limit
read_failure-write_failure format atoi f text r kinds e k l c1 c2 c3 c4 fits =
    let fs : List (List ℕ) =
      format (pos f.kind)
      ∷ or_nothing f.file
      ∷ text
      ∷ or_nothing f.expected
      ∷ or_nothing f.got
      ∷ format f.line
      ∷ [] in
    let same : fields_of format f text ≡ map escape fs =
      ap₂
        (λ a b.
          a
          ∷ escape (or_nothing f.file)
          ∷ escape text
          ∷ escape (or_nothing f.expected)
          ∷ escape (or_nothing f.got)
          ∷ b
          ∷ [])
        (sym (escape_plain (format (pos f.kind)) k.plain))
        (sym (escape_plain (format f.line) l.plain)) in
    let bytes : take 4095 (message format f text) ≡ line_of (map escape fs) =
      ap (take 4095) (message-line_of format f text k.short l.short fits)
      ∙ take_all 4095 (line_of (fields_of format f text))
          (omega (arith, length-line_of (fields_of format f text)))
      ∙ ap line_of same in
    let split : split_fields 6 (c_string (take 4095 (message format f text)))
        ≡ fields_of format f text =
      ap (λ t. split_fields 6 (c_string t)) bytes
      ∙ ap (split_fields 6) (
          c_string-Chars (line_of (map escape fs))
            (line_of-Chars fs (k.chars, (c1, (c2, (c3, (c4, (l.chars, tt))))))))
      ∙ split_fields-line_of fs
      ∙ sym same in
    ap (λ o. read_failure atoi o r) (write_failure-some format f text e)
    ∙ parsed atoi (message format f text) (fields_of format f text) r split (omega arith)
    ∙ ap (λ x. (true, x))
        (store_fields-reported atoi f.kind (format (pos f.kind)) (or_nothing f.file) text
          (or_nothing f.expected) (or_nothing f.got) (format f.line) f.line r k.back l.back kinds)
