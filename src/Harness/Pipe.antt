-- ===== src/Harness/Pipe.antt =====
-- The text that a failing test writes to the failure pipe of src/ty_test.c, and its reader.
-- `format` and `atoi` stand for `snprintf` with "%d" and for `atoi`.
pub mod Escape
pub mod RoundTrip
use tyto_h.Base.{ℕ, zero, suc, ◌-◌, ◌^◌, Bool, true, false, ◌&&◌, ◌||◌, Option, none}
use tyto_h.Base.{some, List, [], ◌∷◌, ◌++◌, ◌==◌, if◌then◌else◌, ltb, codes, length}
use tyto_h.Base.{get_elem?, take, ℤ, pos, negsuc}
use tyto_h.Harness.{Result, fail_assert, fail_string, fail_number, fail_memory, fail_timeout, clip}

abbrev pub backslash : ℕ
backslash = 92

abbrev pub bar : ℕ
bar = 124

unfoldable pub is_special : ℕ → Bool
is_special c = c == backslash || c == bar

-- What `_ty_test_append_escaped` writes into the room that is left.
unfoldable pub escaped : (room : ℕ) → List ℕ → List ℕ
escaped room [] = []
escaped zero (c ∷ s) = []
escaped (suc room) (c ∷ s) =
    let pair = escaped (room - 1) s in
    let single = escaped room s in
    if is_special c && ltb 0 room then backslash ∷ c ∷ pair else c ∷ single

-- `buffer` without its last character, which stays free for the null character.
unfoldable pub limit : ℕ
limit = 4095

abbrev pub or_nothing : Option (List ℕ) → List ℕ
or_nothing none = []
or_nothing (some s) = s

unfoldable pub append_escaped : List ℕ → Option (List ℕ) → List ℕ
append_escaped out s = out ++ escaped (limit - length out) (or_nothing s)

unfoldable pub append_literal : List ℕ → List ℕ → List ℕ
append_literal out s = out ++ take (limit - length out) s

-- `tmp` has 16 characters.
unfoldable pub append_int : (format : ℤ → List ℕ) → List ℕ → ℤ → List ℕ
append_int format out value = append_literal out (take 15 (format value))

abbrev pub or_else : List ℕ → Option (List ℕ) → List ℕ
or_else s none = s
or_else s (some t) = t

-- The text for the kind of failure; none is the `default` of the switch.
unfoldable pub expression_text : ℕ → Option (List ℕ) → Option (List ℕ)
expression_text kind expression =
    if kind == fail_assert
    then some (or_else [] expression)
    else if kind == fail_string || kind == fail_number
    then some (or_else (codes "-") expression)
    else if kind == fail_memory
    then some (codes "Memory compare failed.")
    else if kind == fail_timeout
    then some (codes "Timeout exceeded")
    else none

-- The arguments of `_ty_test_write_failure_to_pipe`.
pub record Failure : Type 0 where
  pub kind : ℕ
  pub expression : Option (List ℕ)
  pub expected : Option (List ℕ)
  pub got : Option (List ℕ)
  pub file : Option (List ℕ)
  pub line : ℤ

unfoldable pub message : (format : ℤ → List ℕ) → Failure → List ℕ → List ℕ
message format f text =
    let p1 = append_literal (append_int format [] (pos f.kind)) (bar ∷ []) in
    let p2 = append_literal (append_escaped p1 f.file) (bar ∷ []) in
    let p3 = append_literal (append_escaped p2 (some text)) (bar ∷ []) in
    let p4 = append_literal (append_escaped p3 f.expected) (bar ∷ []) in
    let p5 = append_literal (append_escaped p4 f.got) (bar ∷ []) in
    append_literal (append_int format p5 f.line) (bar ∷ [])

-- What the child writes to the pipe before it exits.
unfoldable pub write_failure :
    (pipe_open : Bool) → (format : ℤ → List ℕ) → Failure → Option (List ℕ)
write_failure pipe_open format f = elim (expression_text f.kind f.expression) [
  | none ↦ none
  | some text ↦ if pipe_open then some (message format f text) else none
]

-- The field in front of the next bar, and what follows the bar, if there is one.
unfoldable pub scan_field : List ℕ → List ℕ × Option (List ℕ)
scan_field [] = ([], none)
scan_field (c ∷ []) = if c == bar then ([], some []) else (c ∷ [], none)
scan_field (c ∷ d ∷ s) =
    let both = scan_field s in
    let one = scan_field (d ∷ s) in
    if c == backslash
    then (c ∷ d ∷ both.0, both.1)
    else if c == bar
    then ([], some (d ∷ s))
    else (c ∷ one.0, one.1)

unfoldable pub split_fields : (max_fields : ℕ) → List ℕ → List (List ℕ)
split_fields zero s = []
split_fields (suc max_fields) s =
    let r = scan_field s in
    elim r.1 [ none ↦ r.0 ∷ [] | some rest ↦ r.0 ∷ split_fields max_fields rest ]

unfoldable pub unescape : List ℕ → List ℕ
unescape [] = []
unescape (c ∷ []) = c ∷ []
unescape (c ∷ d ∷ s) =
    let skipped = unescape s in
    let kept = unescape (d ∷ s) in
    if c == backslash && (d == backslash || d == bar) then d ∷ skipped else c ∷ kept

-- The C string in a buffer: what stands before the first null character.
unfoldable pub c_string : List ℕ → List ℕ
c_string [] = []
c_string (c ∷ s) = let rest = c_string s in if c == 0 then [] else c ∷ rest

-- The cast of an `int` to the kind.
unfoldable pub kind_of : ℤ → ℕ
kind_of (pos n) = n
kind_of (negsuc n) = 2 ^ 32 - 1 - n

-- A field as it is read, and the empty text where it is missing.
unfoldable pub field : List (List ℕ) → ℕ → List ℕ
field fields i = unescape (or_nothing (get_elem? fields i))

-- The switch on the kind at the end of `_ty_read_failure_from_pipe`.
unfoldable pub store_texts : List (List ℕ) → Result → Result
store_texts fields r =
    if r.result == fail_assert
    then record r { failure_expression = clip (field fields 2) }
    else if r.result == fail_string || r.result == fail_number
    then record r {
      failure_expression = clip (field fields 2);
      failure_expected = clip (field fields 3);
      failure_got = clip (field fields 4);
    }
    else if r.result == fail_memory
    then record r { failure_expression = codes "timeout" }
    else r

abbrev pub line_or : ℤ → (atoi : List ℕ → ℤ) → Option (List ℕ) → ℤ
line_or line atoi none = line
line_or line atoi (some s) = atoi s

unfoldable pub store_fields : (atoi : List ℕ → ℤ) → List (List ℕ) → Result → Result
store_fields atoi fields r = store_texts fields (record r {
  result = kind_of (atoi (or_nothing (get_elem? fields 0)));
  failure_file = clip (field fields 1);
  failure_line = line_or r.failure_line atoi (get_elem? fields 5);
})

unfoldable pub parse_failure : (atoi : List ℕ → ℤ) → List ℕ → Result → Bool × Result
parse_failure atoi bytes r =
    let fields = split_fields 6 (c_string (take limit bytes)) in
    if ltb (length fields) 2 then (false, r) else (true, store_fields atoi fields r)

-- `arrived` is what `read` gives within a millisecond, if anything.
unfoldable pub read_failure :
    (atoi : List ℕ → ℤ) → (arrived : Option (List ℕ)) → Result → Bool × Result
read_failure atoi none r = (false, r)
read_failure atoi (some bytes) r = parse_failure atoi bytes r
