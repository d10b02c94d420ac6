-- ===== src/Harness/Asserts.antt =====
-- The assertions of src/ty_test.c that compare conditions, strings and memory: none where the
-- assertion holds, else the failure that the child writes before it exits with 1. The
-- comparison of `long double` numbers is not modelled.
use tyto_h.Base.{ℕ, Bool, false, ◌||◌, Option, none, some, List, if◌then◌else◌, codes, ℤ}
use tyto_h.Harness.{fail_assert, fail_string, fail_memory}
use tyto_h.Harness.Pipe.{Failure}
use tyto_h.Harness.Runner.{same_text}

unfoldable pub assert : Bool → (expression file : List ℕ) → (line : ℤ) → Option Failure
assert condition expression file line =
    if condition
    then none
    else some (record {
      kind = fail_assert;
      expression = some expression;
      expected = none;
      got = none;
      file = some file;
      line = line;
    })

abbrev pub or_null : Option (List ℕ) → List ℕ
or_null none = codes "(null)"
or_null (some s) = s

abbrev pub same_string : Option (List ℕ) → Option (List ℕ) → Bool
same_string (some s1) (some s2) = same_text s1 s2
same_string _ _ = false

-- `same_pointer` says whether the two pointers are one.
unfoldable pub assert_string :
    (same_pointer : Bool)
    → (s1 s2 : Option (List ℕ)) → (file : List ℕ) → (line : ℤ) → Option Failure
assert_string same_pointer s1 s2 file line =
    if same_pointer || same_string s1 s2
    then none
    else some (record {
      kind = fail_string;
      expression = none;
      expected = some (or_null s1);
      got = some (or_null s2);
      file = some file;
      line = line;
    })

-- `memcmp` is a parameter: whether the two areas are equal.
unfoldable pub assert_ptr :
    (same_pointer same_memory : Bool) → (file : List ℕ) → (line : ℤ) → Option Failure
assert_ptr same_pointer same_memory file line =
    if same_pointer || same_memory
    then none
    else some (record {
      kind = fail_memory;
      expression = none;
      expected = none;
      got = none;
      file = some file;
      line = line;
    })
