-- ===== src/Harness/Registry.antt =====
-- The registration of tests in src/ty_test.c: `_ty_test`. `realloc` and `strdup` are
-- parameters: whether they have memory.
use tyto_h.Base.{ℕ, ◌+◌, ◌≤◌, Bool, ◌||◌}
use tyto_h.Base.{List, [], ◌∷◌, ◌++◌, ◌==◌, if◌then◌else◌, ltb, leb}
use tyto_h.Base.{Outcome, length, done, fault}
use tyto_h.Harness.{Test}
use tyto_h.Harness.Names.{suite_of}

-- `__ty_tests` with `__ty_testsc` tests and room for `__ty_testsk`.
pub record Registry : Type 0 where
  pub tests : List Test
  pub testsk : ℕ

unfoldable pub no_tests : Registry
no_tests = record { tests = []; testsk = 0 }

-- The write to `__ty_tests[__ty_testsc]`.
unfoldable pub store_test : Registry → Test → Outcome Registry
store_test r t =
    if ltb (length r.tests) r.testsk then done (record r { tests = r.tests ++ t ∷ [] }) else fault

unfoldable pub register :
    (realloc_ok strdup_ok : Bool) → Registry → Test → (file_name : List ℕ) → Outcome Registry
register realloc_ok strdup_ok r t file_name =
    let named = record t { suite = suite_of strdup_ok t.suite file_name } in
    let new_capacity = if r.testsk == 0 then 64 else r.testsk + 64 in
    if r.testsk == 0 || leb r.testsk (length r.tests)
    then if realloc_ok then store_test (record r { testsk = new_capacity }) named else done r
    else store_test r named

-- The array is never filled beyond its room.
unfoldable pub Roomy : Registry → Type 0
Roomy r = length r.tests ≤ r.testsk
