-- ===== src/Harness/Runner/Totals.antt =====
-- What `_ty_test_run` of src/ty_test.c counts, and its exit code.
use tyto_h.Base.{ℕ, ◌+◌, ◌≡◌, refl, sym, ap, ◌∙◌, inl, inr, Bool, true, false, Option}
use tyto_h.Base.{none, some, List, [], ◌∷◌, arith, ◌>>=◌, ◌==◌, if◌then◌else◌, ltb}
use tyto_h.Base.{Bool-cases, Outcome, need, done}
use tyto_h.Harness.{Test, Result, pass}
use tyto_h.Harness.Runner.{
  Counts, no_counts, count_result, is_wanted, run_one, run_in, run_unless, run_loop, run_all,
}
use mathlib.Core.Path.{ap₂}
use tyto_h.Harness.Runner.{exit_code_of}

-- The specification: what one test adds to the numbers of those that passed, failed and were
-- skipped, when it gives the kind of result `kind`.
pub data Mark : Type 0 where
  unwanted passes fails skips : Mark

-- A test passes where its result is `pass` exactly if it is not expected to fail.
abbrev pub judge : Bool → Bool → Mark
judge true true = Mark.fails
judge true false = Mark.passes
judge false true = Mark.passes
judge false false = Mark.fails

abbrev pub judge_run : Option (List ℕ) → Bool → ℕ → Mark
judge_run (some why) should_fail kind = Mark.skips
judge_run none should_fail kind = judge (kind == pass) should_fail

abbrev pub mark_wanted : Bool → Mark → Mark
mark_wanted false m = Mark.unwanted
mark_wanted true m = m

abbrev pub mark_in : Option (List ℕ) → Option (List ℕ) → Mark → Mark
mark_in filter none m = Mark.unwanted
mark_in filter (some suite) m = mark_wanted (is_wanted filter suite) m

unfoldable pub mark : (kind : Test → ℕ) → Option (List ℕ) → Test → Mark
mark kind filter t = mark_in filter t.suite (judge_run t.skip_because t.should_fail (kind t))

abbrev pub same_mark : Mark → Mark → ℕ
same_mark Mark.unwanted Mark.unwanted = 1
same_mark Mark.passes Mark.passes = 1
same_mark Mark.fails Mark.fails = 1
same_mark Mark.skips Mark.skips = 1
same_mark _ _ = 0

unfoldable pub tally : (kind : Test → ℕ) → Option (List ℕ) → List Test → Mark → ℕ
tally kind filter [] m = 0
tally kind filter (t ∷ ts) m = same_mark (mark kind filter t) m + tally kind filter ts m

-- Every registered test has a suite.
abbrev pub Suited : List Test → Type 0
Suited [] = Unit
Suited (t ∷ ts) = ((s : List ℕ) × (t.suite ≡ some s)) × Suited ts

-- The counts with what a mark adds.
abbrev pub add_mark : Mark → Counts → Counts
add_mark Mark.unwanted c = c
add_mark Mark.passes c = record c { passed = c.passed + 1 }
add_mark Mark.fails c = record c { failed = c.failed + 1 }
add_mark Mark.skips c = record c { skipped = c.skipped + 1 }

count_result-judge :
    (should_fail : Bool) (kind : ℕ) (c : Counts)
    → count_result should_fail kind c ≡ add_mark (judge (kind == pass) should_fail) c
unfolding count_result
count_result-judge true kind c = ground arith
count_result-judge false kind c = ground arith

run_unless-add_mark :
    (run : Test → Outcome Result) (t : Test) (c : Counts) (skip : Option (List ℕ)) (r : Result)
    → run t ≡ done r
    → run_unless run t c skip ≡ done (add_mark (judge_run skip t.should_fail r.result) c)
unfolding run_unless
run_unless-add_mark run t c (some why) r d = refl
run_unless-add_mark run t c none r d = rw d (ap done (count_result-judge t.should_fail r.result c))

run_in-add_mark :
    (run : Test → Outcome Result) (filter : Option (List ℕ)) (t : Test) (c : Counts) (s : List ℕ)
    (r : Result)
    → run t ≡ done r
    → run_in run filter t c s
      ≡ done
          (add_mark (mark_in filter (some s) (judge_run t.skip_because t.should_fail r.result)) c)
unfolding run_in
run_in-add_mark run filter t c s r d = elim (Bool-cases (is_wanted filter s)) [
  | inr f ↦ rw f refl
  | inl w ↦ rw w (run_unless-add_mark run t c t.skip_because r d)
]

run_one-add_mark :
    (run : Test → Outcome Result) (kind : Test → ℕ) (filter : Option (List ℕ)) (t : Test)
    (c : Counts)
    → ((s : List ℕ) × (t.suite ≡ some s))
    → ((r : Result) × ((run t ≡ done r) × (r.result ≡ kind t)))
    → run_one run filter t c ≡ done (add_mark (mark kind filter t) c)
unfolding run_one mark
run_one-add_mark run kind filter t c (s, e) (r, (d, k)) =
    ap (λ o. need o >>= run_in run filter t c) e
    ∙ run_in-add_mark run filter t c s r d
    ∙ ap₂ (λ o n. done (add_mark (mark_in filter o (judge_run t.skip_because t.should_fail n)) c))
        (sym e) k

-- The counts with what the tests add.
with_tally : (Mark → ℕ) → Counts → Counts
with_tally n c = record c {
  passed = c.passed + n Mark.passes;
  failed = c.failed + n Mark.fails;
  skipped = c.skipped + n Mark.skips;
}

with_tally-add_mark :
    (m : Mark) (n : Mark → ℕ) (c : Counts)
    → with_tally n (add_mark m c) ≡ with_tally (λ k. same_mark m k + n k) c
unfolding with_tally
with_tally-add_mark Mark.unwanted n c = ground arith
with_tally-add_mark Mark.passes n c = ground arith
with_tally-add_mark Mark.fails n c = ground arith
with_tally-add_mark Mark.skips n c = ground arith

run_loop-tally :
    (run : Test → Outcome Result) (kind : Test → ℕ) (filter : Option (List ℕ)) (ts : List Test)
    (c : Counts)
    → Suited ts
    → ((t : Test) → (r : Result) × ((run t ≡ done r) × (r.result ≡ kind t)))
    → run_loop run filter ts c ≡ done (with_tally (tally kind filter ts) c)
unfolding run_loop tally with_tally
run_loop-tally run kind filter [] c h total = ground arith
run_loop-tally run kind filter (t ∷ ts) c h total =
    rw (run_one-add_mark run kind filter t c h.0 (total t)) (
      run_loop-tally run kind filter ts (add_mark (mark kind filter t) c) h.1 total
      ∙ ap done (with_tally-add_mark (mark kind filter t) (tally kind filter ts) c))

-- When every registered test has a suite and its run gives some result, `_ty_test_run` prints
-- the numbers of tests that passed, failed and were skipped, and 0 errors whatever the kinds
-- of the results, and its exit code is 1 if a test failed and 0 if not, never 2.
pub run_all-tally :
    (run : Test → Outcome Result) (kind : Test → ℕ) (filter : Option (List ℕ)) (ts : List Test)
    → Suited ts
    → ((t : Test) → (r : Result) × ((run t ≡ done r) × (r.result ≡ kind t)))
    → run_all run filter ts
      ≡ done (
        record {
          passed = tally kind filter ts Mark.passes;
          failed = tally kind filter ts Mark.fails;
          skipped = tally kind filter ts Mark.skips;
          errors = 0;
        },
        (if ltb 0 (tally kind filter ts Mark.fails) then 1 else 0),
      )
unfolding run_all exit_code_of no_counts with_tally
run_all-tally run kind filter ts h total =
    rw (run_loop-tally run kind filter ts no_counts h total) (ground arith)
