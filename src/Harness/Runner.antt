-- ===== src/Harness/Runner.antt =====
-- The runner of src/ty_test.c: `_ty_run_test` for one test, `_ty_test_run` for all of them.
-- The system's answers are parameters; the text that is printed is not modelled. Where the
-- counter or the product of a timeout and 100 leaves the range of `int`, nothing is defined: a
-- fault.
pub mod Waiting
pub mod Totals
use tyto_h.Base.{ℕ, zero, suc, ◌+◌, ◌*◌, Bool, true, false, not, ◌&&◌, Option, none, some}
use tyto_h.Base.{List, [], ◌∷◌, ◌++◌, ◌>>=◌, ◌==◌, if◌then◌else◌, ltb, leb, codes}
use tyto_h.Base.{Outcome, need, ℤ, done, fault, out_of_fuel, pos, negsuc}
use tyto_h.Harness.{Test, Result, no_result, pass, fail, fail_timeout, error, clip}
use tyto_h.Harness.Pipe.{read_failure}

-- How a process ended.
pub data Status : Type 0 where
  exited killed_by : ℕ → Status

-- What the system answers while a test runs: whether the pipes and the process could be
-- made, after how many polls of `waitpid` the child has ended and how, if it does, and the
-- bytes that `read` gives from the failure pipe.
pub record System : Type 0 where
  pub output_pipes : Bool
  pub failure_pipe : Bool
  pub forked : Bool
  pub strerror : List ℕ
  pub ends : Option (ℕ × Status)
  pub arrived : Option (List ℕ)

-- A timeout that is not positive is none, here 0.
abbrev pub seconds : ℤ → ℕ
seconds (pos n) = n
seconds (negsuc n) = 0

unfoldable pub choose_timeout : ℤ → ℤ → ℤ
choose_timeout own global = if ltb 0 (seconds own) then own else global

abbrev pub has_ended : Option (ℕ × Status) → ℕ → Option Status
has_ended none polls = none
has_ended (some (n, status)) polls = if leb n polls then some status else none

-- The greatest `int`.
abbrev pub int_max : ℕ
int_max = 2147483647

-- `timeout > 0 && wait_counter >= timeout * 100`, with the product as an `int`.
unfoldable pub is_late : (timeout wait_counter : ℕ) → Outcome Bool
is_late timeout wait_counter =
    if not (ltb 0 timeout)
    then done false
    else if ltb int_max (timeout * 100)
    then fault
    else done (leb (timeout * 100) wait_counter)

-- `wait_counter++` on an `int`.
unfoldable pub increment : ℕ → Outcome ℕ
increment wait_counter = if leb int_max wait_counter then fault else done (wait_counter + 1)

-- The loop around `waitpid`, with a bound on its rounds: the status and the counter. A child
-- that is killed for its timeout leaves the status 0.
unfoldable pub wait_loop : ℕ → (timeout : ℕ) → Option (ℕ × Status) → ℕ → Outcome (Status × ℕ)
wait_loop zero timeout ends wait_counter = out_of_fuel
wait_loop (suc fuel) timeout ends wait_counter =
    let rest = wait_loop fuel timeout ends (wait_counter + 1) in
    elim (has_ended ends wait_counter) [
      | some status ↦ done (status, wait_counter)
      | none ↦
          increment wait_counter
          >>= is_late timeout
          >>= (λ late. if late then done (exited 0, wait_counter + 1) else rest)
    ]

unfoldable pub failed_start : List ℕ → Result
failed_start text = record no_result { result = error; failure_expression = clip text }

-- The part behind the loop that reads the exit status.
unfoldable pub with_status : (format : ℤ → List ℕ) → Status → Result → Result
with_status format (killed_by sig) r = record r {
  signal = sig;
  result = fail;
  failure_expression = clip (codes "Test killed by signal " ++ format (pos sig));
}
with_status format (exited code) r = record r {
  exit_code = code;
  result = if r.result == pass && not (code == 0) then fail else r.result;
}

-- The result, once it is known whether the counter is at the timeout.
unfoldable pub result_of :
    (format : ℤ → List ℕ)
    → (atoi : List ℕ → ℤ) → (timeout : ℤ) → Option (List ℕ)
    → Status
    → (late : Bool) → Result
result_of format atoi timeout arrived status late =
    let r : Result = record no_result {
      timeout = timeout;
      result = if late then fail_timeout else pass;
    } in
    with_status format status (read_failure atoi arrived r).1

unfoldable pub verdict :
    (format : ℤ → List ℕ)
    → (atoi : List ℕ → ℤ) → (timeout : ℤ) → Option (List ℕ)
    → Status × ℕ
    → Outcome Result
verdict format atoi timeout arrived (status, wait_counter) =
    is_late (seconds timeout) wait_counter
    >>= (λ late. done (result_of format atoi timeout arrived status late))

unfoldable pub run_test :
    (fuel : ℕ)
    → (format : ℤ → List ℕ) → (atoi : List ℕ → ℤ) → (capture_output : Bool) → System
    → Test
    → (global_timeout : ℤ) → Outcome Result
run_test fuel format atoi capture_output system test global_timeout =
    let timeout = choose_timeout test.timeout global_timeout in
    let waited = wait_loop fuel (seconds timeout) system.ends 0 in
    if capture_output && not system.output_pipes
    then done (failed_start (codes "Failed to create pipe"))
    else if not system.failure_pipe
    then done (failed_start (codes "Failed to create failure pipe"))
    else if not system.forked
    then done (failed_start (codes "Failed to fork: " ++ system.strerror))
    else waited >>= verdict format atoi timeout system.arrived

pub record Counts : Type 0 where
  pub passed : ℕ
  pub failed : ℕ
  pub skipped : ℕ
  pub errors : ℕ

unfoldable pub no_counts : Counts
no_counts = record { passed = 0; failed = 0; skipped = 0; errors = 0 }

-- The branches on `result.result` and `should_fail`.
unfoldable pub count_result : Bool → ℕ → Counts → Counts
count_result should_fail kind c =
    if kind == pass
    then (if should_fail
        then record c { failed = c.failed + 1 }
        else record c { passed = c.passed + 1 })
    else if ltb pass kind
    then (if should_fail
        then record c { passed = c.passed + 1 }
        else record c { failed = c.failed + 1 })
    else if kind == error
    then record c { errors = c.errors + 1 }
    else c

unfoldable pub same_text : List ℕ → List ℕ → Bool
same_text [] [] = true
same_text (x ∷ s) (y ∷ t) = let rest = same_text s t in if x == y then rest else false
same_text _ _ = false

abbrev pub is_wanted : Option (List ℕ) → List ℕ → Bool
is_wanted none suite = true
is_wanted (some filter) suite = same_text suite filter

unfoldable pub run_unless :
    (run : Test → Outcome Result)
    → Test
    → Counts
    → (skip_because : Option (List ℕ)) → Outcome Counts
run_unless run t c (some why) = done (record c { skipped = c.skipped + 1 })
run_unless run t c none = run t >>= (λ r. done (count_result t.should_fail r.result c))

unfoldable pub run_in :
    (run : Test → Outcome Result)
    → Option (List ℕ)
    → Test
    → Counts
    → (suite : List ℕ) → Outcome Counts
run_in run filter t c suite =
    let ran = run_unless run t c t.skip_because in
    if not (is_wanted filter suite) then done c else ran

-- One round of the loop over the tests; the suite must not be the null pointer.
unfoldable pub run_one :
    (run : Test → Outcome Result) → Option (List ℕ) → Test → Counts → Outcome Counts
run_one run filter t c = need t.suite >>= run_in run filter t c

unfoldable pub run_loop :
    (run : Test → Outcome Result) → Option (List ℕ) → List Test → Counts → Outcome Counts
run_loop run filter [] c = done c
run_loop run filter (t ∷ tests) c = run_one run filter t c >>= run_loop run filter tests

unfoldable pub exit_code_of : Counts → ℕ
exit_code_of c = if ltb 0 c.failed then 1 else if ltb 0 c.errors then 2 else 0

-- The counts that are printed, and the exit code.
unfoldable pub run_all :
    (run : Test → Outcome Result) → Option (List ℕ) → List Test → Outcome (Counts × ℕ)
run_all run filter tests = run_loop run filter tests no_counts >>= (λ c. done (c, exit_code_of c))
