-- ===== src/Harness/Report.antt =====
-- From an assertion that fails in the child of src/ty_test.c to the result that the parent has.
use tyto_h.Base.{ℕ, zero, suc, ◌+◌, ◌*◌, ◌^◌, ◌≤◌, ◌<◌, ◌≡◌, refl, ap, ◌∙◌, ◌⊎◌, inl, inr}
use tyto_h.Base.{Bool, true, false, ◌&&◌, some, List, arith, ltb, leb, Bool-cases, ℤ}
use tyto_h.Base.{done, pos}
use tyto_h.Harness.{Test, Result, no_result, fail_assert, fail_string, fail_number}
use tyto_h.Harness.Pipe.{Failure, write_failure, or_nothing, expression_text, limit}
use tyto_h.Harness.Pipe.Escape.{total}
use tyto_h.Harness.Pipe.RoundTrip.{Legible, Chars, fields_of, reported, read_failure-write_failure}
use tyto_h.Harness.Runner.{Status, exited, System, seconds, choose_timeout, wait_loop, run_test}
use tyto_h.Harness.Runner.{verdict, with_status}
use tyto_h.Harness.Runner.{result_of, int_max, is_late}
use tyto_h.Harness.Runner.Waiting.{and_false, alive-wait_loop}

-- A child that ends before its timeout, if there is one, is waited for.
wait_loop_ended :
    (fuel timeout n : ℕ) (status : Status) (wait_counter : ℕ)
    → (timeout ≡ 0) ⊎ (n < timeout * 100)
    → timeout * 100 ≤ int_max
    → n ≤ int_max
    → wait_counter ≤ n
    → n < wait_counter + fuel
    → wait_loop fuel timeout (some (n, status)) wait_counter ≡ done (status, n)
unfolding wait_loop
wait_loop_ended zero timeout n status wait_counter early small few before enough =
    absurd (omega arith)
wait_loop_ended (suc fuel) timeout n status wait_counter early small few before enough =
    elim (Bool-cases (leb n wait_counter)) [
      | inl t ↦
          rw (wait_loop, t) (ap (λ k. done (status, k)) {x = wait_counter} {y = n} (ground arith))
      | inr f ↦
          let alive : (ltb 0 timeout && leb (timeout * 100) (wait_counter + 1)) ≡ false =
            ground arith in
          rw
            (
              alive-wait_loop fuel timeout (some (n, status)) wait_counter small (ground arith)
                  (rw f refl),
              alive,
            )
            (wait_loop_ended fuel timeout n status (wait_counter + 1) early small few (ground arith)
              (omega arith))
    ]

not_late : (t n : ℕ) → (t ≡ 0) ⊎ (n < t * 100) → t * 100 ≤ int_max → is_late t n ≡ done false
unfolding is_late
not_late t n early small = ground arith

status-reported :
    (format : ℤ → List ℕ) (kind : ℕ) (file text expected got : List ℕ) (line : ℤ) (r : Result)
    → (kind ≡ fail_assert) ⊎ ((kind ≡ fail_string) ⊎ (kind ≡ fail_number))
    → with_status format (exited 1) (reported kind file text expected got line r)
      ≡ record (reported kind file text expected got line r) { exit_code = 1 }
unfolding with_status reported
status-reported format kind file text expected got line r kinds = ground arith

-- A failed assertion, or failed comparison of strings or numbers, that a child writes before
-- it exits with 1, in time, is what its parent has as the result: the kind, the file, the
-- line and the texts, each cut to 1023 characters, where the texts are C strings, the numbers
-- legible, and the message fits the buffer of 4095 characters, the timeout is at most
-- 21474836 seconds, and the child ends within 2^31 - 1 polls of `waitpid`.
pub run_test-reported :
    (fuel : ℕ) (format : ℤ → List ℕ) (atoi : List ℕ → ℤ) (capture_output : Bool) (system : System)
    (test : Test) (global_timeout : ℤ) (n : ℕ) (f : Failure) (text : List ℕ)
    → system.output_pipes ≡ true
    → system.failure_pipe ≡ true
    → system.forked ≡ true
    → system.ends ≡ some (n, exited 1)
    → n < fuel
    → (seconds (choose_timeout test.timeout global_timeout) ≡ 0)
      ⊎ (n < seconds (choose_timeout test.timeout global_timeout) * 100)
    → seconds (choose_timeout test.timeout global_timeout) * 100 < 2 ^ 31
    → n < 2 ^ 31
    → system.arrived ≡ write_failure true format f
    → (f.kind ≡ fail_assert) ⊎ ((f.kind ≡ fail_string) ⊎ (f.kind ≡ fail_number))
    → expression_text f.kind f.expression ≡ some text
    → Legible format atoi (pos f.kind)
    → Legible format atoi f.line
    → Chars (or_nothing f.file)
    → Chars text
    → Chars (or_nothing f.expected)
    → Chars (or_nothing f.got)
    → total (fields_of format f text) ≤ limit
    → run_test fuel format atoi capture_output system test global_timeout
      ≡ done
          (record (reported f.kind
            (or_nothing f.file)
            text
            (or_nothing f.expected)
            (or_nothing f.got)
            f.line
            (record no_result { timeout = choose_timeout test.timeout global_timeout })) {
              exit_code = 1;
            })
unfolding run_test verdict result_of no_result
run_test-reported fuel format atoi capture_output system test global_timeout n f text o p k e enough
      early small few a kinds et l1 l2 c1 c2 c3 c4 fits =
    let timeout = choose_timeout test.timeout global_timeout in
    rw
      (
        o,
        and_false capture_output,
        p,
        k,
        e,
        a,
        wait_loop_ended fuel (seconds timeout) n (exited 1) 0 early (omega arith) (omega arith)
            (omega arith) (omega arith),
        not_late (seconds timeout) n early (omega arith),
      )
      (ap (λ x. done (with_status format (exited 1) x.1))
          (read_failure-write_failure format atoi f text (record no_result { timeout = timeout })
            kinds et l1 l2 c1 c2 c3 c4 fits)
        ∙ ap done (
            status-reported format f.kind (or_nothing f.file) text (or_nothing f.expected)
              (or_nothing f.got) f.line (record no_result { timeout = timeout }) kinds))
