-- ===== src/Harness/Runner/Waiting.antt =====
-- The loop around `waitpid` of src/ty_test.c ends, and what a child that hangs is given.
use tyto_h.Base.{ℕ, zero, suc, ◌+◌, ◌*◌, ◌^◌, ◌≤◌, ◌<◌, ◌≡◌, refl, inl, inr, Bool, true}
use tyto_h.Base.{false, not, ◌&&◌, Option, none, List, arith, ◌>>=◌, if◌then◌else◌, ltb}
use tyto_h.Base.{leb, Bool-cases, Option-cases, Outcome, ℤ, done, out_of_fuel}
use tyto_h.Harness.{Test, Result, fail_timeout, no_result}
use tyto_h.Harness.Pipe.{read_failure}
use tyto_h.Harness.Runner.{Status, exited, System, seconds, choose_timeout, has_ended}
use tyto_h.Harness.Runner.{wait_loop, run_test, verdict, with_status, result_of, int_max}
use tyto_h.Harness.Runner.{is_late, increment}

-- The sum, and the test, are defined where the numbers are within the range of `int`.
pub increment-eq : (n : ℕ) → n < int_max → increment n ≡ done (n + 1)
unfolding increment
increment-eq n h = ground arith

pub is_late-eq :
    (timeout n : ℕ)
    → timeout * 100 ≤ int_max
    → is_late timeout n ≡ done (ltb 0 timeout && leb (timeout * 100) n)
unfolding is_late
is_late-eq timeout n h = ground arith

-- A round in which the child is alive.
pub alive-wait_loop :
    (fuel timeout : ℕ) (ends : Option (ℕ × Status)) (n : ℕ)
    → timeout * 100 ≤ int_max
    → n < int_max
    → has_ended ends n ≡ none
    → wait_loop (suc fuel) timeout ends n ≡ (
        if ltb 0 timeout && leb (timeout * 100) (n + 1)
        then done (exited 0, n + 1)
        else wait_loop fuel timeout ends (n + 1))
unfolding wait_loop
alive-wait_loop fuel timeout ends n small few e =
    rw (wait_loop, e, increment-eq n few, is_late-eq timeout (n + 1) small) refl

-- The loop ends: after the child, or with the kill, whose counter is at the timeout.
wait_loop-done :
    (fuel timeout : ℕ) (ends : Option (ℕ × Status)) (wait_counter : ℕ)
    → 0 < timeout
    → timeout * 100 ≤ int_max
    → wait_counter < timeout * 100
    → timeout * 100 ≤ wait_counter + fuel
    → (w : Status × ℕ) × (wait_loop fuel timeout ends wait_counter ≡ done w)
unfolding wait_loop
wait_loop-done zero timeout ends wait_counter pos_t small before enough = absurd (omega arith)
wait_loop-done (suc fuel) timeout ends wait_counter pos_t small before enough =
    elim (Option-cases (has_ended ends wait_counter)) [
      | inr e ↦ rw (wait_loop, e.1) ((e.0, wait_counter), refl)
      | inl e ↦
          rw (alive-wait_loop fuel timeout ends wait_counter small (omega arith) e)
            (elim (Bool-cases (ltb 0 timeout && leb (timeout * 100) (wait_counter + 1))) [
              | inl t ↦ rw t ((exited 0, wait_counter + 1), refl)
              | inr f ↦ rw f (
                  wait_loop-done fuel timeout ends (wait_counter + 1) pos_t small (ground arith)
                    (omega arith))
            ])
    ]

-- A child that never ends is killed with the counter at the timeout, after so many rounds.
wait_loop_hung :
    (fuel timeout wait_counter : ℕ)
    → 0 < timeout
    → timeout * 100 ≤ int_max
    → wait_counter < timeout * 100
    → wait_loop fuel timeout none wait_counter ≡ (
        if leb (timeout * 100) (wait_counter + fuel)
        then done (exited 0, timeout * 100)
        else out_of_fuel)
unfolding wait_loop
wait_loop_hung zero timeout wait_counter pos_t small before = ground arith
wait_loop_hung (suc fuel) timeout wait_counter pos_t small before =
    rw (alive-wait_loop fuel timeout none wait_counter small (omega arith) refl)
      (ground (arith, wait_loop_hung fuel timeout (wait_counter + 1)))

Done_if :
    (b : Bool) (x y : Outcome Result)
    → (r : Result) × (x ≡ done r)
    → (r : Result) × (y ≡ done r)
    → (r : Result) × ((if b then x else y) ≡ done r)
Done_if true x y hx hy = hx
Done_if false x y hx hy = hy

-- The result of a child that was waited for.
Done_verdict :
    (format : ℤ → List ℕ) (atoi : List ℕ → ℤ) (timeout : ℤ) (arrived : Option (List ℕ))
    (w : Status × ℕ)
    → seconds timeout * 100 ≤ int_max
    → (r : Result) × (verdict format atoi timeout arrived w ≡ done r)
unfolding verdict
Done_verdict format atoi timeout arrived (status, n) small =
    rw (is_late-eq (seconds timeout) n small) (_, refl)

-- A test with a timeout of at most 21474836 seconds ends, whatever the system answers, within 100 polls of `waitpid` for
-- each second of it.
pub run_test-done :
    (fuel : ℕ) (format : ℤ → List ℕ) (atoi : List ℕ → ℤ) (capture_output : Bool) (system : System)
    (test : Test) (global_timeout : ℤ)
    → 0 < seconds (choose_timeout test.timeout global_timeout)
    → seconds (choose_timeout test.timeout global_timeout) * 100 ≤ fuel
    → seconds (choose_timeout test.timeout global_timeout) * 100 < 2 ^ 31
    → (r : Result) × (run_test fuel format atoi capture_output system test global_timeout ≡ done r)
unfolding run_test
run_test-done fuel format atoi capture_output system test global_timeout pos_t enough small =
    let t = seconds (choose_timeout test.timeout global_timeout) in
    let w = wait_loop-done fuel t system.ends 0 pos_t (omega arith) (omega arith) (omega arith) in
    Done_if (capture_output && not system.output_pipes) _ _ (_, refl)
      (Done_if (not system.failure_pipe) _ _ (_, refl)
        (Done_if (not system.forked) _ _ (_, refl)
          (rw (w.1) (Done_verdict format atoi _ system.arrived w.0 (omega arith)))))

pub and_false : (b : Bool) → (b && false) ≡ false
and_false true = refl
and_false false = refl

hung-verdict :
    (format : ℤ → List ℕ) (atoi : List ℕ → ℤ) (timeout : ℤ)
    → 0 < seconds timeout
    → seconds timeout * 100 ≤ int_max
    → (r : Result) × ((verdict format atoi timeout none (exited 0, seconds timeout * 100) ≡ done r)
        × (r.result ≡ fail_timeout))
unfolding verdict result_of with_status read_failure no_result
hung-verdict format atoi timeout pos_t small =
    rw (is_late-eq (seconds timeout) (seconds timeout * 100) small) (_, (refl, ground arith))

then_verdict :
    (format : ℤ → List ℕ) (atoi : List ℕ → ℤ) (timeout : ℤ) (enough : Bool) (r : Result)
    → verdict format atoi timeout none (exited 0, seconds timeout * 100) ≡ done r
    → ((if enough then done (exited 0, seconds timeout * 100) else out_of_fuel)
        >>= verdict format atoi timeout none)
      ≡ (if enough then done r else out_of_fuel)
then_verdict format atoi timeout true r runs = runs
then_verdict format atoi timeout false r runs = refl

-- A test with a timeout, of at most 21474836 seconds, whose child was started, never ends and
-- writes nothing is a failure for its timeout: the loop ends after exactly 100 polls of
-- `waitpid` for each second, so that fewer rounds do not end it.
pub run_test_hung :
    (fuel : ℕ) (format : ℤ → List ℕ) (atoi : List ℕ → ℤ) (capture_output : Bool) (system : System)
    (test : Test) (global_timeout : ℤ)
    → 0 < seconds (choose_timeout test.timeout global_timeout)
    → seconds (choose_timeout test.timeout global_timeout) * 100 < 2 ^ 31
    → system.output_pipes ≡ true
    → system.failure_pipe ≡ true
    → system.forked ≡ true
    → system.ends ≡ none
    → system.arrived ≡ none
    → (r : Result) × ((run_test fuel format atoi capture_output system test global_timeout ≡ (
          if leb (seconds (choose_timeout test.timeout global_timeout) * 100) fuel
          then done r
          else out_of_fuel))
        × (r.result ≡ fail_timeout))
unfolding run_test
run_test_hung fuel format atoi capture_output system test global_timeout pos_t small o p f e a =
    let timeout = choose_timeout test.timeout global_timeout in
    let from_start : 0 + fuel ≡ fuel = omega arith in
    let (r, (runs, late)) = hung-verdict format atoi timeout pos_t (omega arith) in
    rw
      (
        o,
        and_false capture_output,
        p,
        f,
        e,
        a,
        wait_loop_hung fuel (seconds timeout) 0 pos_t (omega arith) (omega arith),
        from_start,
      )
      (r, (then_verdict format atoi timeout (leb (seconds timeout * 100) fuel) r runs, late))
