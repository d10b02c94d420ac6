-- ===== src/Harness/Tests.antt =====
-- The test harness at concrete inputs.
use tyto_h.Base.{ℕ, ◌+◌, ◌-◌, ◌*◌, ◌^◌, ◌≤◌, ◌<◌, ◌≡◌, refl, ◌⊎◌, inl, inr, true, false}
use tyto_h.Base.{none, some, List, [], ◌∷◌, arith, if◌then◌else◌, ltb, leb}
use tyto_h.Base.{codes, Outcome, ℤ, done, out_of_fuel, pos, negsuc}
use tyto_h.Harness.{Test, Result, no_result, fail_timeout}
use tyto_h.Harness.Pipe.{Failure, write_failure, read_failure, expression_text, is_special, limit}
use tyto_h.Harness.Pipe.{message, append_escaped, append_literal, append_int, escaped}
use tyto_h.Harness.Runner.{seconds, is_late}
use tyto_h.Base.{fault}
use tyto_h.Harness.Runner.Totals.{mark}
use tyto_h.Harness.Pipe.Escape.{total, escape}
use tyto_h.Harness.Pipe.RoundTrip.{Chars, Legible, fields_of, reported, read_failure-write_failure}
use tyto_h.Harness.Registry.{Registry}
use tyto_h.Harness.Names.{behind_last, before_last, strip_back, strip_front}
use tyto_h.Harness.Names.{base_strip_extension}
use tyto_h.Harness.Runner.{System, exited, choose_timeout, run_test, run_all}
use tyto_h.Harness.Runner.Waiting.{run_test_hung}
use tyto_h.Harness.Runner.Totals.{Mark, tally, run_all-tally}
use tyto_h.Harness.Report.{run_test-reported}

-- Numbers of one digit.
abbrev digit : ℤ → List ℕ
digit (pos n) = (48 + n) ∷ []
digit (negsuc n) = 45 ∷ (49 + n) ∷ []

abbrev number : List ℕ → ℤ
number [] = pos 0
number (c ∷ s) = pos (c - 48)

-- A comparison of "a|b" with "\" that failed in "t.c" at line 7.
abbrev compared : Failure
compared = record {
  kind = 3;
  expression = none;
  expected = some (codes "a|b");
  got = some (codes "\\");
  file = some (codes "t.c");
  line = pos 7;
}

Legible-kind : Legible digit number (pos 3)
unfolding is_special
Legible-kind = record {
  short = omega arith;
  plain = (refl, tt);
  chars = ((λ e. absurd (omega arith)), tt);
  back = refl;
}

Legible-line : Legible digit number (pos 7)
unfolding is_special
Legible-line = record {
  short = omega arith;
  plain = (refl, tt);
  chars = ((λ e. absurd (omega arith)), tt);
  back = refl;
}

compared_text : expression_text 3 none ≡ some (codes "-")
unfolding expression_text
compared_text = refl

compared_fits : total (fields_of digit compared (codes "-")) ≤ limit
unfolding limit escape is_special
compared_fits = omega arith

written : write_failure true digit compared ≡ some (codes "3|t.c|-|a\\|b|\\\\|7|")
unfolding write_failure expression_text message append_escaped append_literal append_int escaped
    is_special limit
written = refl

no_zero_file : Chars (codes "t.c")
no_zero_file =
    ((λ e. absurd (omega arith)), ((λ e. absurd (omega arith)), ((λ e. absurd (omega arith)), tt)))

no_zero_dash : Chars (codes "-")
no_zero_dash = ((λ e. absurd (omega arith)), tt)

no_zero_expected : Chars (codes "a|b")
no_zero_expected =
    ((λ e. absurd (omega arith)), ((λ e. absurd (omega arith)), ((λ e. absurd (omega arith)), tt)))

no_zero_got : Chars (codes "\\")
no_zero_got = ((λ e. absurd (omega arith)), tt)

read_failure-write_failure_example :
    read_failure number (write_failure true digit compared) no_result
    ≡ (true, reported 3 (codes "t.c") (codes "-") (codes "a|b") (codes "\\") (pos 7) no_result)
read_failure-write_failure_example =
    read_failure-write_failure digit number compared (codes "-") no_result (inr (inl refl))
      compared_text Legible-kind Legible-line no_zero_file no_zero_dash no_zero_expected no_zero_got
      compared_fits

abbrev some_test : Test
some_test = record {
  suite = some (codes "s");
  skip_because = none;
  function_name = some (codes "f");
  timeout = pos 2;
  should_fail = false;
}

-- A child that writes the failure and exits with 1 before the fifth poll.
abbrev writes_failure : System
writes_failure = record {
  output_pipes = true;
  failure_pipe = true;
  forked = true;
  strerror = [];
  ends = some (4, exited 1);
  arrived = write_failure true digit compared;
}

two_seconds : choose_timeout (pos 2) (pos 0) ≡ pos 2
unfolding choose_timeout
two_seconds = refl

four_early :
    (seconds (choose_timeout (pos 2) (pos 0)) ≡ 0)
    ⊎ (4 < seconds (choose_timeout (pos 2) (pos 0)) * 100)
unfolding choose_timeout
four_early = inr (omega arith)

timeout_small : seconds (choose_timeout (pos 2) (pos 0)) * 100 < 2 ^ 31
unfolding choose_timeout
timeout_small = omega arith

run_test-reported_example :
    run_test 300 digit number true writes_failure some_test (pos 0)
    ≡ done
        (record (reported 3
          (codes "t.c")
          (codes "-")
          (codes "a|b")
          (codes "\\")
          (pos 7)
          (record no_result { timeout = choose_timeout (pos 2) (pos 0) })) { exit_code = 1 })
run_test-reported_example =
    run_test-reported 300 digit number true writes_failure some_test (pos 0) 4 compared (codes "-")
      refl refl refl refl (omega arith) four_early timeout_small (omega arith) refl (inr (inl refl))
      compared_text Legible-kind Legible-line no_zero_file no_zero_dash no_zero_expected no_zero_got
      compared_fits

abbrev hangs : System
hangs = record {
  output_pipes = true;
  failure_pipe = true;
  forked = true;
  strerror = [];
  ends = none;
  arrived = none;
}

timeout_pos : 0 < seconds (choose_timeout (pos 2) (pos 0))
unfolding choose_timeout
timeout_pos = omega arith

run_test_hung_example :
    (r : Result) × ((run_test 200 digit number true hangs some_test (pos 0) ≡ (
        if leb (seconds (choose_timeout (pos 2) (pos 0)) * 100) 200 then done r else out_of_fuel))
      × (r.result ≡ fail_timeout))
run_test_hung_example =
    run_test_hung 200 digit number true hangs some_test (pos 0) timeout_pos timeout_small refl refl
      refl refl refl

-- Every test gives an error of the system.
abbrev erring : Test → Outcome Result
erring t = done (record no_result { result = 7 })

abbrev kinds : Test → ℕ
kinds t = 7

run_all-tally_example :
    run_all erring none (some_test ∷ [])
    ≡ done (
      record {
        passed = tally kinds none (some_test ∷ []) Mark.passes;
        failed = tally kinds none (some_test ∷ []) Mark.fails;
        skipped = tally kinds none (some_test ∷ []) Mark.skips;
        errors = 0;
      },
      (if ltb 0 (tally kinds none (some_test ∷ []) Mark.fails) then 1 else 0),
    )
run_all-tally_example =
    run_all-tally erring kinds none (some_test ∷ []) ((codes "s", refl), tt)
      (λ t. (record no_result { result = 7 }, (refl, refl)))

-- An error of the system counts as a failed test.
error_fails : tally kinds none (some_test ∷ []) Mark.fails ≡ 1
unfolding tally mark
error_fails = refl

abbrev unnamed : Test
unnamed = record some_test { suite = none }

abbrev one_registered : Registry
one_registered = record { tests = some_test ∷ []; testsk = 64 }

suite_name : base_strip_extension (codes "\"foo/bar/foobar.txt\"") ≡ codes "foobar"
unfolding base_strip_extension behind_last before_last strip_back strip_front
suite_name = refl

late_overflows : is_late 21474837 0 ≡ fault
unfolding is_late
late_overflows = refl
