-- ===== src/Harness.antt =====
-- The test harness of src/ty_test.c and includes/ty_test.h: its data.
-- A C string is the list of its characters without the null character at its end, a pointer
-- that may be null an option. Processes, pipes, clocks and printing belong to the system.
mod Pipe
mod Names
mod Registry
mod Runner
mod Tests
mod Asserts
mod Report
use tyto_h.Base.{ℕ, Bool, Option, List, [], take, ℤ, pos}

-- The values of `ty_test_result_kind_t`; the code compares them as numbers.
abbrev pub pass : ℕ
pass = 0

abbrev pub fail : ℕ
fail = 1

abbrev pub fail_assert : ℕ
fail_assert = 2

abbrev pub fail_string : ℕ
fail_string = 3

abbrev pub fail_number : ℕ
fail_number = 4

abbrev pub fail_memory : ℕ
fail_memory = 5

abbrev pub fail_timeout : ℕ
fail_timeout = 6

abbrev pub error : ℕ
error = 7

-- `ty_test_t`, without the function that is called in the child process.
pub record Test : Type 0 where
  pub suite : Option (List ℕ)
  pub skip_because : Option (List ℕ)
  pub function_name : Option (List ℕ)
  pub timeout : ℤ
  pub should_fail : Bool

-- `ty_test_result_t`, without the duration and the captured output, which only print.
pub record Result : Type 0 where
  pub result : ℕ
  pub exit_code : ℕ
  pub signal : ℕ
  pub failure_expression : List ℕ
  pub failure_expected : List ℕ
  pub failure_got : List ℕ
  pub failure_file : List ℕ
  pub failure_line : ℤ
  pub timeout : ℤ

-- `{0}`, which is also the kind `pass`.
unfoldable pub no_result : Result
no_result = record {
  result = pass;
  exit_code = 0;
  signal = 0;
  failure_expression = [];
  failure_expected = [];
  failure_got = [];
  failure_file = [];
  failure_line = pos 0;
  timeout = pos 0;
}

-- `snprintf` into a buffer of 1024 characters keeps 1023.
abbrev pub clip : List ℕ → List ℕ
clip s = take 1023 s
