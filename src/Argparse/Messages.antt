-- ===== src/Argparse/Messages.antt =====
-- The tests of an argument and the messages of `arg_error` in includes/ty_argparse.h.
use tyto_h.Base.{ℕ, Bool, true, false, Option, none, some, List, [], ◌∷◌, ◌++◌, ◌==◌}
use tyto_h.Base.{codes, ℤ, pos, negsuc}
use tyto_h.Argparse.{Arg}

-- The macros; `strcmp` is a parameter.
unfoldable pub arg_short : Arg → (c : ℕ) → Bool
arg_short (Arg.short x) c = x == c
arg_short _ c = false

unfoldable pub arg_long : (strcmp : List ℕ → List ℕ → ℤ) → Arg → List ℕ → Bool
arg_long strcmp (Arg.long s) t = elim (strcmp s t) [ pos n ↦ n == 0 | negsuc n ↦ false ]
arg_long strcmp _ t = false

unfoldable pub arg_pos : Arg → Bool
arg_pos (Arg.positional s) = true
arg_pos _ = false

unfoldable pub arg_done : Arg → Bool
arg_done Arg.finished = true
arg_done _ = false

-- What the process writes before it exits, and its exit code.
pub record ExitText : Type 0 where
  pub to_stderr : List ℕ
  pub to_stdout : List ℕ
  pub code : ℕ

unfoldable pub complaint : Arg → (err : List ℕ) → List ℕ
complaint (Arg.short c) err = codes "option '-" ++ c ∷ [] ++ codes "': " ++ err ++ codes "\n"
complaint (Arg.long s) err = codes "option '--" ++ s ++ codes "': " ++ err ++ codes "\n"
complaint (Arg.positional s) err = codes "argument '" ++ s ++ codes "': " ++ err ++ codes "\n"
complaint Arg.finished err = codes "unexpected end of arguments\n"

unfoldable pub usage_text : List ℕ → List ℕ
usage_text usage = codes "usage: " ++ usage ++ codes "\n"

unfoldable pub arg_error : Arg → (err : Option (List ℕ)) → (usage : List ℕ) → ExitText
arg_error arg none usage = record { to_stderr = []; to_stdout = usage_text usage; code = 0 }
arg_error arg (some err) usage = record {
  to_stderr = complaint arg err ++ usage_text usage;
  to_stdout = [];
  code = 1;
}
