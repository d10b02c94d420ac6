-- ===== src/Argparse/Tests.antt =====
-- The argument parser at a concrete command line.
use tyto_h.Base.{◌≡◌, refl, inr, false, some, [], ◌∷◌, arith, codes}
use tyto_h.Argparse.Messages.{arg_error, complaint, usage_text}
use tyto_h.Argparse.{Arg, Context, arg_next}
use tyto_h.Argparse.Total.{Placed, Steps, arg_next-Steps}

-- The command line `prog -ab -- x`, inside the group of short options.
abbrev in_options : Context
in_options = record {
  only_pos = false;
  short_index = 2;
  args = (45 ∷ 97 ∷ 98 ∷ []) ∷ (45 ∷ 45 ∷ []) ∷ (120 ∷ []) ∷ [];
}

in_options-Placed : Placed in_options
unfolding Placed
in_options-Placed =
    inr (refl, (45 ∷ 97 ∷ 98 ∷ [], ((45 ∷ 45 ∷ []) ∷ (120 ∷ []) ∷ [], (refl, omega arith))))

arg_next-Steps_example : Steps (arg_next 2 in_options)
arg_next-Steps_example = arg_next-Steps 0 in_options in_options-Placed

unknown_option : arg_error (Arg.short 120) (some (codes "unknown option.")) (codes "u") ≡ record {
  to_stderr = codes "option '-x': unknown option.\nusage: u\n";
  to_stdout = [];
  code = 1;
}
unfolding arg_error complaint usage_text
unknown_option = refl
