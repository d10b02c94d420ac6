-- ===== src/Argparse.antt =====
-- The argument parser of includes/ty_argparse.h.
-- `argv` is a list of arguments, each a list of characters with a null character behind the
-- last; a read behind that is a fault. `arg_error` prints and exits; its messages stand in Argparse.Messages.
mod Total
pub mod Messages
mod Tests
use tyto_h.Base.{ℕ, zero, suc, ◌+◌, Bool, true, false, Option, none, some, List, [], ◌∷◌}
use tyto_h.Base.{◌++◌, ◌>>=◌, ◌==◌, if◌then◌else◌, ltb, Outcome, need, get_elem?, drop}
use tyto_h.Base.{done, fault, out_of_fuel}

-- The kinds of arguments with what the union holds for each.
pub data Arg : Type 0 where
  short : ℕ → Arg
  long : List ℕ → Arg
  positional : List ℕ → Arg
  finished : Arg

pub record Context : Type 0 where
  pub only_pos : Bool
  pub short_index : ℕ
  pub args : List (List ℕ)

unfoldable pub arg_init : List (List ℕ) → Context
arg_init argv = record { only_pos = false; short_index = 0; args = drop 1 argv }

unfoldable pub char_at : List ℕ → ℕ → Outcome ℕ
char_at s i = need (get_elem? (s ++ 0 ∷ []) i)

-- The value, none for the null pointer, and the context behind it.
unfoldable pub value_of : Context → List (List ℕ) → Outcome (Option (List ℕ) × Context)
value_of c [] = if ltb 0 c.short_index then fault else done (none, c)
value_of c (s ∷ rest) = done (
    if ltb 0 c.short_index
    then (
      some (drop c.short_index s),
      record { only_pos = c.only_pos; short_index = 0; args = rest },
    )
    else (some s, record { only_pos = c.only_pos; short_index = c.short_index; args = rest }))

unfoldable pub arg_next_value : Context → Outcome (Option (List ℕ) × Context)
arg_next_value c = value_of c c.args

-- The branch of `arg_next` inside a group of short options.
unfoldable pub next_short : Context → List ℕ → List (List ℕ) → Outcome (Arg × Context)
next_short c s rest = char_at s c.short_index >>= (λ x. char_at s (c.short_index + 1) >>= (λ y.
    done (
      Arg.short x,
      (if y == 0
          then record { only_pos = c.only_pos; short_index = 0; args = rest }
          else record { only_pos = c.only_pos; short_index = c.short_index + 1; args = c.args }),
    )))

unfoldable pub next_positional : Context → List ℕ → List (List ℕ) → Arg × Context
next_positional c s rest =
    (Arg.positional s, record { only_pos = c.only_pos; short_index = c.short_index; args = rest })

-- The branch that looks at the first characters; `again` is the jump to `start_label`.
unfoldable pub next_fresh :
    (again : Context → Outcome (Arg × Context))
    → Context
    → List ℕ
    → List (List ℕ)
    → Outcome (Arg × Context)
next_fresh again c s rest = char_at s 0 >>= (λ x.
    if x == 45
    then char_at s 1 >>= (λ y.
      if y == 0
      then done (next_positional c s rest)
      else if y == 45
      then char_at s 2 >>= (λ z.
        if z == 0
        then again (record { only_pos = true; short_index = c.short_index; args = rest })
        else done (
          Arg.long (drop 2 s),
          record { only_pos = c.only_pos; short_index = c.short_index; args = rest },
        ))
      else again (record { only_pos = c.only_pos; short_index = 1; args = c.args }))
    else done (next_positional c s rest))

unfoldable pub next_of :
    (again : Context → Outcome (Arg × Context)) → Context → List (List ℕ) → Outcome (Arg × Context)
next_of again c [] = done (Arg.finished, c)
next_of again c (s ∷ rest) =
    if c.only_pos
    then done (next_positional c s rest)
    else if ltb 0 c.short_index
    then next_short c s rest
    else next_fresh again c s rest

-- `fuel` bounds how often `start_label` is reached.
unfoldable pub arg_next : ℕ → Context → Outcome (Arg × Context)
arg_next zero c = out_of_fuel
arg_next (suc fuel) c = next_of (arg_next fuel) c c.args
