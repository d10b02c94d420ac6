-- ===== src/Exits/Tests.antt =====
-- Runs of the assertions, and the theorem at a concrete input.
use tyto_h.Base.{ℕ, ◌≡◌, refl, true, false, Option, none, some, List, codes, length}
use tyto_h.Base.{replicate}
use tyto_h.Exits.{
  Exit, Site, require, unless_exits, precondition, ensure, xassert, panic_if, panic_text, given,
  xmalloc, xrealloc,
}
use tyto_h.Exits.Log.{LogKind, tyto_log, level_color, level_name}
use tyto_h.Exits.Wrappers.{Reallocated, xrealloc-Reallocated}

abbrev site : Site
site = record { file = codes "a.c"; line = codes "7"; func = codes "main" }

require_message :
    require site false (codes "d") (codes "c")
    ≡ Exit.exited (codes "a.c, line 7: main's precondition \"d\" (c) violated\n")
unfolding require unless_exits precondition
require_message = refl

ensure_message :
    ensure {A = ℕ} site (codes "p") none
    ≡ Exit.exited (codes "a.c, line 7: main's precondition \"not null\" (p) violated\n")
unfolding ensure precondition
ensure_message = refl

xassert_passes : xassert site true (codes "d") (codes "c") ≡ Exit.passed tt
unfolding xassert unless_exits
xassert_passes = refl

panic_if_message : panic_if true (codes "m") ≡ Exit.exited (codes "m\n")
unfolding panic_if unless_exits
panic_if_message = refl

xmalloc_message :
    xmalloc site (λ n. none) 4 ≡ Exit.exited (codes "a.c:7, main: Cannot allocate memory.\n")
unfolding xmalloc given panic_text
xmalloc_message = refl

abbrev realloc : Option (List ℕ) → ℕ → Option (List ℕ)
realloc ptr n = some (replicate n 0)

xrealloc-Reallocated_example : Reallocated site realloc none 3 2 (xrealloc site realloc none 3 2)
xrealloc-Reallocated_example = xrealloc-Reallocated site realloc none 3 2

log_line : length (tyto_log LogKind.note (codes "m")) ≡ 19
unfolding tyto_log level_color level_name
log_line = refl
