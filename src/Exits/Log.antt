-- ===== src/Exits/Log.antt =====
-- The logger of includes/ty_log.h and src/ty_log.c: what it writes to the standard error. The
-- message is the text that the format and its arguments give.
use tyto_h.Base.{ℕ, List, [], ◌∷◌, ◌++◌, codes}

pub data LogKind : Type 0 where
  debug note warning error : LogKind

unfoldable pub level_name : LogKind → List ℕ
level_name LogKind.debug = codes "debug"
level_name LogKind.note = codes "note"
level_name LogKind.warning = codes "warning"
level_name LogKind.error = codes "error"

abbrev escape : List ℕ
escape = 27 ∷ []

unfoldable pub level_color : LogKind → List ℕ
level_color LogKind.debug = escape ++ codes "[1m"
level_color LogKind.note = escape ++ codes "[1;96m"
level_color LogKind.warning = escape ++ codes "[1;95m"
level_color LogKind.error = escape ++ codes "[1;91m"

unfoldable pub tyto_log : LogKind → (message : List ℕ) → List ℕ
tyto_log kind message =
    level_color kind
    ++ level_name kind
    ++ codes ":"
    ++ escape
    ++ codes "[0m "
    ++ message
    ++ codes "\n"

unfoldable pub putsf : (func line message : List ℕ) → List ℕ
putsf func line message =
    codes "[TYTO] " ++ func ++ codes ":" ++ line ++ codes ": " ++ message ++ codes "\n"
