-- ===== src/Exits.antt =====
-- The assertions of includes/ty_assert.h and the allocation wrappers of includes/ty_alloc.h,
-- which write to the standard error and exit the process. `malloc`, `calloc` and `realloc` are
-- parameters: what they answer, `none` for the null pointer.
mod Wrappers
pub mod Log
mod Tests
use tyto_h.Base.{ℕ, ◌*◌, ◌/◌, ◌%◌, ◌^◌, Bool, not, Option, none, some, List, ◌++◌, ◌==◌}
use tyto_h.Base.{if◌then◌else◌, ltb, codes, Outcome, done, fault}

-- A statement that is passed, or the text that is written before the process exits.
pub data Exit {ℓ} (A : Type ℓ) : Type ℓ where
  passed : A → Exit A
  exited : List ℕ → Exit A

-- `__FILE__`, `__LINE__` as "%d" prints it, and `__func__`.
pub record Site : Type 0 where
  pub file : List ℕ
  pub line : List ℕ
  pub func : List ℕ

-- The function returns, or the process exits with this text.
unfoldable pub unless_exits {ℓ} : {A : Type ℓ} → Bool → List ℕ → A → Exit A
unless_exits ok text a = if ok then Exit.passed a else Exit.exited text

unfoldable pub precondition : Site → (description condition : List ℕ) → List ℕ
precondition site description condition =
    site.file
    ++ codes ", line "
    ++ site.line
    ++ codes ": "
    ++ site.func
    ++ codes "'s precondition \""
    ++ description
    ++ codes "\" ("
    ++ condition
    ++ codes ") violated\n"

unfoldable pub ensure {ℓ} : {A : Type ℓ} → Site → (ptr : List ℕ) → Option A → Exit A
ensure site ptr none = Exit.exited (precondition site (codes "not null") ptr)
ensure site ptr (some a) = Exit.passed a

unfoldable pub require : Site → Bool → (description condition : List ℕ) → Exit {0} Unit
require site holds description condition =
    unless_exits holds (precondition site description condition) tt

unfoldable pub xassert : Site → Bool → (description condition : List ℕ) → Exit {0} Unit
xassert site holds description condition =
    unless_exits holds
      (site.file
        ++ codes ", line "
        ++ site.line
        ++ codes ": assertion \""
        ++ description
        ++ codes "\" ("
        ++ condition
        ++ codes ") violated\n")
      tt

unfoldable pub panic_text : Site → (message : List ℕ) → List ℕ
panic_text site message =
    site.file
    ++ codes ":"
    ++ site.line
    ++ codes ", "
    ++ site.func
    ++ codes ": "
    ++ message
    ++ codes "\n"

-- `message` is the text that the format and its arguments give.
unfoldable pub panic_if : Bool → (message : List ℕ) → Exit {0} Unit
panic_if condition message = unless_exits (not condition) (message ++ codes "\n") tt

-- What an allocator gave, or a panic.
unfoldable pub given : Site → (message : List ℕ) → Option (List ℕ) → Exit (List ℕ)
given site message none = Exit.exited (panic_text site message)
given site message (some result) = Exit.passed result

unfoldable pub xmalloc : Site → (malloc : ℕ → Option (List ℕ)) → ℕ → Exit (List ℕ)
xmalloc site malloc size = given site (codes "Cannot allocate memory.") (malloc size)

unfoldable pub xcalloc :
    Site → (calloc : ℕ → ℕ → Option (List ℕ)) → (count size : ℕ) → Exit (List ℕ)
xcalloc site calloc count size = given site (codes "Cannot allocate memory.") (calloc count size)

abbrev pub size_max : ℕ
size_max = 18446744073709551615

-- A division by zero is undefined behaviour.
unfoldable pub xrealloc :
    Site
    → (realloc : Option (List ℕ) → ℕ → Option (List ℕ)) → Option (List ℕ)
    → (count size : ℕ) → Outcome (Exit (List ℕ))
xrealloc site realloc ptr count size =
    let moved =
      given site (codes "Cannot reallocate memory.") (realloc ptr (count * size % 2 ^ 64)) in
    if size == 0
    then fault
    else if ltb (size_max / size) count
    then done (Exit.exited (panic_text site (codes "Allocation overflow.")))
    else done moved
