-- ===== src/Bignum/Value.antt =====
-- What a number stands for, and the invariant of its representation.
pub mod Split
use tyto_h.Base.{ℕ, zero, suc, ◌+◌, ◌*◌, ◌^◌, ◌<◌, ◌≡◌, refl, ap, arith}
use tyto_h.Base.{List, [], ◌∷◌, length, replicate, get_or}
use native.Mathlib.Nat.{pow-suc}
use tyto_h.Bignum.{Bn, array_size, init}

abbrev pub base : ℕ
base = 2 ^ 32

-- The natural number that a list of words stands for.
unfoldable pub val : List ℕ → ℕ
val [] = 0
val (x ∷ xs) = x + base * val xs

-- Every word is a `uint32_t`.
abbrev pub IsWords : List ℕ → Type 0
IsWords [] = Unit {0}
IsWords (x ∷ xs) = (x < base) × IsWords xs

-- A `struct ty_bn`: 32 such words.
pub record IsBn (a : Bn) : Type 0 where
  pub size : length a ≡ array_size
  pub words : IsWords a

-- 2 to the number of bits.
abbrev pub modulus : ℕ
modulus = 2 ^ 1024

pub val-lt : (xs : List ℕ) → IsWords xs → val xs < base ^ length xs
unfolding val
val-lt [] h = omega arith
val-lt (x ∷ xs) h = omega (arith, val-lt xs h.1, pow-suc base (length xs))

pub val-lt-modulus : {a : Bn} → IsBn a → val a < modulus
val-lt-modulus {a} v = omega (arith, val-lt a v.words, ap (λ (n : ℕ). base ^ n) v.size)

pub val-replicate : (n : ℕ) → val (replicate n 0) ≡ 0
unfolding val
val-replicate zero = refl
val-replicate (suc n) = omega (arith, val-replicate n)

pub replicate-IsWords : (n : ℕ) → IsWords (replicate n 0)
replicate-IsWords zero = tt
replicate-IsWords (suc n) = (omega arith, replicate-IsWords n)

pub init-IsBn : IsBn init
unfolding init
init-IsBn = record { size = refl; words = replicate-IsWords 32 }

pub val-init : val init ≡ 0
unfolding init
val-init = val-replicate 32

-- Two numbers of one length with one value are the same words.
pub val_injective :
    (xs ys : List ℕ) → length xs ≡ length ys → IsWords xs → IsWords ys → val xs ≡ val ys → xs ≡ ys
unfolding val
val_injective [] [] e h h' p = refl
val_injective [] (y ∷ ys) e h h' p = absurd (omega arith)
val_injective (x ∷ xs) [] e h h' p = absurd (omega arith)
val_injective (x ∷ xs) (y ∷ ys) e h h' p =
    let rest = val_injective xs ys (omega arith) h.1 h'.1 (omega arith) in
    let first : x ≡ y = omega arith in rw (rest, first)

pub get_or-lt : (xs : List ℕ) (i : ℕ) → IsWords xs → get_or xs i 0 < base
get_or-lt [] i h = omega arith
get_or-lt (x ∷ xs) zero h = h.0
get_or-lt (x ∷ xs) (suc i) h = get_or-lt xs i h.1
