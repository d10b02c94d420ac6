-- ===== src/Bitpool.antt =====
-- The bit pool of includes/ty_bitpool.h: one bit for each slot in words of 64 bits, and one
-- bit for each word that says whether it is full.
-- `ctz64` is the loop of the fallback: on 0 it does not end, and the compiler's builtin that
-- stands in its place elsewhere is undefined there. A failing `assert` is a fault.
mod Bits
mod Invariant
mod Find
mod Change
mod Allocate
mod Tests
use tyto_h.Base.{ℕ, zero, suc, ◌+◌, ◌-◌, ◌*◌, ◌/◌, ◌%◌, ◌^◌, bit_and, bit_or, Bool, not}
use tyto_h.Base.{Option, none, some, List, [], ◌∷◌, ◌>>=◌, ◌==◌, if◌then◌else◌, ltb, leb}
use tyto_h.Base.{Outcome, need, get_elem?, set, done, fault, out_of_fuel}

pub record Pool : Type 0 where
  pub l1 : List ℕ
  pub l0 : List ℕ

unfoldable pub l0_count : ℕ → ℕ
l0_count n = n / 64

unfoldable pub l1_count : ℕ → ℕ
l1_count n = (n + 4095) / 4096

-- `~x` on a word of 64 bits.
abbrev pub flip : ℕ → ℕ
flip x = 2 ^ 64 - 1 - x

-- `while ((x & 1) == 0)`, with a bound on its rounds.
unfoldable pub ctz_loop : ℕ → (x n : ℕ) → Outcome ℕ
ctz_loop zero x n = out_of_fuel
ctz_loop (suc fuel) x n =
    let rest = ctz_loop fuel (x / 2) (n + 1) in if bit_and x 1 == 0 then rest else done n

unfoldable pub ctz64 : ℕ → ℕ → Outcome ℕ
ctz64 fuel x = ctz_loop fuel x 0

-- The loop over the words of `l1` from word `i` on: the index of a word of `l0`.
unfoldable pub scan_l1 : ℕ → List ℕ → (i : ℕ) → Outcome (Option ℕ)
scan_l1 fuel [] i = done none
scan_l1 fuel (used ∷ rest) i =
    let next = scan_l1 fuel rest (i + 1) in
    ctz64 fuel (flip used)
    >>= (λ slot. if not (slot == 64) then done (some (64 * i + slot)) else next)

-- The part of `BIT_POOL_FIND_0` behind the choice of a word of `l0`; none is not `out_ok`.
unfoldable pub find_in : ℕ → ℕ → Pool → Option ℕ → Outcome (Option ℕ)
find_in fuel n bp none = done none
find_in fuel n bp (some l0_index) =
    let found =
      need (get_elem? bp.l0 l0_index)
      >>= (λ w. ctz64 fuel (flip w))
      >>= (λ slot. if not (slot == 64) then done (some (l0_index * 64 + slot)) else done none) in
    if leb (l0_count n) l0_index then done none else found

unfoldable pub find_0 : ℕ → ℕ → Pool → Outcome (Option ℕ)
find_0 fuel n bp =
    let scanned = scan_l1 fuel bp.l1 0 in
    (if ltb 64 n then scanned else done (some 0)) >>= find_in fuel n bp

-- The bit for the word in `l1` is set when the word is full.
unfoldable pub mark_full : Pool → (l0_index bucket : ℕ) → Outcome Pool
mark_full bp l0_index bucket =
    let marked = need (get_elem? bp.l1 (l0_index / 64)) >>= (λ w.
      done (record bp { l1 = set bp.l1 (l0_index / 64) (bit_or w (2 ^ (l0_index % 64))) })) in
    if bucket == 2 ^ 64 - 1 then marked else done bp

unfoldable pub set_1 : ℕ → Pool → ℕ → Outcome Pool
set_1 n bp index =
    let stored = need (get_elem? bp.l0 (index / 64)) >>= (λ w.
      let bucket = bit_or w (2 ^ (index % 64)) in
      mark_full bp (index / 64) bucket
      >>= (λ bp'. done (record bp' { l0 = set bp'.l0 (index / 64) bucket }))) in
    if ltb index n then stored else fault

unfoldable pub set_0 : ℕ → Pool → ℕ → Outcome Pool
set_0 n bp index =
    let cleared = need (get_elem? bp.l1 (index / 64 / 64)) >>= (λ w1.
      need (get_elem? bp.l0 (index / 64)) >>= (λ w0. done (record {
        l1 = set bp.l1 (index / 64 / 64) (bit_and w1 (flip (2 ^ (index / 64 % 64))));
        l0 = set bp.l0 (index / 64) (bit_and w0 (flip (2 ^ (index % 64))));
      }))) in
    if ltb index n then cleared else fault

unfoldable pub check_1 : Pool → ℕ → Outcome Bool
check_1 bp index =
    need (get_elem? bp.l0 (index / 64)) >>= (λ w. done (not (bit_and w (2 ^ (index % 64)) == 0)))

-- The pool and the index that is found; none is not `out_ok`.
unfoldable pub alloc_found : ℕ → Pool → Option ℕ → Outcome (Pool × Option ℕ)
alloc_found n bp none = done (bp, none)
alloc_found n bp (some index) = set_1 n bp index >>= (λ bp'. done (bp', some index))

unfoldable pub alloc : ℕ → ℕ → Pool → Outcome (Pool × Option ℕ)
alloc fuel n bp = find_0 fuel n bp >>= alloc_found n bp
