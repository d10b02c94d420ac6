-- ===== src/Bignum/Places/Aliases.antt =====
-- Addition, subtraction and the bitwise operations of src/ty_bignum.c when the result is
-- written over an argument, or the arguments are the same object.
use tyto_h.Base.{ℕ, zero, suc, ◌+◌, ◌<◌, bit_and, bit_or, bit_xor, ◌≡◌, refl, sym, ap}
use tyto_h.Base.{◌∙◌, ◌≢◌, inl, inr, List, [], ◌∷◌, ◌++◌, arith, ◌==◌, ==_iff, Bool-cases}
use tyto_h.Base.{==_refl, ne→==, length, get_or, set, take, length-set, take-length}
use tyto_h.Base.{get_or-set_ne}
use mathlib.Core.List.{append-nil}
use tyto_h.Bignum.{Bn, array_size}
use tyto_h.Bignum.Arith.{add, add_loop, sub, sub_loop, and, or, xor}
use tyto_h.Bignum.Places.{Objects, write, Round, words_at, add_round, sub_round}
use tyto_h.Bignum.Places.{add_at, sub_at, and_at, or_at, xor_at}

-- The words that the rounds give, from arguments that stay as they are.
unfoldable rounds : Round → List ℕ → List ℕ → (carry : ℕ) → List ℕ
rounds round (x ∷ xs) (y ∷ ys) carry = let r = round x y carry in r.0 ∷ rounds round xs ys r.1
rounds round _ _ carry = []

pub write_same : (m : Objects) (c : ℕ) (v : Bn) → write m c v c ≡ v
unfolding write
write_same m c v = rw (==_refl c) refl

pub write_other : (m : Objects) (c : ℕ) (v : Bn) (p : ℕ) → p ≢ c → write m c v p ≡ m p
unfolding write
write_other m c v p ne = rw (ne→== p c ne) refl

pub write_again :
    (m : Objects) (c : ℕ) (u v : Bn) (p : ℕ) → write (write m c u) c v p ≡ write m c v p
unfolding write
write_again m c u v p = elim (Bool-cases (p == c)) [ inl e ↦ rw e refl | inr e ↦ rw e refl ]

-- The words behind the one that was written are as before, in every object.
later_words :
    (m : Objects) (c i w p k : ℕ)
    → i ≢ k
    → get_or (write m c (set (m c) i w) p) k 0 ≡ get_or (m p) k 0
unfolding write
later_words m c i w p k ne = elim (Bool-cases (p == c)) [
  | inl e ↦
      rw e (get_or-set_ne (m c) i k w 0 ne ∙ ap (λ q. get_or (m q) k 0) (sym ((==_iff p c).0 e)))
  | inr e ↦ rw e refl
]

take-set :
    (xs : List ℕ) (i w : ℕ) (ys : List ℕ)
    → i < length xs
    → take (suc i) (set xs i w) ++ ys ≡ take i xs ++ w ∷ ys
take-set [] i w ys h = absurd (omega arith)
take-set (x ∷ xs) zero w ys h = refl
take-set (x ∷ xs) (suc i) w ys h = ap (λ t. x ∷ t) (take-set xs i w ys (omega arith))

-- The words of an object from `i` on.
unfoldable pub From : List ℕ → (i : ℕ) → List ℕ → Type 0
From whole i xs = (j : ℕ) → j < length xs → get_or whole (i + j) 0 ≡ get_or xs j 0

pub From-head :
    (whole : List ℕ) (i x : ℕ) (xs : List ℕ) → From whole i (x ∷ xs) → get_or whole i 0 ≡ x
unfolding From
From-head whole i x xs h =
    ap (λ k. get_or whole k 0) {x = i} {y = i + 0} (omega arith) ∙ h 0 (omega arith)

From-tail :
    (m : Objects) (c i w p x : ℕ) (xs : List ℕ)
    → From (m p) i (x ∷ xs)
    → From (write m c (set (m c) i w) p) (suc i) xs
unfolding From
From-tail m c i w p x xs h j lt =
    later_words m c i w p (suc i + j) (λ e. absurd (omega arith))
    ∙ ap (λ k. get_or (m p) k 0) {x = suc i + j} {y = i + suc j} (omega arith)
    ∙ h (suc j) (omega arith)

pub write_self : (m : Objects) (c p : ℕ) → write m c (m c) p ≡ m p
unfolding write
write_self m c p = elim (Bool-cases (p == c)) [
  | inl e ↦ rw e (ap m (sym ((==_iff p c).0 e)))
  | inr e ↦ rw e refl
]

all_taken : (xs : List ℕ) (i : ℕ) → length xs ≡ i → take i xs ++ [] ≡ xs
all_taken xs i e = append-nil (take i xs) ∙ ap (λ n. take n xs) (sym e) ∙ take-length xs

words_at-rounds :
    (round : Round) (a b c left i carry : ℕ) (xs ys : List ℕ) (m : Objects) (p : ℕ)
    → length xs ≡ left
    → length ys ≡ left
    → length (m c) ≡ i + left
    → From (m a) i xs
    → From (m b) i ys
    → words_at round a b c left i carry m p ≡ write m c (take i (m c) ++ rounds round xs ys carry) p
unfolding words_at rounds
words_at-rounds round a b c zero i carry [] [] m p lx ly lc fa fb =
    sym (ap (λ v. write m c v p) (all_taken (m c) i (omega (arith, lc))) ∙ write_self m c p)
words_at-rounds round a b c zero i carry (x ∷ xs) ys m p lx ly lc fa fb = absurd (omega arith)
words_at-rounds round a b c zero i carry [] (y ∷ ys) m p lx ly lc fa fb = absurd (omega arith)
words_at-rounds round a b c (suc left) i carry [] ys m p lx ly lc fa fb = absurd (omega arith)
words_at-rounds round a b c (suc left) i carry (x ∷ xs) [] m p lx ly lc fa fb = absurd (omega arith)
words_at-rounds round a b c (suc left) i carry (x ∷ xs) (y ∷ ys) m p lx ly lc fa fb =
    let r = round x y carry in
    let m' = write m c (set (m c) i r.0) in
    let written : m' c ≡ set (m c) i r.0 = write_same m c (set (m c) i r.0) in
    rw (From-head (m a) i x xs fa, From-head (m b) i y ys fb)
      (words_at-rounds round a b c left (suc i) r.1 xs ys m' p (omega arith) (omega arith)
          (omega (arith, ap length written, length-set (m c) i r.0)) (From-tail m c i r.0 a x xs fa)
          (From-tail m c i r.0 b y ys fb)
        ∙ write_again m c (set (m c) i r.0) (take (suc i) (m' c) ++ rounds round xs ys r.1) p
        ∙ ap (λ v. write m c v p)
            (ap (λ v. take (suc i) v ++ rounds round xs ys r.1) written
              ∙ take-set (m c) i r.0 (rounds round xs ys r.1) (omega (arith, lc))))

rounds-add_loop : (xs ys : List ℕ) (carry : ℕ) → rounds add_round xs ys carry ≡ add_loop xs ys carry
unfolding rounds add_round add_loop
rounds-add_loop [] ys carry = refl
rounds-add_loop (x ∷ xs) [] carry = refl
rounds-add_loop (x ∷ xs) (y ∷ ys) carry =
    ap (λ t. (add_round x y carry).0 ∷ t) (rounds-add_loop xs ys (add_round x y carry).1)

rounds-sub_loop :
    (xs ys : List ℕ) (borrow : ℕ) → rounds sub_round xs ys borrow ≡ sub_loop xs ys borrow
unfolding rounds sub_round sub_loop
rounds-sub_loop [] ys borrow = refl
rounds-sub_loop (x ∷ xs) [] borrow = refl
rounds-sub_loop (x ∷ xs) (y ∷ ys) borrow =
    ap (λ t. (sub_round x y borrow).0 ∷ t) (rounds-sub_loop xs ys (sub_round x y borrow).1)

rounds-and : (xs ys : List ℕ) → rounds (λ x y carry. (bit_and x y, 0)) xs ys 0 ≡ and xs ys
unfolding rounds and
rounds-and [] ys = refl
rounds-and (x ∷ xs) [] = refl
rounds-and (x ∷ xs) (y ∷ ys) = ap (λ t. bit_and x y ∷ t) (rounds-and xs ys)

rounds-or : (xs ys : List ℕ) → rounds (λ x y carry. (bit_or x y, 0)) xs ys 0 ≡ or xs ys
unfolding rounds or
rounds-or [] ys = refl
rounds-or (x ∷ xs) [] = refl
rounds-or (x ∷ xs) (y ∷ ys) = ap (λ t. bit_or x y ∷ t) (rounds-or xs ys)

rounds-xor : (xs ys : List ℕ) → rounds (λ x y carry. (bit_xor x y, 0)) xs ys 0 ≡ xor xs ys
unfolding rounds xor
rounds-xor [] ys = refl
rounds-xor (x ∷ xs) [] = refl
rounds-xor (x ∷ xs) (y ∷ ys) = ap (λ t. bit_xor x y ∷ t) (rounds-xor xs ys)

-- All the rounds, on three objects of 32 words.
all_rounds :
    (round : Round) (a b c : ℕ) (m : Objects) (p : ℕ)
    → length (m a) ≡ array_size
    → length (m b) ≡ array_size
    → length (m c) ≡ array_size
    → words_at round a b c array_size 0 0 m p ≡ write m c (rounds round (m a) (m b) 0) p
unfolding From
all_rounds round a b c m p la lb lc =
    words_at-rounds round a b c array_size 0 0 (m a) (m b) m p la lb (omega (arith, lc))
      (λ j lt. ap (λ k. get_or (m a) k 0) {x = 0 + j} {y = j} (omega arith))
      (λ j lt. ap (λ k. get_or (m b) k 0) {x = 0 + j} {y = j} (omega arith))

-- ty_bignum_add, ty_bignum_sub, ty_bignum_and, ty_bignum_or and ty_bignum_xor on three
-- pointers to 32 words each, whichever of them are equal: the third object becomes what the
-- operation gives for the first two as they were, and no other object changes.
pub in_place :
    (a b c : ℕ) (m : Objects)
    → length (m a) ≡ array_size
    → length (m b) ≡ array_size
    → length (m c) ≡ array_size
    → (p : ℕ)
    → (add_at a b c m p ≡ write m c (add (m a) (m b)) p)
      × ((sub_at a b c m p ≡ write m c (sub (m a) (m b)) p)
          × ((and_at a b c m p ≡ write m c (and (m a) (m b)) p)
              × ((or_at a b c m p ≡ write m c (or (m a) (m b)) p)
                  × (xor_at a b c m p ≡ write m c (xor (m a) (m b)) p))))
unfolding add_at sub_at and_at or_at xor_at add sub
in_place a b c m la lb lc p =
    let run = λ (round : Round) (v : Bn) (e : rounds round (m a) (m b) 0 ≡ v).
      all_rounds round a b c m p la lb lc ∙ ap (λ u. write m c u p) e in
    (
      run add_round (add_loop (m a) (m b) 0) (rounds-add_loop (m a) (m b) 0),
      (
        run sub_round (sub_loop (m a) (m b) 0) (rounds-sub_loop (m a) (m b) 0),
        (
          run (λ x y carry. (bit_and x y, 0)) (and (m a) (m b)) (rounds-and (m a) (m b)),
          (
            run (λ x y carry. (bit_or x y, 0)) (or (m a) (m b)) (rounds-or (m a) (m b)),
            run (λ x y carry. (bit_xor x y, 0)) (xor (m a) (m b)) (rounds-xor (m a) (m b)),
          ),
        ),
      ),
    )
