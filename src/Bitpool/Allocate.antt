-- ===== src/Bitpool/Allocate.antt =====
-- `BIT_POOL_ALLOC` of includes/ty_bitpool.h hands out a slot that was free.
use tyto_h.Base.{ℕ, zero, suc, ◌+◌, ◌-◌, ◌*◌, ◌/◌, ◌%◌, ◌^◌, ◌≤◌, ◌<◌, ◌≡◌, refl, sym, ap}
use tyto_h.Base.{◌∙◌, ◌≢◌, inl, inr, Option, none, some, List, [], ◌∷◌, arith, ◌>>=◌, ltb}
use tyto_h.Base.{leb, lt→ltb, Bool-cases, ne→==, Outcome, length, get_or}
use tyto_h.Base.{get_elem?-eq-get_or, done, out_of_fuel}
use tyto_h.Bitpool.{Pool, l0_count, l1_count, flip, ctz64, scan_l1, find_in, find_0}
use tyto_h.Bitpool.{alloc, alloc_found}
use tyto_h.Bitpool.Bits.{bit, bit_lt, bit-flip, bits_of_full}
use tyto_h.Bitpool.Find.{ctz_loop-Lowest, ctz64_zero}
use tyto_h.Bitpool.Invariant.{IsPool, slot_bit, Sets}
use tyto_h.Bitpool.Change.{set_1-Sets}
use native.Mathlib.Nat.{pow-le-pow_right, pow-suc}

bit_beyond : (n w k : ℕ) → w < 2 ^ n → n ≤ k → bit w k ≡ 0
unfolding bit
bit_beyond zero w zero h le = omega arith
bit_beyond zero w (suc k) h le = bit_beyond 0 (w / 2) k (omega arith) (omega arith)
bit_beyond (suc n) w zero h le = absurd (omega arith)
bit_beyond (suc n) w (suc k) h le =
    bit_beyond n (w / 2) k (omega (arith, pow-suc 2 n)) (omega arith)

-- The lowest bit that is clear in a word that is not full.
pub record Free (w k : ℕ) : Type 0 where
  pub inside : k < 64
  pub clear_at : bit w k ≡ 0
  pub set_below : (j : ℕ) → j < k → bit w j ≡ 1

ctz64-Free :
    (fuel w : ℕ)
    → 64 ≤ fuel
    → w < 2 ^ 64
    → w ≢ 2 ^ 64 - 1
    → (k : ℕ) × ((ctz64 fuel (flip w) ≡ done k) × Free w k)
unfolding ctz64
ctz64-Free fuel w enough h ne =
    let r =
      ctz_loop-Lowest fuel (flip w) 0 (λ e. ne (omega arith))
        (omega (arith, pow-le-pow_right {n = 2} (omega arith) {i = 64} {j = fuel} enough)) in
    let k = r.0 in
    let low = r.1.1.1 in
    let inside : k < 64 = below_64 w k low.set_at in
    (
      k,
      (
        r.1.0 ∙ ap done (omega arith),
        record {
          inside = inside;
          clear_at = omega (arith, bit-flip w k h inside, low.set_at, bit_lt w k);
          set_below =
              λ j lt. omega (arith, bit-flip w j h (omega arith), low.clear_below j lt, bit_lt w j);
        },
      ),
    )
  where
    below_64 : (w k : ℕ) → bit (flip w) k ≡ 1 → k < 64
    below_64 w k e = elim (Bool-cases (ltb k 64)) [
      | inl t ↦ ground arith
      | inr f ↦ absurd (omega (arith, bit_beyond 64 (flip w) k (omega arith) (ground arith)))
    ]

scan_l1-Free :
    (fuel : ℕ) (xs : List ℕ)
    → 64 ≤ fuel
    → 0 < length xs
    → get_or xs 0 0 < 2 ^ 64
    → get_or xs 0 0 ≢ 2 ^ 64 - 1
    → (k : ℕ) × ((scan_l1 fuel xs 0 ≡ done (some k)) × Free (get_or xs 0 0) k)
unfolding scan_l1
scan_l1-Free fuel [] enough some_word h ne = absurd (omega arith)
scan_l1-Free fuel (used ∷ rest) enough some_word h ne =
    let r = ctz64-Free fuel used enough h ne in
    (
      r.0,
      (
        rw (r.1.0, ne→== r.0 64 (λ e. absurd (omega (arith, r.1.1.inside))))
            (ap (λ k. done (some k)) (omega arith)),
        r.1.1,
      ),
    )

-- What an allocation gives: no slot where every slot of the words is taken, or else one that was free and
-- is taken now, all others as they were.
pub data Allocated (n : ℕ) (bp : Pool) : Outcome (Pool × Option ℕ) → Type 0 where
  exhausted : ((j : ℕ) → j / 64 < l0_count n → slot_bit bp j ≡ 1) → Allocated n bp (done (bp, none))
  allocated :
      (index : ℕ) (bp' : Pool)
      → index < n
      → slot_bit bp index ≡ 0
      → Sets n bp bp' index 1
      → Allocated n bp (done (bp', some index))

-- A word before the one that is found is full.
full_before :
    (n : ℕ) (bp : Pool) (k i : ℕ)
    → IsPool n bp
    → k < 64
    → Free (get_or bp.l1 0 0) k
    → i < k
    → i < l0_count n
    → get_or bp.l0 i 0 ≡ 2 ^ 64 - 1
full_before n bp k i p hk free lt inside =
    let q : i / 64 ≡ 0 = omega arith in
    let r : i % 64 ≡ i = omega arith in (p.full i inside).0 (rw (q, r) (free.set_below i lt))

-- The word that is found is not full.
not_full_at :
    (n : ℕ) (bp : Pool) (k : ℕ)
    → IsPool n bp
    → Free (get_or bp.l1 0 0) k
    → k < l0_count n
    → get_or bp.l0 k 0 ≢ 2 ^ 64 - 1
not_full_at n bp k p free inside e =
    let q : k / 64 ≡ 0 = omega (arith, free.inside) in
    let r : k % 64 ≡ k = omega (arith, free.inside) in
    let one : bit (get_or bp.l1 0 0) k ≡ 1 =
      sym (ap (λ i. bit (get_or bp.l1 i 0) (k % 64)) q ∙ ap (bit (get_or bp.l1 0 0)) r)
      ∙ (p.full k inside).1 e in
    absurd (omega (arith, one, free.clear_at))

-- The slot that is found in a word is set.
word-Allocated :
    (n : ℕ) (bp : Pool) (k s : ℕ)
    → IsPool n bp
    → k < l0_count n
    → Free (get_or bp.l0 k 0) s
    → Allocated n bp (alloc_found n bp (some (k * 64 + s)))
unfolding alloc_found l0_count
word-Allocated n bp k s p inside free =
    let index = k * 64 + s in
    let q : index / 64 ≡ k = omega (arith, free.inside) in
    let r : index % 64 ≡ s = omega (arith, free.inside) in
    let m = set_1-Sets n bp index p (omega (arith, free.inside)) in
    rw m.1.0 (
      Allocated.allocated index m.0 (omega (arith, free.inside))
        (ap (λ i. bit (get_or bp.l0 i 0) (index % 64)) q
          ∙ ap (bit (get_or bp.l0 k 0)) r
          ∙ free.clear_at)
        m.1.1)

found-Allocated :
    (fuel n : ℕ) (bp : Pool) (k : ℕ)
    → 64 ≤ fuel
    → IsPool n bp
    → Free (get_or bp.l1 0 0) k
    → Allocated n bp (find_in fuel n bp (some k) >>= alloc_found n bp)
unfolding find_in alloc_found l0_count
found-Allocated fuel n bp k enough p free = elim (Bool-cases (leb (n / 64) k)) [
  | inl t ↦ rw t (
      Allocated.exhausted (λ j lt.
        bits_of_full (get_or bp.l0 (j / 64) 0) (j % 64)
          (full_before n bp k (j / 64) p free.inside free (ground arith) lt) (omega arith)))
  | inr f ↦
      let lt : k < n / 64 = ground arith in
      let c =
        ctz64-Free fuel (get_or bp.l0 k 0) enough (p.words0 k) (not_full_at n bp k p free lt) in
      rw
        (
          f,
          get_elem?-eq-get_or bp.l0 k 0 (omega (arith, p.size0)),
          c.1.0,
          ne→== c.0 64 (λ e. absurd (omega (arith, c.1.1.inside))),
        )
        (word-Allocated n bp k c.0 p lt c.1.1)
]

-- `BIT_POOL_ALLOC` of a pool of more than 64 slots whose two levels agree, and whose first 64
-- words are not all full, with 64 rounds or more for the count of trailing zeros, ends: it
-- either finds every slot in a word of the pool taken, or gives the index of a slot that was
-- free, which is taken in the new pool, where every other slot is as before and the two
-- levels agree again.
pub alloc-Allocated :
    (fuel n : ℕ) (bp : Pool)
    → 64 ≤ fuel
    → 64 < n
    → IsPool n bp
    → get_or bp.l1 0 0 ≢ 2 ^ 64 - 1
    → Allocated n bp (alloc fuel n bp)
unfolding alloc find_0 l1_count
alloc-Allocated fuel n bp enough large p ne =
    let r = scan_l1-Free fuel bp.l1 enough (omega (arith, p.size1)) (p.words1 0) ne in
    rw (lt→ltb 64 n large, r.1.0) (found-Allocated fuel n bp r.0 enough p r.1.1)

scan_l1_full :
    (fuel : ℕ) (xs : List ℕ)
    → 0 < length xs
    → get_or xs 0 0 ≡ 2 ^ 64 - 1
    → scan_l1 fuel xs 0 ≡ out_of_fuel
unfolding scan_l1
scan_l1_full fuel [] h e = absurd (omega arith)
scan_l1_full fuel (used ∷ rest) h e =
    let zero_word : flip used ≡ 0 = omega (arith, e) in rw (zero_word, ctz64_zero fuel) refl

-- `BIT_POOL_ALLOC` of a pool of more than 64 slots whose two levels agree, and whose first
-- 64 words are all full, never
-- ends, whatever the number of rounds: `ctz64` is called on 0.
pub alloc_full_diverges :
    (fuel n : ℕ) (bp : Pool)
    → 64 < n
    → IsPool n bp
    → get_or bp.l1 0 0 ≡ 2 ^ 64 - 1
    → alloc fuel n bp ≡ out_of_fuel
unfolding alloc find_0 l1_count
alloc_full_diverges fuel n bp large p e =
    rw (lt→ltb 64 n large, scan_l1_full fuel bp.l1 (omega (arith, p.size1)) e) refl
