-- ===== src/Bitpool/Change.antt =====
-- Setting, clearing and testing the bit of a slot in includes/ty_bitpool.h.
use tyto_h.Base.{ℕ, zero, suc, ◌-◌, ◌*◌, ◌/◌, ◌%◌, ◌^◌, ◌<◌, bit_and, bit_or, ◌≡◌, refl}
use tyto_h.Base.{ap, ◌∙◌, ◌≢◌, not, arith, ◌==◌, if◌then◌else◌, lt→ltb, ==_refl, ne→==}
use tyto_h.Base.{pow_pos, bit_and-lt, length, get_or, set, length-set}
use tyto_h.Base.{get_elem?-eq-get_or, done}
use tyto_h.Bitpool.{Pool, l0_count, l1_count, flip, set_1, set_0, check_1}
use tyto_h.Bitpool.Bits.{bit, bit_lt, bit_and-pow, bits_of_full}
use tyto_h.Bitpool.Invariant.{IsPool, slot_bit, Sets, bit-set, bit_clear}
use tyto_h.Bitpool.Invariant.{words_set, slot_bit-set, bucket-IsPool, mark_full-IsPool}

-- A pool whose slots are those of another but one.
update-Sets :
    (n : ℕ) (bp bp' : Pool) (index v : ℕ)
    → IsPool n bp'
    → ((j : ℕ) → slot_bit bp' j ≡ (if j == index then v else slot_bit bp j))
    → Sets n bp bp' index v
update-Sets n bp bp' index v p h = record {
  pool = p;
  self = h index ∙ rw (==_refl index) refl;
  others = λ j lt ne. h j ∙ rw (ne→== j index ne) refl;
}

pub set_1-Sets :
    (n : ℕ) (bp : Pool) (index : ℕ)
    → IsPool n bp
    → index / 64 < l0_count n
    → (bp' : Pool) × ((set_1 n bp index ≡ done bp') × Sets n bp bp' index 1)
unfolding set_1 l0_count
set_1-Sets n bp index p h =
    let b = index / 64 in
    let s = index % 64 in
    let inside : b < length bp.l0 = omega (arith, p.size0) in
    let w = bit_or (get_or bp.l0 b 0) (2 ^ s) in
    let m = mark_full-IsPool n bp b s p h (omega arith) in
    rw (lt→ltb index n (omega arith), get_elem?-eq-get_or bp.l0 b 0 inside, m.1.0)
      (
        record m.0 { l0 = set m.0.l0 b w },
        (
          refl,
          update-Sets n bp (record m.0 { l0 = set m.0.l0 b w }) index 1 m.1.1.1
              (λ j.
                ap (λ xs. bit (get_or (set xs b w) (j / 64) 0) (j % 64)) m.1.1.0
                ∙ slot_bit-set bp.l0 index w 1 j inside (λ k lt. bit-set (get_or bp.l0 b 0) s k)),
        ),
      )

-- A word with a bit that is cleared is not full.
not_full : (w s : ℕ) → s < 64 → bit w s ≡ 0 → w ≢ 2 ^ 64 - 1
not_full w s h z e = absurd (omega (arith, bits_of_full w s e h))

pub set_0-Sets :
    (n : ℕ) (bp : Pool) (index : ℕ)
    → IsPool n bp
    → index / 64 < l0_count n
    → (bp' : Pool) × ((set_0 n bp index ≡ done bp') × Sets n bp bp' index 0)
unfolding set_0 l0_count l1_count
set_0-Sets n bp index p h =
    let b = index / 64 in
    let s = index % 64 in
    let inside : b < length bp.l0 = omega (arith, p.size0) in
    let inside1 : b / 64 < length bp.l1 = omega (arith, p.size1) in
    let w0 = get_or bp.l0 b 0 in
    let w1 = get_or bp.l1 (b / 64) 0 in
    let w = bit_and w0 (flip (2 ^ s)) in
    let v = bit_and w1 (flip (2 ^ (b % 64))) in
    let clear : bit w s ≡ 0 = bit_clear w0 s s (omega arith) (omega arith) ∙ rw (==_refl s) refl in
    rw
      (
        lt→ltb index n (omega arith),
        get_elem?-eq-get_or bp.l1 (b / 64) 0 inside1,
        get_elem?-eq-get_or bp.l0 b 0 inside,
      )
      (
        record { l1 = set bp.l1 (b / 64) v; l0 = set bp.l0 b w },
        (
          refl,
          update-Sets n bp (record { l1 = set bp.l1 (b / 64) v; l0 = set bp.l0 b w }) index 0
              (bucket-IsPool n bp (set bp.l1 (b / 64) v) b w 0 p h
                (bit_and-lt 64 w0 (flip (2 ^ s)) (p.words0 b) (omega arith))
                (length-set bp.l1 (b / 64) v ∙ p.size1)
                (words_set bp.l1 (b / 64) v
                  (bit_and-lt 64 w1 (flip (2 ^ (b % 64))) (p.words1 (b / 64)) (omega arith))
                  p.words1)
                (λ i.
                  slot_bit-set bp.l1 b v 0 i inside1
                    (λ k lt. bit_clear w1 (b % 64) k (omega arith) lt))
                ((λ e. absurd (omega arith)), (λ e. absurd (not_full w s (omega arith) clear e))))
              (λ j.
                slot_bit-set bp.l0 index w 0 j inside (λ k lt. bit_clear w0 s k (omega arith) lt)),
        ),
      )

-- `BIT_POOL_CHECK_1` tells the bit of a slot.
pub check_1-slot_bit :
    (n : ℕ) (bp : Pool) (index : ℕ)
    → IsPool n bp
    → index / 64 < l0_count n
    → check_1 bp index ≡ done (slot_bit bp index == 1)
unfolding check_1
check_1-slot_bit n bp index p h =
    let w = get_or bp.l0 (index / 64) 0 in
    let s = index % 64 in
    rw (get_elem?-eq-get_or bp.l0 (index / 64) 0 (omega (arith, p.size0)), bit_and-pow w s)
      (ap done (tells (bit w s) (2 ^ s) (bit_lt w s) (pow_pos 2 s (omega arith))))
  where
    tells : (t q : ℕ) → t < 2 → 0 < q → not (t * q == 0) ≡ (t == 1)
    tells zero q lt some_q = ground arith
    tells (suc zero) q lt some_q = ground arith
    tells (suc (suc t)) q lt some_q = absurd (omega arith)
