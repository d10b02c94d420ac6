-- ===== src/Bitpool/Tests.antt =====
-- Runs of the pool of includes/ty_bitpool.h.
use tyto_h.Base.{ℕ, zero, suc, ◌-◌, ◌^◌, ◌<◌, ◌≡◌, refl, ◌↔◌, some, [], ◌∷◌, arith}
use tyto_h.Base.{get_or, done}
use tyto_h.Bitpool.{
  Pool, l0_count, l1_count, alloc, find_0, find_in, alloc_found, scan_l1, ctz64, ctz_loop, set_1,
  mark_full,
}
use tyto_h.Bitpool.Bits.{bit}
use tyto_h.Bitpool.Invariant.{IsPool, full_bit}
use tyto_h.Bitpool.Allocate.{Allocated, alloc-Allocated}

-- A pool of 128 slots, the first 64 of them taken.
abbrev half_full : Pool
half_full = record { l1 = 1 ∷ []; l0 = (2 ^ 64 - 1) ∷ 5 ∷ [] }

half_full-IsPool : IsPool 128 half_full
unfolding bit l0_count l1_count
half_full-IsPool = record {
  size0 = refl;
  size1 = refl;
  words0 = words0;
  words1 = words1;
  full = full;
}
  where
    words0 : (i : ℕ) → get_or half_full.l0 i 0 < 2 ^ 64
    words0 zero = omega arith
    words0 (suc zero) = omega arith
    words0 (suc (suc i)) = omega arith

    words1 : (i : ℕ) → get_or half_full.l1 i 0 < 2 ^ 64
    words1 zero = omega arith
    words1 (suc i) = omega arith

    full : (i : ℕ) → i < 2 → (full_bit half_full i ≡ 1) ↔ (get_or half_full.l0 i 0 ≡ 2 ^ 64 - 1)
    full zero lt = ((λ e. refl), (λ e. refl))
    full (suc zero) lt = ((λ e. absurd (omega arith)), (λ e. absurd (omega arith)))
    full (suc (suc i)) lt = absurd (omega arith)

takes_64_1 :
    alloc 64 128 half_full ≡ done (record { l1 = 1 ∷ []; l0 = (2 ^ 64 - 1) ∷ 7 ∷ [] }, some 65)
unfolding alloc find_0 find_in alloc_found scan_l1 ctz64 ctz_loop set_1 mark_full l0_count
takes_64_1 = refl

alloc-Allocated_example : Allocated 128 half_full (alloc 64 128 half_full)
alloc-Allocated_example =
    alloc-Allocated 64 128 half_full (omega arith) (omega arith) half_full-IsPool
      (λ e. absurd (omega arith))
