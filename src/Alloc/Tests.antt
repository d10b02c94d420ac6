-- ===== src/Alloc/Tests.antt =====
-- The allocator theorems at concrete inputs.
use tyto_h.Base.{ℕ, ◌+◌, ◌<◌, ◌≡◌, refl, ◌⊎◌, true, some, [], ◌∷◌, arith, ◌==◌}
use tyto_h.Base.{if◌then◌else◌, done}
use tyto_h.Alloc.{
  Memory, Region, Block, Arena, region_alloc, region_t_free, arena_t_alloc, block_bytes_left,
  alignment_loss, max_alignment, header,
}
use tyto_h.Alloc.{region_is_owned, region_take}
use tyto_h.Alloc.Remap.{region_remap, annex_remap, annex_alloc, annex_remap_owned, or_fallback}
use tyto_h.Alloc.Grow.{region_remap-Fresh}
use tyto_h.Alloc.Regions.{Fresh, region_alloc-Fresh}
use tyto_h.Alloc.Arenas.{TakenAt, arena_t_alloc-overrun}

abbrev blank : Memory
blank p = 0

-- A region of 64 bytes at 4096, 5 of them in use.
abbrev small : Region
small = record { size = 5; capacity = 64; data_at = 4096 }

abbrev twenty : ℕ
twenty = 20

region_alloc-Fresh_example :
    ((region_alloc blank small 20 ≡ (blank, small, 0))
      × ((twenty ≡ 0) ⊎ (64 < 5 + alignment_loss 5 max_alignment + 20 + header)))
    ⊎ ((s : Memory × Region × ℕ) × ((region_alloc blank small 20 ≡ s) × Fresh small s.1 s.0 20 s.2))
region_alloc-Fresh_example =
    region_alloc-Fresh blank small 20 (omega arith) (omega arith) (omega arith)

-- The same region with a buffer of 20 bytes behind the header at 16.
abbrev taken : Region
taken = record { size = 44; capacity = 64; data_at = 4096 }

abbrev written : Memory
written p = if p == 4112 then 20 else 0

taken-Fresh : Fresh small taken written 20 4120
taken-Fresh = record {
  behind = omega arith;
  ends = omega arith;
  inside = omega arith;
  same_room = refl;
  same_place = refl;
  stored = refl;
  aligned = omega arith;
}

region_remap-Fresh_example :
    (s : Memory × Region) × ((region_remap region_t_free written taken 4120 30
        ≡ (s.0, s.1, 4120, []))
      × Fresh small s.1 s.0 30 4120)
region_remap-Fresh_example =
    region_remap-Fresh written small taken 20 4120 30 taken-Fresh (omega arith) (omega arith)
      (omega arith) (omega arith)

-- `annex_remap` of the null pointer takes 8 bytes of the region, and gives a buffer of the
-- fallback.
remap_null_takes_both :
    (annex_remap region_t_free (λ n. 0) (λ p n. 9000) blank small 0 8).1.size ≡ 32
unfolding annex_remap annex_alloc annex_remap_owned or_fallback region_alloc region_take
    region_is_owned alignment_loss max_alignment
remap_null_takes_both = refl

remap_null_answer : (annex_remap region_t_free (λ n. 0) (λ p n. 9000) blank small 0 8).2 ≡ 9000
unfolding annex_remap annex_alloc annex_remap_owned or_fallback region_alloc region_take
    region_is_owned alignment_loss max_alignment
remap_null_answer = refl

abbrev used_up : Block
used_up = record { size = 16; capacity = 16; data_at = 4096 }

abbrev spare : Block
spare = record { size = 0; capacity = 16; data_at = 8192 }

abbrev arena : Arena
arena = record { first_block_size = 16; blocks = used_up ∷ spare ∷ []; current_block = some 0 }

used_up-few : block_bytes_left used_up < 20 + header
unfolding block_bytes_left alignment_loss max_alignment
used_up-few = omega arith

arena_t_alloc-overrun_example :
    (s : Memory × Arena × ℕ) × ((arena_t_alloc true (λ n. some 16384) blank arena 20 ≡ done s)
      × (TakenAt arena 20 1 spare s × (8192 + 16 < s.2 + 20)))
arena_t_alloc-overrun_example =
    arena_t_alloc-overrun true (λ n. some 16384) blank arena 20 0 used_up spare (omega arith)
      (omega arith) refl refl used_up-few refl (omega arith)
