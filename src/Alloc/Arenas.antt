-- ===== src/Alloc/Arenas.antt =====
-- What `arena_t_alloc` of src/ty_alloc.c does where the current block has no room.
use tyto_h.Base.{ℕ, zero, suc, ◌+◌, ◌%◌, ◌^◌, ◌<◌, ◌≡◌, refl, Bool, false, Option, some}
use tyto_h.Base.{List, [], ◌∷◌, arith, lt→ltb, ==_refl, ne→==, length, get_elem?, set}
use tyto_h.Base.{done}
use tyto_h.Alloc.{Memory, Block, Arena, arena_t_alloc, arena_at, arena_take}
use tyto_h.Alloc.{block_bytes_left, header}
use tyto_h.Alloc.{no_blocks, store, alignment_loss, max_alignment}
use tyto_h.Alloc.Regions.{loss-mod}
use mathlib.Core.Option.{none-ne-some}

some_blocks : (bs : List Block) (i : ℕ) (b : Block) → get_elem? bs i ≡ some b → no_blocks bs ≡ false
some_blocks [] i b e = absurd (none-ne-some b e)
some_blocks (c ∷ bs) i b e = refl

get_elem?-bound : (bs : List Block) (i : ℕ) (b : Block) → get_elem? bs i ≡ some b → i < length bs
get_elem?-bound [] i b e = absurd (none-ne-some b e)
get_elem?-bound (c ∷ bs) zero b e = omega arith
get_elem?-bound (c ∷ bs) (suc i) b e = omega (arith, get_elem?-bound bs i b e)

-- A buffer of `size` bytes that is taken from the block `c` at place `i`: where it lies, with
-- its size in front, and the arena that is left.
pub record TakenAt (a : Arena) (size i : ℕ) (c : Block) (s : Memory × Arena × ℕ) : Type 0 where
  pub loss : ℕ
  pub least : loss < max_alignment
  pub aligned : (c.size + loss) % max_alignment ≡ 0
  pub place : s.2 ≡ c.data_at + c.size + loss + header
  pub stored : s.0 (c.data_at + c.size + loss) ≡ size
  pub current : s.1.current_block ≡ some i
  pub blocks :
      s.1.blocks ≡ set a.blocks i (record c { size = (c.size + (size + header) + loss) % 2 ^ 64 })

-- arena_t_alloc of between 1 and 2^63 - 1 bytes, where the current block has too little room,
-- another block follows, and the request with its header does not fit behind what is in use
-- there, makes that block the current one and still takes the buffer from it: the buffer lies
-- behind the bytes in use, the header and what is lost to alignment, with its size stored in
-- front, these bytes count as used, no other block changes, and the buffer ends behind the
-- last byte of the block.
pub arena_t_alloc-overrun :
    (block_ok : Bool) (alloc : ℕ → Option ℕ) (mem : Memory) (a : Arena) (size i : ℕ) (b c : Block)
    → 0 < size
    → size < 2 ^ 63
    → a.current_block ≡ some i
    → get_elem? a.blocks i ≡ some b
    → block_bytes_left b < size + header
    → get_elem? a.blocks (i + 1) ≡ some c
    → c.capacity < c.size + size + header
    → (s : Memory × Arena × ℕ) × ((arena_t_alloc block_ok alloc mem a size ≡ done s)
        × (TakenAt a size (i + 1) c s × (c.data_at + c.capacity < s.2 + size)))
unfolding arena_t_alloc arena_at arena_take store max_alignment
arena_t_alloc-overrun block_ok alloc mem a size i b c some_size lim cur here few next small =
    let asked : (size + 8) % 2 ^ 64 ≡ size + 8 = omega arith in
    let inc = alignment_loss c.size max_alignment in
    rw
      (
        ne→== size 0 (λ e. absurd (omega arith)),
        asked,
        some_blocks a.blocks i b here,
        cur,
        here,
        lt→ltb (block_bytes_left b) (size + 8) few,
        lt→ltb (i + 1) (length a.blocks) (get_elem?-bound a.blocks (i + 1) c next),
        next,
      )
      (
        _,
        (
          refl,
          (
            record {
              loss = inc;
              least = (loss-mod c.size).0;
              aligned = (loss-mod c.size).1;
              place = refl;
              stored = rw (==_refl (c.data_at + c.size + inc)) refl;
              current = refl;
              blocks = refl;
            },
            omega arith,
          ),
        ),
      )
