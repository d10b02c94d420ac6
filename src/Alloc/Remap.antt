-- ===== src/Alloc/Remap.antt =====
-- The calls of src/ty_alloc.c that move buffers: `region_remap` and the annex,
-- a region with an allocator to fall back on. A call of `memcpy` is its destination, source and
-- size; the fallback is a parameter, what it answers, with 0 for the null pointer.
use tyto_h.Base.{ℕ, ◌+◌, ◌%◌, ◌^◌, Bool, ◌&&◌, ◌||◌, Option, List, [], ◌∷◌, ◌>>=◌, ◌==◌}
use tyto_h.Base.{if◌then◌else◌, leb, Outcome, need, get_elem?, done}
use tyto_h.Alloc.{
  Memory, Region, Arena, minus, region_init, region_is_owned, region_buffer_size, is_last_allocated,
}
use tyto_h.Alloc.{region_alloc, Block, arena_t_alloc, arena_free, arena_is_last, no_blocks}

pub record Copy : Type 0 where
  pub destination : ℕ
  pub source : ℕ
  pub count : ℕ

-- The memory, the region, the buffer that is returned, and the calls of `memcpy`.
unfoldable pub copied : (buf old_size : ℕ) → Memory × Region × ℕ → Memory × Region × ℕ × List Copy
copied buf old_size (mem, r, new_array) = (
  mem,
  r,
  new_array,
  (if new_array == 0
      then []
      else record { destination = new_array; source = buf; count = old_size } ∷ []),
)

unfoldable pub uncopied : Memory × Region × ℕ → Memory × Region × ℕ × List Copy
uncopied (mem, r, new_array) = (mem, r, new_array, [])

-- `region_free` is declared in includes/ty_alloc.h and defined nowhere: it is a parameter.
abbrev pub RegionFree : Type 0
RegionFree = Memory → Region → ℕ → Region

-- `bytes_left` is an `uint32_t`.
unfoldable pub region_remap :
    (region_free : RegionFree)
    → Memory
    → Region
    → (buf new_size : ℕ) → Memory × Region × ℕ × List Copy
region_remap region_free mem r buf new_size =
    let old_size = region_buffer_size mem buf in
    let bytes_left = (minus r.capacity r.size + old_size) % 2 ^ 32 in
    if buf == 0
    then uncopied (region_alloc mem r new_size)
    else if leb new_size old_size
    then (mem, r, buf, [])
    else if is_last_allocated mem r buf && leb new_size bytes_left
    then uncopied (region_alloc mem (region_free mem r buf) new_size)
    else copied buf old_size (region_alloc mem r new_size)

-- The region is all that an annex keeps.
unfoldable pub annex_init : (buf len : ℕ) → Region
annex_init buf len = region_init buf len

unfoldable pub or_fallback :
    (fallback_alloc : ℕ → ℕ) → (size : ℕ) → Memory × Region × ℕ → Memory × Region × ℕ
or_fallback fallback_alloc size (mem, r, buf) =
    (mem, r, (if buf == 0 then fallback_alloc size else buf))

unfoldable pub annex_alloc :
    (fallback_alloc : ℕ → ℕ) → Memory → Region → (size : ℕ) → Memory × Region × ℕ
annex_alloc fallback_alloc mem r size = or_fallback fallback_alloc size (region_alloc mem r size)

-- The part of `annex_remap` behind the region's answer.
unfoldable pub moved_out :
    (fallback_alloc : ℕ → ℕ)
    → (buf new_size : ℕ) → Memory × Region × ℕ × List Copy
    → Memory × Region × ℕ × List Copy
moved_out fallback_alloc buf new_size (mem, r, new_buffer, copies) =
    if new_buffer == 0
    then copied buf (region_buffer_size mem buf) (mem, r, fallback_alloc new_size)
    else (mem, r, new_buffer, copies)

unfoldable pub annex_remap_owned :
    (region_free : RegionFree)
    → (fallback_alloc : ℕ → ℕ) → (fallback_remap : ℕ → ℕ → ℕ) → Memory
    → Region
    → (buf new_size : ℕ) → Memory × Region × ℕ × List Copy
annex_remap_owned region_free fallback_alloc fallback_remap mem r buf new_size =
    if region_is_owned r buf
    then moved_out fallback_alloc buf new_size (region_remap region_free mem r buf new_size)
    else (mem, r, fallback_remap buf new_size, [])

-- For the null pointer the source calls `annex_alloc`, and goes on without its result.
unfoldable pub annex_remap :
    (region_free : RegionFree)
    → (fallback_alloc : ℕ → ℕ) → (fallback_remap : ℕ → ℕ → ℕ) → Memory
    → Region
    → (buf new_size : ℕ) → Memory × Region × ℕ × List Copy
annex_remap region_free fallback_alloc fallback_remap mem r buf new_size =
    let s = if buf == 0 then annex_alloc fallback_alloc mem r new_size else (mem, r, 0) in
    annex_remap_owned region_free fallback_alloc fallback_remap s.0 s.1 buf new_size

-- The region, and the buffers that the fallback is given back.
unfoldable pub annex_free :
    (region_free : RegionFree) → Memory → Region → (buf : ℕ) → Region × List ℕ
annex_free region_free mem r buf =
    if region_is_owned r buf then (region_free mem r buf, []) else (r, buf ∷ [])

unfoldable pub arena_copied :
    (buf old_size : ℕ) → Memory × Arena × ℕ → Memory × Arena × ℕ × List Copy
arena_copied buf old_size (mem, a, new_array) = (
  mem,
  a,
  new_array,
  (if new_array == 0
      then []
      else record { destination = new_array; source = buf; count = old_size } ∷ []),
)

unfoldable pub arena_uncopied : Memory × Arena × ℕ → Memory × Arena × ℕ × List Copy
arena_uncopied (mem, a, new_array) = (mem, a, new_array, [])

-- The part of `arena_t_remap` that looks at the current block.
unfoldable pub arena_remap_in :
    (block_ok : Bool)
    → (alloc : ℕ → Option ℕ) → Memory
    → Arena
    → (buf new_size old_size : ℕ) → Block
    → Outcome (Memory × Arena × ℕ × List Copy)
arena_remap_in block_ok alloc mem a buf new_size old_size b =
    let bytes_left = (minus b.capacity b.size + old_size) % 2 ^ 32 in
    if arena_is_last mem b buf && leb new_size bytes_left
    then arena_free mem a buf
      >>= (λ a'. arena_t_alloc block_ok alloc mem a' new_size)
      >>= (λ s. done (arena_uncopied s))
    else arena_t_alloc block_ok alloc mem a new_size >>= (λ s. done (arena_copied buf old_size s))

unfoldable pub arena_remap :
    (block_ok : Bool)
    → (alloc : ℕ → Option ℕ) → Memory
    → Arena
    → (buf new_size : ℕ) → Outcome (Memory × Arena × ℕ × List Copy)
arena_remap block_ok alloc mem a buf new_size =
    let old_size = region_buffer_size mem buf in
    if buf == 0 || no_blocks a.blocks
    then arena_t_alloc block_ok alloc mem a new_size >>= (λ s. done (arena_uncopied s))
    else if leb new_size old_size
    then done (mem, a, buf, [])
    else need a.current_block
      >>= (λ i. need (get_elem? a.blocks i))
      >>= arena_remap_in block_ok alloc mem a buf new_size old_size
