-- ===== src/Alloc.antt =====
-- The allocators of src/ty_alloc.c and includes/ty_alloc.h: region, arena and vector.
-- Addresses are numbers, 0 the null pointer, and sizes are of 64 bits. The memory holds the
-- `size_t` that the allocators store in front of each buffer; what users store in their
-- buffers is modelled for the vector alone. The backing allocator is a parameter: what it
-- answers.
mod Regions
mod Arenas
mod Remap
mod Grow
mod Vectors
mod Tests
use tyto_h.Base.{ℕ, zero, suc, ◌+◌, ◌-◌, ◌*◌, ◌%◌, ◌^◌, bit_and, Bool, true, false, ◌&&◌}
use tyto_h.Base.{Option, none, some, List, [], ◌∷◌, ◌++◌, map, ◌>>=◌, ◌==◌, if◌then◌else◌}
use tyto_h.Base.{ltb, leb, Outcome, need, length, get_elem?, set, done, out_of_fuel}

abbrev pub Memory : Type 0
Memory = ℕ → ℕ

unfoldable pub store : Memory → ℕ → ℕ → Memory
store mem a v p = if p == a then v else mem p

unfoldable pub max_alignment : ℕ
max_alignment = 16

abbrev pub header : ℕ
header = 8

-- Subtraction of `size_t`.
abbrev pub minus : ℕ → ℕ → ℕ
minus a b = (a + (2 ^ 64 - b)) % 2 ^ 64

unfoldable pub alignment_loss : ℕ → ℕ → ℕ
alignment_loss bytes_allocated alignment =
    let offset = bit_and bytes_allocated (alignment - 1) in
    if offset == 0 then 0 else alignment - offset

pub record Region : Type 0 where
  pub size : ℕ
  pub capacity : ℕ
  pub data_at : ℕ

unfoldable pub region_init : ℕ → ℕ → Region
region_init buf len = record { size = 0; capacity = len; data_at = buf }

unfoldable pub region_is_owned : Region → ℕ → Bool
region_is_owned r buf = leb r.data_at buf && ltb buf (r.data_at + r.capacity)

unfoldable pub region_buffer_size : Memory → ℕ → ℕ
region_buffer_size mem buf = mem (buf - header)

unfoldable pub is_last_allocated : Memory → Region → ℕ → Bool
is_last_allocated mem r buf = minus (r.data_at + r.size) (region_buffer_size mem buf) == buf

-- What `region_alloc` does once the request is known to fit: `at` is the buffer's header.
unfoldable pub region_take : Memory → Region → (size at used : ℕ) → Memory × Region × ℕ
region_take mem r size at used = (
  store mem at size,
  record { size = (r.size + used) % 2 ^ 64; capacity = r.capacity; data_at = r.data_at },
  at + header,
)

unfoldable pub region_alloc : Memory → Region → ℕ → Memory × Region × ℕ
region_alloc mem r size =
    let requested_size = (size + header) % 2 ^ 64 in
    let inc = alignment_loss r.size max_alignment in
    if size == 0
    then (mem, r, 0)
    else if ltb (minus r.capacity r.size) ((requested_size + inc) % 2 ^ 64)
    then (mem, r, 0)
    else region_take mem r size (r.data_at + r.size + inc) (requested_size + inc)

unfoldable pub region_t_free : Memory → Region → ℕ → Region
region_t_free mem r buf =
    if is_last_allocated mem r buf
    then record {
      size = minus r.size ((region_buffer_size mem buf + header) % 2 ^ 64);
      capacity = r.capacity;
      data_at = r.data_at;
    }
    else r

pub record Block : Type 0 where
  pub size : ℕ
  pub capacity : ℕ
  pub data_at : ℕ

-- The blocks in the order of their links, the last one last; the current block by its
-- place, or none where the pointer is null.
pub record Arena : Type 0 where
  pub first_block_size : ℕ
  pub blocks : List Block
  pub current_block : Option ℕ

unfoldable pub arena_init : ℕ → Arena
arena_init block_size = record { first_block_size = block_size; blocks = []; current_block = none }

unfoldable pub block_bytes_left : Block → ℕ
block_bytes_left b = minus b.capacity (b.size + alignment_loss b.size max_alignment)

-- `while (size < needed) size *= 2`.
unfoldable pub double_loop : ℕ → (size needed : ℕ) → Outcome ℕ
double_loop zero size needed = out_of_fuel
double_loop (suc fuel) size needed =
    let rest = double_loop fuel (size * 2 % 2 ^ 64) needed in
    if ltb size needed then rest else done size

unfoldable pub last_capacity : ℕ → List Block → ℕ
last_capacity first [] = first
last_capacity first (b ∷ bs) = last_capacity b.capacity bs

abbrev at_least_one : ℕ → ℕ
at_least_one n = if ltb n 1 then 1 else n

abbrev at_most_32_bits : ℕ → ℕ
at_most_32_bits n = if ltb 0xffff_ffff n then 0xffff_ffff else n

unfoldable pub append_block : Arena → ℕ → Option ℕ → Arena × Bool
append_block a capacity none = (a, false)
append_block a capacity (some p) = (
  record {
    first_block_size = a.first_block_size;
    blocks = a.blocks ++ record { size = 0; capacity = capacity; data_at = p } ∷ [];
    current_block = some (length a.blocks);
  },
  true,
)

-- `block_ok` says whether the backing allocator has room for the block's own record.
unfoldable pub block_alloc :
    (block_ok : Bool) → (alloc : ℕ → Option ℕ) → Arena → ℕ → Outcome (Arena × Bool)
block_alloc block_ok alloc a requested_size =
    double_loop 65 (at_least_one (last_capacity a.first_block_size a.blocks)) requested_size
    >>= (λ n. done (
        if block_ok
        then append_block a (at_most_32_bits n) (alloc (at_most_32_bits n))
        else (a, false)))

abbrev pub with_current : Option ℕ → Arena → Arena
with_current c a = record {
  first_block_size = a.first_block_size;
  blocks = a.blocks;
  current_block = c;
}

-- The end of `arena_t_alloc`: a buffer of the block at place `i`, whatever room it has.
unfoldable pub arena_take :
    Memory → Arena → (size requested_size i : ℕ) → Outcome (Memory × Arena × ℕ)
arena_take mem a size requested_size i = need (get_elem? a.blocks i) >>= (λ b.
    let inc = alignment_loss b.size max_alignment in
    let used : Block = record {
      size = (b.size + requested_size + inc) % 2 ^ 64;
      capacity = b.capacity;
      data_at = b.data_at;
    } in
    let buf = b.data_at + b.size + inc in
    done (
      store mem buf size,
      record {
        first_block_size = a.first_block_size;
        blocks = set a.blocks i used;
        current_block = a.current_block;
      },
      buf + header,
    ))

-- A new block and a buffer in it, or the null pointer, with the arena as it then is.
unfoldable pub take_new :
    (block_ok : Bool)
    → (alloc : ℕ → Option ℕ) → Memory
    → Arena
    → (size requested_size : ℕ) → Outcome (Memory × Arena × ℕ)
take_new block_ok alloc mem a size requested_size =
    block_alloc block_ok alloc a requested_size >>= (λ r.
      if r.1
      then need r.0.current_block >>= arena_take mem r.0 size requested_size
      else done (mem, r.0, 0))

-- The current block is `i`; the loop of the source runs its body once at most.
unfoldable pub arena_at :
    (block_ok : Bool)
    → (alloc : ℕ → Option ℕ) → Memory
    → Arena
    → (size requested_size i : ℕ) → Outcome (Memory × Arena × ℕ)
arena_at block_ok alloc mem a size requested_size i = need (get_elem? a.blocks i) >>= (λ b.
    if ltb (block_bytes_left b) requested_size
    then if ltb (i + 1) (length a.blocks)
      then arena_take mem (with_current (some (i + 1)) a) size requested_size (i + 1)
      else take_new block_ok alloc mem (with_current none a) size requested_size
    else arena_take mem a size requested_size i)

abbrev pub no_blocks : List Block → Bool
no_blocks [] = true
no_blocks (b ∷ bs) = false

unfoldable pub arena_t_alloc :
    (block_ok : Bool) → (alloc : ℕ → Option ℕ) → Memory → Arena → ℕ → Outcome (Memory × Arena × ℕ)
arena_t_alloc block_ok alloc mem a size =
    let requested_size = (size + header) % 2 ^ 64 in
    if size == 0
    then done (mem, a, 0)
    else if no_blocks a.blocks
    then block_alloc block_ok alloc a requested_size >>= (λ r.
      if r.1
      then need r.0.current_block >>= arena_at block_ok alloc mem r.0 size requested_size
      else done (mem, r.0, 0))
    else need a.current_block >>= arena_at block_ok alloc mem a size requested_size

unfoldable pub arena_is_last : Memory → Block → ℕ → Bool
arena_is_last mem b buf = minus (b.data_at + b.size) (region_buffer_size mem buf) == buf

unfoldable pub arena_free : Memory → Arena → ℕ → Outcome Arena
arena_free mem a buf = need a.current_block >>= (λ i. need (get_elem? a.blocks i) >>= (λ b.
    let less : Block = record {
      size = minus b.size ((region_buffer_size mem buf + header) % 2 ^ 64);
      capacity = b.capacity;
      data_at = b.data_at;
    } in
    done (
      if arena_is_last mem b buf
      then record {
        first_block_size = a.first_block_size;
        blocks = set a.blocks i less;
        current_block = a.current_block;
      }
      else a)))

abbrev emptied : Block → Block
emptied b = record { size = 0; capacity = b.capacity; data_at = b.data_at }

abbrev first_place : List Block → Option ℕ
first_place [] = none
first_place (b ∷ bs) = some 0

unfoldable pub arena_reset : Arena → Arena
arena_reset a = record {
  first_block_size = a.first_block_size;
  blocks = map emptied a.blocks;
  current_block = first_place a.blocks;
}

-- The arena, and the buffers that are given back, in order.
unfoldable pub arena_deinit : Arena → Arena × List ℕ
arena_deinit a = (arena_init a.first_block_size, map (λ b. b.data_at) a.blocks)
