-- ===== src/Alloc/Regions.antt =====
-- The buffers that `region_alloc` of src/ty_alloc.c hands out.
use tyto_h.Base.{ℕ, ◌+◌, ◌-◌, ◌%◌, ◌^◌, ◌≤◌, ◌<◌, bit_and, ◌≡◌, refl, ap, ◌∙◌, ◌⊎◌, inl}
use tyto_h.Base.{inr, arith, ◌==◌, ltb, Bool-cases, ==_refl, bit_and_mask}
use tyto_h.Alloc.{Memory, Region, region_alloc, region_t_free, region_take, alignment_loss}
use tyto_h.Alloc.{max_alignment, header, store, is_last_allocated, region_buffer_size}

mask : (n : ℕ) → bit_and n 15 ≡ n % 16
mask n = bit_and_mask 4 n

pub loss-mod :
    (n : ℕ)
    → (alignment_loss n max_alignment < 16) × ((n + alignment_loss n max_alignment) % 16 ≡ 0)
unfolding alignment_loss max_alignment
loss-mod n = rw (mask n) (elim (Bool-cases (n % 16 == 0)) [
  | inl t ↦ rw t (omega arith, ground arith)
  | inr f ↦ rw f (ground arith, ground arith)
])

-- A buffer of `size` bytes at `p`, taken from a region that was `r` and is `r'`: behind the
-- bytes that were in use, with its header in front, up to where the bytes now in use end.
pub record Fresh (r r' : Region) (mem' : Memory) (size p : ℕ) : Type 0 where
  pub behind : r.data_at + r.size + header ≤ p
  pub ends : p + size ≡ r'.data_at + r'.size
  pub inside : r'.size ≤ r.capacity
  pub same_room : r'.capacity ≡ r.capacity
  pub same_place : r'.data_at ≡ r.data_at
  pub stored : mem' (p - header) ≡ size
  pub aligned : (p - r.data_at) % 16 ≡ 8

store_self : (mem : Memory) (a v : ℕ) → store mem a v a ≡ v
unfolding store
store_self mem a v = rw (==_refl a) refl

pub region_take-Fresh :
    (mem : Memory) (r : Region) (size inc : ℕ)
    → (r.size + inc) % 16 ≡ 0
    → r.size + inc + size + 8 ≤ r.capacity
    → r.capacity < 2 ^ 64
    → (s : Memory × Region × ℕ) × ((region_take mem r size
            (r.data_at + r.size + inc)
            (size + 8 + inc)
          ≡ s)
        × Fresh r s.1 s.0 size s.2)
unfolding region_take
region_take-Fresh mem r size inc al le lim = (
  _,
  (
    refl,
    record {
      behind = omega arith;
      ends = omega arith;
      inside = omega arith;
      same_room = refl;
      same_place = refl;
      stored =
          ap (store mem (r.data_at + r.size + inc) size) {x = r.data_at + r.size + inc + 8 - 8}
            {y = r.data_at + r.size + inc} (omega arith)
          ∙ store_self mem (r.data_at + r.size + inc) size;
      aligned = omega arith;
    },
  ),
)

-- `region_alloc` of a region whose size is within its capacity, for fewer than 2^63 bytes,
-- the capacity below 2^63 too, gives the null pointer and changes nothing, where no bytes are
-- asked for or they do not fit the capacity with their header and what is lost to alignment,
-- or it gives a buffer behind all bytes in use, within the capacity, with its size stored in
-- front. The buffer lies 8 bytes behind a multiple of 16 from the start of the region.
pub region_alloc-Fresh :
    (mem : Memory) (r : Region) (size : ℕ)
    → r.size ≤ r.capacity
    → r.capacity < 2 ^ 63
    → size < 2 ^ 63
    → ((region_alloc mem r size ≡ (mem, r, 0))
        × ((size ≡ 0)
            ⊎ (r.capacity < r.size + alignment_loss r.size max_alignment + size + header)))
      ⊎ ((s : Memory × Region × ℕ) × ((region_alloc mem r size ≡ s) × Fresh r s.1 s.0 size s.2))
unfolding region_alloc
region_alloc-Fresh mem r size le cap lim =
    let inc = alignment_loss r.size max_alignment in
    let loss = loss-mod r.size in
    let asked : (size + 8) % 2 ^ 64 ≡ size + 8 = omega arith in
    let total : (size + 8 + inc) % 2 ^ 64 ≡ size + 8 + inc = omega (arith, loss.0) in
    let room : (r.capacity + (2 ^ 64 - r.size)) % 2 ^ 64 ≡ r.capacity - r.size = omega arith in
    elim (Bool-cases (size == 0)) [
      | inl z ↦ rw z (inl (refl, inl (ground arith)))
      | inr nz ↦
          rw (nz, asked, total, room)
            (elim (Bool-cases (ltb (r.capacity - r.size) (size + 8 + inc))) [
              | inl t ↦ rw t (inl (refl, inr (ground arith)))
              | inr f ↦
                  rw f (inr (region_take-Fresh mem r size inc loss.1 (ground arith) (omega arith)))
            ])
    ]

-- region_t_free of the buffer that was taken last, in a region that ends below 2^64, leaves in
-- use what lies before the header of the buffer: what was in use before, and the bytes lost to
-- alignment.
pub region_t_free-Fresh :
    (mem' : Memory) (r r' : Region) (size p : ℕ)
    → Fresh r r' mem' size p
    → r.data_at + r.capacity < 2 ^ 64
    → (region_t_free mem' r' p).size ≡ p - header - r.data_at
unfolding region_t_free is_last_allocated region_buffer_size
region_t_free-Fresh mem' r r' size p f lim =
    let last : (r'.data_at + r'.size + (2 ^ 64 - size)) % 2 ^ 64 ≡ p =
      omega (arith, f.ends, f.inside, f.same_place) in
    rw (f.stored, last, ==_refl p) (omega (arith, f.ends, f.inside, f.same_place, f.behind))
