-- ===== src/Alloc/Grow.antt =====
-- `region_remap` of src/ty_alloc.c makes the last buffer larger where it stands.
use tyto_h.Base.{ℕ, ◌+◌, ◌-◌, ◌%◌, ◌^◌, ◌≤◌, ◌<◌, ◌≡◌, refl, sym, ap, ◌∙◌, true, false}
use tyto_h.Base.{[], arith, ltb, le→leb, lt→leb, ==_refl, ne→==}
use mathlib.Core.Path.{subst}
use tyto_h.Alloc.{
  Memory, Region, region_buffer_size, is_last_allocated, region_alloc, region_t_free, region_take,
  alignment_loss, max_alignment, header,
}
use tyto_h.Alloc.Remap.{uncopied, region_remap}
use tyto_h.Alloc.Regions.{Fresh, loss-mod, region_take-Fresh}

-- The region without its last buffer.
abbrev without : Region → (p : ℕ) → Region
without r p = record r { size = p - header - r.data_at }

last_lem :
    (mem : Memory) (r r' : Region) (size p : ℕ)
    → Fresh r r' mem size p
    → r'.data_at + r'.capacity < 2 ^ 63
    → is_last_allocated mem r' p ≡ true
unfolding is_last_allocated region_buffer_size
last_lem mem r r' size p f lim =
    let last : (r'.data_at + r'.size + (2 ^ 64 - size)) % 2 ^ 64 ≡ p =
      omega (arith, f.ends, f.inside, f.same_place, f.same_room) in
    rw (f.stored, last) (==_refl p)

free-without :
    (mem : Memory) (r r' : Region) (size p : ℕ)
    → Fresh r r' mem size p
    → r'.data_at + r'.capacity < 2 ^ 63
    → region_t_free mem r' p ≡ without r' p
unfolding region_t_free region_buffer_size
free-without mem r r' size p f lim =
    rw (last_lem mem r r' size p f lim, f.stored)
      (ap (λ n. record r' { size = n }) {x = (r'.size + (2 ^ 64 - (size + 8) % 2 ^ 64)) % 2 ^ 64}
        {y = p - 8 - r'.data_at}
        (omega (arith, f.ends, f.inside, f.same_place, f.same_room, f.behind)))

alloc_again :
    (mem : Memory) (r : Region) (new_size : ℕ)
    → r.size % 16 ≡ 0
    → 0 < new_size
    → r.size + new_size + 8 ≤ r.capacity
    → r.capacity < 2 ^ 63
    → region_alloc mem r new_size
      ≡ region_take mem r new_size (r.data_at + r.size + 0) (new_size + 8 + 0)
unfolding region_alloc
alloc_again mem r new_size al some_size fits lim =
    let loss : alignment_loss r.size max_alignment ≡ 0 = omega (arith, loss-mod r.size) in
    let asked : (new_size + 8) % 2 ^ 64 ≡ new_size + 8 = omega arith in
    let total : (new_size + 8 + 0) % 2 ^ 64 ≡ new_size + 8 + 0 = omega arith in
    let room : (r.capacity + (2 ^ 64 - r.size)) % 2 ^ 64 ≡ r.capacity - r.size = omega arith in
    let enough : ltb (r.capacity - r.size) (new_size + 8 + 0) ≡ false = ground arith in
    rw (loss, asked, ne→== new_size 0 (λ e. absurd (omega arith)), total, room, enough) refl

-- `region_remap` of the buffer that was taken last, for more bytes than it has and no more than
-- are left behind its start, fewer than 2^32, in a region that ends below 2^63: the buffer
-- stays where it is and has the new size, and no bytes are copied. The call of `region_free`,
-- which has no definition, is taken to be one of `region_t_free`.
pub region_remap-Fresh :
    (mem : Memory) (r r' : Region) (size p new_size : ℕ)
    → Fresh r r' mem size p
    → r'.data_at + r'.capacity < 2 ^ 63
    → size < new_size
    → new_size ≤ r'.capacity - r'.size + size
    → r'.capacity - r'.size + size < 2 ^ 32
    → (s : Memory × Region) × ((region_remap region_t_free mem r' p new_size ≡ (s.0, s.1, p, []))
        × Fresh r s.1 s.0 new_size p)
unfolding region_remap uncopied region_buffer_size region_take
region_remap-Fresh mem r r' size p new_size f lim more fits small =
    let left : ((r'.capacity + (2 ^ 64 - r'.size)) % 2 ^ 64 + size) % 2 ^ 32
        ≡ r'.capacity - r'.size + size =
      omega (arith, f.inside, f.same_room) in
    let free = without r' p in
    let t =
      region_take-Fresh mem free new_size 0 (omega (arith, f.aligned, f.same_place))
        (omega (arith, f.ends, f.same_place, f.behind)) (omega arith) in
    let u = region_take mem free new_size (free.data_at + free.size + 0) (new_size + 8 + 0) in
    let g : Fresh free u.1 u.0 new_size u.2 =
      subst (λ s. Fresh free s.1 s.0 new_size s.2) (sym t.1.0) t.1.1 in
    let stays : u.2 ≡ p = omega (arith, f.behind, f.same_place) in
    rw
      (
        f.stored,
        left,
        ne→== p 0 (λ e. absurd (omega (arith, f.behind))),
        lt→leb new_size size more,
        last_lem mem r r' size p f lim,
        le→leb new_size (r'.capacity - r'.size + size) fits,
        free-without mem r r' size p f lim,
        alloc_again mem free new_size (omega (arith, f.aligned, f.same_place)) (omega arith)
            (omega (arith, f.ends, f.same_place, f.behind)) (omega arith),
      )
      (
        (u.0, u.1),
        (
          ap (λ q. (u.0, u.1, q, [])) stays,
          record {
            behind = f.behind;
            ends = omega (arith, g.ends, stays);
            inside = omega (arith, g.inside, f.same_room);
            same_room = g.same_room ∙ f.same_room;
            same_place = g.same_place ∙ f.same_place;
            stored = ap (λ q. u.0 (q - header)) (sym stays) ∙ g.stored;
            aligned = f.aligned;
          },
        ),
      )
