-- ===== src/Strings/Between.antt =====
-- The moves of an insertion into a string, in src/ty_string.c.
use tyto_h.Base.{ℕ, ◌+◌, ◌-◌, ◌%◌, ◌^◌, ◌≤◌, ◌<◌, ◌≡◌, refl, sym, ap, ◌∙◌, some, List}
use tyto_h.Base.{◌++◌, arith, ◌>>=◌, le→leb, Outcome, length, take, drop, length-append}
use tyto_h.Base.{length-take, length-drop, take-append-drop, take_prefix, drop_prefix}
use tyto_h.Base.{take_prefix_more, done}
use mathlib.Core.List.{append_assoc}
use mathlib.Core.Path.{subst}
use tyto_h.Strings.{TyString, read_bytes, write_bytes, store_between}
use tyto_h.Strings.Change.{Wf, Holds}

-- A read of the middle of three parts.
pub read_bytes-middle : (p r q : List ℕ) → read_bytes (p ++ (r ++ q)) (length p) (length r) ≡ done r
unfolding read_bytes
read_bytes-middle p r q =
    rw
      (
        le→leb (length p + length r) (length (p ++ (r ++ q)))
            (omega (arith, length-append p (r ++ q), length-append r q)),
        drop_prefix p (r ++ q) (length p) 0 (omega arith),
        take_prefix r q (length r) refl,
      )
      refl

-- A write behind a first part.
pub write_bytes-behind :
    (p y cs : List ℕ) (i n : ℕ)
    → i ≡ length p + n
    → n + length cs ≤ length y
    → write_bytes (p ++ y) i cs ≡ done (p ++ (take n y ++ (cs ++ drop (n + length cs) y)))
unfolding write_bytes
write_bytes-behind p y cs i n e le =
    rw
      (
        le→leb (i + length cs) (length (p ++ y)) (omega (arith, length-append p y)),
        take_prefix_more p y i n e,
        drop_prefix p y (i + length cs) (n + length cs) (omega arith),
      )
      (ap done (
        append_assoc (p ++ take n y) cs (drop (n + length cs) y)
        ∙ append_assoc p (take n y) (cs ++ drop (n + length cs) y)))

-- The text of a string in two parts, and the room behind it.
pub parts_of :
    (s : TyString) (b p r : List ℕ)
    → Wf s b
    → take s.size b ≡ p ++ r
    → (q : List ℕ) × ((b ≡ p ++ (r ++ q))
        × ((s.size ≡ length p + length r) × (s.capacity ≡ s.size + length q)))
parts_of s b p r w e =
    let size : s.size ≡ length p + length r =
      omega (arith, length-take s.size b, ap length e, length-append p r, w.room, w.fits) in
    (
      drop s.size b,
      (
        sym (take-append-drop s.size b)
            ∙ ap (λ xs. xs ++ drop s.size b) e
            ∙ append_assoc p r (drop s.size b),
        (size, omega (arith, length-drop s.size b, w.room, w.fits)),
      ),
    )

-- The two moves of an insertion.
moves :
    (p r q cs : List ℕ)
    → length cs ≤ length q
    → (write_bytes (p ++ (r ++ q)) (length p + length cs) r >>= (λ b. write_bytes b (length p) cs))
      ≡ done (p ++ (cs ++ (r ++ drop (length cs + length r) (r ++ q))))
moves p r q cs le =
    let gap = take (length cs) (r ++ q) in
    let room : length gap ≡ length cs =
      omega (arith, length-take (length cs) (r ++ q), length-append r q) in
    let behind = r ++ drop (length cs + length r) (r ++ q) in
    rw
      (
        write_bytes-behind p (r ++ q) r (length p + length cs) (length cs) refl
            (omega (arith, length-append r q)),
        write_bytes-behind p (gap ++ behind) cs (length p) 0 (omega arith)
            (omega (arith, length-append gap behind)),
        drop_prefix gap behind (0 + length cs) 0 (omega (arith, room)),
      )
      refl

regroup : (p c r z : List ℕ) → p ++ (c ++ (r ++ z)) ≡ (p ++ (c ++ r)) ++ z
regroup p c r z = ap (λ t. p ++ t) (sym (append_assoc c r z)) ∙ sym (append_assoc p (c ++ r) z)

pub store_between-Holds :
    (s : TyString) (b p r cs : List ℕ)
    → Wf s b
    → take s.size b ≡ p ++ r
    → s.size + length cs ≤ s.capacity
    → s.capacity < 2 ^ 64
    → (t : TyString) × ((store_between s (length p) (done cs) (length cs) ≡ done t)
        × Holds t (p ++ (cs ++ r)))
unfolding store_between Holds
store_between-Holds s b p r cs w e le lim =
    let (q, (whole, (size, room))) = parts_of s b p r w e in
    let rest : s.size - length p ≡ length r = omega (arith, size) in
    let after = drop (length cs + length r) (r ++ q) in
    let total : length (p ++ (cs ++ (r ++ after))) ≡ s.capacity = omega (
      arith,
      length-append p (cs ++ (r ++ after)),
      length-append cs (r ++ after),
      length-append r after,
      length-drop (length cs + length r) (r ++ q),
      length-append r q,
      size,
      room,
    ) in
    rw (w.has, whole, rest, read_bytes-middle p r q)
      (
        record {
          buffer = some (p ++ (cs ++ (r ++ after)));
          size = (s.size + length cs) % 2 ^ 64;
          capacity = s.capacity;
        },
        (
          ap
              (λ (o : Outcome (List ℕ)). ◌>>=◌ {B = TyString} o (λ b'. done (record {
                buffer = some b';
                size = (s.size + length cs) % 2 ^ 64;
                capacity = s.capacity;
              })))
              (moves p r q cs (omega (arith, room))),
          (
            p ++ (cs ++ (r ++ after)),
            (
              record { has = refl; room = total; fits = omega arith },
              ap (λ xs. take ((s.size + length cs) % 2 ^ 64) xs) (regroup p cs r after)
                  ∙ take_prefix (p ++ (cs ++ r)) after ((s.size + length cs) % 2 ^ 64)
                      (omega (arith, length-append p (cs ++ r), length-append cs r, size)),
            ),
          ),
        ),
      )

pub store_between_of :
    (s : TyString) (b p r cs : List ℕ) (n : ℕ)
    → length cs ≡ n
    → Wf s b
    → take s.size b ≡ p ++ r
    → s.size + n ≤ s.capacity
    → s.capacity < 2 ^ 64
    → (t : TyString) × ((store_between s (length p) (done cs) n ≡ done t)
        × Holds t (p ++ (cs ++ r)))
store_between_of s b p r cs n e w same le lim =
    subst
      (λ m.
        (t : TyString) × ((store_between s (length p) (done cs) m ≡ done t)
          × Holds t (p ++ (cs ++ r))))
      e (store_between-Holds s b p r cs w same (omega (arith, e)) lim)
