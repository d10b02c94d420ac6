-- ===== src/Queue/Stored.antt =====
-- Messages in the buffer of src/ty_thread_queue.c, one behind the other.
use tyto_h.Base.{ℕ, ◌+◌, ◌-◌, ◌*◌, ◌≤◌, ◌≡◌, sym, ap, ◌∙◌, List, [], ◌∷◌, ◌++◌, arith}
use tyto_h.Base.{length}
use tyto_h.Queue.{Bytes, plus, store, load, message}
use mathlib.Core.Path.{subst}
use tyto_h.Queue.Memory.{load-store_other, load_wrap}

-- The messages stand one behind the other from `h` to `e`, numbered from `s` up to `se`.
abbrev pub Stored : ℕ → Bytes → List (List ℕ) → (h s e se : ℕ) → Type 0
Stored size mem [] h s e se = (h ≡ e) × (s ≡ se)
Stored size mem (m ∷ ms) h s e se =
    (load size mem h 16 ≡ message (length m) s)
    × ((load size mem (h + 16) (length m) ≡ m)
        × Stored size mem ms (h + 16 + length m) (plus s 1) e se)

pub Stored_le :
    (size : ℕ) (mem : Bytes) (ms : List (List ℕ)) (h s e se : ℕ)
    → Stored size mem ms h s e se
    → h ≤ e
Stored_le size mem [] h s e se st = omega (arith, st.0)
Stored_le size mem (m ∷ ms) h s e se st =
    omega (arith, Stored_le size mem ms (h + 16 + length m) (plus s 1) e se st.1.1)

-- The bytes that messages take with their headers.
unfoldable pub bytes_of : List (List ℕ) → ℕ
bytes_of [] = 0
bytes_of (m ∷ ms) = length m + 16 + bytes_of ms

pub Stored-bytes_of :
    (size : ℕ) (mem : Bytes) (ms : List (List ℕ)) (h s e se : ℕ)
    → Stored size mem ms h s e se
    → e ≡ h + bytes_of ms
unfolding bytes_of
Stored-bytes_of size mem [] h s e se st = omega (arith, st.0)
Stored-bytes_of size mem (m ∷ ms) h s e se st =
    omega (arith, Stored-bytes_of size mem ms (h + 16 + length m) (plus s 1) e se st.1.1)

-- A write behind the messages, in the room that is left, does not touch them.
pub Stored-store :
    (size : ℕ) (mem : Bytes) (ms : List (List ℕ)) (h s e se i : ℕ) (bs : List ℕ)
    → Stored size mem ms h s e se
    → e ≤ i
    → i + length bs ≤ h + size
    → i + length bs ≤ 2 * size
    → Stored size (store size mem i bs) ms h s e se
Stored-store size mem [] h s e se i bs st a b c = st
Stored-store size mem (m ∷ ms) h s e se i bs st a b c =
    let inside = Stored_le size mem ms (h + 16 + length m) (plus s 1) e se st.1.1 in
    (
      load-store_other size mem i bs h 16 (omega arith) b c ∙ st.0,
      (
        load-store_other size mem i bs (h + 16) (length m) (omega arith) (omega arith) c ∙ st.1.0,
        Stored-store size mem ms (h + 16 + length m) (plus s 1) e se i bs st.1.1 a (omega arith) c,
      ),
    )

pub Stored-snoc :
    (size : ℕ) (mem : Bytes) (ms : List (List ℕ)) (h s e se : ℕ) (b : List ℕ)
    → Stored size mem ms h s e se
    → load size mem e 16 ≡ message (length b) se
    → load size mem (e + 16) (length b) ≡ b
    → Stored size mem (ms ++ b ∷ []) h s (e + 16 + length b) (plus se 1)
Stored-snoc size mem [] h s e se b st l r = (
  ap (λ k. load size mem k 16) st.0 ∙ l ∙ ap (message (length b)) (sym st.1),
  (
    ap (λ k. load size mem (k + 16) (length b)) st.0 ∙ r,
    (omega (arith, st.0), ap (λ k. plus k 1) st.1),
  ),
)
Stored-snoc size mem (m ∷ ms) h s e se b st l r =
    (st.0, (st.1.0, Stored-snoc size mem ms (h + 16 + length m) (plus s 1) e se b st.1.1 l r))

-- Messages in the second map are the same messages in the first.
pub Stored_wrap :
    (size : ℕ) (mem : Bytes) (ms : List (List ℕ)) (h s e se : ℕ)
    → Stored size mem ms h s e se
    → size ≤ h
    → e ≤ 2 * size
    → Stored size mem ms (h - size) s (e - size) se
Stored_wrap size mem [] h s e se st a b = (omega (arith, st.0), st.1)
Stored_wrap size mem (m ∷ ms) h s e se st a b =
    let inside = Stored_le size mem ms (h + 16 + length m) (plus s 1) e se st.1.1 in
    (
      sym (load_wrap size mem h 16 a (omega arith)) ∙ st.0,
      (
        ap (λ k. load size mem k (length m)) {x = h - size + 16} {y = h + 16 - size} (omega arith)
            ∙ sym (load_wrap size mem (h + 16) (length m) (omega arith) (omega arith))
            ∙ st.1.0,
        Stored_at size mem ms (plus s 1) (e - size) se
            (Stored_wrap size mem ms (h + 16 + length m) (plus s 1) e se st.1.1 (omega arith) b)
            (omega arith),
      ),
    )
  where
    Stored_at :
        (size : ℕ) (mem : Bytes) (ms : List (List ℕ)) (s e se : ℕ) {h k : ℕ}
        → Stored size mem ms h s e se
        → h ≡ k
        → Stored size mem ms k s e se
    Stored_at size mem ms s e se {h} {k} st eq = subst (λ x. Stored size mem ms x s e se) eq st
