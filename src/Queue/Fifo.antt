-- ===== src/Queue/Fifo.antt =====
-- The queue of src/ty_thread_queue.c holds messages in the order in which they were put.
use tyto_h.Base.{ℕ, ◌+◌, ◌-◌, ◌%◌, ◌^◌, ◌≤◌, ◌<◌, ◌≡◌, refl, sym, ap, ◌∙◌, ◌⊎◌, inl, inr}
use tyto_h.Base.{Option, none, some, List, [], ◌∷◌, ◌++◌, arith, ltb, leb, Bool-cases}
use tyto_h.Base.{==_refl, ne→==, Outcome, length, done}
use tyto_h.Queue.{Bytes, Queue, plus, minus, store, load, message}
use tyto_h.Queue.{put, get, get_message, consume}
use tyto_h.Queue.Memory.{load-store, load-store_other, decode_len, decode_seq}
use tyto_h.Queue.Memory.{length-message, copy_in-store, copy_out-load}
use tyto_h.Queue.Stored.{
  Stored, Stored_le, bytes_of, Stored-bytes_of, Stored-store, Stored-snoc, Stored_wrap,
}

-- The queue holds the messages, oldest first.
pub record Holds (q : Queue) (ms : List (List ℕ)) : Type 0 where
  pub stored : Stored q.size q.buffer ms q.head q.head_sequence q.tail q.tail_sequence
  pub head_in : q.head < q.size
  pub tail_in : q.tail ≤ q.head + q.size
  pub small : q.size < 2 ^ 62
  pub head_number : q.head_sequence < 2 ^ 64
  pub tail_number : q.tail_sequence < 2 ^ 64

-- The two writes of `ty_queue_put` put a message behind the others.
written :
    (size : ℕ) (mem : Bytes) (ms : List (List ℕ)) (h s e se : ℕ) (b : List ℕ)
    → Stored size mem ms h s e se
    → e + 16 + length b ≤ h + size
    → h < size
    → Stored size
        (store size (store size mem e (message (length b) se)) (e + 16) b)
        (ms ++ b ∷ [])
        h
        s
        (e + 16 + length b)
        (plus se 1)
written size mem ms h s e se b st fits head_in =
    let le = Stored_le size mem ms h s e se st in
    let len = length-message (length b) se in
    let mem1 : Bytes = store size mem e (message (length b) se) in
    let header : load size mem1 e 16 ≡ message (length b) se =
      ap (load size mem1 e) (sym len)
      ∙ load-store size mem e (message (length b) se) (omega (arith, len)) (omega (arith, len)) in
    Stored-snoc size (store size mem1 (e + 16) b) ms h s e se b
      (Stored-store size mem1 ms h s e se (e + 16) b
        (Stored-store size mem ms h s e se e (message (length b) se) st (omega arith)
          (omega (arith, len)) (omega (arith, len)))
        (omega arith) (omega arith) (omega arith))
      (load-store_other size mem1 (e + 16) b e 16 (omega arith) (omega arith) (omega arith)
        ∙ header)
      (load-store size mem1 (e + 16) b (omega arith) (omega arith))

pub put-Holds :
    (q : Queue) (ms : List (List ℕ)) (b : List ℕ)
    → Holds q ms
    → length b < 2 ^ 62
    → ((put q b ≡ done none) × (q.size < bytes_of ms + 16 + length b))
      ⊎ ((q' : Queue) × ((put q b ≡ done (some q')) × Holds q' (ms ++ b ∷ [])))
unfolding put
put-Holds q ms b v lim =
    let le = Stored_le q.size q.buffer ms q.head q.head_sequence q.tail q.tail_sequence v.stored in
    let used : minus q.tail q.head ≡ q.tail - q.head =
      omega (arith, v.head_in, v.tail_in, v.small) in
    let free : minus q.size (q.tail - q.head) ≡ q.size - (q.tail - q.head) =
      omega (arith, v.head_in, v.tail_in, v.small) in
    let needed : plus (length b) 16 ≡ length b + 16 = omega arith in
    rw (used, free, needed)
      (elim (Bool-cases (ltb (q.size - (q.tail - q.head)) (length b + 16))) [
        | inl t ↦ rw t (
            inl (
              refl,
              ground (
                arith,
                Stored-bytes_of q.size q.buffer ms q.head q.head_sequence q.tail q.tail_sequence
                    v.stored,
              ),
            ))
        | inr f ↦ rw f (
            let fits : q.tail + 16 + length b ≤ q.head + q.size = ground (arith, v.tail_in) in
            let behind : plus q.tail 16 ≡ q.tail + 16 =
              omega (arith, v.head_in, v.tail_in, v.small) in
            let mem1 : Bytes = store q.size q.buffer q.tail (message (length b) q.tail_sequence) in
            let moved : (q.tail + (length b + 16)) % 2 ^ 64 ≡ q.tail + 16 + length b =
              omega (arith, v.head_in, v.small) in
            rw
              (
                copy_in-store q.size q.buffer q.tail (message (length b) q.tail_sequence)
                    (omega (arith, v.head_in, length-message (length b) q.tail_sequence)),
                behind,
                copy_in-store q.size mem1 (q.tail + 16) b (omega (arith, v.head_in)),
                moved,
              )
              (inr (
                _,
                (
                  refl,
                  record {
                    stored =
                        written q.size q.buffer ms q.head q.head_sequence q.tail q.tail_sequence b
                          v.stored fits v.head_in;
                    head_in = v.head_in;
                    tail_in = fits;
                    small = v.small;
                    head_number = v.head_number;
                    tail_number = omega arith;
                  },
                ),
              )))
      ])

-- What a caller with room for `max` bytes gets from the messages.
pub data Taken (max : ℕ) : List (List ℕ) → Outcome (Option (Queue × List ℕ)) → Type 0 where
  nothing : Taken max [] (done none)
  too_long : (m : List ℕ) (ms : List (List ℕ)) → max < length m → Taken max (m ∷ ms) (done none)
  message_of :
      (q : Queue) (m : List ℕ) (ms : List (List ℕ))
      → length m ≤ max
      → Holds q ms
      → Taken max (m ∷ ms) (done (some (q, m)))

consume-Holds :
    (q : Queue) (m : List ℕ) (ms : List (List ℕ))
    → Holds q (m ∷ ms)
    → Holds (consume q (length m)) ms
unfolding consume
consume-Holds q m ms v =
    let next = q.head + 16 + length m in
    let inside =
      Stored_le q.size q.buffer ms next (plus q.head_sequence 1) q.tail q.tail_sequence
        v.stored.1.1 in
    let moved : (q.head + (length m + 16) % 2 ^ 64) % 2 ^ 64 ≡ next =
      omega (arith, v.head_in, v.tail_in, v.small) in
    rw moved (elim (Bool-cases (leb q.size next)) [
      | inr f ↦ rw f (record {
        stored = v.stored.1.1;
        head_in = ground arith;
        tail_in = omega (arith, v.tail_in);
        small = v.small;
        head_number = omega arith;
        tail_number = v.tail_number;
      })
      | inl t ↦
          let past : q.size ≤ next = ground arith in
          let back : (next + (2 ^ 64 - q.size)) % 2 ^ 64 ≡ next - q.size =
            omega (arith, v.head_in, v.tail_in, v.small) in
          let tail_back : (q.tail + (2 ^ 64 - q.size)) % 2 ^ 64 ≡ q.tail - q.size =
            omega (arith, v.head_in, v.tail_in, v.small) in
          rw (t, back, tail_back)
            (record {
              stored =
                  Stored_wrap q.size q.buffer ms next (plus q.head_sequence 1) q.tail
                    q.tail_sequence v.stored.1.1 past (omega (arith, v.tail_in, v.head_in));
              head_in = omega (arith, v.tail_in, v.head_in);
              tail_in = omega (arith, v.tail_in);
              small = v.small;
              head_number = omega arith;
              tail_number = v.tail_number;
            })
    ])

pub get-Taken : (q : Queue) (ms : List (List ℕ)) (max : ℕ) → Holds q ms → Taken max ms (get q max)
unfolding get get_message
get-Taken q [] max v =
    let empty : minus q.tail q.head ≡ 0 = omega (arith, v.stored.0, v.head_in, v.small) in
    rw empty Taken.nothing
get-Taken q (m ∷ ms) max v =
    let inside =
      Stored_le q.size q.buffer ms (q.head + 16 + length m) (plus q.head_sequence 1) q.tail
        q.tail_sequence v.stored.1.1 in
    let used : minus q.tail q.head ≡ q.tail - q.head =
      omega (arith, v.head_in, v.tail_in, v.small) in
    let behind : plus q.head 16 ≡ q.head + 16 = omega (arith, v.head_in, v.small) in
    rw
      (
        used,
        ne→== (q.tail - q.head) 0 (λ e. absurd (omega arith)),
        copy_out-load q.size q.buffer q.head 16 (omega (arith, v.head_in, v.tail_in)),
        v.stored.0,
        decode_len (length m) q.head_sequence (omega (arith, v.head_in, v.tail_in, v.small)),
        decode_seq (length m) q.head_sequence v.head_number,
      )
      (elim (Bool-cases (ltb max (length m))) [
        | inl t ↦ rw (t, ==_refl q.head_sequence) (Taken.too_long m ms (ground arith))
        | inr f ↦
            rw
              (
                f,
                behind,
                copy_out-load q.size q.buffer (q.head + 16) (length m)
                    (omega (arith, v.head_in, v.tail_in)),
                v.stored.1.0,
              )
              (Taken.message_of (consume q (length m)) m ms (ground arith) (consume-Holds q m ms v))
      ])
