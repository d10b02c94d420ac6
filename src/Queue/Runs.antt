-- ===== src/Queue/Runs.antt =====
-- Every sequence of calls on a queue of src/ty_thread_queue.c, in whatever order the threads
-- get the mutex.
use mathlib.Core.Option.{some-injective, none-ne-some}
use mathlib.Core.Path.{subst}
use tyto_h.Base.{ℕ, ◌+◌, ◌%◌, ◌^◌, ◌<◌, ◌≡◌, refl, sym, ap, ◌∙◌, ◌≢◌, ◌⊎◌, inl, inr, true}
use tyto_h.Base.{Option, none, some, List, [], ◌∷◌, ◌++◌, arith, ◌==◌, ltb, lt→ltb}
use tyto_h.Base.{Bool-cases, Outcome, length, done, fault, out_of_fuel}
use mathlib.Core.List.{append_assoc}
use tyto_h.Queue.{Queue, put, get, init, plus, minus}
use tyto_h.Queue.Stored.{bytes_of, Stored_le}
use tyto_h.Queue.Fifo.{Holds, Taken, put-Holds, get-Taken}

-- The calls that went through since the start, with the messages put and those taken. A call
-- that waits leaves the queue as it is, and is no step.
pub data Run (start : Queue) : Queue → (sent received : List (List ℕ)) → Type 0 where
  here : Run start start [] []
  sends :
      (q q' : Queue) (sent received : List (List ℕ)) (b : List ℕ)
      → Run start q sent received
      → length b < 2 ^ 62
      → put q b ≡ done (some q')
      → Run start q' (sent ++ b ∷ []) received
  receives :
      (q q' : Queue) (sent received : List (List ℕ)) (max : ℕ) (m : List ℕ)
      → Run start q sent received
      → get q max ≡ done (some (q', m))
      → Run start q' sent (received ++ m ∷ [])

-- What a step that went through has given.
gained {ℓ} : {A : Type ℓ} → Outcome (Option A) → Option A
gained (done o) = o
gained fault = none
gained out_of_fuel = none

done-some_injective {ℓ} : {A : Type ℓ} (a b : A) → done (some a) ≡ done (some b) → a ≡ b
unfolding gained
done-some_injective a b e = some-injective a b (ap gained e)

done-none_ne {ℓ} : {A : Type ℓ} (a : A) → done none ≢ done (some a)
unfolding gained
done-none_ne a e = none-ne-some a (ap gained e)

abbrev queue_of_size : ℕ → Queue
queue_of_size s = record {
  buffer = λ i. 0;
  size = s;
  head = 0;
  tail = 0;
  head_sequence = 0;
  tail_sequence = 0;
}

init-Holds :
    (page_size s : ℕ) (q : Queue) → init page_size true s ≡ some q → 0 < s → s < 2 ^ 62 → Holds q []
unfolding init
init-Holds page_size s q e some_size small = elim (Bool-cases (s % page_size == 0)) [
  | inr f ↦ absurd (none-ne-some q (sym (rw f refl) ∙ e))
  | inl t ↦
      subst (λ x. Holds x []) (some-injective (queue_of_size s) q (sym (rw t refl) ∙ e))
        (record {
          stored = (refl, refl);
          head_in = some_size;
          tail_in = omega arith;
          small = small;
          head_number = omega arith;
          tail_number = omega arith;
        })
]

-- A message that was taken was the first, and the others are left.
Taken-first :
    (max : ℕ) (ms : List (List ℕ)) (o : Outcome (Option (Queue × List ℕ))) (q : Queue) (m : List ℕ)
    → Taken max ms o
    → o ≡ done (some (q, m))
    → (rest : List (List ℕ)) × ((ms ≡ m ∷ rest) × Holds q rest)
Taken-first max _ _ q m Taken.nothing e = absurd (done-none_ne (q, m) e)
Taken-first max _ _ q m (Taken.too_long first rest h) e = absurd (done-none_ne (q, m) e)
Taken-first max _ _ q m (Taken.message_of q' first rest h v) e =
    let same = done-some_injective (q', first) (q, m) e in
    (rest, (ap (λ x. x.1 ∷ rest) same, subst (λ x. Holds x rest) (ap (λ x. x.0) same) v))

Run-Holds :
    (start q : Queue) (sent received : List (List ℕ))
    → Holds start []
    → Run start q sent received
    → (ms : List (List ℕ)) × ((sent ≡ received ++ ms) × Holds q ms)
Run-Holds start _ _ _ h Run.here = ([], (refl, h))
Run-Holds start _ _ _ h (Run.sends q q' sent received b r lim e) =
    let before = Run-Holds start q sent received h r in
    elim (put-Holds q before.0 b before.1.1 lim) [
      | inl waits ↦ absurd (done-none_ne q' (sym waits.0 ∙ e))
      | inr went ↦
          let same = done-some_injective went.0 q' (sym went.1.0 ∙ e) in
          (
            before.0 ++ b ∷ [],
            (
              ap (λ t. t ++ b ∷ []) before.1.0 ∙ append_assoc received before.0 (b ∷ []),
              subst (λ x. Holds x (before.0 ++ b ∷ [])) same went.1.1,
            ),
          )
    ]
Run-Holds start _ _ _ h (Run.receives q q' sent received max m r e) =
    let before = Run-Holds start q sent received h r in
    let first = Taken-first max before.0 (get q max) q' m (get-Taken q before.0 max before.1.1) e in
    (
      first.0,
      (
        before.1.0
            ∙ ap (λ t. received ++ t) first.1.0
            ∙ sym (append_assoc received (m ∷ []) first.0),
        first.1.1,
      ),
    )

-- After any calls on a queue that `ty_queue_init` made, of a size from 1 to 2^62 - 1, with
-- messages shorter than 2^62 bytes: the messages taken are the first of those put, in their
-- order; the next `ty_queue_get` ends without a fault, waits if no message is left or the
-- first is longer than its caller's room, and takes the first if not; and the next
-- `ty_queue_put` waits if the messages that are left and its own, with a header of 16 bytes
-- for each, do not fit the size, or it puts its message behind the others.
pub Run-fifo :
    (page_size s : ℕ) (start q : Queue) (sent received : List (List ℕ)) (max : ℕ) (b : List ℕ)
    → init page_size true s ≡ some start
    → 0 < s
    → s < 2 ^ 62
    → length b < 2 ^ 62
    → Run start q sent received
    → (ms : List (List ℕ)) × ((sent ≡ received ++ ms)
        × (Taken max ms (get q max)
            × (((put q b ≡ done none) × (q.size < bytes_of ms + 16 + length b))
                ⊎ ((q' : Queue) × ((put q b ≡ done (some q')) × Holds q' (ms ++ b ∷ []))))))
Run-fifo page_size s start q sent received max b e some_size small lim r =
    let now = Run-Holds start q sent received (init-Holds page_size s start e some_size small) r in
    (now.0, (now.1.0, (get-Taken q now.0 max now.1.1, put-Holds q now.0 b now.1.1 lim)))

-- A message that does not fit the whole buffer with its header is never put: in no state
-- does `ty_queue_put` do anything but wait.
pub put_blocked :
    (q : Queue) (ms : List (List ℕ)) (b : List ℕ)
    → Holds q ms
    → length b < 2 ^ 62
    → q.size < length b + 16
    → put q b ≡ done none
unfolding put
put_blocked q ms b v lim long =
    let le = Stored_le q.size q.buffer ms q.head q.head_sequence q.tail q.tail_sequence v.stored in
    let full : ltb (minus q.size (minus q.tail q.head)) (plus (length b) 16) ≡ true =
      lt→ltb _ _ (omega (arith, v.head_in, v.tail_in, v.small)) in
    rw full refl
