-- ===== src/Queue/Tests.antt =====
-- The queue at concrete inputs.
use tyto_h.Base.{ℕ, ◌+◌, ◌<◌, ◌≡◌, refl, ◌⊎◌, true, Option, none, some, List, [], ◌∷◌}
use tyto_h.Base.{◌++◌, arith, Outcome, done}
use tyto_h.Queue.{Queue, init, put, get, copy_in, copy_out, store, load, encode, decode, message}
use tyto_h.Queue.{get_message, consume}
use tyto_h.Queue.Stored.{bytes_of}
use tyto_h.Queue.Fifo.{Taken, Holds}
use tyto_h.Queue.Runs.{Run, Run-fifo}

-- A queue of 64 bytes, as it is made.
abbrev start : Queue
start = record {
  buffer = λ i. 0;
  size = 64;
  head = 0;
  tail = 0;
  head_sequence = 0;
  tail_sequence = 0;
}

made : init 64 true 64 ≡ some start
unfolding init
made = refl

abbrev queue_in : Outcome (Option Queue) → Queue
queue_in (done (some q)) = q
queue_in _ = start

-- The same queue with the message 7 8 9.
abbrev one : Queue
one = queue_in (put start (7 ∷ 8 ∷ 9 ∷ []))

put_once : put start (7 ∷ 8 ∷ 9 ∷ []) ≡ done (some one)
unfolding put copy_in store message encode
put_once = refl

one-Run : Run start one ((7 ∷ 8 ∷ 9 ∷ []) ∷ []) []
one-Run = Run.sends start one [] [] (7 ∷ 8 ∷ 9 ∷ []) Run.here (omega arith) put_once

Run-fifo_example :
    (ms : List (List ℕ)) × (((7 ∷ 8 ∷ 9 ∷ []) ∷ [] ≡ [] ++ ms)
      × (Taken 2 ms (get one 2)
          × (((put one (1 ∷ []) ≡ done none) × (one.size < bytes_of ms + 16 + 1))
              ⊎ ((q' : Queue) × ((put one (1 ∷ []) ≡ done (some q'))
                    × Holds q' (ms ++ (1 ∷ []) ∷ []))))))
Run-fifo_example =
    Run-fifo 64 64 start one ((7 ∷ 8 ∷ 9 ∷ []) ∷ []) [] 2 (1 ∷ []) made (omega arith) (omega arith)
      (omega arith) one-Run

abbrev message_in : Outcome (Option (Queue × List ℕ)) → List ℕ
message_in (done (some (q, m))) = m
message_in _ = []

gets_back : message_in (get one 5) ≡ 7 ∷ 8 ∷ 9 ∷ []
unfolding put get get_message consume copy_in copy_out store load message encode decode
gets_back = refl
