-- ===== src/Queue.antt =====
-- The blocking queue of src/ty_thread_queue.c and includes/ty_thread_queue.h.
-- The buffer is mapped twice in a row: an index below `size` and the same index behind it are
-- one byte, an index behind both maps is a fault. A call holds the mutex from its start to
-- its end but while it waits, so it is one step; a step that would wait is none.
mod Memory
mod Stored
mod Fifo
mod Runs
mod Tests
use tyto_h.Base.{ℕ, zero, suc, ◌+◌, ◌-◌, ◌*◌, ◌/◌, ◌%◌, ◌^◌, Bool, not, ◌||◌, Option}
use tyto_h.Base.{none, some, List, [], ◌∷◌, ◌++◌, ◌>>=◌, ◌==◌, if◌then◌else◌, ltb, leb}
use tyto_h.Base.{Outcome, length, take, drop, done, fault, out_of_fuel}

abbrev pub Bytes : Type 0
Bytes = ℕ → ℕ

pub record Queue : Type 0 where
  pub buffer : Bytes
  pub size : ℕ
  pub head : ℕ
  pub tail : ℕ
  pub head_sequence : ℕ
  pub tail_sequence : ℕ

abbrev pub header_size : ℕ
header_size = 16

-- Arithmetic of `size_t`.
abbrev pub plus : ℕ → ℕ → ℕ
plus a b = (a + b) % 2 ^ 64

abbrev pub minus : ℕ → ℕ → ℕ
minus a b = (a + (2 ^ 64 - b)) % 2 ^ 64

-- `ty_queue_init`: none where it aborts; a mapped page holds zeros.
unfoldable pub init : (page_size : ℕ) → (mapped : Bool) → ℕ → Option Queue
init page_size mapped s =
    if not (s % page_size == 0) || not mapped
    then none
    else some (record {
      buffer = λ i. 0;
      size = s;
      head = 0;
      tail = 0;
      head_sequence = 0;
      tail_sequence = 0;
    })

-- The byte of the file behind an index of the two maps.
abbrev pub place : ℕ → ℕ → ℕ
place size i = if ltb i size then i else i - size

unfoldable pub store : ℕ → Bytes → ℕ → List ℕ → Bytes
store size mem i [] = mem
store size mem i (b ∷ bs) = store size (λ p. if p == place size i then b else mem p) (i + 1) bs

unfoldable pub load : ℕ → Bytes → ℕ → ℕ → List ℕ
load size mem i zero = []
load size mem i (suc n) = mem (place size i) ∷ load size mem (i + 1) n

-- `memcpy` to the buffer and from it.
unfoldable pub copy_in : ℕ → Bytes → ℕ → List ℕ → Outcome Bytes
copy_in size mem i bs = if leb (i + length bs) (2 * size) then done (store size mem i bs) else fault

unfoldable pub copy_out : ℕ → Bytes → ℕ → ℕ → Outcome (List ℕ)
copy_out size mem i n = if leb (i + n) (2 * size) then done (load size mem i n) else fault

-- The bytes of a `size_t`, the lowest first.
unfoldable pub encode : ℕ → ℕ → List ℕ
encode zero n = []
encode (suc k) n = n % 256 ∷ encode k (n / 256)

unfoldable pub decode : List ℕ → ℕ
decode [] = 0
decode (b ∷ bs) = b + 256 * decode bs

-- `ty_message_t`: the length and the sequence number.
unfoldable pub message : ℕ → ℕ → List ℕ
message len seq = encode 8 len ++ encode 8 seq

unfoldable pub put : Queue → List ℕ → Outcome (Option Queue)
put q buffer =
    let size = length buffer in
    let wrote =
      copy_in q.size q.buffer q.tail (message size q.tail_sequence)
      >>= (λ mem. copy_in q.size mem (plus q.tail header_size) buffer)
      >>= (λ mem. done (
          some (record q {
            buffer = mem;
            tail = plus q.tail (plus size header_size);
            tail_sequence = plus q.tail_sequence 1;
          }))) in
    if ltb (minus q.size (minus q.tail q.head)) (plus size header_size) then done none else wrote

-- The read pointer moves behind the message, and both indices back to the first map.
unfoldable pub consume : Queue → ℕ → Queue
consume q len =
    let head = plus q.head (plus len header_size) in
    record q {
      head = if leb q.size head then minus head q.size else head;
      tail = if leb q.size head then minus q.tail q.size else q.tail;
      head_sequence = plus q.head_sequence 1;
    }

-- The part of `ty_queue_get` behind the read of the header. A message that is too long for
-- the caller waits while it is the next one; the loop would turn for ever if it were not.
unfoldable pub get_message : Queue → ℕ → ℕ → ℕ → Outcome (Option (Queue × List ℕ))
get_message q max len seq =
    let waiting = if q.head_sequence == seq then done none else out_of_fuel in
    let body =
      copy_out q.size q.buffer (plus q.head header_size) len
      >>= (λ bs. done (some (consume q len, bs))) in
    if ltb max len then waiting else body

-- The new queue and the bytes of the message; the length that is returned is theirs.
unfoldable pub get : Queue → ℕ → Outcome (Option (Queue × List ℕ))
get q max =
    let read =
      copy_out q.size q.buffer q.head header_size
      >>= (λ m. get_message q max (decode (take 8 m)) (decode (drop 8 m))) in
    if minus q.tail q.head == 0 then done none else read
