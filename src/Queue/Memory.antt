-- ===== src/Queue/Memory.antt =====
-- The twice mapped buffer of src/ty_thread_queue.c: what is written is read back, what is
-- not written stays, and the two maps show the same bytes.
use tyto_h.Base.{ℕ, zero, suc, ◌+◌, ◌-◌, ◌*◌, ◌^◌, ◌≤◌, ◌<◌, ◌≡◌, refl, ap, ◌∙◌, ◌≢◌}
use tyto_h.Base.{List, [], ◌∷◌, arith, ◌==◌, if◌then◌else◌, le→leb, ==_refl, ne→==}
use tyto_h.Base.{length, take, drop, done}
use tyto_h.Queue.{Bytes, place, store, load, encode, decode, message, copy_in, copy_out}
use mathlib.Core.Path.{ap₂}

place-ne : (size i j : ℕ) → i < j → j < i + size → j < 2 * size → place size i ≢ place size j
place-ne size i j a b c e = absurd (ground arith)

-- A write that does not reach the byte at an index in front of it.
store-other :
    (size : ℕ) (mem : Bytes) (i : ℕ) (bs : List ℕ) (h : ℕ)
    → h < i
    → i + length bs ≤ h + size
    → i + length bs ≤ 2 * size
    → store size mem i bs (place size h) ≡ mem (place size h)
unfolding store
store-other size mem i [] h a b c = refl
store-other size mem i (x ∷ bs) h a b c =
    store-other size (λ p. if p == place size i then x else mem p) (i + 1) bs h (omega arith)
      (omega arith) (omega arith)
    ∙ ap (λ t. if t then x else mem (place size h))
        (ne→== (place size h) (place size i) (place-ne size h i a (omega arith) (omega arith)))

pub load-store :
    (size : ℕ) (mem : Bytes) (i : ℕ) (bs : List ℕ)
    → length bs ≤ size
    → i + length bs ≤ 2 * size
    → load size (store size mem i bs) i (length bs) ≡ bs
unfolding load store
load-store size mem i [] a b = refl
load-store size mem i (x ∷ bs) a b =
    let mem' : Bytes = λ p. if p == place size i then x else mem p in
    ap₂ ◌∷◌
      (store-other size mem' (i + 1) bs i (omega arith) (omega arith) (omega arith)
        ∙ ap (λ t. if t then x else mem (place size i)) (==_refl (place size i)))
      (load-store size mem' (i + 1) bs (omega arith) (omega arith))

pub load-store_other :
    (size : ℕ) (mem : Bytes) (i : ℕ) (bs : List ℕ) (h n : ℕ)
    → h + n ≤ i
    → i + length bs ≤ h + size
    → i + length bs ≤ 2 * size
    → load size (store size mem i bs) h n ≡ load size mem h n
unfolding load
load-store_other size mem i bs h zero a b c = refl
load-store_other size mem i bs h (suc n) a b c =
    ap₂ ◌∷◌ (store-other size mem i bs h (omega arith) b c)
      (load-store_other size mem i bs (h + 1) n (omega arith) (omega arith) c)

-- The second map shows the bytes of the first.
pub load_wrap :
    (size : ℕ) (mem : Bytes) (h n : ℕ)
    → size ≤ h
    → h + n ≤ 2 * size
    → load size mem h n ≡ load size mem (h - size) n
unfolding load
load_wrap size mem h zero a b = refl
load_wrap size mem h (suc n) a b = ap₂ ◌∷◌ (ap mem (ground arith)) (
    load_wrap size mem (h + 1) n (omega arith) (omega arith)
    ∙ ap (λ k. load size mem k n) {x = h + 1 - size} {y = h - size + 1} (omega arith))

decode-encode : (n : ℕ) → n < 2 ^ 64 → decode (encode 8 n) ≡ n
unfolding decode encode
decode-encode n h = omega arith

pub decode_len : (len seq : ℕ) → len < 2 ^ 64 → decode (take 8 (message len seq)) ≡ len
unfolding message encode
decode_len len seq h = decode-encode len h

pub decode_seq : (len seq : ℕ) → seq < 2 ^ 64 → decode (drop 8 (message len seq)) ≡ seq
unfolding message encode
decode_seq len seq h = decode-encode seq h

pub length-message : (len seq : ℕ) → length (message len seq) ≡ 16
unfolding message encode
length-message len seq = refl

pub copy_in-store :
    (size : ℕ) (mem : Bytes) (i : ℕ) (bs : List ℕ)
    → i + length bs ≤ 2 * size
    → copy_in size mem i bs ≡ done (store size mem i bs)
unfolding copy_in
copy_in-store size mem i bs h = rw (le→leb (i + length bs) (2 * size) h) refl

pub copy_out-load :
    (size : ℕ) (mem : Bytes) (i n : ℕ)
    → i + n ≤ 2 * size
    → copy_out size mem i n ≡ done (load size mem i n)
unfolding copy_out
copy_out-load size mem i n h = rw (le→leb (i + n) (2 * size) h) refl
