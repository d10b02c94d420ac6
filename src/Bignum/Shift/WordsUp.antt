-- ===== src/Bignum/Shift/WordsUp.antt =====
-- `shl_word` multiplies by a power of 2^32.
use tyto_h.Base.{ℕ, zero, suc, ◌-◌, ◌*◌, ◌%◌, ◌^◌, ◌<◌, ◌≤◌, ◌≡◌, refl, ap, sym, ◌∙◌}
use tyto_h.Base.{List, ◌++◌, length, get_or, set, take, replicate, length-set, get_or_ext}
use tyto_h.Base.{get_or-set_self, get_or-set_ne, get_or-take, length-take}
use tyto_h.Base.{length-append, length-replicate, arith}
use tyto_h.Base.{leb, le→leb, if◌then◌else◌}
use native.Mathlib.Decide.{dec_lt}
use tyto_h.Bignum.{Bn, array_size}
use tyto_h.Bignum.Value.{base, val, IsWords, IsBn, modulus, val-replicate, replicate-IsWords}
use tyto_h.Bignum.Value.Split.{val-append, val-take, append-IsWords, take-IsWords}
use tyto_h.Bignum.Shift.{clear_below, copy_up, shl_word}

length-clear_below : (i : ℕ) (a : Bn) → length (clear_below i a) ≡ length a
unfolding clear_below
length-clear_below zero a = refl
length-clear_below (suc i) a = length-clear_below i (set a i 0) ∙ length-set a i 0

get_or-clear_below :
    (i j : ℕ) (a : Bn)
    → i ≤ length a
    → get_or (clear_below i a) j 0 ≡ (if leb i j then get_or a j 0 else 0)
unfolding clear_below
get_or-clear_below zero j a h = rw (le→leb 0 j (omega arith))
get_or-clear_below (suc i) j a h = ground (
  arith,
  get_or-clear_below i j (set a i 0) (rw length-set (omega arith)),
  get_or-set_self a i 0 0,
  get_or-set_ne a i j 0 0,
)

length-copy_up : (n i : ℕ) (a : Bn) → length (copy_up n i a) ≡ length a
unfolding copy_up
length-copy_up n zero a = refl
length-copy_up n (suc i) a = ground (
  arith,
  length-copy_up n i (set a i (get_or a (i - n) 0)),
  length-set a i (get_or a (i - n) 0),
  length-clear_below (suc i) a,
)

copy_up_above :
    (n i j : ℕ) (a : Bn) → i ≤ length a → i ≤ j → get_or (copy_up n i a) j 0 ≡ get_or a j 0
unfolding copy_up
copy_up_above n zero j a h le = refl
copy_up_above n (suc i) j a h le = ground (
  arith,
  copy_up_above n i j (set a i (get_or a (i - n) 0)) (rw length-set (omega arith)),
  get_or-set_ne a i j (get_or a (i - n) 0) 0,
  get_or-clear_below (suc i) j a,
)

copy_up_below :
    (n i j : ℕ) (a : Bn)
    → i ≤ length a
    → j < i
    → get_or (copy_up n i a) j 0 ≡ (if leb n j then get_or a (j - n) 0 else 0)
unfolding copy_up
copy_up_below n zero j a h lt = absurd (omega arith)
copy_up_below n (suc i) j a h lt = elim (dec_lt j i) [
  | yes p ↦ ground (
    arith,
    copy_up_below n i j (set a i (get_or a (i - n) 0)) (rw length-set (omega arith)) p,
    get_or-set_ne a i (j - n) (get_or a (i - n) 0) 0,
    get_or-clear_below (suc i) j a,
  )
  | no p ↦ ground (
    arith,
    copy_up_above n i i (set a i (get_or a (i - n) 0)) (rw length-set (omega arith)),
    get_or-set_self a i (get_or a (i - n) 0) 0,
    get_or-clear_below (suc i) j a,
  )
]

get_or-zeros_append :
    (n j : ℕ) (xs : List ℕ)
    → get_or (replicate n 0 ++ xs) j 0 ≡ (if leb n j then get_or xs (j - n) 0 else 0)
get_or-zeros_append zero j xs = ground arith
get_or-zeros_append (suc n) zero xs = ground arith
get_or-zeros_append (suc n) (suc j) xs = ground (arith, get_or-zeros_append n j xs)

copy_up-take : (n i : ℕ) (a : Bn) → length a ≡ i → copy_up n i a ≡ take i (replicate n 0 ++ a)
copy_up-take n i a e =
    get_or_ext 0 (copy_up n i a) (take i (replicate n 0 ++ a))
      (omega (
        arith,
        length-copy_up n i a,
        length-take i (replicate n 0 ++ a),
        length-append (replicate n 0) a,
      ))
      λ j lt.
        let below : j < i = omega (arith, length-copy_up n i a) in
        copy_up_below n i j a (omega arith) below
        ∙ sym (get_or-take (replicate n 0 ++ a) i j 0 below ∙ get_or-zeros_append n j a)

-- `shl_word` moves a number up by whole words, modulo 2^1024.
pub val-shl_word :
    {a : Bn} (n : ℕ)
    → IsBn a
    → IsBn (shl_word a n) × (val (shl_word a n) ≡ val a * base ^ n % modulus)
unfolding shl_word
val-shl_word {a} n v = rw (copy_up-take n array_size a v.size) (
  record {
    size = omega (arith, length-take array_size padded, length-append (replicate n 0) a);
    words = take-IsWords array_size padded padded_words;
  },
  val-take array_size padded padded_words
      ∙ ap (λ (t : ℕ). t % modulus)
          (val-append (replicate n 0) a
            ∙ omega (
              arith,
              val-replicate n,
              ap (λ (k : ℕ). base ^ k * val a) (length-replicate n (zero)),
            )),
)
  where
    padded : List ℕ
    padded = replicate n 0 ++ a

    padded_words : IsWords padded
    padded_words = append-IsWords (replicate n 0) a (replicate-IsWords n) v.words
