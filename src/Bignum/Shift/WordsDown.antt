-- ===== src/Bignum/Shift/WordsDown.antt =====
-- `shr_word` divides by a power of 2^32.
use tyto_h.Base.{ℕ, zero, suc, ◌+◌, ◌-◌, ◌*◌, ◌/◌, ◌^◌, ◌<◌, ◌≤◌, ◌≡◌, refl, ap, sym, ◌∙◌}
use tyto_h.Base.{List, [], ◌∷◌, ◌++◌, length, get_or, set, drop, replicate, length-set, get_or_ext}
use tyto_h.Base.{get_or-set_self, get_or-set_ne, get_or-drop, get_or_beyond}
use tyto_h.Base.{length-append, length-replicate, length-drop, get_or-replicate, arith}
use tyto_h.Base.{leb, ltb, ◌&&◌, if◌then◌else◌}
use Prim.Native.Nat.{min}
use tyto_h.Bignum.{Bn, array_size}
use tyto_h.Bignum.Value.{base, val, IsBn, val-replicate, replicate-IsWords}
use tyto_h.Bignum.Value.Split.{val-append, val-drop, append-IsWords, drop-IsWords}
use tyto_h.Bignum.Shift.{copy_down, clear_from, shr_word}

length-copy_down : (n left i : ℕ) (a : Bn) → length (copy_down n left i a) ≡ length a
unfolding copy_down
length-copy_down n zero i a = refl
length-copy_down n (suc left) i a =
    length-copy_down n left (i + 1) _ ∙ length-set a i (get_or a (i + n) 0)

length-clear_from : (left i : ℕ) (a : Bn) → length (clear_from left i a) ≡ length a
unfolding clear_from
length-clear_from zero i a = refl
length-clear_from (suc left) i a = length-clear_from left (i + 1) _ ∙ length-set a i 0

-- Going up, the loop reads only words that it has not written.
get_or-copy_down :
    (n left i j : ℕ) (a : Bn)
    → i + left ≤ length a
    → get_or (copy_down n left i a) j 0
      ≡ (if leb i j && ltb j (i + left) then get_or a (j + n) 0 else get_or a j 0)
unfolding copy_down
get_or-copy_down n zero i j a h = ground arith
get_or-copy_down n (suc left) i j a h = ground (
  arith,
  get_or-copy_down n left (i + 1) j (set a i (get_or a (i + n) 0)) (rw length-set (omega arith)),
  get_or-set_ne a i j (get_or a (i + n) 0) 0,
  get_or-set_ne a i (j + n) (get_or a (i + n) 0) 0,
  get_or-set_self a i (get_or a (i + n) 0) 0,
)

get_or-clear_from :
    (left i j : ℕ) (a : Bn)
    → i + left ≤ length a
    → get_or (clear_from left i a) j 0 ≡ (if leb i j && ltb j (i + left) then 0 else get_or a j 0)
unfolding clear_from
get_or-clear_from zero i j a h = ground arith
get_or-clear_from (suc left) i j a h = ground (
  arith,
  get_or-clear_from left (i + 1) j (set a i 0) (rw length-set (omega arith)),
  get_or-set_ne a i j 0 0,
  get_or-set_self a i 0 0,
)

get_or-append_zeros : (k j : ℕ) (xs : List ℕ) → get_or (xs ++ replicate k 0) j 0 ≡ get_or xs j 0
get_or-append_zeros k j [] = get_or-replicate k j 0
get_or-append_zeros k zero (x ∷ xs) = refl
get_or-append_zeros k (suc j) (x ∷ xs) = get_or-append_zeros k j xs

get_or-shr_word :
    (a : Bn) (n j : ℕ)
    → length a ≡ array_size
    → j < array_size
    → get_or (shr_word a n) j 0 ≡ get_or a (j + n) 0
unfolding shr_word
get_or-shr_word a n j e h = ground (
  arith,
  get_or-clear_from array_size 0 j a,
  get_or-clear_from n (array_size - n) j (copy_down n (array_size - n) 0 a),
  get_or-copy_down n (array_size - n) 0 j a,
  length-copy_down n (array_size - n) 0 a,
  get_or_beyond a (j + n) 0,
)

length-shr_word : (a : Bn) (n : ℕ) → length (shr_word a n) ≡ length a
unfolding shr_word
length-shr_word a n = ground (
  arith,
  length-clear_from array_size 0 a,
  length-clear_from n (array_size - n) (copy_down n (array_size - n) 0 a),
  length-copy_down n (array_size - n) 0 a,
)

shr_word-drop :
    (a : Bn) (n : ℕ)
    → length a ≡ array_size
    → shr_word a n ≡ drop n a ++ replicate (min n array_size) 0
shr_word-drop a n e =
    get_or_ext 0 (shr_word a n) (drop n a ++ replicate (min n array_size) 0)
      (omega (
        arith,
        length-shr_word a n,
        length-append (drop n a) (replicate (min n array_size) 0),
        length-drop n a,
        length-replicate {A = ℕ} (min n array_size) 0,
      ))
      λ j lt.
        get_or-shr_word a n j e (omega (arith, length-shr_word a n))
        ∙ sym (get_or-append_zeros (min n array_size) j (drop n a) ∙ get_or-drop a n j 0)

-- `shr_word` divides a number by a power of 2^32.
pub val-shr_word :
    {a : Bn} (n : ℕ) → IsBn a → IsBn (shr_word a n) × (val (shr_word a n) ≡ val a / base ^ n)
val-shr_word {a} n v = (
  record {
    size = length-shr_word a n ∙ v.size;
    words = rw (shr_word-drop a n v.size) (
        append-IsWords (drop n a) (replicate k 0) (drop-IsWords n a v.words) (replicate-IsWords k));
  },
  rw (shr_word-drop a n v.size) (
      val-append (drop n a) (replicate k 0)
      ∙ omega (
        arith,
        val-drop n a v.words,
        ap (λ (t : ℕ). base ^ length (drop n a) * t) (val-replicate k),
      )),
)
  where
    k : ℕ
    k = min n array_size
