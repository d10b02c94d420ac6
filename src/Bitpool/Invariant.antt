-- ===== src/Bitpool/Invariant.antt =====
-- The two levels of the pool of includes/ty_bitpool.h agree, and the operations keep it so.
use tyto_h.Base.{ℕ, zero, suc, ◌-◌, ◌/◌, ◌%◌, ◌^◌, ◌<◌, bit_and, bit_or, ◌≡◌, refl, sym}
use tyto_h.Base.{ap, ◌∙◌, ◌≢◌, ◌↔◌, inl, inr, false, List, [], ◌∷◌, arith, ◌==◌}
use tyto_h.Base.{if◌then◌else◌, Bool-cases, bit_or-lt, length, get_or, set, length-set}
use tyto_h.Base.{get_or-set_self, get_or-set_ne, get_elem?-eq-get_or, done}
use tyto_h.Bitpool.{Pool, l0_count, l1_count, flip, mark_full}
use tyto_h.Bitpool.Bits.{
  bit, bit_lt, bit-bit_or, bit-bit_and, bit-pow_self, bit-pow_other, bit-flip,
}
use tyto_h.Bitpool.Bits.{full_of_bits, bits_of_full}
use native.Mathlib.Nat.{pow-le-pow_right, pow-suc}

-- The bit of a slot, in the word that holds it.
abbrev pub slot_bit : Pool → ℕ → ℕ
slot_bit bp index = bit (get_or bp.l0 (index / 64) 0) (index % 64)

-- The bit for a word of `l0`.
abbrev pub full_bit : Pool → ℕ → ℕ
full_bit bp i = bit (get_or bp.l1 (i / 64) 0) (i % 64)

-- The arrays have the sizes for `n` slots, of words of 64 bits, and a bit of `l1` is set
-- exactly where its word of `l0` is full.
pub record IsPool (n : ℕ) (bp : Pool) : Type 0 where
  pub size0 : length bp.l0 ≡ l0_count n
  pub size1 : length bp.l1 ≡ l1_count n
  pub words0 : (i : ℕ) → get_or bp.l0 i 0 < 2 ^ 64
  pub words1 : (i : ℕ) → get_or bp.l1 i 0 < 2 ^ 64
  pub full : (i : ℕ) → i < l0_count n → (full_bit bp i ≡ 1) ↔ (get_or bp.l0 i 0 ≡ 2 ^ 64 - 1)

pub pow_word : (s : ℕ) → s < 64 → 2 ^ s < 2 ^ 64
pow_word s h =
    omega (
      arith,
      pow-le-pow_right {n = 2} (omega arith) {i = suc s} {j = 64} (omega arith),
      pow-suc 2 s,
    )

pub words_set :
    (xs : List ℕ) (i v : ℕ)
    → v < 2 ^ 64
    → ((j : ℕ) → get_or xs j 0 < 2 ^ 64)
    → (j : ℕ) → get_or (set xs i v) j 0 < 2 ^ 64
words_set [] i v h f j = f j
words_set (x ∷ xs) zero v h f zero = h
words_set (x ∷ xs) zero v h f (suc j) = f (suc j)
words_set (x ∷ xs) (suc i) v h f zero = f 0
words_set (x ∷ xs) (suc i) v h f (suc j) = words_set xs i v h (λ k. f (suc k)) j

bit-pow : (s k : ℕ) → bit (2 ^ s) k ≡ (if k == s then 1 else 0)
bit-pow s k = elim (Bool-cases (k == s)) [
  | inl t ↦ rw t (ap (bit (2 ^ s)) {x = k} {y = s} (ground arith) ∙ bit-pow_self s)
  | inr f ↦ rw f (bit-pow_other s k (λ e. absurd (ground arith)))
]

-- A bit that is set in a word.
pub bit-set : (w s k : ℕ) → bit (bit_or w (2 ^ s)) k ≡ (if k == s then 1 else bit w k)
bit-set w s k = ground (arith, bit-bit_or w (2 ^ s) k, bit-pow s k, bit_lt w k)

-- A bit that is cleared.
pub bit_clear :
    (w s k : ℕ)
    → s < 64
    → k < 64
    → bit (bit_and w (flip (2 ^ s))) k ≡ (if k == s then 0 else bit w k)
bit_clear w s k hs hk = ground (
  arith,
  bit-bit_and w (flip (2 ^ s)) k,
  bit-flip (2 ^ s) k (pow_word s hs) hk,
  bit-pow s k,
  bit_lt w k,
)

-- What `BIT_POOL_SET_1` does: it sets the bit of the slot, and no other.
pub record Sets (n : ℕ) (bp bp' : Pool) (index v : ℕ) : Type 0 where
  pub pool : IsPool n bp'
  pub self : slot_bit bp' index ≡ v
  pub others : (j : ℕ) → j < n → j ≢ index → slot_bit bp' j ≡ slot_bit bp j

same_rest : (j i : ℕ) → j / 64 ≡ i / 64 → (j % 64 == i % 64) ≡ (j == i)
same_rest j i e = ground arith

pub slot_bit-set :
    (xs : List ℕ) (index w v j : ℕ)
    → index / 64 < length xs
    → ((k : ℕ)
        → k < 64
        → bit w k ≡ (if k == index % 64 then v else bit (get_or xs (index / 64) 0) k))
    → bit (get_or (set xs (index / 64) w) (j / 64) 0) (j % 64)
      ≡ (if j == index then v else bit (get_or xs (j / 64) 0) (j % 64))
slot_bit-set xs index w v j inside h = elim (Bool-cases (j / 64 == index / 64)) [
  | inr f ↦
      let ne : (j == index) ≡ false = ground arith in
      rw ne (
        ap (λ t. bit t (j % 64))
          (get_or-set_ne xs (index / 64) (j / 64) w 0 (λ e. absurd (ground arith))))
  | inl t ↦
      let same : j / 64 ≡ index / 64 = ground arith in
      rw (same, get_or-set_self xs (index / 64) w 0 inside)
        (h (j % 64) (omega arith)
          ∙ ap (λ c. if c then v else bit (get_or xs (index / 64) 0) (j % 64))
              (same_rest j index same))
]

-- A word of `l0` changes, and the bit for it in `l1` with it.
pub bucket-IsPool :
    (n : ℕ) (bp : Pool) (l1 : List ℕ) (b w f : ℕ)
    → IsPool n bp
    → b < l0_count n
    → w < 2 ^ 64
    → length l1 ≡ l1_count n
    → ((i : ℕ) → get_or l1 i 0 < 2 ^ 64)
    → ((i : ℕ) → bit (get_or l1 (i / 64) 0) (i % 64) ≡ (if i == b then f else full_bit bp i))
    → (f ≡ 1) ↔ (w ≡ 2 ^ 64 - 1)
    → IsPool n (record { l1 = l1; l0 = set bp.l0 b w })
bucket-IsPool n bp l1 b w f p hb hw len1 words bits tells = record {
  size0 = length-set bp.l0 b w ∙ p.size0;
  size1 = len1;
  words0 = words_set bp.l0 b w hw p.words0;
  words1 = words;
  full = λ i lt. elim (Bool-cases (i == b)) [
    | inl t ↦
        let same : i ≡ b = ground arith in
        let now : bit (get_or l1 (i / 64) 0) (i % 64) ≡ f = bits i ∙ rw t refl in
        let new : get_or (set bp.l0 b w) i 0 ≡ w =
          ap (λ k. get_or (set bp.l0 b w) k 0) same
          ∙ get_or-set_self bp.l0 b w 0 (omega (arith, p.size0)) in
        ((λ e. new ∙ tells.0 (sym now ∙ e)), (λ e. now ∙ tells.1 (sym new ∙ e)))
    | inr f' ↦
        let ne : b ≢ i = λ e. absurd (ground arith) in
        let now : bit (get_or l1 (i / 64) 0) (i % 64) ≡ full_bit bp i = bits i ∙ rw f' refl in
        let new : get_or (set bp.l0 b w) i 0 ≡ get_or bp.l0 i 0 = get_or-set_ne bp.l0 b i w 0 ne in
        ((λ e. new ∙ (p.full i lt).0 (sym now ∙ e)), (λ e. now ∙ (p.full i lt).1 (sym new ∙ e)))
  ];
}

-- The bucket with the bit set is full where it was full before.
stays_full : (w s : ℕ) → w < 2 ^ 64 → s < 64 → w ≡ 2 ^ 64 - 1 → bit_or w (2 ^ s) ≡ 2 ^ 64 - 1
stays_full w s h hs e =
    full_of_bits (bit_or w (2 ^ s)) (bit_or-lt 64 w (2 ^ s) h (pow_word s hs))
      (λ k lt. ground (arith, bit-set w s k, bits_of_full w k e lt))

same_full :
    (bp : Pool) (i b : ℕ) → full_bit bp i ≡ (if i == b then full_bit bp b else full_bit bp i)
same_full bp i b = elim (Bool-cases (i == b)) [
  | inl t ↦ rw t (ap (full_bit bp) {x = i} {y = b} (ground arith))
  | inr f ↦ rw f refl
]

pub mark_full-IsPool :
    (n : ℕ) (bp : Pool) (b s : ℕ)
    → IsPool n bp
    → b < l0_count n
    → s < 64
    → let w = bit_or (get_or bp.l0 b 0) (2 ^ s) in
      (bp' : Pool) × ((mark_full bp b w ≡ done bp')
        × ((bp'.l0 ≡ bp.l0) × IsPool n (record bp' { l0 = set bp'.l0 b w })))
unfolding mark_full l0_count l1_count
mark_full-IsPool n bp b s p hb hs =
    let w = bit_or (get_or bp.l0 b 0) (2 ^ s) in
    let small : w < 2 ^ 64 = bit_or-lt 64 (get_or bp.l0 b 0) (2 ^ s) (p.words0 b) (pow_word s hs) in
    elim (Bool-cases (w == 2 ^ 64 - 1)) [
      | inr f ↦ rw f (
        bp,
        (
          refl,
          (
            refl,
            bucket-IsPool n bp bp.l1 b w (full_bit bp b) p hb small p.size1 p.words1
                (λ i. same_full bp i b)
                (
                  (λ e. absurd (
                      ground (
                        arith,
                        stays_full (get_or bp.l0 b 0) s (p.words0 b) hs ((p.full b hb).0 e),
                      ))),
                  (λ e. absurd (ground arith)),
                ),
          ),
        ),
      )
      | inl t ↦
          let inside : b / 64 < length bp.l1 = omega (arith, p.size1) in
          let w1 = bit_or (get_or bp.l1 (b / 64) 0) (2 ^ (b % 64)) in
          rw (t, get_elem?-eq-get_or bp.l1 (b / 64) 0 inside)
            (
              record bp { l1 = set bp.l1 (b / 64) w1 },
              (
                refl,
                (
                  refl,
                  bucket-IsPool n bp (set bp.l1 (b / 64) w1) b w 1 p hb small
                      (length-set bp.l1 (b / 64) w1 ∙ p.size1)
                      (words_set bp.l1 (b / 64) w1
                        (bit_or-lt 64 (get_or bp.l1 (b / 64) 0) (2 ^ (b % 64)) (p.words1 (b / 64))
                          (pow_word (b % 64) (omega arith)))
                        p.words1)
                      (λ i.
                        slot_bit-set bp.l1 b w1 1 i inside
                          (λ k lt. bit-set (get_or bp.l1 (b / 64) 0) (b % 64) k))
                      ((λ e. ground arith), (λ e. refl)),
                ),
              ),
            )
    ]
