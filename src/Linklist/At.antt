-- ===== src/Linklist/At.antt =====
-- `ty_list_at` of src/ty_linklist.c answers the pointer at a place.
use tyto_h.Base.{ℕ, zero, suc, ◌+◌, ◌-◌, ◌≤◌, ◌<◌, ◌≡◌, refl, ap, ◌∙◌, true, List, []}
use tyto_h.Base.{◌∷◌, arith, ◌>>=◌, if◌then◌else◌, ltb, lt→ltb, le→ltb, ne→==, Outcome}
use tyto_h.Base.{length, get_or, get_or_beyond, ℤ, done, pos, negsuc}
use mathlib.Core.Path.{subst}
use native.Mathlib.Decide.{dec_lt}
use tyto_h.Linklist.{
  Heap, TyList, Iter, Direction, head_first, tail_first, iter_next, iter_new, iter_new_from_node,
  at_loop, at_from, list_at,
}
use tyto_h.Linklist.Remove.{fetch-some}
use tyto_h.Linklist.Chain.{head_of, last_of, Links, Chain}
use tyto_h.Linklist.Ends.{Linked}

-- The pointer before a place.
unfoldable pub before : List ℕ → (back j : ℕ) → ℕ
before ps back zero = back
before ps back (suc j) = get_or ps j 0

head_of-get_or : (ps : List ℕ) (next : ℕ) → head_of ps next ≡ get_or ps 0 next
unfolding head_of
head_of-get_or [] next = refl
head_of-get_or (a ∷ ps) next = refl

get_or_default : (xs : List ℕ) (i d e : ℕ) → i < length xs → get_or xs i d ≡ get_or xs i e
get_or_default [] i d e h = absurd (omega arith)
get_or_default (x ∷ xs) zero d e h = refl
get_or_default (x ∷ xs) (suc i) d e h = get_or_default xs i d e (omega arith)

last_of-get_or : (ps : List ℕ) (back : ℕ) → last_of back ps ≡ get_or ps (length ps - 1) back
unfolding last_of
last_of-get_or [] back = refl
last_of-get_or (a ∷ []) back = refl
last_of-get_or (a ∷ b ∷ ps) back =
    last_of-get_or (b ∷ ps) a
    ∙ ap (λ i. get_or (b ∷ ps) i a) {x = length (b ∷ ps) - 1} {y = length ps} (omega arith)
    ∙ get_or_default (b ∷ ps) (length ps) a back (omega arith)
    ∙ ap (λ i. get_or (a ∷ b ∷ ps) i back) {x = suc (length ps)} {y = length (a ∷ b ∷ ps) - 1}
        (omega arith)

-- A node of a chain leads to its neighbours.
Chain-Links :
    (h : Heap) (back : ℕ) (ps : List ℕ) (next j : ℕ)
    → Chain h back ps next
    → j < length ps
    → Links h (get_or ps j 0) (before ps back j) (get_or ps (suc j) next)
unfolding Chain before
Chain-Links h back [] next j c lt = absurd (omega arith)
Chain-Links h back (a ∷ ps) next zero c lt =
    subst (λ q. Links h a back q) (head_of-get_or ps next) c.0
Chain-Links h back (a ∷ ps) next (suc zero) c lt = Chain-Links h a ps next zero c.1 (omega arith)
Chain-Links h back (a ∷ ps) next (suc (suc j)) c lt =
    Chain-Links h a ps next (suc j) c.1 (omega arith)

-- One step of an iterator at a node.
step_at :
    (h : Heap) (a back after : ℕ) (d : Direction)
    → Links h a back after
    → iter_next h (record { at = a; direction = d })
      ≡ done (record { at = elim d [ head_first ↦ after | tail_first ↦ back ]; direction = d }, a)
unfolding iter_next
step_at h a back after head_first k =
    rw (ne→== a 0 k.real, fetch-some h a k.node k.real k.stands, k.next) refl
step_at h a back after tail_first k =
    rw (ne→== a 0 k.real, fetch-some h a k.node k.real k.stands, k.prev) refl

-- The walk of `ty_list_at` once the index is known to be in range.
abbrev walk : Heap → Iter → ℕ → Outcome ℕ
walk h it idx = iter_next h it >>= (λ r. at_loop idx h r.0 r.1)

walk-forward :
    (h : Heap) (ps : List ℕ) (idx j : ℕ)
    → Chain h 0 ps 0
    → j + idx < length ps
    → walk h (record { at = get_or ps j 0; direction = head_first }) idx
      ≡ done (get_or ps (j + idx) 0)
unfolding at_loop
walk-forward h ps zero j c lt =
    rw
      (step_at h (get_or ps j 0) (before ps 0 j) (get_or ps (suc j) 0) head_first
        (Chain-Links h 0 ps 0 j c (omega arith)))
      (ap (λ k. done (get_or ps k 0)) {x = j} {y = j + 0} (omega arith))
walk-forward h ps (suc idx) j c lt =
    rw
      (step_at h (get_or ps j 0) (before ps 0 j) (get_or ps (suc j) 0) head_first
        (Chain-Links h 0 ps 0 j c (omega arith)))
      (walk-forward h ps idx (suc j) c (omega arith)
        ∙ ap (λ k. done (get_or ps k 0)) {x = suc j + idx} {y = j + suc idx} (omega arith))

walk-backward :
    (h : Heap) (ps : List ℕ) (idx j : ℕ)
    → Chain h 0 ps 0
    → j < length ps
    → idx ≤ j
    → walk h (record { at = get_or ps j 0; direction = tail_first }) idx
      ≡ done (get_or ps (j - idx) 0)
unfolding at_loop before
walk-backward h ps zero j c lt le =
    rw
      (step_at h (get_or ps j 0) (before ps 0 j) (get_or ps (suc j) 0) tail_first
        (Chain-Links h 0 ps 0 j c lt))
      (ap (λ k. done (get_or ps k 0)) {x = j} {y = j - 0} (omega arith))
walk-backward h ps (suc idx) zero c lt le = absurd (omega arith)
walk-backward h ps (suc idx) (suc j) c lt le =
    rw
      (step_at h (get_or ps (suc j) 0) (get_or ps j 0) (get_or ps (suc (suc j)) 0) tail_first
        (Chain-Links h 0 ps 0 (suc j) c lt))
      (walk-backward h ps idx j c (omega arith) (omega arith)
        ∙ ap (λ k. done (get_or ps k 0)) {x = j - idx} {y = suc j - suc idx} (omega arith))

-- The pointer that an index stands for: a negative one counts from the end, and 0 is the
-- answer where there is none.
unfoldable pub pointer_at : List ℕ → ℤ → ℕ
pointer_at ps (pos k) = get_or ps k 0
pointer_at ps (negsuc k) = if ltb k (length ps) then get_or ps (length ps - 1 - k) 0 else 0

pub list_at-pointer_at :
    (h : Heap) (l : TyList) (ps : List ℕ) (i : ℤ)
    → Linked h l ps
    → list_at true h l i ≡ done (pointer_at ps i)
unfolding list_at at_from iter_new iter_new_from_node pointer_at
list_at-pointer_at h l ps (pos k) linked = elim (dec_lt k (length ps)) [
  | no ge ↦
      rw (linked.len, le→ltb k (length ps) (omega arith), get_or_beyond ps k 0 (omega arith)) refl
  | yes lt ↦
      rw (linked.len, lt→ltb k (length ps) lt, linked.head, head_of-get_or ps 0)
        (walk-forward h ps k 0 linked.chain (omega arith)
          ∙ ap (λ j. done (get_or ps j 0)) {x = 0 + k} {y = k} (omega arith))
]
list_at-pointer_at h l ps (negsuc k) linked = elim (dec_lt k (length ps)) [
  | no ge ↦ rw (linked.len, le→ltb k (length ps) (omega arith)) refl
  | yes lt ↦
      rw (linked.len, lt→ltb k (length ps) lt, linked.tail, last_of-get_or ps 0)
        (walk-backward h ps k (length ps - 1) linked.chain (omega arith) (omega arith))
]
