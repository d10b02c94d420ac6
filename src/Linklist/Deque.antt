-- ===== src/Linklist/Deque.antt =====
-- The list of src/ty_linklist.c as a queue with two ends: any calls in a row.
use tyto_h.Base.{ℕ, ◌-◌, ◌^◌, ◌≤◌, ◌<◌, ◌≡◌, refl, sym, ap, ◌∙◌, ◌≢◌, inl, inr, true}
use tyto_h.Base.{Option, some, List, [], ◌∷◌, ◌++◌, arith, ◌>>=◌, ◌==◌, Option-cases}
use tyto_h.Base.{Outcome, length, length-append, done}
use tyto_h.Linklist.{Heap, Node, TyList}
use tyto_h.Linklist.{lpush, rpush, lpop, rpop}
use tyto_h.Linklist.Chain.{last_of, NotIn, last_of-append, Ends, ends}
use tyto_h.Linklist.Ends.{Linked, datum, Keeps, Leaves, Keeps-trans, lpush-Leaves, lpop-Leaves}
use tyto_h.Linklist.Back.{rpush-Leaves, rpop-Leaves}
use mathlib.Core.Option.{none-ne-some}
use mathlib.Core.Path.{subst₂}

pub data Call : Type 0 where
  push_front push_back : ℕ → Call
  pop_front pop_back : Call

unfoldable pub call : Call → Heap → TyList → Outcome (Heap × TyList × ℕ)
call (push_front node) h l = lpush h l node
call (push_back node) h l = rpush h l node
call pop_front h l = lpop h l
call pop_back h l = rpop h l

-- The calls in a row: the heap, the list, and the nodes that are returned.
unfoldable pub calls : List Call → Heap → TyList → Outcome (Heap × TyList × List ℕ)
calls [] h l = done (h, l, [])
calls (c ∷ cs) h l = call c h l >>= (λ r. calls cs r.0 r.1 >>= (λ s. done (s.0, s.1, r.2 ∷ s.2)))

-- The specification, on the list of pointers: what stays, and the pointer that is returned.
unfoldable pub all_but_last : List ℕ → List ℕ
all_but_last [] = []
all_but_last (a ∷ []) = []
all_but_last (a ∷ b ∷ ps) = a ∷ all_but_last (b ∷ ps)

unfoldable pub deque : Call → List ℕ → List ℕ × ℕ
deque (push_front a) ps = (a ∷ ps, a)
deque (push_back a) ps = (ps ++ a ∷ [], a)
deque pop_front [] = ([], 0)
deque pop_front (a ∷ ps) = (ps, a)
deque pop_back ps = (all_but_last ps, last_of 0 ps)

unfoldable pub deque_calls : List Call → List ℕ → List ℕ × List ℕ
deque_calls [] ps = (ps, [])
deque_calls (c ∷ cs) ps = let r = deque c ps in let s = deque_calls cs r.0 in (s.0, r.1 ∷ s.1)

-- A push is of a node that stands on the heap and is not in the list, and finds room for its
-- count in an `unsigned int`.
unfoldable pub Pushable : (data_at : ℕ → Option ℕ) → ℕ → List ℕ → Type 0
Pushable data_at a ps =
    (a ≢ 0) × (((x : ℕ) × (data_at a ≡ some x)) × (NotIn a ps × (length ps < 2 ^ 32 - 1)))

unfoldable pub Allowed : (data_at : ℕ → Option ℕ) → Call → List ℕ → Type 0
Allowed data_at (push_front a) ps = Pushable data_at a ps
Allowed data_at (push_back a) ps = Pushable data_at a ps
Allowed data_at pop_front ps = Unit
Allowed data_at pop_back ps = Unit

unfoldable pub AllAllowed : (data_at : ℕ → Option ℕ) → List Call → List ℕ → Type 0
AllAllowed data_at [] ps = Unit
AllAllowed data_at (c ∷ cs) ps = Allowed data_at c ps × AllAllowed data_at cs (deque c ps).0

node_at : (h : Heap) (a x : ℕ) → datum (h a) ≡ some x → (n : Node) × (h a ≡ some n)
unfolding datum
node_at h a x e = elim (Option-cases (h a)) [
  | inr found ↦ found
  | inl missing ↦ absurd (none-ne-some x (sym (ap datum missing) ∙ e))
]

all_but_last-append : (ps : List ℕ) (b : ℕ) → all_but_last (ps ++ b ∷ []) ≡ ps
unfolding all_but_last
all_but_last-append [] b = refl
all_but_last-append (a ∷ []) b = refl
all_but_last-append (a ∷ c ∷ ps) b = ap (λ qs. a ∷ qs) (all_but_last-append (c ∷ ps) b)

-- A pop of an empty list changes nothing.
lpop_empty : (h : Heap) (l : TyList) → Linked h l [] → Leaves h l (lpop h l) [] 0
unfolding lpop
lpop_empty h l k =
    let none_left : (l.len == 0) ≡ true = ground (arith, k.len) in
    record {
      heap = h;
      list = l;
      runs = rw none_left refl;
      linked = k;
      keeps = λ q. refl;
      matching = refl;
    }

rpop_empty : (h : Heap) (l : TyList) → Linked h l [] → Leaves h l (rpop h l) [] 0
unfolding rpop
rpop_empty h l k =
    let none_left : (l.len == 0) ≡ true = ground (arith, k.len) in
    record {
      heap = h;
      list = l;
      runs = rw none_left refl;
      linked = k;
      keeps = λ q. refl;
      matching = refl;
    }

pop_back-Leaves :
    (h : Heap) (l : TyList) (ps : List ℕ)
    → Linked h l ps
    → length ps < 2 ^ 32
    → Leaves h l (rpop h l) (all_but_last ps) (last_of 0 ps)
unfolding all_but_last last_of
pop_back-Leaves h l ps k lim = by_ends (ends ps) k lim
  where
    by_ends :
        {qs : List ℕ}
        → Ends qs
        → Linked h l qs
        → length qs < 2 ^ 32
        → Leaves h l (rpop h l) (all_but_last qs) (last_of 0 qs)
    by_ends Ends.empty k lim = rpop_empty h l k
    by_ends (Ends.last qs b) k lim =
        subst₂ (λ ps p. Leaves h l (rpop h l) ps p) (sym (all_but_last-append qs b))
          (sym (last_of-append 0 qs b))
          (rpop-Leaves h l qs b k (omega (arith, length-append qs (b ∷ []))))

-- One call.
call-Leaves :
    (data_at : ℕ → Option ℕ) (c : Call) (h : Heap) (l : TyList) (ps : List ℕ)
    → ((q : ℕ) → datum (h q) ≡ data_at q)
    → Linked h l ps
    → length ps < 2 ^ 32
    → Allowed data_at c ps
    → Leaves h l (call c h l) (deque c ps).0 (deque c ps).1
unfolding call deque Allowed Pushable
call-Leaves data_at (push_front a) h l ps same k lim (ne, ((x, e), (out, room))) =
    let n = node_at h a x (same a ∙ e) in lpush-Leaves h l ps a n.0 k ne n.1 out room
call-Leaves data_at (push_back a) h l ps same k lim (ne, ((x, e), (out, room))) =
    let n = node_at h a x (same a ∙ e) in rpush-Leaves h l ps a n.0 k ne n.1 out room
call-Leaves data_at pop_front h l [] same k lim ok = lpop_empty h l k
call-Leaves data_at pop_front h l (a ∷ ps) same k lim ok = lpop-Leaves h l a ps k (omega arith)
call-Leaves data_at pop_back h l ps same k lim ok = pop_back-Leaves h l ps k lim

length-all_but_last : (ps : List ℕ) → length (all_but_last ps) ≤ length ps
unfolding all_but_last
length-all_but_last [] = omega arith
length-all_but_last (a ∷ []) = omega arith
length-all_but_last (a ∷ b ∷ ps) = omega (arith, length-all_but_last (b ∷ ps))

length-deque :
    (data_at : ℕ → Option ℕ) (c : Call) (ps : List ℕ)
    → length ps < 2 ^ 32
    → Allowed data_at c ps
    → length (deque c ps).0 < 2 ^ 32
unfolding deque Allowed Pushable
length-deque data_at (push_front a) ps lim ok = omega (arith, ok.1.1.1)
length-deque data_at (push_back a) ps lim ok = omega (arith, ok.1.1.1, length-append ps (a ∷ []))
length-deque data_at pop_front [] lim ok = omega arith
length-deque data_at pop_front (a ∷ ps) lim ok = omega arith
length-deque data_at pop_back ps lim ok = omega (arith, length-all_but_last ps)

-- The state that is left by calls in a row.
pub record AllLeave (h : Heap) (l : TyList) (o : Outcome (Heap × TyList × List ℕ))
    (ps answers : List ℕ) : Type 0 where
  pub heap : Heap
  pub list : TyList
  pub runs : o ≡ done (heap, list, answers)
  pub linked : Linked heap list ps
  pub keeps : Keeps h heap
  pub matching : list.match_fn ≡ l.match_fn
  pub limited : length ps < 2 ^ 32

pub calls-AllLeave :
    (data_at : ℕ → Option ℕ) (cs : List Call) (h : Heap) (l : TyList) (ps : List ℕ)
    → ((q : ℕ) → datum (h q) ≡ data_at q)
    → Linked h l ps
    → length ps < 2 ^ 32
    → AllAllowed data_at cs ps
    → AllLeave h l (calls cs h l) (deque_calls cs ps).0 (deque_calls cs ps).1
unfolding calls deque_calls AllAllowed
calls-AllLeave data_at [] h l ps same k lim ok = record {
  heap = h;
  list = l;
  runs = refl;
  linked = k;
  keeps = λ q. refl;
  matching = refl;
  limited = lim;
}
calls-AllLeave data_at (c ∷ cs) h l ps same k lim ok =
    let r = call-Leaves data_at c h l ps same k lim ok.0 in
    let s =
      calls-AllLeave data_at cs r.heap r.list (deque c ps).0 (λ q. r.keeps q ∙ same q) r.linked
        (length-deque data_at c ps lim ok.0) ok.1 in
    record {
      heap = s.heap;
      list = s.list;
      runs = rw (r.runs, s.runs) refl;
      linked = s.linked;
      keeps = Keeps-trans h r.heap s.heap r.keeps s.keeps;
      matching = s.matching ∙ r.matching;
      limited = s.limited;
    }
