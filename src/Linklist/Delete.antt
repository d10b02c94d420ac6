-- ===== src/Linklist/Delete.antt =====
-- `ty_list_del` of src/ty_linklist.c gives back every node once, in order.
use tyto_h.Base.{ℕ, zero, suc, ◌<◌, ◌≡◌, refl, sym, ap, ◌∙◌, ◌≢◌, Bool, true, false}
use tyto_h.Base.{Option, none, some, List, [], ◌∷◌, map, arith, if◌then◌else◌, ==_refl}
use tyto_h.Base.{ne→==, Outcome, length, get_or, ℤ, done}
use mathlib.Core.Path.{ap₂}
use tyto_h.Linklist.{Heap, Node, TyList, release, del_loop, del, list_at}
use tyto_h.Linklist.Remove.{fetch-some}
use tyto_h.Linklist.Chain.{head_of, NotIn, Distinct, Chain}
use tyto_h.Linklist.Ends.{Linked, datum}
use tyto_h.Linklist.At.{pointer_at, list_at-pointer_at}

release_other : (h : Heap) (a p : ℕ) → p ≢ a → release h a p ≡ h p
unfolding release
release_other h a p ne = rw (ne→== p a ne) refl

release_self : (h : Heap) (a : ℕ) → release h a a ≡ none
unfolding release
release_self h a = rw (==_refl a) refl

-- The nodes of a chain that are not released stay linked.
Chain-release :
    (h : Heap) (a back : ℕ) (ps : List ℕ) (next : ℕ)
    → NotIn a ps
    → Chain h back ps next
    → Chain (release h a) back ps next
unfolding Chain NotIn
Chain-release h a back [] next out c = tt
Chain-release h a back (b ∷ ps) next out c = (
  record {
    real = c.0.real;
    node = c.0.node;
    stands = release_other h a b (λ e. out.0 (sym e)) ∙ c.0.stands;
    prev = c.0.prev;
    next = c.0.next;
  },
  Chain-release h a b ps next out.1 c.1,
)

-- The data of the nodes, in the order of the pointers.
unfoldable pub data_of : Heap → List ℕ → List (Option ℕ)
data_of h [] = []
data_of h (a ∷ ps) = datum (h a) ∷ data_of h ps

data_of-release :
    (h : Heap) (a : ℕ) (ps : List ℕ) → NotIn a ps → data_of (release h a) ps ≡ data_of h ps
unfolding data_of NotIn
data_of-release h a [] out = refl
data_of-release h a (b ∷ ps) out =
    ap₂ (λ o ds. datum o ∷ ds) (release_other h a b (λ e. out.0 (sym e)))
      (data_of-release h a ps out.1)

-- The nodes of the pointers are gone, all others are as they were; and what is freed.
pub record Deleted (h : Heap) (ps : List ℕ) (frees : Bool) (o : Outcome (Heap × List ℕ))
    : Type 0 where
  pub heap : Heap
  pub freed : List ℕ
  pub runs : o ≡ done (heap, freed)
  pub gone : (j : ℕ) → j < length ps → heap (get_or ps j 0) ≡ none
  pub others : (q : ℕ) → NotIn q ps → heap q ≡ h q
  pub told : map some freed ≡ (if frees then data_of h ps else [])

datum-some : (o : Option Node) (n : Node) → o ≡ some n → datum o ≡ some n.val
unfolding datum
datum-some o n e = ap datum e

told_none : (h : Heap) (frees : Bool) → [] ≡ (if frees then data_of h [] else [])
unfolding data_of
told_none h true = refl
told_none h false = refl

told_step :
    (h : Heap) (a : ℕ) (ps : List ℕ) (frees : Bool) (val : ℕ) (freed : List ℕ)
    → map some freed ≡ (if frees then data_of h ps else [])
    → datum (h a) ≡ some val
    → map some (if frees then val ∷ freed else freed) ≡ (if frees then data_of h (a ∷ ps) else [])
unfolding data_of
told_step h a ps true val freed e v = ap₂ (λ o ds. o ∷ ds) (sym v) e
told_step h a ps false val freed e v = e

gone_all :
    (h : Heap) (a : ℕ) (ps : List ℕ)
    → h a ≡ none
    → ((j : ℕ) → j < length ps → h (get_or ps j 0) ≡ none)
    → (j : ℕ) → j < suc (length ps)
    → h (get_or (a ∷ ps) j 0) ≡ none
gone_all h a ps e f zero lt = e
gone_all h a ps e f (suc j) lt = f j (omega arith)

del_loop-Deleted :
    (h : Heap) (back curr : ℕ) (ps : List ℕ) (frees : Bool)
    → Chain h back ps 0
    → Distinct ps
    → curr ≡ head_of ps 0
    → Deleted h ps frees (del_loop (length ps) frees h curr)
unfolding del_loop Chain Distinct NotIn head_of
del_loop-Deleted h back curr [] frees c d e = record {
  heap = h;
  freed = [];
  runs = refl;
  gone = λ j lt. absurd (omega arith);
  others = λ q out. refl;
  told = told_none h frees;
}
del_loop-Deleted h back curr (a ∷ ps) frees c d e =
    let k = c.0 in
    let r =
      del_loop-Deleted (release h a) a k.node.next ps frees (Chain-release h a a ps 0 d.0 c.1) d.1
        k.next in
    record {
      heap = r.heap;
      freed = if frees then k.node.val ∷ r.freed else r.freed;
      runs = rw (e, fetch-some h a k.node k.real k.stands, r.runs) refl;
      gone = gone_all r.heap a ps (r.others a d.0 ∙ release_self h a) r.gone;
      others = λ q out. r.others q out.1 ∙ release_other h a q out.0;
      told =
          told_step h a ps frees k.node.val r.freed
            (r.told ∙ ap (λ ds. if frees then ds else []) (data_of-release h a ps d.0))
            (datum-some (h a) k.node k.stands);
    }

-- On a list that stands for some pointers, ty_list_at, where malloc gives an iterator, ends
-- without a fault and answers the pointer at the index, from the head, or from the tail for a
-- negative index, and the null pointer beyond the end; and ty_list_del ends without a fault,
-- gives back the nodes of these pointers and no others, and calls list_free_fn, if there is
-- one, with their data, in order.
pub list_at-del :
    (h : Heap) (l : TyList) (ps : List ℕ) (i : ℤ)
    → Linked h l ps
    → (list_at true h l i ≡ done (pointer_at ps i)) × Deleted h ps l.frees (del h l)
unfolding del
list_at-del h l ps i linked = (
  list_at-pointer_at h l ps i linked,
  rw linked.len (del_loop-Deleted h 0 l.head ps l.frees linked.chain linked.distinct linked.head),
)
