-- ===== src/Linklist/Ends.antt =====
-- What the pushes and pops of src/ty_linklist.c do to the pointers of a list.
use tyto_h.Base.{ℕ, ◌-◌, ◌^◌, ◌<◌, ◌≡◌, refl, sym, ap, ◌∙◌, ◌≢◌, inl, inr, true, Option}
use tyto_h.Base.{none, some, List, [], ◌∷◌, arith, ◌==◌, Bool-cases, ne→==, Outcome}
use tyto_h.Base.{length, done}
use tyto_h.Linklist.{Heap, Node, TyList, put, with_ends, with_next, with_prev}
use tyto_h.Linklist.{lpush, lpop, unlinked, up, down}
use tyto_h.Linklist.Remove.{fetch-some, put_self, put-other, update-done}
use tyto_h.Linklist.Chain.{
  head_of, last_of, NotIn, Distinct, Links, Chain, Links-put, Chain-put, Links-written,
}
use mathlib.Core.Path.{subst}

-- The list stands for these pointers, from its head to its tail.
pub record Linked (h : Heap) (l : TyList) (ps : List ℕ) : Type 0 where
  pub head : l.head ≡ head_of ps 0
  pub tail : l.tail ≡ last_of 0 ps
  pub len : l.len ≡ length ps
  pub chain : Chain h 0 ps 0
  pub distinct : Distinct ps

-- The datum of a node, if there is one.
unfoldable pub datum : Option Node → Option ℕ
datum none = none
datum (some n) = some n.val

-- The same nodes stand on the heap, with the same data.
abbrev pub Keeps : Heap → Heap → Type 0
Keeps h h' = (q : ℕ) → datum (h' q) ≡ datum (h q)

pub Keeps-put : (h : Heap) (a : ℕ) (m n : Node) → h a ≡ some m → n.val ≡ m.val → Keeps h (put h a n)
unfolding datum
Keeps-put h a m n e v q = elim (Bool-cases (q == a)) [
  | inl t ↦
      let same : q ≡ a = ground arith in
      rw same (ap datum (put_self h a n) ∙ ap some v ∙ sym (ap datum e))
  | inr f ↦ ap datum (put-other h a q n (λ e. absurd (ground arith)))
]

pub Keeps-trans : (h1 h2 h3 : Heap) → Keeps h1 h2 → Keeps h2 h3 → Keeps h1 h3
Keeps-trans h1 h2 h3 k1 k2 q = k2 q ∙ k1 q

-- An operation ends without a fault, with these pointers in the list and this one as its
-- result, and keeps the nodes and their data, and the function that compares them.
pub record Leaves (h : Heap) (l : TyList) (o : Outcome (Heap × TyList × ℕ)) (ps : List ℕ)
    (answer : ℕ) : Type 0 where
  pub heap : Heap
  pub list : TyList
  pub runs : o ≡ done (heap, list, answer)
  pub linked : Linked heap list ps
  pub keeps : Keeps h heap
  pub matching : list.match_fn ≡ l.match_fn

pub lpush-Leaves :
    (h : Heap) (l : TyList) (ps : List ℕ) (node : ℕ) (n : Node)
    → Linked h l ps
    → node ≢ 0
    → h node ≡ some n
    → NotIn node ps
    → length ps < 2 ^ 32 - 1
    → Leaves h l (lpush h l node) (node ∷ ps) node
unfolding lpush Chain Distinct NotIn head_of last_of
lpush-Leaves h l [] node n k ne at out lim =
    let fresh = with_next 0 (with_prev 0 n) in
    let none_yet : (l.len == 0) ≡ true = ground (arith, k.len) in
    record {
      heap = put h node fresh;
      list = with_ends node node (up l.len) l;
      runs =
          rw
            (
              ne→== node 0 ne,
              none_yet,
              update-done (λ x. with_next 0 (with_prev 0 x)) h node n ne at,
            )
            refl;
      linked = record {
        head = refl;
        tail = refl;
        len = omega (arith, k.len);
        chain = (Links-written h node 0 0 fresh ne refl refl, tt);
        distinct = (tt, tt);
      };
      matching = refl;
      keeps = Keeps-put h node n fresh at refl;
    }
lpush-Leaves h l (b ∷ ps) node n k ne at out lim =
    let fresh = with_prev 0 (with_next l.head n) in
    let h1 = put h node fresh in
    let first : Links h l.head 0 (head_of ps 0) =
      subst (λ a. Links h a 0 (head_of ps 0)) (sym k.head) k.chain.0 in
    let other : node ≢ l.head = λ e. out.0 (e ∙ k.head) in
    let m = first.node in
    let m1 = with_prev node m in
    let at1 : h1 l.head ≡ some m =
      put-other h node l.head fresh (λ e. other (sym e)) ∙ first.stands in
    let h2 = put h1 l.head m1 in
    let apart : NotIn l.head ps = subst (λ a. NotIn a ps) (sym k.head) k.distinct.0 in
    record {
      heap = h2;
      list = with_ends node l.tail (up l.len) l;
      runs =
          rw
            (
              ne→== node 0 ne,
              ne→== l.len 0 (λ e. absurd (omega (arith, k.len))),
              update-done (λ x. with_prev 0 (with_next l.head x)) h node n ne at,
              update-done (with_prev node) h1 l.head m first.real at1,
            )
            refl;
      linked = record {
        head = refl;
        tail = k.tail;
        len = omega (arith, k.len);
        chain = (
          Links-put h1 l.head node 0 b m1 (λ e. other (sym e))
              (Links-written h node 0 b fresh ne refl k.head),
          (
            subst (λ a. Links h2 a node (head_of ps 0)) k.head
                (Links-written h1 l.head node (head_of ps 0) m1 first.real refl first.next),
            Chain-put h1 l.head b ps 0 m1 apart (Chain-put h node b ps 0 fresh out.1 k.chain.1),
          ),
        );
        distinct = (out, k.distinct);
      };
      matching = refl;
      keeps =
          Keeps-trans h h1 h2 (Keeps-put h node n fresh at refl)
            (Keeps-put h1 l.head m m1 at1 refl);
    }

pub lpop-Leaves :
    (h : Heap) (l : TyList) (a : ℕ) (ps : List ℕ)
    → Linked h l (a ∷ ps)
    → length ps < 2 ^ 32 - 1
    → Leaves h l (lpop h l) ps a
unfolding lpop unlinked Chain Distinct NotIn head_of last_of
lpop-Leaves h l a [] k lim =
    let first : Links h l.head 0 0 = subst (λ a. Links h a 0 0) (sym k.head) k.chain.0 in
    let gone = with_next 0 (with_prev 0 first.node) in
    let last : (down l.len == 0) ≡ true = ground (arith, k.len) in
    record {
      heap = put h l.head gone;
      list = with_ends 0 0 (down l.len) l;
      runs =
          rw
            (
              ne→== l.len 0 (λ e. absurd (omega (arith, k.len))),
              last,
              update-done (λ x. with_next 0 (with_prev 0 x)) h l.head first.node first.real
                  first.stands,
            )
            (ap (λ p. done (put h l.head gone, with_ends 0 0 (down l.len) l, p)) k.head);
      linked = record {
        head = refl;
        tail = refl;
        len = omega (arith, k.len);
        chain = tt;
        distinct = tt;
      };
      matching = refl;
      keeps = Keeps-put h l.head first.node gone first.stands refl;
    }
lpop-Leaves h l a (b ∷ ps) k lim =
    let first : Links h l.head 0 b = subst (λ a. Links h a 0 b) (sym k.head) k.chain.0 in
    let n = first.node in
    let second : Links h n.next a (head_of ps 0) =
      subst (λ c. Links h c a (head_of ps 0)) (sym first.next) k.chain.1.0 in
    let m = second.node in
    let h1 = put h n.next (with_prev 0 m) in
    let other : l.head ≢ n.next = λ e. k.distinct.0.0 (sym k.head ∙ e ∙ first.next) in
    let at1 : h1 l.head ≡ some n = put-other h n.next l.head (with_prev 0 m) other ∙ first.stands in
    let gone = with_next 0 (with_prev 0 n) in
    let h2 = put h1 l.head gone in
    let out : NotIn l.head (b ∷ ps) = subst (λ c. NotIn c (b ∷ ps)) (sym k.head) k.distinct.0 in
    let apart : NotIn n.next ps = subst (λ c. NotIn c ps) (sym first.next) k.distinct.1.0 in
    record {
      heap = h2;
      list = with_ends n.next l.tail (down l.len) l;
      runs =
          rw
            (
              ne→== l.len 0 (λ e. absurd (omega (arith, k.len))),
              ne→== (down l.len) 0 (λ e. absurd (omega (arith, k.len))),
              fetch-some h l.head n first.real first.stands,
              update-done (with_prev 0) h n.next m second.real second.stands,
              update-done (λ x. with_next 0 (with_prev 0 x)) h1 l.head n first.real at1,
            )
            (ap (λ p. done (h2, with_ends n.next l.tail (down l.len) l, p)) k.head);
      linked = record {
        head = first.next;
        tail = k.tail;
        len = omega (arith, k.len);
        chain = Chain-put h1 l.head 0 (b ∷ ps) 0 gone out (
          subst (λ c. Links h1 c 0 (head_of ps 0)) first.next
              (Links-written h n.next 0 (head_of ps 0) (with_prev 0 m) second.real refl
                second.next),
          Chain-put h n.next b ps 0 (with_prev 0 m) apart k.chain.1.1,
        );
        distinct = k.distinct.1;
      };
      matching = refl;
      keeps =
          Keeps-trans h h1 h2 (Keeps-put h n.next m (with_prev 0 m) second.stands refl)
            (Keeps-put h1 l.head n gone at1 refl);
    }
