-- ===== src/Linklist/Back.antt =====
-- What `ty_list_rpush` and `ty_list_rpop` of src/ty_linklist.c do to the pointers of a list.
use tyto_h.Base.{ℕ, ◌-◌, ◌^◌, ◌<◌, ◌≡◌, refl, sym, ap, ◌∙◌, ◌≢◌, true, some, List, []}
use tyto_h.Base.{◌∷◌, ◌++◌, arith, ◌==◌, ne→==, length, length-append, done}
use tyto_h.Linklist.{Heap, Node, TyList, put, with_ends, with_next, with_prev}
use tyto_h.Linklist.{rpush, rpop, unlinked, up, down}
use tyto_h.Linklist.Remove.{fetch-some, put-other, update-done}
use tyto_h.Linklist.Chain.{
  head_of, last_of, NotIn, Distinct, Links, Chain, Links-put, Chain-put, Links-written,
}
use tyto_h.Linklist.Chain.{
  last_of-append, Chain-append, Chain-split, Chain-last, NotIn-split, Distinct-append,
  Distinct-split,
}
use tyto_h.Linklist.Chain.{Ends, ends}
use tyto_h.Linklist.Ends.{Linked, Leaves, Keeps-put, Keeps-trans}
use mathlib.Core.Path.{subst}

head_same :
    (ps : List ℕ) (b node : ℕ) → head_of ((ps ++ b ∷ []) ++ node ∷ []) 0 ≡ head_of (ps ++ b ∷ []) 0
unfolding head_of
head_same [] b node = refl
head_same (a ∷ ps) b node = refl

rpush_first :
    (h : Heap) (l : TyList) (node : ℕ) (n : Node)
    → Linked h l []
    → node ≢ 0
    → h node ≡ some n
    → Leaves h l (rpush h l node) (node ∷ []) node
unfolding rpush Chain Distinct NotIn head_of last_of
rpush_first h l node n k ne at =
    let fresh = with_next 0 (with_prev 0 n) in
    let none_yet : (l.len == 0) ≡ true = ground (arith, k.len) in
    record {
      heap = put h node fresh;
      list = with_ends node node (up l.len) l;
      runs =
          rw
            (
              ne→== node 0 ne,
              none_yet,
              update-done (λ x. with_next 0 (with_prev 0 x)) h node n ne at,
            )
            refl;
      linked = record {
        head = refl;
        tail = refl;
        len = omega (arith, k.len);
        chain = (Links-written h node 0 0 fresh ne refl refl, tt);
        distinct = (tt, tt);
      };
      matching = refl;
      keeps = Keeps-put h node n fresh at refl;
    }

rpush_behind :
    (h : Heap) (l : TyList) (ps : List ℕ) (b node : ℕ) (n : Node)
    → Linked h l (ps ++ b ∷ [])
    → node ≢ 0
    → h node ≡ some n
    → NotIn node (ps ++ b ∷ [])
    → length (ps ++ b ∷ []) < 2 ^ 32 - 1
    → Leaves h l (rpush h l node) ((ps ++ b ∷ []) ++ node ∷ []) node
unfolding rpush Chain head_of
rpush_behind h l ps b node n k ne at out lim =
    let size = length-append ps (b ∷ []) in
    let size1 = length-append (ps ++ b ∷ []) (node ∷ []) in
    let tail_b : l.tail ≡ b = k.tail ∙ last_of-append 0 ps b in
    let parts = Chain-split h 0 ps (b ∷ []) 0 k.chain in
    let final : Links h b (last_of 0 ps) 0 = parts.1.0 in
    let m = final.node in
    let outs = NotIn-split node ps b out in
    let fresh = with_next 0 (with_prev l.tail n) in
    let h1 = put h node fresh in
    let m1 = with_next node m in
    let other : l.tail ≢ node = λ e. outs.1 (sym e ∙ tail_b) in
    let real : l.tail ≢ 0 = λ e. final.real (sym tail_b ∙ e) in
    let at1 : h1 l.tail ≡ some m =
      put-other h node l.tail fresh other ∙ ap h tail_b ∙ final.stands in
    let h2 = put h1 l.tail m1 in
    let same : h2 ≡ put h1 b m1 = ap (λ c. put h1 c m1) tail_b in
    record {
      heap = h2;
      list = with_ends l.head node (up l.len) l;
      runs =
          rw
            (
              ne→== node 0 ne,
              ne→== l.len 0 (λ e. absurd (omega (arith, k.len, size))),
              update-done (λ x. with_next 0 (with_prev l.tail x)) h node n ne at,
              update-done (with_next node) h1 l.tail m real at1,
            )
            refl;
      linked = record {
        head = k.head ∙ sym (head_same ps b node);
        tail = sym (last_of-append 0 (ps ++ b ∷ []) node);
        len = omega (arith, k.len, size, size1);
        chain =
            Chain-append h2 0 (ps ++ b ∷ []) (node ∷ []) 0
              (subst (λ g. Chain g 0 (ps ++ b ∷ []) node) (sym same)
                (Chain-last h1 ps b node m1 (Chain-put h node 0 ps b fresh outs.0 parts.0)
                  (Distinct-split ps b k.distinct).0 final.real final.prev refl))
              (
                Links-put h1 l.tail node (last_of 0 (ps ++ b ∷ [])) 0 m1 other
                    (Links-written h node (last_of 0 (ps ++ b ∷ [])) 0 fresh ne k.tail refl),
                tt,
              );
        distinct = Distinct-append (ps ++ b ∷ []) node out k.distinct;
      };
      matching = refl;
      keeps =
          Keeps-trans h h1 h2 (Keeps-put h node n fresh at refl)
            (Keeps-put h1 l.tail m m1 at1 refl);
    }

pub rpush-Leaves :
    (h : Heap) (l : TyList) (ps : List ℕ) (node : ℕ) (n : Node)
    → Linked h l ps
    → node ≢ 0
    → h node ≡ some n
    → NotIn node ps
    → length ps < 2 ^ 32 - 1
    → Leaves h l (rpush h l node) (ps ++ node ∷ []) node
rpush-Leaves h l ps node n k ne at out lim = by_ends (ends ps) k out lim
  where
    by_ends :
        {qs : List ℕ}
        → Ends qs
        → Linked h l qs
        → NotIn node qs
        → length qs < 2 ^ 32 - 1
        → Leaves h l (rpush h l node) (qs ++ node ∷ []) node
    by_ends Ends.empty k out lim = rpush_first h l node n k ne at
    by_ends (Ends.last qs b) k out lim = rpush_behind h l qs b node n k ne at out lim

rpop_only : (h : Heap) (l : TyList) (b : ℕ) → Linked h l (b ∷ []) → Leaves h l (rpop h l) [] b
unfolding rpop unlinked Chain Distinct head_of last_of
rpop_only h l b k =
    let final : Links h l.tail 0 0 = subst (λ c. Links h c 0 0) (sym k.tail) k.chain.0 in
    let gone = with_next 0 (with_prev 0 final.node) in
    let last : (down l.len == 0) ≡ true = ground (arith, k.len) in
    record {
      heap = put h l.tail gone;
      list = with_ends 0 0 (down l.len) l;
      runs =
          rw
            (
              ne→== l.len 0 (λ e. absurd (omega (arith, k.len))),
              last,
              update-done (λ x. with_next 0 (with_prev 0 x)) h l.tail final.node final.real
                  final.stands,
            )
            (ap (λ p. done (put h l.tail gone, with_ends 0 0 (down l.len) l, p)) k.tail);
      linked = record {
        head = refl;
        tail = refl;
        len = omega (arith, k.len);
        chain = tt;
        distinct = tt;
      };
      matching = refl;
      keeps = Keeps-put h l.tail final.node gone final.stands refl;
    }

rpop_behind :
    (h : Heap) (l : TyList) (ps : List ℕ) (c b : ℕ)
    → Linked h l ((ps ++ c ∷ []) ++ b ∷ [])
    → length (ps ++ c ∷ []) < 2 ^ 32 - 1
    → Leaves h l (rpop h l) (ps ++ c ∷ []) b
unfolding rpop unlinked Chain head_of
rpop_behind h l ps c b k lim =
    let qs = ps ++ c ∷ [] in
    let size = length-append ps (c ∷ []) in
    let size1 = length-append qs (b ∷ []) in
    let tail_b : l.tail ≡ b = k.tail ∙ last_of-append 0 qs b in
    let parts = Chain-split h 0 qs (b ∷ []) 0 k.chain in
    let before = Chain-split h 0 ps (c ∷ []) b parts.0 in
    let final : Links h l.tail c 0 =
      subst (λ a. Links h a c 0) (sym tail_b)
        (subst (λ a. Links h b a 0) (last_of-append 0 ps c) parts.1.0) in
    let n = final.node in
    let second : Links h c (last_of 0 ps) b = before.1.0 in
    let m = second.node in
    let apart = Distinct-split qs b k.distinct in
    let m1 = with_next 0 m in
    let gone = with_next 0 (with_prev 0 n) in
    let h1 = put h n.prev m1 in
    let real : n.prev ≢ 0 = λ e. second.real (sym final.prev ∙ e) in
    let at0 : h n.prev ≡ some m = ap h final.prev ∙ second.stands in
    let other : l.tail ≢ n.prev =
      λ e. (NotIn-split b ps c apart.0).1 (sym tail_b ∙ e ∙ final.prev) in
    let at1 : h1 l.tail ≡ some n = put-other h n.prev l.tail m1 other ∙ final.stands in
    let h2 = put h1 l.tail gone in
    record {
      heap = h2;
      list = with_ends l.head n.prev (down l.len) l;
      runs =
          rw
            (
              ne→== l.len 0 (λ e. absurd (omega (arith, k.len, size1))),
              ne→== (down l.len) 0 (λ e. absurd (omega (arith, k.len, size, size1))),
              fetch-some h l.tail n final.real final.stands,
              update-done (with_next 0) h n.prev m real at0,
              update-done (λ x. with_next 0 (with_prev 0 x)) h1 l.tail n final.real at1,
            )
            (ap (λ p. done (h2, with_ends l.head n.prev (down l.len) l, p)) tail_b);
      linked = record {
        head = k.head ∙ head_same ps c b;
        tail = final.prev ∙ sym (last_of-append 0 ps c);
        len = omega (arith, k.len, size, size1);
        chain = Chain-put h1 l.tail 0 qs 0 gone (subst (λ a. NotIn a qs) (sym tail_b) apart.0) (
            subst (λ a. Chain (put h a m1) 0 qs 0) (sym final.prev)
              (Chain-last h ps c 0 m1 before.0 (Distinct-split ps c apart.1).0 second.real
                second.prev refl));
        distinct = apart.1;
      };
      matching = refl;
      keeps =
          Keeps-trans h h1 h2 (Keeps-put h n.prev m m1 at0 refl)
            (Keeps-put h1 l.tail n gone at1 refl);
    }

pub rpop-Leaves :
    (h : Heap) (l : TyList) (ps : List ℕ) (b : ℕ)
    → Linked h l (ps ++ b ∷ [])
    → length ps < 2 ^ 32 - 1
    → Leaves h l (rpop h l) ps b
rpop-Leaves h l ps b k lim = by_ends (ends ps) k lim
  where
    by_ends :
        {qs : List ℕ}
        → Ends qs
        → Linked h l (qs ++ b ∷ [])
        → length qs < 2 ^ 32 - 1
        → Leaves h l (rpop h l) qs b
    by_ends Ends.empty k lim = rpop_only h l b k
    by_ends (Ends.last qs c) k lim = rpop_behind h l qs c b k lim
