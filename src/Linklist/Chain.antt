-- ===== src/Linklist/Chain.antt =====
-- Chains of nodes on the heap of src/ty_linklist.c: what the links say, and what writes keep.
use tyto_h.Base.{ℕ, ◌≡◌, refl, sym, ◌∙◌, ◌≢◌, some, List, [], ◌∷◌, ◌++◌}
use tyto_h.Linklist.{Heap, Node, put}
use tyto_h.Linklist.Remove.{put_self, put-other}
use mathlib.Core.Path.{subst}

-- The first pointer of a list, or another where the list is empty; and the last one.
unfoldable pub head_of : List ℕ → ℕ → ℕ
head_of [] next = next
head_of (a ∷ ps) next = a

unfoldable pub last_of : ℕ → List ℕ → ℕ
last_of back [] = back
last_of back (a ∷ ps) = last_of a ps

unfoldable pub NotIn : ℕ → List ℕ → Type 0
NotIn a [] = Unit
NotIn a (b ∷ ps) = (a ≢ b) × NotIn a ps

unfoldable pub Distinct : List ℕ → Type 0
Distinct [] = Unit
Distinct (a ∷ ps) = NotIn a ps × Distinct ps

-- A node that leads on to `after` and back to `back`.
pub record Links (h : Heap) (a back after : ℕ) : Type 0 where
  pub real : a ≢ 0
  pub node : Node
  pub stands : h a ≡ some node
  pub prev : node.prev ≡ back
  pub next : node.next ≡ after

-- The nodes of a list of pointers, linked in both directions, between `back` and `next`.
unfoldable pub Chain : Heap → (back : ℕ) → List ℕ → (next : ℕ) → Type 0
Chain h back [] next = Unit
Chain h back (a ∷ ps) next = Links h a back (head_of ps next) × Chain h a ps next

-- A write to another node.
pub Links-put :
    (h : Heap) (a b back next : ℕ) (n : Node)
    → a ≢ b
    → Links h b back next
    → Links (put h a n) b back next
Links-put h a b back next n ne k = record {
  real = k.real;
  node = k.node;
  stands = put-other h a b n (λ e. ne (sym e)) ∙ k.stands;
  prev = k.prev;
  next = k.next;
}

pub Chain-put :
    (h : Heap) (a back : ℕ) (ps : List ℕ) (next : ℕ) (n : Node)
    → NotIn a ps
    → Chain h back ps next
    → Chain (put h a n) back ps next
unfolding Chain NotIn
Chain-put h a back [] next n out c = tt
Chain-put h a back (b ∷ ps) next n out c =
    (Links-put h a b back (head_of ps next) n out.0 c.0, Chain-put h a b ps next n out.1 c.1)

-- A node as it is written.
pub Links-written :
    (h : Heap) (a back after : ℕ) (n : Node)
    → a ≢ 0
    → n.prev ≡ back
    → n.next ≡ after
    → Links (put h a n) a back after
Links-written h a back after n ne p q = record {
  real = ne;
  node = n;
  stands = put_self h a n;
  prev = p;
  next = q;
}

pub head_of-append :
    (ps qs : List ℕ) (next : ℕ) → head_of (ps ++ qs) next ≡ head_of ps (head_of qs next)
unfolding head_of
head_of-append [] qs next = refl
head_of-append (a ∷ ps) qs next = refl

pub last_of-append : (back : ℕ) (ps : List ℕ) (b : ℕ) → last_of back (ps ++ b ∷ []) ≡ b
unfolding last_of
last_of-append back [] b = refl
last_of-append back (a ∷ ps) b = last_of-append a ps b

-- A chain is two chains in a row.
pub Chain-append :
    (h : Heap) (back : ℕ) (ps qs : List ℕ) (next : ℕ)
    → Chain h back ps (head_of qs next)
    → Chain h (last_of back ps) qs next
    → Chain h back (ps ++ qs) next
unfolding Chain last_of
Chain-append h back [] qs next c d = d
Chain-append h back (a ∷ ps) qs next c d = (
  subst (Links h a back) (sym (head_of-append ps qs next)) c.0,
  Chain-append h a ps qs next c.1 d,
)

pub Chain-split :
    (h : Heap) (back : ℕ) (ps qs : List ℕ) (next : ℕ)
    → Chain h back (ps ++ qs) next
    → Chain h back ps (head_of qs next) × Chain h (last_of back ps) qs next
unfolding Chain last_of
Chain-split h back [] qs next c = (tt, c)
Chain-split h back (a ∷ ps) qs next c =
    let rest = Chain-split h a ps qs next c.1 in
    ((subst (Links h a back) (head_of-append ps qs next) c.0, rest.0), rest.1)

-- The last node of a chain is written.
pub Chain-last :
    (h : Heap) (ps : List ℕ) (b after : ℕ) (n : Node)
    → Chain h 0 ps b
    → NotIn b ps
    → b ≢ 0
    → n.prev ≡ last_of 0 ps
    → n.next ≡ after
    → Chain (put h b n) 0 (ps ++ b ∷ []) after
unfolding Chain head_of
Chain-last h ps b after n c out ne p q =
    Chain-append (put h b n) 0 ps (b ∷ []) after (Chain-put h b 0 ps b n out c)
      (Links-written h b (last_of 0 ps) after n ne p q, tt)

pub NotIn-append : (a : ℕ) (ps : List ℕ) (b : ℕ) → NotIn a ps → a ≢ b → NotIn a (ps ++ b ∷ [])
unfolding NotIn
NotIn-append a [] b out ne = (ne, tt)
NotIn-append a (c ∷ ps) b out ne = (out.0, NotIn-append a ps b out.1 ne)

pub NotIn-split : (a : ℕ) (ps : List ℕ) (b : ℕ) → NotIn a (ps ++ b ∷ []) → NotIn a ps × (a ≢ b)
unfolding NotIn
NotIn-split a [] b out = (tt, out.0)
NotIn-split a (c ∷ ps) b out = let rest = NotIn-split a ps b out.1 in ((out.0, rest.0), rest.1)

pub Distinct-append : (ps : List ℕ) (b : ℕ) → NotIn b ps → Distinct ps → Distinct (ps ++ b ∷ [])
unfolding Distinct NotIn
Distinct-append [] b out d = (tt, tt)
Distinct-append (a ∷ ps) b out d =
    (NotIn-append a ps b d.0 (λ e. out.0 (sym e)), Distinct-append ps b out.1 d.1)

pub Distinct-split : (ps : List ℕ) (b : ℕ) → Distinct (ps ++ b ∷ []) → NotIn b ps × Distinct ps
unfolding Distinct NotIn
Distinct-split [] b d = (tt, tt)
Distinct-split (a ∷ ps) b d =
    let rest = Distinct-split ps b d.1 in
    let out = NotIn-split a ps b d.0 in (((λ e. out.1 (sym e)), rest.0), (out.0, rest.1))

-- A list is empty, or it has a last pointer.
pub data Ends : List ℕ → Type 0 where
  empty : Ends []
  last : (ps : List ℕ) (b : ℕ) → Ends (ps ++ b ∷ [])

pub ends : (ps : List ℕ) → Ends ps
ends [] = Ends.empty
ends (a ∷ ps) = behind a (ends ps)
  where
    behind : (a : ℕ) {ps : List ℕ} → Ends ps → Ends (a ∷ ps)
    behind a Ends.empty = Ends.last [] a
    behind a (Ends.last ps b) = Ends.last (a ∷ ps) b
