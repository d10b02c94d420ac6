-- ===== src/Linklist/Remove.antt =====
-- What `ty_list_remove` of src/ty_linklist.c does to the neighbours of the node.
use tyto_h.Base.{ℕ, ◌≡◌, refl, sym, ◌∙◌, ◌≢◌, some, List, [], ◌∷◌, if◌then◌else◌, ==_refl}
use tyto_h.Base.{ne→==, done}
use tyto_h.Linklist.{
  Heap, Node, TyList, fetch, put, release, update, with_ends, with_next, with_prev,
}
use tyto_h.Linklist.{remove, remove_forward, remove_backward, down}

pub fetch-some : (h : Heap) (a : ℕ) (n : Node) → a ≢ 0 → h a ≡ some n → fetch h a ≡ done n
unfolding fetch
fetch-some h a n ne e = rw (ne→== a 0 ne, e) refl

pub put_self : (h : Heap) (a : ℕ) (n : Node) → put h a n a ≡ some n
unfolding put
put_self h a n = rw (==_refl a) refl

pub put-other : (h : Heap) (a p : ℕ) (n : Node) → p ≢ a → put h a n p ≡ h p
unfolding put
put-other h a p n ne = rw (ne→== p a ne) refl

release-other : (h : Heap) (a p : ℕ) → p ≢ a → release h a p ≡ h p
unfolding release
release-other h a p ne = rw (ne→== p a ne) refl

pub update-done :
    (f : Node → Node) (h : Heap) (a : ℕ) (n : Node)
    → a ≢ 0
    → h a ≡ some n
    → update f h a ≡ done (put h a (f n))
unfolding update
update-done f h a n ne e = rw (fetch-some h a n ne e) refl

-- What is left behind by a removal of `node`, whose predecessor was the node `p`.
unfoldable pub SelfLinked :
    Heap → TyList → (node : ℕ) → (n p : Node) → Heap × TyList × List ℕ → Type 0
SelfLinked h l node n p r =
    (r.0 n.prev ≡ some (record { next = n.next; prev = n.prev; val = p.val }))
    × (((q : ℕ) → q ≢ node → q ≢ n.prev → r.0 q ≡ h q)
        × ((r.1 ≡ with_ends l.head l.tail (down l.len) l)
            × (r.2 ≡ (if l.frees then n.val ∷ [] else []))))

-- `ty_list_remove` of a node that has a predecessor other than itself ends without a fault.
-- The predecessor then leads on to the successor of the node, and is its own predecessor;
-- every other node, the successor with its link back among them, is as before, and so are
-- the ends of the list; its length counts one less, and the data goes to the callback.
pub remove-SelfLinked :
    (h : Heap) (l : TyList) (node : ℕ) (n p : Node)
    → node ≢ 0
    → h node ≡ some n
    → n.prev ≢ 0
    → n.prev ≢ node
    → h n.prev ≡ some p
    → (r : Heap × TyList × List ℕ) × ((remove h l node ≡ done r) × SelfLinked h l node n p r)
unfolding remove remove_forward remove_backward SelfLinked
remove-SelfLinked h l node n p ne at some_prev other before =
    let first = with_next n.next p in
    let h1 = put h n.prev first in
    let h2 = put h1 n.prev (with_prev n.prev first) in
    let far : node ≢ n.prev = λ e. other (sym e) in
    let at1 : h1 node ≡ some n = put-other h n.prev node first far ∙ at in
    let at2 : h2 node ≡ some n = put-other h1 n.prev node (with_prev n.prev first) far ∙ at1 in
    rw
      (
        fetch-some h node n ne at,
        ne→== n.prev 0 some_prev,
        update-done (with_next n.next) h n.prev p some_prev before,
        fetch-some h1 node n ne at1,
        ne→== n.prev 0 some_prev,
        update-done (with_prev n.prev) h1 n.prev first some_prev (put_self h n.prev first),
        fetch-some h2 node n ne at2,
      )
      (
        (
          release h2 node,
          with_ends l.head l.tail (down l.len) l,
          (if l.frees then n.val ∷ [] else []),
        ),
        (
          refl,
          (
            release-other h2 node n.prev other ∙ put_self h1 n.prev (with_prev n.prev first),
            (
              (λ q a b.
                  release-other h2 node q a
                  ∙ put-other h1 n.prev q (with_prev n.prev first) b
                  ∙ put-other h n.prev q first b),
              (refl, refl),
            ),
          ),
        ),
      )
