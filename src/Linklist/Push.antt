-- ===== src/Linklist/Push.antt =====
-- `ty_list_lpush` and `ty_list_lpop` of src/ty_linklist.c undo each other.
use tyto_h.Base.{ℕ, ◌-◌, ◌^◌, ◌<◌, ◌≡◌, refl, sym, ap, ◌∙◌, ◌≢◌, inl, inr, some, arith}
use tyto_h.Base.{◌==◌, Bool-cases, ne→==, done}
use tyto_h.Linklist.{Heap, Node, TyList, put, with_ends, with_next, with_prev}
use tyto_h.Linklist.{lpush, lpop, unlinked, up, down}
use tyto_h.Linklist.Remove.{fetch-some, put_self, put-other, update-done}

-- What stands after a push of `node` and a pop: the node itself and the list as it was, and
-- every other node as it was.
unfoldable pub Restored : Heap → TyList → (node : ℕ) → Heap × TyList × ℕ → Type 0
Restored h l node s = (s.2 ≡ node) × ((s.1 ≡ l) × ((q : ℕ) → q ≢ node → s.0 q ≡ h q))

down-up : (n : ℕ) → n < 2 ^ 32 → down (up n) ≡ n
down-up n h = omega arith

-- The head that is written twice is as before, and so is every node other than the new one.
head_again :
    (h : Heap) (b node : ℕ) (fresh m : Node) (q : ℕ)
    → q ≢ node
    → h b ≡ some m
    → m.prev ≡ 0
    → put (put (put h node fresh) b (with_prev node m)) b (with_prev 0 (with_prev node m)) q ≡ h q
head_again h b node fresh m q a headed first =
    let h1 = put h node fresh in
    let h2 = put h1 b (with_prev node m) in
    elim (Bool-cases (q == b)) [
      | inl t ↦
          let same : q ≡ b = ground arith in
          rw same (
            put_self h2 b (with_prev 0 (with_prev node m))
            ∙ ap (λ p. some (with_prev p m)) (sym first)
            ∙ sym headed)
      | inr f ↦
          let ne : q ≢ b = λ e. absurd (ground arith) in
          put-other h2 b q (with_prev 0 (with_prev node m)) ne
          ∙ put-other h1 b q (with_prev node m) ne
          ∙ put-other h node q fresh a
    ]

-- ty_list_lpush of a node that is not the head, on a list with a first node without a
-- predecessor and a length from 1 to 2^32 - 2, and then ty_list_lpop, end without a fault,
-- return the node, and leave the list and every other node as before.
pub lpop-lpush :
    (h : Heap) (l : TyList) (node : ℕ) (n m : Node)
    → node ≢ 0
    → h node ≡ some n
    → l.head ≢ 0
    → l.head ≢ node
    → h l.head ≡ some m
    → m.prev ≡ 0
    → 0 < l.len
    → l.len < 2 ^ 32 - 1
    → (r : Heap × TyList × ℕ) × ((lpush h l node ≡ done r)
        × ((s : Heap × TyList × ℕ) × ((lpop r.0 r.1 ≡ done s) × Restored h l node s)))
unfolding lpush lpop unlinked Restored
lpop-lpush h l node n m ne at some_head other headed first pos_len lim =
    let fresh = with_prev 0 (with_next l.head n) in
    let h1 = put h node fresh in
    let m1 = with_prev node m in
    let h2 = put h1 l.head m1 in
    let h3 = put h2 l.head (with_prev 0 m1) in
    let far : node ≢ l.head = λ e. other (sym e) in
    let at2 : h2 node ≡ some fresh = put-other h1 l.head node m1 far ∙ put_self h node fresh in
    let at3 : h3 node ≡ some fresh = put-other h2 l.head node (with_prev 0 m1) far ∙ at2 in
    rw
      (
        ne→== node 0 ne,
        ne→== l.len 0 (λ e. absurd (omega arith)),
        update-done (λ x. with_prev 0 (with_next l.head x)) h node n ne at,
        update-done (with_prev node) h1 l.head m some_head
            (put-other h node l.head fresh other ∙ headed),
      )
      (
        (h2, with_ends node l.tail (up l.len) l, node),
        (
          refl,
          rw
              (
                ne→== (up l.len) 0 (λ e. absurd (omega arith)),
                down-up l.len (omega arith),
                ne→== l.len 0 (λ e. absurd (omega arith)),
                fetch-some h2 node fresh ne at2,
                update-done (with_prev 0) h2 l.head m1 some_head (put_self h1 l.head m1),
                update-done (λ x. with_next 0 (with_prev 0 x)) h3 node fresh ne at3,
              )
              (
                (put h3 node (with_next 0 (with_prev 0 fresh)), l, node),
                (
                  refl,
                  (
                    refl,
                    (
                      refl,
                      (λ q a.
                          put-other h3 node q (with_next 0 (with_prev 0 fresh)) a
                          ∙ head_again h l.head node fresh m q a headed first),
                    ),
                  ),
                ),
              ),
        ),
      )
