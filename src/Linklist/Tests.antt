-- ===== src/Linklist/Tests.antt =====
-- Runs of the list of src/ty_linklist.c, from a list of two nodes.
use tyto_h.Base.{ℕ, ◌<◌, ◌≡◌, refl, true, none, some, List, [], ◌∷◌, arith, ◌==◌}
use tyto_h.Base.{if◌then◌else◌, length, done, fault, negsuc}
use tyto_h.Linklist.{list_at, del}
use tyto_h.Linklist.At.{pointer_at}
use tyto_h.Linklist.Delete.{Deleted, list_at-del}
use tyto_h.Linklist.{Heap, Node, TyList, remove, find, matches}
use tyto_h.Linklist.Remove.{SelfLinked, remove-SelfLinked}
use tyto_h.Linklist.Chain.{head_of, last_of, NotIn, Distinct, Chain}
use tyto_h.Linklist.Ends.{Linked, Keeps, datum}
use tyto_h.Linklist.Deque.{
  Call, push_front, push_back, pop_back, calls, deque, deque_calls, all_but_last, Pushable, Allowed,
  AllAllowed,
}
use tyto_h.Linklist.Find.{first_match, passes, calls-deque_calls}

abbrev node1 : Node
node1 = record { next = 2; prev = 0; val = 10 }

abbrev node2 : Node
node2 = record { next = 0; prev = 1; val = 20 }

abbrev node3 : Node
node3 = record { next = 0; prev = 0; val = 30 }

-- Nodes 1 and 2 are linked, node 3 is on its own.
abbrev heap : Heap
heap p =
    if p == 1
    then some node1
    else if p == 2
    then some node2
    else if p == 3
    then some node3
    else none

abbrev two : TyList
two = record { head = 1; tail = 2; len = 2; frees = true; match_fn = none }

remove-SelfLinked_example :
    (r : Heap × TyList × List ℕ) × ((remove heap two 2 ≡ done r)
      × SelfLinked heap two 2 node2 node1 r)
remove-SelfLinked_example =
    remove-SelfLinked heap two 2 node2 node1 (λ e. absurd (omega arith)) refl
      (λ e. absurd (omega arith)) (λ e. absurd (omega arith)) refl

two-Linked : Linked heap two (1 ∷ 2 ∷ [])
unfolding head_of last_of NotIn Distinct Chain
two-Linked = record {
  head = refl;
  tail = refl;
  len = refl;
  chain = (
    record {
      real = λ e. absurd (omega arith);
      node = node1;
      stands = refl;
      prev = refl;
      next = refl;
    },
    (
      record {
        real = λ e. absurd (omega arith);
        node = node2;
        stands = refl;
        prev = refl;
        next = refl;
      },
      tt,
    ),
  );
  distinct = (((λ e. absurd (omega arith)), tt), (tt, tt));
}

-- The second node is taken from the end and put in front, behind a third one.
abbrev moves : List Call
moves = pop_back ∷ push_front 2 ∷ push_back 3 ∷ []

moves_allowed : AllAllowed (λ q. datum (heap q)) moves (1 ∷ 2 ∷ [])
unfolding AllAllowed Allowed Pushable NotIn datum deque all_but_last
moves_allowed = (
  tt,
  (
    ((λ e. absurd (omega arith)), ((20, refl), (((λ e. absurd (omega arith)), tt), omega arith))),
    (
      (
        (λ e. absurd (omega arith)),
        (
          (30, refl),
          (((λ e. absurd (omega arith)), ((λ e. absurd (omega arith)), tt)), omega arith),
        ),
      ),
      tt,
    ),
  ),
)

moved : deque_calls moves (1 ∷ 2 ∷ []) ≡ (2 ∷ 1 ∷ 3 ∷ [], 2 ∷ 2 ∷ 3 ∷ [])
unfolding deque_calls deque all_but_last last_of
moved = refl

found_third : first_match (matches two 30) (λ q. datum (heap q)) (2 ∷ 1 ∷ 3 ∷ []) ≡ 3
unfolding first_match passes datum
found_third = refl

moved_few : length (deque_calls moves (1 ∷ 2 ∷ [])).0 < 4
unfolding deque_calls deque all_but_last
moved_few = omega arith

calls-deque_calls_example :
    (r : Heap × TyList × List ℕ) × ((calls moves heap two ≡ done r)
      × ((r.2 ≡ (deque_calls moves (1 ∷ 2 ∷ [])).1)
          × (Linked r.0 r.1 (deque_calls moves (1 ∷ 2 ∷ [])).0
              × (Keeps heap r.0
                  × (find true 4 r.0 r.1 30 ≡ (
                      if true
                      then done (
                          first_match
                            (matches two 30)
                            (λ q. datum (heap q))
                            (deque_calls moves (1 ∷ 2 ∷ [])).0)
                      else fault))))))
calls-deque_calls_example =
    calls-deque_calls true 4 heap two (1 ∷ 2 ∷ []) moves 30 two-Linked (omega arith) moves_allowed
      moved_few

list_at-del_example :
    (list_at true heap two (negsuc 0) ≡ done (pointer_at (1 ∷ 2 ∷ []) (negsuc 0)))
    × Deleted heap (1 ∷ 2 ∷ []) true (del heap two)
list_at-del_example = list_at-del heap two (1 ∷ 2 ∷ []) (negsuc 0) two-Linked
