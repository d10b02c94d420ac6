-- ===== src/Linklist.antt =====
-- The doubly linked list of src/ty_linklist.c and includes/ty_linklist.h.
-- A pointer is a number, 0 the null pointer; the heap gives the node at a pointer, or none
-- where nothing is allocated. A read or a write through any other pointer is a fault. The
-- callbacks `match_fn` and `list_free_fn` are parameters: a test, and the calls that are
-- made, as the list of their arguments. Iterators are values; `malloc` may give none.
mod Remove
mod Push
mod Chain
mod Ends
mod Back
mod Deque
mod Find
mod At
mod Delete
mod Tests
use tyto_h.Base.{ℕ, zero, suc, ◌+◌, ◌%◌, ◌^◌, Bool, false, not, Option, none, some, List}
use tyto_h.Base.{[], ◌∷◌, ◌>>=◌, ◌==◌, if◌then◌else◌, ltb, Outcome, need, ℤ, done, fault}
use tyto_h.Base.{out_of_fuel, pos, negsuc}

pub data Direction : Type 0 where
  head_first tail_first : Direction

pub record Node : Type 0 where
  pub next : ℕ
  pub prev : ℕ
  pub val : ℕ

pub record TyList : Type 0 where
  pub head : ℕ
  pub tail : ℕ
  pub len : ℕ
  pub frees : Bool
  pub match_fn : Option (ℕ → ℕ → Bool)

pub record Iter : Type 0 where
  pub at : ℕ
  pub direction : Direction

abbrev pub Heap : Type 0
Heap = ℕ → Option Node

unfoldable pub fetch : Heap → ℕ → Outcome Node
fetch h p = if p == 0 then fault else need (h p)

unfoldable pub put : Heap → ℕ → Node → Heap
put h a n p = if p == a then some n else h p

unfoldable pub release : Heap → ℕ → Heap
release h a p = if p == a then none else h p

-- A field of the node at a pointer is written.
unfoldable pub update : (Node → Node) → Heap → ℕ → Outcome Heap
update f h a = fetch h a >>= (λ n. done (put h a (f n)))

abbrev pub with_next : ℕ → Node → Node
with_next p n = record { next = p; prev = n.prev; val = n.val }

abbrev pub with_prev : ℕ → Node → Node
with_prev p n = record { next = n.next; prev = p; val = n.val }

abbrev pub with_ends : (head tail len : ℕ) → TyList → TyList
with_ends head tail len l = record {
  head = head;
  tail = tail;
  len = len;
  frees = l.frees;
  match_fn = l.match_fn;
}

-- `++lst->length` and `--lst->length` on an `unsigned int`.
abbrev pub up : ℕ → ℕ
up n = (n + 1) % 2 ^ 32

abbrev pub down : ℕ → ℕ
down n = (n + 0xffff_ffff) % 2 ^ 32

unfoldable pub iter_new_from_node : (ok : Bool) → ℕ → Direction → Option Iter
iter_new_from_node ok node dir = if ok then some (record { at = node; direction = dir }) else none

unfoldable pub iter_new : (ok : Bool) → TyList → Direction → Option Iter
iter_new ok l head_first = iter_new_from_node ok l.head head_first
iter_new ok l tail_first = iter_new_from_node ok l.tail tail_first

abbrev pub step_from : Direction → Node → ℕ
step_from head_first n = n.next
step_from tail_first n = n.prev

-- The iterator moved on, and the node it stood at.
unfoldable pub iter_next : Heap → Iter → Outcome (Iter × ℕ)
iter_next h it =
    if it.at == 0
    then done (it, 0)
    else fetch h it.at
      >>= (λ n. done (record { at = step_from it.direction n; direction = it.direction }, it.at))

unfoldable pub node_new : (ok : Bool) → ℕ → Option Node
node_new ok val = if ok then some (record { next = 0; prev = 0; val = val }) else none

unfoldable pub list_new : (ok : Bool) → Option TyList
list_new ok =
    if ok
    then some (record { head = 0; tail = 0; len = 0; frees = false; match_fn = none })
    else none

-- The loop of `ty_list_del`: the heap, and the arguments of `list_free_fn` in order.
unfoldable pub del_loop : (len : ℕ) → Bool → Heap → ℕ → Outcome (Heap × List ℕ)
del_loop zero frees h curr = done (h, [])
del_loop (suc len) frees h curr = fetch h curr >>= (λ n.
    del_loop len frees (release h curr) n.next
    >>= (λ r. done (r.0, (if frees then n.val ∷ r.1 else r.1))))

unfoldable pub del : Heap → TyList → Outcome (Heap × List ℕ)
del h l = del_loop l.len l.frees h l.head

-- The heap, the list, and the node that is returned.
unfoldable pub rpush : Heap → TyList → ℕ → Outcome (Heap × TyList × ℕ)
rpush h l node =
    if node == 0
    then done (h, l, 0)
    else if not (l.len == 0)
    then update (λ n. with_next 0 (with_prev l.tail n)) h node
      >>= (λ h1. update (with_next node) h1 l.tail)
      >>= (λ h2. done (h2, with_ends l.head node (up l.len) l, node))
    else update (λ n. with_next 0 (with_prev 0 n)) h node
      >>= (λ h1. done (h1, with_ends node node (up l.len) l, node))

unfoldable pub lpush : Heap → TyList → ℕ → Outcome (Heap × TyList × ℕ)
lpush h l node =
    if node == 0
    then done (h, l, 0)
    else if not (l.len == 0)
    then update (λ n. with_prev 0 (with_next l.head n)) h node
      >>= (λ h1. update (with_prev node) h1 l.head)
      >>= (λ h2. done (h2, with_ends node l.tail (up l.len) l, node))
    else update (λ n. with_next 0 (with_prev 0 n)) h node
      >>= (λ h1. done (h1, with_ends node node (up l.len) l, node))

-- The last two writes of `ty_list_rpop` and `ty_list_lpop`.
unfoldable pub unlinked : Heap → TyList → ℕ → Outcome (Heap × TyList × ℕ)
unlinked h l node = update (λ n. with_next 0 (with_prev 0 n)) h node >>= (λ h1. done (h1, l, node))

unfoldable pub rpop : Heap → TyList → Outcome (Heap × TyList × ℕ)
rpop h l =
    if l.len == 0
    then done (h, l, 0)
    else if not (down l.len == 0)
    then fetch h l.tail >>= (λ n.
      update (with_next 0) h n.prev
      >>= (λ h1. unlinked h1 (with_ends l.head n.prev (down l.len) l) l.tail))
    else unlinked h (with_ends 0 0 (down l.len) l) l.tail

unfoldable pub lpop : Heap → TyList → Outcome (Heap × TyList × ℕ)
lpop h l =
    if l.len == 0
    then done (h, l, 0)
    else if not (down l.len == 0)
    then fetch h l.head >>= (λ n.
      update (with_prev 0) h n.next
      >>= (λ h1. unlinked h1 (with_ends n.next l.tail (down l.len) l) l.head))
    else unlinked h (with_ends 0 0 (down l.len) l) l.head

abbrev pub matches : TyList → ℕ → ℕ → Bool
matches l a b = elim l.match_fn [ none ↦ a == b | some f ↦ f a b ]

-- The loop of `ty_list_find`, with a bound on its rounds; 0 is the answer if none matches.
unfoldable pub find_loop : ℕ → Heap → TyList → ℕ → Iter → Outcome ℕ
find_loop zero h l val it = out_of_fuel
find_loop (suc fuel) h l val it = iter_next h it >>= (λ r.
    let rest = find_loop fuel h l val r.0 in
    if r.1 == 0
    then done 0
    else fetch h r.1 >>= (λ n. if matches l val n.val then done r.1 else rest))

unfoldable pub find : (ok : Bool) → ℕ → Heap → TyList → ℕ → Outcome ℕ
find ok fuel h l val = need (iter_new ok l head_first) >>= find_loop fuel h l val

-- `while (idx--) node = ty_list_iter_next(it)`.
unfoldable pub at_loop : ℕ → Heap → Iter → ℕ → Outcome ℕ
at_loop zero h it node = done node
at_loop (suc idx) h it node = iter_next h it >>= (λ r. at_loop idx h r.0 r.1)

unfoldable pub at_from : (ok : Bool) → Heap → TyList → ℕ → Direction → Outcome ℕ
at_from ok h l idx dir =
    if ltb idx l.len
    then need (iter_new ok l dir) >>= iter_next h >>= (λ r. at_loop idx h r.0 r.1)
    else done 0

-- A negative index counts from the tail: `~idx` of `negsuc k` is `k`.
unfoldable pub list_at : (ok : Bool) → Heap → TyList → ℤ → Outcome ℕ
list_at ok h l (pos k) = at_from ok h l k head_first
list_at ok h l (negsuc k) = at_from ok h l k tail_first

-- The first line of `ty_list_remove`.
unfoldable pub remove_forward : Heap → TyList → Node → Outcome (Heap × TyList)
remove_forward h l n =
    if not (n.prev == 0)
    then update (with_next n.next) h n.prev >>= (λ h1. done (h1, l))
    else done (h, with_ends n.next l.tail l.len l)

-- The second line of `ty_list_remove`: it writes `node->prev->prev`.
unfoldable pub remove_backward : Heap → TyList → Node → Outcome (Heap × TyList)
remove_backward h l n =
    if not (n.prev == 0)
    then update (with_prev n.prev) h n.prev >>= (λ h1. done (h1, l))
    else done (h, with_ends l.head n.prev l.len l)

-- The heap, the list, and the argument of `list_free_fn`, if it is called.
unfoldable pub remove : Heap → TyList → ℕ → Outcome (Heap × TyList × List ℕ)
remove h l node = fetch h node >>= remove_forward h l >>= (λ r.
    fetch r.0 node >>= remove_backward r.0 r.1 >>= (λ s. fetch s.0 node >>= (λ n. done (
      release s.0 node,
      with_ends s.1.head s.1.tail (down s.1.len) s.1,
      (if l.frees then n.val ∷ [] else []),
    ))))
