-- ===== src/Linklist/Find.antt =====
-- What `ty_list_find` of src/ty_linklist.c answers, and what any calls do.
use tyto_h.Base.{ℕ, zero, suc, ◌^◌, ◌<◌, ◌≡◌, refl, sym, ap, ◌∙◌, ◌≢◌, Bool, true, false}
use tyto_h.Base.{Option, none, some, List, [], ◌∷◌, arith, ◌==◌, if◌then◌else◌, ne→==}
use tyto_h.Base.{length, done, fault}
use tyto_h.Linklist.{
  Heap, Node, TyList, head_first, find, find_loop, iter_new, iter_new_from_node, iter_next, matches,
}
use tyto_h.Linklist.Remove.{fetch-some}
use tyto_h.Linklist.Chain.{head_of, Chain}
use tyto_h.Linklist.Ends.{Linked, datum, Keeps}
use tyto_h.Linklist.Deque.{Call, calls, deque_calls, AllAllowed, calls-AllLeave}

datum_at : (o : Option Node) (n : Node) → o ≡ some n → datum o ≡ some n.val
unfolding datum
datum_at o n e = ap datum e

pick :
    (b : Bool) (at a rest : ℕ)
    → at ≡ a
    → (if b then done at else done rest) ≡ done (if b then a else rest)
pick true at a rest e = ap done e
pick false at a rest e = refl

-- The first pointer of the list whose datum passes the test, or 0.
unfoldable pub passes : (ℕ → Bool) → Option ℕ → Bool
passes test none = false
passes test (some x) = test x

unfoldable pub first_match : (ℕ → Bool) → (data_at : ℕ → Option ℕ) → List ℕ → ℕ
first_match test data_at [] = 0
first_match test data_at (a ∷ ps) =
    let rest = first_match test data_at ps in if passes test (data_at a) then a else rest

find_loop-first_match :
    (data_at : ℕ → Option ℕ) (fuel : ℕ) (h : Heap) (l : TyList) (val back at : ℕ) (ps : List ℕ)
    → ((q : ℕ) → datum (h q) ≡ data_at q)
    → Chain h back ps 0
    → at ≡ head_of ps 0
    → length ps < fuel
    → find_loop fuel h l val (record { at = at; direction = head_first })
      ≡ done (first_match (matches l val) data_at ps)
unfolding find_loop iter_next first_match Chain head_of passes
find_loop-first_match data_at zero h l val back at ps same c e lim = absurd (omega arith)
find_loop-first_match data_at (suc fuel) h l val back at [] same c e lim =
    let null : (at == 0) ≡ true = ground arith in rw null refl
find_loop-first_match data_at (suc fuel) h l val back at (a ∷ ps) same c e lim =
    let k = c.0 in
    let n = k.node in
    let real : at ≢ 0 = λ z. k.real (sym e ∙ z) in
    let stands : h at ≡ some n = ap h e ∙ k.stands in
    let found : data_at a ≡ some n.val = sym (same a) ∙ datum_at (h a) n k.stands in
    let rest =
      find_loop-first_match data_at fuel h l val a n.next ps same c.1 k.next (omega arith) in
    rw
      (
        ne→== at 0 real,
        fetch-some h at n real stands,
        ne→== at 0 real,
        fetch-some h at n real stands,
        rest,
        found,
      )
      (pick (matches l val n.val) at a (first_match (matches l val) data_at ps) e)

find-first_match :
    (data_at : ℕ → Option ℕ) (ok : Bool) (fuel : ℕ) (h : Heap) (l : TyList) (val : ℕ) (ps : List ℕ)
    → ((q : ℕ) → datum (h q) ≡ data_at q)
    → Linked h l ps
    → length ps < fuel
    → find ok fuel h l val ≡ (if ok then done (first_match (matches l val) data_at ps) else fault)
unfolding find iter_new iter_new_from_node
find-first_match data_at false fuel h l val ps same k lim = refl
find-first_match data_at true fuel h l val ps same k lim =
    find_loop-first_match data_at fuel h l val 0 l.head ps same k.chain k.head lim

same_test :
    (l l' : TyList) (val : ℕ) (data_at : ℕ → Option ℕ) (ps : List ℕ)
    → l'.match_fn ≡ l.match_fn
    → first_match (matches l' val) data_at ps ≡ first_match (matches l val) data_at ps
same_test l l' val data_at ps e =
    ap (λ f. first_match (λ b. elim f [ none ↦ val == b | some g ↦ g val b ]) data_at ps) e

-- On a list that stands for some pointers, fewer than 2^32, any calls of the pushes and pops
-- end without a fault, where each push is of a node that stands on the heap, is not in the
-- list, and finds room for its count. They return what the queue with two ends returns, leave
-- a list that stands for its pointers, linked in both directions, and change no data; and
-- `ty_list_find`, with more rounds than pointers, then gives the first of them whose datum
-- matches, or the null pointer, if malloc gives it an iterator, and faults if not.
pub calls-deque_calls :
    (ok : Bool) (fuel : ℕ) (h : Heap) (l : TyList) (ps : List ℕ) (cs : List Call) (val : ℕ)
    → Linked h l ps
    → length ps < 2 ^ 32
    → AllAllowed (λ q. datum (h q)) cs ps
    → length (deque_calls cs ps).0 < fuel
    → (r : Heap × TyList × List ℕ) × ((calls cs h l ≡ done r)
        × ((r.2 ≡ (deque_calls cs ps).1)
            × (Linked r.0 r.1 (deque_calls cs ps).0
                × (Keeps h r.0
                    × (find ok fuel r.0 r.1 val ≡ (
                        if ok
                        then done
                            (first_match (matches l val) (λ q. datum (h q)) (deque_calls cs ps).0)
                        else fault))))))
calls-deque_calls ok fuel h l ps cs val k lim allowed enough =
    let data_at : ℕ → Option ℕ = λ q. datum (h q) in
    let s = calls-AllLeave data_at cs h l ps (λ q. refl) k lim allowed in
    let left = (deque_calls cs ps).0 in
    (
      (s.heap, s.list, (deque_calls cs ps).1),
      (
        s.runs,
        (
          refl,
          (
            s.linked,
            (
              s.keeps,
              find-first_match data_at ok fuel s.heap s.list val left s.keeps s.linked enough
                  ∙ ap (λ q. if ok then done q else fault)
                      (same_test l s.list val data_at left s.matching),
            ),
          ),
        ),
      ),
    )
