-- ===== src/Alloc/Vectors/Tests.antt =====
-- A run of the vector, and the theorem at a concrete input.
use tyto_h.Base.{ℕ, ◌+◌, ◌-◌, ◌*◌, ◌/◌, ◌^◌, ◌<◌, ◌≡◌, refl, sym, ap, ◌∙◌, true, Option}
use tyto_h.Base.{none, some, List, [], ◌∷◌, ◌++◌, arith, length, take, replicate}
use tyto_h.Base.{length-append, length-replicate, take_prefix, done}
use tyto_h.Alloc.{double_loop}
use tyto_h.Alloc.Vectors.{Vector, vector_init, vector_push_n}
use tyto_h.Alloc.Vectors.{vector_ensure, vector_grown, append_elements, write_elements}
use tyto_h.Alloc.Vectors.{read_elements, vector_clear, vector_deinit}
use tyto_h.Alloc.Vectors.Room.{or_empty, Remaps, Holds}
use tyto_h.Alloc.Vectors.Calls.{Op, Legal, amount}
use tyto_h.Alloc.Vectors.Runs.{AllLegal, total, Run, calls-Run}

-- An allocator that fills what is new with zeros, for elements of 4 bytes.
abbrev remap : Option (List ℕ) → ℕ → Option (List ℕ)
remap old bytes = some (or_empty old ++ replicate (bytes / 4 - length (or_empty old)) 0)

remap-Remaps : Remaps 4 remap
unfolding Remaps
remap-Remaps old new bytes room e =
    let same : new ≡ or_empty old ++ replicate (bytes / 4 - length (or_empty old)) 0 =
      ap (λ o. elim o [ none ↦ new | some xs ↦ xs ]) (sym e) in
    (
      ap length same
          ∙ length-append (or_empty old) (replicate (bytes / 4 - length (or_empty old)) 0)
          ∙ omega (arith, length-replicate {A = ℕ} (bytes / 4 - length (or_empty old)) 0),
      ap (take (length (or_empty old))) same
          ∙ take_prefix (or_empty old) (replicate (bytes / 4 - length (or_empty old)) 0)
              (length (or_empty old)) refl,
    )

abbrev fresh : Vector ℕ
fresh = vector_init

fresh-Holds : Holds fresh []
unfolding vector_init
fresh-Holds = record { room = refl; fits = omega arith; held = refl }

abbrev ops : List (Op ℕ)
ops = Op.pop ∷ Op.push 7 ∷ Op.push_n (1 ∷ 2 ∷ 3 ∷ []) 2 ∷ Op.pop ∷ []

ops-AllLegal : AllLegal ops
unfolding AllLegal Legal
ops-AllLegal = (tt, (tt, ((omega arith, omega arith), (tt, tt))))

ops_small : (2 * (fresh.size + total ops) + 16) * 4 < 2 ^ 64
unfolding total amount vector_init
ops_small = omega arith

calls-Run_example : (t : Vector ℕ) × ((ds : List ℕ) × (Run remap 4 fresh [] ops t ds × Holds t ds))
calls-Run_example =
    calls-Run remap 4 fresh [] ops (omega arith) remap-Remaps fresh-Holds ops-AllLegal ops_small

-- A buffer of 16 elements, two of them in use, cleared and given back.
pushes :
    vector_push_n remap 4 fresh (5 ∷ 6 ∷ 7 ∷ []) 2
    ≡ done (record { size = 2; elements = some (5 ∷ 6 ∷ replicate 14 0); capacity = 16 }, true)
unfolding vector_push_n vector_ensure vector_grown append_elements write_elements read_elements
    vector_init double_loop
pushes = refl

gives_back : vector_deinit (vector_clear fresh) ≡ (fresh, none)
unfolding vector_deinit vector_clear vector_init
gives_back = refl
