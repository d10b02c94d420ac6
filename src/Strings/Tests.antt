-- ===== src/Strings/Tests.antt =====
-- Runs of the string functions, and the theorems at concrete inputs.
use tyto_h.Base.{ℕ, zero, suc, ◌≤◌, ◌≡◌, refl, sym, ap, ◌∙◌, inl, Option, none, some}
use tyto_h.Base.{List, [], ◌∷◌, ◌++◌, arith, length, take, done, fault}
use tyto_h.Slices.{Slice, Valid, text}
use tyto_h.Strings.{TyString, string_push, string_push_slice, string_slice, string_pop}
use tyto_h.Strings.Change.{Holds, Kept, Reallocates}
use tyto_h.Strings.Push.{Starved, Started, AllocatesNull, string_push-Started}
use tyto_h.Strings.Pop.{Popped, string_pop-Popped}
use tyto_h.Strings.{string_insert, string_insert_slice, string_remove}
use tyto_h.Strings.Insert.{Inserted, string_insert-string_insert_slice}
use tyto_h.Strings.Remove.{Removed, string_remove-Removed}
use tyto_h.Strings.Append.{Allocates, StarvedBy, string_push_slice-Kept, string_slice-Kept}

-- An allocator that fills what is new with zeros.
abbrev pad : List ℕ → ℕ → List ℕ
pad b zero = []
pad [] (suc n) = 0 ∷ pad [] n
pad (x ∷ b) (suc n) = x ∷ pad b n

abbrev realloc_zeros : Option (List ℕ) → ℕ → Option (List ℕ)
realloc_zeros none n = some (pad [] n)
realloc_zeros (some b) n = some (pad b n)

abbrev malloc_zeros : ℕ → Option (List ℕ)
malloc_zeros n = some (pad [] n)

length-pad : (b : List ℕ) (n : ℕ) → length (pad b n) ≡ n
length-pad b zero = refl
length-pad [] (suc n) = ap suc (length-pad [] n)
length-pad (x ∷ b) (suc n) = ap suc (length-pad b n)

take-pad : (b : List ℕ) (n : ℕ) → length b ≤ n → take (length b) (pad b n) ≡ b
take-pad [] n h = refl
take-pad (x ∷ b) zero h = absurd (omega arith)
take-pad (x ∷ b) (suc n) h = ap (λ t. x ∷ t) (take-pad b n (omega arith))

some-inj : (b c : List ℕ) → some b ≡ some c → b ≡ c
some-inj b c e = ap (λ o. elim o [ none ↦ b | some x ↦ x ]) e

realloc_zeros-Reallocates : Reallocates realloc_zeros
unfolding Reallocates
realloc_zeros-Reallocates b c n le e =
    let same = some-inj (pad b n) c e in
    (ap length (sym same) ∙ length-pad b n, ap (take (length b)) (sym same) ∙ take-pad b n le)

malloc_zeros-Allocates : Allocates malloc_zeros
unfolding Allocates
malloc_zeros-Allocates n b e = ap length (sym (some-inj (pad [] n) b e)) ∙ length-pad [] n

-- A full string "ab", and an empty one with room.
abbrev full : TyString
full = record { buffer = some (97 ∷ 98 ∷ []); size = 2; capacity = 2 }

abbrev vacant : TyString
vacant = record { buffer = some (0 ∷ 0 ∷ []); size = 0; capacity = 2 }

full-Holds : Holds full (97 ∷ 98 ∷ [])
unfolding Holds
full-Holds = (97 ∷ 98 ∷ [], (record { has = refl; room = refl; fits = omega arith }, refl))

vacant_pop : string_pop vacant ≡ fault
unfolding string_pop
vacant_pop = refl

abbrev piece : Slice
piece = record { object = 32 ∷ 99 ∷ 100 ∷ 0 ∷ []; start = 1; size = 2 }

piece-Valid : Valid piece
unfolding Valid
piece-Valid = omega arith

realloc_zeros-AllocatesNull : AllocatesNull realloc_zeros
unfolding AllocatesNull
realloc_zeros-AllocatesNull b n e = ap length (sym (some-inj (pad [] n) b e)) ∙ length-pad [] n

full-Started : Started full (97 ∷ 98 ∷ [])
unfolding Started
full-Started = inl full-Holds

string_push-Started_example :
    (t : TyString) × ((string_push realloc_zeros full 99 ≡ done t)
      × Kept (Starved realloc_zeros full) t (97 ∷ 98 ∷ 99 ∷ []))
string_push-Started_example =
    string_push-Started realloc_zeros full (97 ∷ 98 ∷ []) 99 realloc_zeros-Reallocates
      realloc_zeros-AllocatesNull full-Started (omega arith)

string_push_slice-Kept_example :
    (t : TyString) × ((string_push_slice realloc_zeros full piece ≡ done t)
      × Kept (StarvedBy realloc_zeros full 2) t ((97 ∷ 98 ∷ []) ++ text piece))
string_push_slice-Kept_example =
    string_push_slice-Kept realloc_zeros full (97 ∷ 98 ∷ []) piece realloc_zeros-Reallocates
      full-Holds piece-Valid (omega arith) (omega arith)

slice_of_piece :
    (t : TyString) × ((string_slice malloc_zeros piece ≡ done t)
      × Kept (malloc_zeros 2 ≡ none) t (text piece))
slice_of_piece = string_slice-Kept malloc_zeros piece malloc_zeros-Allocates piece-Valid

string_pop-Popped_example : Popped (string_pop full) (97 ∷ 98 ∷ [])
string_pop-Popped_example = string_pop-Popped full (97 ∷ 98 ∷ []) full-Holds (omega arith)

string_insert-string_insert_slice_example :
    ((t : TyString) × ((string_insert realloc_zeros full 1 120 ≡ done t)
        × Inserted (Starved realloc_zeros full) t (97 ∷ []) (120 ∷ []) (98 ∷ [])))
    × ((t : TyString) × ((string_insert_slice realloc_zeros full 1 piece ≡ done t)
          × Inserted (StarvedBy realloc_zeros full 2) t (97 ∷ []) (text piece) (98 ∷ [])))
string_insert-string_insert_slice_example =
    string_insert-string_insert_slice realloc_zeros full (97 ∷ []) (98 ∷ []) 120 piece
      realloc_zeros-Reallocates full-Holds piece-Valid (omega arith) (omega arith)

string_remove-Removed_example : Removed (string_remove full 0) [] (97 ∷ 98 ∷ [])
string_remove-Removed_example =
    string_remove-Removed full [] (97 ∷ 98 ∷ []) full-Holds (omega arith)
