-- ===== src/Slices/Tests.antt =====
-- Runs of the slice functions, and the theorems at concrete inputs.
use tyto_h.Base.{ℕ, ◌≤◌, ◌≡◌, Option, [], ◌∷◌, arith, done}
use tyto_h.Slices.{Slice, Split, Valid, slice_find, slice_rfind, slice_split, slice_starts_with}
use tyto_h.Slices.{slice_ends_with}
use tyto_h.Slices.Search.{First, Last, Parted, slice_find-slice_rfind, slice_split-Parted}
use tyto_h.Slices.Fixes.{Decides, Agree, slice_starts_with-slice_ends_with}

-- The four characters "a=b=" of an array that goes on.
abbrev word : Slice
word = record { object = 32 ∷ 97 ∷ 61 ∷ 98 ∷ 61 ∷ 99 ∷ 0 ∷ []; start = 1; size = 4 }

word-Valid : Valid word
unfolding Valid
word-Valid = omega arith

slice_find-slice_rfind_example :
    ((o : Option ℕ) × ((slice_find word 61 ≡ done o) × First word 61 0 4 o))
    × ((o : Option ℕ) × ((slice_rfind word 61 ≡ done o) × Last word 61 4 o))
slice_find-slice_rfind_example = slice_find-slice_rfind word 61 word-Valid

slice_split-Parted_example : (r : Split) × ((slice_split word 61 ≡ done r) × Parted word 61 r)
slice_split-Parted_example = slice_split-Parted word 61 word-Valid

abbrev prefix : Slice
prefix = record { object = 97 ∷ 61 ∷ []; start = 0; size = 2 }

prefix-Valid : Valid prefix
unfolding Valid
prefix-Valid = omega arith

slice_starts_with-slice_ends_with_example :
    Decides (slice_starts_with word prefix) ((2 ≤ 4) × Agree word prefix 0 0 2)
    × Decides (slice_ends_with word prefix) ((2 ≤ 4) × Agree word prefix 2 0 2)
slice_starts_with-slice_ends_with_example =
    slice_starts_with-slice_ends_with word prefix word-Valid prefix-Valid
