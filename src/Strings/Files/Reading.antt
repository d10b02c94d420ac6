-- ===== src/Strings/Files/Reading.antt =====
-- What `read_file_tostring` of src/ty_string.c does with the answers of stdio.
use tyto_h.Base.{ℕ, ◌+◌, ◌^◌, ◌<◌, ◌≡◌, refl, sym, ap, ◌∙◌, inl, inr, true, false, Option}
use tyto_h.Base.{none, some, List, [], ◌∷◌, ◌++◌, arith, ◌==◌, leb, lt→ltb, le→ltb}
use tyto_h.Base.{le→leb, lt→leb, Bool-cases, Option-cases, length, take, length-take}
use tyto_h.Base.{take_prefix, take-take, done, fault, pos, negsuc}
use mathlib.Core.Path.{subst}
use tyto_h.Slices.{Slice, Valid, text, slice_raw}
use tyto_h.Strings.{TyString, read_bytes, write_bytes}
use tyto_h.Strings.Change.{Holds, Kept, write_bytes-done}
use tyto_h.Strings.Append.{Allocates, string_slice-Kept}
use tyto_h.Strings.Files.{Stdio, read_into, bytes_of, read_file_tostring, room_of}

-- The bytes of a string with a text are its text.
pub bytes_of-Holds :
    (s : TyString) (cs : List ℕ) → Holds s cs → (bytes_of s ≡ done cs) × (s.size ≡ length cs)
unfolding bytes_of Holds read_bytes
bytes_of-Holds s cs (b, (w, e)) =
    let size : s.size ≡ length cs =
      omega (arith, length-take s.size b, ap length e, w.room, w.fits) in
    elim (Bool-cases (s.size == 0)) [
      | inl t ↦ rw t (ap done (ap (λ n. take n b) {x = 0} {y = s.size} (ground arith) ∙ e), size)
      | inr f ↦
          rw (f, w.has, le→leb (0 + s.size) (length b) (omega (arith, w.room, w.fits)))
            (ap done e, size)
    ]

-- The buffer with the bytes and a null character, copied into a string.
pub read_into-Kept :
    {Disk : Type 0} (closed : Disk) (malloc : ℕ → Option (List ℕ)) (buffer cs : List ℕ)
    → Allocates malloc
    → length buffer ≡ length cs + 1
    → (t : TyString) × ((read_into malloc buffer cs false closed ≡ done (some (t, closed)))
        × Kept (malloc (length cs) ≡ none) t cs)
unfolding read_into Valid text slice_raw
read_into-Kept closed malloc buffer cs law len =
    let (b, (runs, (len1, same))) = write_bytes-done buffer 0 cs (omega (arith, len)) in
    let (b', (runs', (len2, same'))) =
      write_bytes-done b (length cs) (0 ∷ []) (omega (arith, len, len1)) in
    let sl : Slice = record { object = b'; start = 0; size = length cs } in
    let (t, (copied, kept)) = string_slice-Kept malloc sl law (omega (arith, len, len1, len2)) in
    let whole : take (length cs) b' ≡ cs =
      sym (take-take b' (length cs) (length cs + 1) (omega arith))
      ∙ ap (take (length cs)) (
          same'
          ∙ ap (λ xs. xs ++ 0 ∷ [])
              (ap (λ n. take n b) {x = length cs} {y = 0 + length cs} (omega arith) ∙ same))
      ∙ take_prefix cs (0 ∷ []) (length cs) refl in
    rw (runs, runs', copied)
      (t, (refl, subst (λ xs. Kept (malloc (length cs) ≡ none) t xs) whole kept))

write_bytes-fault :
    (b : List ℕ) (i : ℕ) (cs : List ℕ) → length b < i + length cs → write_bytes b i cs ≡ fault
unfolding write_bytes
write_bytes-fault b i cs over = rw (lt→leb (i + length cs) (length b) over) refl

-- A buffer of no characters has no room for the null character.
read_into-fault :
    {Disk : Type 0} (closed : Disk) (malloc : ℕ → Option (List ℕ)) (buffer cs : List ℕ)
    → length buffer ≡ 0
    → read_into malloc buffer cs false closed ≡ fault
unfolding read_into
read_into-fault closed malloc buffer cs len =
    elim (Bool-cases (leb (0 + length cs) (length buffer))) [
      | inr f ↦ rw (write_bytes-fault buffer 0 cs (ground arith)) refl
      | inl t ↦
          let (b, (runs, (len1, same))) = write_bytes-done buffer 0 cs (ground arith) in
          rw (runs, write_bytes-fault b (length cs) (0 ∷ []) (omega (arith, len, len1))) refl
    ]

-- A file that was opened, whose end `ftell` gives.
module _ {Disk : Type 0} (io : Stdio Disk) (malloc malloc' : ℕ → Option (List ℕ)) (disk : Disk)
    (name cs buffer : List ℕ) where
  pub read_file-given :
      io.opens disk name ≡ true
      → io.end_of disk name ≡ pos (length cs)
      → length cs + 1 < 2 ^ 63
      → malloc (length cs + 1) ≡ some buffer
      → io.fread disk name (length cs) ≡ cs
      → read_file_tostring io malloc malloc' disk (some name)
        ≡ read_into malloc' buffer cs false (io.fclose disk name).0
  unfolding read_file_tostring room_of
  read_file-given o e small room g =
      rw
        (
          o,
          e,
          g,
          le→ltb (length cs) (length cs) (omega arith),
          lt→leb 9223372036854775807 (length cs) (omega arith),
          room,
        )
        refl

  -- A text that is read too short, without the end of the file, exits.
  pub read_file-unread :
      io.opens disk name ≡ true
      → io.end_of disk name ≡ pos (length cs)
      → length cs + 1 < 2 ^ 63
      → malloc (length cs + 1) ≡ some buffer
      → length buffer ≡ length cs + 1
      → length (io.fread disk name (length cs)) < length cs
      → io.feof disk name (length cs) ≡ false
      → read_file_tostring io malloc malloc' disk (some name) ≡ done none
  unfolding read_file_tostring room_of read_into
  read_file-unread o e small room len less f =
      let got = io.fread disk name (length cs) in
      let (b, (runs, (len1, same))) = write_bytes-done buffer 0 got (omega (arith, len)) in
      rw
        (
          o,
          e,
          lt→ltb (length got) (length cs) less,
          f,
          lt→leb 9223372036854775807 (length cs) (omega arith),
          room,
          runs,
        )
        refl

  -- Where `ftell` fails, the buffer has no characters.
  pub read_file-fault :
      Allocates malloc
      → io.opens disk name ≡ true
      → io.end_of disk name ≡ negsuc 0
      → read_file_tostring io malloc malloc' disk (some name) ≡ fault
  unfolding read_file_tostring room_of Allocates
  read_file-fault law o e =
      rw (o, e)
        (elim (Option-cases (malloc 0)) [
          | inl none_left ↦ rw none_left refl
          | inr (b, some_left) ↦
              rw some_left (read_into-fault (io.fclose disk name).0 malloc' b _ (law 0 b some_left))
        ])
