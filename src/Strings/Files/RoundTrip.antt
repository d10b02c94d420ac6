-- ===== src/Strings/Files/RoundTrip.antt =====
-- What `write_file_wstring` wrote, `read_file_tostring` reads back.
use tyto_h.Base.{ℕ, ◌+◌, ◌^◌, ◌<◌, ◌≡◌, refl, ap, ◌∙◌, ◌≢◌, ◌⊎◌, inl, inr, true, false}
use tyto_h.Base.{not, Option, none, some, List, arith, ◌==◌, if◌then◌else◌, ==_iff}
use tyto_h.Base.{Bool-cases, Option-cases, length, done, fault, pos, negsuc}
use tyto_h.Strings.{TyString}
use tyto_h.Strings.Change.{Holds, Kept}
use tyto_h.Strings.Append.{Allocates}
use tyto_h.Strings.Files.{Stdio, bytes_of, read_file_tostring, write_file_wstring, write_opened}
use tyto_h.Strings.Files.Reading.{
  bytes_of-Holds, read_into-Kept, read_file-given, read_file-unread, read_file-fault,
}

-- All bytes of a file that was created were written, and it was closed without a failure.
pub record Closed {Disk : Type 0} (io : Stdio Disk) (name cs : List ℕ) (after : Disk) : Type 0 where
  pub before : Disk
  pub opened : Disk
  pub created : io.creates before name ≡ some opened
  pub written : (io.fwrite opened name cs).1 ≡ length cs
  pub closing : io.fclose (io.fwrite opened name cs).0 name ≡ (after, true)

-- What stdio is documented to do: such a file, if `fseek` and `rewind` succeed on it, ends
-- behind the bytes, unless `ftell` fails, and gives them, unless `fread` stops at an error,
-- which is not the end of the file.
pub record Stores {Disk : Type 0} (io : Stdio Disk) : Type 0 where
  pub ended :
      (name cs : List ℕ) (after : Disk)
      → Closed io name cs after
      → io.seeks after name ≡ true
      → (io.end_of after name ≡ pos (length cs)) ⊎ (io.end_of after name ≡ negsuc 0)
  pub given :
      (name cs : List ℕ) (after : Disk)
      → Closed io name cs after
      → io.seeks after name ≡ true
      → (io.fread after name (length cs) ≡ cs)
        ⊎ ((length (io.fread after name (length cs)) < length cs)
            × (io.feof after name (length cs) ≡ false))

-- What becomes of a text that is written to a file and read from it.
pub data Filed {Disk : Type 0} (io : Stdio Disk) (malloc malloc' : ℕ → Option (List ℕ))
    (disk : Disk) (name : List ℕ) (s : TyString) (cs : List ℕ) : Type 0 where
  uncreated :
      io.creates disk name ≡ none
      → write_file_wstring io disk (some name) s ≡ done none
      → Filed io malloc malloc' disk name s cs
  unwritten :
      (opened : Disk)
      → io.creates disk name ≡ some opened
      → (io.fwrite opened name cs).1 ≢ length cs
      → write_file_wstring io disk (some name) s ≡ done none
      → Filed io malloc malloc' disk name s cs
  -- The code does not notice this one.
  unclosed :
      (opened after : Disk)
      → io.creates disk name ≡ some opened
      → io.fclose (io.fwrite opened name cs).0 name ≡ (after, false)
      → write_file_wstring io disk (some name) s ≡ done (some after)
      → Filed io malloc malloc' disk name s cs
  unopened :
      (after : Disk)
      → write_file_wstring io disk (some name) s ≡ done (some after)
      → io.opens after name ≡ false
      → read_file_tostring io malloc malloc' after (some name) ≡ done none
      → Filed io malloc malloc' disk name s cs
  -- Nor this one.
  unsought :
      (after : Disk)
      → write_file_wstring io disk (some name) s ≡ done (some after)
      → io.seeks after name ≡ false
      → Filed io malloc malloc' disk name s cs
  unmeasured :
      (after : Disk)
      → write_file_wstring io disk (some name) s ≡ done (some after)
      → io.end_of after name ≡ negsuc 0
      → read_file_tostring io malloc malloc' after (some name) ≡ fault
      → Filed io malloc malloc' disk name s cs
  unread :
      (after : Disk)
      → write_file_wstring io disk (some name) s ≡ done (some after)
      → length (io.fread after name (length cs)) < length cs
      → io.feof after name (length cs) ≡ false
      → read_file_tostring io malloc malloc' after (some name) ≡ done none
      → Filed io malloc malloc' disk name s cs
  filed :
      (after : Disk) (t : TyString)
      → write_file_wstring io disk (some name) s ≡ done (some after)
      → read_file_tostring io malloc malloc' after (some name)
        ≡ done (some (t, (io.fclose after name).0))
      → Kept (malloc' (length cs) ≡ none) t cs
      → Filed io malloc malloc' disk name s cs

write_file-eq :
    {Disk : Type 0} (io : Stdio Disk) (disk opened : Disk) (name : List ℕ) (s : TyString)
    (cs : List ℕ)
    → io.creates disk name ≡ some opened
    → bytes_of s ≡ done cs
    → write_file_wstring io disk (some name) s
      ≡ done (
          if not ((io.fwrite opened name cs).1 == s.size)
          then none
          else some (io.fclose (io.fwrite opened name cs).0 name).0)
unfolding write_file_wstring write_opened
write_file-eq io disk opened name s cs e bytes = ap (write_opened io name s) e ∙ rw bytes refl

-- What is read of a file that was closed.
reading-Filed :
    {Disk : Type 0} (io : Stdio Disk) (malloc malloc' : ℕ → Option (List ℕ)) (disk after : Disk)
    (name : List ℕ) (s : TyString) (cs buffer : List ℕ)
    → Stores io
    → Allocates malloc
    → Allocates malloc'
    → malloc (length cs + 1) ≡ some buffer
    → length cs + 1 < 2 ^ 63
    → Closed io name cs after
    → write_file_wstring io disk (some name) s ≡ done (some after)
    → Filed io malloc malloc' disk name s cs
unfolding read_file_tostring Allocates
reading-Filed io malloc malloc' disk after name s cs buffer stores law law' room small k w =
    elim (Bool-cases (io.opens after name)) [
      | inr f ↦ Filed.unopened after w f (rw f refl)
      | inl o ↦ elim (Bool-cases (io.seeks after name)) [
        | inr f ↦ Filed.unsought after w f
        | inl seek ↦ elim (stores.ended name cs after k seek) [
          | inr e ↦
              Filed.unmeasured after w e
                (read_file-fault io malloc malloc' after name cs buffer law o e)
          | inl e ↦ elim (stores.given name cs after k seek) [
            | inr (less, f) ↦ Filed.unread after w less f (
                read_file-unread io malloc malloc' after name cs buffer o e small room
                  (law (length cs + 1) buffer room) less f)
            | inl g ↦
                let (t, (runs, kept)) =
                  read_into-Kept (io.fclose after name).0 malloc' buffer cs law'
                    (law (length cs + 1) buffer room) in
                Filed.filed after t w
                  (read_file-given io malloc malloc' after name cs buffer o e small room g ∙ runs)
                  kept
          ]
        ]
      ]
    ]

-- write_file_wstring of a string with a text, shorter than 2^63 - 1, either exits, this only
-- where the file cannot be created or not all bytes are written, or ends, also where fclose
-- fails. Where fclose does not fail, nor a seek, read_file_tostring of the file then exits,
-- this only where the file cannot be opened or fread stops at an error, or faults, this only
-- where ftell fails, or gives a string with the text, or the null string, this only where the
-- second malloc fails: with stdio as documented, mallocs that give as many characters as are
-- asked for, and a first malloc that does not fail.
pub read_file_tostring-write_file_wstring :
    {Disk : Type 0} (io : Stdio Disk) (malloc malloc' : ℕ → Option (List ℕ)) (disk : Disk)
    (name : List ℕ) (s : TyString) (cs buffer : List ℕ)
    → Stores io
    → Allocates malloc
    → Allocates malloc'
    → malloc (length cs + 1) ≡ some buffer
    → length cs + 1 < 2 ^ 63
    → Holds s cs
    → Filed io malloc malloc' disk name s cs
unfolding write_file_wstring write_opened
read_file_tostring-write_file_wstring io malloc malloc' disk name s cs buffer stores law law' room
      small holds =
    let (bytes, size) = bytes_of-Holds s cs holds in
    elim (Option-cases (io.creates disk name)) [
      | inl e ↦ Filed.uncreated e (ap (write_opened io name s) e)
      | inr (opened, e) ↦
          let r = io.fwrite opened name cs in
          let c = io.fclose r.0 name in
          let written = write_file-eq io disk opened name s cs e bytes in
          elim (Bool-cases (r.1 == s.size)) [
            | inr f ↦
                Filed.unwritten opened e (λ g. absurd (ground (arith, size))) (written ∙ rw f refl)
            | inl t ↦
                let all : r.1 ≡ length cs = (==_iff r.1 s.size).0 t ∙ size in
                let w : write_file_wstring io disk (some name) s ≡ done (some c.0) =
                  written ∙ rw t refl in
                elim (Bool-cases c.1) [
                  | inr f ↦ Filed.unclosed opened c.0 e (ap (λ b. (c.0, b)) f) w
                  | inl closes ↦
                      reading-Filed io malloc malloc' disk c.0 name s cs buffer stores law law' room
                        small
                        (record {
                          before = disk;
                          opened = opened;
                          created = e;
                          written = all;
                          closing = ap (λ b. (c.0, b)) closes;
                        })
                        w
                ]
          ]
    ]
