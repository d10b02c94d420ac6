-- ===== src/Strings/Files.antt =====
-- `read_file_tostring` and `write_file_wstring` of src/ty_string.c. The calls of stdio are
-- parameters, on a state of the disk: a file is known by its name, and stands at its start
-- when it is opened. `ensure` and `panic_if` exit the process where they fail, here none. The
-- buffer that is read into is not freed by the code.
pub mod Reading
pub mod RoundTrip
mod Tests
use tyto_h.Base.{ℕ, ◌+◌, ◌-◌, ◌%◌, ◌^◌, Bool, false, not, ◌&&◌, Option, none, some, List}
use tyto_h.Base.{[], ◌∷◌, ◌>>=◌, ◌==◌, if◌then◌else◌, ltb, leb, Outcome, need, length, ℤ}
use tyto_h.Base.{done, fault, pos, negsuc}
use tyto_h.Slices.{Slice}
use tyto_h.Strings.{TyString, read_bytes, write_bytes, string_slice}

pub record Stdio (Disk : Type 0) : Type 0 where
  -- For reading: `fopen`; whether `fseek` to the end and `rewind` succeed, which the code does
  -- not ask; `ftell` behind them, -1 where it fails; `fread` of so many bytes, and `feof`
  -- behind it.
  pub opens : Disk → List ℕ → Bool
  pub seeks : Disk → List ℕ → Bool
  pub end_of : Disk → List ℕ → ℤ
  pub fread : Disk → List ℕ → ℕ → List ℕ
  pub feof : Disk → List ℕ → ℕ → Bool
  -- For writing: `fopen`, and `fwrite` with the number of bytes that it took.
  pub creates : Disk → List ℕ → Option Disk
  pub fwrite : Disk → List ℕ → List ℕ → Disk × ℕ
  -- `fclose`, which writes what is still in the buffer, and whether it succeeds, which the
  -- code does not ask.
  pub fclose : Disk → List ℕ → Disk × Bool

-- `size + 1`, a `long`, as the argument of `malloc`, and `size` as the one of `fread`.
unfoldable pub room_of : (size : ℤ) → Outcome ℕ
room_of (pos n) = if leb 9223372036854775807 n then fault else done (n + 1)
room_of (negsuc k) = done ((2 ^ 64 - k) % 2 ^ 64)

abbrev pub asked : (size : ℤ) → ℕ
asked (pos n) = n
asked (negsuc k) = 2 ^ 64 - (k + 1)

-- `size_t_read < size`
abbrev pub is_less : ℕ → (size : ℤ) → Bool
is_less n (pos m) = ltb n m
is_less n (negsuc k) = false

-- What is done with the bytes that `fread` gave, once there is a buffer: they are in it
-- before the test for too few of them; `closed` is the disk behind `fclose`.
unfoldable pub read_into :
    {Disk : Type 0}
    → (malloc : ℕ → Option (List ℕ)) → (buffer cs : List ℕ) → (unread : Bool) → (closed : Disk)
    → Outcome (Option (TyString × Disk))
read_into malloc buffer cs unread closed = write_bytes buffer 0 cs >>= (λ s.
    let text =
      write_bytes s (length cs) (0 ∷ [])
      >>= (λ s. string_slice malloc (record { object = s; start = 0; size = length cs }))
      >>= (λ t. done (some (t, closed))) in
    if unread then done none else text)

-- The bytes that `fwrite` is handed.
unfoldable pub bytes_of : TyString → Outcome (List ℕ)
bytes_of s = if s.size == 0 then done [] else need s.buffer >>= (λ b. read_bytes b 0 s.size)

module _ {Disk : Type 0} (io : Stdio Disk) where
  -- The first `malloc` is for the buffer, the second in `string_slice`.
  unfoldable pub read_file_tostring :
      (malloc malloc' : ℕ → Option (List ℕ))
      → Disk
      → (name : Option (List ℕ)) → Outcome (Option (TyString × Disk))
  read_file_tostring malloc malloc' disk none = done none
  read_file_tostring malloc malloc' disk (some name) =
      let size = io.end_of disk name in
      let cs = io.fread disk name (asked size) in
      let unread = is_less (length cs) size && not (io.feof disk name (asked size)) in
      let closed = (io.fclose disk name).0 in
      let text =
        room_of size >>= (λ n. need (malloc n)) >>= (λ s. read_into malloc' s cs unread closed) in
      if not (io.opens disk name) then done none else text

  -- What is done with the file, if it was created: it is closed, whatever was written.
  unfoldable pub write_opened : (name : List ℕ) → TyString → Option Disk → Outcome (Option Disk)
  write_opened name s none = done none
  write_opened name s (some opened) = bytes_of s >>= (λ cs.
      let r = io.fwrite opened name cs in
      let closed = (io.fclose r.0 name).0 in
      done (if not (r.1 == s.size) then none else some closed))

  unfoldable pub write_file_wstring :
      Disk → (name : Option (List ℕ)) → TyString → Outcome (Option Disk)
  write_file_wstring disk none s = done none
  write_file_wstring disk (some name) s = write_opened name s (io.creates disk name)
