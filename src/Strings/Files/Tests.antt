-- ===== src/Strings/Files/Tests.antt =====
-- A text that is written to a file and read back.
use tyto_h.Base.{ℕ, refl, sym, ap, ◌∙◌, inl, true, Option, none, some, List, [], ◌∷◌}
use tyto_h.Base.{arith, length, take, replicate, length-replicate, take-length, pos}
use tyto_h.Strings.{TyString}
use tyto_h.Strings.Change.{Holds}
use tyto_h.Strings.Append.{Allocates}
use tyto_h.Strings.Files.{Stdio}
use tyto_h.Strings.Files.RoundTrip.{Stores, Filed, read_file_tostring-write_file_wstring}

-- A disk with one file, which is its contents, that never fails.
abbrev io : Stdio (List ℕ)
io = record {
  opens = λ d name. true;
  seeks = λ d name. true;
  end_of = λ d name. pos (length d);
  fread = λ d name n. take n d;
  feof = λ d name n. true;
  creates = λ d name. some [];
  fwrite = λ d name cs. (cs, length cs);
  fclose = λ d name. (d, true);
}

io-Stores : Stores io
io-Stores = record {
  ended = λ name cs after k seek. inl (ap (λ d. pos (length d)) (sym (ap (λ p. p.0) (k.closing))));
  given = λ name cs after k seek.
      inl (ap (λ d. take (length cs) d) (sym (ap (λ p. p.0) (k.closing))) ∙ take-length cs);
}

abbrev malloc : ℕ → Option (List ℕ)
malloc n = some (replicate n 0)

malloc-Allocates : Allocates malloc
unfolding Allocates
malloc-Allocates n b e =
    ap (λ o. elim o [ none ↦ 0 | some xs ↦ length xs ]) (sym e) ∙ length-replicate {A = ℕ} n 0

abbrev ab : TyString
ab = record { buffer = some (97 ∷ 98 ∷ 0 ∷ []); size = 2; capacity = 3 }

ab-Holds : Holds ab (97 ∷ 98 ∷ [])
unfolding Holds
ab-Holds = (97 ∷ 98 ∷ 0 ∷ [], (record { has = refl; room = refl; fits = omega arith }, refl))

read_file_tostring-write_file_wstring_example :
    Filed io malloc malloc [] (102 ∷ []) ab (97 ∷ 98 ∷ [])
read_file_tostring-write_file_wstring_example =
    read_file_tostring-write_file_wstring io malloc malloc [] (102 ∷ []) ab (97 ∷ 98 ∷ [])
      (0 ∷ 0 ∷ 0 ∷ []) io-Stores malloc-Allocates malloc-Allocates refl (omega arith) ab-Holds
