-- ===== src/Result/Read.antt =====
-- Reading the lines of a result in `get_results` of neb_module_naemon/result_thread.c.
use mod_gearman.Common.{
  ℕ, zero, suc, Bytes, Lacks, codes, true, List, [], ◌∷◌, ◌++◌, some, length, All, All-append,
  length-append, append_assoc, ◌≡◌, ◌≢◌, ◌<◌, refl, ap, arith,
}
use mod_gearman.Job.{strsep}
use mod_gearman.Job.Fields.{Field, IsField, line, text, strsep-append}
use mod_gearman.Result.{Float, Reading, set_output, set_result, read_pair, read_results}

-- What follows the text of an output.
abbrev pub end_lines : Bytes
end_lines = codes "\n\n\n\n"

abbrev pub output_line : Bytes → Bytes
output_line v = codes "output=" ++ (v ++ end_lines)

module _ (float : Float) where
  abbrev pub set_fields : List Field → Reading float → Reading float
  set_fields [] r = r
  set_fields (f ∷ fields) r =
      set_fields fields (set_result float f.key f.value (set_output float f.key (some f.value) r))

  read_pair_filled :
      (key value : Bytes) (r : Reading float)
      → value ≢ []
      → read_pair float (key, some value) r
        ≡ (true, set_result float key value (set_output float key (some value) r))
  read_pair_filled key [] r filled = absurd (filled refl)
  read_pair_filled key (c ∷ value) r filled = refl

  read_pair-line :
      (f : Field) (r : Reading float)
      → IsField f
      → read_pair float (strsep b'=' (line f)) r
        ≡ (true, set_result float f.key f.value (set_output float f.key (some f.value) r))
  read_pair-line f r h =
      rw (strsep-append b'=' f.key f.value h.bare_key) (read_pair_filled f.key f.value r h.filled)

  read_results-line :
      (n : ℕ) (f : Field) (rest : Bytes) (r : Reading float)
      → IsField f
      → read_results float (suc n) (some (line f ++ 10 ∷ rest)) r
        ≡ read_results float n
            (some rest)
            (set_result float f.key f.value (set_output float f.key (some f.value) r))
  unfolding read_results
  read_results-line n f rest r h =
      rw (strsep-append 10 (line f) rest h.one_line, read_pair-line f r h) refl

  pub read_results-text :
      (n : ℕ) (fields : List Field) (rest : Bytes) (r : Reading float)
      (last : Reading float → Reading float)
      → All IsField fields
      → ((n : ℕ) (r : Reading float)
          → length rest < n
          → read_results float n (some rest) r ≡ last r)
      → length (text fields ++ rest) < n
      → read_results float n (some (text fields ++ rest)) r ≡ last (set_fields fields r)
  read_results-text zero fields rest r last hs k enough = absurd (omega (arith, enough))
  read_results-text (suc n) [] rest r last hs k enough = k (suc n) r enough
  read_results-text (suc n) (f ∷ fields) rest r last (h, hs) k enough =
      let e : text (f ∷ fields) ++ rest ≡ line f ++ 10 ∷ (text fields ++ rest) =
        append_assoc (line f) (10 ∷ text fields) rest in
      rw (e, read_results-line n f (text fields ++ rest) r h)
        (read_results-text n fields rest
          (set_result float f.key f.value (set_output float f.key (some f.value) r)) last hs k
          (omega (arith, enough, ap length e, length-append (line f) (10 ∷ (text fields ++ rest)))))

  stops : (n : ℕ) (s : Bytes) (r : Reading float) → read_results float (suc n) (some (10 ∷ s)) r ≡ r
  unfolding read_results strsep set_output
  stops n s r = refl

  read_output :
      (v : Bytes)
      → Lacks 10 v
      → strsep 10 (output_line v) ≡ (codes "output=" ++ v, some (codes "\n\n\n"))
  read_output v h =
      strsep-append 10 (codes "output=" ++ v) (codes "\n\n\n")
        (All-append (λ c. c ≢ 10) (codes "output=") v (ground arith) h)

  split_output : (v : Bytes) → strsep b'=' (codes "output=" ++ v) ≡ (codes "output", some v)
  split_output v = strsep-append b'=' (codes "output") v (ground arith)

  set_result-output : (v : Bytes) (r : Reading float) → set_result float (codes "output") v r ≡ r
  unfolding set_result
  set_result-output v r = refl

  pub read_results-output_line :
      (v : Bytes)
      → Lacks 10 v
      → (n : ℕ) (r : Reading float) → length (output_line v) < n
      → read_results float n (some (output_line v)) r ≡ set_output float (codes "output") (some v) r
  unfolding read_results
  read_results-output_line v h zero r enough = absurd (omega (arith, enough))
  read_results-output_line v h (suc zero) r enough = absurd (omega (arith, enough))
  read_results-output_line [] h (suc (suc n)) r enough = rw (read_output [] h, split_output []) refl
  read_results-output_line (c ∷ v) h (suc (suc n)) r enough =
      rw
        (
          read_output (c ∷ v) h,
          split_output (c ∷ v),
          set_result-output (c ∷ v) (set_output float (codes "output") (some (c ∷ v)) r),
        )
        (stops n (codes "\n\n") (set_output float (codes "output") (some (c ∷ v)) r))
