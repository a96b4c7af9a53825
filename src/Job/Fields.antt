-- ===== src/Job/Fields.antt =====
-- Reading the workload that neb_module_naemon/mod_gearman.c prints as lines `key=value`.
use mod_gearman.Common.{
  ℕ, zero, suc, Bytes, Lacks, true, false, ◌==◌, List, [], ◌∷◌, ◌++◌, some, length, All, All-append,
  length-append, append_assoc, ◌≡◌, ◌≢◌, ◌<◌, refl, ap, sym, ◌∙◌, arith, Bool-cases, inl, inr,
}
use mod_gearman.Job.{Libc, Job, strsep, set_field, read_line, read_lines, read_job}

pub ==_ne : (b c : ℕ) → b ≢ c → (b == c) ≡ false
==_ne b c ne = ground arith

-- The text up to the separator, if none is in the part before.
pub strsep-append : (c : ℕ) (s t : Bytes) → Lacks c s → strsep c (s ++ c ∷ t) ≡ (s, some t)
unfolding strsep
strsep-append c [] t h = ground arith
strsep-append c (b ∷ s) t (ne, h) = rw (==_ne b c ne, strsep-append c s t h)

strsep_here : (c b : ℕ) (s : Bytes) → (b == c) ≡ true → (strsep c (b ∷ s)).1 ≡ some s
unfolding strsep
strsep_here c b s e = rw e

strsep_later : (c b : ℕ) (s : Bytes) → (b == c) ≡ false → (strsep c (b ∷ s)).1 ≡ (strsep c s).1
unfolding strsep
strsep_later c b s e = rw e

some_inj : {a b : Bytes} → some a ≡ some b → a ≡ b
some_inj h = cc h

length-strsep : (c : ℕ) (s t : Bytes) → (strsep c s).1 ≡ some t → length t < length s
unfolding strsep
length-strsep c [] t h = cc h
length-strsep c (b ∷ s) t h = elim (Bool-cases (b == c)) [
  | inl e ↦ ground (arith, ap length (some_inj (sym (strsep_here c b s e) ∙ h)))
  | inr e ↦ ground (arith, length-strsep c s t (sym (strsep_later c b s e) ∙ h))
]

-- A line of a workload that carries a value.
pub record Field : Type 0 where
  pub key : Bytes
  pub value : Bytes

abbrev pub line : Field → Bytes
line f = f.key ++ (b'=' ∷ f.value)

abbrev pub text : List Field → Bytes
text [] = []
text (f ∷ fields) = line f ++ (10 ∷ text fields)

pub record IsField (f : Field) : Type 0 where
  pub bare_key : Lacks b'=' f.key
  pub one_line : Lacks 10 (line f)
  pub filled : f.value ≢ []

abbrev pub OneLine : Bytes → Type 0
OneLine s = Lacks 10 s × (s ≢ [])

pub one-IsField :
    (key value : Bytes)
    → Lacks b'=' key
    → Lacks 10 key
    → OneLine value
    → IsField (record { key = key; value = value })
one-IsField key value bare one (lacks, filled) = record {
  bare_key = bare;
  one_line = All-append (λ c. c ≢ 10) key (b'=' ∷ value) one (ground arith, lacks);
  filled = filled;
}

module _ (libc : Libc) where
  abbrev pub set_fields : List Field → Job × ℕ → Job × ℕ
  set_fields [] s = s
  set_fields (f ∷ fields) s = set_fields fields (set_field libc f.key f.value s)

  read_line-line :
      (key value : Bytes) (s : Job × ℕ)
      → Lacks b'=' key
      → value ≢ []
      → read_line libc (key ++ (b'=' ∷ value)) s ≡ some (set_field libc key value s)
  unfolding read_line
  read_line-line key [] s h filled = absurd (filled refl)
  read_line-line key (c ∷ value) s h filled = rw (strsep-append b'=' key (c ∷ value) h, read_line)

  -- What stops the reading: the end, or an empty line.
  abbrev pub Blank : Bytes → Type 0
  Blank [] = Unit
  Blank (c ∷ rest) = c ≡ 10

  read_lines-Blank :
      (n : ℕ) (rest : Bytes) (s : Job × ℕ) → Blank rest → read_lines libc (suc n) (some rest) s ≡ s
  unfolding read_lines strsep read_line
  read_lines-Blank n [] s h = refl
  read_lines-Blank n (c ∷ rest) s h = rw h refl

  read_lines-text :
      (n : ℕ) (fields : List Field) (rest : Bytes) (s : Job × ℕ)
      → All IsField fields
      → Blank rest
      → length (text fields ++ rest) < n
      → read_lines libc n (some (text fields ++ rest)) s ≡ set_fields fields s
  unfolding read_lines
  read_lines-text zero fields rest s h b enough = absurd (omega (arith, enough))
  read_lines-text (suc n) [] rest s h b enough = read_lines-Blank n rest s b
  read_lines-text (suc n) (f ∷ fields) rest s (h, hs) b enough =
      let e : text (f ∷ fields) ++ rest ≡ line f ++ 10 ∷ (text fields ++ rest) =
        append_assoc (line f) (10 ∷ text fields) rest in
      rw
        (
          e,
          strsep-append 10 (line f) (text fields ++ rest) h.one_line,
          read_line-line f.key f.value s h.bare_key h.filled,
          read_lines,
        )
        (read_lines-text n fields rest (set_field libc f.key f.value s) hs b
          (omega (arith, enough, ap length e, length-append (line f) (10 ∷ (text fields ++ rest)))))

  -- A workload of lines `key=value`, whose keys hold no `=`, whose lines hold no line break and whose
  -- values are not empty, is read up to an empty line or its end: the fields are set one after the
  -- other, in order, and what follows the empty line is not read.
  pub read_job-text :
      (fields : List Field) (rest : Bytes) (job : Job)
      → All IsField fields
      → Blank rest
      → read_job libc (text fields ++ rest) job ≡ set_fields fields (job, 0)
  unfolding read_job
  read_job-text fields rest job h b =
      read_lines-text (suc (length (text fields ++ rest))) fields rest (job, 0) h b (omega arith)
