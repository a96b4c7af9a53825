-- ===== src/Status/RoundTrip.antt =====
-- A status as gearmand prints it, as `get_gearman_server_data` of common/gearman_utils.c reads it.
use mod_gearman.Common.{
  ℕ, Bytes, Lacks, codes, str_eq, ltb, true, false, List, [], ◌∷◌, ◌++◌, some, length, All,
  All-append, take_long, append_assoc, append-nil, length-append, ◌+◌, ◌≡◌, ◌≢◌, ◌≤◌, ◌<◌, refl, ap,
  sym, ◌∙◌, arith,
}
use mod_gearman.Common.Int.{ℤ, fits_int, ◌-ℤ◌}
use mod_gearman.Crypt.RoundTrip.{c_string_self}
use mod_gearman.Job.Fields.{strsep-append, ==_ne}
use mod_gearman.Status.{
  Function, ok, list_size, lines, complete, parse_function, version_of, add_function, parse_lines,
  Parsed, send2gearmandadmin, get_gearman_server_data,
}

-- Numbers are printed without separators, and an `int` is read back.
pub record Prints (show : ℤ → Bytes) (atoi : Bytes → ℤ) : Type 0 where
  pub atoi_show : (n : ℤ) → fits_int n ≡ true → atoi (show n) ≡ n
  pub no_tab : (n : ℤ) → Lacks 9 (show n)
  pub no_newline : (n : ℤ) → Lacks 10 (show n)
  pub no_nul : (n : ℤ) → Lacks 0 (show n)

pub record IsFunction (f : Function) : Type 0 where
  pub no_tab : Lacks 9 f.queue
  pub no_newline : Lacks 10 f.queue
  pub no_nul : Lacks 0 f.queue
  pub total_fits : fits_int f.total ≡ true
  pub running_fits : fits_int f.running ≡ true
  pub worker_fits : fits_int f.worker ≡ true
  pub waiting_fits : fits_int f.waiting ≡ true
  pub waits : f.waiting ≡ f.total -ℤ f.running

module _ (show : ℤ → Bytes) where
  abbrev pub line_text : Function → Bytes
  line_text f = f.queue ++ 9 ∷ (show f.total ++ 9 ∷ (show f.running ++ 9 ∷ show f.worker))

  -- The answer to `status` and to `version`.
  abbrev pub status_text : List Function → Bytes → Bytes
  status_text [] version = b'.' ∷ 10 ∷ (codes "OK " ++ (version ++ 10 ∷ []))
  status_text (f ∷ fs) version = line_text f ++ 10 ∷ status_text fs version

lines-append : (l t : Bytes) → Lacks 10 l → lines (l ++ 10 ∷ t) ≡ l ∷ lines t
unfolding lines
lines-append [] t h = refl
lines-append (b ∷ l) t (ne, h) = rw (==_ne b 10 ne, lines-append l t h)

not_closing : (q t : Bytes) → str_eq (q ++ 9 ∷ t) (codes ".") ≡ false
not_closing [] t = refl
not_closing (c ∷ []) t = ground arith
not_closing (c ∷ d ∷ q) t = ground arith

version_of-printed :
    (version : Bytes) → length version ≤ 65535 → version_of (codes "OK " ++ version) ≡ some version
unfolding version_of
version_of-printed version fits = rw (take_long 65535 version fits) (ground arith)

add_function-room :
    (acc : List Function) (f : Function) (next : List Function → Parsed)
    → fits_int f.waiting ≡ true
    → length acc < list_size
    → add_function acc (some f) next ≡ next (acc ++ (f ∷ []))
add_function-room acc f next fits lt =
    let e : ltb (length acc) list_size ≡ true = ground (arith, lt) in rw (fits, e) refl

module _ (show : ℤ → Bytes) (atoi : Bytes → ℤ) (prints : Prints show atoi) where
  parse_function-line :
      (f : Function) → IsFunction f → parse_function atoi (line_text show f) ≡ some f
  unfolding parse_function
  parse_function-line f h =
      rw
        (
          strsep-append 9 f.queue (show f.total ++ 9 ∷ (show f.running ++ 9 ∷ show f.worker))
              h.no_tab,
          strsep-append 9 (show f.total) (show f.running ++ 9 ∷ show f.worker)
              (prints.no_tab f.total),
          strsep-append 9 (show f.running) (show f.worker) (prints.no_tab f.running),
          prints.atoi_show f.total h.total_fits,
          prints.atoi_show f.running h.running_fits,
          prints.atoi_show f.worker h.worker_fits,
          sym h.waits,
        )
        refl

  Lacks-line :
      (b : ℕ) (f : Function)
      → b ≢ 9
      → Lacks b f.queue
      → ((n : ℤ) → Lacks b (show n))
      → Lacks b (line_text show f)
  Lacks-line b f ne q n =
      All-append (λ c. c ≢ b) f.queue _ q
        (
          λ e. ne (sym e),
          All-append (λ c. c ≢ b) (show f.total) _ (n f.total)
              (
                λ e. ne (sym e),
                All-append (λ c. c ≢ b) (show f.running) _ (n f.running)
                    (λ e. ne (sym e), n f.worker),
              ),
        )

  parse_lines-text :
      (fs acc : List Function) (version : Bytes)
      → All IsFunction fs
      → length acc + length fs ≤ list_size
      → Lacks 10 version
      → length version ≤ 65535
      → parse_lines atoi (lines (status_text show fs version)) acc ≡ complete (acc ++ fs) version
  unfolding parse_lines
  parse_lines-text [] acc version hs small one fits =
      let rest = codes "OK " ++ version in
      rw
        (
          lines-append (b'.' ∷ []) (codes "OK " ++ (version ++ 10 ∷ [])) (ground arith),
          sym (append_assoc (codes "OK ") version (10 ∷ [])),
          lines-append rest [] (ground (arith, one)),
          version_of-printed version fits,
          append-nil,
        )
        refl
  parse_lines-text (f ∷ fs) acc version (h, hs) small one fits =
      let small' : length (acc ++ (f ∷ [])) + length fs ≤ list_size =
        omega (arith, small, length-append acc (f ∷ [])) in
      rw
        (
          lines-append (line_text show f) (status_text show fs version)
              (Lacks-line 10 f (ground arith) h.no_newline prints.no_newline),
          parse_lines,
          not_closing f.queue _,
          parse_function-line f h,
        )
        (add_function-room acc f (parse_lines atoi (lines (status_text show fs version)))
            h.waiting_fits (omega (arith, small))
          ∙ parse_lines-text fs (acc ++ (f ∷ [])) version hs small' one fits
          ∙ ap (λ a. complete a version) (append_assoc acc (f ∷ []) fs))

  Lacks-status_text :
      (fs : List Function) (version : Bytes)
      → All IsFunction fs
      → Lacks 0 version
      → Lacks 0 (status_text show fs version)
  Lacks-status_text [] version hs clean =
      All-append (λ c. c ≢ 0) (b'.' ∷ 10 ∷ codes "OK ") (version ++ 10 ∷ []) (ground arith)
        (All-append (λ c. c ≢ 0) version (10 ∷ []) clean (ground arith))
  Lacks-status_text (f ∷ fs) version (h, hs) clean =
      All-append (λ c. c ≢ 0) (line_text show f) _
        (Lacks-line 0 f (ground arith) h.no_nul prints.no_nul)
        (ground arith, Lacks-status_text fs version hs clean)

length-status_text :
    (show : ℤ → Bytes) (fs : List Function) (version : Bytes)
    → length version ≤ length (status_text show fs version)
length-status_text show [] version = omega (arith, length-append version (10 ∷ []))
length-status_text show (f ∷ fs) version = omega (
  arith,
  length-status_text show fs version,
  length-append (line_text show f) (10 ∷ status_text show fs version),
)

-- The answer of a gearmand to `status` and `version`, as one `read` gives it, becomes its queues
-- with their numbers, in the order of `qsort`, and its version; the jobs that wait are those that do
-- not run. All these numbers fit into an `int`, which `atoi` reads back as it is printed. There are at most 512 queues, their names and the version hold no separator, and the
-- answer has at most 65,535 bytes.
pub get_gearman_server_data-status_text :
    (show : ℤ → Bytes) (atoi : Bytes → ℤ) (qsort : List Function → List Function)
    (fs : List Function) (version : Bytes)
    → Prints show atoi
    → All IsFunction fs
    → length fs ≤ list_size
    → Lacks 10 version
    → Lacks 0 version
    → length (status_text show fs version) ≤ 65535
    → get_gearman_server_data atoi qsort
        (record { connects = true; writes = true; reads = some (status_text show fs version) })
      ≡ some (record { rc = ok; functions = qsort fs; version = version; is_valid = true })
unfolding get_gearman_server_data send2gearmandadmin
get_gearman_server_data-status_text show atoi qsort fs version prints hs small one clean fits =
    let text = status_text show fs version in
    rw
      (
        take_long 65535 text fits,
        c_string_self text (Lacks-status_text show atoi prints fs version hs clean),
        parse_lines-text show atoi prints fs [] version hs (omega (arith, small)) one
            (omega (arith, fits, length-status_text show fs version)),
      )
      refl
