-- ===== src/Job/ExitCode.antt =====
-- The results that common/check_utils.c accepts from a plugin, and the commands it runs.
use native.Mathlib.Nat.{mod-eq_of_lt}
use mod_gearman.Common.{
  ℕ, Bytes, true, false, List, [], ◌∷◌, ◌++◌, none, All, length-append, ◌%◌, ◌≡◌, ◌≢◌, ◌≤◌, ◌<◌,
  ◌⊎◌, ◌↔◌, inl, inr, refl, ◌∙◌, arith, Bool-cases,
}
use mod_gearman.Common.Int.{ℤ, eq_ℤ, minus_one}
use mod_gearman.Text.Replace.Laws.{is_prefix_iff}
use mod_gearman.Job.Exec.{
  Options, World, starts_with, strchr, strpbrk, any_starts, check_restricted, first_byte,
  real_exit_code, check_code,
}

-- A code above 3 stays only if it is 25 or the workaround for 25 is on; those of a missing plugin
-- and of a plugin that a signal ended never stay. A code up to 3 stays, with the plugin's text.
pub check_code_lem :
    (opt : Options) (w : World) (rc : ℕ) (output : Bytes)
    → ((rc ≤ 3) × (check_code opt w rc output ≡ (rc, output)))
      ⊎ ((3 < rc) × ((check_code opt w rc output).0 ≡ 2))
      ⊎ ((3 < rc)
          × (rc ≢ 126)
          × (rc ≢ 127)
          × ((rc < 128) ⊎ (144 ≤ rc))
          × ((rc ≡ 25) ⊎ (opt.workaround_rc_25 ≡ true))
          × ((check_code opt w rc output).0 ≡ rc))
unfolding check_code
check_code_lem opt w rc output = ground arith

-- What the macros of <sys/wait.h> promise of a child that leaves by `_exit`.
pub record WaitLaws (w : World) : Type 0 where
  pub not_minus_one : (n : ℕ) → eq_ℤ (w.exited n) minus_one ≡ false
  pub not_signaled : (n : ℕ) → w.wifsignaled (w.exited n) ≡ false
  pub is_exited : (n : ℕ) → w.wifexited (w.exited n) ≡ true
  pub status : (n : ℕ) → w.wexitstatus (w.exited n) ≡ n % 256
  pub small_status : (s : ℤ) → w.wexitstatus s < 256
  pub small_signal : (s : ℤ) → w.wtermsig s < 128

real_exit_code_small : (w : World) (s : ℤ) → WaitLaws w → real_exit_code w s < 256
unfolding real_exit_code
real_exit_code_small w s laws = ground (arith, laws.small_status s, laws.small_signal s)

mod_small : (n : ℕ) → n < 256 → n % 256 ≡ n
mod_small n h = mod-eq_of_lt h

real_exit_code_exited : (w : World) (n : ℕ) → WaitLaws w → real_exit_code w (w.exited n) ≡ n % 256
unfolding real_exit_code
real_exit_code_exited w n laws =
    rw (laws.not_minus_one n, laws.not_signaled n, laws.is_exited n) (laws.status n)

-- With macros that keep the promises of <sys/wait.h>, a status that a child turns into its exit code
-- is read by the parent as the code that it has without a child.
pub real_exit_code-exited :
    (w : World) (s : ℤ)
    → WaitLaws w
    → real_exit_code w (w.exited (real_exit_code w s)) ≡ real_exit_code w s
real_exit_code-exited w s laws =
    real_exit_code_exited w (real_exit_code w s) laws
    ∙ mod_small (real_exit_code w s) (real_exit_code_small w s laws)

strpbrk-false : (s chars : Bytes) → strpbrk s chars ≡ false → All (λ c. strchr chars c ≡ false) s
unfolding strpbrk
strpbrk-false [] chars h = tt
strpbrk-false (c ∷ s) chars h = ground (arith, h, strpbrk-false s chars)

strpbrk-true : (s chars : Bytes) → All (λ c. strchr chars c ≡ false) s → strpbrk s chars ≡ false
unfolding strpbrk
strpbrk-true [] chars h = refl
strpbrk-true (c ∷ s) chars (e, h) = rw (e, strpbrk-true s chars h)

-- `str` begins with `pre`.
abbrev pub Begins : Bytes → Bytes → Type 0
Begins pre str = (rest : Bytes) × (str ≡ pre ++ rest)

abbrev pub Listed : List Bytes → Bytes → Type 0
Listed [] cmd = ⊥
Listed (p ∷ paths) cmd = Begins p cmd ⊎ Listed paths cmd

starts_with-Begins : (pre str : Bytes) → starts_with pre str ≡ true → Begins pre str
unfolding starts_with
starts_with-Begins pre str h = (is_prefix_iff pre str).0 (ground (arith, h))

starts_with_append : (pre rest : Bytes) → starts_with pre (pre ++ rest) ≡ true
unfolding starts_with
starts_with_append pre rest =
    ground (arith, length-append pre rest, (is_prefix_iff pre (pre ++ rest)).1 (rest, refl))

any_starts-Listed :
    (paths : List Bytes) (cmd : Bytes) → any_starts paths cmd ≡ true → Listed paths cmd
unfolding any_starts
any_starts-Listed [] cmd h = cc h
any_starts-Listed (p ∷ paths) cmd h = elim (Bool-cases (starts_with p cmd)) [
  | inl e ↦ inl (starts_with-Begins p cmd e)
  | inr e ↦ inr (any_starts-Listed paths cmd (ground (arith, h, e)))
]

Listed-any_starts :
    (paths : List Bytes) (cmd : Bytes) → Listed paths cmd → any_starts paths cmd ≡ true
unfolding any_starts
Listed-any_starts [] cmd h = elim h [ ]
Listed-any_starts (p ∷ paths) cmd (inl (rest, e)) = rw (e, starts_with_append p rest)
Listed-any_starts (p ∷ paths) cmd (inr l) = ground (arith, Listed-any_starts paths cmd l)

-- The commands that a worker with restricted paths may run.
pub record Allowed (paths : List Bytes) (chars cmd : Bytes) : Type 0 where
  pub absolute : first_byte cmd ≡ b'/'
  pub harmless : All (λ c. strchr chars c ≡ false) cmd
  pub listed : Listed paths cmd

allowed :
    (p : Bytes) (paths : List Bytes) (chars cmd : Bytes)
    → check_restricted (p ∷ paths) chars cmd ≡ none
    → Allowed (p ∷ paths) chars cmd
unfolding check_restricted
allowed p paths chars cmd h = record {
  absolute = ground (arith, h);
  harmless = strpbrk-false cmd chars (ground (arith, h));
  listed = any_starts-Listed (p ∷ paths) cmd (ground (arith, h));
}

allows :
    (p : Bytes) (paths : List Bytes) (chars cmd : Bytes)
    → Allowed (p ∷ paths) chars cmd
    → check_restricted (p ∷ paths) chars cmd ≡ none
unfolding check_restricted
allows p paths chars cmd a =
    rw (a.absolute, strpbrk-true cmd chars a.harmless, Listed-any_starts (p ∷ paths) cmd a.listed)

-- With restricted paths a command is let through exactly if it is absolute, has none of the
-- forbidden bytes and starts with one of the paths.
pub check_restricted_iff :
    (paths : List Bytes) (chars cmd : Bytes)
    → paths ≢ []
    → (check_restricted paths chars cmd ≡ none) ↔ Allowed paths chars cmd
check_restricted_iff [] chars cmd h = absurd (h refl)
check_restricted_iff (p ∷ paths) chars cmd h = (allowed p paths chars cmd, allows p paths chars cmd)
