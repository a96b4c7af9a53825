-- ===== src/Config/Limits.antt =====
-- The limits of the numbers of the options, which `parse_args_line` and `read_config_file` of
-- common/utils.c keep, and the end of their recursion.
use mod_gearman.Common.{
  ℕ, Bytes, ◌==◌, if_both, ==_iff, get_elem?, [], ◌∷◌, Option, some, ◌<◌, ◌≡◌, ◌≢◌, refl, sym, ap,
  ◌∙◌, arith,
}
use mod_gearman.Common.Int.{ℤ, pos, ◌≤ℤ◌}
use mathlib.Core.Path.{subst}
use mod_gearman.Config.{
  Number, Load, Libc, Options, Parsed, ok, failed, fault, exhausted, put, default_number,
  set_default_options, debug_level, log_stats_interval, result_workers, return_code, timeout,
  job_timeout, min_worker, max_worker, max_age, idle_timeout, max_jobs, spawn_rate, timeout_return,
  orphan_return, perfdata_mode, latency_flatten_window, gearman_connection_timeout,
}
use mod_gearman.Config.Keys.{number_index, limited}
use mod_gearman.Config.Files.{Files, read_config_file}
use mod_gearman.Config.Steps.{Sound}
use mod_gearman.Config.Sound.{read_config_file-Sound}

abbrev Between : ℤ → ℤ → ℤ → Type 0
Between low high v = (low ≤ℤ v) × (v ≤ℤ high)

-- What a field may hold; the others are not checked where they are read.
abbrev pub InLimits : Number → ℤ → Type 0
InLimits debug_level v = pos 0 ≤ℤ v
InLimits log_stats_interval v = pos 0 ≤ℤ v
InLimits result_workers v = pos 0 ≤ℤ v
InLimits return_code v = Unit
InLimits timeout v = pos 0 ≤ℤ v
InLimits job_timeout v = pos 1 ≤ℤ v
InLimits min_worker v = pos 1 ≤ℤ v
InLimits max_worker v = pos 1 ≤ℤ v
InLimits max_age v = pos 0 ≤ℤ v
InLimits idle_timeout v = pos 0 ≤ℤ v
InLimits max_jobs v = pos 0 ≤ℤ v
InLimits spawn_rate v = pos 0 ≤ℤ v
InLimits timeout_return v = Between (pos 0) (pos 3) v
InLimits orphan_return v = Between (pos 0) (pos 3) v
InLimits perfdata_mode v = Between (pos 0) (pos 2) v
InLimits latency_flatten_window v = Unit
InLimits gearman_connection_timeout v = Unit

abbrev pub Limits : (Number → ℤ) → Type 0
Limits numbers = (n : Number) → InLimits n (numbers n)

-- The number of an index.
abbrev number_of : ℕ → Option Number
number_of i =
    get_elem?
      (debug_level ∷ log_stats_interval ∷ result_workers ∷ return_code ∷ timeout ∷ job_timeout
        ∷ min_worker ∷ max_worker ∷ max_age ∷ idle_timeout ∷ max_jobs ∷ spawn_rate ∷ timeout_return
        ∷ orphan_return ∷ perfdata_mode ∷ latency_flatten_window ∷ gearman_connection_timeout ∷ [])
      i

number_of-number_index : (n : Number) → number_of (number_index n) ≡ some n
number_of-number_index debug_level = refl
number_of-number_index log_stats_interval = refl
number_of-number_index result_workers = refl
number_of-number_index return_code = refl
number_of-number_index timeout = refl
number_of-number_index job_timeout = refl
number_of-number_index min_worker = refl
number_of-number_index max_worker = refl
number_of-number_index max_age = refl
number_of-number_index idle_timeout = refl
number_of-number_index max_jobs = refl
number_of-number_index spawn_rate = refl
number_of-number_index timeout_return = refl
number_of-number_index orphan_return = refl
number_of-number_index perfdata_mode = refl
number_of-number_index latency_flatten_window = refl
number_of-number_index gearman_connection_timeout = refl

limited-InLimits : (n : Number) (v : ℤ) → InLimits n (limited n v)
limited-InLimits debug_level v = ground arith
limited-InLimits log_stats_interval v = ground arith
limited-InLimits result_workers v = ground arith
limited-InLimits return_code v = tt
limited-InLimits timeout v = ground arith
limited-InLimits job_timeout v = ground arith
limited-InLimits min_worker v = ground arith
limited-InLimits max_worker v = ground arith
limited-InLimits max_age v = ground arith
limited-InLimits idle_timeout v = ground arith
limited-InLimits max_jobs v = ground arith
limited-InLimits spawn_rate v = ground arith
limited-InLimits timeout_return v = (ground arith, ground arith)
limited-InLimits orphan_return v = (ground arith, ground arith)
limited-InLimits perfdata_mode v = (ground arith, ground arith)
limited-InLimits latency_flatten_window v = tt
limited-InLimits gearman_connection_timeout v = tt

number_index_inj : (j n : Number) → number_index j ≡ number_index n → j ≡ n
number_index_inj j n e =
    let same = sym (number_of-number_index j) ∙ ap number_of e ∙ number_of-number_index n in cc same

put-Limits :
    (n : Number) (v : ℤ) (f : Number → ℤ) → Limits f → Limits (put number_index n (limited n v) f)
put-Limits n v f h j =
    if_both (InLimits j) (number_index j == number_index n)
      (λ e.
        subst (λ k. InLimits k (limited n v))
          (sym (number_index_inj j n ((==_iff (number_index j) (number_index n)).0 e)))
          (limited-InLimits n v))
      (λ _. h j)

-- The defaults are within the limits.
default_number-Limits : Limits default_number
default_number-Limits debug_level = ground arith
default_number-Limits log_stats_interval = ground arith
default_number-Limits result_workers = ground arith
default_number-Limits return_code = tt
default_number-Limits timeout = ground arith
default_number-Limits job_timeout = ground arith
default_number-Limits min_worker = ground arith
default_number-Limits max_worker = ground arith
default_number-Limits max_age = ground arith
default_number-Limits idle_timeout = ground arith
default_number-Limits max_jobs = ground arith
default_number-Limits spawn_rate = ground arith
default_number-Limits timeout_return = (ground arith, ground arith)
default_number-Limits orphan_return = (ground arith, ground arith)
default_number-Limits perfdata_mode = (ground arith, ground arith)
default_number-Limits latency_flatten_window = tt
default_number-Limits gearman_connection_timeout = tt

-- What reading left is within the limits, where the code goes on.
abbrev pub AllLimits : {libc : Libc} → Parsed (Options libc) → Type 0
AllLimits (ok opt) = Limits opt.numbers
AllLimits (failed opt) = Limits opt.numbers
AllLimits fault = Unit
AllLimits exhausted = Unit

Sound-AllLimits : {libc : Libc} (m : Parsed (Options libc)) → Sound libc Limits m → AllLimits m
Sound-AllLimits (ok opt) h = h
Sound-AllLimits (failed opt) h = h
Sound-AllLimits fault h = tt
Sound-AllLimits exhausted h = tt

Sound-ends : {libc : Libc} (m : Parsed (Options libc)) → Sound libc (λ _. Unit) m → m ≢ exhausted
Sound-ends (ok opt) h e = cc e
Sound-ends (failed opt) h e = cc e
Sound-ends fault h e = cc e
Sound-ends exhausted h e = h

-- Whatever the files hold and whatever the numbers in them are, for any C library: when a
-- configuration file is read at level 0 with fuel of at least 12 into the options that
-- `set_default_options` gives, then after success and after an error every number is within its
-- limits: minimum and maximum of the workers and the job timeout are at least 1, the two return
-- values for timeouts and orphans are 0 to 3, the mode of the performance data is 0 to 2, and
-- debug level, statistics interval, result workers, timeout, ages, jobs and spawn rate are not negative.
pub read_config_file-Limits :
    (libc : Libc) (callback2str : ℕ → Bytes) (files : Files)
    (host_template service_template : Bytes) (memory : Load → libc.Double) (n : ℕ)
    (filename : Bytes)
    → 11 < n
    → AllLimits (
        read_config_file libc callback2str files n 0 filename
          (set_default_options libc host_template service_template memory))
unfolding set_default_options
read_config_file-Limits libc callback2str files host_template service_template memory n filename
      enough =
    Sound-AllLimits _ (
      read_config_file-Sound libc callback2str Limits put-Limits files n 0 filename
        (set_default_options libc host_template service_template memory) (omega (arith, enough))
        (omega (arith, enough)) default_number-Limits)

-- Reading a configuration file ends, whatever the files are, also where files and directories
-- include each other or themselves: with fuel of at least 12 at level 0 the recursion is never out of fuel.
pub read_config_file_ends :
    (libc : Libc) (callback2str : ℕ → Bytes) (files : Files) (n : ℕ) (filename : Bytes)
    (opt : Options libc)
    → 11 < n
    → read_config_file libc callback2str files n 0 filename opt ≢ exhausted
read_config_file_ends libc callback2str files n filename opt enough = Sound-ends _ (
    read_config_file-Sound libc callback2str (λ _. Unit) (λ _ _ _ _. tt) files n 0 filename opt
      (omega (arith, enough)) (omega (arith, enough)) tt)
