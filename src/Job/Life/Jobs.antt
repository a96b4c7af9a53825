-- ===== src/Job/Life/Jobs.antt =====
-- How many jobs `worker_loop` of worker/worker_client.c takes, and how long it sleeps.
use mod_gearman.Common.{
  ℕ, Bytes, Bool, true, List, [], ◌∷◌, Option, none, some, All, ◌+◌, ◌≡◌, ◌≤◌, ◌<◌, ◌⊎◌,
}
use mod_gearman.Crypt.{Evp, Mode}
use mod_gearman.Pool.Worker.{JobState}
use mod_gearman.Job.{Libc, Job}
use mod_gearman.Job.Exec.{Options, World}
use mod_gearman.Job.Received.{
  Environment, Client, Received, ended, left, unwritten, null_value, freed_twice, get_job,
}
use mod_gearman.Job.Life.{
  Work, Loop, Life, alive, exiting, idle, gone, undefined, Call, back, away, broken,
}
use mod_gearman.Job.Life.Counted.{Counted}

-- A sleep takes from one second to a minute.
abbrev IsShort : ℕ → Type 0
IsShort n = (1 ≤ n) × (n ≤ 60)

pub record IsCalm (l : Loop) : Type 0 where
  pub next : IsShort l.client.sleep_time_after_error
  pub past : All IsShort l.slept

-- No limit, or one that is not reached.
abbrev pub Open : ℕ → ℕ → Type 0
Open max_jobs n = (max_jobs ≡ 0) ⊎ (n < max_jobs)

abbrev jobs_of : Option (Option Bytes) → ℕ
jobs_of none = 0
jobs_of (some workload) = 1

abbrev pub jobs : List Work → ℕ
jobs [] = 0
jobs (k ∷ ks) = jobs_of k.job + jobs ks

abbrev IsUndefined : Received → Type 0
IsUndefined (ended ret c ms) = ⊥
IsUndefined (left c ms) = ⊥
IsUndefined unwritten = Unit
IsUndefined null_value = Unit
IsUndefined freed_twice = Unit

abbrev IsLeft : Received → Type 0
IsLeft (ended ret c ms) = ⊥
IsLeft (left c ms) = Unit
IsLeft unwritten = ⊥
IsLeft null_value = ⊥
IsLeft freed_twice = ⊥

abbrev pub OneWaits : List Work → Type 0
OneWaits [] = ⊥
OneWaits (k ∷ ks) = (k.waits_long ≡ true) ⊎ OneWaits ks

module _ (max_jobs : ℕ) (has_alarm : Bool) (take_job : Option Bytes → Client → Received) where
  -- A job makes `get_job` end in a way.
  abbrev pub Caused : (Received → Type 0) → Option (Option Bytes) → Type 0
  Caused P none = ⊥
  Caused P (some workload) = (c : Client) × P (take_job workload c)

  abbrev pub OneCaused : (Received → Type 0) → List Work → Type 0
  OneCaused P [] = ⊥
  OneCaused P (k ∷ ks) = Caused P k.job ⊎ OneCaused P ks

  -- What the loop has come to after some calls that found `n` jobs done before.
  abbrev pub Lived : List Work → ℕ → Life → Type 0
  Lived ks n (alive l) =
      (l.client.jobs_done ≡ n + jobs ks) × Open max_jobs l.client.jobs_done × IsCalm l
  Lived ks n (exiting l) =
      (l.client.jobs_done ≡ max_jobs) × (n < max_jobs) × (max_jobs ≤ n + jobs ks) × IsCalm l
  Lived ks n (idle l) =
      (has_alarm ≡ true)
      × OneWaits ks
      × Open max_jobs l.client.jobs_done
      × (n ≤ l.client.jobs_done)
      × (l.client.jobs_done ≤ n + jobs ks)
      × IsCalm l
  Lived ks n (gone l) =
      OneCaused IsLeft ks
      × ((max_jobs ≡ 0) ⊎ (l.client.jobs_done ≤ max_jobs))
      × (n ≤ l.client.jobs_done)
      × (l.client.jobs_done ≤ n + jobs ks)
  Lived ks n undefined = OneCaused IsUndefined ks

  abbrev Taken : Option (Option Bytes) → ℕ → Call → Type 0
  Taken job n (back l) = (l.client.jobs_done ≡ n + jobs_of job) × IsCalm l
  Taken job n (away l) = Caused IsLeft job × (l.client.jobs_done ≡ n + 1) × (jobs_of job ≡ 1)
  Taken job n broken = Caused IsUndefined job

-- `get_job` as `worker_loop` has it called; what is outside of it may differ from job to job.
module _ (opt : Options) (w : ℕ → Environment → World) (stays : ℕ → JobState → Bool) (evp : Evp)
    (libc : Libc) (memory : ℕ → Job) (key : Bytes) (mode : Mode) (fresh fresh' : ℕ → Bytes) where
  abbrev pub callback : Option Bytes → Client → Received
  callback workload c =
      let n = c.jobs_done in
      get_job opt (w n) (stays n) evp libc (memory n) key mode (fresh n) (fresh' n) workload c
