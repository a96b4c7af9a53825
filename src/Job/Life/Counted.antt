-- ===== src/Job/Life/Counted.antt =====
-- `get_job` of worker/worker_client.c counts each job that it takes.
use mod_gearman.Common.{ℕ, suc, Bytes, Bool, List, Option, none, some, ◌≡◌, refl, if_both}
use mod_gearman.Crypt.{Evp, Mode}
use mod_gearman.Result.{decrypted_data}
use mod_gearman.Pool.Worker.{JobState, job_start, job_end}
use mod_gearman.Job.{Libc, Job, read_job, set_default_job}
use mod_gearman.Job.Exec.{Options, World}
use mod_gearman.Job.Delivery.{Message, Done, completed, left_early, killed}
use mod_gearman.Job.Received.{
  Environment, Client, Received, ended, left, unwritten, null_value, freed_twice, begin,
  export_outputs, is_stale, is_given, settle, finish, execute, after_run, run_in, run_received,
  with_data, with_workload, get_job,
}

-- A call of `get_job` counts its job, and the next sleep is short again.
abbrev pub Counted : Client → Received → Type 0
Counted c (ended ret c' ms) = (c'.jobs_done ≡ suc c.jobs_done) × (c'.sleep_time_after_error ≡ 1)
Counted c (left c' ms) = c'.jobs_done ≡ suc c.jobs_done
Counted c unwritten = Unit
Counted c null_value = Unit
Counted c freed_twice = Unit

module _ (opt : Options) (w : Environment → World) (stays : JobState → Bool) where
  finish-Counted :
      (job : Job) (env : Environment) (c : Client) (ms : List Message)
      → Counted c (finish opt w stays (settle job env (begin c)) ms)
  unfolding begin
  finish-Counted job env c ms = if_both (Counted c) (stays job_end) (λ _. (refl, refl)) (λ _. refl)

  after_run-Counted :
      (job : Job) (env : Environment) (c : Client) (d : Done)
      → Counted c (after_run opt w stays job env (begin c) d)
  unfolding begin
  after_run-Counted job env c (completed freed (result, ms)) =
      if_both (Counted c) (is_stale job.output freed result.output) (λ _. tt)
        (λ _. finish-Counted job env c ms)
  after_run-Counted job env c left_early = refl
  after_run-Counted job env c (killed (result, ms)) =
      if_both (Counted c) (is_given job.output) (λ _. tt) (λ _. refl)

  run_in-Counted :
      (r : Job × ℕ) (c : Client) (o : Option Environment)
      → Counted c (run_in opt w stays r (begin c) o)
  unfolding begin
  run_in-Counted (job, n) c none = tt
  run_in-Counted (job, n) c (some env) =
      after_run-Counted job env c (execute opt w stays n env (record job { output = none }))

  module _ (evp : Evp) (libc : Libc) (memory : Job) where
    with_data-Counted :
        (text : Option (Option Bytes)) (c : Client)
        → Counted c (with_data opt w stays evp libc memory text (begin c))
    unfolding run_received begin
    with_data-Counted none c = tt
    with_data-Counted (some none) c = (refl, refl)
    with_data-Counted (some (some text)) c =
        let r = read_job libc text (set_default_job opt.job_timeout memory) in
        run_in-Counted r c (export_outputs r.0 c.environment)

    with_workload-Counted :
        (key : Bytes) (mode : Mode) (fresh fresh' : Bytes) (workload : Option Bytes) (c : Client)
        → Counted c
            (with_workload opt w stays evp libc memory key mode fresh fresh' workload (begin c))
    unfolding begin
    with_workload-Counted key mode fresh fresh' none c = (refl, refl)
    with_workload-Counted key mode fresh fresh' (some workload) c =
        with_data-Counted (decrypted_data evp key workload mode fresh fresh') c

    pub get_job-Counted :
        (key : Bytes) (mode : Mode) (fresh fresh' : Bytes) (workload : Option Bytes) (c : Client)
        → Counted c (get_job opt w stays evp libc memory key mode fresh fresh' workload c)
    unfolding get_job
    get_job-Counted key mode fresh fresh' workload c =
        if_both (Counted c) (stays job_start)
          (λ _. with_workload-Counted key mode fresh fresh' workload c) (λ _. refl)
