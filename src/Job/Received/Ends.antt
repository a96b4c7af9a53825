-- ===== src/Job/Received/Ends.antt =====
-- How `get_job` of worker/worker_client.c can end.
use mod_gearman.Common.{
  ℕ, suc, Bytes, Bool, List, true, false, [], ◌∷◌, Option, none, some, ◌≡◌, ◌⊎◌,
}
use mod_gearman.Crypt.{Evp, Mode}
use mod_gearman.Result.{decrypted_data}
use mod_gearman.Pool.Worker.{JobState, job_start, job_end}
use mod_gearman.Job.{Libc, Job, read_job, set_default_job}
use mod_gearman.Job.Exec.{Options, World}
use mod_gearman.Job.Delivery.{Message, Done, completed, left_early, killed}
use mod_gearman.Job.Executes.{all_work}
use mod_gearman.Job.Received.Unrun.{Unrun}
use mod_gearman.Job.Received.{
  Environment, Client, work_fail, success, Received, ended, left, unwritten, null_value,
  freed_twice,
}
use mod_gearman.Job.Received.Exports.{Same, IsLongOnly}

module _ (opt : Options) (w : Environment → World) (stays : JobState → Bool) where
  -- Why an output is freed again: no valid line, a job that is left, a `fork` that fails, or the alarm of
  -- a process that runs the check itself.
  abbrev pub Reason : Job → ℕ → Type 0
  Reason job valid_lines =
      (valid_lines ≡ 0)
      ⊎ ((env : Environment) × (Unrun opt (w env) (record job { output = none })
            ⊎ ((opt.fork_on_exec ≡ true) × ((w env).fork_works ≡ false))
            ⊎ ((opt.fork_on_exec ≡ false) × ((w env).is_overdue ≡ true))))

  -- A job that came with an output of its own.
  pub record IsStale (job : Job) (valid_lines : ℕ) : Type 0 where
    output : (o : Bytes) × (job.output ≡ some o)
    reason : Reason job valid_lines

  -- A process that has ended in a job: `set_state` did not come back from its end, or the process ran
  -- the check itself and left by a call that failed, or by the alarm.
  abbrev pub LeftIn : Client → Client → List Message → Type 0
  LeftIn c c' ms =
      ((stays job_end ≡ false) × (c'.in_job ≡ false) × (c'.told ≡ job_end ∷ job_start ∷ c.told))
      ⊎ ((env : Environment) × (opt.fork_on_exec ≡ false)
          × (c'.in_job ≡ true)
          × (c'.told ≡ job_start ∷ c.told)
          × (((all_work (w env).calls ≡ false) × (ms ≡ [])) ⊎ ((w env).is_overdue ≡ true)))

  -- A call that succeeds has told its start and its end, listens to SIGTERM again, and has changed
  -- no variable but those of a notification. What is undefined has its reason.
  abbrev pub Settled : Job × ℕ → Client → Received → Type 0
  Settled (job, n) c (ended work_fail c' ms) = ⊥
  Settled (job, n) c (ended success c' ms) =
      (stays job_end ≡ true)
      × (c'.sigterm_blocked ≡ false)
      × (c'.in_job ≡ false)
      × (c'.told ≡ job_end ∷ job_start ∷ c.told)
      × (c'.jobs_done ≡ suc c.jobs_done)
      × Same c.environment c'.environment
  Settled (job, n) c (left c' ms) = LeftIn c c' ms
  Settled (job, n) c unwritten = ⊥
  Settled (job, n) c null_value = IsLongOnly job
  Settled (job, n) c freed_twice = IsStale job n

  -- `execute` for the reasons.
  abbrev Result : Job → ℕ → Environment → Done → Type 0
  Result job n env (completed false r) = ((o : Bytes) × (r.0.output ≡ some o)) ⊎ Reason job n
  Result job n env (completed true r) = Reason job n
  Result job n env left_early = (opt.fork_on_exec ≡ false) × (all_work (w env).calls ≡ false)
  Result job n env (killed r) = (opt.fork_on_exec ≡ false) × ((w env).is_overdue ≡ true)

  module _ (evp : Evp) (libc : Libc) (memory : Job) where
    -- The text of a workload; a workload that is missing or not base64 has none.
    abbrev pub arrived : Bytes → Mode → Bytes → Bytes → Option Bytes → Option (Option Bytes)
    arrived key mode fresh fresh' none = some none
    arrived key mode fresh fresh' (some workload) =
        decrypted_data evp key workload mode fresh fresh'

    -- A call without a text has told its start only, and leaves SIGTERM blocked.
    abbrev pub WithText : Option (Option Bytes) → Client → Received → Type 0
    WithText none c r = r ≡ unwritten
    WithText (some none) c r =
        (c' : Client) × (r ≡ ended work_fail c' [])
        × (c'.sigterm_blocked ≡ true)
        × (c'.in_job ≡ true)
        × (c'.told ≡ job_start ∷ c.told)
    WithText (some (some text)) c r =
        Settled (read_job libc text (set_default_job opt.job_timeout memory)) c r

    -- A process that `set_state` ends at the start has taken no job.
    abbrev pub Ends : Option (Option Bytes) → Client → Received → Type 0
    Ends text c r =
        ((stays job_start ≡ true) × WithText text c r)
        ⊎ ((stays job_start ≡ false)
            × ((c' : Client) × (r ≡ left c' [])
                × (c'.in_job ≡ c.in_job)
                × (c'.told ≡ job_start ∷ c.told)))
