-- ===== src/Job/Received/Answered.antt =====
-- A check on its way from `handle_svc_check` of neb_module_naemon/mod_gearman.c through `get_job`
-- of worker/worker_client.c to its result.
use mod_gearman.Common.{Bytes, codes, Bool, true, false, [], some, List, ◌≡◌}
use mod_gearman.Pool.Worker.{JobState, job_start, job_end}
use mod_gearman.Job.{Libc, Job, set_default_job}
use mod_gearman.Job.Exec.{Options, World}
use mod_gearman.Job.Delivery.{Message}
use mod_gearman.Job.Answered.{Answered}
use mod_gearman.Job.Executes.{all_work}
use mod_gearman.Job.Received.{
  Environment, work_fail, success, Received, ended, left, unwritten, null_value, freed_twice,
}

abbrev AnsweredBy : Options → World → List Message → Type 0
AnsweredBy opt w ms = (job : Job) × Answered opt w (job, ms)

-- How a process can end within a job: before it is taken, without an answer for a call that fails, or
-- with its answer, by `set_state` or by the alarm.
pub data LeftAt (opt : Options) (w : World) (stays : JobState → Bool) (ms : List Message)
    : Type 0 where
  not_taken : stays job_start ≡ false → ms ≡ [] → LeftAt opt w stays ms
  call_failed :
      opt.fork_on_exec ≡ false → all_work w.calls ≡ false → ms ≡ [] → LeftAt opt w stays ms
  after_end : stays job_end ≡ false → AnsweredBy opt w ms → LeftAt opt w stays ms
  by_alarm :
      opt.fork_on_exec ≡ false → w.is_overdue ≡ true → AnsweredBy opt w ms → LeftAt opt w stays ms

-- A call that succeeds and answers its job, or in which the process ends.
abbrev pub Answers : Options → World → (JobState → Bool) → Received → Type 0
Answers opt w stays (ended work_fail c ms) = ⊥
Answers opt w stays (ended success c ms) = AnsweredBy opt w ms
Answers opt w stays (left c ms) = LeftAt opt w stays ms
Answers opt w stays unwritten = ⊥
Answers opt w stays null_value = ⊥
Answers opt w stays freed_twice = ⊥

module _ (opt : Options) (w : Environment → World) (libc : Libc) (memory : Job) where
  abbrev service_job : Bytes → Bytes → Bytes → Bytes → Bytes → Bytes → Job
  service_job queue name description time timeout cmd =
      record (set_default_job opt.job_timeout memory) {
        type = some (codes "service");
        result_queue = some queue;
        host_name = some name;
        service_description = some description;
        core_time = libc.string2timeval time;
        timeout = libc.atoi timeout;
        command_line = some cmd;
      }
