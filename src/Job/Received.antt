-- ===== src/Job/Received.antt =====
-- A job as a worker receives it: `get_job` of worker/worker_client.c, with the reading of its text
-- and `do_exec_job`. SIGTERM's mask, what `set_state` is told and the environment are the state
-- `Client`; the messages to the log are left out. The signals that end the process are those of
-- Job/Exit; here it ends by `set_state`, by `run_check` or by the alarm of the check.
pub mod Unrun
pub mod Exports
pub mod Ends
pub mod Answered
use mod_gearman.Common.{
  ℕ, zero, suc, Bytes, codes, str_eq, Bool, true, false, if◌then◌else◌, List, [], ◌∷◌, Option, none,
  some,
}
use mod_gearman.Crypt.{Evp, Mode}
use mod_gearman.Result.{decrypted_data}
use mod_gearman.Pool.Worker.{JobState, job_start, job_end}
use mod_gearman.Job.{Libc, Job, read_job, set_default_job}
use mod_gearman.Job.Exec.{Options, World, is_type}
use mod_gearman.Job.Delivery.{Message, Done, completed, left_early, killed, do_exec_job}

abbrev pub Environment : Type 0
Environment = Bytes → Option Bytes

unfoldable pub setenv : Bytes → Bytes → Environment → Environment
setenv key value env = λ name. if str_eq name key then some value else env name

unfoldable pub unsetenv : Bytes → Environment → Environment
unsetenv key env = λ name. if str_eq name key then none else env name

-- The globals of the process; `told` are the calls of `set_state`, the last one first, and `in_job`
-- says that `current_gearman_job` is not NULL.
pub record Client : Type 0 where
  pub jobs_done : ℕ
  pub sleep_time_after_error : ℕ
  pub sigterm_blocked : Bool
  pub in_job : Bool
  pub told : List JobState
  pub environment : Environment

pub data WorkReturn : Type 0 where
  work_fail success : WorkReturn

-- How a call ends. `left` is a process that has ended within it. Undefined are the reading of a buffer
-- that was never written, a NULL value for `setenv`, and a second `free` of the job's output.
pub data Received : Type 0 where
  ended : WorkReturn → Client → List Message → Received
  left : Client → List Message → Received
  unwritten null_value freed_twice : Received

abbrev pub start : Client → Client
start c = record c { jobs_done = suc c.jobs_done; told = job_start ∷ c.told }

unfoldable pub begin : Client → Client
begin c = record c {
  jobs_done = suc c.jobs_done;
  sleep_time_after_error = 1;
  sigterm_blocked = true;
  in_job = true;
  told = job_start ∷ c.told;
}

abbrev by_service : Option Bytes → Bytes → Bytes → Bytes
by_service none host service = host
by_service (some d) host service = service

abbrev pub output_name : Job → Bytes
output_name job =
    by_service job.service_description (codes "NAGIOS_HOSTOUTPUT") (codes "NAGIOS_SERVICEOUTPUT")

abbrev pub long_output_name : Job → Bytes
long_output_name job =
    by_service job.service_description (codes "NAGIOS_LONGHOSTOUTPUT")
      (codes "NAGIOS_LONGSERVICEOUTPUT")

-- Both variables are set from `exec_job->output`.
abbrev pub put_outputs :
    Bytes → Bytes → Option Bytes → Option Bytes → Environment → Option Environment
put_outputs short long none none env = some env
put_outputs short long none (some l) env = none
put_outputs short long (some o) none env = some (setenv short o env)
put_outputs short long (some o) (some l) env = some (setenv long o (setenv short o env))

abbrev pub is_notification : Job → Bool
is_notification job = is_type "notification" job.type

unfoldable pub export_outputs : Job → Environment → Option Environment
export_outputs job env =
    if is_notification job
    then put_outputs (output_name job) (long_output_name job) job.output job.long_output env
    else some env

unfoldable pub clear_outputs : Job → Environment → Environment
clear_outputs job env =
    if is_notification job
    then unsetenv (long_output_name job) (unsetenv (output_name job) env)
    else env

-- The output that was read is freed and its pointer stays: where `execute_safe_command` frees it, and
-- where the job gets no new output, it is freed again.
abbrev pub is_stale : Option Bytes → Bool → Option Bytes → Bool
is_stale none freed result = false
is_stale (some o) true result = true
is_stale (some o) false none = true
is_stale (some o) false (some p) = false

abbrev pub is_given : Option Bytes → Bool
is_given none = false
is_given (some o) = true

abbrev pub settle : Job → Environment → Client → Client
settle job env c = record c {
  sigterm_blocked = false;
  in_job = false;
  told = job_end ∷ c.told;
  environment = clear_outputs job env;
}

-- The world depends on the environment that a command runs in; `stays` says whether `set_state`
-- (Pool/Worker) comes back.
module _ (opt : Options) (w : Environment → World) (stays : JobState → Bool) where
  -- `job` is the job without its output.
  abbrev pub execute : ℕ → Environment → Job → Done
  execute zero env job = completed false (job, [])
  execute (suc valid_lines) env job = do_exec_job opt (w env) job

  abbrev pub finish : Client → List Message → Received
  finish c ms = if stays job_end then ended success c ms else left c ms

  abbrev pub after_run : Job → Environment → Client → Done → Received
  after_run job env c (completed freed (result, ms)) =
      if is_stale job.output freed result.output then freed_twice else finish (settle job env c) ms
  after_run job env c left_early = left (record c { environment = env }) []
  after_run job env c (killed (result, ms)) =
      if is_given job.output then freed_twice else left (record c { environment = env }) ms

  abbrev pub run_in : Job × ℕ → Client → Option Environment → Received
  run_in (job, valid_lines) c none = null_value
  run_in (job, valid_lines) c (some env) =
      after_run job env c (execute valid_lines env (record job { output = none }))

  unfoldable pub run_received : Job × ℕ → Client → Received
  run_received (job, valid_lines) c = run_in (job, valid_lines) c (export_outputs job c.environment)

  module _ (evp : Evp) (libc : Libc) (memory : Job) where
    abbrev pub with_data : Option (Option Bytes) → Client → Received
    with_data none c = unwritten
    with_data (some none) c = ended work_fail c []
    with_data (some (some text)) c =
        run_received (read_job libc text (set_default_job opt.job_timeout memory)) c

    abbrev pub with_workload : Bytes → Mode → Bytes → Bytes → Option Bytes → Client → Received
    with_workload key mode fresh fresh' none c = ended work_fail c []
    with_workload key mode fresh fresh' (some workload) c =
        with_data (decrypted_data evp key workload mode fresh fresh') c

    -- `None` of the workload is a NULL pointer.
    unfoldable pub get_job : Bytes → Mode → Bytes → Bytes → Option Bytes → Client → Received
    unfolding run_received
    get_job key mode fresh fresh' workload c =
        if stays job_start
        then with_workload key mode fresh fresh' workload (begin c)
        else left (start c) []
