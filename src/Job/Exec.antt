-- ===== src/Job/Exec.antt =====
-- Running a job: common/check_utils.c and the way back of its result in common/utils.c and
-- worker/worker_client.c.
-- The plugin, the system calls, the alarm, the clock and `printf` are the parameter `World`; `int`
-- overflow of seconds is left out.
use mod_gearman.Common.{
  ℕ, suc, Bytes, codes, str_eq, Bool, true, false, not, ◌&&◌, ◌||◌, ◌==◌, leb, ltb, if◌then◌else◌,
  List, [], ◌∷◌, ◌++◌, Option, none, some, length, take, ◌+◌, ◌-◌,
}
use mod_gearman.Common.Int.{ℤ, pos, eq_ℤ, ltb_ℤ, ◌-ℤ◌, minus_one}
use mod_gearman.Text.Replace.{is_prefix}
use Prim.Native.String.{String}
use mod_gearman.Job.{Job, Timeval}
pub mod Run
pub use mod_gearman.Job.Exec.Run.{
  buffersize, Options, Calls, World, first_byte, restricted, Check, plugin_ends, read_outputs,
  by_execvp, returned, exits, rings,
}
unfoldable pub use mod_gearman.Job.Exec.Run.{
  starts_with, strchr, strpbrk, any_starts, refusal, check_restricted, is_plain, run_check,
}

unfoldable pub real_exit_code : World → ℤ → ℕ
real_exit_code w code =
    if eq_ℤ code minus_one
    then 3
    else if w.wifsignaled code
    then 128 + w.wtermsig code
    else if w.wifexited code
    then w.wexitstatus code
    else 0

abbrev signal_names : List Bytes
signal_names =
    codes "SIGHUP"
    ∷ codes "SIGINT"
    ∷ codes "SIGQUIT"
    ∷ codes "SIGILL"
    ∷ codes "SIGTRAP"
    ∷ codes "SIGABRT"
    ∷ codes "SIGBUS"
    ∷ codes "SIGFPE"
    ∷ codes "SIGKILL"
    ∷ codes "SIGUSR1"
    ∷ codes "SIGSEGV"
    ∷ codes "SIGUSR2"
    ∷ codes "SIGPIPE"
    ∷ codes "SIGALRM"
    ∷ codes "SIGTERM"
    ∷ codes "SIGURG"
    ∷ []

-- The names stand for 1 to 16.
abbrev name_of : World → ℕ → ℕ → List Bytes → Bytes
name_of w sig n [] = take 19 (codes "signal " ++ w.show sig)
name_of w sig n (name ∷ names) =
    let rest = name_of w sig (suc n) names in if sig == n then name else rest

unfoldable pub nr2signal : World → ℕ → Bytes
nr2signal w sig = name_of w sig 1 signal_names

abbrev worker_part : Options → Bytes
worker_part opt = codes " (worker: " ++ (opt.identifier ++ codes ")")

unfoldable pub not_executable : Options → Bytes
not_executable opt =
    codes
      "CRITICAL: Return code of 126 is out of bounds. Make sure the plugin you're trying to run is executable."
    ++ worker_part opt

unfoldable pub not_found : Options → Bytes
not_found opt =
    codes
      "CRITICAL: Return code of 127 is out of bounds. Make sure the plugin you're trying to run actually exists."
    ++ worker_part opt

unfoldable pub signaled : Options → World → ℕ → Bytes → Bytes
unfolding nr2signal
signaled opt w rc output =
    codes "CRITICAL: Return code of "
    ++ (w.show rc
        ++ (codes " is out of bounds. Plugin exited by signal "
            ++ (nr2signal w (rc - 128)
                ++ (codes "." ++ (worker_part opt ++ (codes "\\n" ++ output))))))

unfoldable pub out_of_bounds : Options → World → ℕ → Bytes → Bytes
out_of_bounds opt w rc output =
    codes "CRITICAL: Return code of "
    ++ (w.show rc ++ (codes " is out of bounds." ++ (worker_part opt ++ (codes "\\n" ++ output))))

-- The codes that are no result of a plugin, with the text for them.
unfoldable pub check_code : Options → World → ℕ → Bytes → ℕ × Bytes
check_code opt w rc output =
    if rc == 126
    then (2, not_executable opt)
    else if rc == 127
    then (2, not_found opt)
    else if leb 128 rc && ltb rc 144
    then (2, signaled opt w rc output)
    else if ltb 3 rc
    then (
      if not (rc == 25) && not opt.workaround_rc_25 then 2 else rc,
      out_of_bounds opt w rc output,
    )
    else (rc, output)

-- What the parent sees of a child that has run the check: a child that leaves early, with
-- `STATE_UNKNOWN` or by its own SIGKILL, has written nothing.
abbrev pub seen : World → Check → Check
seen w (returned status out err) =
    returned (w.exited (real_exit_code w status)) (w.piped out) (w.piped err)
seen w exits = returned (w.exited 3) [] []
seen w rings = returned (w.killed 9) [] []

unfoldable pub collect : Options → World → Bytes → Check
unfolding run_check real_exit_code
collect opt w cmd = if opt.fork_on_exec then seen w (run_check opt w cmd) else run_check opt w cmd

abbrev pub is_type : String → Option Bytes → Bool
is_type name none = false
is_type name (some t) = str_eq t (codes name)

abbrev pub is_check : Option Bytes → Bool
is_check type = is_type "service" type || is_type "host" type

-- `exec_job->timeout < ((int)end_time.tv_sec - (int)exec_job->start_time.tv_sec)`
unfoldable pub apply_timeout : Options → Job → Job
apply_timeout opt job =
    if ltb_ℤ job.timeout (job.finish_time.tv_sec -ℤ job.start_time.tv_sec)
    then record job {
      return_code = opt.timeout_return;
      early_timeout = true;
      output = some (
          (if is_type "service" job.type
            then codes "(Service Check Timed Out On Worker: "
            else codes "(Host Check Timed Out On Worker: ")
          ++ (opt.identifier ++ codes ")"));
    }
    else job

abbrev pub set_source : Options → Job → Job
set_source opt job = record job {
  source = some (take (buffersize - 2) (codes "Mod-Gearman Worker @ " ++ opt.identifier));
}

abbrev pub set_start : World → Job → Job
set_start w job =
    if eq_ℤ job.start_time.tv_sec (pos 0) then record job { start_time = w.started } else job

unfoldable pub finish_check : Options → World → ℕ × Bytes → Bytes → Job → Job
unfolding apply_timeout
finish_check opt w (rc, output) err job = set_source opt (
    apply_timeout opt (record job {
      output = some output;
      error = some err;
      return_code = rc;
      finish_time = w.finished;
    }))

-- How `execute_safe_command` ends: with the job; with a job whose `fork` failed, which keeps its source
-- and whose old output is freed; or where it runs the check itself, with the end of the process or
-- with the alarm.
pub data Executed : Type 0 where
  finished not_forked : Job → Executed
  exited : Executed
  alarmed : Job → Executed

abbrev pub conclude : Options → World → Job → Check → Executed
conclude opt w job (returned status out err) =
    finished (finish_check opt w (check_code opt w (real_exit_code w status) out) err job)
conclude opt w job exits = exited
conclude opt w job rings = alarmed job

-- `cmd` is the job's command line.
unfoldable pub execute_safe_command : Options → World → Bytes → Job → Executed
unfolding collect check_code finish_check
execute_safe_command opt w cmd job =
    if opt.fork_on_exec && not w.fork_works
    then not_forked
        (record (set_start w job) { output = some (codes "(Error On Fork)"); return_code = 3 })
    else conclude opt w (set_start w job) (collect opt w cmd)
