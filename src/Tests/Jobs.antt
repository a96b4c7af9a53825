-- ===== src/Tests/Jobs.antt =====
-- The theorems on jobs at concrete ones: worker/worker_client.c and common/check_utils.c.
use mod_gearman.Common.{
  ◌++◌, drop, length, ℕ, codes, true, false, leb, ltb, List, [], ◌∷◌, none, some, ◌+◌, ◌-◌, ◌%◌,
  ◌≡◌, ◌≢◌, ◌≤◌, ◌<◌, ◌⊎◌, ◌↔◌, refl, arith,
}
use mod_gearman.Common.Int.{pos, abs}
use mod_gearman.Job.{Libc, Job, Timeval}
use mod_gearman.Job.Fields.{Field}
use mod_gearman.Job.Exec.{Options, World, check_code, check_restricted}
use mod_gearman.Job.ExitCode.{Allowed, check_code_lem, check_restricted_iff}
use mod_gearman.Job.Pipe.{read_pipe, read_pipe_lem}
use mod_gearman.Job.Delivery.{left_early, do_exec_job}

abbrev at : ℕ → Timeval
at n = record { tv_sec = pos n; tv_usec = pos 0 }

abbrev libc : Libc
libc = record { atoi = λ s. pos 30; string2timeval = λ s. at 5 }

-- A status is the signal below 128, and otherwise 128 and the exit status.
abbrev pub world : World
world = record {
  wifsignaled = λ s. ltb (abs s) 128;
  wtermsig = λ s. abs s % 128;
  wifexited = λ s. leb 128 (abs s);
  wexitstatus = λ s. (abs s - 128) % 256;
  exited = λ n. pos (n % 256 + 128);
  killed = λ n. pos n;
  calls = record {
    pipe_stdout = true;
    pipe_stderr = true;
    fork = true;
    fdopen_stdout = true;
    fdopen_stderr = true;
  };
  is_overdue = false;
  plugin = λ cmd. (pos 130, codes "WARNING - disk", []);
  piped = λ s. s;
  fork_works = true;
  show = λ n. codes "n";
  show_time = λ t. codes "t";
  show_text = λ o. [];
  started = at 10;
  finished = at 11;
}

abbrev pub options : Options
options = record {
  restrict_path = codes "/usr/lib/" ∷ [];
  restrict_command_characters = codes "$&;";
  job_timeout = pos 60;
  max_age = pos 0;
  timeout_return = 2;
  workaround_rc_25 = false;
  fork_on_exec = true;
  identifier = codes "worker";
  hostname = codes "host";
  debug_result = false;
  show_error_output = true;
  dupserver_num = 1;
  dup_results_are_passive = true;
}

abbrev pub job : Job
job = record {
  host_name = some (codes "web");
  service_description = none;
  type = some (codes "host");
  result_queue = some (codes "check_results");
  command_line = some (codes "/usr/lib/check_ping web");
  source = none;
  output = none;
  long_output = none;
  error = none;
  exited_ok = true;
  scheduled_check = pos 1;
  check_options = pos 0;
  return_code = 0;
  early_timeout = false;
  timeout = pos 60;
  next_check = at 9;
  core_time = at 9;
  start_time = at 0;
  finish_time = at 0;
  has_been_sent = false;
}

abbrev event : Job
event = record job { type = some (codes "eventhandler") }

abbrev code : ℕ
code = 25

check_code_lem_example :
    let checked = check_code options world 25 [] in
    ((25 ≤ 3) × (checked ≡ (25, [])))
    ⊎ ((3 < 25) × (checked.0 ≡ 2))
    ⊎ ((3 < 25)
        × (code ≢ 126)
        × (code ≢ 127)
        × ((25 < 128) ⊎ (144 ≤ 25))
        × ((code ≡ 25) ⊎ (options.workaround_rc_25 ≡ true))
        × (checked.0 ≡ 25))
check_code_lem_example = check_code_lem options world code []

check_restricted_iff_example :
    (check_restricted options.restrict_path options.restrict_command_characters
        (codes "/usr/lib/check_ping web")
      ≡ none)
    ↔ Allowed options.restrict_path options.restrict_command_characters
        (codes "/usr/lib/check_ping web")
check_restricted_iff_example =
    check_restricted_iff options.restrict_path options.restrict_command_characters
      (codes "/usr/lib/check_ping web") (λ e. cc e)

abbrev fields : List Field
fields =
    record { key = codes "type"; value = codes "host" }
    ∷ record { key = codes "timeout"; value = codes "30" }
    ∷ []

abbrev unforked : Options
unforked = record options { fork_on_exec = false }

-- A worker that runs its checks itself leaves where `fdopen` fails.
no_stderr :
    do_exec_job unforked
      (record world { calls = record (world.calls) { fdopen_stderr = false } })
      job
    ≡ left_early
unfolding do_exec_job mod_gearman.Job.Delivery.run_job mod_gearman.Job.Exec.execute_safe_command
    mod_gearman.Text.Replace.is_prefix
no_stderr = refl

read_pipe_lem_example :
    (read_pipe (codes "CRITICAL" ∷ []) ≡ codes "CRITICAL")
    × (read_pipe (codes "CRITICAL" ∷ codes "ok" ∷ [])
        ≡ codes "CRITICAL" ++ (codes "ok" ++ drop (length (codes "ok")) (codes "CRITICAL")))
read_pipe_lem_example =
    read_pipe_lem (codes "CRITICAL") (codes "ok") (ground arith) (ground arith) (omega arith)
      (omega arith)
