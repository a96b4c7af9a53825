-- ===== src/Tests/Lives.antt =====
-- The loop and the end of a worker: worker/worker_client.c.
use mod_gearman.Common.{Bytes, true, false, List, [], ◌∷◌, Option, none, some, ◌≡◌, refl}
use mod_gearman.Common.Int.{pos}
use mod_gearman.Crypt.{encode_and_encrypt}
use mod_gearman.Pool.{Shm}
use mod_gearman.Pool.Worker.{Client, multi}
use mod_gearman.Job.Received.{Received}
use mod_gearman.Job.Received.{Client as Process}
use mod_gearman.Job.Life.{Work, Loop, idle, sets_alarm, worker_loop}
use mod_gearman.Job.Life.Jobs.{callback}
use mod_gearman.Job.Alarm.{Child}
use mod_gearman.Job.Exit.{Held, exit_worker}
use mod_gearman.Tests.OpenSsl.{toy, key}
use mod_gearman.Tests.Received.{client, ciphertext}
use mod_gearman.Tests.Nebs.{libc}
use mod_gearman.Tests.Jobs.{world, options, job}

-- A job, a lost connection and a job without a workload.
abbrev works : List Work
works =
    record { waits_long = false; job = some (some ciphertext); succeeds = true }
    ∷ record { waits_long = false; job = none; succeeds = false }
    ∷ record { waits_long = false; job = some none; succeeds = false }
    ∷ []

abbrev loop : Loop
loop = record { client = client; sent = []; slept = [] }

abbrev take_job : Option Bytes → Process → Received
take_job =
    callback options (λ n e. world) (λ n st. true) toy libc (λ n. job) key encode_and_encrypt
      (λ n. []) (λ n. [])

-- The idle timeout ends the loop without a limit of jobs.
idles :
    worker_loop 0
      (sets_alarm 10 multi)
      take_job
      (record { waits_long = true; job = none; succeeds = true } ∷ [])
      loop
    ≡ idle loop
unfolding worker_loop
idles = refl

abbrev shm : Shm
shm = record {
  jobs_done = 3;
  worker_total = 1;
  worker_running = 1;
  status_worker_pid = pos 41;
  worker_last_check = 7;
  slots = pos 42 ∷ [];
}

abbrev worker : Client
worker = record { run_mode = multi; current_pid = 42; shm_index = 0 }

abbrev child : Child
child = record { is_reaped = false; is_alive = true }

abbrev held : Held
held = record { in_job = true; current_job = some job; current_child_pid = 99 }

-- A worker whose `get_job` has failed holds a job and has no `current_job`.
broken :
    exit_worker options world child true worker 0 (record held { current_job = none }) shm ≡ none
unfolding exit_worker
broken = refl
