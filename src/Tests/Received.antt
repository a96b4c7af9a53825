-- ===== src/Tests/Received.antt =====
-- The theorems on `get_job` of worker/worker_client.c at concrete workloads.
use mod_gearman.Common.{
  Bytes, codes, suc, true, false, [], ◌∷◌, ◌++◌, none, some, length, map, replicate, ◌+◌, ◌-◌, ◌%◌,
  ◌≡◌, refl,
}
use mod_gearman.Neb.{service_text}
use mod_gearman.Job.{Job, set_default_job}
use mod_gearman.Job.Received.{Environment, Client, freed_twice, null_value, run_received}
use mod_gearman.Job.Received.Ends.{Ends}
use mod_gearman.Tests.OpenSsl.{toy}
use mod_gearman.Tests.Results.{float, world, options, job}
use mod_gearman.Tests.Nebs.{env, event}
use mod_gearman.Tests.Nebs.{options as core}

abbrev pub client : Client
client = record {
  jobs_done = 0;
  sleep_time_after_error = 4;
  sigterm_blocked = false;
  in_job = false;
  told = [];
  environment = λ name. none;
}

abbrev text : Bytes
text = service_text float core env (codes "service") event (codes "/usr/lib/check_http")

abbrev pub ciphertext : Bytes
ciphertext = toy.encode_block (map suc (text ++ 0 ∷ replicate (16 - (length text + 1) % 16) 0))

-- A notification with an output and without a command line.
stale :
    run_received options
      (λ e. world)
      (λ st. true)
      (record job { type = some (codes "notification"); command_line = none }, 2)
      client
    ≡ freed_twice
unfolding run_received mod_gearman.Job.Received.export_outputs mod_gearman.Job.Delivery.do_exec_job
stale = refl

-- A notification with a long output only.
long_only :
    run_received options
      (λ e. world)
      (λ st. true)
      (
        record job {
          type = some (codes "notification");
          output = none;
          long_output = some (codes "details");
        },
        2,
      )
      client
    ≡ null_value
unfolding run_received mod_gearman.Job.Received.export_outputs
long_only = refl

-- A notification with an output whose command cannot be forked.
not_forked :
    run_received options
      (λ e. record world { fork_works = false })
      (λ st. true)
      (
        record job { type = some (codes "notification"); command_line = some (codes "/bin/mail") },
        2,
      )
      client
    ≡ freed_twice
unfolding run_received mod_gearman.Job.Received.export_outputs mod_gearman.Job.Delivery.do_exec_job
    mod_gearman.Job.Delivery.run_job mod_gearman.Job.Exec.execute_safe_command
not_forked = refl
