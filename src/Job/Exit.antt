-- ===== src/Job/Exit.antt =====
-- The end of a worker process with the job that it holds: `clean_worker_exit` of
-- worker/worker_client.c, whose slot in the shared memory is the part of Pool/Worker. Its answer to a
-- query for the status, `return_status`, is here as well.
pub mod Left
use mod_gearman.Common.{
  ℕ, suc, Bytes, codes, Bool, true, false, ◌==◌, if◌then◌else◌, List, [], ◌∷◌, ◌++◌, Option, none,
  some, get_elem?, take, ◌≡◌, ◌≢◌, ◌≤◌, ◌<◌, ◌⊎◌, inl, inr, refl, arith, if_both, Bool-cases,
}
use mod_gearman.Common.Int.{pos, neg_ℕ, minus_one}
use mod_gearman.Pool.{Shm}
use mod_gearman.Pool.Worker.{
  Client, multi, status, standalone, Next, running, left, is_ours, clean_slot, clean_worker_exit,
  with_slot, slot_is,
}
use mod_gearman.Job.{Job}
use mod_gearman.Job.Exec.{Options, World}
use mod_gearman.Job.Delivery.{Message, deliver, send_result_back}
use mod_gearman.Job.Received.{WorkReturn, work_fail, success}
use mod_gearman.Job.Alarm.{Kill, sigint, Child, kill_child_checks, failed, send_failed_result}

-- `current_gearman_job` as a test, `current_job` and `current_child_pid`
pub record Held : Type 0 where
  pub in_job : Bool
  pub current_job : Option Job
  pub current_child_pid : ℕ

-- What is done with the job: messages, `gearman_job_send_complete`, and signals.
pub record Cleared : Type 0 where
  pub sent : List Message
  pub is_complete : Bool
  pub kills : List Kill

-- `send_failed_result` reads `current_job` without a test.
abbrev pub failed_job : Options → World → List Kill → ℕ → Option Job → Option Cleared
failed_job opt w kills sig none = none
failed_job opt w kills sig (some job) =
    some (record { sent = (send_failed_result opt w sig job).1; is_complete = true; kills = kills })

unfoldable pub clear_job : Options → World → Child → ℕ → ℕ → Held → Option Cleared
unfolding send_failed_result
clear_job opt w child pid sig h =
    let kills = kill_child_checks child h.current_child_pid pid in
    if h.in_job
    then (if sig == sigint
        then some (record { sent = []; is_complete = false; kills = kills })
        else failed_job opt w kills sig h.current_job)
    else some (record { sent = []; is_complete = false; kills = [] })

unfoldable pub exit_worker :
    Options → World → Child → Bool → Client → ℕ → Held → Shm → Option (Cleared × Next)
unfolding clear_job
exit_worker opt w child attach c sig h shm = elim (clear_job opt w child c.current_pid sig h) [
  | none ↦ none
  | some cleared ↦ some (cleared, clean_worker_exit attach c shm)
]

abbrev joined : List Bytes → Bytes
joined [] = []
joined (t ∷ ts) = t ++ joined ts

abbrev pub state_text : (ℕ → Bytes) → Bytes → ℕ → ℕ → Shm → Bytes
state_text show hostname min_worker max_worker shm = joined (
    hostname
    ∷ codes " has "
    ∷ show shm.worker_total
    ∷ codes " worker and is working on "
    ∷ show shm.worker_running
    ∷ codes " jobs. Version: 5.2.4|worker="
    ∷ show shm.worker_total
    ∷ codes ";;;"
    ∷ show min_worker
    ∷ codes ";"
    ∷ show max_worker
    ∷ codes " jobs="
    ∷ show shm.jobs_done
    ∷ codes "c"
    ∷ [])

-- What is returned with its text, and the memory with its counter. There is no text for a missing
-- workload, and none where the memory could not be attached.
unfoldable pub return_status :
    (ℕ → Bytes) → Bytes → ℕ → ℕ → Bool → Option Bytes → Shm → WorkReturn × Option Bytes × Shm
return_status show hostname min_worker max_worker attach none shm = (work_fail, none, shm)
return_status show hostname min_worker max_worker false (some workload) shm = (success, none, shm)
return_status show hostname min_worker max_worker true (some workload) shm = (
  success,
  some (take 65535 (state_text show hostname min_worker max_worker shm)),
  record shm { jobs_done = suc shm.jobs_done },
)
