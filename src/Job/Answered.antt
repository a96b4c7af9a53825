-- ===== src/Job/Answered.antt =====
-- Which jobs are answered: `do_exec_job` of worker/worker_client.c with `send_result_back` of
-- common/utils.c.
use mod_gearman.Common.{
  Bytes, true, false, ◌&&◌, ◌==◌, List, [], some, ◌≡◌, ◌⊎◌, inl, inr, refl, arith, if_both,
}
use mod_gearman.Job.{Job}
use mod_gearman.Job.Exec.{Options, World}
use mod_gearman.Job.Delivery.{
  Message, deliver, send_result_back, Done, completed, left_early, killed,
}
use mod_gearman.Job.Sends.{Sends, messages-Sends}
use mod_gearman.Job.Executes.{all_work, Executes}

pub sent_already :
    (opt : Options) (w : World) (job : Job)
    → job.has_been_sent ≡ true
    → send_result_back opt w job ≡ (job, [])
unfolding send_result_back
sent_already opt w job e = rw e

pub marks_sent :
    (opt : Options) (w : World) (job : Job) → (send_result_back opt w job).0.has_been_sent ≡ true
unfolding send_result_back
marks_sent opt w job =
    if_both (λ (r : Job × List Message). r.0.has_been_sent ≡ true) job.has_been_sent (λ e. e)
      (λ _. refl)

-- A result is sent once: a second call changes nothing and sends nothing.
pub send_result_back_twice :
    (opt : Options) (w : World) (job : Job)
    → send_result_back opt w (send_result_back opt w job).0 ≡ ((send_result_back opt w job).0, [])
send_result_back_twice opt w job =
    sent_already opt w (send_result_back opt w job).0 (marks_sent opt w job)

-- The answer to a check: one message for each server, or none for an exit code of 25 with the
-- workaround, or a text that is too long for its buffers.
abbrev pub Answered : Options → World → Job × List Message → Type 0
Answered opt w (job, ms) =
    Sends opt w job ms ⊎ ((ms ≡ []) × (job.return_code ≡ 25) × (opt.workaround_rc_25 ≡ true))

pub deliver-Answered :
    (opt : Options) (w : World) (job : Job) (queue output : Bytes)
    → job.output ≡ some output
    → Answered opt w (job, deliver opt w job (some queue) (some output))
deliver-Answered opt w job queue output given =
    if_both (λ ms. Answered opt w (job, ms)) (job.return_code == 25 && opt.workaround_rc_25)
      (λ e. inr (refl, ground (arith, e), ground (arith, e)))
      (λ _. inl (messages-Sends opt w job queue output given))

-- How a check is answered that a process has taken. Only where it runs checks without a fork, it can
-- leave without an answer, for a call that fails, or be killed with the answer of the alarm.
abbrev pub Fulfils : Options → World → Done → Type 0
Fulfils opt w (completed freed r) = Answered opt w r
Fulfils opt w left_early = (opt.fork_on_exec ≡ false) × (all_work w.calls ≡ false)
Fulfils opt w (killed r) = (opt.fork_on_exec ≡ false) × (w.is_overdue ≡ true) × Answered opt w r
