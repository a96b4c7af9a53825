-- ===== src/Job/Received/Unrun.antt =====
-- The jobs of `do_exec_job` of worker/worker_client.c that get no output.
use mod_gearman.Common.{
  Bytes, true, false, Option, none, some, ◌≡◌, ◌⊎◌, inl, inr, refl, sym, ◌∙◌, if_both,
}
use mod_gearman.Job.{Job}
use mod_gearman.Job.Exec.{
  Options, World, is_check, Executed, finished, not_forked, exited, alarmed, execute_safe_command,
}
use mod_gearman.Job.Delivery.{
  send_result_back, answer, begin_job, too_old, discard, Done, completed, left_early, killed,
  answer_executed, run_job, exec_parts, do_exec_job,
}
use mod_gearman.Job.Executes.{all_work, Executes, execute_safe_command-Executes}

-- No type, no command line, or a notification or an event handler that is too old.
abbrev pub Unrun : Options → World → Job → Type 0
Unrun opt w job =
    (job.type ≡ none)
    ⊎ ((job.command_line ≡ none)
        ⊎ ((is_check job.type ≡ false) × (too_old opt (begin_job opt w job) ≡ true)))

send_result_back_output :
    (opt : Options) (w : World) (job : Job) → (send_result_back opt w job).0.output ≡ job.output
unfolding send_result_back
send_result_back_output opt w job =
    if_both (λ (r : Job × _). r.0.output ≡ job.output) job.has_been_sent (λ _. refl) (λ _. refl)

answer_output : (opt : Options) (w : World) (job : Job) → (answer opt w job).0.output ≡ job.output
answer_output opt w job =
    if_both (λ (r : Job × _). r.0.output ≡ job.output) (is_check job.type)
      (λ _. send_result_back_output opt w job) (λ _. refl)

discard_output : (w : World) (job : Job) → (discard w job).output ≡ none → is_check job.type ≡ false
discard_output w job =
    if_both (λ (j : Job). j.output ≡ none → is_check job.type ≡ false) (is_check job.type)
      (λ _ e. cc e) (λ other _. other)

-- What becomes of the output of a job: it gets a new one or is not run, the old one is freed after a
-- `fork` that fails, or the process ends.
abbrev pub Outputs : Options → World → Job → Done → Type 0
Outputs opt w job (completed false r) = ((o : Bytes) × (r.0.output ≡ some o)) ⊎ Unrun opt w job
Outputs opt w job (completed true r) = (opt.fork_on_exec ≡ true) × (w.fork_works ≡ false)
Outputs opt w job left_early = (opt.fork_on_exec ≡ false) × (all_work w.calls ≡ false)
Outputs opt w job (killed r) = (opt.fork_on_exec ≡ false) × (w.is_overdue ≡ true)

of_option : (o : Option Bytes) → ((b : Bytes) × (o ≡ some b)) ⊎ (o ≡ none)
of_option none = inr refl
of_option (some b) = inl (b, refl)

discarded-Outputs :
    (opt : Options) (w : World) (job : Job)
    → too_old opt (begin_job opt w job) ≡ true
    → Outputs opt w job (completed false (answer opt w (discard w (begin_job opt w job))))
discarded-Outputs opt w job old =
    let begun = begin_job opt w job in
    let done = answer opt w (discard w begun) in
    elim (of_option done.0.output) [
      | inl has ↦ inl has
      | inr gone ↦
          let other = discard_output w begun (sym (answer_output opt w (discard w begun)) ∙ gone) in
          inr (inr (inr (other, old)))
    ]

executed-Outputs :
    (opt : Options) (w : World) (job fresh_job : Job) (e : Executed)
    → Executes opt w fresh_job e
    → Outputs opt w job (answer_executed opt w e)
executed-Outputs opt w job fresh_job (finished done) ran =
    let (output, o) = ran.answered in inl (output, answer_output opt w done ∙ o)
executed-Outputs opt w job fresh_job (not_forked done) (forks, fails, ran) = (forks, fails)
executed-Outputs opt w job fresh_job exited ends = ends
executed-Outputs opt w job fresh_job (alarmed late) (inside, overdue, sent, queue) =
    (inside, overdue)

run_job-Outputs :
    (opt : Options) (w : World) (cmd : Bytes) (job : Job)
    → Outputs opt w job (run_job opt w cmd job)
unfolding run_job
run_job-Outputs opt w cmd job =
    let begun = begin_job opt w job in
    let fresh_job = record begun { early_timeout = false } in
    if_both (Outputs opt w job) (too_old opt begun) (λ old. discarded-Outputs opt w job old)
      (λ _.
        executed-Outputs opt w job fresh_job (execute_safe_command opt w cmd fresh_job)
          (execute_safe_command-Executes opt w cmd fresh_job))

exec_parts-Outputs :
    (opt : Options) (w : World) (type cmd : Option Bytes) (job : Job)
    → job.type ≡ type
    → job.command_line ≡ cmd
    → Outputs opt w job (exec_parts opt w type cmd job)
exec_parts-Outputs opt w none cmd job t c = inr (inl t)
exec_parts-Outputs opt w (some type) none job t c = inr (inr (inl c))
exec_parts-Outputs opt w (some type) (some cmd) job t c = run_job-Outputs opt w cmd job

pub do_exec_job-Outputs :
    (opt : Options) (w : World) (job : Job) → Outputs opt w job (do_exec_job opt w job)
unfolding do_exec_job
do_exec_job-Outputs opt w job = exec_parts-Outputs opt w job.type job.command_line job refl refl
