-- ===== src/Job/Executes.antt =====
-- What `execute_safe_command` and `run_check` of common/check_utils.c leave of a job, and how they end the
-- process.
use mathlib.Core.Path.{subst}
use mod_gearman.Common.{
  ℕ, Bytes, Bool, true, false, not, ◌&&◌, if◌then◌else◌, [], none, some, ◌≡◌, ◌⊎◌, inl, inr, refl,
  ◌∙◌, arith, if_both,
}
use mod_gearman.Common.Int.{pos, eq_ℤ, ltb_ℤ, ◌-ℤ◌}
use mod_gearman.Job.{Job}
use mod_gearman.Job.Exec.{
  Calls, Options, World, is_plain, restricted, Check, returned, exits, rings, read_outputs,
  by_execvp, run_check, seen, set_start, apply_timeout, finish_check, Executed, finished,
  not_forked, exited, alarmed, conclude, execute_safe_command, collect, check_code, real_exit_code,
}

-- What running a check leaves in its job.
pub record Ran (job done : Job) : Type 0 where
  pub type_kept : done.type ≡ job.type
  pub queue_kept : done.result_queue ≡ job.result_queue
  pub sent_kept : done.has_been_sent ≡ job.has_been_sent
  pub answered : (output : Bytes) × (done.output ≡ some output)

set_start-Ran :
    (w : World) (job : Job)
    → ((set_start w job).type ≡ job.type)
      × ((set_start w job).result_queue ≡ job.result_queue)
      × ((set_start w job).has_been_sent ≡ job.has_been_sent)
set_start-Ran w job =
    if_both
      (λ (j : Job).
        (j.type ≡ job.type)
        × (j.result_queue ≡ job.result_queue)
        × (j.has_been_sent ≡ job.has_been_sent))
      (eq_ℤ job.start_time.tv_sec (pos 0)) (λ _. (refl, refl, refl)) (λ _. (refl, refl, refl))

apply_timeout-Ran :
    (opt : Options) (job : Job) (output : Bytes)
    → job.output ≡ some output
    → Ran job (apply_timeout opt job)
unfolding apply_timeout
apply_timeout-Ran opt job output e =
    if_both (Ran job) (ltb_ℤ job.timeout (job.finish_time.tv_sec -ℤ job.start_time.tv_sec))
      (λ _. record { type_kept = refl; queue_kept = refl; sent_kept = refl; answered = (_, refl) })
      (λ _. record {
        type_kept = refl;
        queue_kept = refl;
        sent_kept = refl;
        answered = (output, e);
      })

pub finish_check-Ran :
    (opt : Options) (w : World) (r : ℕ × Bytes) (err : Bytes) (job : Job)
    → Ran job (finish_check opt w r err job)
unfolding finish_check
finish_check-Ran opt w (rc, output) err job =
    let ran =
      apply_timeout-Ran opt
        (record job {
          output = some output;
          error = some err;
          return_code = rc;
          finish_time = w.finished;
        })
        output refl in
    record {
      type_kept = ran.type_kept;
      queue_kept = ran.queue_kept;
      sent_kept = ran.sent_kept;
      answered = ran.answered;
    }

abbrev pub all_work : Calls → Bool
all_work c = c.pipe_stdout && c.pipe_stderr && c.fork && c.fdopen_stdout && c.fdopen_stderr

-- The reasons for the ends of a check.
abbrev Ends : World → Check → Type 0
Ends w (returned status out err) = Unit
Ends w exits = all_work w.calls ≡ false
Ends w rings = w.is_overdue ≡ true

abbrev Returns : Check → Type 0
Returns (returned status out err) = Unit
Returns exits = ⊥
Returns rings = ⊥

-- What `execute_safe_command` leaves of its job; a process ends by `_exit` or by the alarm only where
-- it runs the check itself.
abbrev pub Executes : Options → World → Job → Executed → Type 0
Executes opt w job (finished done) = Ran job done
Executes opt w job (not_forked done) =
    (opt.fork_on_exec ≡ true) × (w.fork_works ≡ false) × Ran job done
Executes opt w job exited = (opt.fork_on_exec ≡ false) × (all_work w.calls ≡ false)
Executes opt w job (alarmed late) =
    (opt.fork_on_exec ≡ false)
    × (w.is_overdue ≡ true)
    × (late.has_been_sent ≡ job.has_been_sent)
    × (late.result_queue ≡ job.result_queue)

conclude-Executes :
    (opt : Options) (w : World) (job : Job) (check : Check)
    → (check ≡ exits → (opt.fork_on_exec ≡ false) × (all_work w.calls ≡ false))
    → (check ≡ rings → (opt.fork_on_exec ≡ false) × (w.is_overdue ≡ true))
    → Executes opt w job (conclude opt w (set_start w job) check)
conclude-Executes opt w job (returned status out err) exit ring =
    let (t, q, h) = set_start-Ran w job in
    let ran =
      finish_check-Ran opt w (check_code opt w (real_exit_code w status) out) err
        (set_start w job) in
    record {
      type_kept = ran.type_kept ∙ t;
      queue_kept = ran.queue_kept ∙ q;
      sent_kept = ran.sent_kept ∙ h;
      answered = ran.answered;
    }
conclude-Executes opt w job exits exit ring = exit refl
conclude-Executes opt w job rings exit ring =
    let (t, q, h) = set_start-Ran w job in let (inside, late) = ring refl in (inside, late, h, q)

read_outputs-End : (w : World) (cmd : Bytes) → Ends w (read_outputs w cmd)
read_outputs-End w cmd =
    if_both (Ends w) (not w.calls.fdopen_stdout) (λ e. ground (arith, e))
      (λ _.
        if_both (Ends w) w.is_overdue (λ e. e)
          (λ _. if_both (Ends w) (not w.calls.fdopen_stderr) (λ e. ground (arith, e)) (λ _. tt)))

by_execvp-End : (w : World) (cmd : Bytes) → Ends w (by_execvp w cmd)
by_execvp-End w cmd =
    if_both (Ends w) (not w.calls.pipe_stdout) (λ e. ground (arith, e))
      (λ _.
        if_both (Ends w) (not w.calls.pipe_stderr) (λ e. ground (arith, e))
          (λ _.
            if_both (Ends w) (not w.calls.fork) (λ e. ground (arith, e))
              (λ _. read_outputs-End w cmd)))

run_check-End : (opt : Options) (w : World) (cmd : Bytes) → Ends w (run_check opt w cmd)
unfolding run_check
run_check-End opt w cmd =
    elim (restricted opt cmd)
      as (λ r. Ends w (elim r [
        | some why ↦ returned (pos 768) why []
        | none ↦ if is_plain cmd then by_execvp w cmd else read_outputs w cmd
      ])) [
        | some why ↦ tt
        | none ↦
            if_both (Ends w) (is_plain cmd) (λ _. by_execvp-End w cmd) (λ _. read_outputs-End w cmd)
      ]

abbrev Inside : Options → World → Check → Type 0
Inside opt w check = (opt.fork_on_exec ≡ false) × Ends w check

seen-returned : (w : World) (check : Check) → Returns (seen w check)
seen-returned w (returned status out err) = tt
seen-returned w exits = tt
seen-returned w rings = tt

collect-End :
    (opt : Options) (w : World) (cmd : Bytes)
    → Returns (collect opt w cmd) ⊎ Inside opt w (collect opt w cmd)
unfolding collect
collect-End opt w cmd =
    if_both (λ c. Returns c ⊎ Inside opt w c) opt.fork_on_exec
      (λ _. inl (seen-returned w (run_check opt w cmd))) (λ e. inr (e, run_check-End opt w cmd))

of_end :
    (opt : Options) (w : World) (job : Job) (check : Check)
    → Returns check ⊎ Inside opt w check
    → Executes opt w job (conclude opt w (set_start w job) check)
of_end opt w job check (inl back) =
    conclude-Executes opt w job check (λ e. absurd (subst Returns e back))
      (λ e. absurd (subst Returns e back))
of_end opt w job check (inr (inside, end)) =
    conclude-Executes opt w job check (λ e. (inside, subst (Ends w) e end))
      (λ e. (inside, subst (Ends w) e end))

pub execute_safe_command-Executes :
    (opt : Options) (w : World) (cmd : Bytes) (job : Job)
    → Executes opt w job (execute_safe_command opt w cmd job)
unfolding execute_safe_command
execute_safe_command-Executes opt w cmd job =
    let (t, q, h) = set_start-Ran w job in
    if_both (Executes opt w job) (opt.fork_on_exec && not w.fork_works)
      (λ e. (
        ground (arith, e),
        ground (arith, e),
        record { type_kept = t; queue_kept = q; sent_kept = h; answered = (_, refl) },
      ))
      (λ _. of_end opt w job (collect opt w cmd) (collect-End opt w cmd))
