-- ===== src/Job/Alarm.antt =====
-- A check that runs too long: `check_alarm_handler`, `kill_child_checks`, `send_timeout_result` and
-- `send_failed_result` of common/check_utils.c. The signals that are sent are a list, the first one
-- first; a group is its number with the sign taken negative.
use mathlib.Core.Path.{subst}
use mod_gearman.Common.{
  ℕ, Bytes, codes, Bool, true, false, not, ◌&&◌, ◌==◌, ltb, if◌then◌else◌, List, [], ◌∷◌, ◌++◌,
  Option, none, some, take, ◌≡◌, refl, sym, if_both, ◌∙◌,
}
use mod_gearman.Common.Int.{ℤ, pos, neg_ℕ}
use mod_gearman.Job.{Job}
use mod_gearman.Job.Exec.{Options, World, is_check, nr2signal, finish_check}
use mod_gearman.Job.Delivery.{
  Message, deliver, send_result_back, answer, timeout_text, timed_out, send_timeout_result,
}
use mod_gearman.Job.Answered.{Answered, deliver-Answered, marks_sent, sent_already}
use mod_gearman.Job.Executes.{finish_check-Ran}

-- A call of `kill`.
pub record Kill : Type 0 where
  pub pid : ℤ
  pub sig : ℕ

abbrev pub sigint : ℕ
sigint = 2

abbrev pub sigkill : ℕ
sigkill = 9

abbrev pub sigterm : ℕ
sigterm = 15

-- `snprintf( buffer, sizeof( buffer ) -1, ...)`
abbrev in_buffer : Bytes → Bytes
in_buffer s = take 65534 s

-- `STATE_CRITICAL` is 2.
abbrev pub failed : Options → World → ℕ → Job → Job
failed opt w sig job = record job {
  finish_time = w.finished;
  return_code = 2;
  output = some (
      in_buffer (
        codes "(Return code of "
        ++ (w.show sig
            ++ (codes " is out of bounds. Worker exited by signal "
                ++ (nr2signal w sig ++ (codes " on worker: " ++ (opt.identifier ++ codes ")")))))));
}

unfoldable pub send_failed_result : Options → World → ℕ → Job → Job × List Message
send_failed_result opt w sig job = send_result_back opt w (failed opt w sig job)

-- The signal to the group and to the process itself.
abbrev both : ℕ → ℕ → List Kill
both pid sig = record { pid = neg_ℕ pid; sig = sig } ∷ record { pid = pos pid; sig = sig } ∷ []

-- What the handler leaves: the job that was running, and whether it was completed, the messages, and
-- the signals.
pub record Alarmed : Type 0 where
  pub current_job : Option Job
  pub is_complete : Bool
  pub sent : List Message
  pub kills : List Kill

abbrev pub report : Options → World → Option Job → Option Job × Bool × List Message
report opt w none = (none, false, [])
report opt w (some job) =
    if opt.fork_on_exec
    then (some job, false, [])
    else (let (done, ms) = send_timeout_result opt w job in (some done, true, ms))

-- `is_test` says that MODGEARMANTEST is set; a job is only current where it has a type.
unfoldable pub check_alarm_handler : Options → World → ℕ → Bool → Option Job → Alarmed
unfolding send_timeout_result
check_alarm_handler opt w pid is_test current_job =
    let (job, is_complete, ms) = report opt w current_job in
    record {
      current_job = job;
      is_complete = is_complete;
      sent = ms;
      kills = both pid sigterm ++ (both pid sigint ++ (if is_test then [] else both pid sigkill));
    }

-- What `waitpid` and `pid_alive` say of the child.
pub record Child : Type 0 where
  pub is_reaped : Bool
  pub is_alive : Bool

abbrev own_group : List Kill
own_group = record { pid = pos 0; sig = sigint } ∷ []

-- What is sent when a second has passed.
abbrev pub kill_later : Child → ℕ → List Kill
kill_later child current_child_pid =
    if child.is_reaped
    then []
    else if child.is_alive
    then record { pid = pos current_child_pid; sig = sigkill } ∷ own_group
    else own_group

unfoldable pub kill_child_checks : Child → ℕ → ℕ → List Kill
kill_child_checks child current_child_pid pid =
    if ltb 0 current_child_pid && not (current_child_pid == pid)
    then both current_child_pid sigint ++ kill_later child current_child_pid
    else own_group

-- The end of the check and its answer, which a worker comes to only in the test mode: otherwise its
-- own SIGKILL ends it.
abbrev pub after_alarm : Options → World → Bool → ℕ × Bytes → Bytes → Option Job → List Message
after_alarm opt w is_test r err none = []
after_alarm opt w is_test r err (some late) =
    if is_test then (answer opt w (finish_check opt w r err late)).1 else []

-- The alarm of a job and what is sent when the check that it interrupts has ended.
unfoldable pub interrupted :
    Options → World → ℕ → Bool → ℕ × Bytes → Bytes → Job → Alarmed × List Message
unfolding check_alarm_handler
interrupted opt w pid is_test r err job =
    let a = check_alarm_handler opt w pid is_test (some job) in
    (a, after_alarm opt w is_test r err a.current_job)

answer_again :
    (opt : Options) (w : World) (job : Job) → job.has_been_sent ≡ true → (answer opt w job).1 ≡ []
answer_again opt w job e =
    if_both (λ (r : Job × List Message). r.1 ≡ []) (is_check job.type)
      (λ _. rw (sent_already opt w job e) refl) (λ _. refl)

timed_out-Answered :
    (opt : Options) (w : World) (job : Job) (queue : Bytes)
    → job.has_been_sent ≡ false
    → job.result_queue ≡ some queue
    → Answered opt w (timed_out opt w job, (send_result_back opt w (timed_out opt w job)).1)
unfolding send_result_back
timed_out-Answered opt w job queue fresh q =
    let late = timed_out opt w job in
    let marked = record late { has_been_sent = true } in
    let text = timeout_text opt job.type in
    if_both (λ (r : Job × List Message). Answered opt w (late, r.1)) late.has_been_sent
      (λ e. cc (e, fresh))
      (λ _.
        subst (λ a. Answered opt w (late, deliver opt w marked a (some text))) (sym q)
          (deliver-Answered opt w marked queue text refl))

after_alarm-nothing :
    (opt : Options) (w : World) (is_test : Bool) (r : ℕ × Bytes) (err : Bytes) (late : Job)
    → late.has_been_sent ≡ true
    → after_alarm opt w is_test r err (some late) ≡ []
after_alarm-nothing opt w false r err late e = refl
after_alarm-nothing opt w true r err late e =
    answer_again opt w (finish_check opt w r err late)
      ((finish_check-Ran opt w r err late).sent_kept ∙ e)

-- In a worker that runs its checks without a fork, a job with a result queue whose time is up and that
-- was not answered is answered by the alarm, with one message to the server and one to the
-- duplicate servers if there are any, but for a timeout's return code of 25 with its workaround and
-- for a text that is too long for its buffers, and the job is completed. Whatever the plugin gives afterwards, nothing more is sent.
pub interrupted-Answered :
    (opt : Options) (w : World) (pid : ℕ) (is_test : Bool) (r : ℕ × Bytes) (err : Bytes) (job : Job)
    (queue : Bytes)
    → opt.fork_on_exec ≡ false
    → job.has_been_sent ≡ false
    → job.result_queue ≡ some queue
    → Answered opt w (timed_out opt w job, (interrupted opt w pid is_test r err job).0.sent)
      × ((interrupted opt w pid is_test r err job).0.is_complete ≡ true)
      × ((interrupted opt w pid is_test r err job).1 ≡ [])
unfolding interrupted check_alarm_handler send_timeout_result
interrupted-Answered opt w pid is_test r err job queue here fresh q =
    let late = timed_out opt w job in
    if_both
      (λ (t : Option Job × Bool × List Message).
        Answered opt w (late, t.2) × (t.1 ≡ true) × (after_alarm opt w is_test r err t.0 ≡ []))
      opt.fork_on_exec (λ e. cc (e, here))
      (λ _. (
        timed_out-Answered opt w job queue fresh q,
        refl,
        after_alarm-nothing opt w is_test r err (send_result_back opt w late).0
            (marks_sent opt w late),
      ))
