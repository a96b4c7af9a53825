-- ===== src/Job/Delivery.antt =====
-- The result of a job on its way to gearmand: `send_result_back` of common/utils.c and
-- `do_exec_job` of worker/worker_client.c.
use mod_gearman.Common.{
  ℕ, Bytes, codes, Bool, true, false, ◌&&◌, ◌==◌, ltb, if◌then◌else◌, List, [], ◌∷◌, ◌++◌, Option,
  none, some, length, take, ◌+◌, ◌-◌, ◌*◌,
}
use mod_gearman.Common.Int.{pos, ltb_ℤ, ◌-ℤ◌}
use mod_gearman.Job.{Job}
use mod_gearman.Job.Exec.{
  Options, World, buffersize, is_type, is_check, Executed, finished, not_forked, exited, alarmed,
  execute_safe_command,
}

-- `overflow` stands for a write behind the buffers, from which on nothing is defined.
pub data Target : Type 0 where
  server dupserver overflow : Target

-- A call of `add_job_to_queue`.
pub record Message : Type 0 where
  pub target : Target
  pub queue : Bytes
  pub data_text : Bytes

abbrev pub head_text : World → Job → Bytes
head_text w job =
    codes "host_name="
    ++ (w.show_text job.host_name
        ++ (codes "\ncore_start_time="
            ++ (w.show_time job.next_check
                ++ (codes "\nstart_time="
                    ++ (w.show_time job.start_time
                        ++ (codes "\nfinish_time="
                            ++ (w.show_time job.finish_time
                                ++ (codes "\nreturn_code="
                                    ++ (w.show job.return_code
                                        ++ (codes "\nexited_ok="
                                            ++ ((if job.exited_ok then codes "1" else codes "0")
                                                ++ (codes "\nsource="
                                                    ++ (w.show_text job.source
                                                        ++ codes "\n")))))))))))))

abbrev pub service_text : Job → Bytes
service_text job = elim job.service_description [
  | none ↦ []
  | some d ↦ codes "service_description=" ++ (d ++ codes "\n")
]

abbrev pub error_text : Options → Bytes → Option Bytes → Bytes
error_text opt output none = []
error_text opt output (some []) = []
error_text opt output (some (c ∷ error)) =
    if opt.show_error_output
    then (if ltb 0 (length output) then codes "\\n" else [])
      ++ (codes "[" ++ ((c ∷ error) ++ codes "] "))
    else []

abbrev pub output_text : Options → Job → Bytes → Bytes
output_text opt job output =
    codes "output="
    ++ ((if opt.debug_result then codes "(" ++ (opt.hostname ++ codes ") - ") else [])
        ++ (output ++ (error_text opt output job.error ++ codes "\n\n\n")))

abbrev pub result_size : Bytes → ℕ
result_size output = length output + buffersize

-- Each buffer has `sizeof(char*)*result_size` bytes, and is cut at `result_size` once it is filled.
abbrev pub in_buffer : Bytes → Bytes → Option Bytes
in_buffer output s =
    if ltb (length s) (8 * result_size output) then some (take (result_size output) s) else none

abbrev pub with_output : Options → Job → Bytes → Option Bytes → Option Bytes
with_output opt job output none = none
with_output opt job output (some front) =
    in_buffer output (front ++ (output_text opt job output ++ codes "\n"))

-- `none` is a `strcat` behind the end of a buffer.
unfoldable pub result_text : Options → World → Job → Bytes → Option Bytes
result_text opt w job output =
    with_output opt job output
      (in_buffer output (take (result_size output - 2) (head_text w job) ++ service_text job))

abbrev pub text_messages : Options → Bytes → Bytes → Option Bytes → List Message
text_messages opt queue output none =
    record { target = overflow; queue = queue; data_text = [] } ∷ []
text_messages opt queue output (some text) =
    record { target = server; queue = queue; data_text = text }
    ∷ (if opt.dupserver_num == 0
        then []
        else record {
          target = dupserver;
          queue = queue;
          data_text =
              take (result_size output)
                ((if opt.dup_results_are_passive then codes "type=passive\n" else []) ++ text);
        }
          ∷ [])

unfoldable pub messages : Options → World → Job → Bytes → Bytes → List Message
unfolding result_text
messages opt w job queue output = text_messages opt queue output (result_text opt w job output)

abbrev pub deliver : Options → World → Job → Option Bytes → Option Bytes → List Message
deliver opt w job none output = []
deliver opt w job (some queue) none = []
deliver opt w job (some queue) (some output) =
    if job.return_code == 25 && opt.workaround_rc_25 then [] else messages opt w job queue output

-- The job afterwards, and the messages.
unfoldable pub send_result_back : Options → World → Job → Job × List Message
unfolding messages
send_result_back opt w job = if job.has_been_sent then (job, []) else (
  record job { has_been_sent = true },
  deliver opt w (record job { has_been_sent = true }) job.result_queue job.output,
)

abbrev pub answer : Options → World → Job → Job × List Message
answer opt w job = if is_check job.type then send_result_back opt w job else (job, [])

-- The timeout that the job is given, and the time at which it starts.
abbrev pub begin_job : Options → World → Job → Job
begin_job opt w job = record job {
  timeout = if ltb_ℤ (pos 0) job.timeout then job.timeout else opt.job_timeout;
  start_time = w.started;
}

abbrev pub too_old : Options → Job → Bool
too_old opt job =
    ltb_ℤ (pos 0) opt.max_age && ltb_ℤ opt.max_age (job.start_time.tv_sec -ℤ job.core_time.tv_sec)

abbrev pub discard : World → Job → Job
discard w job =
    let old = record job { return_code = 3; finish_time = w.finished } in
    if is_check job.type
    then record old { output = some (codes "(Could Not Start Check In Time)") }
    else old

-- `snprintf( buffer, sizeof( buffer ) -1, ...)`
abbrev pub printed : Bytes → Bytes
printed s = take 65534 s

abbrev pub timeout_text : Options → Option Bytes → Bytes
timeout_text opt type =
    if is_type "host" type
    then printed (codes "(Host Check Timed Out On Worker: " ++ (opt.identifier ++ codes ")\n"))
    else if is_type "service" type
    then printed (codes "(Service Check Timed Out On Worker: " ++ (opt.identifier ++ codes ")\n"))
    else []

abbrev pub timed_out : Options → World → Job → Job
timed_out opt w job = record job {
  finish_time = w.finished;
  return_code = opt.timeout_return;
  early_timeout = true;
  output = some (timeout_text opt job.type);
}

unfoldable pub send_timeout_result : Options → World → Job → Job × List Message
send_timeout_result opt w job = send_result_back opt w (timed_out opt w job)

-- How `do_exec_job` ends: with the job, its messages, and whether the output that it had before was
-- freed; with an `_exit`; or by the alarm, whose handler frees that output, answers the job and ends the
-- process by its own SIGKILL, but for the test mode.
pub data Done : Type 0 where
  completed : Bool → Job × List Message → Done
  left_early : Done
  killed : Job × List Message → Done

abbrev pub answer_executed : Options → World → Executed → Done
answer_executed opt w (finished job) = completed false (answer opt w job)
answer_executed opt w (not_forked job) = completed true (answer opt w job)
answer_executed opt w exited = left_early
answer_executed opt w (alarmed job) = killed (send_timeout_result opt w job)

unfoldable pub run_job : Options → World → Bytes → Job → Done
unfolding send_timeout_result
run_job opt w cmd job =
    let begun = begin_job opt w job in
    if too_old opt begun
    then completed false (answer opt w (discard w begun))
    else answer_executed opt w
        (execute_safe_command opt w cmd (record begun { early_timeout = false }))

abbrev pub exec_parts : Options → World → Option Bytes → Option Bytes → Job → Done
exec_parts opt w none cmd job = completed false (job, [])
exec_parts opt w (some t) none job = completed false (job, [])
exec_parts opt w (some t) (some cmd) job = run_job opt w cmd job

unfoldable pub do_exec_job : Options → World → Job → Done
do_exec_job opt w job = exec_parts opt w job.type job.command_line job
