-- ===== src/Job.antt =====
-- A job of a worker: `gm_job_t` of include/common.h, `set_default_job` of common/utils.c, and the
-- reading of a workload in `get_job` of worker/worker_client.c.
-- `atoi` and `atof` are parameters, as the functions from text in `Libc`; a `struct timeval` is the
-- record `Timeval`, and a null pointer is `none`.
pub mod Fields
pub mod Exec
pub mod ExitCode
pub mod Delivery
pub mod Sends
pub mod Executes
pub mod Answered
pub mod Pipe
pub mod Received
pub mod Command
pub mod Alarm
pub mod Life
pub mod Exit
use mod_gearman.Common.{
  ℕ, zero, suc, Bytes, codes, str_eq, Bool, true, false, ◌==◌, ◌||◌, if◌then◌else◌, List, [], ◌∷◌,
  Option, none, some, length,
}
use mod_gearman.Common.Int.{ℤ, pos}

pub record Timeval : Type 0 where
  pub tv_sec : ℤ
  pub tv_usec : ℤ

-- What is read from text: `atoi`, and `string2timeval`, which rests on `atof`.
pub record Libc : Type 0 where
  pub atoi : Bytes → ℤ
  pub string2timeval : Bytes → Timeval

pub record Job : Type 0 where
  pub host_name : Option Bytes
  pub service_description : Option Bytes
  pub type : Option Bytes
  pub result_queue : Option Bytes
  pub command_line : Option Bytes
  pub source : Option Bytes
  pub output : Option Bytes
  pub long_output : Option Bytes
  pub error : Option Bytes
  pub exited_ok : Bool
  pub scheduled_check : ℤ
  pub check_options : ℤ
  pub return_code : ℕ
  pub early_timeout : Bool
  pub timeout : ℤ
  pub next_check : Timeval
  pub core_time : Timeval
  pub start_time : Timeval
  pub finish_time : Timeval
  pub has_been_sent : Bool

-- `memory` is what `gm_malloc` has left in the fields that are not set.
unfoldable pub set_default_job : ℤ → Job → Job
set_default_job job_timeout memory = record memory {
  type = none;
  host_name = none;
  service_description = none;
  result_queue = none;
  command_line = none;
  source = none;
  output = none;
  long_output = none;
  error = none;
  exited_ok = true;
  scheduled_check = pos 1;
  return_code = 0;
  timeout = job_timeout;
  start_time = record { tv_sec = pos 0; tv_usec = pos 0 };
  has_been_sent = false;
}

-- `strsep`: the text before the first `c`, and what follows it; `none` where there is no `c`.
unfoldable pub strsep : ℕ → Bytes → Bytes × Option Bytes
strsep c [] = ([], none)
strsep c (b ∷ s) = let rest = strsep c s in if b == c then ([], some s) else (b ∷ rest.0, rest.1)

module _ (libc : Libc) where
  -- The chain of `strcmp(key, ...)`, with the number of valid lines.
  unfoldable pub set_field : Bytes → Bytes → Job × ℕ → Job × ℕ
  set_field key value (job, valid) =
      if str_eq key (codes "host_name")
      then (record job { host_name = some value }, suc valid)
      else if str_eq key (codes "service_description")
      then (record job { service_description = some value }, suc valid)
      else if str_eq key (codes "type")
      then (record job { type = some value }, suc valid)
      else if str_eq key (codes "result_queue")
      then (record job { result_queue = some value }, suc valid)
      else if str_eq key (codes "check_options")
      then (record job { check_options = libc.atoi value }, suc valid)
      else if str_eq key (codes "scheduled_check")
      then (record job { scheduled_check = libc.atoi value }, suc valid)
      else if str_eq key (codes "latency")
      then (job, suc valid)
      else if str_eq key (codes "next_check")
      then (record job { next_check = libc.string2timeval value }, suc valid)
      else if str_eq key (codes "start_time")
      then (
        record job {
          next_check = libc.string2timeval value;
          core_time = libc.string2timeval value;
        },
        suc valid,
      )
      else if str_eq key (codes "core_time")
      then (record job { core_time = libc.string2timeval value }, suc valid)
      else if str_eq key (codes "timeout")
      then (record job { timeout = libc.atoi value }, suc valid)
      else if str_eq key (codes "command_line")
      then (record job { command_line = some value }, suc valid)
      else if str_eq key (codes "plugin_output")
      then (record job { output = some value }, suc valid)
      else if str_eq key (codes "long_plugin_output")
      then (record job { long_output = some value }, suc valid)
      else (job, valid)

  abbrev read_pair : Bytes × Option Bytes → Job × ℕ → Option (Job × ℕ)
  read_pair (key, none) s = none
  read_pair (key, some []) s = none
  read_pair (key, some (c ∷ value)) s = some (set_field key (c ∷ value) s)

  -- The body of the loop: `none` is the `break` on a line without a value.
  unfoldable pub read_line : Bytes → Job × ℕ → Option (Job × ℕ)
  read_line line s = read_pair (strsep b'=' line) s

  abbrev go_on : Option (Job × ℕ) → (Job × ℕ → Job × ℕ) → Job × ℕ → Job × ℕ
  go_on none next s = s
  go_on (some t) next s = next t

  -- `while ( (ptr = strsep(&decrypted_data, "\n" )) != NULL )`, with the rounds left. A round takes a
  -- line and the newline behind it.
  unfoldable pub read_lines : ℕ → Option Bytes → Job × ℕ → Job × ℕ
  read_lines zero text s = s
  read_lines (suc n) none s = s
  read_lines (suc n) (some text) s =
      go_on (read_line (strsep 10 text).0 s) (read_lines n (strsep 10 text).1) s

  -- The workload is read line by line; there are not more lines than bytes, and one.
  unfoldable pub read_job : Bytes → Job → Job × ℕ
  read_job text job = read_lines (suc (length text)) (some text) (job, 0)
