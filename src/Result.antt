-- ===== src/Result.antt =====
-- The result thread of the NEB module: `get_results` and `set_worker` of
-- neb_module_naemon/result_thread.c, and `timeval2double` of common/utils.c.
-- `init_check_result` of the core, the clock, the C library and floating point numbers are
-- parameters.
pub mod Read
pub mod Ends
pub mod Decrypted
pub mod RoundTrip
use mod_gearman.Common.{
  ℕ, zero, suc, Bytes, codes, str_eq, Bool, true, false, ◌&&◌, ◌||◌, if◌then◌else◌, List, [], ◌∷◌,
  ◌++◌, Option, none, some, length, take,
}
use mod_gearman.Common.Int.{ℤ, pos, eq_ℤ}
use mod_gearman.Common.Outcome.{Outcome, ok, error, fault}
use mod_gearman.Text.Replace.{Replaced, replace_str}
use mod_gearman.Crypt.{
  Evp, Mode, encode_and_encrypt, encode_only, encode_accept_all, base64_decode, mod_gm_decrypt,
}
use mod_gearman.Job.{Timeval, strsep}

-- Floating point numbers, and what the C library reads from text.
pub record Float : Type 1 where
  pub Double : Type 0
  pub zero_double : Double
  pub is_negative : Double → Bool
  pub plus : Double → Double → Double
  pub minus : Double → Double → Double
  pub of_int : ℤ → Double
  -- `(long double)t->tv_usec / 1000000`
  pub millionths : ℤ → Double
  pub atof : Bytes → Double
  pub atoi : Bytes → ℤ
  pub string2timeval : Bytes → Timeval

pub data ObjectType : Type 0 where
  host_check service_check : ObjectType

pub data CheckType : Type 0 where
  active passive : CheckType

-- The pointer `source` of a result: NULL or a text of the core's own as `init_check_result` leaves it, a
-- place in the decrypted text, or that place once the text was freed.
pub data Source : Type 0 where
  null dangling : Source
  own in_text : Bytes → Source

abbrev pub after_free : Source → Source
after_free null = null
after_free dangling = dangling
after_free (own s) = own s
after_free (in_text s) = dangling

pub record CheckResult (float : Float) : Type 0 where
  pub object_check_type : ObjectType
  pub check_type : CheckType
  pub host_name : Option Bytes
  pub service_description : Option Bytes
  pub source : Source
  pub output : Option Bytes
  pub check_options : ℤ
  pub scheduled_check : ℤ
  pub latency : float.Double
  pub start_time : Timeval
  pub finish_time : Timeval
  pub early_timeout : ℤ
  pub exited_ok : ℤ
  pub return_code : ℤ

-- The local variables of `get_results` while it reads the lines.
pub record Reading (float : Float) : Type 0 where
  pub chk_result : CheckResult float
  pub core_start_time : Timeval
  pub active_check : Bool

abbrev pub no_time : Timeval
no_time = record { tv_sec = pos 0; tv_usec = pos 0 }

module _ (float : Float) where
  unfoldable pub timeval2double : Timeval → float.Double
  timeval2double t = float.plus (float.of_int t.tv_sec) (float.millionths t.tv_usec)

  -- The result before the first line; `init` is what `init_check_result` leaves.
  unfoldable pub start_reading : CheckResult float → Reading float
  start_reading init = record {
    chk_result = record init { scheduled_check = pos 1; latency = float.zero_double };
    core_start_time = no_time;
    active_check = true;
  }

  abbrev pub unescaped : Option Replaced → Bytes
  unescaped none = codes "(null)"
  unescaped (some r) = r.ret

  -- `none` is a line without a value.
  abbrev pub output_of : Option Bytes → Bytes
  output_of none = codes "(null)"
  output_of (some value) = unescaped (replace_str value (codes "\\n") (codes "\n"))

  unfoldable pub set_output : Bytes → Option Bytes → Reading float → Reading float
  set_output key value r =
      if str_eq key (codes "output")
      then record r { chk_result = record r.chk_result { output = some (output_of value) } }
      else r

  abbrev pub change : (CheckResult float → CheckResult float) → Reading float → Reading float
  change f r = record r { chk_result = f r.chk_result }

  -- The chain of `strcmp(key, ...)`.
  unfoldable pub set_result : Bytes → Bytes → Reading float → Reading float
  set_result key value r =
      if str_eq key (codes "host_name")
      then change (λ c. record c { host_name = some value }) r
      else if str_eq key (codes "service_description")
      then change (λ c. record c { service_description = some value }) r
      else if str_eq key (codes "source")
      then change (λ c. record c { source = in_text value }) r
      else if str_eq key (codes "check_options")
      then change (λ c. record c { check_options = float.atoi value }) r
      else if str_eq key (codes "scheduled_check")
      then change (λ c. record c { scheduled_check = float.atoi value }) r
      else if str_eq key (codes "type") && str_eq value (codes "passive")
      then record r { active_check = false }
      else if str_eq key (codes "exited_ok")
      then change (λ c. record c { exited_ok = float.atoi value }) r
      else if str_eq key (codes "early_timeout")
      then change (λ c. record c { early_timeout = float.atoi value }) r
      else if str_eq key (codes "return_code")
      then change (λ c. record c { return_code = float.atoi value }) r
      else if str_eq key (codes "core_start_time")
      then record r { core_start_time = float.string2timeval value }
      else if str_eq key (codes "start_time")
      then change (λ c. record c { start_time = float.string2timeval value }) r
      else if str_eq key (codes "finish_time")
      then change (λ c. record c { finish_time = float.string2timeval value }) r
      else if str_eq key (codes "latency")
      then change (λ c. record c { latency = float.atof value }) r
      else r

  -- The body of the loop, and whether it goes on: a line without a value is a `break`.
  abbrev pub read_pair : Bytes × Option Bytes → Reading float → Bool × Reading float
  read_pair (key, none) r = (false, set_output key none r)
  read_pair (key, some []) r = (false, set_output key (some []) r)
  read_pair (key, some (c ∷ value)) r =
      (true, set_result key (c ∷ value) (set_output key (some (c ∷ value)) r))

  abbrev pub go_on : Bool × Reading float → (Reading float → Reading float) → Reading float
  go_on (false, r) next = r
  go_on (true, r) next = next r

  -- `while ( (ptr = strsep(&decrypted_data, "\n" )) != NULL )`, with the rounds left.
  unfoldable pub read_results : ℕ → Option Bytes → Reading float → Reading float
  read_results zero text r = r
  read_results (suc n) none r = r
  read_results (suc n) (some text) r =
      go_on (read_pair (strsep b'=' (strsep 10 text).0) r) (read_results n (strsep 10 text).1)

  -- There are not more lines than bytes, and one.
  unfoldable pub read_result : CheckResult float → Bytes → Reading float
  read_result init text = read_results (suc (length text)) (some text) (start_reading init)

  abbrev pub or_now : ℤ → Timeval → Timeval
  or_now time t = if eq_ℤ t.tv_sec (pos 0) then record t { tv_sec = time } else t

  abbrev pub not_negative : float.Double → float.Double
  not_negative x = if float.is_negative x then float.zero_double else x

  -- `now - exec_time - core_start_time`
  unfoldable pub real_latency : Timeval → Timeval → Timeval → Timeval → float.Double
  real_latency now core_start_time start_time finish_time =
      float.minus
        (float.minus (timeval2double now)
          (float.minus (timeval2double finish_time) (timeval2double start_time)))
        (timeval2double core_start_time)

  abbrev pub check_type_of : Bool → CheckType
  check_type_of active_check = if active_check then active else passive

  abbrev pub object_type_of : Option Bytes → ObjectType
  object_type_of none = host_check
  object_type_of (some d) = service_check

  -- From the types to the result that the core gets. `! CHECK_OPTION_FRESHNESS_CHECK` is 0.
  unfoldable pub complete : Timeval → ℤ → Reading float → CheckResult float
  complete now time r =
      let c = r.chk_result in
      let start : Timeval = or_now time c.start_time in
      let finish : Timeval = or_now time c.finish_time in
      let core_start : Timeval = or_now time r.core_start_time in
      record c {
        object_check_type = object_type_of c.service_description;
        check_type = check_type_of r.active_check;
        start_time = start;
        finish_time = finish;
        latency =
            float.plus (not_negative c.latency)
              (not_negative (real_latency now core_start start finish));
        check_options = pos 0;
      }

  -- The list of results that the core takes, and whether the thread can be cancelled.
  pub record Core : Type 0 where
    pub mod_gm_result_list : List (CheckResult float)
    pub cancel_enabled : Bool

  -- `*ret_ptr` is `GEARMAN_SUCCESS`; what is returned.
  pub record Answer : Type 0 where
    pub success : Bool
    pub result : Option Bytes

  abbrev pub fail : Core → Answer × Core
  fail core = (record { success = false; result = none }, record core { cancel_enabled = true })

  abbrev pub is_complete : Option Bytes → Option Bytes → Bool
  is_complete none output = false
  is_complete (some h) none = false
  is_complete (some h) (some o) = true

  -- `gm_free(decrypted_data_c)`, as the result sees it.
  abbrev pub freed : CheckResult float → CheckResult float
  freed c = record c { source = after_free c.source }

  -- Results without a host or an output are discarded.
  unfoldable pub add_result : Timeval → ℤ → Reading float → Core → Answer × Core
  add_result now time r core =
      if is_complete r.chk_result.host_name r.chk_result.output
      then (
        record { success = true; result = none },
        record {
          mod_gm_result_list = freed (complete now time r) ∷ core.mod_gm_result_list;
          cancel_enabled = true;
        },
      )
      else fail core

  -- What the health check prints, with `%s`, `%.1f`, `%.3f`, `%.6f`, `%lu` and `%i` done.
  pub record Statistics : Type 0 where
    pub hostname : Bytes
    pub current_submit_rate : Bytes
    pub avg_duration_ms : Bytes
    pub gm_version : Bytes
    pub result_workers : Bytes
    pub current_avg_submit_duration : Bytes
    pub current_submit_max : Bytes
    pub total_submit_jobs : Bytes
    pub total_submit_errors : Bytes

  abbrev pub health_text : Statistics → Bytes
  health_text s = take 65535 (
      codes "0:OK - result worker running on "
      ++ (s.hostname
          ++ (codes ". Sending "
              ++ (s.current_submit_rate
                  ++ (codes " jobs/s (avg duration:"
                      ++ (s.avg_duration_ms
                          ++ (codes "ms). Version: "
                              ++ (s.gm_version
                                  ++ (codes "|worker="
                                      ++ (s.result_workers
                                          ++ (codes ";;;0;"
                                              ++ (s.result_workers
                                                  ++ (codes " avg_submit_duration="
                                                      ++ (s.current_avg_submit_duration
                                                          ++ (codes "s;;;0;"
                                                            ++ (s.current_submit_max
                                                            ++ (codes " jobs="
                                                            ++ (s.total_submit_jobs
                                                            ++ (codes "c errors="
                                                            ++ (s.total_submit_errors
                                                            ++ codes "c"))))))))))))))))))))

  -- The workload is compared once it has been decrypted.
  unfoldable pub take_result :
      CheckResult float → Statistics → Timeval → ℤ → Bytes → Option Bytes → Core → Answer × Core
  take_result init stats now time workload decrypted core =
      if str_eq workload (codes "check")
      then (
        record { success = true; result = some (health_text stats) },
        record core { cancel_enabled = true },
      )
      else (elim decrypted [
        | none ↦ fail core
        | some text ↦ add_result now time (read_result init text) core
      ])

abbrev pub result_mode : Mode → Bool → Mode
result_mode encode_and_encrypt true = encode_accept_all
result_mode mode accept_clear_results = mode

-- `decrypted_data`: a text that is not base64 leaves it NULL; after any other failure it is a buffer
-- that was never written, and reading it is undefined: `none`.
abbrev pub as_text : Outcome Bytes → Option (Option Bytes)
as_text (ok text) = some (some text)
as_text error = none
as_text fault = none

module _ (evp : Evp) where
  unfoldable pub decrypted_data : Bytes → Bytes → Mode → Bytes → Bytes → Option (Option Bytes)
  decrypted_data key workload mode fresh fresh' = elim (base64_decode evp workload) [
    | none ↦ some none
    | some s ↦ as_text (mod_gm_decrypt evp key workload mode fresh fresh')
  ]

  module _ (float : Float) where
    abbrev pub with_text :
        Option (Option Bytes)
        → (Option Bytes → Answer float × Core float)
        → Option (Answer float × Core float)
    with_text none f = none
    with_text (some text) f = some (f text)

    -- Everything from `pthread_setcancelstate(PTHREAD_CANCEL_DISABLE)` on.
    unfoldable pub get_results :
        CheckResult float
        → Statistics float
        → Timeval
        → ℤ
        → Bytes
        → Mode
        → Bool
        → Bytes
        → Bytes
        → Option Bytes
        → Core float
        → Option (Answer float × Core float)
    unfolding decrypted_data take_result
    get_results init stats now time key mode accept_clear_results fresh fresh' none core =
        some (fail float (record core { cancel_enabled = false }))
    get_results init stats now time key mode accept_clear_results fresh fresh' (some workload)
          core =
        with_text (decrypted_data key workload (result_mode mode accept_clear_results) fresh fresh')
          (λ text.
            take_result float init stats now time workload text
              (record core { cancel_enabled = false }))

-- What `set_worker` does, with the libgearman calls as arguments: `create_worker` gives no worker or
-- one; `None` of the queue is `result_queue == NULL`.
pub data WorkerState : Type 0 where
  no_worker : WorkerState
  created : WorkerState
  listening : Bytes → WorkerState

-- `GM_OK`, and the worker.
unfoldable pub set_worker : Bool → Option Bytes → (Bytes → Bool) → Bool × WorkerState
set_worker create_works none add_works = (false, if create_works then created else no_worker)
set_worker create_works (some queue) add_works =
    if create_works
    then (if add_works queue then (true, listening queue) else (false, created))
    else (false, no_worker)
