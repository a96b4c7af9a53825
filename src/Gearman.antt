-- ===== src/Gearman.antt =====
-- Sending a job to gearmand: `add_job_to_queue` of common/gearman_utils.c. libgearman, the clock and
-- floating point numbers are arguments; the n-th call of libgearman has the n-th answer.
pub mod Attempts
use mod_gearman.Common.{
  ℕ, zero, suc, Bytes, Bool, true, false, not, ◌&&◌, ◌||◌, ltb, ◌==◌, if◌then◌else◌, Option, none,
  some, length, ◌+◌, ◌-◌,
}
use mod_gearman.Common.Int.{ℤ, pos, ltb_ℤ, ◌+ℤ◌}

-- `GEARMAN_FUNCTION_MAX_SIZE` and `GEARMAN_MAX_UNIQUE_SIZE` are of libgearman.
pub record Limits : Type 0 where
  pub function_max_size : ℕ
  pub max_unique_size : ℕ

pub data GearmanReturn : Type 0 where
  gearman_success gearman_io_wait gearman_failure : GearmanReturn

abbrev pub is_taken : GearmanReturn → Bool
is_taken gearman_success = true
is_taken gearman_io_wait = true
is_taken gearman_failure = false

pub record Arith : Type 1 where
  pub Double : Type 0
  pub zero_double : Double
  pub plus : Double → Double → Double
  pub is_greater : Double → Double → Bool
  pub divide : Double → Double → Double
  pub of_ℕ : ℕ → Double

-- The n-th call: its answer, how long it took, the seconds behind it, the seconds that a later
-- `gettimeofday` gives, the time since the last statistics, and whether the client is made anew.
pub record Call (double : Arith) : Type 0 where
  pub rc : GearmanReturn
  pub elapsed : double.Double
  pub now : ℤ
  pub later : ℤ
  pub since_statistics : double.Double
  pub creates : Bool

pub record Statistics (double : Arith) : Type 0 where
  pub total_submit_sum : double.Double
  pub total_submit_max : double.Double
  pub total_submit_jobs : ℕ
  pub total_submit_jobs_delta : ℕ
  pub total_submit_errors : ℕ
  pub total_submit_errors_delta : ℕ
  pub current_submit_rate : double.Double
  pub current_avg_submit_duration : double.Double
  pub current_submit_max : double.Double
  pub total_submit_time : ℤ

-- `calls` counts the calls of libgearman that send.
pub record State (double : Arith) : Type 0 where
  pub statistics : Statistics double
  pub mod_gm_con_errors : ℕ
  pub mod_gm_error_time : ℤ
  pub has_client : Bool
  pub calls : ℕ

module _ (double : Arith) (call : ℕ → Call double) (log_stats_interval : ℤ) where
  abbrev pub count_job : Call double → Statistics double → Statistics double
  count_job c s = record s {
    total_submit_sum = double.plus s.total_submit_sum c.elapsed;
    total_submit_jobs_delta = suc s.total_submit_jobs_delta;
    total_submit_jobs = suc s.total_submit_jobs;
    total_submit_max =
        if double.is_greater c.elapsed s.total_submit_max then c.elapsed else s.total_submit_max;
  }

  abbrev pub count_error : Call double → Statistics double → Statistics double
  count_error c s = if is_taken c.rc then s else record s {
    total_submit_errors = suc s.total_submit_errors;
    total_submit_errors_delta = suc s.total_submit_errors_delta;
  }

  -- The first time there is nothing to show.
  abbrev pub publish : Call double → Statistics double → Statistics double
  publish c s =
      if ltb_ℤ (pos 0) s.total_submit_time
      then record s {
        current_submit_rate =
            double.divide (double.of_ℕ (s.total_submit_jobs_delta - s.total_submit_errors_delta))
              c.since_statistics;
        current_avg_submit_duration =
            double.divide s.total_submit_sum (double.of_ℕ s.total_submit_jobs_delta);
        current_submit_max = s.total_submit_max;
        total_submit_sum = double.zero_double;
        total_submit_jobs_delta = 0;
        total_submit_errors_delta = 0;
        total_submit_max = double.zero_double;
      }
      else s

  abbrev pub interval : Call double → Statistics double → Statistics double
  interval c s =
      if ltb_ℤ c.now (s.total_submit_time +ℤ log_stats_interval)
      then s
      else record (publish c s) { total_submit_time = c.later }

  unfoldable pub log_statistics : Call double → Statistics double → Statistics double
  log_statistics c s =
      if ltb_ℤ (pos 0) log_stats_interval then interval c (count_error c (count_job c s)) else s

  abbrev pub a_minute_later : Call double → State double → Bool
  a_minute_later c st = not (ltb_ℤ c.now (st.mod_gm_error_time +ℤ pos 60))

  -- Where there are no retries left: the first error, and one each minute, set the time.
  abbrev pub lose : Call double → State double → State double
  lose c st = record st {
    mod_gm_error_time =
        if st.mod_gm_con_errors == 0 || a_minute_later c st then c.later else st.mod_gm_error_time;
    mod_gm_con_errors = suc st.mod_gm_con_errors;
  }

  abbrev pub recreate : Call double → State double → State double
  recreate c st = record st { has_client = c.creates }

  abbrev pub before_retry : Call double → State double → State double
  before_retry c st = record st {
    mod_gm_error_time = if a_minute_later c st then c.later else st.mod_gm_error_time;
  }

  -- The call, its statistics, and the number of the next call.
  abbrev pub sent : State double → State double
  sent st = record st {
    statistics = log_statistics (call st.calls) st.statistics;
    calls = suc st.calls;
  }

  -- `GM_OK`, from the sending on; a retry does all of `add_job_to_queue` again, and its checks have the
  -- same outcome.
  unfoldable pub attempt : ℕ → State double → Bool × State double
  attempt zero st =
      if is_taken (call st.calls).rc
      then (true, record (sent st) { mod_gm_con_errors = 0 })
      else (false, recreate (call st.calls) (lose (call st.calls) (sent st)))
  attempt (suc retries) st =
      let again =
        attempt retries (before_retry (call st.calls) (recreate (call st.calls) (sent st))) in
      if is_taken (call st.calls).rc
      then (true, record (sent st) { mod_gm_con_errors = 0 })
      else again

  abbrev pub too_long : Limits → Option Bytes → Bool
  too_long limits none = false
  too_long limits (some uniq) = ltb limits.max_unique_size (length uniq)

  abbrev pub send_crypted : Bool → ℕ → Option Bytes → State double → Bool × State double
  send_crypted known_priority retries none st = (false, st)
  send_crypted known_priority retries (some data_text) st =
      if known_priority then attempt retries st else (false, st)

  -- `crypted` is what `mod_gm_encrypt` gives, and `known_priority` whether the priority is one of three.
  unfoldable pub add_job_to_queue :
      Limits → Bytes → Option Bytes → Option Bytes → Bool → ℕ → State double → Bool × State double
  unfolding attempt log_statistics
  add_job_to_queue limits queue uniq crypted known_priority retries st =
      if ltb (limits.function_max_size - 1) (length queue)
      then (false, st)
      else if too_long limits uniq
      then (false, st)
      else send_crypted known_priority retries crypted st
