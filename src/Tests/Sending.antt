-- ===== src/Tests/Sending.antt =====
-- The theorem on common/gearman_utils.c where the first call is rejected and the second is taken.
use mod_gearman.Common.{ℕ, zero, suc, true, false, ◌+◌, ◌-◌}
use mod_gearman.Common.Int.{pos}
use mod_gearman.Gearman.{
  Limits, GearmanReturn, gearman_success, gearman_failure, Arith, Call, Statistics, State,
}

abbrev double : Arith
double = record {
  Double = ℕ;
  zero_double = 0;
  plus = λ a b. a + b;
  is_greater = λ a b. false;
  divide = λ a b. a - b;
  of_ℕ = λ n. n;
}

abbrev answer_of : ℕ → GearmanReturn
answer_of zero = gearman_failure
answer_of (suc n) = gearman_success

abbrev call : ℕ → Call double
call n = record {
  rc = answer_of n;
  elapsed = 1;
  now = pos 100;
  later = pos 100;
  since_statistics = 1;
  creates = true;
}

abbrev statistics : Statistics double
statistics = record {
  total_submit_sum = 0;
  total_submit_max = 0;
  total_submit_jobs = 5;
  total_submit_jobs_delta = 2;
  total_submit_errors = 1;
  total_submit_errors_delta = 1;
  current_submit_rate = 0;
  current_avg_submit_duration = 0;
  current_submit_max = 0;
  total_submit_time = pos 90;
}

abbrev state : State double
state = record {
  statistics = statistics;
  mod_gm_con_errors = 3;
  mod_gm_error_time = pos 80;
  has_client = true;
  calls = 0;
}

abbrev limits : Limits
limits = record { function_max_size = 512; max_unique_size = 64 }
