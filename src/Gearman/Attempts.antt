-- ===== src/Gearman/Attempts.antt =====
-- How often a job is tried, and what is counted: `add_job_to_queue` of common/gearman_utils.c.
use mod_gearman.Common.{ℕ, zero, suc, Bool, true, false, ◌+◌, ◌≡◌, ◌≤◌, ◌⊎◌}
use mod_gearman.Common.Int.{ℤ}
use mod_gearman.Gearman.{is_taken, Arith, Call, Statistics, State}

module _ (double : Arith) (call : ℕ → Call double) (log_stats_interval : ℤ) where
  abbrev pub taken : ℕ → Bool
  taken n = is_taken (call n).rc

  -- That many calls from the n-th on are rejected.
  abbrev pub Rejected : ℕ → ℕ → Type 0
  Rejected n zero = Unit
  Rejected n (suc k) = (taken n ≡ false) × Rejected (suc n) k

  -- Either the first call that is taken is the k-th, counted from 0, or all of them were rejected.
  abbrev pub Tried : ℕ → State double → Bool × State double → Type 0
  Tried retries st (ok, done) =
      ((ok ≡ true)
        × (k : ℕ) × (k ≤ retries)
        × Rejected st.calls k
        × (taken (st.calls + k) ≡ true)
        × (done.calls ≡ st.calls + suc k)
        × (done.mod_gm_con_errors ≡ 0))
      ⊎ ((ok ≡ false)
          × Rejected st.calls (suc retries)
          × (done.calls ≡ st.calls + suc retries)
          × (done.mod_gm_con_errors ≡ suc st.mod_gm_con_errors))

  -- Errors are not more than jobs, so the rate is no negative number.
  pub record Consistent (s : Statistics double) : Type 0 where
    pub all : s.total_submit_errors ≤ s.total_submit_jobs
    pub delta : s.total_submit_errors_delta ≤ s.total_submit_jobs_delta
