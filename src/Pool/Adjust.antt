-- ===== src/Pool/Adjust.antt =====
-- `adjust_number_of_worker` of worker/worker.c. Floating point numbers are the parameter `Doubles`.
use native.Mathlib.Nat.{div-add-mod}
use mod_gearman.Common.{
  ℕ, Bool, true, false, ◌&&◌, ◌||◌, ◌==◌, leb, ltb, if◌then◌else◌, ◌+◌, ◌*◌, ◌/◌, ◌%◌, ◌≡◌, ◌≤◌,
  ◌<◌, ◌⊎◌, arith, min, ◌≢◌,
}

pub record Doubles : Type 1 where
  pub Double : Type 0
  pub positive : Double → Bool
  pub ge : Double → Double → Bool

ratio : (w n q r : ℕ) → w * q + r ≡ n → 0 < w → 90 < q → w * 90 < n
ratio w n q r e pos h = grind arith

busy_ratio : (w n : ℕ) → 0 < w → 90 < n / w → w * 90 < n
busy_ratio w n pos h = ratio w n (n / w) (n % w) (div-add-mod n w) pos h

module _ (d : Doubles) where
  -- The options that the function reads, and what `getloadavg` gives.
  pub record Limits : Type 0 where
    pub min_worker : ℕ
    pub spawn_rate : ℕ
    pub load_limit1 : d.Double
    pub load_limit5 : d.Double
    pub load_limit15 : d.Double
    pub load1 : d.Double
    pub load5 : d.Double
    pub load15 : d.Double

  -- Is one of the three load limits set and reached?
  unfoldable pub limit_hit : Limits → Bool
  limit_hit l =
      (d.positive l.load_limit1 && d.ge l.load1 l.load_limit1)
      || ((d.positive l.load_limit5 && d.ge l.load5 l.load_limit5)
          || (d.positive l.load_limit15 && d.ge l.load15 l.load_limit15))

  -- `perc_running > 90 || idle <= 2`, with `idle = cur_workers - cur_jobs` as a signed number
  unfoldable pub is_busy : ℕ → ℕ → Bool
  is_busy cur_workers cur_jobs =
      ltb 0 cur_jobs && (ltb 90 (cur_jobs * 100 / cur_workers) || leb cur_workers (cur_jobs + 2))

  unfoldable pub adjust_number_of_worker : Limits → ℕ → ℕ → ℕ → ℕ → ℕ
  unfolding is_busy
  adjust_number_of_worker l min max cur_workers cur_jobs =
      if cur_workers == 0
      then l.min_worker
      else if cur_workers == max
      then max
      else if is_busy cur_workers cur_jobs
      then (if limit_hit l
          then cur_workers
          else (if ltb max (cur_workers + l.spawn_rate) then max else cur_workers + l.spawn_rate))
      else if ltb max min
      then max
      else min

  -- The target never passes the larger of the maximum and the present number, and with workers
  -- running it lies at most `spawn_rate` above the present number or at the minimum.
  pub adjust_bounds :
      (l : Limits) (min max cur_workers cur_jobs : ℕ)
      → min ≤ max
      → l.min_worker ≡ min
      → cur_workers ≤ max
      → let target = adjust_number_of_worker l min max cur_workers cur_jobs in
        (target ≤ max) × ((target ≤ cur_workers + l.spawn_rate) ⊎ (target ≡ min))
  unfolding adjust_number_of_worker
  adjust_bounds l min max cur_workers cur_jobs h e c = ground arith

  -- More workers than the minimum are started only where the pool is busy, no load limit is hit and
  -- the maximum is not reached.
  pub adjust_grows :
      (l : Limits) (min max cur_workers cur_jobs : ℕ)
      → min ≤ cur_workers
      → 0 < cur_workers
      → cur_workers < adjust_number_of_worker l min max cur_workers cur_jobs
      → (is_busy cur_workers cur_jobs ≡ true)
        × (limit_hit l ≡ false)
        × (cur_workers ≢ max)
        × (0 < l.spawn_rate)
        × ((cur_workers * 90 < cur_jobs * 100) ⊎ (cur_workers ≤ cur_jobs + 2))
  unfolding adjust_number_of_worker
  adjust_grows l min max cur_workers cur_jobs h pos g =
      ground (arith, busy_ratio cur_workers (cur_jobs * 100) pos)
