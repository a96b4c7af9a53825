-- ===== src/Neb/Delay.antt =====
-- Checks with a high latency: `handle_hst_check_result` and `handle_svc_check_result` of
-- neb_module_naemon/mod_gearman.c. `ranged_urand` of Naemon is an argument.
use mod_gearman.Common.{
  Bool, not, if◌then◌else◌, if_both, Option, none, some, ◌≡◌, refl, ap, true, false, arith,
}
use mod_gearman.Common.Int.{ℤ, pos, ltb_ℤ, ◌+ℤ◌, +ℤ_parts, ◌≤ℤ◌}

-- What the handlers read of a host or service, and of its check result: `latency < 1`, and
-- `(int)latency`.
pub record Scheduled : Type 0 where
  pub no_interval : Bool
  pub next_check : ℤ

pub record Latency : Type 0 where
  pub below_one : Bool
  pub seconds : ℤ

pub data Answer : Type 0 where
  neb_ok neb_error : Answer

abbrev pub delay_max : ℤ → ℤ → ℤ
delay_max window seconds =
    let low : ℤ = if ltb_ℤ seconds (pos 5) then pos 5 else seconds in
    if ltb_ℤ window low then window else low

abbrev pub at_least_one : ℤ → ℤ
at_least_one delay = if ltb_ℤ delay (pos 1) then pos 1 else delay

module _ (ranged_urand : ℤ → ℤ → ℤ) where
  -- The time that `schedule_host_check` is given.
  unfoldable pub postponed : ℤ → ℤ → ℤ → ℤ
  postponed window next_check seconds =
      next_check +ℤ at_least_one (ranged_urand (pos 1) (delay_max window seconds))

  abbrev pub of_latency : ℤ → Scheduled → Option Latency → Answer × Option ℤ
  of_latency window o none = (neb_error, none)
  of_latency window o (some l) =
      if l.below_one
      then (neb_ok, none)
      else if not (ltb_ℤ (pos 0) window)
      then (neb_ok, none)
      else (neb_ok, some (postponed window o.next_check l.seconds))

  abbrev pub of_object : ℤ → Option Scheduled → Option Latency → Answer × Option ℤ
  of_object window none l = (neb_error, none)
  of_object window (some o) l = if o.no_interval then (neb_ok, none) else of_latency window o l

  unfoldable pub handle_hst_check_result :
      ℤ → Bool → Bool → Option Scheduled → Option Latency → Answer × Option ℤ
  unfolding postponed
  handle_hst_check_result window is_check_data is_processed o l =
      if not is_check_data
      then (neb_ok, none)
      else if not is_processed
      then (neb_ok, none)
      else of_object window o l

  unfoldable pub handle_svc_check_result :
      ℤ → Bool → Bool → Option Scheduled → Option Latency → Answer × Option ℤ
  unfolding postponed
  handle_svc_check_result window is_check_data is_processed o l =
      if not is_check_data
      then (neb_ok, none)
      else if not is_processed
      then (neb_ok, none)
      else of_object window o l

-- A number between its two bounds.
pub record RandLaws (ranged_urand : ℤ → ℤ → ℤ) : Type 0 where
  pub low : (a b : ℤ) → a ≤ℤ b → a ≤ℤ ranged_urand a b
  pub high : (a b : ℤ) → a ≤ℤ b → ranged_urand a b ≤ℤ b

-- When a check is put off: a processed check result with a latency of a second or more, of an object
-- that is checked at intervals, where there is a window.
pub record IsDelayed (window : ℤ) (is_check_data is_processed : Bool) (o : Scheduled)
    (l : Option Latency) : Type 0 where
  pub check_data : is_check_data ≡ true
  pub processed : is_processed ≡ true
  pub interval : o.no_interval ≡ false
  pub late : (s : Latency) × (l ≡ some s) × (s.below_one ≡ false)
  pub positive : ltb_ℤ (pos 0) window ≡ true

-- The new time of a check that is put off is later by a second at least, and by the window at most.
abbrev Later : ℤ → ℤ → ℤ → Type 0
Later window next_check t = (next_check +ℤ pos 1 ≤ℤ t) × (t ≤ℤ next_check +ℤ window)

abbrev pub PutOff : ℤ → Bool → Bool → Scheduled → Option Latency → Option ℤ → Type 0
PutOff window is_check_data is_processed o l none =
    ¬ IsDelayed window is_check_data is_processed o l
PutOff window is_check_data is_processed o l (some t) =
    IsDelayed window is_check_data is_processed o l × Later window o.next_check t

same_latency :
    (l : Latency)
    → ((s : Latency) × (some l ≡ some s) × (s.below_one ≡ false))
    → l.below_one ≡ true
    → ⊥
same_latency l (s, e, late) short =
    let same : l ≡ s = cc e in cc (short, ap (λ (x : Latency). x.below_one) same, late)

module _ (ranged_urand : ℤ → ℤ → ℤ) (laws : RandLaws ranged_urand) (window : ℤ) where
  delay_bounds :
      (seconds : ℤ)
      → ltb_ℤ (pos 0) window ≡ true
      → (pos 1 ≤ℤ at_least_one (ranged_urand (pos 1) (delay_max window seconds)))
        × (at_least_one (ranged_urand (pos 1) (delay_max window seconds)) ≤ℤ window)
  delay_bounds seconds positive =
      let top : pos 1 ≤ℤ delay_max window seconds = ground (arith, positive) in
      let under : delay_max window seconds ≤ℤ window = ground arith in
      let low = laws.low (pos 1) (delay_max window seconds) top in
      let high = laws.high (pos 1) (delay_max window seconds) top in
      if_both (λ d. (pos 1 ≤ℤ d) × (d ≤ℤ window))
        (ltb_ℤ (ranged_urand (pos 1) (delay_max window seconds)) (pos 1))
        (λ _. (omega arith, ground (arith, positive))) (λ _. (low, omega (arith, high, under)))

  postponed-Later :
      (next_check seconds : ℤ)
      → ltb_ℤ (pos 0) window ≡ true
      → Later window next_check (postponed ranged_urand window next_check seconds)
  unfolding postponed
  postponed-Later next_check seconds positive =
      let d = at_least_one (ranged_urand (pos 1) (delay_max window seconds)) in
      let (low, high) = delay_bounds seconds positive in
      let one = +ℤ_parts next_check (pos 1) in
      let here = +ℤ_parts next_check d in
      let far = +ℤ_parts next_check window in
      (omega (arith, low, one, here), omega (arith, high, here, far))

  of_latency-PutOff :
      (o : Scheduled) (l : Option Latency)
      → o.no_interval ≡ false
      → PutOff window true true o l (of_latency ranged_urand window o l).1
  of_latency-PutOff o none interval = λ d. cc (d.late.1)
  of_latency-PutOff o (some l) interval =
      let P : Answer × Option ℤ → Type 0 = λ r. PutOff window true true o (some l) r.1 in
      if_both P l.below_one (λ short d. same_latency l d.late short)
        (λ late.
          if_both P (not (ltb_ℤ (pos 0) window)) (λ e d. let w = d.positive in ground (arith, e, w))
            (λ e.
              let positive : ltb_ℤ (pos 0) window ≡ true = ground (arith, e) in
              (
                record {
                  check_data = refl;
                  processed = refl;
                  interval = interval;
                  late = (l, refl, late);
                  positive = positive;
                },
                postponed-Later o.next_check l.seconds positive,
              )))

  handled-PutOff :
      (is_check_data is_processed : Bool) (o : Scheduled) (l : Option Latency)
      → PutOff window is_check_data is_processed o l
          (handle_hst_check_result ranged_urand window is_check_data is_processed (some o) l).1
  unfolding handle_hst_check_result
  handled-PutOff false is_processed o l = λ d. cc d.check_data
  handled-PutOff true false o l = λ d. cc d.processed
  handled-PutOff true true o l =
      if_both (λ (r : Answer × Option ℤ). PutOff window true true o l r.1) o.no_interval
        (λ e d. cc (e, d.interval)) (λ e. of_latency-PutOff o l e)

-- If the random number lies between its bounds, a host and a service are put off exactly where a check
-- result of theirs is processed, has a latency of a second or more, they are checked at intervals and
-- the flatten window is above 0. The new time is later by one second at least and by the window at
-- most. In all other cases nothing is scheduled.
pub check_result-PutOff :
    (ranged_urand : ℤ → ℤ → ℤ) (laws : RandLaws ranged_urand) (window : ℤ)
    (is_check_data is_processed : Bool) (o : Scheduled) (l : Option Latency)
    → PutOff window is_check_data is_processed o l
        (handle_hst_check_result ranged_urand window is_check_data is_processed (some o) l).1
      × PutOff window is_check_data is_processed o l
          (handle_svc_check_result ranged_urand window is_check_data is_processed (some o) l).1
unfolding handle_hst_check_result handle_svc_check_result
check_result-PutOff ranged_urand laws window is_check_data is_processed o l =
    let both = handled-PutOff ranged_urand laws window is_check_data is_processed o l in
    (both, both)
