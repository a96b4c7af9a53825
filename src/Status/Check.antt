-- ===== src/Status/Check.antt =====
-- The plugin that watches a gearmand: `check_server` of tools/check_gearman.c. The buffer of the
-- message is taken to be large enough.
use mod_gearman.Common.{
  ℕ, suc, Bytes, codes, str_eq, Bool, true, false, not, ◌&&◌, ◌==◌, if◌then◌else◌, List, [], ◌∷◌,
  ◌++◌, Option, none, some, take, ◌+◌,
}
use mod_gearman.Common.Int.{ℤ, pos, ltb_ℤ, eq_ℤ, ◌+ℤ◌}
use mod_gearman.Status.{
  Function, State, ok, warning, critical, unknown, Network, Status, get_gearman_server_data,
}
pub mod Severity

-- The options of the command line, and `%i`.
pub record Options : Type 0 where
  pub queue : Option Bytes
  pub job_warning : ℤ
  pub job_critical : ℤ
  pub worker_warning : ℤ
  pub worker_critical : ℤ
  pub crit_zero_worker : Bool
  pub show : ℤ → Bytes

-- `opt_queue == NULL || !strcmp(opt_queue, queue)`
abbrev pub is_selected : Option Bytes → Bytes → Bool
is_selected none name = true
is_selected (some queue) name = str_eq queue name

-- What the loop over the queues carries.
pub record Tally : Type 0 where
  pub rc : State
  pub message : Bytes
  pub total_running : ℤ
  pub total_waiting : ℤ
  pub checked : ℕ

-- `limit > 0 && n >= limit`
abbrev pub reaches : ℤ → ℤ → Bool
reaches limit n = ltb_ℤ (pos 0) limit && not (ltb_ℤ n limit)

abbrev pub found : State → Bytes → Option (State × Bytes)
found rc text = some (rc, take 65535 text)

abbrev plural : ℤ → Bytes
plural n = if ltb_ℤ (pos 1) n then codes "s" else []

abbrev plural_jobs : ℤ → Bytes
plural_jobs n = if eq_ℤ n (pos 1) then [] else codes "s"

abbrev pub counted : Function → Tally → Tally
counted f t = record t {
  checked = suc t.checked;
  total_running = t.total_running +ℤ f.running;
  total_waiting = t.total_waiting +ℤ f.waiting;
}

abbrev pub with_problem : Option (State × Bytes) → Tally → Tally
with_problem none t = t
with_problem (some (rc, text)) t = record t { rc = rc; message = t.message ++ text }

abbrev pub only_ok : State → List Function → List Function
only_ok ok fs = fs
only_ok warning fs = []
only_ok critical fs = []
only_ok unknown fs = []

abbrev pub not_found : Option Bytes → Tally → Tally
not_found none t = t
not_found (some queue) t =
    if t.checked == 0
    then record t {
      message = t.message ++ take 65535 (codes "Queue " ++ (queue ++ codes " not found"));
      rc = warning;
    }
    else t

module _ (opt : Options) where
  abbrev pub waiting_text : Function → Bytes → Bytes
  waiting_text f rest =
      codes "Queue "
      ++ (f.queue
          ++ (codes " has "
              ++ (opt.show f.waiting ++ (codes " waiting job" ++ (plural f.waiting ++ rest)))))

  abbrev pub worker_text : Function → Bytes
  worker_text f =
      codes "Queue " ++ (f.queue ++ (codes " has " ++ (opt.show f.worker ++ codes " worker. ")))

  abbrev pub deserted_text : Function → Bytes
  deserted_text f =
      codes "Queue "
      ++ (f.queue
          ++ (codes " has "
              ++ (opt.show f.waiting
                  ++ (codes " job" ++ (plural f.waiting ++ codes " without any worker. ")))))

  -- The chain of tests for one queue: the first that holds gives the state and the text.
  unfoldable pub problem : Function → Option (State × Bytes)
  problem f =
      if ltb_ℤ (pos 0) f.waiting && eq_ℤ f.worker (pos 0)
      then found critical (deserted_text f)
      else if reaches opt.job_critical f.waiting
      then found critical (waiting_text f (codes ". "))
      else if reaches opt.worker_critical f.worker
      then found critical (worker_text f)
      else if opt.crit_zero_worker && eq_ℤ f.worker (pos 0)
      then found critical (codes "Queue " ++ (f.queue ++ codes " has no worker. "))
      else if reaches opt.job_warning f.waiting
      then found warning (waiting_text f (codes ". "))
      else if reaches opt.worker_warning f.worker
      then found warning (worker_text f)
      else none

  -- The loop over the queues.
  unfoldable pub check_functions : List Function → Tally → Tally
  unfolding problem
  check_functions [] t = t
  check_functions (f ∷ fs) t =
      check_functions fs
        (if is_selected opt.queue f.queue then with_problem (problem f) (counted f t) else t)

  -- `message` is what `get_gearman_server_data` has left there.
  unfoldable pub tally : Bytes → Status → Tally
  unfolding check_functions
  tally message status = not_found opt.queue (
      check_functions (only_ok status.rc status.functions) (record {
        rc = status.rc;
        message = message;
        total_running = pos 0;
        total_waiting = pos 0;
        checked = 0;
      }))

  abbrev state_text : Bytes → Tally → State → Bytes
  state_text version t ok =
      codes "OK - "
      ++ (opt.show t.total_running
          ++ (codes " job"
              ++ (plural_jobs t.total_running
                  ++ (codes " running and "
                      ++ (opt.show t.total_waiting
                          ++ (codes " job"
                              ++ (plural_jobs t.total_waiting
                                  ++ (codes " waiting. Version: " ++ version))))))))
  state_text version t warning = codes "WARNING - "
  state_text version t critical = codes "CRITICAL - "
  state_text version t unknown = codes "UNKNOWN - "

  abbrev limits_text : ℤ → ℤ → ℤ → Bytes
  limits_text n warn crit =
      opt.show n ++ (codes ";" ++ (opt.show warn ++ (codes ";" ++ (opt.show crit ++ codes ";0 "))))

  abbrev one_perfdata : Function → Bytes
  one_perfdata f =
      codes "'"
      ++ (f.queue
          ++ (codes "_waiting'="
              ++ (limits_text f.waiting opt.job_warning opt.job_critical
                  ++ (codes "'"
                      ++ (f.queue
                          ++ (codes "_running'="
                              ++ (opt.show f.running
                                  ++ (codes " '"
                                      ++ (f.queue
                                          ++ (codes "_worker'="
                                              ++ limits_text f.worker opt.worker_warning
                                                  opt.worker_critical))))))))))

  unfoldable pub perfdata_text : List Function → Bytes
  perfdata_text [] = []
  perfdata_text (f ∷ fs) =
      let rest = perfdata_text fs in
      if is_selected opt.queue f.queue then one_perfdata f ++ rest else rest

  abbrev perfdata_part : List Function → Bytes
  perfdata_part [] = []
  perfdata_part (f ∷ fs) = codes "|" ++ perfdata_text (f ∷ fs)

  abbrev result_line : Status → Tally → Bytes
  result_line status t =
      codes "check_gearman "
      ++ (state_text status.version t t.rc
          ++ (t.message ++ (perfdata_part status.functions ++ codes "\n")))

  abbrev with_status : Bytes → Option Status → Option (State × Bytes)
  with_status message none = none
  with_status message (some status) =
      some ((tally message status).rc, result_line status (tally message status))

  -- The exit code and what is printed; `none` is undefined.
  unfoldable pub check_server :
      (Bytes → ℤ) → (List Function → List Function) → Bytes → Network → Option (State × Bytes)
  unfolding tally perfdata_text
  check_server atoi qsort message net = with_status message (get_gearman_server_data atoi qsort net)
