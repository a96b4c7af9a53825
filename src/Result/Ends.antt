-- ===== src/Result/Ends.antt =====
-- How `get_results` of neb_module_naemon/result_thread.c can end.
use mod_gearman.Common.{
  Bytes, codes, str_eq, Bool, true, false, if_both, List, ◌∷◌, Option, none, some, ◌≡◌, refl,
}
use mod_gearman.Common.Int.{ℤ, pos}
use mod_gearman.Crypt.{Evp, Mode}
use mod_gearman.Job.{Timeval}
use mod_gearman.Result.{
  Float, CheckResult, Reading, read_result, complete, freed, Core, Answer, Statistics, health_text,
  is_complete, add_result, take_result, decrypted_data, with_text, result_mode, get_results,
}

-- A result that the core can take.
pub record IsUsable {float : Float} (c : CheckResult float) : Type 0 where
  pub host : (h : Bytes) × (c.host_name ≡ some h)
  pub text : (o : Bytes) × (c.output ≡ some o)
  pub no_options : c.check_options ≡ pos 0

-- The answer and the list afterwards: the text of a health check, a failure, or one more result.
-- Each time the thread can be cancelled again.
pub data Settled {float : Float} (old : List (CheckResult float))
    : Answer float × Core float → Type 0 where
  health :
      (text : Bytes)
      → Settled old (
        record { success = true; result = some text },
        record { mod_gm_result_list = old; cancel_enabled = true },
      )
  discarded : Settled old (
    record { success = false; result = none },
    record { mod_gm_result_list = old; cancel_enabled = true },
  )
  delivered :
      (c : CheckResult float)
      → IsUsable c
      → Settled old (
        record { success = true; result = none },
        record { mod_gm_result_list = c ∷ old; cancel_enabled = true },
      )

is_complete_parts :
    (float : Float) (a b : Option Bytes)
    → is_complete float a b ≡ true
    → (h : Bytes) × (o : Bytes) × (a ≡ some h) × (b ≡ some o)
is_complete_parts float none b e = cc e
is_complete_parts float (some h) none e = cc e
is_complete_parts float (some h) (some o) e = (h, o, refl, refl)

module _ {float : Float} (now : Timeval) (time : ℤ) where
  complete-IsUsable :
      (r : Reading float) (h o : Bytes)
      → r.chk_result.host_name ≡ some h
      → r.chk_result.output ≡ some o
      → IsUsable (freed float (complete float now time r))
  unfolding complete
  complete-IsUsable r h o eh eo = record { host = (h, eh); text = (o, eo); no_options = refl }

  add_result-Settled :
      (r : Reading float) (core : Core float)
      → Settled core.mod_gm_result_list (add_result float now time r core)
  unfolding add_result
  add_result-Settled r core =
      if_both (Settled core.mod_gm_result_list)
        (is_complete float r.chk_result.host_name r.chk_result.output)
        (λ e.
          let (h, o, eh, eo) =
            is_complete_parts float r.chk_result.host_name r.chk_result.output e in
          delivered (freed float (complete float now time r)) (complete-IsUsable r h o eh eo))
        (λ _. discarded)

  take_result-Settled :
      (init : CheckResult float) (stats : Statistics float) (workload : Bytes)
      (decrypted : Option Bytes) (core : Core float)
      → Settled core.mod_gm_result_list
          (take_result float init stats now time workload decrypted core)
  unfolding take_result
  take_result-Settled init stats workload none core =
      if_both (Settled core.mod_gm_result_list) (str_eq workload (codes "check"))
        (λ _. health (health_text float stats)) (λ _. discarded)
  take_result-Settled init stats workload (some text) core =
      if_both (Settled core.mod_gm_result_list) (str_eq workload (codes "check"))
        (λ _. health (health_text float stats))
        (λ _. add_result-Settled (read_result float init text) core)

-- What `get_results` leaves where its behaviour is defined.
abbrev pub AllSettled :
    {float : Float} → List (CheckResult float) → Option (Answer float × Core float) → Type 0
AllSettled old none = Unit
AllSettled old (some done) = Settled old done

with_text-Settled :
    {float : Float} (evp : Evp) (old : List (CheckResult float)) (text : Option (Option Bytes))
    (f : Option Bytes → Answer float × Core float)
    → ((t : Option Bytes) → Settled old (f t))
    → AllSettled old (with_text evp float text f)
with_text-Settled evp old none f h = tt
with_text-Settled evp old (some t) f h = h t

-- Whatever the workload is, also none or one that cannot be decrypted or read: where the behaviour of `get_results` is defined, it has answered
-- a health check or failed and left the core's list of results as it was, or has succeeded and put exactly one
-- result in front of it, which has a host name and an output and no check options. In each case the
-- thread can be cancelled again.
pub get_results-Settled :
    (evp : Evp) (float : Float) (init : CheckResult float) (stats : Statistics float)
    (now : Timeval) (time : ℤ) (key : Bytes) (mode : Mode) (accept_clear_results : Bool)
    (fresh fresh' : Bytes) (workload : Option Bytes) (core : Core float)
    → AllSettled core.mod_gm_result_list (
        get_results evp float init stats now time key mode accept_clear_results fresh fresh'
          workload core)
unfolding get_results
get_results-Settled evp float init stats now time key mode acc fresh fresh' none core = discarded
get_results-Settled evp float init stats now time key mode acc fresh fresh' (some workload) core =
    with_text-Settled evp core.mod_gm_result_list
      (decrypted_data evp key workload (result_mode mode acc) fresh fresh') _
      (λ text.
        take_result-Settled now time init stats workload text
          (record core { cancel_enabled = false }))
