-- ===== src/Neb/Collect.antt =====
-- The list between the result threads and the core: `mod_gm_add_result_to_list` and
-- `process_check_result_list` of neb_module_naemon/mod_gearman.c. The lock of the list makes each of
-- them one step.
use mod_gearman.Common.{
  Bool, true, false, List, [], ◌∷◌, ◌++◌, append-nil, append_assoc, ◌≡◌, sym, ap, ◌∙◌,
}

-- The results that wait, and those that `process_check_result` was called with, in order.
pub record Lists (A : Type 0) : Type 0 where
  pub mod_gm_result_list : List A
  pub processed : List A

-- What happens to the list, in any order.
pub data Step (A : Type 0) : Type 0 where
  arrives : A → Step A
  moves : Step A

module _ {A : Type 0} where
  unfoldable pub mod_gm_add_result_to_list : A → Lists A → Lists A
  mod_gm_add_result_to_list c l = record l { mod_gm_result_list = c ∷ l.mod_gm_result_list }

  -- While the module terminates the results are only freed.
  abbrev pub process_all : Bool → List A → List A → List A
  process_all gm_should_terminate [] done = done
  process_all true (c ∷ list) done = process_all true list done
  process_all false (c ∷ list) done = process_all false list (done ++ (c ∷ []))

  unfoldable pub process_check_result_list : Bool → Lists A → Lists A
  process_check_result_list gm_should_terminate l = record {
    mod_gm_result_list = [];
    processed = process_all gm_should_terminate l.mod_gm_result_list l.processed;
  }

  abbrev pub step : Bool → Step A → Lists A → Lists A
  step stop (arrives c) l = mod_gm_add_result_to_list c l
  step stop moves l = process_check_result_list stop l

  abbrev pub run : Bool → List (Step A) → Lists A → Lists A
  run stop [] l = l
  run stop (s ∷ steps) l = run stop steps (step stop s l)

  -- The arrivals, each batch between two moves in its reverse order; what waits behind
  -- the last move is not among them.
  abbrev pub batches : List (Step A) → List A → List A
  batches [] waiting = []
  batches (arrives c ∷ steps) waiting = batches steps (c ∷ waiting)
  batches (moves ∷ steps) waiting = waiting ++ batches steps []

  abbrev pub waiting_after : List (Step A) → List A → List A
  waiting_after [] waiting = waiting
  waiting_after (arrives c ∷ steps) waiting = waiting_after steps (c ∷ waiting)
  waiting_after (moves ∷ steps) waiting = waiting_after steps []

  process_all-append : (list done : List A) → process_all false list done ≡ done ++ list
  process_all-append [] done = sym (append-nil done)
  process_all-append (c ∷ list) done =
      process_all-append list (done ++ (c ∷ [])) ∙ append_assoc done (c ∷ []) list

  run-batches :
      (steps : List (Step A)) (l : Lists A)
      → run false steps l ≡ record {
        mod_gm_result_list = waiting_after steps l.mod_gm_result_list;
        processed = l.processed ++ batches steps l.mod_gm_result_list;
      }
  unfolding mod_gm_add_result_to_list process_check_result_list
  run-batches [] l =
      ap (λ done. record { mod_gm_result_list = l.mod_gm_result_list; processed = done })
        (sym (append-nil l.processed))
  run-batches (arrives c ∷ steps) l = run-batches steps (mod_gm_add_result_to_list c l)
  run-batches (moves ∷ steps) l =
      run-batches steps (process_check_result_list false l)
      ∙ ap (λ done. record { mod_gm_result_list = waiting_after steps []; processed = done })
          (ap (λ d. d ++ batches steps []) (process_all-append l.mod_gm_result_list l.processed)
            ∙ append_assoc l.processed l.mod_gm_result_list (batches steps []))

-- While the module is not terminating, whatever the order in which results arrive and the core takes the
-- list: after those that were processed before come the results of each take, the last arrival of a batch first;
-- what has arrived since the last take waits, and no result is lost or processed twice.
pub run_collects :
    {A : Type 0} (steps : List (Step A)) (l : Lists A)
    → run false steps l ≡ record {
      mod_gm_result_list = waiting_after steps l.mod_gm_result_list;
      processed = l.processed ++ batches steps l.mod_gm_result_list;
    }
run_collects steps l = run-batches steps l
