-- ===== src/Pool/Population.antt =====
-- `check_worker_population` of worker/worker.c, one round of the main loop.
use mod_gearman.Common.{
  ℕ, zero, suc, Bool, true, leb, ltb, if◌then◌else◌, List, [], ◌∷◌, Option, none, some, length, map,
  ◌+◌, ◌-◌,
}
use mod_gearman.Common.Int.{ℤ, eq_ℤ, minus_one}
use mod_gearman.Pool.{
  Pool, Signal, sigint, sigkill, multi, status, save_kill, make_new_child, count_current_worker,
}
use mod_gearman.Pool.Adjust.{Doubles, Limits, adjust_number_of_worker}

-- `save_kill(shm[x], sig)` for every slot.
unfoldable pub kill_all : Signal → List ℤ → List (ℕ × Signal) → List (ℕ × Signal)
kill_all sig [] sent = sent
kill_all sig (s ∷ slots) sent = kill_all sig slots (save_kill s sig sent)

-- `asleep` is what the workers write to their slots during the three seconds.
unfoldable pub restart_all : ℕ → (List ℤ → List ℤ) → Pool → Pool
unfolding kill_all
restart_all now asleep p =
    let slots = asleep p.shm.slots in
    record p {
      shm = record (p.shm) { worker_last_check = now; slots = map (λ _. minus_one) slots };
      signals = kill_all sigkill slots (kill_all sigint p.shm.slots p.signals);
    }

-- `for (x = current_number_of_workers; x < min_worker; x++)`, with the rounds left.
unfoldable pub keep_minimum : ℕ → Pool → Option Pool
keep_minimum zero p = some p
keep_minimum (suc n) p = elim (make_new_child multi p) [
  | none ↦ none
  | some q ↦
      keep_minimum n (record q { current_number_of_workers = suc q.current_number_of_workers })
]

-- `for (x = current_number_of_workers; x < target_number_of_workers; x++)`, with the rounds left.
unfoldable pub top_up : ℕ → ℕ → Pool → Option Pool
top_up now zero p = some p
top_up now (suc n) p = elim (make_new_child multi (record p { last_time_increased = now })) [
  | none ↦ none
  | some q ↦ top_up now n q
]

infixl 5 ◌>>=◌
abbrev ◌>>=◌ : Option Pool → (Pool → Option Pool) → Option Pool
none >>= f = none
some p >>= f = f p

-- No result for two minutes: all workers are restarted.
unfoldable pub check_last : ℕ → (List ℤ → List ℤ) → Pool → Pool
check_last now asleep p =
    if ltb (p.shm.worker_last_check + 120) now then restart_all now asleep p else p

unfoldable pub check_status : Pool → Option Pool
check_status p = if eq_ℤ p.shm.status_worker_pid minus_one then make_new_child status p else some p

module _ (d : Doubles) (l : Limits d) where
  unfoldable pub increase : ℕ → Pool → Option Pool
  increase now p =
      if leb now p.last_time_increased
      then some p
      else top_up now
          (adjust_number_of_worker d l l.min_worker (length p.shm.slots) p.current_number_of_workers
              p.current_number_of_jobs
            - p.current_number_of_workers)
          p

  unfoldable pub check_worker_population : (ℕ → Bool) → ℕ → (List ℤ → List ℤ) → Pool → Option Pool
  check_worker_population alive now asleep p = do
    counted ← count_current_worker alive true p
    supervised ← check_status (check_last now asleep counted)
    kept ← keep_minimum (l.min_worker - supervised.current_number_of_workers) supervised
    increase now kept
