-- ===== src/Pool/Shutdown.antt =====
-- Stopping all workers: `stop_children` of worker/worker.c.
-- The signals to the own process group are a list beside those to single processes. What happens
-- to the workers in between is the argument `env`.
use mod_gearman.Common.{
  ℕ, zero, suc, Bool, false, ◌==◌, if◌then◌else◌, List, [], ◌∷◌, Option, none, some,
}
use mod_gearman.Common.Int.{ℤ}
use mod_gearman.Pool.{
  Pool, Signal, sigint, sigterm, sigkill, with_slots, save_kill, count_current_worker,
}
use mod_gearman.Pool.Population.{kill_all}

pub data StopMode : Type 0 where
  stop restart : StopMode

-- The workers at a moment: which processes run, and what a sleep leaves in the slots.
pub record Env : Type 0 where
  pub alive : ℕ → ℕ → Bool
  pub asleep : ℕ → List ℤ → List ℤ

-- `save_kill` of the status worker and of every slot.
unfoldable pub signal_all : Signal → Pool → Pool
signal_all sig p = record p {
  signals = kill_all sig p.shm.slots (save_kill p.shm.status_worker_pid sig p.signals);
}

abbrev pub slept : Env → ℕ → Pool → Pool
slept env t p = with_slots p (env.asleep t p.shm.slots)

-- `while(current_number_of_workers > 0)`, with the seconds left before the break.
unfoldable pub stop_loop : Env → StopMode → ℕ → Pool → Option Pool
stop_loop env restart n p =
    if p.current_number_of_workers == 0 then some p else some (signal_all sigterm p)
stop_loop env stop zero p =
    if p.current_number_of_workers == 0 then some p else some (slept env 0 (signal_all sigterm p))
stop_loop env stop (suc n) p =
    if p.current_number_of_workers == 0
    then some p
    else elim (count_current_worker (env.alive (suc n)) false
        (slept env (suc n) (signal_all sigterm p))) [
          | none ↦ none
          | some q ↦ stop_loop env stop n q
        ]

-- After SIGKILL: the children are counted a last time, and the group is killed if one is left.
unfoldable pub last_count : Pool → Pool × List Signal
last_count q =
    if q.current_number_of_workers == 0
    then (q, sigint ∷ sigterm ∷ [])
    else (q, sigkill ∷ sigint ∷ sigterm ∷ [])

unfoldable pub kill_hard : Env → Pool → Option (Pool × List Signal)
kill_hard env p =
    if p.current_number_of_workers == 0
    then some (p, sigint ∷ sigterm ∷ [])
    else elim (count_current_worker (env.alive 13) false (signal_all sigkill p)) [
      | none ↦ none
      | some q ↦ some (last_count q)
    ]

unfoldable pub interrupt : Env → Pool → Option (Pool × List Signal)
interrupt env p =
    if p.current_number_of_workers == 0
    then some (p, sigint ∷ sigterm ∷ [])
    else elim (count_current_worker (env.alive 12) false (slept env 12 (signal_all sigint p))) [
      | none ↦ none
      | some q ↦ kill_hard env q
    ]

abbrev pub after_loop : Env → StopMode → Pool → Option (Pool × List Signal)
after_loop env restart p = some (p, sigterm ∷ [])
after_loop env stop p = elim (count_current_worker (env.alive 11) false p) [
  | none ↦ none
  | some q ↦ interrupt env q
]

-- `GM_CHILD_SHUTDOWN_TIMEOUT` is 10. The pool, and the signals to the group, the last one first.
unfoldable pub stop_children : Env → StopMode → Pool → Option (Pool × List Signal)
stop_children env mode p = elim (stop_loop env mode 10 p) [
  | none ↦ none
  | some q ↦ after_loop env mode q
]
