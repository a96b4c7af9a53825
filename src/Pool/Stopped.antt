-- ===== src/Pool/Stopped.antt =====
-- `stop_children` of worker/worker.c leaves no worker behind.
use mod_gearman.Common.{
  ℕ, zero, suc, Bool, false, ◌==◌, List, [], ◌∷◌, some, ◌≡◌, ◌≤◌, ◌⊎◌, inl, inr, refl, arith,
  if_both, Bool-cases,
}
use mod_gearman.Pool.{Pool, Signal, sigint, sigterm, sigkill, count_current_worker}
use mod_gearman.Pool.Slots.{used}
use mod_gearman.Pool.Count.{count_current_worker_lem}
use mod_gearman.Pool.Rounds.{Targeted, save_kill-Targeted, kill_all-Targeted}
use mod_gearman.Pool.Shutdown.{
  stop, Env, signal_all, slept, stop_loop, last_count, kill_hard, interrupt, after_loop,
  stop_children,
}

signal_all-Targeted :
    (sig : Signal) (p : Pool) → Targeted p.signals → Targeted (signal_all sig p).signals
unfolding signal_all
signal_all-Targeted sig p h =
    kill_all-Targeted sig p.shm.slots _ (save_kill-Targeted p.shm.status_worker_pid sig p.signals h)

-- A count that succeeds, with the signals kept.
record Counted (q : Pool) : Type 0 where
  low : used q.shm.slots ≤ q.current_number_of_workers
  aimed : Targeted q.signals

counts :
    (alive : ℕ → Bool) (p : Pool)
    → Targeted p.signals
    → (q : Pool) × (count_current_worker alive false p ≡ some q) × Counted q
counts alive p h =
    let (q, e, low, _, _, _, sent) = count_current_worker_lem alive false p in
    (q, e, record { low = low; aimed = rw sent h })

stop_loop_lem :
    (env : Env) (n : ℕ) (p : Pool)
    → Targeted p.signals
    → (q : Pool) × (stop_loop env stop n p ≡ some q) × Targeted q.signals
unfolding stop_loop
stop_loop_lem env zero p h = elim (Bool-cases (p.current_number_of_workers == 0)) [
  | inl e ↦ (p, rw e, h)
  | inr e ↦ (slept env 0 (signal_all sigterm p), rw e, signal_all-Targeted sigterm p h)
]
stop_loop_lem env (suc n) p h = elim (Bool-cases (p.current_number_of_workers == 0)) [
  | inl e ↦ (p, rw e, h)
  | inr e ↦
      let (q, f, c) =
        counts (env.alive (suc n)) (slept env (suc n) (signal_all sigterm p))
          (signal_all-Targeted sigterm p h) in
      let (r, g, aimed) = stop_loop_lem env n q c.aimed in (r, rw (e, f) g, aimed)
]

-- What is reached at the end: no slot is in use, or the whole process group got SIGKILL.
abbrev pub Ended : Pool × List Signal → Type 0
Ended (p, group) =
    Targeted p.signals × ((used p.shm.slots ≡ 0) ⊎ (group ≡ sigkill ∷ sigint ∷ sigterm ∷ []))

last_count_lem : (q : Pool) → Counted q → Ended (last_count q)
unfolding last_count
last_count_lem q c =
    if_both Ended (q.current_number_of_workers == 0)
      (λ e. (c.aimed, inl (ground (arith, e, c.low)))) (λ e. (c.aimed, inr refl))

kill_hard_lem :
    (env : Env) (p : Pool)
    → Counted p
    → (r : Pool × List Signal) × (kill_hard env p ≡ some r) × Ended r
unfolding kill_hard
kill_hard_lem env p c = elim (Bool-cases (p.current_number_of_workers == 0)) [
  | inl e ↦ ((p, sigint ∷ sigterm ∷ []), rw e, (c.aimed, inl (ground (arith, e, c.low))))
  | inr e ↦
      let (q, f, d) =
        counts (env.alive 13) (signal_all sigkill p) (signal_all-Targeted sigkill p c.aimed) in
      (last_count q, rw (e, f), last_count_lem q d)
]

interrupt_lem :
    (env : Env) (p : Pool)
    → Counted p
    → (r : Pool × List Signal) × (interrupt env p ≡ some r) × Ended r
unfolding interrupt
interrupt_lem env p c = elim (Bool-cases (p.current_number_of_workers == 0)) [
  | inl e ↦ ((p, sigint ∷ sigterm ∷ []), rw e, (c.aimed, inl (ground (arith, e, c.low))))
  | inr e ↦
      let (q, f, d) =
        counts (env.alive 12) (slept env 12 (signal_all sigint p))
          (signal_all-Targeted sigint p c.aimed) in
      let (r, g, ended) = kill_hard_lem env q d in (r, rw (e, f) g, ended)
]

after_loop_lem :
    (env : Env) (p : Pool)
    → Targeted p.signals
    → (r : Pool × List Signal) × (after_loop env stop p ≡ some r) × Ended r
after_loop_lem env p h =
    let (q, e, c) = counts (env.alive 11) p h in
    let (r, f, ended) = interrupt_lem env q c in (r, rw (after_loop, e) f, ended)

-- Stopping returns, whatever the workers do: the process is not left for want of a slot. At the
-- end no slot is in use, or SIGKILL was sent to the whole process group. Signals to single
-- processes go to pids above 1, if they did before.
pub stop_children_lem :
    (env : Env) (p : Pool)
    → Targeted p.signals
    → (r : Pool × List Signal) × (stop_children env stop p ≡ some r) × Ended r
unfolding stop_children
stop_children_lem env p h =
    let (q, e, aimed) = stop_loop_lem env 10 p h in
    let (r, f, ended) = after_loop_lem env q aimed in (r, rw (stop_children, e) f, ended)
