-- ===== src/Pool/System.antt =====
-- The main process and its workers together: worker/worker.c and worker/worker_client.c as the steps
-- of one relation, in any order.
use mod_gearman.Common.{
  ℕ, Bool, true, false, ◌&&◌, ◌||◌, ◌==◌, if◌then◌else◌, List, [], ◌∷◌, Option, none, some,
  get_elem?, ◌≡◌, ◌≤◌,
}
use mod_gearman.Common.Int.{ℤ}
use mod_gearman.Pool.{Pool, Shm, Signal, multi, get_next_shm_index, fork_child, remove_stale}
use mod_gearman.Pool.Population.{restart_all}
use mod_gearman.Pool.Worker.{Client, JobState, Next, running, left, set_state, clean_worker_exit}

-- The workers that run, by pid, with the slot each was given.
pub record System : Type 0 where
  pub pool : Pool
  pub live : ℕ → Option ℕ

abbrev pub with_shm : System → Shm → System
with_shm s shm = record s { pool = record (s.pool) { shm = shm } }

abbrev pub gone : ℕ → (ℕ → Option ℕ) → ℕ → Option ℕ
gone pid live q = if q == pid then none else live q

abbrev pub born : ℕ → ℕ → (ℕ → Option ℕ) → ℕ → Option ℕ
born pid x live q = if q == pid then some x else live q

abbrev pub is_sigkill : Signal → Bool
is_sigkill Signal.sigint = false
is_sigkill Signal.sigterm = false
is_sigkill Signal.sigkill = true

abbrev pub is_killed : ℕ → List (ℕ × Signal) → Bool
is_killed pid [] = false
is_killed pid (t ∷ sent) = (t.0 == pid && is_sigkill t.1) || is_killed pid sent

abbrev pub survivors : List (ℕ × Signal) → (ℕ → Option ℕ) → ℕ → Option ℕ
survivors sent live q = if is_killed q sent then none else live q

abbrev pub client : ℕ → ℕ → Client
client pid x = record {
  run_mode = mod_gearman.Pool.Worker.RunMode.multi;
  current_pid = pid;
  shm_index = x;
}

pub data Step : System → System → Type 0 where
  -- A worker tells that it starts or ends a job, and goes on or leaves.
  goes_on :
      (s : System) (pid x : ℕ) (attach attach_exit : Bool) (now : ℕ) (st : JobState) (shm : Shm)
      → s.live pid ≡ some x
      → set_state attach attach_exit now (client pid x) st s.pool.shm ≡ running shm
      → Step s (with_shm s shm)
  leaves :
      (s : System) (pid x : ℕ) (attach attach_exit : Bool) (now : ℕ) (st : JobState) (shm : Shm)
      → s.live pid ≡ some x
      → set_state attach attach_exit now (client pid x) st s.pool.shm ≡ left shm
      → Step s (record (with_shm s shm) { live = gone pid s.live })
  -- A signal or the idle timeout ends a worker.
  exits :
      (s : System) (pid x : ℕ) (attach : Bool) (shm : Shm)
      → s.live pid ≡ some x
      → clean_worker_exit attach (client pid x) s.pool.shm ≡ left shm
      → Step s (record (with_shm s shm) { live = gone pid s.live })
  -- A worker dies without cleaning its slot.
  dies : (s : System) (pid : ℕ) → Step s (record s { live = gone pid s.live })
  -- The main process starts a worker; the pid is new and not 0 or 1.
  forks :
      (s : System) (pid x : ℕ) (rest : List (Option ℕ)) (p : Pool)
      → s.live pid ≡ none
      → 2 ≤ pid
      → get_next_shm_index s.pool ≡ some (p, x)
      → p.forks ≡ some pid ∷ rest
      → Step s (record { pool = fork_child multi x p.forks p; live = born pid x s.live })
  -- `fork` has failed, and the slot stays reserved.
  fork_fails :
      (s : System) (x : ℕ) (rest : List (Option ℕ)) (p : Pool)
      → get_next_shm_index s.pool ≡ some (p, x)
      → p.forks ≡ none ∷ rest
      → Step s (record s { pool = fork_child multi x p.forks p })
  -- The main process frees the slot of a worker that is gone; `alive` holds for what runs.
  frees :
      (s : System) (alive : ℕ → Bool) (x : ℕ) (v : ℤ) (q : Pool)
      → ((pid y : ℕ) → s.live pid ≡ some y → alive pid ≡ true)
      → get_elem? s.pool.shm.slots x ≡ some v
      → remove_stale alive false x v s.pool ≡ some q
      → Step s (record s { pool = q })
  -- All workers are killed and the slots cleared; what got SIGKILL runs no more. The three seconds
  -- between the two signals are empty here.
  restarts :
      (s : System) (now : ℕ)
      → Step s (record {
        pool = restart_all now (λ slots. slots) s.pool;
        live = survivors (restart_all now (λ slots. slots) s.pool).signals s.live;
      })

-- The states that a pool reaches from its start.
pub data Reachable : System → Type 0 where
  start : (s : System) → ((pid : ℕ) → s.live pid ≡ none) → Reachable s
  then_step : (s t : System) → Reachable s → Step s t → Reachable t
