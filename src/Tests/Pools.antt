-- ===== src/Tests/Pools.antt =====
-- The theorems on worker/worker.c and worker/worker_client.c at concrete pools.
use mod_gearman.Common.{
  ℕ, Bool, true, false, ◌==◌, List, [], ◌∷◌, Option, none, some, length, ◌+◌, ◌*◌, ◌≡◌, ◌≢◌, ◌≤◌,
  ◌<◌, ◌⊎◌, refl, arith,
}
use mod_gearman.Common.Int.{pos, negsuc, minus_one, neg_ℕ}
use mod_gearman.Pool.{
  Pool, Signal, multi, setup_child_communicator, get_next_shm_index, count_current_worker,
  fork_child, free_slot,
}
use mod_gearman.Pool.Adjust.{Doubles, Limits}
use mod_gearman.Pool.Population.{check_worker_population}
use mod_gearman.Pool.Slots.{used}
use mod_gearman.Pool.Count.{count_current_worker_lem}
use mod_gearman.Pool.Rounds.{Targeted, check_worker_population_lem}
use mod_gearman.Pool.Worker.{job_end, running, set_state, with_slot, count_job}
use mod_gearman.Pool.System.{System, forks, Reachable, start, then_step, client, born}
use mod_gearman.Pool.Shutdown.{Env, stop, stop_children}
use mod_gearman.Pool.Stopped.{Ended, stop_children_lem}
use mod_gearman.Pool.Protocol.{OwnsAll, Reachable-OwnsAll, Reachable-alone, set_state_job_end}

-- One slot is idle, one is free, one belongs to a worker at work.
abbrev pool : Pool
pool = record {
  shm = record {
    jobs_done = 0;
    worker_total = 0;
    worker_running = 0;
    status_worker_pid = minus_one;
    worker_last_check = 100;
    slots = negsuc 40 ∷ minus_one ∷ pos 42 ∷ [];
  };
  current_number_of_workers = 0;
  current_number_of_jobs = 0;
  last_time_increased = 0;
  forks = some 43 ∷ some 44 ∷ [];
  signals = [];
}

abbrev worker : ℕ
worker = 43

abbrev three : ℕ
three = 3

abbrev numbers : Doubles
numbers = record {
  Double = ℕ;
  positive = λ n. mod_gearman.Common.ltb 0 n;
  ge = λ a b. mod_gearman.Common.leb b a;
}

abbrev limits : Limits numbers
limits = record {
  min_worker = 2;
  spawn_rate = 1;
  load_limit1 = 0;
  load_limit5 = 0;
  load_limit15 = 9;
  load1 = 3;
  load5 = 3;
  load15 = 3;
}

abbrev alive : ℕ → Bool
alive n = n == 42

count_current_worker_lem_example :
    (q : Pool) × (count_current_worker alive true pool ≡ some q)
    × (used q.shm.slots ≤ q.current_number_of_workers)
    × (q.shm.worker_total ≡ q.current_number_of_workers)
    × (q.shm.worker_running ≡ q.current_number_of_jobs)
    × (length q.shm.slots ≡ length pool.shm.slots)
    × (q.signals ≡ pool.signals)
count_current_worker_lem_example = count_current_worker_lem alive true pool

check_worker_population_lem_example :
    (q : Pool) × (check_worker_population numbers limits alive 200 (λ s. s) pool ≡ some q)
    × (length q.shm.slots ≡ length pool.shm.slots)
    × Targeted q.signals
check_worker_population_lem_example =
    check_worker_population_lem numbers limits alive 200 (λ s. s) pool (omega arith) (λ s. refl) tt

-- A pool of two slots after its start, and with one worker, idle and then at work.
abbrev empty : Pool
empty = record pool { shm = setup_child_communicator 100 2 }

abbrev begin : System
begin = record { pool = empty; live = λ _. none }

abbrev reserved : Pool
reserved = record empty { shm = record (empty.shm) { slots = pos 1 ∷ minus_one ∷ [] } }

abbrev one : System
one = record { pool = fork_child multi 0 reserved.forks reserved; live = born 43 0 begin.live }

one-Reachable : Reachable one
one-Reachable = then_step begin one (start begin (λ pid. refl)) (
    forks begin 43 0 (some 44 ∷ []) reserved refl (omega arith)
      (unfold get_next_shm_index free_slot setup_child_communicator in refl) refl)

Reachable-OwnsAll_example : OwnsAll one
Reachable-OwnsAll_example = Reachable-OwnsAll one one-Reachable

Reachable-alone_example : worker ≡ worker
Reachable-alone_example = Reachable-alone one worker worker 0 one-Reachable refl refl

set_state_job_end_example :
    set_state true true 7 (client 43 0) job_end one.pool.shm
    ≡ running (with_slot (count_job 7 one.pool.shm) 0 (neg_ℕ 43))
set_state_job_end_example = set_state_job_end one 43 0 7 true one-Reachable refl

abbrev env : Env
env = record { alive = λ t n. false; asleep = λ t slots. slots }

stop_children_lem_example :
    (r : Pool × List Signal) × (stop_children env stop pool ≡ some r) × Ended r
stop_children_lem_example = stop_children_lem env pool tt
