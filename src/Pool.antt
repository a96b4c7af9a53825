-- ===== src/Pool.antt =====
-- The worker pool of worker/worker.c: the slots in shared memory, counting and starting workers.
-- The calls of the operating system are arguments: `alive` for `kill(pid, 0) == 0`, and the answers
-- of `fork` as a list in the state. `none` means that the process has left by `exit`.
pub mod Worker
pub mod Adjust
pub mod Population
pub mod Slots
pub mod Count
pub mod Rounds
pub mod System
pub mod Shutdown
pub mod Stopped
pub mod Ownership
pub mod Protocol
use mod_gearman.Common.{
  ℕ, zero, suc, Bool, true, false, ◌&&◌, ◌||◌, not, ◌==◌, leb, ltb, if◌then◌else◌, List, [], ◌∷◌,
  ◌++◌, Option, none, some, length, get_elem?, set, map, replicate, ◌+◌, ◌-◌, ◌*◌, ◌/◌,
}
use mod_gearman.Common.Int.{ℤ, pos, negsuc, abs, eq_ℤ, ltb_ℤ, minus_one, neg_ℕ}

-- The segment: the counters, the slot of the status worker, and `max_worker` slots of workers.
-- A slot holds -1 if it is free, -pid of an idle worker and pid of a working one.
pub record Shm : Type 0 where
  pub jobs_done : ℕ
  pub worker_total : ℕ
  pub worker_running : ℕ
  pub status_worker_pid : ℤ
  pub worker_last_check : ℕ
  pub slots : List ℤ

pub data Signal : Type 0 where
  sigint sigterm sigkill : Signal

-- The main process.
pub record Pool : Type 0 where
  pub shm : Shm
  pub current_number_of_workers : ℕ
  pub current_number_of_jobs : ℕ
  pub last_time_increased : ℕ
  -- what `fork` will answer: a pid, or -1; an empty list answers -1
  pub forks : List (Option ℕ)
  -- the signals sent, the last one first
  pub signals : List (ℕ × Signal)

abbrev pub with_slots : Pool → List ℤ → Pool
with_slots p slots = record p { shm = record (p.shm) { slots = slots } }

unfoldable pub setup_child_communicator : ℕ → ℕ → Shm
setup_child_communicator now max_worker = record {
  jobs_done = 0;
  worker_total = 0;
  worker_running = 0;
  status_worker_pid = minus_one;
  worker_last_check = now;
  slots = replicate max_worker minus_one;
}

-- `if(pid < 0) { pid = -pid; }`, and 1 is no pid of a worker.
unfoldable pub pid_alive : (ℕ → Bool) → ℤ → Bool
pid_alive alive pid = if abs pid == 1 then false else alive (abs pid)

unfoldable pub save_kill : ℤ → Signal → List (ℕ × Signal) → List (ℕ × Signal)
save_kill pid sig sent =
    if not (abs pid == 0) && not (abs pid == 1) then (abs pid, sig) ∷ sent else sent

-- The first free slot, from index `x` on.
unfoldable pub free_slot : ℕ → List ℤ → Option ℕ
free_slot x [] = none
free_slot x (s ∷ slots) =
    let rest = free_slot (suc x) slots in if eq_ℤ s minus_one then some x else rest

-- The index is without `SHM_SHIFT`. The slot is reserved by the value 1.
unfoldable pub get_next_shm_index : Pool → Option (Pool × ℕ)
unfolding free_slot
get_next_shm_index p = elim (free_slot 0 p.shm.slots) [
  | none ↦ none
  | some x ↦ some (with_slots p (set p.shm.slots x (pos 1)), x)
]

pub data WorkerMode : Type 0 where
  multi status : WorkerMode

-- Where the parent writes `-pid`.
unfoldable pub store_pid : WorkerMode → ℕ → ℤ → Pool → Pool
store_pid multi x v p = with_slots p (set p.shm.slots x v)
store_pid status x v p = record p { shm = record (p.shm) { status_worker_pid = v } }

-- The parent's side of the fork; the child goes to `worker_client`.
unfoldable pub fork_child : WorkerMode → ℕ → List (Option ℕ) → Pool → Pool
unfolding store_pid
fork_child mode x [] p = p
fork_child mode x (none ∷ forks) p = record p { forks = forks }
fork_child mode x (some pid ∷ forks) p = store_pid mode x (neg_ℕ pid) (record p { forks = forks })

unfoldable pub make_new_child : WorkerMode → Pool → Option Pool
unfolding fork_child
make_new_child status p = some (fork_child status 3 p.forks p)
make_new_child multi p = elim (get_next_shm_index p) [
  | none ↦ none
  | some (p', x) ↦ some (fork_child multi x p'.forks p')
]

-- A worker that is gone: its slot is freed, and it is replaced at once if `restart` says so.
unfoldable pub remove_stale : (ℕ → Bool) → Bool → ℕ → ℤ → Pool → Option Pool
unfolding pid_alive
remove_stale alive restart x s p =
    if not (eq_ℤ s minus_one) && not (pid_alive alive s)
    then (let freed = with_slots p (set p.shm.slots x minus_one) in
        if restart
        then (elim (make_new_child multi freed) [
          | none ↦ none
          | some p' ↦
              some (record p' { current_number_of_workers = suc p'.current_number_of_workers })
        ])
        else some freed)
    else some p

-- The slot is read again, since a new worker may have taken it.
unfoldable pub count_slot : Option ℤ → Pool → Pool
count_slot none p = p
count_slot (some s) p = record p {
  current_number_of_workers =
      if eq_ℤ s minus_one then p.current_number_of_workers else suc p.current_number_of_workers;
  current_number_of_jobs =
      if ltb_ℤ (pos 0) s then suc p.current_number_of_jobs else p.current_number_of_jobs;
}

-- `for (x = SHM_SHIFT; x < max_worker + SHM_SHIFT; x++)`, with the rounds left.
unfoldable pub count_loop : (ℕ → Bool) → Bool → ℕ → ℕ → Pool → Option Pool
unfolding remove_stale count_slot
count_loop alive restart zero x p = some p
count_loop alive restart (suc n) x p = elim (get_elem? p.shm.slots x) [
  | none ↦ some p
  | some s ↦ elim (remove_stale alive restart x s p) [
    | none ↦ none
    | some p' ↦ count_loop alive restart n (suc x) (count_slot (get_elem? p'.shm.slots x) p')
  ]
]

abbrev pub publish : Pool → Pool
publish p = record p {
  shm = record (p.shm) {
    worker_total = p.current_number_of_workers;
    worker_running = p.current_number_of_jobs;
  };
}

abbrev pub check_status_worker : (ℕ → Bool) → Pool → Pool
check_status_worker alive p =
    if not (eq_ℤ p.shm.status_worker_pid minus_one) && not (pid_alive alive p.shm.status_worker_pid)
    then record p { shm = record (p.shm) { status_worker_pid = minus_one } }
    else p

-- The counters are set to 0 before the loop.
abbrev pub start_count : (ℕ → Bool) → Pool → Pool
start_count alive p = record (check_status_worker alive p) {
  current_number_of_workers = 0;
  current_number_of_jobs = 0;
}

unfoldable pub count_current_worker : (ℕ → Bool) → Bool → Pool → Option Pool
count_current_worker alive restart p =
    elim (count_loop alive restart (length p.shm.slots) 0 (start_count alive p)) [
      | none ↦ none
      | some q ↦ some (publish q)
    ]
