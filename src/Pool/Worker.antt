-- ===== src/Pool/Worker.antt =====
-- The worker's side of the shared memory: `set_state` and the slot that `clean_worker_exit` clears,
-- of worker/worker_client.c. `shmat` succeeds or fails by the arguments `attach` and
-- `attach_exit`. The index is one that the main process has handed out, so it lies in the slots.
use mod_gearman.Common.{
  ℕ, suc, Bool, true, false, ◌||◌, not, if◌then◌else◌, Option, none, some, get_elem?, set,
}
use mod_gearman.Common.Int.{ℤ, pos, eq_ℤ, minus_one, neg_ℕ}
use mod_gearman.Pool.{Shm}

pub data RunMode : Type 0 where
  multi status standalone : RunMode

pub data JobState : Type 0 where
  job_start job_end : JobState

-- `worker_run_mode`, `current_pid` and `shm_index` without `SHM_SHIFT`
pub record Client : Type 0 where
  pub run_mode : RunMode
  pub current_pid : ℕ
  pub shm_index : ℕ

-- What is left of the process: it goes on, or it is gone.
pub data Next : Type 0 where
  running : Shm → Next
  left : Shm → Next

abbrev pub with_slot : Shm → ℕ → ℤ → Shm
with_slot shm x v = record shm { slots = set shm.slots x v }

abbrev pub slot_is : Option ℤ → ℤ → Bool
slot_is none v = false
slot_is (some s) v = eq_ℤ s v

-- `shm[shm_index] == current_pid || shm[shm_index] == -current_pid`
unfoldable pub is_ours : Client → Shm → Bool
is_ours c shm =
    slot_is (get_elem? shm.slots c.shm_index) (pos c.current_pid)
    || slot_is (get_elem? shm.slots c.shm_index) (neg_ℕ c.current_pid)

unfoldable pub clean_slot : Bool → Client → Shm → Shm
unfolding is_ours
clean_slot attach c shm =
    if attach then (if is_ours c shm then with_slot shm c.shm_index minus_one else shm) else shm

unfoldable pub clean_worker_exit : Bool → Client → Shm → Next
clean_worker_exit attach c shm = elim c.run_mode [
  | standalone ↦ left shm
  | multi ↦ left (clean_slot attach c shm)
  | status ↦ left (clean_slot attach c shm)
]

abbrev pub count_job : ℕ → Shm → Shm
count_job now shm = record shm { jobs_done = suc shm.jobs_done; worker_last_check = now }

unfoldable pub finish_job : Bool → Client → Shm → Next
finish_job attach_exit c shm =
    if slot_is (get_elem? shm.slots c.shm_index) minus_one
    then clean_worker_exit attach_exit c shm
    else if not (is_ours c shm)
    then clean_worker_exit attach_exit c shm
    else running (with_slot shm c.shm_index (neg_ℕ c.current_pid))

abbrev pub change_state : Bool → ℕ → Client → JobState → Shm → Next
change_state attach_exit now c job_start shm =
    running (with_slot shm c.shm_index (pos c.current_pid))
change_state attach_exit now c job_end shm = finish_job attach_exit c (count_job now shm)

abbrev pub attached : Bool → Bool → ℕ → Client → JobState → Shm → Next
attached true attach_exit now c st shm = change_state attach_exit now c st shm
attached false attach_exit now c st shm = clean_worker_exit attach_exit c shm

unfoldable pub set_state : Bool → Bool → ℕ → Client → JobState → Shm → Next
set_state attach attach_exit now c st shm = elim c.run_mode [
  | standalone ↦ running shm
  | multi ↦ attached attach attach_exit now c st shm
  | status ↦ attached attach attach_exit now c st shm
]
