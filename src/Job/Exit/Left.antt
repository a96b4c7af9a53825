-- ===== src/Job/Exit/Left.antt =====
-- What `clean_worker_exit` of worker/worker_client.c leaves of a job and of a slot.
use mod_gearman.Common.{
  ℕ, zero, suc, Bool, true, false, List, [], ◌∷◌, Option, none, some, ◌≡◌, ◌≢◌, ◌⊎◌,
}
use mod_gearman.Common.Int.{pos, neg_ℕ}
use mod_gearman.Pool.{Shm}
use mod_gearman.Pool.Worker.{
  Client, RunMode, multi, status, standalone, Next, left, is_ours, clean_slot,
}
use mod_gearman.Job.{Job}
use mod_gearman.Job.Exec.{Options, World}
use mod_gearman.Job.Delivery.{Message}
use mod_gearman.Job.Sends.{Sends}
use mod_gearman.Job.Alarm.{Kill, sigint, failed}
use mod_gearman.Job.Exit.{Held, Cleared}

-- How a job that is failed is answered: with a result to each server, where it has a queue and no
-- result was sent.
abbrev pub Failed : Options → World → ℕ → Job → List Message → Type 0
Failed opt w sig job ms =
    ((job.has_been_sent ≡ true) × (ms ≡ []))
    ⊎ ((job.result_queue ≡ none) × (ms ≡ []))
    ⊎ Sends opt w (failed opt w sig job) ms

-- Is SIGINT sent to the child and to its group? There is none with the number 0 or the own one.
abbrev pub Interrupts : ℕ → ℕ → List Kill → Type 0
Interrupts pid zero kills = Unit
Interrupts pid (suc n) kills =
    (suc n ≡ pid)
    ⊎ ((rest : List Kill) × (kills
          ≡ record { pid = neg_ℕ (suc n); sig = sigint }
            ∷ record { pid = pos (suc n); sig = sigint }
            ∷ rest))

-- What becomes of the job that a worker has when it leaves by a signal.
pub record IsIdle (h : Held) (r : Cleared) : Type 0 where
  pub no_job : h.in_job ≡ false
  pub silent : r.sent ≡ []
  pub kept : r.is_complete ≡ false
  pub no_kill : r.kills ≡ []

pub record IsRetried (pid sig : ℕ) (h : Held) (r : Cleared) : Type 0 where
  pub has_job : h.in_job ≡ true
  pub by_sigint : sig ≡ sigint
  pub silent : r.sent ≡ []
  pub kept : r.is_complete ≡ false
  pub interrupted : Interrupts pid h.current_child_pid r.kills

pub record IsFailed (opt : Options) (w : World) (pid sig : ℕ) (h : Held) (r : Cleared)
    : Type 0 where
  pub has_job : h.in_job ≡ true
  pub not_sigint : sig ≢ sigint
  pub job : Job
  pub current : h.current_job ≡ some job
  pub completed : r.is_complete ≡ true
  pub answered : Failed opt w sig job r.sent
  pub interrupted : Interrupts pid h.current_child_pid r.kills

-- Without a job in `current_job` a NULL pointer is read.
pub record IsBroken (sig : ℕ) (h : Held) : Type 0 where
  pub has_job : h.in_job ≡ true
  pub not_sigint : sig ≢ sigint
  pub no_current : h.current_job ≡ none

abbrev pub Handled : Options → World → ℕ → ℕ → Held → Option Cleared → Type 0
Handled opt w pid sig h none = IsBroken sig h
Handled opt w pid sig h (some r) = IsIdle h r ⊎ IsRetried pid sig h r ⊎ IsFailed opt w pid sig h r

-- The slot of a process that has left holds neither its number nor the negative one.
abbrev pub Gone : Bool → Client → Next → Type 0
Gone attach c next =
    (shm : Shm) × (next ≡ left shm)
    × ((attach ≡ false) ⊎ (c.run_mode ≡ standalone) ⊎ (is_ours c shm ≡ false))

abbrev left_by : Bool → Client → Shm → RunMode → Next
left_by attach c shm standalone = left shm
left_by attach c shm multi = left (clean_slot attach c shm)
left_by attach c shm status = left (clean_slot attach c shm)

abbrev pub Leaves : Options → World → Bool → Client → ℕ → Held → Option (Cleared × Next) → Type 0
Leaves opt w attach c sig h none = IsBroken sig h
Leaves opt w attach c sig h (some (r, next)) =
    Handled opt w c.current_pid sig h (some r) × Gone attach c next
