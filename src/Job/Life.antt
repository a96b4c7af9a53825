-- ===== src/Job/Life.antt =====
-- The loop of a worker process: `worker_loop` of worker/worker_client.c, with the jobs that
-- `gearman_worker_work` gives to `get_job`. What this call of libgearman does is a list, with an entry
-- for each call.
pub mod Counted
pub mod Jobs
use mod_gearman.Common.{
  ℕ, suc, Bytes, Bool, true, false, ◌&&◌, ltb, leb, if◌then◌else◌, List, [], ◌∷◌, ◌++◌, Option,
  none, some, ◌+◌,
}
use mod_gearman.Pool.Worker.{RunMode, multi, status, standalone}
use mod_gearman.Job.Delivery.{Message}
use mod_gearman.Job.Received.{Client, Received, ended, left, unwritten, null_value, freed_twice}

-- A call of `gearman_worker_work`: whether it waits for longer than the idle timeout, the workload of a
-- job if one came, and whether it returns GEARMAN_SUCCESS.
pub record Work : Type 0 where
  pub waits_long : Bool
  pub job : Option (Option Bytes)
  pub succeeds : Bool

-- The globals of the process, what was sent to the server, and the seconds of each `sleep`.
pub record Loop : Type 0 where
  pub client : Client
  pub sent : List Message
  pub slept : List ℕ

-- The process goes on; has called `clean_worker_exit`, since it has reached its limit of jobs or by
-- `idle_sighandler`; has ended within a job; or has done something undefined.
pub data Life : Type 0 where
  alive exiting idle gone : Loop → Life
  undefined : Life

-- How a call comes back: to the loop, not at all, or with something undefined.
pub data Call : Type 0 where
  back away : Loop → Call
  broken : Call

abbrev pub is_pooled : RunMode → Bool
is_pooled multi = true
is_pooled status = true
is_pooled standalone = false

-- Is the alarm of the idle timeout set?
abbrev pub sets_alarm : ℕ → RunMode → Bool
sets_alarm idle_timeout mode = ltb 0 idle_timeout && is_pooled mode

abbrev pub slower : ℕ → ℕ
slower n = if ltb 60 (n + 3) then 60 else n + 3

-- After an error: a pause, and new connections.
unfoldable pub reconnect : Loop → Loop
reconnect l = record l {
  client = record l.client { sleep_time_after_error = slower l.client.sleep_time_after_error };
  slept = l.slept ++ (l.client.sleep_time_after_error ∷ []);
}

abbrev pub after_work : Bool → Loop → Loop
after_work true l = l
after_work false l = reconnect l

abbrev pub worked : Loop → Received → Call
worked l (ended ret c ms) = back (record l { client = c; sent = l.sent ++ ms })
worked l (left c ms) = away (record l { client = c; sent = l.sent ++ ms })
worked l unwritten = broken
worked l null_value = broken
worked l freed_twice = broken

module _ (max_jobs : ℕ) (has_alarm : Bool) (get_job : Option Bytes → Client → Received) where
  abbrev pub gearman_worker_work : Option (Option Bytes) → Loop → Call
  gearman_worker_work none l = back l
  gearman_worker_work (some workload) l = worked l (get_job workload l.client)

  -- Where no limit is set, `max_jobs` is 0.
  abbrev pub is_done : Loop → Bool
  is_done l = ltb 0 max_jobs && leb max_jobs l.client.jobs_done

  abbrev pub go_on : Bool → Call → (Loop → Life) → Life
  go_on succeeds (back l) later = if is_done l then exiting l else later (after_work succeeds l)
  go_on succeeds (away l) later = gone l
  go_on succeeds broken later = undefined

  unfoldable pub worker_loop : List Work → Loop → Life
  unfolding reconnect
  worker_loop [] l = alive l
  worker_loop (k ∷ ks) l =
      let later = go_on k.succeeds (gearman_worker_work k.job l) (λ l'. worker_loop ks l') in
      if has_alarm && k.waits_long then idle l else later
