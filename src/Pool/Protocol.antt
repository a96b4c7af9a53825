-- ===== src/Pool/Protocol.antt =====
-- All orders of the steps of the main process and the workers: worker/worker.c and
-- worker/worker_client.c never give one slot to two workers.
use mathlib.Core.Path.{subst}
use mod_gearman.Common.{
  ℕ, Bool, true, false, ◌||◌, List, ◌∷◌, Option, none, some, lt-length_of_some, get_elem?, set, ◌≡◌,
  ◌≤◌, inl, inr, refl, ap, sym, ◌∙◌, arith, Bool-cases,
}
use mod_gearman.Common.Int.{ℤ, pos, abs, eq_ℤ, minus_one, neg_ℕ}
use mod_gearman.Pool.{Pool, Shm, multi, get_next_shm_index, fork_child}
use mod_gearman.Pool.Slots.{set-set, Reserved, get_next_shm_index_lem}
use mod_gearman.Pool.Worker.{
  Client, JobState, job_start, job_end, running, left, with_slot, set_state, clean_worker_exit,
  finish_job, clean_slot, is_ours, slot_is, count_job,
}
use mod_gearman.Pool.System.{
  System, Step, goes_on, leaves, exits, dies, forks, fork_fails, frees, restarts, Reachable, start,
  then_step, client, gone, born,
}
use mod_gearman.Pool.Ownership.{
  Owns, some_inj, Owns-own, Owns-free, Owns-less, alone, gone_before, clean_Owns, free_no_owner,
  fork_Owns, frees_Owns, restart_Owns,
}

running_inj : {a b : Shm} → running a ≡ running b → a ≡ b
running_inj h = cc h

left_inj : {a b : Shm} → left a ≡ left b → a ≡ b
left_inj h = cc h

data Finished (attach : Bool) (c : Client) (shm : Shm) : Type 0 where
  lost : finish_job attach c shm ≡ clean_worker_exit attach c shm → Finished attach c shm
  ours :
      is_ours c shm ≡ true
      → finish_job attach c shm ≡ running (with_slot shm c.shm_index (neg_ℕ c.current_pid))
      → Finished attach c shm

finish_job_cases : (attach : Bool) (c : Client) (shm : Shm) → Finished attach c shm
unfolding finish_job
finish_job_cases attach c shm =
    elim (Bool-cases (slot_is (get_elem? shm.slots c.shm_index) minus_one)) [
      | inl free ↦ lost (rw free)
      | inr taken ↦ elim (Bool-cases (is_ours c shm)) [
        | inl mine ↦ ours mine (rw (taken, mine))
        | inr other ↦ lost (rw (taken, other))
      ]
    ]

-- What a worker that goes on has written.
set_state_running :
    (attach attach_exit : Bool) (now pid x : ℕ) (st : JobState) (a b : Shm)
    → set_state attach attach_exit now (client pid x) st a ≡ running b
    → (v : ℤ) × (abs v ≡ pid) × (b.slots ≡ set a.slots x v)
unfolding set_state clean_worker_exit
set_state_running false attach_exit now pid x st a b e = cc e
set_state_running true attach_exit now pid x job_start a b e =
    (pos pid, refl, ap (λ (r : Shm). r.slots) (sym (running_inj e)))
set_state_running true attach_exit now pid x job_end a b e =
    elim (finish_job_cases attach_exit (client pid x) (count_job now a)) [
      | lost h ↦ cc (e, h)
      | ours _ h ↦ (neg_ℕ pid, ground arith, ap (λ (r : Shm). r.slots) (running_inj (sym e ∙ h)))
    ]

-- What a worker that leaves has cleaned.
set_state_left :
    (attach attach_exit : Bool) (now pid x : ℕ) (st : JobState) (a b : Shm)
    → set_state attach attach_exit now (client pid x) st a ≡ left b
    → (c : Shm) × (c.slots ≡ a.slots) × (clean_slot attach_exit (client pid x) c ≡ b)
unfolding set_state clean_worker_exit
set_state_left false attach_exit now pid x st a b e = (a, refl, left_inj e)
set_state_left true attach_exit now pid x job_start a b e = cc e
set_state_left true attach_exit now pid x job_end a b e =
    elim (finish_job_cases attach_exit (client pid x) (count_job now a)) [
      | lost h ↦ (count_job now a, refl, left_inj (sym h ∙ e))
      | ours _ h ↦ cc (e, h)
    ]

abbrev pub OwnsAll : System → Type 0
OwnsAll s = Owns s.pool.shm.slots s.live

reserved : (p q : Pool) (x : ℕ) → get_next_shm_index p ≡ some (q, x) → Reserved p q x
reserved p q x e = elim (get_next_shm_index_lem p) [
  | inl (h, _) ↦ cc (e, h)
  | inr (r, y, h, known, _) ↦
      subst (λ (z : Pool × ℕ). Reserved p z.0 z.1) (some_inj (sym h ∙ e)) known
]

forked_slots :
    (p : Pool) (x pid : ℕ) (rest answers : List (Option ℕ))
    → answers ≡ some pid ∷ rest
    → (fork_child multi x answers p).shm.slots ≡ set p.shm.slots x (neg_ℕ pid)
unfolding fork_child
forked_slots p x pid rest answers e = rw e

failed_slots :
    (p : Pool) (x : ℕ) (rest answers : List (Option ℕ))
    → answers ≡ none ∷ rest
    → (fork_child multi x answers p).shm.slots ≡ p.shm.slots
unfolding fork_child
failed_slots p x rest answers e = rw e

fork_step :
    (s : System) (pid x : ℕ) (rest : List (Option ℕ)) (p : Pool)
    → 2 ≤ pid
    → get_next_shm_index s.pool ≡ some (p, x)
    → p.forks ≡ some pid ∷ rest
    → OwnsAll s
    → Owns (fork_child multi x p.forks p).shm.slots (born pid x s.live)
fork_step s pid x rest p big got answer o =
    let known = reserved s.pool p x got in
    let slots = s.pool.shm.slots in
    let written =
      forked_slots p x pid rest p.forks answer
      ∙ ap (λ (r : Pool). set r.shm.slots x (neg_ℕ pid)) known.slots
      ∙ set-set slots x (pos 1) (neg_ℕ pid) in
    subst (λ r. Owns r (born pid x s.live)) (sym written)
      (fork_Owns slots s.live pid x o known.free big)

fork_fails_step :
    (s : System) (x : ℕ) (rest : List (Option ℕ)) (p : Pool)
    → get_next_shm_index s.pool ≡ some (p, x)
    → p.forks ≡ none ∷ rest
    → OwnsAll s
    → Owns (fork_child multi x p.forks p).shm.slots s.live
fork_fails_step s x rest p got answer o =
    let known = reserved s.pool p x got in
    let slots = s.pool.shm.slots in
    let written =
      failed_slots p x rest p.forks answer ∙ ap (λ (r : Pool). r.shm.slots) known.slots in
    subst (λ r. Owns r s.live) (sym written)
      (Owns-free slots s.live x (pos 1) o (lt-length_of_some slots x known.free)
        (free_no_owner slots s.live x o known.free))

-- Every step keeps the ownership of the slots.
Step-OwnsAll : {s t : System} → Step s t → OwnsAll s → OwnsAll t
unfolding clean_worker_exit
Step-OwnsAll (goes_on s pid x attach attach_exit now st shm l e) o =
    let (v, mine, written) = set_state_running attach attach_exit now pid x st s.pool.shm shm e in
    rw written (Owns-own s.pool.shm.slots s.live pid x v o l mine)
Step-OwnsAll (leaves s pid x attach attach_exit now st shm l e) o =
    let (c, same, cleaned) = set_state_left attach attach_exit now pid x st s.pool.shm shm e in
    subst (λ (r : Shm). Owns r.slots (gone pid s.live)) cleaned
      (clean_Owns attach_exit pid x c s.live (subst (λ r. Owns r s.live) (sym same) o) l)
Step-OwnsAll (exits s pid x attach shm l e) o =
    subst (λ (r : Shm). Owns r.slots (gone pid s.live)) (left_inj e)
      (clean_Owns attach pid x s.pool.shm s.live o l)
Step-OwnsAll (dies s pid) o =
    Owns-less s.pool.shm.slots s.live (gone pid s.live) o
      (λ q y h. (gone_before pid s.live q y h).0)
Step-OwnsAll (forks s pid x rest p fresh big got answer) o =
    fork_step s pid x rest p big got answer o
Step-OwnsAll (fork_fails s x rest p got answer) o = fork_fails_step s x rest p got answer o
Step-OwnsAll (frees s alive x v q runs at e) o = frees_Owns s.pool q s.live alive x v o runs at e
Step-OwnsAll (restarts s now) o = restart_Owns s.pool s.live now o

-- In every state that the pool reaches from a start without workers, each running worker has its
-- own pid, with either sign, in its slot.
pub Reachable-OwnsAll : (s : System) → Reachable s → OwnsAll s
Reachable-OwnsAll s (start _ empty) = λ pid x l. cc (l, empty pid)
Reachable-OwnsAll s (then_step a _ r e) = Step-OwnsAll e (Reachable-OwnsAll a r)

-- In no state that the pool reaches from a start without workers do two running workers have the
-- same slot, in whatever order the main process and the workers take their steps.
pub Reachable-alone :
    (s : System) (p q x : ℕ) → Reachable s → s.live p ≡ some x → s.live q ≡ some x → p ≡ q
Reachable-alone s p q x r l m = alone s.pool.shm.slots s.live p q x (Reachable-OwnsAll s r) l m

not_free : (v : ℤ) (pid : ℕ) → 2 ≤ pid → abs v ≡ pid → eq_ℤ v minus_one ≡ false
not_free v pid big mine = ground arith

of_pid : (v : ℤ) (pid : ℕ) → abs v ≡ pid → (eq_ℤ v (pos pid) || eq_ℤ v (neg_ℕ pid)) ≡ true
of_pid v pid mine = ground arith

-- In every state that the pool reaches, a running worker that ends a job and attaches the shared
-- memory finds its own pid in its slot, so it never stops with "double
-- used worker slot" or with a freed slot: it goes on, idle and with the job counted.
pub set_state_job_end :
    (s : System) (pid x now : ℕ) (attach_exit : Bool)
    → Reachable s
    → s.live pid ≡ some x
    → set_state true attach_exit now (client pid x) job_end s.pool.shm
      ≡ running (with_slot (count_job now s.pool.shm) x (neg_ℕ pid))
unfolding set_state is_ours finish_job
set_state_job_end s pid x now attach_exit r l =
    let (big, v, at, mine) = Reachable-OwnsAll s r pid x l in
    rw (at, not_free v pid big mine, of_pid v pid mine)
