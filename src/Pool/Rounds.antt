-- ===== src/Pool/Rounds.antt =====
-- A round of the main loop, `check_worker_population` of worker/worker.c: it never leaves the
-- process, and sends signals to workers alone.
use mod_gearman.Common.{
  ℕ, zero, suc, Bool, true, leb, ltb, List, [], ◌∷◌, Option, none, some, length, map, All,
  length-set, ◌+◌, ◌-◌, ◌≡◌, ◌≤◌, ◌⊎◌, inl, inr, refl, ap, ◌∙◌, arith, Bool-cases,
}
use mod_gearman.Common.Int.{ℤ, eq_ℤ, minus_one}
use mod_gearman.Pool.{Pool, Signal, sigint, sigkill, status, save_kill, fork_child, make_new_child}
use mod_gearman.Pool.Adjust.{Doubles, Limits, adjust_number_of_worker}
use mod_gearman.Pool.Population.{
  kill_all, restart_all, keep_minimum, top_up, check_last, check_status, increase,
  check_worker_population,
}
use mod_gearman.Pool.Slots.{used, used-le, used-set, Started, make_new_child_lem}
use mod_gearman.Pool.Count.{count_current_worker_lem}

-- A signal goes to a process that can be a worker: 0 is the own group, 1 is `init`.
abbrev pub Targeted : List (ℕ × Signal) → Type 0
Targeted = All (λ (t : ℕ × Signal). 2 ≤ t.0)

pub save_kill-Targeted :
    (pid : ℤ) (sig : Signal) (sent : List (ℕ × Signal))
    → Targeted sent
    → Targeted (save_kill pid sig sent)
unfolding save_kill
save_kill-Targeted pid sig sent h = ground arith

pub kill_all-Targeted :
    (sig : Signal) (slots : List ℤ) (sent : List (ℕ × Signal))
    → Targeted sent
    → Targeted (kill_all sig slots sent)
unfolding kill_all
kill_all-Targeted sig [] sent h = h
kill_all-Targeted sig (s ∷ slots) sent h =
    kill_all-Targeted sig slots (save_kill s sig sent) (save_kill-Targeted s sig sent h)

-- `n` slots, of which no more are in use than are counted.
record Fits (n : ℕ) (p : Pool) : Type 0 where
  size : length p.shm.slots ≡ n
  counted : used p.shm.slots ≤ p.current_number_of_workers
  targeted : Targeted p.signals

used_cleared : (slots : List ℤ) → used (map (λ _. minus_one) slots) ≡ 0
used_cleared [] = refl
used_cleared (s ∷ slots) = omega (arith, used_cleared slots)

length-cleared : (slots : List ℤ) → length (map (λ _. minus_one) slots) ≡ length slots
length-cleared [] = refl
length-cleared (s ∷ slots) = ap suc (length-cleared slots)

check_last-Fits :
    (n now : ℕ) (asleep : List ℤ → List ℤ) (p : Pool)
    → ((slots : List ℤ) → length (asleep slots) ≡ length slots)
    → Fits n p
    → Fits n (check_last now asleep p)
unfolding check_last restart_all
check_last-Fits n now asleep p keep h =
    elim (Bool-cases (ltb (p.shm.worker_last_check + 120) now)) [
      | inr recent ↦ rw recent h
      | inl old ↦ rw old (record {
        size = length-cleared (asleep p.shm.slots) ∙ keep p.shm.slots ∙ h.size;
        counted = omega (arith, used_cleared (asleep p.shm.slots));
        targeted =
            kill_all-Targeted sigkill (asleep p.shm.slots) (kill_all sigint p.shm.slots p.signals)
              (kill_all-Targeted sigint p.shm.slots p.signals h.targeted);
      })
    ]

fork_status-Fits :
    (n : ℕ) (forks : List (Option ℕ)) (p : Pool) → Fits n p → Fits n (fork_child status 3 forks p)
unfolding fork_child
fork_status-Fits n [] p h = h
fork_status-Fits n (none ∷ forks) p h = record {
  size = h.size;
  counted = h.counted;
  targeted = h.targeted;
}
fork_status-Fits n (some pid ∷ forks) p h = record {
  size = h.size;
  counted = h.counted;
  targeted = h.targeted;
}

check_status-Fits :
    (n : ℕ) (p : Pool) → Fits n p → (q : Pool) × (check_status p ≡ some q) × Fits n q
unfolding check_status make_new_child
check_status-Fits n p h = elim (Bool-cases (eq_ℤ p.shm.status_worker_pid minus_one)) [
  | inl gone ↦ (fork_child status 3 p.forks p, rw gone, fork_status-Fits n p.forks p h)
  | inr there ↦ (p, rw there, h)
]

Started-Fits :
    (n : ℕ) (p q : Pool)
    → Fits n p
    → Started p q
    → Fits n (record q { current_number_of_workers = suc q.current_number_of_workers })
Started-Fits n p q h s = record {
  size = ap length s.slots ∙ length-set p.shm.slots s.at s.value ∙ h.size;
  counted = rw s.slots (omega (arith, used-set s.at p.shm.slots s.value, s.workers, h.counted));
  targeted = rw s.signals h.targeted;
}

keep_minimum-Fits :
    (n m k : ℕ) (p : Pool)
    → Fits n p
    → m ≤ n
    → k ≡ m - p.current_number_of_workers
    → (q : Pool) × (keep_minimum k p ≡ some q) × Fits n q × (m ≤ q.current_number_of_workers)
unfolding keep_minimum
keep_minimum-Fits n m zero p h room e = (p, refl, h, omega (arith, e))
keep_minimum-Fits n m (suc k) p h room left =
    let (q, e, s) = make_new_child_lem p (omega (arith, h.size, h.counted, left)) in
    let next = record q { current_number_of_workers = suc q.current_number_of_workers } in
    let (r, rest, f, enough) =
      keep_minimum-Fits n m k next (Started-Fits n p q h s) room (omega (arith, s.workers, left)) in
    (r, rw (e, keep_minimum) rest, f, enough)

-- Here a new worker is not counted.
record Roomy (n k : ℕ) (p : Pool) : Type 0 where
  fits : length p.shm.slots ≡ n
  room : used p.shm.slots + k ≤ n
  aimed : Targeted p.signals

top_up-Roomy :
    (now n k : ℕ) (p : Pool)
    → Roomy n k p
    → (q : Pool) × (top_up now k p ≡ some q) × (length q.shm.slots ≡ n) × Targeted q.signals
unfolding top_up
top_up-Roomy now n zero p h = (p, refl, h.fits, h.aimed)
top_up-Roomy now n (suc k) p h =
    let stamped = record p { last_time_increased = now } in
    let (q, e, s) = make_new_child_lem stamped (omega (arith, h.fits, h.room)) in
    let (r, rest, size, aimed) = top_up-Roomy now n k q (record {
      fits = ap length s.slots ∙ length-set p.shm.slots s.at s.value ∙ h.fits;
      room = rw s.slots (omega (arith, used-set s.at p.shm.slots s.value, h.room));
      aimed = rw s.signals h.aimed;
    }) in
    (r, rw (e, top_up) rest, size, aimed)

target_bound :
    (d : Doubles) (l : Limits d) (max workers jobs : ℕ)
    → l.min_worker ≤ max
    → (adjust_number_of_worker d l l.min_worker max workers jobs ≤ max)
      ⊎ (adjust_number_of_worker d l l.min_worker max workers jobs ≤ workers)
unfolding adjust_number_of_worker
target_bound d l max workers jobs h = ground arith

increase-Fits :
    (d : Doubles) (l : Limits d) (n now : ℕ) (p : Pool)
    → Fits n p
    → l.min_worker ≤ n
    → (q : Pool) × (increase d l now p ≡ some q) × (length q.shm.slots ≡ n) × Targeted q.signals
unfolding increase
increase-Fits d l n now p h least = elim (Bool-cases (leb now p.last_time_increased)) [
  | inl shut ↦ (p, rw shut, h.size, h.targeted)
  | inr later ↦
      let target =
        adjust_number_of_worker d l l.min_worker (length p.shm.slots) p.current_number_of_workers
          p.current_number_of_jobs in
      let bound =
        target_bound d l (length p.shm.slots) p.current_number_of_workers p.current_number_of_jobs
          (omega (arith, h.size)) in
      let (q, e, size, aimed) =
        top_up-Roomy now n (target - p.current_number_of_workers) p (record {
          fits = h.size;
          room = ground (arith, bound, used-le p.shm.slots, h.size, h.counted);
          aimed = h.targeted;
        }) in
      (q, rw (later, e), size, aimed)
]

-- A round of the main loop returns: with a minimum of workers that the slots can hold, and workers
-- that keep the number of slots while the round sleeps, the process never leaves by `exit` for want
-- of a slot, whatever the processes, the clock, `fork` and the load do. The number of slots stays,
-- and every signal goes to a pid above 1 if those before did.
pub check_worker_population_lem :
    (d : Doubles) (l : Limits d) (alive : ℕ → Bool) (now : ℕ) (asleep : List ℤ → List ℤ) (p : Pool)
    → l.min_worker ≤ length p.shm.slots
    → ((slots : List ℤ) → length (asleep slots) ≡ length slots)
    → Targeted p.signals
    → (q : Pool) × (check_worker_population d l alive now asleep p ≡ some q)
      × (length q.shm.slots ≡ length p.shm.slots)
      × Targeted q.signals
unfolding check_worker_population
check_worker_population_lem d l alive now asleep p least keep aimed =
    let n = length p.shm.slots in
    let (counted, e1, low, _, _, size, sent) = count_current_worker_lem alive true p in
    let f1 : Fits n counted = record { size = size; counted = low; targeted = rw sent aimed } in
    let f2 = check_last-Fits n now asleep counted keep f1 in
    let (supervised, e3, f3) = check_status-Fits n (check_last now asleep counted) f2 in
    let (kept, e4, f4, _) =
      keep_minimum-Fits n l.min_worker (l.min_worker - supervised.current_number_of_workers)
        supervised f3 least refl in
    let (q, e5, s, t) = increase-Fits d l n now kept f4 least in
    (q, rw (check_worker_population, e1, e3, e4, e5), s, t)
