-- ===== src/Pool/Count.antt =====
-- `count_current_worker` of worker/worker.c always returns, and what its counters say.
use mathlib.Core.Path.{subst}
use mod_gearman.Common.{
  ℕ, zero, suc, Bool, true, false, not, ◌&&◌, List, [], ◌∷◌, ◌++◌, some, length, get_elem?, set,
  take, take-suc, take_all, length-set, get_elem?-set_self, get_elem?-lt, lt-length_of_some, ◌+◌,
  ◌≡◌, ◌≤◌, ◌<◌, inl, inr, refl, ap, ◌∙◌, arith, Bool-cases,
}
use mod_gearman.Common.Int.{ℤ, eq_ℤ, minus_one}
use mod_gearman.Pool.{
  Pool, with_slots, pid_alive, remove_stale, count_slot, count_loop, publish, start_count,
  count_current_worker, make_new_child, multi,
}
use mod_gearman.Pool.Slots.{used, used-lt, used-take-set, take-set, make_new_child_lem}

used-append : (xs ys : List ℤ) → used (xs ++ ys) ≡ used xs + used ys
used-append [] ys = omega arith
used-append (x ∷ xs) ys = omega (arith, used-append xs ys)

-- In the first `x` slots there are at most as many used ones as have been counted.
abbrev Counted : ℕ → Pool → Type 0
Counted x p = used (take x p.shm.slots) ≤ p.current_number_of_workers

-- What a step of the loop keeps.
record Kept (p q : Pool) : Type 0 where
  length_kept : length q.shm.slots ≡ length p.shm.slots
  signals_kept : q.signals ≡ p.signals

replaced :
    (x : ℕ) (p : Pool) (s : ℤ)
    → get_elem? p.shm.slots x ≡ some s
    → Counted x p
    → (q : Pool) × (make_new_child multi (with_slots p (set p.shm.slots x minus_one)) ≡ some q)
      × (used (take x q.shm.slots) ≤ suc q.current_number_of_workers)
      × Kept p q
replaced x p s at h =
    let freed = set p.shm.slots x minus_one in
    let inside = lt-length_of_some p.shm.slots x at in
    let room = used-lt x freed (get_elem?-set_self p.shm.slots x minus_one inside) in
    let (q, e, st) = make_new_child_lem (with_slots p freed) room in
    (
      q,
      e,
      rw st.slots (
          omega (
            arith,
            used-take-set x st.at freed st.value,
            st.workers,
            ap used (take-set x x p.shm.slots minus_one (omega arith)),
            h,
          )),
      record {
        length_kept =
            ap length st.slots
            ∙ length-set freed st.at st.value
            ∙ length-set p.shm.slots x minus_one;
        signals_kept = st.signals;
      },
    )

remove_stale_gone :
    (alive : ℕ → Bool) (restart : Bool) (x : ℕ) (p : Pool) (s : ℤ)
    → get_elem? p.shm.slots x ≡ some s
    → Counted x p
    → (not (eq_ℤ s minus_one) && not (pid_alive alive s)) ≡ true
    → (q : Pool) × (remove_stale alive restart x s p ≡ some q) × Counted x q × Kept p q
unfolding remove_stale
remove_stale_gone alive false x p s at h gone = (
  with_slots p (set p.shm.slots x minus_one),
  rw gone,
  omega (arith, ap used (take-set x x p.shm.slots minus_one (omega arith)), h),
  record { length_kept = length-set p.shm.slots x minus_one; signals_kept = refl },
)
remove_stale_gone alive true x p s at h gone =
    let (q, e, c, k) = replaced x p s at h in
    (
      record q { current_number_of_workers = suc q.current_number_of_workers },
      rw (gone, e),
      c,
      record { length_kept = k.length_kept; signals_kept = k.signals_kept },
    )

remove_stale_lem :
    (alive : ℕ → Bool) (restart : Bool) (x : ℕ) (p : Pool) (s : ℤ)
    → get_elem? p.shm.slots x ≡ some s
    → Counted x p
    → (q : Pool) × (remove_stale alive restart x s p ≡ some q) × Counted x q × Kept p q
unfolding remove_stale
remove_stale_lem alive restart x p s at h =
    elim (Bool-cases (not (eq_ℤ s minus_one) && not (pid_alive alive s))) [
      | inr fine ↦ (p, rw fine, h, record { length_kept = refl; signals_kept = refl })
      | inl gone ↦ remove_stale_gone alive restart x p s at h gone
    ]

count_slot_lem :
    (x : ℕ) (p : Pool)
    → x < length p.shm.slots
    → Counted x p
    → Counted (suc x) (count_slot (get_elem? p.shm.slots x) p)
      × Kept p (count_slot (get_elem? p.shm.slots x) p)
unfolding count_slot
count_slot_lem x p inside h =
    let (s, at) = get_elem?-lt x p.shm.slots inside in
    rw at (
      ground (
        arith,
        h,
        ap used (take-suc x p.shm.slots s at),
        used-append (take x p.shm.slots) (s ∷ []),
      ),
      record { length_kept = refl; signals_kept = refl },
    )

Kept-trans : {p q r : Pool} → Kept p q → Kept q r → Kept p r
Kept-trans k l = record {
  length_kept = l.length_kept ∙ k.length_kept;
  signals_kept = l.signals_kept ∙ k.signals_kept;
}

count_loop_lem :
    (alive : ℕ → Bool) (restart : Bool) (n x : ℕ) (p : Pool)
    → x + n ≡ length p.shm.slots
    → Counted x p
    → (q : Pool) × (count_loop alive restart n x p ≡ some q)
      × Counted (length q.shm.slots) q
      × Kept p q
unfolding count_loop
count_loop_lem alive restart zero x p e h = (
  p,
  refl,
  subst (λ n. Counted n p) (omega arith) h,
  record { length_kept = refl; signals_kept = refl },
)
count_loop_lem alive restart (suc n) x p e h =
    let (s, at) = get_elem?-lt x p.shm.slots (omega arith) in
    let (q, removed, c, k) = remove_stale_lem alive restart x p s at h in
    let (c', k') = count_slot_lem x q (omega (arith, k.length_kept)) c in
    let (r, rest, done, k'') =
      count_loop_lem alive restart n (suc x) (count_slot (get_elem? q.shm.slots x) q)
        (omega (arith, k.length_kept, k'.length_kept)) c' in
    (r, rw (at, removed, count_loop) rest, done, Kept-trans (Kept-trans k k') k'')

start_slots : (alive : ℕ → Bool) (p : Pool) → (start_count alive p).shm.slots ≡ p.shm.slots
start_slots alive p = ground arith

start_signals : (alive : ℕ → Bool) (p : Pool) → (start_count alive p).signals ≡ p.signals
start_signals alive p = ground arith

-- Counting never leaves the process, with or without restarting the workers that are gone; it keeps
-- the number of slots and sends no signal. No slot in use is left out of the count that it publishes.
pub count_current_worker_lem :
    (alive : ℕ → Bool) (restart : Bool) (p : Pool)
    → (q : Pool) × (count_current_worker alive restart p ≡ some q)
      × (used q.shm.slots ≤ q.current_number_of_workers)
      × (q.shm.worker_total ≡ q.current_number_of_workers)
      × (q.shm.worker_running ≡ q.current_number_of_jobs)
      × (length q.shm.slots ≡ length p.shm.slots)
      × (q.signals ≡ p.signals)
unfolding count_current_worker
count_current_worker_lem alive restart p =
    let start = start_count alive p in
    let same : start.shm.slots ≡ p.shm.slots = start_slots alive p in
    let (q, e, c, k) =
      count_loop_lem alive restart (length p.shm.slots) 0 start (omega (arith, ap length same))
        (omega arith) in
    (
      publish q,
      rw (e, count_current_worker),
      omega (arith, c, ap used (take_all q.shm.slots)),
      refl,
      refl,
      k.length_kept ∙ ap length same,
      k.signals_kept ∙ start_signals alive p,
    )
