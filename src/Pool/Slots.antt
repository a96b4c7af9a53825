-- ===== src/Pool/Slots.antt =====
-- The slots of worker/worker.c: reserving one, and how many are in use.
use mathlib.Core.Path.{subst}
use mod_gearman.Common.{
  ℕ, zero, suc, false, if◌then◌else◌, List, [], ◌∷◌, Option, none, some, length, get_elem?, set,
  take, ◌+◌, ◌-◌, ◌≡◌, ◌≤◌, ◌<◌, ◌⊎◌, inl, inr, refl, ap, arith, Bool-cases, Option-cases,
}
use mod_gearman.Common.Int.{ℤ, pos, eq_ℤ, eq_ℤ_iff, minus_one, neg_ℕ}
use mod_gearman.Pool.{
  Pool, with_slots, free_slot, get_next_shm_index, multi, fork_child, make_new_child,
}

abbrev pub weight : ℤ → ℕ
weight s = if eq_ℤ s minus_one then 0 else 1

-- How many slots are in use.
abbrev pub used : List ℤ → ℕ
used [] = 0
used (s ∷ slots) = weight s + used slots

-- The first free slot from index `x` on: those before it are in use.
pub record FirstFree (x y : ℕ) (slots : List ℤ) : Type 0 where
  pub from : x ≤ y
  pub free : get_elem? slots (y - x) ≡ some minus_one
  pub before : used (take (y - x) slots) ≡ y - x

free_slot-none : (x : ℕ) (slots : List ℤ) → free_slot x slots ≡ none → used slots ≡ length slots
unfolding free_slot
free_slot-none x [] h = refl
free_slot-none x (s ∷ slots) h = ground (arith, free_slot-none (suc x) slots)

FirstFree-suc :
    (x y : ℕ) (s : ℤ) (slots : List ℤ)
    → eq_ℤ s minus_one ≡ false
    → FirstFree (suc x) y slots
    → FirstFree x y (s ∷ slots)
FirstFree-suc x y s slots taken f =
    let e : y - x ≡ suc (y - suc x) = omega (arith, f.from) in
    record {
      from = omega (arith, f.from);
      free = rw e f.free;
      before = rw (e, taken) (omega (arith, f.before));
    }

free_slot-some : (x y : ℕ) (slots : List ℤ) → free_slot x slots ≡ some y → FirstFree x y slots
unfolding free_slot
free_slot-some x y [] h = cc h
free_slot-some x y (s ∷ slots) h = elim (Bool-cases (eq_ℤ s minus_one)) [
  | inl free ↦
      let e : y - x ≡ 0 = ground (arith, h, free) in
      record {
        from = ground (arith, h, free);
        free = rw e (ap some ((eq_ℤ_iff s minus_one).0 free));
        before = rw e;
      }
  | inr taken ↦
      FirstFree-suc x y s slots taken (free_slot-some (suc x) y slots (ground (arith, h, taken)))
]

pub used-le : (slots : List ℤ) → used slots ≤ length slots
used-le [] = omega arith
used-le (s ∷ slots) = ground (arith, used-le slots)

pub used-lt :
    (x : ℕ) (slots : List ℤ) → get_elem? slots x ≡ some minus_one → used slots < length slots
used-lt x [] h = cc h
used-lt zero (s ∷ slots) h = ground (arith, used-le slots)
used-lt (suc x) (s ∷ slots) h = ground (arith, used-lt x slots h)

-- A write changes the number of used slots by at most one.
pub used-take-set :
    (n x : ℕ) (slots : List ℤ) (v : ℤ) → used (take n (set slots x v)) ≤ used (take n slots) + 1
used-take-set n x [] v = omega arith
used-take-set zero x (s ∷ slots) v = ground arith
used-take-set (suc n) zero (s ∷ slots) v = ground arith
used-take-set (suc n) (suc x) (s ∷ slots) v = ground (arith, used-take-set n x slots v)

pub used-set : (x : ℕ) (slots : List ℤ) (v : ℤ) → used (set slots x v) ≤ used slots + 1
used-set x [] v = omega arith
used-set zero (s ∷ slots) v = ground arith
used-set (suc x) (s ∷ slots) v = ground (arith, used-set x slots v)

-- A write at or behind `n` leaves the first `n` slots alone.
pub take-set : (n x : ℕ) (slots : List ℤ) (v : ℤ) → n ≤ x → take n (set slots x v) ≡ take n slots
take-set n x [] v h = refl
take-set zero x (s ∷ slots) v h = refl
take-set (suc n) zero (s ∷ slots) v h = absurd (omega arith)
take-set (suc n) (suc x) (s ∷ slots) v h = ap (λ r. s ∷ r) (take-set n x slots v (omega arith))

pub set-set {ℓ} : {A : Type ℓ} (xs : List A) (i : ℕ) (v w : A) → set (set xs i v) i w ≡ set xs i w
set-set [] i v w = refl
set-set (x ∷ xs) zero v w = refl
set-set (x ∷ xs) (suc i) v w = ap (λ r. x ∷ r) (set-set xs i v w)

-- What is known of the slot that is handed out.
pub record Reserved (p q : Pool) (x : ℕ) : Type 0 where
  pub free : get_elem? p.shm.slots x ≡ some minus_one
  pub first : used (take x p.shm.slots) ≡ x
  pub slots : q ≡ with_slots p (set p.shm.slots x (pos 1))

Reserved_of_first :
    (p : Pool) (x : ℕ)
    → free_slot 0 p.shm.slots ≡ some x
    → Reserved p (with_slots p (set p.shm.slots x (pos 1))) x
Reserved_of_first p x e =
    let f = free_slot-some 0 x p.shm.slots e in
    let same : x - 0 ≡ x = omega arith in
    record {
      free = subst (λ i. get_elem? p.shm.slots i ≡ some minus_one) same f.free;
      first = subst (λ i. used (take i p.shm.slots) ≡ i) same f.before;
      slots = refl;
    }

-- `get_next_shm_index` leaves the process exactly if every slot is in use. It hands out the first
-- free slot, marks it by 1 and touches nothing else.
pub get_next_shm_index_lem :
    (p : Pool)
    → ((get_next_shm_index p ≡ none) × (used p.shm.slots ≡ length p.shm.slots))
      ⊎ ((q : Pool) × (x : ℕ) × (get_next_shm_index p ≡ some (q, x))
          × Reserved p q x
          × (used p.shm.slots < length p.shm.slots))
unfolding get_next_shm_index
get_next_shm_index_lem p = elim (Option-cases (free_slot 0 p.shm.slots)) [
  | inl e ↦ inl (rw (e, get_next_shm_index), free_slot-none 0 p.shm.slots e)
  | inr (x, e) ↦ inr (
    with_slots p (set p.shm.slots x (pos 1)),
    x,
    rw (e, get_next_shm_index),
    Reserved_of_first p x e,
    used-lt x p.shm.slots (Reserved_of_first p x e).free,
  )
]

-- What starting a worker changes.
pub record Started (p q : Pool) : Type 0 where
  pub at : ℕ
  pub value : ℤ
  pub free : get_elem? p.shm.slots at ≡ some minus_one
  pub slots : q.shm.slots ≡ set p.shm.slots at value
  pub workers : q.current_number_of_workers ≡ p.current_number_of_workers
  pub jobs : q.current_number_of_jobs ≡ p.current_number_of_jobs
  pub signals : q.signals ≡ p.signals
  pub status_pid : q.shm.status_worker_pid ≡ p.shm.status_worker_pid

fork_child-Started :
    (p : Pool) (x : ℕ) (forks : List (Option ℕ))
    → get_elem? p.shm.slots x ≡ some minus_one
    → Started p (fork_child multi x forks (with_slots p (set p.shm.slots x (pos 1))))
unfolding fork_child
fork_child-Started p x [] free = record {
  at = x;
  value = pos 1;
  free = free;
  slots = refl;
  workers = refl;
  jobs = refl;
  signals = refl;
  status_pid = refl;
}
fork_child-Started p x (none ∷ forks) free = record {
  at = x;
  value = pos 1;
  free = free;
  slots = refl;
  workers = refl;
  jobs = refl;
  signals = refl;
  status_pid = refl;
}
fork_child-Started p x (some pid ∷ forks) free = record {
  at = x;
  value = neg_ℕ pid;
  free = free;
  slots = set-set p.shm.slots x (pos 1) (neg_ℕ pid);
  workers = refl;
  jobs = refl;
  signals = refl;
  status_pid = refl;
}

-- A worker is started as long as a slot is free; it takes one slot, and a failed `fork` leaves the
-- mark of the reservation there.
pub make_new_child_lem :
    (p : Pool)
    → used p.shm.slots < length p.shm.slots
    → (q : Pool) × (make_new_child multi p ≡ some q) × Started p q
unfolding make_new_child
make_new_child_lem p h = elim (get_next_shm_index_lem p) [
  | inl (_, full) ↦ absurd (omega arith)
  | inr (r, x, e, reserved, _) ↦ (
    fork_child multi x r.forks r,
    rw (e, make_new_child),
    rw reserved.slots (fork_child-Started p x p.forks reserved.free),
  )
]
