-- ===== src/Pool/Ownership.antt =====
-- Who owns a slot of the pool, over all orders of steps of worker/worker.c and
-- worker/worker_client.c.
use mathlib.Core.Path.{subst}
use mod_gearman.Common.{
  ℕ, zero, suc, Bool, true, false, not, ◌&&◌, ◌==◌, List, [], ◌∷◌, Option, some, length, get_elem?,
  set, get_elem?-set_self, get_elem?-set_ne, lt-length_of_some, ◌≡◌, ◌≢◌, ◌≤◌, ◌<◌, ◌⊎◌, inl, inr,
  ap, sym, ◌∙◌, arith, Bool-cases,
}
use mod_gearman.Common.Int.{ℤ, abs, eq_ℤ, minus_one, neg_ℕ}
use mod_gearman.Pool.{
  Pool, Shm, Signal, sigkill, sigint, with_slots, remove_stale, pid_alive, save_kill,
}
use mod_gearman.Pool.Population.{restart_all, kill_all}
use mod_gearman.Pool.Worker.{clean_slot, is_ours}
use mod_gearman.Pool.System.{client, gone, born, survivors, is_killed}

-- Every worker that runs has its own pid, with either sign, in the slot that it was given.
abbrev pub Owns : List ℤ → (ℕ → Option ℕ) → Type 0
Owns slots live =
    (pid x : ℕ)
    → live pid ≡ some x
    → (2 ≤ pid) × (s : ℤ) × (get_elem? slots x ≡ some s) × (abs s ≡ pid)

pub some_inj : {A : Type 0} {a b : A} → some a ≡ some b → a ≡ b
some_inj h = cc h

same_or_not : (x y : ℕ) → (y ≡ x) ⊎ (y ≢ x)
same_or_not x y = elim (Bool-cases (y == x)) [
  | inl e ↦ inl (ground (arith, e))
  | inr e ↦ inr (ground (arith, e))
]

Owns-write :
    (slots : List ℤ) (live after : ℕ → Option ℕ) (x : ℕ) (v : ℤ)
    → Owns slots live
    → x < length slots
    → ((pid y : ℕ)
        → after pid ≡ some y
        → (2 ≤ pid) × (((y ≡ x) × (abs v ≡ pid)) ⊎ ((y ≢ x) × (live pid ≡ some y))))
    → Owns (set slots x v) after
Owns-write slots live after x v o inside h pid y l =
    let (big, how) = h pid y l in
    elim how [
      | inl (here, mine) ↦ (big, v, rw here (get_elem?-set_self slots x v inside), mine)
      | inr (there, before) ↦
          let (_, s, at, mine) = o pid y before in
          (big, s, get_elem?-set_ne slots v (λ e. there (sym e)) ∙ at, mine)
    ]

-- A worker writes its pid with either sign.
pub Owns-own :
    (slots : List ℤ) (live : ℕ → Option ℕ) (pid x : ℕ) (v : ℤ)
    → Owns slots live
    → live pid ≡ some x
    → abs v ≡ pid
    → Owns (set slots x v) live
Owns-own slots live pid x v o l mine =
    let (_, s, at, e) = o pid x l in
    Owns-write slots live live x v o (lt-length_of_some slots x at) (λ q y h.
      let (big, t, at', e') = o q y h in
      (
        big,
        elim (same_or_not x y) [
          | inl same ↦ inl (
            same,
            mine ∙ sym e ∙ ap abs (some_inj (sym at ∙ sym (ap (get_elem? slots) same) ∙ at')) ∙ e',
          )
          | inr other ↦ inr (other, h)
        ],
      ))

pub Owns-free :
    (slots : List ℤ) (live : ℕ → Option ℕ) (x : ℕ) (v : ℤ)
    → Owns slots live
    → x < length slots
    → ((pid : ℕ) → live pid ≢ some x)
    → Owns (set slots x v) live
Owns-free slots live x v o inside h = Owns-write slots live live x v o inside (λ q y l. (
  (o q y l).0,
  elim (same_or_not x y) [
    | inl same ↦ absurd (h q (l ∙ ap some same))
    | inr other ↦ inr (other, l)
  ],
))

pub Owns-less :
    (slots : List ℤ) (live after : ℕ → Option ℕ)
    → Owns slots live
    → ((pid y : ℕ) → after pid ≡ some y → live pid ≡ some y)
    → Owns slots after
Owns-less slots live after o h pid y l = o pid y (h pid y l)

-- Two workers do not share a slot.
pub alone :
    (slots : List ℤ) (live : ℕ → Option ℕ) (p q x : ℕ)
    → Owns slots live
    → live p ≡ some x
    → live q ≡ some x
    → p ≡ q
alone slots live p q x o l m =
    let (_, s, at, e) = o p x l in
    let (_, t, at', e') = o q x m in sym e ∙ ap abs (some_inj (sym at ∙ at')) ∙ e'

pub gone_before :
    (pid : ℕ) (live : ℕ → Option ℕ) (q y : ℕ)
    → gone pid live q ≡ some y
    → (live q ≡ some y) × (q ≢ pid)
gone_before pid live q y h = elim (Bool-cases (q == pid)) [
  | inl e ↦ absurd (ground (arith, h, e))
  | inr e ↦ (ground (arith, h, e), ground (arith, e))
]

pub clean_Owns :
    (attach : Bool) (pid x : ℕ) (shm : Shm) (live : ℕ → Option ℕ)
    → Owns shm.slots live
    → live pid ≡ some x
    → Owns (clean_slot attach (client pid x) shm).slots (gone pid live)
unfolding clean_slot
clean_Owns attach pid x shm live o l =
    let less =
      Owns-less shm.slots live (gone pid live) o (λ q y h. (gone_before pid live q y h).0) in
    let (_, s, at, e) = o pid x l in
    let freed =
      Owns-free shm.slots (gone pid live) x minus_one less (lt-length_of_some shm.slots x at)
        (λ q m.
          let (before, other) = gone_before pid live q x m in
          other (alone shm.slots live q pid x o before l)) in
    elim (Bool-cases attach) [
      | inr failed ↦ rw failed less
      | inl done ↦ elim (Bool-cases (is_ours (client pid x) shm)) [
        | inl ours ↦ rw (done, ours) freed
        | inr not_ours ↦ rw (done, not_ours) less
      ]
    ]

pub no_owner :
    (slots : List ℤ) (live : ℕ → Option ℕ) (x : ℕ) (s : ℤ)
    → Owns slots live
    → get_elem? slots x ≡ some s
    → ((pid : ℕ) → 2 ≤ pid → abs s ≡ pid → ¬ (live pid ≡ some x))
    → (pid : ℕ) → live pid ≢ some x
no_owner slots live x s o at h pid l =
    let (big, t, at', e) = o pid x l in h pid big (ap abs (some_inj (sym at ∙ at')) ∙ e) l

pub free_no_owner :
    (slots : List ℤ) (live : ℕ → Option ℕ) (x : ℕ)
    → Owns slots live
    → get_elem? slots x ≡ some minus_one
    → (pid : ℕ) → live pid ≢ some x
free_no_owner slots live x o at = no_owner slots live x minus_one o at (λ pid big e _. omega arith)

pub fork_Owns :
    (slots : List ℤ) (live : ℕ → Option ℕ) (pid x : ℕ)
    → Owns slots live
    → get_elem? slots x ≡ some minus_one
    → 2 ≤ pid
    → Owns (set slots x (neg_ℕ pid)) (born pid x live)
fork_Owns slots live pid x o free big =
    Owns-write slots live (born pid x live) x (neg_ℕ pid) o (lt-length_of_some slots x free)
      (λ q y h. elim (Bool-cases (q == pid)) [
        | inl e ↦ (ground (arith, big, e), inl (ground (arith, h, e), ground (arith, big, e)))
        | inr e ↦
            let before : live q ≡ some y = ground (arith, h, e) in
            (
              (o q y before).0,
              inr ((λ same. free_no_owner slots live x o free q (before ∙ ap some same)), before),
            )
      ])

kept_pool :
    (alive : ℕ → Bool) (x : ℕ) (v : ℤ) (p : Pool)
    → (not (eq_ℤ v minus_one) && not (pid_alive alive v)) ≡ false
    → remove_stale alive false x v p ≡ some p
unfolding remove_stale
kept_pool alive x v p h = rw h

freed_pool :
    (alive : ℕ → Bool) (x : ℕ) (v : ℤ) (p : Pool)
    → (not (eq_ℤ v minus_one) && not (pid_alive alive v)) ≡ true
    → remove_stale alive false x v p ≡ some (with_slots p (set p.shm.slots x minus_one))
unfolding remove_stale
freed_pool alive x v p h = rw h

dead_pid :
    (alive : ℕ → Bool) (v : ℤ)
    → (not (eq_ℤ v minus_one) && not (pid_alive alive v)) ≡ true
    → 2 ≤ abs v
    → alive (abs v) ≡ false
unfolding pid_alive
dead_pid alive v h big = ground arith

pub frees_Owns :
    (p q : Pool) (live : ℕ → Option ℕ) (alive : ℕ → Bool) (x : ℕ) (v : ℤ)
    → Owns p.shm.slots live
    → ((pid y : ℕ) → live pid ≡ some y → alive pid ≡ true)
    → get_elem? p.shm.slots x ≡ some v
    → remove_stale alive false x v p ≡ some q
    → Owns q.shm.slots live
frees_Owns p q live alive x v o runs at e =
    elim (Bool-cases (not (eq_ℤ v minus_one) && not (pid_alive alive v))) [
      | inr fine ↦
          subst (λ r. Owns r.shm.slots live) (some_inj (sym (kept_pool alive x v p fine) ∙ e)) o
      | inl stale ↦
          subst (λ r. Owns r.shm.slots live) (some_inj (sym (freed_pool alive x v p stale) ∙ e))
            (Owns-free p.shm.slots live x minus_one o (lt-length_of_some p.shm.slots x at) (
              no_owner p.shm.slots live x v o at (λ pid big e' l.
                let dead = dead_pid alive v stale (omega (arith, big, e')) in
                absurd (ground (arith, runs pid x l, dead, ap alive e')))))
    ]

killed_later :
    (pid : ℕ) (sig : Signal) (slots : List ℤ) (sent : List (ℕ × Signal))
    → is_killed pid sent ≡ true
    → is_killed pid (kill_all sig slots sent) ≡ true
unfolding kill_all save_kill
killed_later pid sig [] sent h = h
killed_later pid sig (s ∷ slots) sent h =
    killed_later pid sig slots (save_kill s sig sent) (ground arith)

kill_all_reaches :
    (pid x : ℕ) (s : ℤ) (slots : List ℤ) (sent : List (ℕ × Signal))
    → get_elem? slots x ≡ some s
    → 2 ≤ pid
    → abs s ≡ pid
    → is_killed pid (kill_all sigkill slots sent) ≡ true
unfolding kill_all save_kill
kill_all_reaches pid x s [] sent at big e = cc at
kill_all_reaches pid zero s (t ∷ slots) sent at big e =
    killed_later pid sigkill slots (save_kill t sigkill sent) (ground arith)
kill_all_reaches pid (suc x) s (t ∷ slots) sent at big e =
    kill_all_reaches pid x s slots (save_kill t sigkill sent) at big e

pub restart_Owns :
    (p : Pool) (live : ℕ → Option ℕ) (now : ℕ)
    → Owns p.shm.slots live
    → Owns
        (restart_all now (λ slots. slots) p).shm.slots
        (survivors (restart_all now (λ slots. slots) p).signals live)
unfolding restart_all
restart_Owns p live now o pid x h =
    let sent = kill_all sigkill p.shm.slots (kill_all sigint p.shm.slots p.signals) in
    elim (Bool-cases (is_killed pid sent)) [
      | inl dead ↦ absurd (ground (arith, h, dead))
      | inr lives ↦
          let (big, s, at, e) = o pid x (ground (arith, h, lives)) in
          let dead =
            kill_all_reaches pid x s p.shm.slots (kill_all sigint p.shm.slots p.signals) at big e in
          absurd (ground (arith, dead, lives))
    ]
