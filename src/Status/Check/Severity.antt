-- ===== src/Status/Check/Severity.antt =====
-- The exit code of `check_server` of tools/check_gearman.c.
use mod_gearman.Common.{
  Bytes, Bool, true, false, if◌then◌else◌, List, [], ◌∷◌, ◌++◌, Option, none, some, All, ap, ◌==◌,
  ◌≤◌, ◌<◌, ◌≡◌, ◌⊎◌, inl, inr, refl, sym, arith, if_both,
}
use mathlib.Core.Path.{subst}
use mod_gearman.Common.Int.{pos}
use mod_gearman.Status.{Function, State, ok, warning}
use mod_gearman.Status.Check.{
  Options, Tally, is_selected, problem, counted, with_problem, check_functions, not_found, tally,
}

-- The last queue with a problem that is looked at.
pub record LastProblem (opt : Options) (fs : List Function) (code : State) : Type 0 where
  pub before : List Function
  pub queue : Function
  pub behind : List Function
  pub text : Bytes
  pub splits : fs ≡ before ++ queue ∷ behind
  pub selected : is_selected opt.queue queue.queue ≡ true
  pub has_problem : problem opt queue ≡ some (code, text)
  pub quiet : All (λ f. is_selected opt.queue f.queue ≡ true → problem opt f ≡ none) behind

module _ (opt : Options) where
  -- A queue that is not looked at, or without a problem.
  abbrev pub Quiet : Function → Type 0
  Quiet f = is_selected opt.queue f.queue ≡ true → problem opt f ≡ none

  abbrev after : Function → Tally → Tally
  after f t =
      if is_selected opt.queue f.queue then with_problem (problem opt f) (counted f t) else t

  -- The state that the loop leaves.
  abbrev Ends : List Function → State → State → Type 0
  Ends fs before code = (All Quiet fs × (code ≡ before)) ⊎ LastProblem opt fs code

  LastProblem-cons :
      (f : Function) (fs : List Function) (code : State)
      → LastProblem opt fs code
      → LastProblem opt (f ∷ fs) code
  LastProblem-cons f fs code p = record {
    before = f ∷ p.before;
    queue = p.queue;
    behind = p.behind;
    text = p.text;
    splits = ap (λ gs. f ∷ gs) p.splits;
    selected = p.selected;
    has_problem = p.has_problem;
    quiet = p.quiet;
  }

  with_problem-Ends :
      (f : Function) (fs : List Function) (t : Tally) (o : Option (State × Bytes))
      → is_selected opt.queue f.queue ≡ true
      → problem opt f ≡ o
      → All Quiet fs
      → Ends (f ∷ fs) t.rc (with_problem o (counted f t)).rc
  with_problem-Ends f fs t none s e q = inl ((λ _. e, q), refl)
  with_problem-Ends f fs t (some (rc, text)) s e q = inr (record {
    before = [];
    queue = f;
    behind = fs;
    text = text;
    splits = refl;
    selected = s;
    has_problem = e;
    quiet = q;
  })

  after-Ends :
      (f : Function) (fs : List Function) (t : Tally)
      → All Quiet fs
      → Ends (f ∷ fs) t.rc (after f t).rc
  after-Ends f fs t q =
      if_both (λ (u : Tally). Ends (f ∷ fs) t.rc u.rc) (is_selected opt.queue f.queue)
        (λ s. with_problem-Ends f fs t (problem opt f) s refl q)
        (λ other. inl ((λ yes. cc (other, yes), q), refl))

  check_functions-Ends :
      (fs : List Function) (t : Tally) → Ends fs t.rc (check_functions opt fs t).rc
  unfolding check_functions
  check_functions-Ends [] t = inl (tt, refl)
  check_functions-Ends (f ∷ fs) t = elim (check_functions-Ends fs (after f t)) [
    | inl (q, e) ↦ subst (Ends (f ∷ fs) t.rc) (sym e) (after-Ends f fs t q)
    | inr p ↦ inr (LastProblem-cons f fs _ p)
  ]

  with_problem-checked :
      (o : Option (State × Bytes)) (t : Tally) → (with_problem o t).checked ≡ t.checked
  with_problem-checked none t = refl
  with_problem-checked (some (rc, text)) t = refl

  after_checked :
      (f : Function) (t : Tally)
      → ((is_selected opt.queue f.queue ≡ false) ⊎ (0 < (after f t).checked))
        × (t.checked ≤ (after f t).checked)
  after_checked f t =
      let e = with_problem-checked (problem opt f) (counted f t) in
      if_both
        (λ (u : Tally).
          ((is_selected opt.queue f.queue ≡ false) ⊎ (0 < u.checked)) × (t.checked ≤ u.checked))
        (is_selected opt.queue f.queue) (λ _. (inr (omega (arith, e)), omega (arith, e)))
        (λ other. (inl other, omega arith))

  checked_grows : (fs : List Function) (t : Tally) → t.checked ≤ (check_functions opt fs t).checked
  unfolding check_functions
  checked_grows [] t = omega arith
  checked_grows (f ∷ fs) t =
      let (_, h) = after_checked f t in omega (arith, h, checked_grows fs (after f t))

  abbrev pub Skipped : Function → Type 0
  Skipped f = is_selected opt.queue f.queue ≡ false

  unchecked-Skipped :
      (fs : List Function) (t : Tally) → (check_functions opt fs t).checked ≡ 0 → All Skipped fs
  unfolding check_functions
  unchecked-Skipped [] t e = tt
  unchecked-Skipped (f ∷ fs) t e = elim (after_checked f t).0 [
    | inl other ↦ (other, unchecked-Skipped fs (after f t) e)
    | inr h ↦ absurd (omega (arith, e, h, checked_grows fs (after f t)))
  ]

  -- The exit code: no problem, the last problem, or a queue that is asked for and not there.
  abbrev pub Code : List Function → State → Type 0
  Code fs code =
      Ends fs ok code ⊎ ((q : Bytes) × (opt.queue ≡ some q) × All Skipped fs × (code ≡ warning))

  not_found-Code :
      (o : Option Bytes) (fs : List Function) (t : Tally)
      → opt.queue ≡ o
      → (t.checked ≡ 0 → All Skipped fs)
      → Ends fs ok t.rc
      → Code fs (not_found o t).rc
  not_found-Code none fs t e s h = inl h
  not_found-Code (some q) fs t e s h =
      if_both (λ (u : Tally). Code fs u.rc) (t.checked == 0)
        (λ z. inr (q, e, s (ground (arith, z)), refl)) (λ _. inl h)

-- The exit code of the plugin, where the status could be asked for: OK if no queue that is looked at
-- has a problem; otherwise that of the last one with a problem, so that a warning takes the place of
-- a critical state before it; or a warning where the queue that is asked for is not there.
pub tally-Code :
    (opt : Options) (message version : Bytes) (is_valid : Bool) (fs : List Function)
    → Code opt fs
        (tally opt message
          (record { rc = ok; functions = fs; version = version; is_valid = is_valid })).rc
unfolding tally
tally-Code opt message version is_valid fs =
    let start : Tally = record {
      rc = ok;
      message = message;
      total_running = pos 0;
      total_waiting = pos 0;
      checked = 0;
    } in
    not_found-Code opt opt.queue fs (check_functions opt fs start) refl
      (unchecked-Skipped opt fs start) (check_functions-Ends opt fs start)
