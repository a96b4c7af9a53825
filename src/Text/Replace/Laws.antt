-- ===== src/Text/Replace/Laws.antt =====
-- `replace_str` of common/utils.c against a description of what it replaces.
use mathlib.Core.Path.{subst}
use mod_gearman.Common.{
  ℕ, zero, suc, Bytes, true, false, ◌==◌, [], ◌∷◌, ◌++◌, Option, none, some, length, drop,
  length-append, ◌+◌, ◌-◌, ◌*◌, ◌/◌, ◌%◌, ◌≡◌, ◌<◌, ◌≤◌, ◌↔◌, refl, sym, ap, arith, Bool-cases,
  ==_iff, inl, inr, append_assoc, take-append,
}
use mod_gearman.Text.Replace.{
  is_prefix, strstr, Count, count_loop, copy_loop, Replaced, size_max, buffer_size, ret_len,
  replace_str,
}

-- `old` stands in `p` behind `i` bytes.
abbrev pub OccursAt : Bytes → Bytes → ℕ → Type 0
OccursAt old p i = (pre : Bytes) × (rest : Bytes) × (p ≡ pre ++ (old ++ rest)) × (length pre ≡ i)

-- `out` is `p` with the occurrences of `old`, taken from the left, put as `new`.
pub data Substituted (old new : Bytes) : Bytes → Bytes → Type 0 where
  done : (p : Bytes) → ((i : ℕ) → ¬ OccursAt old p i) → Substituted old new p p
  next :
      (pre rest out : Bytes)
      → ((i : ℕ) → i < length pre → ¬ OccursAt old (pre ++ (old ++ rest)) i)
      → Substituted old new rest out
      → Substituted old new (pre ++ (old ++ rest)) (pre ++ (new ++ out))

pub is_prefix_iff :
    (old p : Bytes) → (is_prefix old p ≡ true) ↔ ((rest : Bytes) × (p ≡ old ++ rest))
unfolding is_prefix
is_prefix_iff [] p = (λ _. (p, refl), λ _. refl)
is_prefix_iff (o ∷ old) [] = (λ h. cc h, λ (rest, e). cc e)
is_prefix_iff (o ∷ old) (c ∷ p) = (
  λ h. ground (arith, (is_prefix_iff old p).0),
  λ (rest, e). ground (arith, (is_prefix_iff old p).1 (rest, cc)),
)

-- What a text begins with, it also begins with when it is longer.
pub is_prefix-append : (old p t : Bytes) → is_prefix old p ≡ true → is_prefix old (p ++ t) ≡ true
unfolding is_prefix
is_prefix-append [] p t h = refl
is_prefix-append (o ∷ old) [] t h = cc
is_prefix-append (o ∷ old) (c ∷ p) t h = ground (arith, is_prefix-append old p t)

OccursAt-start : (old p : Bytes) → OccursAt old p 0 → is_prefix old p ≡ true
OccursAt-start old p ([], rest, e, _) = (is_prefix_iff old p).1 (rest, e)
OccursAt-start old p (d ∷ pre, rest, e, h) = absurd (omega arith)

occurs_behind :
    (old : Bytes) (c : ℕ) (p : Bytes) (i : ℕ) → OccursAt old (c ∷ p) (suc i) → OccursAt old p i
occurs_behind old c p i ([], rest, e, h) = absurd (omega arith)
occurs_behind old c p i (d ∷ pre, rest, e, h) = (pre, rest, cc e, omega arith)

abbrev pub First : Bytes → Bytes → Option ℕ → Type 0
First old p none = (i : ℕ) → ¬ OccursAt old p i
First old p (some l) = OccursAt old p l × ((i : ℕ) → i < l → ¬ OccursAt old p i)

First-at_start : (old p : Bytes) → is_prefix old p ≡ true → First old p (some 0)
First-at_start old p h =
    let (rest, e) = (is_prefix_iff old p).0 h in (([], rest, e, refl), λ i lt _. elim lt [ ])

abbrev shift : Option ℕ → Option ℕ
shift r = elim r [ none ↦ none | some l ↦ some (suc l) ]

First-shift :
    (old : Bytes) (c : ℕ) (p : Bytes) (r : Option ℕ)
    → is_prefix old (c ∷ p) ≡ false
    → First old p r
    → First old (c ∷ p) (shift r)
First-shift old c p none h f = go
  where
    go : (i : ℕ) → ¬ OccursAt old (c ∷ p) i
    go zero o = cc (h, OccursAt-start old (c ∷ p) o)
    go (suc i) o = f i (occurs_behind old c p i o)
First-shift old c p (some l) h ((pre, rest, e, n), least) =
    ((c ∷ pre, rest, ap (λ t. c ∷ t) e, ap suc n), go)
  where
    go : (i : ℕ) → i < suc l → ¬ OccursAt old (c ∷ p) i
    go zero lt o = cc (h, OccursAt-start old (c ∷ p) o)
    go (suc i) lt o = least i (omega arith) (occurs_behind old c p i o)

First-of_nil : (old : Bytes) → is_prefix old [] ≡ false → First old [] none
First-of_nil old h i ([], rest, e, n) = cc (h, (is_prefix_iff old []).1 (rest, e))
First-of_nil old h i (d ∷ pre, rest, e, n) = cc e

-- `strstr` finds the first occurrence.
pub strstr_lem : (p old : Bytes) → First old p (strstr p old)
unfolding strstr
strstr_lem [] old = elim (Bool-cases (is_prefix old [])) [
  | inl h ↦ rw h (First-at_start old [] h)
  | inr h ↦ rw h (First-of_nil old h)
]
strstr_lem (c ∷ p) old = elim (Bool-cases (is_prefix old (c ∷ p))) [
  | inl h ↦ rw h (First-at_start old (c ∷ p) h)
  | inr h ↦ rw h (First-shift old c p (strstr p old) h (strstr_lem p old))
]

pub strstr_fits : (p old : Bytes) (l : ℕ) → strstr p old ≡ some l → l + length old ≤ length p
strstr_fits p old l e =
    let ((pre, rest, split, n), _) = subst (First old p) e (strstr_lem p old) in
    omega (arith, ap length split, n, length-append pre (old ++ rest), length-append old rest)

pub drop-append : (xs ys : Bytes) → drop (length xs) (xs ++ ys) ≡ ys
drop-append [] ys = refl
drop-append (x ∷ xs) ys = drop-append xs ys

drop_behind : (pre old rest : Bytes) → drop (length pre + length old) (pre ++ (old ++ rest)) ≡ rest
drop_behind pre old rest =
    rw (← length-append pre old, ← append_assoc pre old rest) (drop-append (pre ++ old) rest)

-- Both loops on the text `p`, the counter at `k`.
record Ran (fuel : ℕ) (old new : Bytes) (k : ℕ) (p : Bytes) : Type 0 where
  out : Bytes
  c : Count
  copied : copy_loop fuel old new p ≡ some out
  counted : count_loop fuel old k p ≡ some c
  substituted : Substituted old new p out
  balance :
      length out + c.count * length old + k * length new
      ≡ length p + c.count * length new + k * length old
  shrunk : length c.p ≤ length p

module _ (fuel : ℕ) (old new : Bytes) (k : ℕ) where
  Ran-done :
      (p : Bytes)
      → strstr p old ≡ none
      → ((i : ℕ) → ¬ OccursAt old p i)
      → Ran (suc fuel) old new k p
  unfolding copy_loop count_loop
  Ran-done p e f = record {
    out = p;
    c = record { count = k; p = p };
    copied = rw (e, copy_loop);
    counted = rw (e, count_loop);
    substituted = done p f;
    balance = omega arith;
    shrunk = omega arith;
  }

  Ran-next :
      (pre rest : Bytes)
      → strstr (pre ++ (old ++ rest)) old ≡ some (length pre)
      → ((i : ℕ) → i < length pre → ¬ OccursAt old (pre ++ (old ++ rest)) i)
      → Ran fuel old new (suc k) rest
      → Ran (suc fuel) old new k (pre ++ (old ++ rest))
  unfolding copy_loop count_loop
  Ran-next pre rest e least r = record {
    out = pre ++ (new ++ r.out);
    c = r.c;
    copied = rw (e, copy_loop, drop_behind pre old rest, r.copied, take-append pre (old ++ rest));
    counted = rw (e, count_loop, drop_behind pre old rest) r.counted;
    substituted = next pre rest r.out least r.substituted;
    balance = omega (arith, lengths new r.out, lengths old rest, r.balance);
    shrunk = omega (arith, lengths old rest, r.shrunk);
  }
    where
      lengths : (a b : Bytes) → length (pre ++ (a ++ b)) ≡ length pre + length a + length b
      lengths a b = omega (arith, length-append pre (a ++ b), length-append a b)

  Ran-step :
      (p : Bytes)
      → 0 < length old
      → length p < suc fuel
      → ((rest : Bytes) → length rest < fuel → Ran fuel old new (suc k) rest)
      → (r : Option ℕ) → strstr p old ≡ r
      → First old p r
      → Ran (suc fuel) old new k p
  Ran-step p pos h ih none e f = Ran-done p e f
  Ran-step p pos h ih (some l) e ((pre, rest, split, n), least) =
      let at : strstr (pre ++ (old ++ rest)) old ≡ some (length pre) = cc (e, split, n) in
      let before : (i : ℕ) → i < length pre → ¬ OccursAt old (pre ++ (old ++ rest)) i =
        λ i lt o. least i (rw (← n) lt) (subst (λ t. OccursAt old t i) (sym split) o) in
      let short : length rest < fuel =
        omega (arith, ap length split, length-append pre (old ++ rest), length-append old rest) in
      subst (Ran (suc fuel) old new k) (sym split) (Ran-next pre rest at before (ih rest short))

loops_lem :
    (fuel : ℕ) (old new : Bytes) (k : ℕ) (p : Bytes)
    → 0 < length old
    → length p < fuel
    → Ran fuel old new k p
loops_lem zero old new k p pos h = elim h [ ]
loops_lem (suc fuel) old new k p pos h =
    Ran-step fuel old new k p pos h (λ rest short. loops_lem fuel old new (suc k) rest pos short)
      (strstr p old) refl (strstr_lem p old)

-- The `size_t` arithmetic, in which `newlen - oldlen` may wrap around `q` times.
size_wraps :
    (l out n o m q x : ℕ)
    → size_max * q + x + o ≡ m + size_max
    → out + n * o ≡ l + n * m
    → (l + n * x) % size_max ≡ out % size_max
size_wraps l out n o m q x e h = omega (arith, ap (λ (t : ℕ). n * t) e)

size_lem :
    (l out n o m : ℕ)
    → o ≤ size_max
    → out + n * o ≡ l + n * m
    → (l + n * ((m + size_max - o) % size_max)) % size_max ≡ out % size_max
size_lem l out n o m fits e =
    size_wraps l out n o m ((m + size_max - o) / size_max) ((m + size_max - o) % size_max)
      (omega arith) e

ret_len_lem :
    (fuel : ℕ) (str old new : Bytes) (r : Ran fuel old new 0 str)
    → length old ≤ size_max
    → length str < size_max
    → (n : ℕ) × (ret_len fuel str old new ≡ some n) × (n ≡ length r.out % size_max)
unfolding ret_len buffer_size
ret_len_lem fuel str old new r fits short = elim (Bool-cases (length old == length new)) [
  | inl same ↦
      let e : length old ≡ length new = (==_iff (length old) (length new)).0 same in
      (length str, rw same, omega (arith, ap (λ (t : ℕ). r.c.count * t) e))
  | inr other ↦ (buffer_size str old new r.c, rw (other, r.counted), size r.c.p r.shrunk)
]
  where
    size :
        (p : Bytes)
        → length p ≤ length str
        → (length str
              - length p
              + length p
              + r.c.count * ((length new + size_max - length old) % size_max))
            % size_max
          ≡ length r.out % size_max
    size p h =
        let e : length str - length p + length p ≡ length str = omega arith in
        rw e (
          size_lem (length str) (length r.out) r.c.count (length old) (length new) fits
            (omega (arith, r.balance)))

replace_runs :
    (str old new : Bytes) {n : ℕ} {out : Bytes}
    → ret_len (suc (length str)) str old new ≡ some n
    → copy_loop (suc (length str)) old new str ≡ some out
    → replace_str str old new ≡ some (record { retlen = n; ret = out })
unfolding replace_str
replace_runs str old new e c = rw (e, c, replace_str)

ret_len-some :
    (fuel : ℕ) (str old new : Bytes)
    → Ran fuel old new 0 str
    → (n : ℕ) × (ret_len fuel str old new ≡ some n)
unfolding ret_len
ret_len-some fuel str old new r = elim (Bool-cases (length old == length new)) [
  | inl same ↦ (length str, rw same)
  | inr other ↦ (buffer_size str old new r.c, rw (other, r.counted))
]

-- The text that is returned is what the copying loop gives.
pub replace_copies :
    (str old new : Bytes) {out : Bytes}
    → 0 < length old
    → copy_loop (suc (length str)) old new str ≡ some out
    → (n : ℕ) × (replace_str str old new ≡ some (record { retlen = n; ret = out }))
replace_copies str old new pos c =
    let r = loops_lem (suc (length str)) old new 0 str pos (omega arith) in
    let (n, e) = ret_len-some (suc (length str)) str old new r in (n, replace_runs str old new e c)

-- The text that `replace_str` gives, without its size.
pub replace_substitutes :
    (str old new : Bytes)
    → 0 < length old
    → (n : ℕ) × (out : Bytes) × (replace_str str old new ≡ some (record { retlen = n; ret = out }))
      × Substituted old new str out
replace_substitutes str old new pos =
    let r = loops_lem (suc (length str)) old new 0 str pos (omega arith) in
    let (n, e) = ret_len-some (suc (length str)) str old new r in
    (n, r.out, replace_runs str old new e r.copied, r.substituted)

-- With a text that is not empty to look for, `replace_str` returns: what it copies is the text with
-- the occurrences replaced from the left, and the size that it allocates is the length of that, as
-- a `size_t`.
pub replace_str_lem :
    (str old new : Bytes)
    → 0 < length old
    → length old ≤ size_max
    → length str < size_max
    → (r : Replaced) × (replace_str str old new ≡ some r)
      × Substituted old new str r.ret
      × (r.retlen ≡ length r.ret % size_max)
replace_str_lem str old new pos fits short =
    let r = loops_lem (suc (length str)) old new 0 str pos (omega arith) in
    let (n, e, size) = ret_len_lem (suc (length str)) str old new r fits short in
    (record { retlen = n; ret = r.out }, replace_runs str old new e r.copied, r.substituted, size)
