-- ===== src/Text/Replace/Newlines.antt =====
-- The result queue's line breaks: the worker writes a plugin's output by `gm_escape_newlines`
-- (common/utils.c), and the result thread (neb_module_naemon/result_thread.c) turns `\n` back by
-- `replace_str(value, "\\n", "\n")`.
use native.Mathlib.Nat.{suc-add, zero-add}
use mod_gearman.Common.{
  ℕ, zero, suc, Bytes, true, false, ◌==◌, if◌then◌else◌, [], ◌∷◌, ◌++◌, Option, none, some, length,
  take, drop, ◌+◌, ◌≡◌, ◌≢◌, ◌<◌, ◌≤◌, ◌↔◌, refl, ap, arith, Lacks, Bool-cases, ==_iff, inl, inr,
}
use mod_gearman.Text.Escape.{newline, backslash, escape_newlines_loop}
use mod_gearman.Text.Replace.{is_prefix, strstr, copy_loop, replace_str}
use mod_gearman.Text.Replace.Laws.{replace_copies}

-- `"\\n"` and `"\n"` of the C source.
abbrev pub escaped_newline : Bytes
escaped_newline = backslash ∷ b'n' ∷ []

-- What copying does to a text, byte by byte.
unfold_newlines : Bytes → Bytes
unfold_newlines [] = []
unfold_newlines (c ∷ []) = c ∷ []
unfold_newlines (c ∷ (d ∷ s)) =
    let two = newline ∷ unfold_newlines s in
    let one = c ∷ unfold_newlines (d ∷ s) in
    if c == backslash then (if d == b'n' then two else one) else one

abbrev prepend : Bytes → Option Bytes → Option Bytes
prepend x r = elim r [ none ↦ none | some t ↦ some (x ++ t) ]

abbrev shift : Option ℕ → Option ℕ
shift r = elim r [ none ↦ none | some l ↦ some (suc l) ]

strstr_skip :
    (old : Bytes) (c : ℕ) (p : Bytes)
    → is_prefix old (c ∷ p) ≡ false
    → strstr (c ∷ p) old ≡ shift (strstr p old)
unfolding strstr
strstr_skip old c p h = rw h

strstr_hit : (old p : Bytes) → is_prefix old p ≡ true → strstr p old ≡ some 0
unfolding strstr
strstr_hit old [] h = rw h
strstr_hit old (c ∷ p) h = rw h

regroup :
    (c l : ℕ) (p new : Bytes) (r : Option Bytes)
    → elim r [ none ↦ none | some rest ↦ some (c ∷ (take l p ++ (new ++ rest))) ]
      ≡ prepend (c ∷ []) (elim r [ none ↦ none | some rest ↦ some (take l p ++ (new ++ rest)) ])
regroup c l p new none = refl
regroup c l p new (some rest) = refl

-- Copying goes byte by byte: a byte at which `old` does not start is copied.
module _ (fuel : ℕ) (old new : Bytes) where
  copy_skip :
      (c : ℕ) (p : Bytes)
      → is_prefix old (c ∷ p) ≡ false
      → copy_loop (suc fuel) old new (c ∷ p) ≡ prepend (c ∷ []) (copy_loop (suc fuel) old new p)
  unfolding copy_loop
  copy_skip c p h = go (strstr p old) refl
    where
      go :
          (r : Option ℕ)
          → strstr p old ≡ r
          → copy_loop (suc fuel) old new (c ∷ p) ≡ prepend (c ∷ []) (copy_loop (suc fuel) old new p)
      go none e = rw (strstr_skip old c p h, e, copy_loop)
      go (some l) e =
          rw (strstr_skip old c p h, e, copy_loop)
            (rw suc-add (regroup c l p new (copy_loop fuel old new (drop (l + length old) p))))

  copy_hit :
      (p : Bytes)
      → is_prefix old p ≡ true
      → copy_loop (suc fuel) old new p ≡ prepend new (copy_loop fuel old new (drop (length old) p))
  unfolding copy_loop
  copy_hit p h = rw (strstr_hit old p h, copy_loop) (rw zero-add)

abbrev copy : ℕ → Bytes → Option Bytes
copy fuel = copy_loop fuel escaped_newline (newline ∷ [])

copy_lem : (fuel : ℕ) (p : Bytes) → length p < fuel → copy fuel p ≡ some (unfold_newlines p)
unfolding unfold_newlines is_prefix
copy_lem zero p h = elim h [ ]
copy_lem (suc f) [] h = unfold copy_loop strstr in refl
copy_lem (suc f) (c ∷ []) h = unfold copy_loop strstr in ground arith
copy_lem (suc f) (c ∷ (d ∷ s)) h = elim (Bool-cases (is_prefix escaped_newline (c ∷ d ∷ s))) [
  | inl hit ↦
      rw (copy_hit f escaped_newline (newline ∷ []) (c ∷ d ∷ s) hit)
        (ground (arith, copy_lem f s (omega arith)))
  | inr skip ↦
      rw
        (
          copy_skip f escaped_newline (newline ∷ []) c (d ∷ s) skip,
          copy_lem (suc f) (d ∷ s) (omega arith),
        )
        (ground arith)
]

unfold_newlines-cons :
    (c : ℕ) (r : Bytes) → c ≢ backslash → unfold_newlines (c ∷ r) ≡ c ∷ unfold_newlines r
unfolding unfold_newlines
unfold_newlines-cons c [] h = refl
unfold_newlines-cons c (d ∷ r) h = ground arith

length-unfold_newlines-cons :
    (r : Bytes) → length (unfold_newlines r) ≤ length (unfold_newlines (backslash ∷ r))
length-unfold_newlines-cons [] = unfold unfold_newlines in omega arith
length-unfold_newlines-cons (d ∷ r) =
    unfold unfold_newlines in ground (arith, unfold_newlines-cons d r)

-- The two escape sequences.
unfold_newlines-escape :
    (r : Bytes)
    → unfold_newlines (backslash ∷ (backslash ∷ r)) ≡ backslash ∷ unfold_newlines (backslash ∷ r)
unfolding unfold_newlines
unfold_newlines-escape r = refl

unfold_newlines-n :
    (r : Bytes) → unfold_newlines (backslash ∷ (b'n' ∷ r)) ≡ newline ∷ unfold_newlines r
unfolding unfold_newlines
unfold_newlines-n r = refl

-- The round trip of a text.
abbrev sent : Bytes → Bytes
sent s = unfold_newlines (escape_newlines_loop s)

length-sent : (s : Bytes) → length s ≤ length (sent s)
unfolding escape_newlines_loop
length-sent [] = omega arith
length-sent (c ∷ s) =
    let t = escape_newlines_loop s in
    ground (
      arith,
      length-sent s,
      length-unfold_newlines-cons t,
      unfold_newlines-cons c t,
      unfold_newlines-escape t,
      unfold_newlines-n t,
    )

-- A backslash is doubled, and only `n` behind it is read as part of an escape.
swollen : (s : Bytes) → unfold_newlines (backslash ∷ escape_newlines_loop s) ≢ s
swollen [] h = unfold unfold_newlines escape_newlines_loop in cc h
swollen (c ∷ s) h =
    unfold unfold_newlines escape_newlines_loop in
    ground
      (arith, h, ap length h, length-sent s, length-unfold_newlines-cons (escape_newlines_loop s))

sent-cons : (c : ℕ) (s : Bytes) → c ≢ backslash → sent (c ∷ s) ≡ c ∷ sent s
unfolding escape_newlines_loop
sent-cons c s h =
    let t = escape_newlines_loop s in ground (arith, unfold_newlines-cons c t, unfold_newlines-n t)

sent-backslash :
    (s : Bytes)
    → sent (backslash ∷ s) ≡ backslash ∷ unfold_newlines (backslash ∷ escape_newlines_loop s)
unfolding escape_newlines_loop unfold_newlines
sent-backslash s = refl

sent_iff : (s : Bytes) → (sent s ≡ s) ↔ Lacks backslash s
sent_iff [] = (λ _. tt, λ _. unfold unfold_newlines escape_newlines_loop in refl)
sent_iff (c ∷ s) = elim (Bool-cases (c == backslash)) [
  | inl eq ↦
      let e : c ≡ backslash = (==_iff c backslash).0 eq in
      rw (e, sent-backslash s) (λ h. absurd (swollen s (cc h)), λ (ne, _). absurd (ne refl))
  | inr other ↦
      let ne : c ≢ backslash = ground arith in
      rw (sent-cons c s ne)
        (λ h. (ne, (sent_iff s).0 (cc h)), λ (_, l). ap (λ t. c ∷ t) ((sent_iff s).1 l))
]

-- The worker's escape and the result thread's replacement give a plugin's output back exactly if it
-- holds no backslash.
pub newlines_round_trip :
    (s : Bytes)
    → (size : ℕ) × (ret : Bytes) × (replace_str
          (escape_newlines_loop s)
          escaped_newline
          (newline ∷ [])
        ≡ some (record { retlen = size; ret = ret }))
      × ((ret ≡ s) ↔ Lacks backslash s)
newlines_round_trip s =
    let t = escape_newlines_loop s in
    let (n, e) =
      replace_copies t escaped_newline (newline ∷ []) (omega arith)
        (copy_lem (suc (length t)) t (omega arith)) in
    (n, sent s, e, sent_iff s)
