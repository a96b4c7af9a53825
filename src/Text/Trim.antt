-- ===== src/Text/Trim.antt =====
-- What `ltrim`, `rtrim` and `trim` of common/utils.c return.
use mathlib.Core.Path.{subst}
use mathlib.Core.List.{concat-ne-nil}
use mod_gearman.Common.{
  ℕ, zero, suc, Bytes, true, false, Bool-cases, [], ◌∷◌, ◌++◌, Option, none, some, get_elem?,
  length, take, take-suc, take_all, get_elem?-lt, All, ◌≡◌, ◌≢◌, refl, sym, ap, arith, ◌⊎◌, inl,
  inr, append-nil, append_assoc, All-append, All-append_left, All-append_right, ◌↔◌, ◌≤◌, ◌∙◌,
  if◌then◌else◌,
}
use mod_gearman.Text.{isspace, ltrim, rtrim_back, rtrim, trim}

abbrev pub IsSpace : ℕ → Type 0
IsSpace c = isspace c ≡ true

-- Neither the first nor the last byte is a space.
pub record EndsInked (s : Bytes) : Type 0 where
  pub before : Bytes
  pub last : ℕ
  pub last_inked : isspace last ≡ false
  pub splits : s ≡ before ++ last ∷ []

abbrev pub StartsInked : Bytes → Type 0
StartsInked [] = ⊥
StartsInked (c ∷ s) = isspace c ≡ false

-- `mid` is `s` without the spaces at its two ends.
pub record TrimmedOf (s mid : Bytes) : Type 0 where
  pub front : Bytes
  pub back : Bytes
  pub splits : s ≡ front ++ (mid ++ back)
  pub front_spaces : All IsSpace front
  pub back_spaces : All IsSpace back
  pub inked : (mid ≡ []) ⊎ (StartsInked mid × EndsInked mid)

-- What the backward scan from offset `k` finds in the first `k` bytes.
record Scanned (t : Bytes) (r : Option Bytes) : Type 0 where
  mid : Bytes
  back : Bytes
  found : r ≡ some mid
  splits : t ≡ mid ++ back
  back_spaces : All IsSpace back
  inked : EndsInked mid

abbrev Scan : Bytes → Option Bytes → Type 0
Scan t r = Scanned t r ⊎ ((r ≡ none) × All IsSpace t)

-- One step of the scan: the byte at the end is dropped if it is a space.
Scan-step :
    (t : Bytes) (c : ℕ) (r : Option Bytes)
    → Scan t r
    → Scan (t ++ c ∷ []) (if isspace c then r else some (t ++ c ∷ []))
Scan-step t c r h = elim (Bool-cases (isspace c)) [
  | inr ink ↦ rw ink (
      inl (record {
        mid = t ++ c ∷ [];
        back = [];
        found = refl;
        splits = sym (append-nil (t ++ c ∷ []));
        back_spaces = tt;
        inked = record { before = t; last = c; last_inked = ink; splits = refl };
      }))
  | inl space ↦ rw space (elim h [
    | inl s ↦ inl (record {
      mid = s.mid;
      back = s.back ++ c ∷ [];
      found = s.found;
      splits = rw s.splits (append_assoc s.mid s.back (c ∷ []));
      back_spaces = All-append IsSpace s.back (c ∷ []) s.back_spaces (space, tt);
      inked = s.inked;
    })
    | inr (e, a) ↦ inr (e, All-append IsSpace t (c ∷ []) a (space, tt))
  ])
]

rtrim_back-Scan : (k : ℕ) (s : Bytes) → k ≤ length s → Scan (take k s) (rtrim_back k s)
unfolding rtrim_back
rtrim_back-Scan zero s h = inr (refl, tt)
rtrim_back-Scan (suc k) s h = step (get_elem?-lt k s h) (rtrim_back-Scan k s (omega arith))
  where
    step :
        (c : ℕ) × (get_elem? s k ≡ some c)
        → Scan (take k s) (rtrim_back k s)
        → Scan (take (suc k) s) (rtrim_back (suc k) s)
    step (c, at) ih = rw (at, rtrim_back, take-suc k s c at) (Scan-step _ c _ ih)

rtrim-Scan : (c : ℕ) (s : Bytes) → Scan (c ∷ s) (rtrim (c ∷ s))
unfolding rtrim
rtrim-Scan c s =
    subst (λ t. Scan t (rtrim (c ∷ s))) (take_all (c ∷ s))
      (rtrim_back-Scan (length (c ∷ s)) (c ∷ s) (omega arith))

-- A scan never fails behind a byte that is no space.
Scan-StartsInked : (t : Bytes) (r : Option Bytes) → StartsInked t → Scan t r → Scanned t r
Scan-StartsInked [] r ink h = elim ink [ ]
Scan-StartsInked (c ∷ t) r ink (inl s) = s
Scan-StartsInked (c ∷ t) r ink (inr (e, a)) = cc (a.0)

starts_of_append :
    (mid back t : Bytes) → StartsInked t → t ≡ mid ++ back → EndsInked mid → StartsInked mid
starts_of_append [] back t ink e w = concat-ne-nil w.last w.before (sym w.splits)
starts_of_append (d ∷ mid) back (c ∷ t) ink e w = ground (arith, ink)
starts_of_append (d ∷ mid) back [] ink e w = elim ink [ ]

-- `ltrim` drops spaces, and stops at the end or at a byte that is no space.
ltrim_lem :
    (s : Bytes)
    → (front : Bytes) × (s ≡ front ++ ltrim s)
      × All IsSpace front
      × ((ltrim s ≡ []) ⊎ StartsInked (ltrim s))
unfolding ltrim
ltrim_lem [] = ([], refl, tt, inl refl)
ltrim_lem (c ∷ s) = elim (Bool-cases (isspace c)) [
  | inr ink ↦ rw ink ([], refl, tt, inr ink)
  | inl space ↦
      rw space (let (front, e, a, k) = ltrim_lem s in (c ∷ front, ap (λ t. c ∷ t) e, (space, a), k))
]

rtrim_inked :
    (t : Bytes)
    → (t ≡ []) ⊎ StartsInked t
    → (mid : Bytes) × (back : Bytes) × (rtrim t ≡ some mid)
      × (t ≡ mid ++ back)
      × All IsSpace back
      × ((mid ≡ []) ⊎ (StartsInked mid × EndsInked mid))
rtrim_inked [] h = ([], [], unfold rtrim in refl, refl, tt, inl refl)
rtrim_inked (c ∷ t) (inl e) = cc
rtrim_inked (c ∷ t) (inr ink) =
    let r = Scan-StartsInked (c ∷ t) _ ink (rtrim-Scan c t) in
    (
      r.mid,
      r.back,
      r.found,
      r.splits,
      r.back_spaces,
      inr (starts_of_append r.mid r.back (c ∷ t) ink r.splits r.inked, r.inked),
    )

-- `trim` of any text returns: the result is the text without the spaces at its two ends, and is
-- empty or begins and ends with a byte that is no space.
pub trim_lem : (s : Bytes) → (mid : Bytes) × (trim s ≡ some mid) × TrimmedOf s mid
unfolding trim
trim_lem s =
    let (front, e, a, k) = ltrim_lem s in
    let (mid, back, r, e', b, ink) = rtrim_inked (ltrim s) k in
    (
      mid,
      r,
      record {
        front = front;
        back = back;
        splits = e ∙ ap (λ t. front ++ t) e';
        front_spaces = a;
        back_spaces = b;
        inked = ink;
      },
    )

EndsInked-not-spaces : (t back : Bytes) → EndsInked t → All IsSpace (t ++ back) → ⊥
EndsInked-not-spaces t back w a =
    let spaces = subst (All IsSpace) w.splits (All-append_left IsSpace t back a) in
    let last = All-append_right IsSpace w.before (w.last ∷ []) spaces in cc (last.0, w.last_inked)

-- `rtrim` called by itself reads before the start of its buffer exactly on a text that is not
-- empty and holds nothing but spaces.
pub rtrim_fault : (s : Bytes) → (rtrim s ≡ none) ↔ (s ≢ [] × All IsSpace s)
rtrim_fault [] = (λ e. unfold rtrim in cc e, λ (n, _). absurd (n refl))
rtrim_fault (c ∷ s) = (ahead, λ (_, a). behind a (rtrim-Scan c s))
  where
    ahead : rtrim (c ∷ s) ≡ none → c ∷ s ≢ [] × All IsSpace (c ∷ s)
    ahead e = elim (rtrim-Scan c s) [ inr (_, a) ↦ (λ h. cc h, a) | inl r ↦ cc (e, r.found) ]

    behind : All IsSpace (c ∷ s) → Scan (c ∷ s) (rtrim (c ∷ s)) → rtrim (c ∷ s) ≡ none
    behind a (inr (e, _)) = e
    behind a (inl r) =
        absurd (EndsInked-not-spaces r.mid r.back r.inked (subst (All IsSpace) r.splits a))
