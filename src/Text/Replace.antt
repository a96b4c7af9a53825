-- ===== src/Text/Replace.antt =====
-- `replace_str` of common/utils.c: one pass over the text counts the occurrences of `old` for the
-- size of the buffer, a second one copies.
use mod_gearman.Common.{
  ℕ, zero, suc, Bytes, Bool, true, false, ◌&&◌, ◌==◌, if◌then◌else◌, [], ◌∷◌, ◌++◌, Option, none,
  some, length, take, drop, ◌+◌, ◌-◌, ◌*◌, ◌%◌, ◌^◌,
}
pub mod Laws
pub mod Newlines

-- Does the text begin with `old`?
unfoldable pub is_prefix : Bytes → Bytes → Bool
is_prefix [] p = true
is_prefix (o ∷ old) [] = false
is_prefix (o ∷ old) (c ∷ p) = o == c && is_prefix old p

-- `strstr(p, old)`, as the offset of the first occurrence.
unfoldable pub strstr : Bytes → Bytes → Option ℕ
unfolding is_prefix
strstr [] old = if is_prefix old [] then some 0 else none
strstr (c ∷ p) old =
    let rest = strstr p old in
    if is_prefix old (c ∷ p) then some 0 else elim rest [ none ↦ none | some l ↦ some (suc l) ]

-- What the counting loop leaves: the occurrences, and the text behind the last one.
pub record Count : Type 0 where
  pub count : ℕ
  pub p : Bytes

-- `for (count = 0, p = str; (q = strstr(p, old)) != NULL; p = q + oldlen) count++;`
unfoldable pub count_loop : ℕ → Bytes → ℕ → Bytes → Option Count
count_loop zero old count p = none
count_loop (suc fuel) old count p = elim (strstr p old) [
  | none ↦ some (record { count = count; p = p })
  | some l ↦ count_loop fuel old (suc count) (drop (l + length old) p)
]

-- `for (r = ret, p = str; (q = strstr(p, old)) != NULL; p = q + oldlen) …; strcpy(r, p);`
unfoldable pub copy_loop : ℕ → Bytes → Bytes → Bytes → Option Bytes
copy_loop zero old new p = none
copy_loop (suc fuel) old new p = elim (strstr p old) [
  | none ↦ some p
  | some l ↦ elim (copy_loop fuel old new (drop (l + length old) p)) [
    | none ↦ none
    | some rest ↦ some (take l p ++ (new ++ rest))
  ]
]

-- The buffer that `replace_str` allocates, its size without the byte for the NUL, and the text.
pub record Replaced : Type 0 where
  pub retlen : ℕ
  pub ret : Bytes

-- A `size_t` of 64 bits.
abbrev pub size_max : ℕ
size_max = 2 ^ 64

-- `p - str + strlen(p) + count * (newlen - oldlen)`, in `size_t`.
unfoldable pub buffer_size : Bytes → Bytes → Bytes → Count → ℕ
buffer_size str old new c =
    (length str
      - length c.p
      + length c.p
      + c.count * ((length new + size_max - length old) % size_max))
    % size_max

-- `retlen`: where the two lengths agree the counting loop is left out.
unfoldable pub ret_len : ℕ → Bytes → Bytes → Bytes → Option ℕ
ret_len fuel str old new =
    if length old == length new then some (length str) else elim (count_loop fuel old 0 str) [
      | none ↦ none
      | some c ↦ some (buffer_size str old new c)
    ]

-- Each match uses at least a byte of the text if `old` is not empty, so `strlen(str) + 1` rounds
-- are enough; for an empty `old` the source's loops do not end, and the result is `none`.
unfoldable pub replace_str : Bytes → Bytes → Bytes → Option Replaced
replace_str str old new = elim (ret_len (suc (length str)) str old new) [
  | none ↦ none
  | some retlen ↦ elim (copy_loop (suc (length str)) old new str) [
    | none ↦ none
    | some ret ↦ some (record { retlen = retlen; ret = ret })
  ]
]
