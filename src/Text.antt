-- ===== src/Text.antt =====
-- String helpers of common/utils.c: trimming and letter case (`ltrim`, `rtrim`, `trim`, `lc`), and
-- the children for escaping, replacing and splitting.
-- A C string is the list of its bytes before the terminating NUL. `none` is a read or a write
-- outside of the buffer, or a loop that does not end.
pub mod Trim
pub mod Escape
pub mod Replace
use mod_gearman.Common.{
  ℕ, zero, suc, Bytes, Bool, ◌||◌, ◌&&◌, leb, ◌==◌, if◌then◌else◌, [], ◌∷◌, Option, none, some, map,
  get_elem?, length, take, ◌+◌, ◌-◌,
}

-- `isspace` of the C locale.
unfoldable pub isspace : ℕ → Bool
isspace c = c == 32 || (leb 9 c && leb c 13)

-- `tolower` and `toupper` of the C locale.
unfoldable pub tolower : ℕ → ℕ
tolower c = if leb b'A' c && leb c b'Z' then c + 32 else c

unfoldable pub toupper : ℕ → ℕ
toupper c = if leb b'a' c && leb c b'z' then c - 32 else c

-- `while(isspace(*s)) s++;`: the NUL at the end is no space.
unfoldable pub ltrim : Bytes → Bytes
ltrim [] = []
ltrim (c ∷ s) = if isspace c then ltrim s else c ∷ s

-- `while(isspace(*--back));` with `back` at offset `k`; at offset 0 the next read is before the
-- buffer. The loop ends at a byte that is no space, and the byte behind it is set to NUL.
unfoldable pub rtrim_back : ℕ → Bytes → Option Bytes
rtrim_back zero s = none
rtrim_back (suc k) s =
    let rest = rtrim_back k s in
    elim (get_elem? s k) [
      | none ↦ none
      | some c ↦ if isspace c then rest else some (take (suc k) s)
    ]

unfoldable pub rtrim : Bytes → Option Bytes
unfolding rtrim_back
rtrim [] = some []
rtrim (c ∷ s) = rtrim_back (length (c ∷ s)) (c ∷ s)

unfoldable pub trim : Bytes → Option Bytes
trim s = rtrim (ltrim s)

unfoldable pub lc : Bytes → Bytes
lc = map tolower
