-- ===== src/Text/Escape.antt =====
-- The two escape functions of common/utils.c: `gm_escape_newlines`, and `escapestring` with its
-- helpers `escaped` and `escape`. Each loop appends to a buffer that is allocated beforehand.
use mod_gearman.Common.{
  ℕ, Bytes, Bool, true, false, ◌||◌, ◌==◌, if◌then◌else◌, [], ◌∷◌, ◌++◌, Option, none, some, length,
  ◌*◌, ◌≡◌, ◌≤◌, refl, arith, Lacks,
}
use mod_gearman.Text.{trim}

abbrev pub newline : ℕ
newline = 10

abbrev pub backslash : ℕ
backslash = b'\\'

-- The loop of `gm_escape_newlines` over `tmpbuf`.
unfoldable pub escape_newlines_loop : Bytes → Bytes
escape_newlines_loop [] = []
escape_newlines_loop (c ∷ s) =
    let rest = escape_newlines_loop s in
    if c == backslash
    then backslash ∷ backslash ∷ rest
    else if c == newline
    then backslash ∷ b'n' ∷ rest
    else c ∷ rest

-- `trimmed` says whether the text is trimmed first.
unfoldable pub gm_escape_newlines : Bytes → Bool → Option Bytes
gm_escape_newlines rawbuf true = elim (trim rawbuf) [
  | none ↦ none
  | some tmpbuf ↦ some (escape_newlines_loop tmpbuf)
]
gm_escape_newlines rawbuf false = some (escape_newlines_loop rawbuf)

-- `strchr("\\\a\b\n\r\t\"\f\v", ch) ? 1 : 0`, for a `ch` that is not NUL
unfoldable pub escaped : ℕ → Bool
escaped ch =
    ch == backslash
    || (ch == 7
        || (ch == 8
            || (ch == newline
                || (ch == 13 || (ch == 9 || (ch == b'"' || (ch == 12 || ch == 11)))))))

-- The second byte of the escape sequence; the first is a backslash.
unfoldable pub escape : ℕ → Bytes
escape ch =
    if ch == newline
    then backslash ∷ b'n' ∷ []
    else if ch == 9
    then backslash ∷ b't' ∷ []
    else if ch == 11
    then backslash ∷ b'v' ∷ []
    else if ch == 8
    then backslash ∷ b'b' ∷ []
    else if ch == 13
    then backslash ∷ b'r' ∷ []
    else if ch == 12
    then backslash ∷ b'f' ∷ []
    else if ch == 7
    then backslash ∷ b'a' ∷ []
    else if ch == backslash
    then backslash ∷ backslash ∷ []
    else if ch == b'"'
    then backslash ∷ b'"' ∷ []
    else ch ∷ []

unfoldable pub escapestring : Bytes → Bytes
unfolding escaped escape
escapestring [] = []
escapestring (c ∷ s) = let rest = escapestring s in if escaped c then escape c ++ rest else c ∷ rest

-- The escaped text fits into the buffer of `gm_escape_newlines`, which has twice the length.
pub escape_newlines_fits : (s : Bytes) → length (escape_newlines_loop s) ≤ length s * 2
unfolding escape_newlines_loop
escape_newlines_fits [] = omega arith
escape_newlines_fits (c ∷ s) = ground (arith, escape_newlines_fits s)

-- The escaped text holds no line break.
pub escape_newlines-Lacks : (s : Bytes) → Lacks newline (escape_newlines_loop s)
unfolding escape_newlines_loop
escape_newlines-Lacks [] = tt
escape_newlines-Lacks (c ∷ s) = ground (arith, escape_newlines-Lacks s)

-- Two texts with the same escaped text are the same: no output is confused with another one.
pub escape_newlines_injective :
    (s t : Bytes) → escape_newlines_loop s ≡ escape_newlines_loop t → s ≡ t
unfolding escape_newlines_loop
escape_newlines_injective [] [] h = refl
escape_newlines_injective [] (d ∷ t) h = ground arith
escape_newlines_injective (c ∷ s) [] h = ground arith
escape_newlines_injective (c ∷ s) (d ∷ t) h = ground (arith, escape_newlines_injective s t)

-- The text that `escapestring` writes fits into its buffer, which has twice the length.
pub escapestring_fits : (s : Bytes) → length (escapestring s) ≤ length s * 2
unfolding escapestring
escapestring_fits [] = omega arith
escapestring_fits (c ∷ s) = ground (arith, escapestring_fits s)
