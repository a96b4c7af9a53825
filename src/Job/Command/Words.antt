-- ===== src/Job/Command/Words.antt =====
-- The arguments that `parse_command_line` of common/check_utils.c finds in a command without quotes
-- and backslashes, which is what `run_check` gives it.
use mod_gearman.Common.{
  ℕ, zero, suc, Bytes, codes, Lacks, Bool, true, false, not, ◌&&◌, ◌||◌, ◌==◌, List, [], ◌∷◌, ◌++◌,
  length, map, take, drop, All, append_assoc, length-append, ◌+◌, ◌≡◌, inl, inr, refl, ap, sym, ◌∙◌,
  arith, Bool-cases,
}
use mod_gearman.Text.{isspace, ltrim}
use mod_gearman.Text.Replace.Laws.{drop-append}
use mod_gearman.Crypt.{c_string}
use mod_gearman.Crypt.RoundTrip.{c_string-append}
use mod_gearman.Job.Exec.{is_plain, strchr, strpbrk, first_byte}
use mod_gearman.Job.Command.{skip_spaces, parse_command_line}
use mod_gearman.Job.Command.Split.{
  words, IsPlain, words-ltrim, All-ltrim, ltrim-IsTrimmed, length-ltrim, words-Lacks,
}
use mod_gearman.Job.Command.Loop.{encode, offsets, parse_arguments-words}

All-take : (k : ℕ) (ws : List Bytes) → All (Lacks 0) ws → All (Lacks 0) (take k ws)
All-take zero ws h = tt
All-take (suc k) [] h = tt
All-take (suc k) (w ∷ ws) (h, hs) = (h, All-take k ws hs)

-- The strings behind the offsets are the words again.
arguments_back :
    (start : ℕ) (pre memory : Bytes) (ws : List Bytes)
    → All (Lacks 0) ws
    → start ≡ length pre
    → memory ≡ pre ++ encode ws
    → map (λ (offset : ℕ). c_string (drop offset memory)) (offsets start ws) ≡ ws
arguments_back start pre memory [] h at e = refl
arguments_back start pre memory (w ∷ ws) (h, hs) at e =
    let here : c_string (drop start memory) ≡ w =
      rw (at, e, drop-append pre (w ++ 0 ∷ encode ws)) (c_string-append w (encode ws) h) in
    let split : memory ≡ (pre ++ (w ++ 0 ∷ [])) ++ encode ws =
      e
      ∙ ap (λ t. pre ++ t) (sym (append_assoc w (0 ∷ []) (encode ws)))
      ∙ sym (append_assoc pre (w ++ 0 ∷ []) (encode ws)) in
    let len : start + length w + 1 ≡ length (pre ++ (w ++ 0 ∷ [])) =
      omega (arith, at, length-append pre (w ++ 0 ∷ []), length-append w (0 ∷ [])) in
    rw here (
      ap (λ us. w ∷ us)
        (arguments_back (start + length w + 1) (pre ++ (w ++ 0 ∷ [])) memory ws hs len split))

or_false : (a b : Bool) → (a || b) ≡ false → (a ≡ false) × (b ≡ false)
or_false true b e = cc e
or_false false b e = (refl, e)

strpbrk-Lacks :
    (b : ℕ) (s chars : Bytes) → strchr chars b ≡ true → strpbrk s chars ≡ false → Lacks b s
unfolding strpbrk
strpbrk-Lacks b [] chars h e = tt
strpbrk-Lacks b (c ∷ s) chars h e =
    let (none_here, later) = or_false (strchr chars c) (strpbrk s chars) e in
    (λ same. cc (ap (strchr chars) same, h, none_here), strpbrk-Lacks b s chars h later)

All-IsPlain : (s : Bytes) → Lacks 0 s → Lacks b'\\' s → Lacks b'\'' s → Lacks b'"' s → All IsPlain s
All-IsPlain [] n a b c = tt
All-IsPlain (d ∷ s) (n, ns) (a, as_) (b, bs) (c, cs) = (
  record { no_nul = n; no_backslash = a; no_single = b; no_double = c },
  All-IsPlain s ns as_ bs cs,
)

abbrev shell_characters : Bytes
shell_characters = codes "!$^&*()~[]\\|{};<>?`\"'"

no_shell : (a b c : Bool) → ((a || b) && not c) ≡ true → c ≡ false
no_shell true b true e = cc e
no_shell true b false e = refl
no_shell false true true e = cc e
no_shell false true false e = refl
no_shell false false c e = cc e

is_plain-IsPlain : (cmd : Bytes) → is_plain cmd ≡ true → Lacks 0 cmd → All IsPlain cmd
unfolding is_plain strchr
is_plain-IsPlain cmd e clean =
    let none_of =
      no_shell (first_byte cmd == b'/') (first_byte cmd == b'.') (strpbrk cmd shell_characters) e in
    All-IsPlain cmd clean (strpbrk-Lacks b'\\' cmd shell_characters refl none_of)
      (strpbrk-Lacks b'\'' cmd shell_characters refl none_of)
      (strpbrk-Lacks b'"' cmd shell_characters refl none_of)

first_buffer-ltrim :
    (gap : ℕ) (cmd : Bytes)
    → (n : ℕ) × (skip_spaces [] gap cmd ≡ record { written = []; gap = n; rest = ltrim cmd })
unfolding skip_spaces ltrim
first_buffer-ltrim gap [] = (gap, refl)
first_buffer-ltrim gap (c ∷ cmd) = elim (Bool-cases (isspace c)) [
  | inl e ↦ rw e (first_buffer-ltrim (suc gap) cmd)
  | inr e ↦ rw e (gap, refl)
]

-- The arguments of a command, a text without NUL, that `run_check` runs without a shell are its words,
-- the longest parts without white space, in order and up to 4,095 of them, although each is written
-- over the text that is being read.
pub parse_command_line-words :
    (cmd : Bytes)
    → is_plain cmd ≡ true
    → Lacks 0 cmd
    → parse_command_line cmd ≡ take 4095 (words cmd)
unfolding parse_command_line
parse_command_line-words cmd plain clean =
    let h = is_plain-IsPlain cmd plain clean in
    let (gap, e) = first_buffer-ltrim 0 cmd in
    let ws = take 4095 (words cmd) in
    rw
      (
        e,
        parse_arguments-words (length cmd) 4095 gap [] (ltrim cmd) [] (All-ltrim cmd h)
            (ltrim-IsTrimmed cmd) (length-ltrim cmd) refl,
        words-ltrim cmd,
      )
      (arguments_back 0 [] (encode ws) ws (All-take 4095 (words cmd) (words-Lacks cmd h)) refl refl)
