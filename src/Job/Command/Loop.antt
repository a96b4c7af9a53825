-- ===== src/Job/Command/Loop.antt =====
-- The loop of `parse_command_line` of common/check_utils.c over a text without quotes and
-- backslashes: the words are written one after the other, each with its NUL.
use mod_gearman.Common.{
  ℕ, zero, suc, Bytes, Bool, true, false, ◌||◌, ltb, List, [], ◌∷◌, ◌++◌, length, take, All,
  append-nil, append_assoc, length-append, ◌+◌, ◌≡◌, ◌≤◌, ◌<◌, inl, inr, refl, arith, Bool-cases,
  if_both,
}
use mod_gearman.Text.{isspace, ltrim}
use mod_gearman.Job.Command.{
  Buffer, copy_argument, skip_spaces, end_argument, next_argument, max_cmd_args, parse_arguments,
}
use mod_gearman.Job.Command.Split.{
  words, IsPlain, word_of, behind_word, word_of-ink, behind-ink, words-word, words-ltrim, ==_false,
  copy_word-word, All-behind_word, All-ltrim, IsTrimmed, ltrim-IsTrimmed, length-ltrim,
  length-behind_word,
}

-- The end of an argument, with any gap.
abbrev Ended : Bytes → Bytes → Buffer → Type 0
Ended written rest b =
    (gap : ℕ) × (b ≡ record { written = written ++ (0 ∷ []); gap = gap; rest = rest })

abbrev ended : Buffer → Buffer
ended s = end_argument s.written s.gap s.rest

skip_spaces-Ended :
    (written : Bytes) (gap : ℕ) (s : Bytes)
    → Ended written (ltrim s) (ended (skip_spaces written (suc gap) s))
unfolding skip_spaces ltrim
skip_spaces-Ended written gap [] = (gap, refl)
skip_spaces-Ended written gap (c ∷ s) = elim (Bool-cases (isspace c)) [
  | inl e ↦ rw e (skip_spaces-Ended written (suc gap) s)
  | inr e ↦ rw e (gap, refl)
]

-- A word with its NUL, for each word.
abbrev pub encode : List Bytes → Bytes
encode [] = []
encode (w ∷ ws) = w ++ 0 ∷ encode ws

abbrev pub offsets : ℕ → List Bytes → List ℕ
offsets start [] = []
offsets start (w ∷ ws) = start ∷ offsets (start + length w + 1) ws

copy_argument-word :
    (written : Bytes) (gap c : ℕ) (s : Bytes)
    → All IsPlain (c ∷ s)
    → isspace c ≡ false
    → copy_argument (record { written = written; gap = gap; rest = c ∷ s })
      ≡ record { written = written ++ (c ∷ word_of s); gap = gap; rest = behind_word s }
unfolding copy_argument
copy_argument-word written gap c s (p, h) ink =
    rw
      (
        ==_false c b'\'' p.no_single,
        ==_false c b'"' p.no_double,
        copy_word-word written gap (c ∷ s) (p, h),
        word_of-ink c s ink,
        behind-ink c s ink,
      )
      refl

abbrev BeginsSpace : Bytes → Type 0
BeginsSpace [] = Unit
BeginsSpace (c ∷ s) = isspace c ≡ true

behind_word-BeginsSpace : (s : Bytes) → BeginsSpace (behind_word s)
unfolding behind_word
behind_word-BeginsSpace [] = tt
behind_word-BeginsSpace (c ∷ s) =
    if_both BeginsSpace (isspace c) (λ e. e) (λ _. behind_word-BeginsSpace s)

behind-Ended :
    (written : Bytes) (gap : ℕ) (s : Bytes)
    → BeginsSpace s
    → Ended written (ltrim s) (ended (skip_spaces written gap s))
unfolding skip_spaces ltrim
behind-Ended written zero [] h = (0, refl)
behind-Ended written (suc gap) [] h = (gap, refl)
behind-Ended written gap (c ∷ s) h = rw h (skip_spaces-Ended written gap s)

next_argument-Ended :
    (written : Bytes) (gap c : ℕ) (s : Bytes)
    → All IsPlain (c ∷ s)
    → isspace c ≡ false
    → Ended
        (written ++ (c ∷ word_of s))
        (ltrim (behind_word s))
        (next_argument (record { written = written; gap = gap; rest = c ∷ s }))
next_argument-Ended written gap c s h ink =
    rw (copy_argument-word written gap c s h ink)
      (behind-Ended (written ++ (c ∷ word_of s)) gap (behind_word s) (behind_word-BeginsSpace s))

or_true : (b : Bool) → (b || true) ≡ true
or_true true = refl
or_true false = refl

stops_full :
    (n : ℕ) (b : Buffer) (argv : List ℕ)
    → suc (length argv) ≡ max_cmd_args
    → parse_arguments n b argv ≡ (b.written, argv)
unfolding parse_arguments
stops_full zero b argv e = refl
stops_full (suc n) b argv e = rw (e, or_true) refl

stops_empty :
    (n gap : ℕ) (written : Bytes) (argv : List ℕ)
    → parse_arguments n (record { written = written; gap = gap; rest = [] }) argv ≡ (written, argv)
unfolding parse_arguments
stops_empty zero gap written argv = refl
stops_empty (suc n) gap written argv = refl

one_argument :
    (n gap c : ℕ) (written s : Bytes) (argv : List ℕ)
    → suc (length argv) < max_cmd_args
    → parse_arguments (suc n) (record { written = written; gap = gap; rest = c ∷ s }) argv
      ≡ parse_arguments n
          (next_argument (record { written = written; gap = gap; rest = c ∷ s }))
          (argv ++ (length written ∷ []))
unfolding parse_arguments
one_argument n gap c written s argv lt =
    let room : ltb (suc (length argv)) max_cmd_args ≡ true = ground (arith, lt) in rw room refl

joins :
    (written w : Bytes) (argv : List ℕ) (ws : List Bytes)
    → ◌≡◌ {A = Bytes × List ℕ}
        (
          ((written ++ w) ++ 0 ∷ []) ++ encode ws,
          (argv ++ (length written ∷ [])) ++ offsets (length ((written ++ w) ++ 0 ∷ [])) ws,
        )
        (
          written ++ (w ++ 0 ∷ encode ws),
          argv ++ (length written ∷ offsets (length written + length w + 1) ws),
        )
joins written w argv ws =
    let len : length ((written ++ w) ++ 0 ∷ []) ≡ length written + length w + 1 =
      omega (arith, length-append (written ++ w) (0 ∷ []), length-append written w) in
    rw
      (
        len,
        append_assoc (written ++ w) (0 ∷ []) (encode ws),
        append_assoc written w (0 ∷ encode ws),
        append_assoc argv (length written ∷ []) (offsets (length written + length w + 1) ws),
      )
      refl

-- The loop, from any point where a word begins.
pub parse_arguments-words :
    (n k gap : ℕ) (written rest : Bytes) (argv : List ℕ)
    → All IsPlain rest
    → IsTrimmed rest
    → length rest ≤ n
    → suc (length argv + k) ≡ max_cmd_args
    → parse_arguments n (record { written = written; gap = gap; rest = rest }) argv ≡ (
      written ++ encode (take k (words rest)),
      argv ++ offsets (length written) (take k (words rest)),
    )
parse_arguments-words n zero gap written rest argv h t enough room =
    rw (append-nil written, append-nil argv) (stops_full n _ argv (omega (arith, room)))
parse_arguments-words n (suc k) gap written [] argv h t enough room =
    unfold words in rw (append-nil written, append-nil argv) (stops_empty n gap written argv)
parse_arguments-words zero (suc k) gap written (c ∷ s) argv h t enough room =
    absurd (omega (arith, enough))
parse_arguments-words (suc n) (suc k) gap written (c ∷ s) argv (p, h) ink enough room =
    let (gap', e) = next_argument-Ended written gap c s (p, h) ink in
    let w = c ∷ word_of s in
    let next = ltrim (behind_word s) in
    rw
      (
        one_argument n gap c written s argv (omega (arith, room)),
        e,
        parse_arguments-words n k gap' ((written ++ w) ++ 0 ∷ []) next
            (argv ++ (length written ∷ [])) (All-ltrim (behind_word s) (All-behind_word s h))
            (ltrim-IsTrimmed (behind_word s))
            (omega (arith, enough, length-ltrim (behind_word s), length-behind_word s))
            (omega (arith, room, length-append argv (length written ∷ []))),
        words-ltrim (behind_word s),
        words-word c s ink,
      )
      (joins written w argv (take k (words (behind_word s))))
