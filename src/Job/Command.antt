-- ===== src/Job/Command.antt =====
-- The arguments of a command: `parse_command_line` of common/check_utils.c, which writes them over
-- the text that it reads, and the test of `run_check` that sends a command there.
use mod_gearman.Common.{
  ℕ, zero, suc, Bytes, codes, Bool, true, false, not, ◌&&◌, ◌||◌, ◌==◌, ltb, if◌then◌else◌, List,
  [], ◌∷◌, ◌++◌, length, map, drop, ◌+◌,
}
use mod_gearman.Text.{isspace}
use mod_gearman.Crypt.{c_string}
use mod_gearman.Job.Exec.{strchr, strpbrk, first_byte}
pub mod Split
pub mod Loop
pub mod Words

-- The buffer of the command: what is written up to `parsed_cmd`, how many bytes lie between that
-- and `cmd`, and what is to be read before the NUL.
pub record Buffer : Type 0 where
  pub written : Bytes
  pub gap : ℕ
  pub rest : Bytes

-- `*(parsed_cmd++)=*(cmd++)` leaves the gap as it is, `++cmd` widens it.
unfoldable pub copy_word : Bytes → ℕ → Bytes → Buffer
copy_word written gap [] = record { written = written; gap = gap; rest = [] }
copy_word written gap (c ∷ []) = elim (isspace c) [
  | true ↦ record { written = written; gap = gap; rest = c ∷ [] }
  | false ↦ record { written = written ++ (c ∷ []); gap = gap; rest = [] }
]
copy_word written gap (c ∷ d ∷ s) = elim (isspace c) [
  | true ↦ record { written = written; gap = gap; rest = c ∷ d ∷ s }
  | false ↦ elim (c == b'\\') [
    | true ↦ copy_word (written ++ (d ∷ [])) (suc gap) s
    | false ↦ copy_word (written ++ (c ∷ [])) gap (d ∷ s)
  ]
]

unfoldable pub copy_single : Bytes → ℕ → Bytes → Buffer
copy_single written gap [] = record { written = written; gap = gap; rest = [] }
copy_single written gap (c ∷ s) = elim (c == b'\'') [
  | true ↦ record { written = written; gap = gap; rest = c ∷ s }
  | false ↦ copy_single (written ++ (c ∷ [])) gap s
]

unfoldable pub copy_double : Bytes → ℕ → Bytes → Buffer
copy_double written gap [] = record { written = written; gap = gap; rest = [] }
copy_double written gap (c ∷ []) = elim (c == b'"') [
  | true ↦ record { written = written; gap = gap; rest = c ∷ [] }
  | false ↦ record { written = written ++ (c ∷ []); gap = gap; rest = [] }
]
copy_double written gap (c ∷ d ∷ s) = elim (c == b'"') [
  | true ↦ record { written = written; gap = gap; rest = c ∷ d ∷ s }
  | false ↦ elim (c == b'\\' && strchr (codes "\"\\\n") d) [
    | true ↦ copy_double (written ++ (d ∷ [])) (suc gap) s
    | false ↦ copy_double (written ++ (c ∷ [])) gap (d ∷ s)
  ]
]

-- `if(*cmd) ++cmd;`
abbrev pub skip_quote : Bytes → ℕ → Bytes → Buffer
skip_quote written gap [] = record { written = written; gap = gap; rest = [] }
skip_quote written gap (c ∷ s) = record { written = written; gap = suc gap; rest = s }

-- Both loops for quotes begin at the quote itself, where they end.
unfoldable pub copy_argument : Buffer → Buffer
unfolding copy_word copy_single copy_double
copy_argument b =
    if first_byte b.rest == b'\''
    then (let r = copy_single b.written b.gap b.rest in skip_quote r.written r.gap r.rest)
    else if first_byte b.rest == b'"'
    then (let r = copy_double b.written b.gap b.rest in skip_quote r.written r.gap r.rest)
    else copy_word b.written b.gap b.rest

-- `while(isspace(*cmd)) ++cmd;`
unfoldable pub skip_spaces : Bytes → ℕ → Bytes → Buffer
skip_spaces written gap [] = record { written = written; gap = gap; rest = [] }
skip_spaces written gap (c ∷ s) =
    if isspace c
    then skip_spaces written (suc gap) s
    else record { written = written; gap = gap; rest = c ∷ s }

-- `*(parsed_cmd++)='\0'`: without a gap the next byte to be read is overwritten.
abbrev pub end_argument : Bytes → ℕ → Bytes → Buffer
end_argument written zero rest = record { written = written ++ (0 ∷ []); gap = 0; rest = [] }
end_argument written (suc gap) rest = record {
  written = written ++ (0 ∷ []);
  gap = gap;
  rest = rest;
}

abbrev pub next_argument : Buffer → Buffer
next_argument b =
    let a = copy_argument b in
    let s = skip_spaces a.written a.gap a.rest in end_argument s.written s.gap s.rest

abbrev is_empty : Bytes → Bool
is_empty [] = true
is_empty (c ∷ s) = false

-- `MAX_CMD_ARGS`
abbrev pub max_cmd_args : ℕ
max_cmd_args = 4096

-- `while(*cmd&&(argc<MAX_CMD_ARGS-1))`, with the rounds left; `argv` are offsets in the buffer.
unfoldable pub parse_arguments : ℕ → Buffer → List ℕ → Bytes × List ℕ
unfolding copy_argument skip_spaces
parse_arguments zero b argv = (b.written, argv)
parse_arguments (suc n) b argv =
    let next = parse_arguments n (next_argument b) (argv ++ (length b.written ∷ [])) in
    if is_empty b.rest || not (ltb (suc (length argv)) max_cmd_args)
    then (b.written, argv)
    else next

-- `parsed_cmd` starts where `cmd` does, behind the first spaces.
abbrev pub first_buffer : Bytes → Buffer
first_buffer cmd =
    let s = skip_spaces [] 0 cmd in record { written = []; gap = s.gap; rest = s.rest }

-- The strings that `argv` points to.
unfoldable pub parse_command_line : Bytes → List Bytes
unfolding parse_arguments
parse_command_line cmd =
    let (memory, argv) = parse_arguments (length cmd) (first_buffer cmd) [] in
    map (λ (offset : ℕ). c_string (drop offset memory)) argv
