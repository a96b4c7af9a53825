-- ===== src/Job/Exec/Run.antt =====
-- `run_check` of common/check_utils.c, with the options and the parameter `World` that all that runs a
-- check reads.
use mod_gearman.Common.{
  ℕ, Bytes, codes, Bool, false, not, ◌&&◌, ◌||◌, ◌==◌, ltb, if◌then◌else◌, List, [], ◌∷◌, ◌++◌,
  Option, none, some, length, take,
}
use mod_gearman.Common.Int.{ℤ, pos}
use mod_gearman.Text.Replace.{is_prefix}
use mod_gearman.Job.{Timeval}

-- `GM_BUFFERSIZE`
abbrev pub buffersize : ℕ
buffersize = 65536

-- The options that are read here.
pub record Options : Type 0 where
  pub restrict_path : List Bytes
  pub restrict_command_characters : Bytes
  pub job_timeout : ℤ
  pub max_age : ℤ
  pub timeout_return : ℕ
  pub workaround_rc_25 : Bool
  pub fork_on_exec : Bool
  pub identifier : Bytes
  pub hostname : Bytes
  pub debug_result : Bool
  pub show_error_output : Bool
  pub dupserver_num : ℕ
  pub dup_results_are_passive : Bool

-- Which system calls of `run_check` succeed.
pub record Calls : Type 0 where
  pub pipe_stdout : Bool
  pub pipe_stderr : Bool
  pub fork : Bool
  pub fdopen_stdout : Bool
  pub fdopen_stderr : Bool

pub record World : Type 0 where
  -- the macros on the status that `waitpid` gives
  pub wifsignaled : ℤ → Bool
  pub wtermsig : ℤ → ℕ
  pub wifexited : ℤ → Bool
  pub wexitstatus : ℤ → ℕ
  -- the status of a child that leaves by `_exit(code)`
  pub exited : ℕ → ℤ
  -- the status of a child that a signal ends
  pub killed : ℕ → ℤ
  -- the system calls of `run_check`, and does the plugin run longer than the alarm is set to?
  pub calls : Calls
  pub is_overdue : Bool
  -- the plugin's status and its two outputs, for a command line
  pub plugin : Bytes → ℤ × Bytes × Bytes
  -- a text that a child writes to a pipe, as the parent reads it
  pub piped : Bytes → Bytes
  -- is there another process?
  pub fork_works : Bool
  -- `%d`, and `%Lf` of a time
  pub show : ℕ → Bytes
  pub show_time : Timeval → Bytes
  -- `%s` of a pointer that may be null
  pub show_text : Option Bytes → Bytes
  -- the times at the start and at the end of the check
  pub started : Timeval
  pub finished : Timeval

unfoldable pub starts_with : Bytes → Bytes → Bool
starts_with pre str = if ltb (length str) (length pre) then false else is_prefix pre str

-- `strchr(chars, c) != NULL` for a byte of a text, and `strpbrk(s, chars) != NULL`
unfoldable pub strchr : Bytes → ℕ → Bool
strchr [] c = false
strchr (d ∷ chars) c = d == c || strchr chars c

unfoldable pub strpbrk : Bytes → Bytes → Bool
unfolding strchr
strpbrk [] chars = false
strpbrk (c ∷ s) chars = strchr chars c || strpbrk s chars

unfoldable pub any_starts : List Bytes → Bytes → Bool
unfolding starts_with
any_starts [] cmd = false
any_starts (p ∷ paths) cmd = starts_with p cmd || any_starts paths cmd

abbrev pub first_byte : Bytes → ℕ
first_byte [] = 0
first_byte (c ∷ s) = c

unfoldable pub refusal : Bytes → Bytes → Bytes
refusal why cmd = why ++ (take 8 cmd ++ codes "...\n")

-- The text of the error for a command that the restricted paths do not allow.
unfoldable pub check_restricted : List Bytes → Bytes → Bytes → Option Bytes
unfolding any_starts strpbrk
check_restricted [] chars cmd = none
check_restricted (p ∷ paths) chars cmd =
    if not (first_byte cmd == b'/')
    then some (
        refusal
          (codes
            "ERROR: restricted paths in affect, but command does not start with an absolute path: ")
          cmd)
    else if strpbrk cmd chars
    then some (
        refusal
          (codes "ERROR: restricted paths in affect, but command contains forbidden character(s): ")
          cmd)
    else if not (any_starts (p ∷ paths) cmd)
    then some
        (refusal (codes "ERROR: command does not start with any of the restricted paths: ") cmd)
    else none

abbrev pub restricted : Options → Bytes → Option Bytes
restricted opt cmd = check_restricted opt.restrict_path opt.restrict_command_characters cmd

-- Is the command run by `execvp`, and not by a shell?
unfoldable pub is_plain : Bytes → Bool
unfolding strpbrk
is_plain cmd =
    (first_byte cmd == b'/' || first_byte cmd == b'.')
    && not (strpbrk cmd (codes "!$^&*()~[]\\|{};<>?`\"'"))

-- How `run_check` ends: with a status and two texts, by `_exit(STATE_UNKNOWN)`, or by the alarm, which
-- rings while it waits for the outputs.
pub data Check : Type 0 where
  returned : ℤ → Bytes → Bytes → Check
  exits rings : Check

abbrev pub plugin_ends : ℤ × Bytes × Bytes → Check
plugin_ends (status, out, err) = returned status out err

abbrev pub read_outputs : World → Bytes → Check
read_outputs w cmd =
    if not w.calls.fdopen_stdout
    then exits
    else if w.is_overdue
    then rings
    else if not w.calls.fdopen_stderr
    then exits
    else plugin_ends (w.plugin cmd)

-- A plain command has a first argument.
abbrev pub by_execvp : World → Bytes → Check
by_execvp w cmd =
    if not w.calls.pipe_stdout
    then exits
    else if not w.calls.pipe_stderr
    then exits
    else if not w.calls.fork
    then exits
    else read_outputs w cmd

-- `GM_EXIT_UNKNOWN` is 768.
unfoldable pub run_check : Options → World → Bytes → Check
unfolding check_restricted is_plain
run_check opt w cmd = elim (restricted opt cmd) [
  | some why ↦ returned (pos 768) why []
  | none ↦ if is_plain cmd then by_execvp w cmd else read_outputs w cmd
]
