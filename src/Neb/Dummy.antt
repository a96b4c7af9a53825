-- ===== src/Neb/Dummy.antt =====
-- Calls of check_dummy that the NEB module answers itself: `try_check_dummy` of
-- neb_module_naemon/mod_gearman.c.
use mod_gearman.Common.{
  Bytes, codes, str_eq, Bool, true, false, not, ◌&&◌, ◌||◌, ◌==◌, if◌then◌else◌, [], ◌∷◌, ◌++◌,
  Option, none, some,
}
use mod_gearman.Common.Int.{ℤ, pos, eq_ℤ}
use mod_gearman.Text.Replace.{strstr}
use mod_gearman.Job.Exec.{strchr, strpbrk}
use mod_gearman.Result.{Float, CheckResult, host_check, service_check, active}

-- `GM_ERROR`, the result that is added, or undefined behaviour.
pub data Reply (float : Float) : Type 0 where
  declined : Reply float
  answered : CheckResult float → Reply float
  undefined : Reply float

-- The bytes before and behind the first delimiter.
abbrev pub span : Bytes → Bytes → Bytes × Bytes
span delims [] = ([], [])
span delims (c ∷ s) =
    let rest = span delims s in if strchr delims c then ([], s) else (c ∷ rest.0, rest.1)

abbrev pub skip : Bytes → Bytes → Bytes
skip delims [] = []
skip delims (c ∷ s) = let rest = skip delims s in if strchr delims c then rest else c ∷ s

-- `strtok`, the token and what is left for the next call.
abbrev pub token_of : Bytes → Bytes → Option Bytes × Bytes
token_of delims [] = (none, [])
token_of delims (c ∷ s) = (some (span delims (c ∷ s)).0, (span delims (c ∷ s)).1)

abbrev pub strtok : Bytes → Bytes → Option Bytes × Bytes
strtok delims s = token_of delims (skip delims s)

abbrev pub or_empty : Option Bytes → Bytes
or_empty none = []
or_empty (some s) = s

abbrev double_quote : Bytes
double_quote = 34 ∷ []

abbrev single_quote : Bytes
single_quote = 39 ∷ []

-- `none` is a null pointer.
abbrev pub unquote_state : Bytes → Option Bytes
unquote_state [] = some []
unquote_state (c ∷ arg) =
    if c == 34
    then some (or_empty (strtok double_quote arg).0)
    else if c == 39
    then (strtok single_quote arg).0
    else some (c ∷ arg)

abbrev or_whole : Option Bytes → Bytes → Bytes
or_whole none s = s
or_whole (some t) s = t

-- The output, and whether it is checked for characters of the shell.
abbrev pub unquote_output : Bytes → Option Bytes × Bool
unquote_output [] = (some [], true)
unquote_output (c ∷ s) =
    if c == 34
    then (some (or_empty (strtok double_quote s).0), true)
    else if c == 39
    then ((strtok single_quote s).0, false)
    else (some (or_whole (strtok (codes " \t") (c ∷ s)).0 (c ∷ s)), true)

abbrev shown : Option Bytes → Bytes
shown none = codes "(null)"
shown (some s) = s

-- `strspn(arg1, "0123456789 ") == strlen(arg1)`
abbrev pub only_digits : Bytes → Bool
only_digits [] = true
only_digits (c ∷ s) = strchr (codes "0123456789 ") c && only_digits s

module _ (float : Float) (init : CheckResult float) (time : ℤ) (gm_version : Bytes) where
  -- The return code and the text.
  unfoldable pub dummy_answer : Bytes → Bytes → ℤ × Bytes
  dummy_answer arg output =
      let state = float.atoi arg in
      if str_eq arg (codes "-V") || str_eq arg (codes "--version")
      then (pos 3, codes "internal mod-gearman check_dummy, v" ++ (gm_version ++ codes "\n"))
      else if str_eq arg (codes "-h") || (str_eq arg (codes "--help") || not (only_digits arg))
      then (
        pos 3,
        codes "usage: check_dummy <state> <output>\nsee check_dummy --help for complete help.",
      )
      else if eq_ℤ state (pos 0)
      then (pos 0, codes "OK: " ++ (output ++ codes "\n"))
      else if eq_ℤ state (pos 1)
      then (pos 1, codes "WARNING: " ++ (output ++ codes "\n"))
      else if eq_ℤ state (pos 2)
      then (pos 2, codes "CRITICAL: " ++ (output ++ codes "\n"))
      else if eq_ℤ state (pos 3)
      then (pos 3, codes "UNKNOWN: " ++ (output ++ codes "\n"))
      else (pos 3, codes "UNKNOWN: Status " ++ (arg ++ codes " is not a supported error state"))

  abbrev pub dummy_result : Bytes → Option Bytes → ℤ × Bytes → CheckResult float
  dummy_result host service (rc, text) = record init {
    host_name = some host;
    service_description = (elim service [ none ↦ init.service_description | some d ↦ some d ]);
    scheduled_check = pos 1;
    check_options = pos 0;
    object_check_type = (elim service [ none ↦ host_check | some d ↦ service_check ]);
    check_type = active;
    start_time = record { tv_sec = time; tv_usec = init.start_time.tv_usec };
    finish_time = record { tv_sec = time; tv_usec = init.finish_time.tv_usec };
    latency = float.zero_double;
    output = some text;
    return_code = rc;
  }

  -- The forbidden characters are `$&();<>` with the backtick, both quotes and the bar.
  abbrev pub dummy_reply : Bytes → Option Bytes → Option Bytes → Option Bytes × Bool → Reply float
  dummy_reply host service state (output, checked) =
      if checked && strpbrk (shown output) (codes "$&();<>`\"'|") then declined else (elim state [
        | none ↦ undefined
        | some arg ↦ answered (dummy_result host service (dummy_answer arg (shown output)))
      ])

  abbrev pub arguments : Bytes → Option Bytes → Option Bytes × Bytes → Reply float
  arguments host service (arg, output) =
      dummy_reply host service (unquote_state (or_empty arg)) (unquote_output output)

  abbrev pub command_name : Bytes → Option Bytes → Option Bytes × Bytes → Reply float
  command_name host service (none, rest) = undefined
  command_name host service (some check, rest) = elim (strstr check (codes "/check_dummy")) [
    | none ↦ declined
    | some i ↦ arguments host service (strtok (codes " ") rest)
  ]

  unfoldable pub try_check_dummy : Bytes → Bytes → Option Bytes → Reply float
  unfolding dummy_answer
  try_check_dummy command_line host service = elim (strstr command_line (codes "/check_dummy")) [
    | none ↦ declined
    | some i ↦ command_name host service (strtok (codes " ") command_line)
  ]
