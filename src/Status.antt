-- ===== src/Status.antt =====
-- The status of a gearmand: `get_gearman_server_data` and `send2gearmandadmin` of
-- common/gearman_utils.c. The socket, `atoi` and `qsort` are parameters; a status is parsed line by
-- line from what one `read` gives.
pub mod RoundTrip
pub mod Check
use mod_gearman.Common.{
  ℕ, suc, Bytes, codes, str_eq, Bool, true, false, not, ◌==◌, ltb, if◌then◌else◌, List, [], ◌∷◌,
  ◌++◌, Option, none, some, length, take, drop,
}
use mod_gearman.Common.Int.{ℤ, fits_int, ◌-ℤ◌}
use mod_gearman.Crypt.{c_string}
use mod_gearman.Job.{strsep}

-- `mod_gm_status_function_t`
pub record Function : Type 0 where
  pub queue : Bytes
  pub running : ℤ
  pub total : ℤ
  pub worker : ℤ
  pub waiting : ℤ

-- `STATE_OK` and the other exit codes.
pub data State : Type 0 where
  ok warning critical unknown : State

-- `GM_LISTSIZE`
abbrev pub list_size : ℕ
list_size = 512

-- The lines that `strsep(&output, "\n")` gives one after the other.
unfoldable pub lines : Bytes → List Bytes
lines [] = [] ∷ []
lines (b ∷ s) =
    let rest = lines s in
    if b == 10 then [] ∷ rest else elim rest [ [] ↦ (b ∷ []) ∷ [] | l ∷ ls ↦ (b ∷ l) ∷ ls ]

-- A parse of the lines: complete, stopped without the closing line, or undefined, since an array
-- is written or a line is read behind its end, or the difference of two numbers is no `int`.
pub data Parsed : Type 0 where
  complete : List Function → Bytes → Parsed
  incomplete : List Function → Parsed
  out_of_bounds : Parsed

-- The text behind the separator, and the part before it, as `strsep` leaves them for the next call.
abbrev pub part : ℕ → Option Bytes → Option (Bytes × Option Bytes)
part c none = none
part c (some s) = some (strsep c s)

-- `line[0] == 'O'` takes three bytes off; `none` is a line that is shorter.
unfoldable pub version_of : Bytes → Option Bytes
version_of [] = some []
version_of (c ∷ s) =
    if c == b'O'
    then (if ltb (length s) 2 then none else some (take 65535 (drop 2 s)))
    else some (take 65535 (c ∷ s))

abbrev closed : List Function → Option Bytes → Parsed
closed functions none = out_of_bounds
closed functions (some version) = complete functions version

-- Behind the closing line: the version, where another line follows.
abbrev pub parse_version : List Function → List Bytes → Parsed
parse_version functions [] = complete functions []
parse_version functions (line ∷ rest) = closed functions (version_of line)

-- `waiting` is a difference of two `int`s.
abbrev add_function : List Function → Option Function → (List Function → Parsed) → Parsed
add_function functions none next = incomplete functions
add_function functions (some f) next =
    if not (fits_int f.waiting)
    then out_of_bounds
    else if ltb (length functions) list_size
    then next (functions ++ (f ∷ []))
    else out_of_bounds

module _ (atoi : Bytes → ℤ) where
  abbrev pub function_of : Bytes → Bytes → Bytes → Bytes → Function
  function_of name total running worker = record {
    queue = name;
    running = atoi running;
    total = atoi total;
    worker = atoi worker;
    waiting = atoi total -ℤ atoi running;
  }

  abbrev with_worker : Bytes → Bytes → Bytes → Option Bytes → Option Function
  with_worker name total running none = none
  with_worker name total running (some worker) = some (function_of name total running worker)

  abbrev with_running : Bytes → Bytes → Option (Bytes × Option Bytes) → Option Function
  with_running name total none = none
  with_running name total (some (running, rest)) = with_worker name total running rest

  abbrev with_total : Bytes → Option (Bytes × Option Bytes) → Option Function
  with_total name none = none
  with_total name (some (total, rest)) = with_running name total (part 9 rest)

  -- A line `name <tab> total <tab> running <tab> workers`.
  unfoldable pub parse_function : Bytes → Option Function
  parse_function line = let (name, rest) = strsep 9 line in with_total name (part 9 rest)

  -- `while ( (line = strsep( &output, "\n" )) != NULL )`
  unfoldable pub parse_lines : List Bytes → List Function → Parsed
  unfolding parse_function version_of
  parse_lines [] functions = incomplete functions
  parse_lines (line ∷ rest) functions =
      let next = parse_lines rest in
      if str_eq line (codes ".")
      then parse_version functions rest
      else add_function functions (parse_function line) next

-- What the socket does: is there a connection, does `write` work, and what one `read` gives.
pub record Network : Type 0 where
  pub connects : Bool
  pub writes : Bool
  pub reads : Option Bytes

-- The answer of `send2gearmandadmin`: an error, or the text before the first NUL of at most
-- `GM_BUFFERSIZE-1` bytes.
abbrev read_text : Option Bytes → Option Bytes
read_text none = none
read_text (some buf) = some (c_string (take 65535 buf))

unfoldable pub send2gearmandadmin : Network → Option Bytes
unfolding c_string
send2gearmandadmin net =
    if net.connects then (if net.writes then read_text net.reads else none) else none

-- What `get_gearman_server_data` returns: a state, the functions and the version; `none` is
-- undefined. An answer that cannot be parsed leaves the state of the call before, which is OK.
pub record Status : Type 0 where
  pub rc : State
  pub functions : List Function
  pub version : Bytes
  pub is_valid : Bool

module _ (atoi : Bytes → ℤ) (qsort : List Function → List Function) where
  abbrev pub status_of : Parsed → Option Status
  status_of (complete functions version) =
      some (record { rc = ok; functions = qsort functions; version = version; is_valid = true })
  status_of (incomplete functions) =
      some (record { rc = ok; functions = functions; version = []; is_valid = false })
  status_of out_of_bounds = none

  abbrev pub with_answer : Option Bytes → Option Status
  with_answer none = some (record { rc = critical; functions = []; version = []; is_valid = false })
  with_answer (some output) = status_of (parse_lines atoi (lines output) [])

  unfoldable pub get_gearman_server_data : Network → Option Status
  unfolding lines parse_lines send2gearmandadmin
  get_gearman_server_data net = with_answer (send2gearmandadmin net)
