-- ===== src/Setup.antt =====
-- The options of a worker: `parse_yes_or_no`, `check_param_server` and `add_server` of
-- common/utils.c, and `verify_options` of worker/worker.c.
pub mod Servers
pub mod Verified
use mod_gearman.Common.{
  ℕ, suc, Bytes, codes, str_eq, Bool, true, false, not, ◌&&◌, ◌||◌, ◌==◌, ltb, if◌then◌else◌, List,
  [], ◌∷◌, ◌++◌, Option, none, some, ◌%◌, ◌^◌,
}
use mod_gearman.Text.{lc}
use mod_gearman.Job.{strsep}

-- The value that is compared, in lower case.
abbrev pub yes_or_no : Bytes → Bool → Bool
yes_or_no value dfl =
    if str_eq value (codes "yes")
    then true
    else if str_eq value (codes "on")
    then true
    else if str_eq value (codes "true")
    then true
    else if str_eq value (codes "1")
    then true
    else if str_eq value (codes "no")
    then false
    else if str_eq value (codes "off")
    then false
    else if str_eq value (codes "false")
    then false
    else if str_eq value (codes "0")
    then false
    else dfl

unfoldable pub parse_yes_or_no : Option Bytes → Bool → Bool
parse_yes_or_no none dfl = dfl
parse_yes_or_no (some value) dfl = yes_or_no (lc value) dfl

pub record Server : Type 0 where
  pub host : Bytes
  pub port : ℕ

abbrev pub same_server : Server → Server → Bool
same_server a b = str_eq a.host b.host && a.port == b.port

-- `true` is `GM_OK`.
unfoldable pub check_param_server : Server → List Server → Bool
check_param_server new_server [] = true
check_param_server new_server (s ∷ server_list) =
    let rest = check_param_server new_server server_list in
    if same_server new_server s then false else rest

abbrev host_of : Bytes → Bytes
host_of [] = codes "0.0.0.0"
host_of (c ∷ host) = c ∷ host

-- `GM_SERVER_DEFAULT_PORT`; a port is an unsigned number of 16 bits. `atoi` is a parameter, with the
-- bits of its result as a natural number.
abbrev port_of : (Bytes → ℕ) → Option Bytes → ℕ
port_of atoi none = 4730
port_of atoi (some port_val) = atoi port_val % 2 ^ 16

abbrev pub new_server_of : (Bytes → ℕ) → Bytes → Server
new_server_of atoi servername =
    let parts = strsep b':' servername in
    record { host = host_of parts.0; port = port_of atoi parts.1 }

-- The list grows at its end. Its length is not compared with `GM_LISTSIZE`.
unfoldable pub add_server : (Bytes → ℕ) → Bytes → List Server → List Server
add_server atoi servername server_list =
    let new_server = new_server_of atoi servername in
    if check_param_server new_server server_list
    then server_list ++ (new_server ∷ [])
    else server_list

pub record Options : Type 0 where
  pub debug_level : ℕ
  pub daemon_mode : Bool
  pub server_num : ℕ
  pub set_queues_by_hand : ℕ
  pub hosts : Bool
  pub services : Bool
  pub events : Bool
  pub notifications : Bool
  pub servicegroups_num : ℕ
  pub hostgroups_num : ℕ
  pub min_worker : ℕ
  pub max_worker : ℕ
  pub encryption : Bool
  pub crypt_key : Option Bytes
  pub keyfile : Option Bytes

-- `GM_LOG_TRACE`
abbrev pub log_trace : ℕ
log_trace = 2

abbrev pub is_set : Option Bytes → Bool
is_set none = false
is_set (some s) = true

abbrev pub quiet : Options → Options
quiet opt = record opt {
  debug_level =
      if ltb log_trace opt.debug_level && opt.daemon_mode then log_trace else opt.debug_level;
}

-- Nothing set by hand: the default queues.
abbrev pub default_queues : Options → Options
default_queues opt =
    let unset = opt.set_queues_by_hand == 0 in
    record opt {
      hosts = if unset then true else opt.hosts;
      services = if unset then true else opt.services;
      events = if unset then true else opt.events;
      notifications = if unset then true else opt.notifications;
    }

abbrev pub serves_nothing : Options → Bool
serves_nothing opt =
    opt.servicegroups_num == 0
    && (opt.hostgroups_num == 0
        && (not opt.hosts && (not opt.services && (not opt.events && not opt.notifications))))

abbrev pub clamped : Options → Options
clamped opt = record opt {
  min_worker = if ltb opt.max_worker opt.min_worker then opt.max_worker else opt.min_worker;
}

-- `none` is `GM_ERROR`.
unfoldable pub verify_options : Options → Option Options
verify_options opt =
    let queued = default_queues (quiet opt) in
    if opt.server_num == 0
    then none
    else if serves_nothing queued
    then none
    else if queued.encryption && (not (is_set queued.crypt_key) && not (is_set queued.keyfile))
    then none
    else some (clamped queued)
