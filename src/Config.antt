-- ===== src/Config.antt =====
-- The options of all programs, `mod_gm_opt_t` of include/common.h, and `set_default_options` of
-- common/utils.c. The build has no embedded Perl.
-- The fields of one type are a function from their names: `opt.numbers min_worker` is
-- `opt->min_worker`.
pub mod Keys
pub mod Line
pub mod Files
mod Steps
mod Sound
pub mod Limits
pub mod Blank
use Prim.Native.String.{String}
use mod_gearman.Common.{
  ℕ, zero, suc, Bytes, codes, str_eq, Bool, true, false, ◌==◌, if◌then◌else◌, List, [], ◌∷◌, Option,
  none, some,
}
use mod_gearman.Common.Int.{ℤ, pos}
use mod_gearman.Setup.{Server}
use mod_gearman.Job.{Timeval}

pub data Switch : Type 0 where
  daemon_mode perfdata perfdata_send_all hosts services events : Switch
  notifications debug_result encryption fork_on_exec do_hostchecks : Switch
  route_eventhandler_like_checks active show_error_output : Switch
  dup_results_are_passive workaround_rc_25 orphan_host_checks : Switch
  orphan_service_checks accept_clear_results use_uniq_jobs : Switch
  internal_check_dummy : Switch

pub data Number : Type 0 where
  debug_level log_stats_interval result_workers return_code timeout : Number
  job_timeout min_worker max_worker max_age idle_timeout max_jobs : Number
  spawn_rate timeout_return orphan_return perfdata_mode : Number
  latency_flatten_window gearman_connection_timeout : Number

pub data Text : Type 0 where
  result_queue message delimiter host service crypt_key keyfile pidfile : Text
  logfile identifier host_perfdata_template service_perfdata_template : Text
  queue_cust_var restrict_command_characters : Text

pub data Group : Type 0 where
  servicegroups hostgroups local_servicegroups local_hostgroups : Group
  restrict_path perfdata_queues : Group

pub data Servers : Type 0 where
  server_list dupserver_list : Servers

pub data Time : Type 0 where
  latency starttime finishtime : Time

pub data Load : Type 0 where
  load_limit1 load_limit5 load_limit15 : Load

pub data LogMode : Type 0 where
  auto file stdout core syslog : LogMode

-- An entry of `exports[callback_num]`.
pub record Export : Type 0 where
  pub callback_num : ℕ
  pub name : Bytes
  pub return_code_num : ℤ

-- Floating point numbers, and the parts of the C library that read text.
pub record Libc : Type 1 where
  pub Double : Type 0
  pub zero_double : Double
  pub is_negative : Double → Bool
  pub atoi : Bytes → ℤ
  pub port_bits : Bytes → ℕ
  pub atof : Bytes → Double
  pub string2timeval : Bytes → Timeval

-- A field with a flag, as `has_latency` of `latency`, is `none` where the flag is not set.
pub record Options (libc : Libc) : Type 0 where
  pub set_queues_by_hand : ℕ
  pub switches : Switch → Bool
  pub numbers : Number → ℤ
  pub texts : Text → Option Bytes
  pub groups : Group → List Bytes
  pub servers : Servers → List Server
  pub times : Time → Option Timeval
  pub loads : Load → libc.Double
  pub logmode : LogMode
  pub exports : List Export
  pub exports_count : ℕ

-- One field of a function is changed; `index` tells the fields apart.
abbrev pub put {ℓ κ} : {K : Type ℓ} {V : Type κ} → (K → ℕ) → K → V → (K → V) → K → V
put index k v f j = if index j == index k then v else f j

-- The first key of the table that is equal.
abbrev pub find {ℓ} : {A : Type ℓ} → Bytes → List (Bytes × A) → Option A
find key [] = none
find key ((k, a) ∷ table) = let rest = find key table in if str_eq key k then some a else rest

-- What reading a line or a file leaves: `GM_OK`, or `GM_ERROR` with the options as they are then;
-- undefined behaviour; or a recursion that ran out of its fuel.
pub data Parsed (A : Type 0) : Type 0 where
  ok : A → Parsed A
  failed : A → Parsed A
  fault : Parsed A
  exhausted : Parsed A

infixl 5 ◌>>=◌
abbrev pub ◌>>=◌ : {A : Type 0} → Parsed A → (A → Parsed A) → Parsed A
ok a >>= f = f a
failed a >>= f = failed a
fault >>= f = fault
exhausted >>= f = exhausted

abbrev pub default_switch : Switch → Bool
default_switch encryption = true
default_switch use_uniq_jobs = true
default_switch do_hostchecks = true
default_switch show_error_output = true
default_switch dup_results_are_passive = true
default_switch orphan_host_checks = true
default_switch orphan_service_checks = true
default_switch internal_check_dummy = true
default_switch daemon_mode = false
default_switch perfdata = false
default_switch perfdata_send_all = false
default_switch hosts = false
default_switch services = false
default_switch events = false
default_switch notifications = false
default_switch debug_result = false
default_switch fork_on_exec = false
default_switch route_eventhandler_like_checks = false
default_switch active = false
default_switch workaround_rc_25 = false
default_switch accept_clear_results = false

abbrev pub default_number : Number → ℤ
default_number result_workers = pos 1
default_number return_code = pos 0
default_number timeout = pos 10
default_number debug_level = pos 0
default_number perfdata_mode = pos 1
default_number log_stats_interval = pos 60
default_number job_timeout = pos 60
default_number max_age = pos 0
default_number min_worker = pos 1
default_number max_worker = pos 20
default_number idle_timeout = pos 10
default_number max_jobs = pos 1000
default_number spawn_rate = pos 1
default_number timeout_return = pos 2
default_number orphan_return = pos 2
default_number latency_flatten_window = pos 30
default_number gearman_connection_timeout = pos 5000

-- The templates are constants of include/common.h that nothing here reads.
abbrev pub default_text : Bytes → Bytes → Text → Option Bytes
default_text host_template service_template delimiter = some (codes "\t")
default_text host_template service_template restrict_command_characters =
    some (codes "$&();<>`\"'|")
default_text host_template service_template host_perfdata_template = some host_template
default_text host_template service_template service_perfdata_template = some service_template
default_text host_template service_template _ = none

-- The load limits are not set there; `memory` is what they hold.
unfoldable pub set_default_options :
    (libc : Libc) → Bytes → Bytes → (Load → libc.Double) → Options libc
set_default_options libc host_template service_template memory = record {
  set_queues_by_hand = 0;
  switches = default_switch;
  numbers = default_number;
  texts = default_text host_template service_template;
  groups = λ g. [];
  servers = λ s. [];
  times = λ t. none;
  loads = memory;
  logmode = auto;
  exports = [];
  exports_count = 0;
}
