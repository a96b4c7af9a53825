-- ===== src/Tests/Nebs.antt =====
-- The theorems on neb_module_naemon/mod_gearman.c at concrete hosts, services and events.
use mod_gearman.Common.{
  ℕ, Bytes, codes, true, false, if◌then◌else◌, [], ◌∷◌, ◌++◌, none, some, length, map, Member, ◌+◌,
  ◌-◌, ◌≡◌, ◌≢◌, ◌≤◌, refl, arith,
}
use mod_gearman.Common.Int.{ℤ, pos, negsuc}
use mod_gearman.Job.{Job, read_job}
use mod_gearman.Routing.{Object, set_target_queue}
use mod_gearman.Result.{no_time}
use mod_gearman.Neb.{
  Options, Env, Event, Named, State, service_text, handle_host_check, handle_svc_check,
}
use mod_gearman.Neb.Jobs.{OneLined, read_job-service_text}
use mod_gearman.Neb.Outcomes.{AllHandled, handle_host_check-Handled, handle_svc_check-Handled}
use mod_gearman.Neb.Delay.{
  Scheduled, Latency, RandLaws, PutOff, handle_hst_check_result, handle_svc_check_result,
  check_result-PutOff,
}
use mod_gearman.Neb.Export.{
  Exported, log_data, Exporter, event_text, handle_export, taken, jobs_of, handle_export_lem,
}
use mod_gearman.Config.{Export}
use mod_gearman.Neb.Collect.{Lists, arrives, moves, run, run_collects}
use mod_gearman.Neb.Registered.{
  on_svc_check, Settings, register_neb_callbacks, register_service-Member,
}
use mod_gearman.Tests.Results.{float, init}

abbrev routing : mod_gearman.Routing.Options
routing = record {
  identifier = codes "worker";
  queue_cust_var = none;
  local_servicegroups_list = [];
  local_hostgroups_list = [];
  servicegroups_list = [];
  hostgroups_list = [];
  hosts = true;
  services = true;
  events = true;
  notifications = false;
}

abbrev pub options : Options
options = record {
  routing = routing;
  result_queue = codes "check_results";
  do_hostchecks = true;
  internal_check_dummy = false;
  use_uniq_jobs = true;
  orphan_host_checks = true;
  orphan_service_checks = true;
  orphan_return = pos 2;
  route_eventhandler_like_checks = false;
}

abbrev pub env : Env float
env = record {
  show = λ n. codes "60";
  show_double = λ x. codes "5.0";
  bit_or = λ a b. a + b;
  is_orphan = λ n. true;
  is_forced = λ n. false;
  hexsum = λ s. s;
  takes = λ job. true;
  core_time = no_time;
  time = pos 9;
  gm_version = codes "5";
  init_check_result = init;
}

abbrev pub event : Event float
event = record {
  is_check_data = true;
  is_initiate = true;
  host_name = codes "web";
  service_description = codes "http";
  result_options = 0;
  latency = 0;
  timeout = pos 60;
  command_line = some (codes "/usr/lib/check_http");
}

abbrev pub object : Object
object = record { custom_variables = []; is_member = λ g. false }

abbrev named : Named
named = record { name = codes "web"; object = object }

abbrev state : State float
state = record {
  object = record { check_options = 0; is_being_freshened = true; is_executing = false };
  submitted = [];
  mod_gm_result_list = [];
}

abbrev job : Job
job = record {
  host_name = none;
  service_description = none;
  type = none;
  result_queue = none;
  command_line = none;
  source = none;
  output = none;
  long_output = none;
  error = none;
  exited_ok = true;
  scheduled_check = pos 1;
  check_options = pos 0;
  return_code = 0;
  early_timeout = false;
  timeout = pos 60;
  next_check = no_time;
  core_time = no_time;
  start_time = no_time;
  finish_time = no_time;
  has_been_sent = false;
}

abbrev pub libc : mod_gearman.Job.Libc
libc = record { atoi = λ s. pos 60; string2timeval = λ s. no_time }

pub lined :
    OneLined float options env (codes "service") (codes "web") event (codes "/usr/lib/check_http")
lined = record {
  result_queue_OneLine = (ground arith, λ e. cc e);
  queue_OneLine = (ground arith, λ e. cc e);
  name_OneLine = (ground arith, λ e. cc e);
  time_OneLine = (ground arith, λ e. cc e);
  timeout_OneLine = (ground arith, λ e. cc e);
  command_OneLine = (ground arith, λ e. cc e);
}

read_job-service_text_example :
    read_job libc
      (service_text float options env (codes "service") event (codes "/usr/lib/check_http"))
      job
    ≡ (
      record job {
        type = some (codes "service");
        result_queue = some (codes "check_results");
        host_name = some (codes "web");
        service_description = some (codes "http");
        core_time = no_time;
        timeout = pos 60;
        command_line = some (codes "/usr/lib/check_http");
      },
      7,
    )
read_job-service_text_example =
    read_job-service_text libc float options env (codes "service") event
      (codes "/usr/lib/check_http") job lined (ground arith, λ e. cc e) (omega arith)

handle_host_check-Handled_example :
    AllHandled float options env state
      (handle_host_check float options env event (some named) state)
handle_host_check-Handled_example =
    handle_host_check-Handled float options env event (some named) state

handle_svc_check-Handled_example :
    AllHandled float options env state
      (handle_svc_check float options env event (some named) (some named) state)
handle_svc_check-Handled_example =
    handle_svc_check-Handled float options env event (some named) (some named) state

abbrev lowest : ℤ → ℤ → ℤ
lowest a b = a

lowest_laws : RandLaws lowest
lowest_laws = record { low = λ a b h. omega arith; high = λ a b h. h }

abbrev scheduled : Scheduled
scheduled = record { no_interval = false; next_check = pos 100 }

abbrev latency : Latency
latency = record { below_one = false; seconds = pos 40 }

check_result-PutOff_example :
    PutOff
      (pos 30)
      true
      true
      scheduled
      (some latency)
      (handle_hst_check_result lowest (pos 30) true true (some scheduled) (some latency)).1
    × PutOff
        (pos 30)
        true
        true
        scheduled
        (some latency)
        (handle_svc_check_result lowest (pos 30) true true (some scheduled) (some latency)).1
check_result-PutOff_example =
    check_result-PutOff lowest lowest_laws (pos 30) true true scheduled (some latency)

abbrev entry : Exported
entry =
    log_data (codes "NEBTYPE_LOG_DATA") (codes "0") (codes "0") (codes "5.0") (codes "5")
      (codes "1") (codes "started")

abbrev exports : mod_gearman.Common.List Export
exports = record { callback_num = 9; name = codes "log_queue"; return_code_num = pos 0 } ∷ []

abbrev exporter : Exporter
exporter = record { debug_level = pos 1; sent = [] }

handle_export_lem_example : (handle_export (λ job. true) entry exports exporter).1 ≡ record {
  debug_level = negsuc 0;
  sent = [] ++ taken (λ job. true) (jobs_of (λ job. true) (event_text entry) exports);
}
handle_export_lem_example = handle_export_lem (λ job. true) entry exports exporter

abbrev lists : Lists ℕ
lists = record { mod_gm_result_list = []; processed = [] }

run_collects_example :
    run false (arrives 1 ∷ arrives 2 ∷ moves ∷ arrives 3 ∷ []) lists
    ≡ record { mod_gm_result_list = 3 ∷ []; processed = 2 ∷ 1 ∷ [] }
run_collects_example = run_collects (arrives 1 ∷ arrives 2 ∷ moves ∷ arrives 3 ∷ []) lists

abbrev settings : Settings
settings = record {
  routing = routing;
  do_hostchecks = true;
  perfdata = false;
  latency_flatten_window = pos 30;
}

has_queue : set_target_queue routing object (some object) ≢ []
unfolding set_target_queue mod_gearman.Routing.from_groups
has_queue e = cc e

register_service-Member_example : Member on_svc_check (register_neb_callbacks settings)
register_service-Member_example = register_service-Member settings object object has_queue
