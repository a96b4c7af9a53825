-- ===== src/Config/Keys.antt =====
-- The keys of a configuration line and the fields that they set: the names that `parse_args_line`
-- of common/utils.c compares, and the limits of its numbers.
use mod_gearman.Common.{ℕ, Bytes, codes, Bool, true, false, ◌||◌, if◌then◌else◌, List, [], ◌∷◌}
use mod_gearman.Common.Int.{ℤ, pos, ltb_ℤ}
use mod_gearman.Config.{
  Switch, Number, Text, Group, Servers, Time, Load, LogMode, daemon_mode, perfdata,
  perfdata_send_all, hosts, services, events, notifications, debug_result, encryption, fork_on_exec,
  do_hostchecks, route_eventhandler_like_checks, active, show_error_output, dup_results_are_passive,
  workaround_rc_25, orphan_host_checks, orphan_service_checks, accept_clear_results, use_uniq_jobs,
  internal_check_dummy, debug_level, log_stats_interval, result_workers, return_code, timeout,
  job_timeout, min_worker, max_worker, max_age, idle_timeout, max_jobs, spawn_rate, timeout_return,
  orphan_return, perfdata_mode, latency_flatten_window, gearman_connection_timeout, result_queue,
  message, delimiter, host, service, crypt_key, keyfile, pidfile, logfile, identifier,
  host_perfdata_template, service_perfdata_template, queue_cust_var, restrict_command_characters,
  servicegroups, hostgroups, local_servicegroups, local_hostgroups, restrict_path, perfdata_queues,
  server_list, dupserver_list, latency, starttime, finishtime, load_limit1, load_limit5,
  load_limit15, auto, file, stdout, core, syslog,
}

abbrev pub switch_index : Switch → ℕ
switch_index daemon_mode = 0
switch_index perfdata = 1
switch_index perfdata_send_all = 2
switch_index hosts = 3
switch_index services = 4
switch_index events = 5
switch_index notifications = 6
switch_index debug_result = 7
switch_index encryption = 8
switch_index fork_on_exec = 9
switch_index do_hostchecks = 10
switch_index route_eventhandler_like_checks = 11
switch_index active = 12
switch_index show_error_output = 13
switch_index dup_results_are_passive = 14
switch_index workaround_rc_25 = 15
switch_index orphan_host_checks = 16
switch_index orphan_service_checks = 17
switch_index accept_clear_results = 18
switch_index use_uniq_jobs = 19
switch_index internal_check_dummy = 20

abbrev pub number_index : Number → ℕ
number_index debug_level = 0
number_index log_stats_interval = 1
number_index result_workers = 2
number_index return_code = 3
number_index timeout = 4
number_index job_timeout = 5
number_index min_worker = 6
number_index max_worker = 7
number_index max_age = 8
number_index idle_timeout = 9
number_index max_jobs = 10
number_index spawn_rate = 11
number_index timeout_return = 12
number_index orphan_return = 13
number_index perfdata_mode = 14
number_index latency_flatten_window = 15
number_index gearman_connection_timeout = 16

abbrev pub text_index : Text → ℕ
text_index result_queue = 0
text_index message = 1
text_index delimiter = 2
text_index host = 3
text_index service = 4
text_index crypt_key = 5
text_index keyfile = 6
text_index pidfile = 7
text_index logfile = 8
text_index identifier = 9
text_index host_perfdata_template = 10
text_index service_perfdata_template = 11
text_index queue_cust_var = 12
text_index restrict_command_characters = 13

abbrev pub group_index : Group → ℕ
group_index servicegroups = 0
group_index hostgroups = 1
group_index local_servicegroups = 2
group_index local_hostgroups = 3
group_index restrict_path = 4
group_index perfdata_queues = 5

abbrev pub servers_index : Servers → ℕ
servers_index server_list = 0
servers_index dupserver_list = 1

abbrev pub time_index : Time → ℕ
time_index latency = 0
time_index starttime = 1
time_index finishtime = 2

abbrev pub load_index : Load → ℕ
load_index load_limit1 = 0
load_index load_limit5 = 1
load_index load_limit15 = 2

-- The keys that need no value.
abbrev pub switch_keys : List (Bytes × Switch)
switch_keys =
    (codes "perfdata_send_all", perfdata_send_all)
    ∷ (codes "hosts", hosts)
    ∷ (codes "services", services)
    ∷ (codes "eventhandlers", events)
    ∷ (codes "eventhandler", events)
    ∷ (codes "notifications", notifications)
    ∷ (codes "notification", notifications)
    ∷ (codes "debug-result", debug_result)
    ∷ (codes "debug_result", debug_result)
    ∷ (codes "encryption", encryption)
    ∷ (codes "fork_on_exec", fork_on_exec)
    ∷ (codes "do_hostchecks", do_hostchecks)
    ∷ (codes "route_eventhandler_like_checks", route_eventhandler_like_checks)
    ∷ (codes "active", active)
    ∷ (codes "show_error_output", show_error_output)
    ∷ (codes "dup_results_are_passive", dup_results_are_passive)
    ∷ (codes "workaround_rc_25", workaround_rc_25)
    ∷ (codes "orphan_host_checks", orphan_host_checks)
    ∷ (codes "orphan_service_checks", orphan_service_checks)
    ∷ (codes "accept_clear_results", accept_clear_results)
    ∷ (codes "use_uniq_jobs", use_uniq_jobs)
    ∷ []

-- What a key without a value, or with another one than yes and no, stands for.
abbrev pub switched_by_default : Switch → Bool
switched_by_default perfdata_send_all = false
switched_by_default _ = true

-- Setting one of these counts in `set_queues_by_hand`.
abbrev pub is_queue : Switch → Bool
is_queue hosts = true
is_queue services = true
is_queue events = true
is_queue notifications = true
is_queue _ = false

abbrev pub number_keys : List (Bytes × Number)
number_keys =
    (codes "debug", debug_level)
    ∷ (codes "log_stats_interval", log_stats_interval)
    ∷ (codes "result_workers", result_workers)
    ∷ (codes "returncode", return_code)
    ∷ (codes "r", return_code)
    ∷ (codes "timeout", timeout)
    ∷ (codes "t", timeout)
    ∷ (codes "job_timeout", job_timeout)
    ∷ (codes "min-worker", min_worker)
    ∷ (codes "max-worker", max_worker)
    ∷ (codes "max-age", max_age)
    ∷ (codes "idle-timeout", idle_timeout)
    ∷ (codes "max-jobs", max_jobs)
    ∷ (codes "spawn-rate", spawn_rate)
    ∷ (codes "timeout_return", timeout_return)
    ∷ (codes "orphan_return", orphan_return)
    ∷ (codes "perfdata_mode", perfdata_mode)
    ∷ (codes "gearman_connection_timeout", gearman_connection_timeout)
    ∷ []

abbrev pub at_least : ℤ → ℤ → ℤ → ℤ
at_least low dfl v = if ltb_ℤ v low then dfl else v

abbrev pub within : ℤ → ℤ → ℤ → ℤ
within high dfl v = if ltb_ℤ v (pos 0) || ltb_ℤ high v then dfl else v

-- The value that is stored for the number that was read.
abbrev pub limited : Number → ℤ → ℤ
limited debug_level v = at_least (pos 0) (pos 0) v
limited log_stats_interval v = at_least (pos 0) (pos 0) v
limited result_workers v = at_least (pos 0) (pos 0) v
limited return_code v = v
limited timeout v = at_least (pos 0) (pos 10) v
limited job_timeout v = at_least (pos 1) (pos 1) v
limited min_worker v = at_least (pos 1) (pos 1) v
limited max_worker v = at_least (pos 1) (pos 1) v
limited max_age v = at_least (pos 0) (pos 0) v
limited idle_timeout v = at_least (pos 0) (pos 10) v
limited max_jobs v = at_least (pos 0) (pos 1000) v
limited spawn_rate v = at_least (pos 0) (pos 1) v
limited timeout_return v = within (pos 3) (pos 2) v
limited orphan_return v = within (pos 3) (pos 2) v
limited perfdata_mode v = within (pos 2) (pos 1) v
limited latency_flatten_window v = v
limited gearman_connection_timeout v = v

abbrev pub load_keys : List (Bytes × Load)
load_keys =
    (codes "load_limit1", load_limit1)
    ∷ (codes "load_limit5", load_limit5)
    ∷ (codes "load_limit15", load_limit15)
    ∷ []

abbrev pub text_keys : List (Bytes × Text)
text_keys =
    (codes "result_queue", result_queue)
    ∷ (codes "message", message)
    ∷ (codes "m", message)
    ∷ (codes "delimiter", delimiter)
    ∷ (codes "host", host)
    ∷ (codes "service", service)
    ∷ (codes "key", crypt_key)
    ∷ (codes "password", crypt_key)
    ∷ (codes "keyfile", keyfile)
    ∷ (codes "passwordfile", keyfile)
    ∷ (codes "pidfile", pidfile)
    ∷ (codes "logfile", logfile)
    ∷ (codes "identifier", identifier)
    ∷ (codes "host_perfdata_template", host_perfdata_template)
    ∷ (codes "service_perfdata_template", service_perfdata_template)
    ∷ (codes "queue_custom_variable", queue_cust_var)
    ∷ (codes "restrict_command_characters", restrict_command_characters)
    ∷ []

abbrev pub time_keys : List (Bytes × Time)
time_keys =
    (codes "latency", latency)
    ∷ (codes "starttime", starttime)
    ∷ (codes "finishtime", finishtime)
    ∷ []

abbrev pub server_keys : List (Bytes × Servers)
server_keys = (codes "server", server_list) ∷ (codes "dupserver", dupserver_list) ∷ []

abbrev pub group_keys : List (Bytes × Group)
group_keys =
    (codes "servicegroups", servicegroups)
    ∷ (codes "servicegroup", servicegroups)
    ∷ (codes "hostgroups", hostgroups)
    ∷ (codes "hostgroup", hostgroups)
    ∷ (codes "localservicegroups", local_servicegroups)
    ∷ (codes "localservicegroup", local_servicegroups)
    ∷ (codes "localhostgroups", local_hostgroups)
    ∷ (codes "localhostgroup", local_hostgroups)
    ∷ []

abbrev pub logmodes : List (Bytes × LogMode)
logmodes =
    (codes "automatic", auto)
    ∷ (codes "file", file)
    ∷ (codes "stdout", stdout)
    ∷ (codes "syslog", syslog)
    ∷ (codes "core", core)
    ∷ []
