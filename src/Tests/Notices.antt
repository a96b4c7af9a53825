-- ===== src/Tests/Notices.antt =====
-- The theorems on notifications of neb_module_naemon/mod_gearman.c at a concrete one.
use mod_gearman.Common.{
  Bytes, codes, true, false, [], ◌∷◌, ◌++◌, Option, none, some, ◌≡◌, refl, arith,
}
use mod_gearman.Common.Int.{pos}
use mod_gearman.Job.{set_default_job, read_job}
use mod_gearman.Job.Received.{setenv, export_outputs}
use mod_gearman.Neb.{callback_override, callback_cancel}
use mod_gearman.Neb.Notify.{
  Core, State, Notification, Subject, normal, notification_type, notification_text,
  notification_job, handle_notifications,
}
use mod_gearman.Neb.Notify.Sent.{Handled, OneLined, handle_notifications-Handled}
use mod_gearman.Neb.Notify.Environment.{export_outputs-notification_text}
use mod_gearman.Tests.Results.{job}
use mod_gearman.Tests.Nebs.{libc, options, object}

abbrev shown : Option Bytes → Bytes
shown none = codes "(null)"
shown (some s) = s

abbrev core : Core
core = record {
  macros = λ m. none;
  find_contact = λ name. none;
  notification_reason_name = λ r. codes "FLAPPING";
  raw_command_line = λ name. some (codes "/usr/bin/notify $NOTIFICATIONTYPE$");
  process_macros = λ macros s. some (codes "/usr/bin/notify " ++ shown (macros notification_type));
  show = λ n. codes "1";
  show_text = shown;
  core_time = codes "5.0";
  log_global_notifications = true;
  log_notifications = true;
  takes = λ s. true;
}

abbrev service : Subject
service = record {
  object = object;
  host_name = codes "web";
  description = codes "http";
  is_ok = false;
  current_notification_number = pos 1;
  current_notification_id = codes "id";
  long_plugin_output = some (codes "details");
}

abbrev notification : Notification
notification = record {
  is_method_data = true;
  is_start = true;
  contact_name = some (codes "admin");
  is_service = true;
  svc = some service;
  hst = some service;
  command_name = codes "notify";
  ack_author = none;
  ack_data = none;
  reason_type = normal;
  output = some (codes "CRITICAL");
  start_time = codes "4.0";
}

abbrev state : State
state = record { submitted = []; logged = [] }

handle_notifications-Handled_example :
    Handled core notification state (handle_notifications core options.routing notification state)
handle_notifications-Handled_example =
    handle_notifications-Handled core options.routing notification state

abbrev command : Bytes
command = codes "/usr/bin/notify PROBLEM"

lined : OneLined core notification service command
lined = record {
  start_OneLine = (ground arith, λ e. cc e);
  core_OneLine = (ground arith, λ e. cc e);
  contact_OneLine = (ground arith, λ e. cc e);
  command_OneLine = (ground arith, λ e. cc e);
  output_OneLine = (ground arith, λ e. cc e);
  long_OneLine = (ground arith, λ e. cc e);
}

export_outputs-notification_text_example :
    export_outputs
      (read_job libc
        (notification_text core notification service command)
        (set_default_job (pos 60) job)).0
      (λ name. none)
    ≡ some (
        setenv
          (codes "NAGIOS_LONGHOSTOUTPUT")
          (codes "CRITICAL")
          (setenv (codes "NAGIOS_HOSTOUTPUT") (codes "CRITICAL") (λ name. none)))
export_outputs-notification_text_example =
    export_outputs-notification_text libc core notification service command job (pos 60)
      (λ name. none) lined (omega arith)

-- A service with a problem, and one whose macros cannot be processed.
problem :
    handle_notifications core options.routing notification state
    ≡ some (
      callback_override,
      record {
        submitted = notification_job core notification service command ∷ [];
        logged = some command ∷ [];
      },
    )
unfolding handle_notifications mod_gearman.Routing.set_target_queue mod_gearman.Routing.custom_queue
    mod_gearman.Routing.first_group mod_gearman.Routing.from_groups
    mod_gearman.Neb.Notify.notification_macros mod_gearman.Text.Replace.replace_str
    mod_gearman.Text.Replace.copy_loop mod_gearman.Text.Replace.ret_len
    mod_gearman.Text.Replace.buffer_size mod_gearman.Text.Replace.count_loop
    mod_gearman.Text.Replace.strstr mod_gearman.Text.Replace.is_prefix
problem = refl

cancelled :
    handle_notifications
      (record core { process_macros = λ macros s. none })
      options.routing
      notification
      state
    ≡ some (callback_cancel, state)
unfolding handle_notifications mod_gearman.Routing.set_target_queue mod_gearman.Routing.custom_queue
    mod_gearman.Routing.first_group mod_gearman.Routing.from_groups
cancelled = refl
