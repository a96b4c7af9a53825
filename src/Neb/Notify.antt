-- ===== src/Neb/Notify.antt =====
-- Notifications: `handle_notifications` of neb_module_naemon/mod_gearman.c. Naemon's macros are a
-- function from their names; its raw command line and its `process_macros_r` are arguments that
-- read them, and so are its contacts. The macros are local to a call, so freeing them is left out.
use mod_gearman.Common.{
  ℕ, Bytes, codes, str_eq, Bool, true, false, not, ◌&&◌, ◌||◌, if◌then◌else◌, List, [], ◌∷◌, ◌++◌,
  Option, none, some,
}
use mod_gearman.Common.Int.{ℤ}
use mod_gearman.Text.Replace.{Replaced, replace_str}
use mod_gearman.Routing.{Object, set_target_queue}
use mod_gearman.Neb.{
  Returned, neb_ok, callback_cancel, callback_override, prio_high, Submission, printed,
}
pub mod Sent
pub mod Environment

pub data Macro : Type 0 where
  notification_author notification_author_name notification_author_alias : Macro
  notification_comment notification_type notification_number : Macro
  service_ack_author service_ack_comment service_ack_author_name service_ack_author_alias : Macro
  host_ack_author host_ack_comment host_ack_author_name host_ack_author_alias : Macro
  service_notification_number host_notification_number : Macro
  service_notification_id host_notification_id : Macro
  other_macro : Bytes → Macro

abbrev pub Macros : Type 0
Macros = Macro → Option Bytes

-- `ds->reason_type`, with the name that Naemon has for another one.
pub data Reason : Type 0 where
  normal custom acknowledgement flapping_start flapping_stop flapping_disabled : Reason
  downtime_start downtime_end downtime_cancelled : Reason
  other_reason : Reason

-- A host or a service, as far as it is read here; a service has its host's name, too.
pub record Subject : Type 0 where
  pub object : Object
  pub host_name : Bytes
  pub description : Bytes
  pub is_ok : Bool
  pub current_notification_number : ℤ
  pub current_notification_id : Bytes
  pub long_plugin_output : Option Bytes

pub record Contact : Type 0 where
  pub name : Bytes
  pub alias : Bytes

-- A `nebstruct_contact_notification_method_data`. Its object is the host, or the service with its
-- host.
pub record Notification : Type 0 where
  pub is_method_data : Bool
  pub is_start : Bool
  pub contact_name : Option Bytes
  pub is_service : Bool
  pub svc : Option Subject
  pub hst : Option Subject
  pub command_name : Bytes
  pub ack_author : Option Bytes
  pub ack_data : Option Bytes
  pub reason_type : Reason
  pub output : Option Bytes
  pub start_time : Bytes

-- What Naemon does: its macros before the handler, contacts, the names of reasons, the raw command
-- and the processing of macros; `printf`, the clock, the two switches of its log, and the answer of
-- `add_job_to_queue`.
pub record Core : Type 0 where
  pub macros : Macros
  pub find_contact : Bytes → Option Contact
  pub notification_reason_name : Reason → Bytes
  pub raw_command_line : Bytes → Option Bytes
  pub process_macros : Macros → Bytes → Option Bytes
  pub show : ℤ → Bytes
  pub show_text : Option Bytes → Bytes
  pub core_time : Bytes
  pub log_global_notifications : Bool
  pub log_notifications : Bool
  pub takes : Submission → Bool

pub record State : Type 0 where
  pub submitted : List Submission
  pub logged : List (Option Bytes)

infixr 5 ◌or_keep◌
abbrev ◌or_keep◌ : Option Bytes → Option Bytes → Option Bytes
none or_keep old = old
some v or_keep old = some v

abbrev pub contact_name : Option Bytes → Bytes
contact_name none = codes "GLOBAL"
contact_name (some name) = name

abbrev name_of : Option Contact → Option Bytes
name_of none = none
name_of (some c) = some c.name

abbrev alias_of : Option Contact → Option Bytes
alias_of none = none
alias_of (some c) = some c.alias

abbrev is_acknowledgement : Reason → Bool
is_acknowledgement acknowledgement = true
is_acknowledgement _ = false

abbrev only : Bool → Option Bytes → Option Bytes
only b v = if b then v else none

abbrev pub ret_of : Option Replaced → Option Bytes
ret_of none = none
ret_of (some r) = some r.ret

abbrev pub replaced_newlines : Option Bytes → Option Bytes
replaced_newlines none = none
replaced_newlines (some s) = ret_of (replace_str s (10 ∷ []) (codes "\\n"))

-- The line breaks of the command are replaced twice.
abbrev pub escaped_command : Bytes → Option Bytes
escaped_command s = replaced_newlines (replaced_newlines (some s))

abbrev of_state : Bytes → Bytes → Bytes → Bytes → Bytes
of_state kind word name rest =
    word
    ++ (codes " ($"
        ++ (kind
            ++ (codes "STATE$);" ++ (name ++ (codes ";$" ++ (kind ++ (codes "OUTPUT$" ++ rest)))))))

abbrev author_part : Bytes
author_part = codes ";$NOTIFICATIONAUTHOR$;$NOTIFICATIONCOMMENT$\n"

abbrev reason_text : Bytes → Reason → Bytes → Bytes
reason_text kind custom name = of_state kind (codes "CUSTOM") name author_part
reason_text kind acknowledgement name = of_state kind (codes "ACKNOWLEDGEMENT") name author_part
reason_text kind flapping_start name = of_state kind (codes "FLAPPINGSTART") name (codes "\n")
reason_text kind flapping_stop name = of_state kind (codes "FLAPPINGSTOP") name (codes "\n")
reason_text kind flapping_disabled name = of_state kind (codes "FLAPPINGDISABLED") name (codes "\n")
reason_text kind downtime_start name = of_state kind (codes "DOWNTIMESTART") name (codes "\n")
reason_text kind downtime_end name = of_state kind (codes "DOWNTIMEEND") name (codes "\n")
reason_text kind downtime_cancelled name =
    of_state kind (codes "DOWNTIMECANCELLED") name (codes "\n")
reason_text kind _ name =
    codes "$"
    ++ (kind ++ (codes "STATE$;" ++ (name ++ (codes ";$" ++ (kind ++ codes "OUTPUT$\n")))))

module _ (core : Core) where
  -- The contact of the author is looked up where there is an author.
  abbrev author_contact : Option Bytes → Option Contact
  author_contact none = none
  author_contact (some author) = core.find_contact author

  abbrev type_of : Reason → Bool → Bytes
  type_of normal is_ok = if is_ok then codes "RECOVERY" else codes "PROBLEM"
  type_of reason is_ok = core.notification_reason_name reason

  -- The macros of a notification for its subject: the service, or the host.
  unfoldable pub notification_macros : Notification → Subject → Macros
  notification_macros ds s notification_author =
      ds.ack_author or_keep core.macros notification_author
  notification_macros ds s notification_author_name =
      name_of (author_contact ds.ack_author) or_keep core.macros notification_author_name
  notification_macros ds s notification_author_alias =
      alias_of (author_contact ds.ack_author) or_keep core.macros notification_author_alias
  notification_macros ds s notification_comment =
      ds.ack_data or_keep core.macros notification_comment
  notification_macros ds s notification_type = some (type_of ds.reason_type s.is_ok)
  notification_macros ds s notification_number = some (core.show s.current_notification_number)
  notification_macros ds s service_ack_author =
      only (is_acknowledgement ds.reason_type && ds.is_service) ds.ack_author
      or_keep core.macros service_ack_author
  notification_macros ds s service_ack_comment =
      only (is_acknowledgement ds.reason_type && ds.is_service) ds.ack_data
      or_keep core.macros service_ack_comment
  notification_macros ds s service_ack_author_name =
      only (is_acknowledgement ds.reason_type && ds.is_service)
        (name_of (author_contact ds.ack_author))
      or_keep core.macros service_ack_author_name
  notification_macros ds s service_ack_author_alias =
      only (is_acknowledgement ds.reason_type && ds.is_service)
        (alias_of (author_contact ds.ack_author))
      or_keep core.macros service_ack_author_alias
  notification_macros ds s host_ack_author =
      only (is_acknowledgement ds.reason_type && not ds.is_service) ds.ack_author
      or_keep core.macros host_ack_author
  notification_macros ds s host_ack_comment =
      only (is_acknowledgement ds.reason_type && not ds.is_service) ds.ack_data
      or_keep core.macros host_ack_comment
  notification_macros ds s host_ack_author_name =
      only (is_acknowledgement ds.reason_type && not ds.is_service)
        (name_of (author_contact ds.ack_author))
      or_keep core.macros host_ack_author_name
  notification_macros ds s host_ack_author_alias =
      only (is_acknowledgement ds.reason_type && not ds.is_service)
        (alias_of (author_contact ds.ack_author))
      or_keep core.macros host_ack_author_alias
  notification_macros ds s service_notification_number =
      only ds.is_service (some (core.show s.current_notification_number))
      or_keep core.macros service_notification_number
  notification_macros ds s host_notification_number =
      only (not ds.is_service) (some (core.show s.current_notification_number))
      or_keep core.macros host_notification_number
  notification_macros ds s service_notification_id =
      only ds.is_service (some s.current_notification_id)
      or_keep core.macros service_notification_id
  notification_macros ds s host_notification_id =
      only (not ds.is_service) (some s.current_notification_id)
      or_keep core.macros host_notification_id
  notification_macros ds s (other_macro name) = core.macros (other_macro name)

  abbrev pub notification_lines : Notification → Subject → Bytes → Bytes
  notification_lines ds s cmd =
      codes "type=notification\nstart_time="
      ++ (ds.start_time
          ++ (codes "\ncore_time="
              ++ (core.core_time
                  ++ (codes "\ncontact="
                      ++ (contact_name ds.contact_name
                          ++ (codes "\ncommand_line="
                              ++ (cmd
                                  ++ (codes "\nplugin_output="
                                      ++ (core.show_text ds.output
                                          ++ (codes "\nlong_plugin_output="
                                              ++ (core.show_text s.long_plugin_output
                                                  ++ codes "\n\n\n")))))))))))

  unfoldable pub notification_text : Notification → Subject → Bytes → Bytes
  notification_text ds s cmd = printed (notification_lines ds s cmd)

  abbrev pub notification_job : Notification → Subject → Bytes → Submission
  notification_job ds s cmd = record {
    queue = codes "notification";
    uniq = none;
    data_text = notification_text ds s cmd;
    priority = prio_high;
  }

  unfoldable pub log_text : Notification → Subject → Bytes
  log_text ds s =
      if ds.is_service
      then codes "SERVICE NOTIFICATION: "
        ++ (contact_name ds.contact_name
            ++ (codes ";"
                ++ (s.host_name
                    ++ (codes ";"
                        ++ (s.description
                            ++ (codes ";"
                                ++ reason_text (codes "SERVICE") ds.reason_type
                                    ds.command_name))))))
      else codes "HOST NOTIFICATION: "
        ++ (contact_name ds.contact_name
            ++ (codes ";"
                ++ (s.host_name
                    ++ (codes ";" ++ reason_text (codes "HOST") ds.reason_type ds.command_name))))

  abbrev is_logged : Option Bytes → Bool
  is_logged none = core.log_global_notifications
  is_logged (some name) = core.log_notifications

  abbrev pub log_entries : Notification → Subject → List (Option Bytes)
  log_entries ds s =
      if is_logged ds.contact_name
      then core.process_macros (notification_macros ds s) (log_text ds s) ∷ []
      else []

  abbrev pub submit_notification : Submission → List Submission → List Submission
  submit_notification job jobs = if core.takes job then jobs ++ (job ∷ []) else jobs

  -- The command has line breaks replaced, which cannot run out of rounds; `none` is that it does.
  abbrev pub with_escaped :
      Notification → Subject → Option Bytes → State → Option (Returned × State)
  with_escaped ds s none st = none
  with_escaped ds s (some cmd) st = some (
    callback_override,
    record {
      submitted = submit_notification (notification_job ds s cmd) st.submitted;
      logged = st.logged ++ log_entries ds s;
    },
  )

  abbrev pub with_processed :
      Notification → Subject → Option Bytes → State → Option (Returned × State)
  with_processed ds s none st = some (callback_cancel, st)
  with_processed ds s (some cmd) st = with_escaped ds s (escaped_command cmd) st

  abbrev pub with_raw : Notification → Subject → Option Bytes → State → Option (Returned × State)
  with_raw ds s none st = some (callback_cancel, st)
  with_raw ds s (some raw) st =
      with_processed ds s (core.process_macros (notification_macros ds s) raw) st

  -- A queue that is empty leaves the notification to the core.
  abbrev pub with_queue : Notification → Subject → Bytes → State → Option (Returned × State)
  with_queue ds s [] st = some (neb_ok, st)
  with_queue ds s (c ∷ queue) st = with_raw ds s (core.raw_command_line ds.command_name) st

  module _ (opt : mod_gearman.Routing.Options) where
    abbrev pub notification_subject :
        Notification → Bool → Option Subject → Option Subject → State → Option (Returned × State)
    notification_subject ds true none hst st = some (neb_ok, st)
    notification_subject ds true (some svc) none st = some (neb_ok, st)
    notification_subject ds true (some svc) (some hst) st =
        with_queue ds svc (set_target_queue opt hst.object (some svc.object)) st
    notification_subject ds false svc none st = some (neb_ok, st)
    notification_subject ds false svc (some hst) st =
        with_queue ds hst (set_target_queue opt hst.object none) st

    unfoldable pub handle_notifications : Notification → State → Option (Returned × State)
    unfolding notification_macros notification_text log_text
    handle_notifications ds st =
        if not ds.is_method_data
        then some (neb_ok, st)
        else if not ds.is_start
        then some (neb_ok, st)
        else notification_subject ds ds.is_service ds.svc ds.hst st
