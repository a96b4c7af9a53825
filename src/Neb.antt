-- ===== src/Neb.antt =====
-- The callbacks of the NEB module for checks and event handlers: `handle_host_check`,
-- `handle_svc_check` and `handle_eventhandler` of neb_module_naemon/mod_gearman.c.
-- What Naemon hands over is a record of what the code reads; `add_job_to_queue` answers by an
-- argument, and what it takes is a list of jobs. `none` is undefined behaviour.
pub mod Dummy
pub mod Jobs
pub mod Outcomes
pub mod Delay
pub mod Export
pub mod Collect
pub mod Templates
pub mod Registered
pub mod Perfdata
pub mod Notify
use mod_gearman.Common.{
  ℕ, Bytes, codes, str_eq, Bool, true, false, not, ◌&&◌, ◌||◌, if◌then◌else◌, List, [], ◌∷◌, ◌++◌,
  Option, none, some, take, ◌-◌,
}
use mod_gearman.Common.Int.{ℤ, pos}
use mod_gearman.Job.{Timeval}
use mod_gearman.Routing.{Object, set_target_queue}
use mod_gearman.Result.{
  Float, CheckResult, host_check, service_check, active, timeval2double, no_time,
}
use mod_gearman.Neb.Dummy.{Reply, declined, answered, undefined, try_check_dummy}

-- `snprintf( temp_buffer, GM_MAX_OUTPUT-1, ...)`
abbrev pub max_output : ℕ
max_output = 10485760

unfoldable pub printed : Bytes → Bytes
printed s = take (max_output - 2) s

-- What the callback tells Naemon: to run it, not to run it, or that it is run elsewhere.
pub data Returned : Type 0 where
  neb_ok callback_cancel callback_override : Returned

pub data Priority : Type 0 where
  prio_low prio_normal prio_high : Priority

-- A call of `add_job_to_queue`.
pub record Submission : Type 0 where
  pub queue : Bytes
  pub uniq : Option Bytes
  pub data_text : Bytes
  pub priority : Priority

pub record Options : Type 0 where
  pub routing : mod_gearman.Routing.Options
  pub result_queue : Bytes
  pub do_hostchecks : Bool
  pub internal_check_dummy : Bool
  pub use_uniq_jobs : Bool
  pub orphan_host_checks : Bool
  pub orphan_service_checks : Bool
  pub orphan_return : ℤ
  pub route_eventhandler_like_checks : Bool

-- `printf`, the bits of check options, the hash of `make_uniq`, the answer of `add_job_to_queue`,
-- the clocks, and what `init_check_result` leaves.
pub record Env (float : Float) : Type 0 where
  pub show : ℤ → Bytes
  pub show_double : float.Double → Bytes
  pub bit_or : ℕ → ℕ → ℕ
  pub is_orphan : ℕ → Bool
  pub is_forced : ℕ → Bool
  pub hexsum : Bytes → Bytes
  pub takes : Submission → Bool
  pub core_time : Timeval
  pub time : ℤ
  pub gm_version : Bytes
  pub init_check_result : CheckResult float

-- The host or service that is checked.
pub record Checked : Type 0 where
  pub check_options : ℕ
  pub is_being_freshened : Bool
  pub is_executing : Bool

pub record State (float : Float) : Type 0 where
  pub object : Checked
  pub submitted : List Submission
  pub mod_gm_result_list : List (CheckResult float)

-- A `nebstruct_host_check_data` or `nebstruct_service_check_data`.
pub record Event (float : Float) : Type 0 where
  pub is_check_data : Bool
  pub is_initiate : Bool
  pub host_name : Bytes
  pub service_description : Bytes
  pub result_options : ℕ
  pub latency : float.Double
  pub timeout : ℤ
  pub command_line : Option Bytes

-- A host or service object with the name that it has itself.
pub record Named : Type 0 where
  pub name : Bytes
  pub object : Object

module _ (float : Float) (opt : Options) (env : Env float) where
  unfoldable pub make_uniq : Bytes → Bytes
  make_uniq s = env.hexsum (take 1023 s)

  -- `timeval2double(&core_time) - latency`, with a latency below 0 set to 0.
  abbrev pub start_text : Event float → Bytes
  start_text ev = env.show_double (
      float.minus (timeval2double float env.core_time)
        (if float.is_negative ev.latency then float.zero_double else ev.latency))

  abbrev pub host_lines : Bytes → Bytes → Event float → Bytes → Bytes
  host_lines queue name ev cmd =
      (codes "type=host\nresult_queue="
        ++ (opt.result_queue
            ++ (codes "\ntarget_queue="
                ++ (queue
                    ++ (codes "\nhost_name="
                        ++ (name
                            ++ (codes "\ncore_time="
                                ++ (start_text ev
                                    ++ (codes "\ntimeout="
                                        ++ (env.show ev.timeout
                                            ++ (codes "\ncommand_line="
                                                ++ (cmd ++ codes "\n\n\n"))))))))))))

  unfoldable pub host_text : Bytes → Bytes → Event float → Bytes → Bytes
  host_text queue name ev cmd = printed (host_lines queue name ev cmd)

  abbrev pub service_lines : Bytes → Event float → Bytes → Bytes
  service_lines queue ev cmd =
      (codes "type=service\nresult_queue="
        ++ (opt.result_queue
            ++ (codes "\ntarget_queue="
                ++ (queue
                    ++ (codes "\nhost_name="
                        ++ (ev.host_name
                            ++ (codes "\nservice_description="
                                ++ (ev.service_description
                                    ++ (codes "\ncore_time="
                                        ++ (start_text ev
                                            ++ (codes "\ntimeout="
                                                ++ (env.show ev.timeout
                                                    ++ (codes "\ncommand_line="
                                                        ++ (cmd ++ codes "\n\n\n"))))))))))))))

  unfoldable pub service_text : Bytes → Event float → Bytes → Bytes
  service_text queue ev cmd = printed (service_lines queue ev cmd)

  abbrev pub uniq_of : Bytes → Option Bytes
  uniq_of s = if opt.use_uniq_jobs then some (make_uniq s) else none

  -- The result that marks an orphaned check.
  abbrev pub orphan_result : Bytes → Bytes → Bytes → Option Bytes → CheckResult float
  orphan_result kind queue host service =
      let init = env.init_check_result in
      record init {
        host_name = some host;
        service_description = service;
        scheduled_check = pos 1;
        output = some (
            printed (
              codes "("
              ++ (kind
                  ++ (codes " check orphaned, is the mod-gearman worker on queue '"
                      ++ (queue ++ codes "' running?)\n")))));
        return_code = opt.orphan_return;
        check_options = pos 0;
        object_check_type = (elim service [ none ↦ host_check | some d ↦ service_check ]);
        check_type = active;
        start_time = record { tv_sec = env.time; tv_usec = init.start_time.tv_usec };
        finish_time = record { tv_sec = env.time; tv_usec = init.finish_time.tv_usec };
        latency = float.zero_double;
      }

  abbrev pub executing : Bool → State float → State float
  executing b st = record st { object = record st.object { is_executing = b } }

  -- The check options and the freshening flag are cleared.
  abbrev pub cleared : State float → State float
  cleared st = record st {
    object = record st.object { check_options = 0; is_being_freshened = false };
  }

  abbrev pub add_orphan : Option (CheckResult float) → State float → State float
  add_orphan none st = st
  add_orphan (some c) st = record st { mod_gm_result_list = c ∷ st.mod_gm_result_list }

  -- From the execution flag on: the job is sent, or the flag is taken back.
  unfoldable pub submit :
      Submission → Option (CheckResult float) → State float → Returned × State float
  submit job orphan st =
      if env.takes job
      then (
        callback_override,
        add_orphan orphan (record (executing true st) { submitted = job ∷ st.submitted }),
      )
      else (callback_cancel, executing false st)

  abbrev pub or_submit :
      Reply float
      → (State float → Returned × State float)
      → State float
      → Option (Returned × State float)
  or_submit declined next st = some (next st)
  or_submit (answered c) next st =
      some (callback_override, record st { mod_gm_result_list = c ∷ st.mod_gm_result_list })
  or_submit undefined next st = none

  -- The checks that are intercepted.
  abbrev pub intercept :
      Bytes
      → Bytes
      → Option Bytes
      → (State float → Returned × State float)
      → State float
      → Option (Returned × State float)
  intercept cmd host service next st =
      if opt.internal_check_dummy
      then or_submit
          (try_check_dummy float env.init_check_result env.time env.gm_version cmd host service)
          next st
      else some (next st)

  abbrev pub host_job : Bytes → Bytes → Event float → Bytes → Submission
  host_job queue name ev cmd = record {
    queue = queue;
    uniq = uniq_of name;
    data_text = host_text queue name ev cmd;
    priority = prio_normal;
  }

  abbrev pub host_orphan : ℕ → Bytes → Bytes → Option (CheckResult float)
  host_orphan options queue name =
      if opt.orphan_host_checks && env.is_orphan options
      then some (orphan_result (codes "host") queue name none)
      else none

  abbrev pub host_command :
      Bytes → ℕ → Bytes → Event float → Option Bytes → State float → Option (Returned × State float)
  host_command queue options name ev none st = some (callback_cancel, st)
  host_command queue options name ev (some cmd) st =
      intercept cmd name none (submit (host_job queue name ev cmd) (host_orphan options queue name))
        st

  -- An empty queue is a local check.
  abbrev pub host_queue :
      Bytes → Named → Event float → State float → Option (Returned × State float)
  host_queue [] hst ev st = some (neb_ok, st)
  host_queue (c ∷ queue) hst ev st =
      host_command (c ∷ queue) (env.bit_or st.object.check_options ev.result_options) hst.name ev
        ev.command_line (cleared st)

  abbrev pub host_object :
      Option Named → Event float → State float → Option (Returned × State float)
  host_object none ev st = some (callback_cancel, st)
  host_object (some hst) ev st = host_queue (set_target_queue opt.routing hst.object none) hst ev st

  unfoldable pub handle_host_check :
      Event float → Option Named → State float → Option (Returned × State float)
  unfolding submit
  handle_host_check ev hst st =
      if not opt.do_hostchecks
      then some (neb_ok, st)
      else if not ev.is_check_data
      then some (neb_ok, st)
      else if not ev.is_initiate
      then some (neb_ok, st)
      else host_object hst ev st

  abbrev pub service_job : Bytes → ℕ → Event float → Bytes → Submission
  service_job queue options ev cmd = record {
    queue = queue;
    uniq = uniq_of (ev.host_name ++ (codes "-" ++ ev.service_description));
    data_text = service_text queue ev cmd;
    priority = if env.is_forced options then prio_high else prio_low;
  }

  -- `svc->host_name` is the name of its host.
  abbrev pub service_orphan : ℕ → Bytes → Bytes → Bytes → Option (CheckResult float)
  service_orphan options queue host description =
      if opt.orphan_service_checks && env.is_orphan options
      then some (orphan_result (codes "service") queue host (some description))
      else none

  abbrev pub service_command :
      Bytes
      → ℕ
      → Named
      → Named
      → Event float
      → Option Bytes
      → State float
      → Option (Returned × State float)
  service_command queue options svc hst ev none st = some (callback_cancel, st)
  service_command queue options svc hst ev (some cmd) st =
      intercept cmd hst.name (some svc.name)
        (submit (service_job queue options ev cmd) (service_orphan options queue hst.name svc.name))
        st

  abbrev pub service_queue :
      Bytes → Named → Named → Event float → State float → Option (Returned × State float)
  service_queue [] svc hst ev st = some (neb_ok, st)
  service_queue (c ∷ queue) svc hst ev st =
      service_command (c ∷ queue) (env.bit_or st.object.check_options ev.result_options) svc hst ev
        ev.command_line (cleared st)

  abbrev pub service_object :
      Option Named → Option Named → Event float → State float → Option (Returned × State float)
  service_object none hst ev st = some (callback_cancel, st)
  service_object (some svc) none ev st = some (callback_cancel, st)
  service_object (some svc) (some hst) ev st =
      service_queue (set_target_queue opt.routing hst.object (some svc.object)) svc hst ev st

  unfoldable pub handle_svc_check :
      Event float → Option Named → Option Named → State float → Option (Returned × State float)
  unfolding submit
  handle_svc_check ev svc hst st =
      if not ev.is_check_data
      then some (neb_ok, st)
      else if not ev.is_initiate
      then some (neb_ok, st)
      else service_object svc hst ev st

  unfoldable pub eventhandler_text : Bytes → Bytes
  eventhandler_text cmd =
      let now = env.show_double (timeval2double float env.core_time) in
      printed (
        codes "type=eventhandler\nstart_time="
        ++ (now
            ++ (codes "\ncore_time="
                ++ (now ++ (codes "\ncommand_line=" ++ (cmd ++ codes "\n\n\n"))))))

  abbrev pub eventhandler_queue : Bytes → Bytes
  eventhandler_queue queue =
      if not opt.route_eventhandler_like_checks
        || (str_eq queue (codes "host") || str_eq queue (codes "service"))
      then codes "eventhandler"
      else queue

  -- A job that is not taken is only logged.
  abbrev pub send_eventhandler : Bytes → Bytes → List Submission → Returned × List Submission
  send_eventhandler [] cmd sent = (neb_ok, sent)
  send_eventhandler (c ∷ queue) cmd sent =
      let job : Submission = record {
        queue = eventhandler_queue (c ∷ queue);
        uniq = none;
        data_text = eventhandler_text cmd;
        priority = prio_normal;
      } in
      (callback_override, if env.takes job then job ∷ sent else sent)

  abbrev pub eventhandler_object :
      Bool → Option Object → Option Object → Bytes → List Submission → Returned × List Submission
  eventhandler_object true none hst cmd sent = (neb_ok, sent)
  eventhandler_object true (some svc) none cmd sent = (neb_ok, sent)
  eventhandler_object true (some svc) (some hst) cmd sent =
      send_eventhandler (set_target_queue opt.routing hst (some svc)) cmd sent
  eventhandler_object false svc none cmd sent = (neb_ok, sent)
  eventhandler_object false svc (some hst) cmd sent =
      send_eventhandler (set_target_queue opt.routing hst none) cmd sent

  -- `is_data` and `is_start` are the two tests of types, `of_service` that of
  -- `ds->service_description`.
  unfoldable pub handle_eventhandler :
      Bool
      → Bool
      → Bool
      → Option Object
      → Option Object
      → Bytes
      → List Submission
      → Returned × List Submission
  unfolding eventhandler_text
  handle_eventhandler is_data is_start of_service svc hst cmd sent =
      if not is_data
      then (neb_ok, sent)
      else if not is_start
      then (neb_ok, sent)
      else eventhandler_object of_service svc hst cmd sent
