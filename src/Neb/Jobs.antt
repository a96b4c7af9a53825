-- ===== src/Neb/Jobs.antt =====
-- The job texts of `handle_host_check` and `handle_svc_check` in neb_module_naemon/mod_gearman.c, as
-- `get_job` of worker/worker_client.c reads them.
use mod_gearman.Common.{
  Bytes, codes, List, [], ◌∷◌, ◌++◌, some, length, take_long, append_assoc, All, ◌-◌, ◌≡◌, ◌≤◌,
  refl, ◌∙◌, arith,
}
use mod_gearman.Job.{Libc, Job, read_job, set_field}
use mod_gearman.Job.Fields.{Field, IsField, OneLine, one-IsField, text, read_job-text}
use mod_gearman.Result.{Float}
use mod_gearman.Neb.{
  Options, Env, Event, max_output, printed, host_lines, service_lines, host_text, service_text,
  start_text,
}

module _ (float : Float) (opt : Options) (env : Env float) where
  abbrev pub host_fields : Bytes → Bytes → Event float → Bytes → List Field
  host_fields queue name ev cmd =
      record { key = codes "type"; value = codes "host" }
      ∷ record { key = codes "result_queue"; value = opt.result_queue }
      ∷ record { key = codes "target_queue"; value = queue }
      ∷ record { key = codes "host_name"; value = name }
      ∷ record { key = codes "core_time"; value = start_text float opt env ev }
      ∷ record { key = codes "timeout"; value = env.show ev.timeout }
      ∷ record { key = codes "command_line"; value = cmd }
      ∷ []

  abbrev pub service_fields : Bytes → Event float → Bytes → List Field
  service_fields queue ev cmd =
      record { key = codes "type"; value = codes "service" }
      ∷ record { key = codes "result_queue"; value = opt.result_queue }
      ∷ record { key = codes "target_queue"; value = queue }
      ∷ record { key = codes "host_name"; value = ev.host_name }
      ∷ record { key = codes "service_description"; value = ev.service_description }
      ∷ record { key = codes "core_time"; value = start_text float opt env ev }
      ∷ record { key = codes "timeout"; value = env.show ev.timeout }
      ∷ record { key = codes "command_line"; value = cmd }
      ∷ []

  abbrev pub whole : List Field → Bytes
  whole fields = text fields ++ codes "\n\n"

  -- The parts of a job that stand on one line each.
  pub record OneLined (queue name : Bytes) (ev : Event float) (cmd : Bytes) : Type 0 where
    pub result_queue_OneLine : OneLine opt.result_queue
    pub queue_OneLine : OneLine queue
    pub name_OneLine : OneLine name
    pub time_OneLine : OneLine (start_text float opt env ev)
    pub timeout_OneLine : OneLine (env.show ev.timeout)
    pub command_OneLine : OneLine cmd

  host_lines-whole :
      (queue name : Bytes) (ev : Event float) (cmd : Bytes)
      → host_lines float opt env queue name ev cmd ≡ whole (host_fields queue name ev cmd)
  host_lines-whole queue name ev cmd = simp append_assoc

  service_lines-whole :
      (queue : Bytes) (ev : Event float) (cmd : Bytes)
      → service_lines float opt env queue ev cmd ≡ whole (service_fields queue ev cmd)
  service_lines-whole queue ev cmd = simp append_assoc

  host_fields-IsField :
      (queue name : Bytes) (ev : Event float) (cmd : Bytes)
      → OneLined queue name ev cmd
      → All IsField (host_fields queue name ev cmd)
  host_fields-IsField queue name ev cmd h = (
    one-IsField (codes "type") _ (ground arith) (ground arith) (ground arith, λ e. cc e),
    (
      one-IsField (codes "result_queue") _ (ground arith) (ground arith) h.result_queue_OneLine,
      (
        one-IsField (codes "target_queue") _ (ground arith) (ground arith) h.queue_OneLine,
        (
          one-IsField (codes "host_name") _ (ground arith) (ground arith) h.name_OneLine,
          (
            one-IsField (codes "core_time") _ (ground arith) (ground arith) h.time_OneLine,
            (
              one-IsField (codes "timeout") _ (ground arith) (ground arith) h.timeout_OneLine,
              (
                one-IsField (codes "command_line") _ (ground arith) (ground arith)
                    h.command_OneLine,
                tt,
              ),
            ),
          ),
        ),
      ),
    ),
  )

  service_fields-IsField :
      (queue : Bytes) (ev : Event float) (cmd : Bytes)
      → OneLined queue ev.host_name ev cmd
      → OneLine ev.service_description
      → All IsField (service_fields queue ev cmd)
  service_fields-IsField queue ev cmd h d = (
    one-IsField (codes "type") _ (ground arith) (ground arith) (ground arith, λ e. cc e),
    (
      one-IsField (codes "result_queue") _ (ground arith) (ground arith) h.result_queue_OneLine,
      (
        one-IsField (codes "target_queue") _ (ground arith) (ground arith) h.queue_OneLine,
        (
          one-IsField (codes "host_name") _ (ground arith) (ground arith) h.name_OneLine,
          (
            one-IsField (codes "service_description") _ (ground arith) (ground arith) d,
            (
              one-IsField (codes "core_time") _ (ground arith) (ground arith) h.time_OneLine,
              (
                one-IsField (codes "timeout") _ (ground arith) (ground arith) h.timeout_OneLine,
                (
                  one-IsField (codes "command_line") _ (ground arith) (ground arith)
                      h.command_OneLine,
                  tt,
                ),
              ),
            ),
          ),
        ),
      ),
    ),
  )

printed_whole : (s t : Bytes) → s ≡ t → length s ≤ max_output - 2 → printed s ≡ t
unfolding printed
printed_whole s t e fits = take_long (max_output - 2) s fits ∙ e

-- The text of a host check, read by a worker: type, result queue, host name, time, timeout and
-- command line of the job are those that the module wrote, in six fields that count, and the other fields stay. Every part is
-- not empty and stands on one line, and the text fits into its buffer.
pub read_job-host_text :
    (libc : Libc) (float : Float) (opt : Options) (env : Env float) (queue name : Bytes)
    (ev : Event float) (cmd : Bytes) (job : Job)
    → OneLined float opt env queue name ev cmd
    → length (host_lines float opt env queue name ev cmd) ≤ max_output - 2
    → read_job libc (host_text float opt env queue name ev cmd) job ≡ (
      record job {
        type = some (codes "host");
        result_queue = some opt.result_queue;
        host_name = some name;
        core_time = libc.string2timeval (start_text float opt env ev);
        timeout = libc.atoi (env.show ev.timeout);
        command_line = some cmd;
      },
      6,
    )
unfolding host_text set_field
read_job-host_text libc float opt env queue name ev cmd job h fits =
    rw
      (printed_whole (host_lines float opt env queue name ev cmd) _
        (host_lines-whole float opt env queue name ev cmd) fits)
      (read_job-text libc (host_fields float opt env queue name ev cmd) (codes "\n\n") job
        (host_fields-IsField float opt env queue name ev cmd h) refl)

-- The text of a service check, read by a worker: type, result queue, host name, description, time,
-- timeout and command line of the job are those that the module wrote, in seven fields that count, and the other
-- fields stay. Every part is not empty and stands on one line, and the text fits into its buffer.
pub read_job-service_text :
    (libc : Libc) (float : Float) (opt : Options) (env : Env float) (queue : Bytes)
    (ev : Event float) (cmd : Bytes) (job : Job)
    → OneLined float opt env queue ev.host_name ev cmd
    → OneLine ev.service_description
    → length (service_lines float opt env queue ev cmd) ≤ max_output - 2
    → read_job libc (service_text float opt env queue ev cmd) job ≡ (
      record job {
        type = some (codes "service");
        result_queue = some opt.result_queue;
        host_name = some ev.host_name;
        service_description = some ev.service_description;
        core_time = libc.string2timeval (start_text float opt env ev);
        timeout = libc.atoi (env.show ev.timeout);
        command_line = some cmd;
      },
      7,
    )
unfolding service_text set_field
read_job-service_text libc float opt env queue ev cmd job h d fits =
    rw
      (printed_whole (service_lines float opt env queue ev cmd) _
        (service_lines-whole float opt env queue ev cmd) fits)
      (read_job-text libc (service_fields float opt env queue ev cmd) (codes "\n\n") job
        (service_fields-IsField float opt env queue ev cmd h d) refl)
