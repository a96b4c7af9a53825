-- ===== src/Neb/Notify/Environment.antt =====
-- A notification on its way from `handle_notifications` of neb_module_naemon/mod_gearman.c to the
-- environment that `get_job` of worker/worker_client.c gives its command.
use mod_gearman.Common.{Bytes, codes, some, length, ◌-◌, ◌≡◌, ◌≤◌, refl}
use mod_gearman.Common.Int.{ℤ}
use mod_gearman.Job.{Libc, Job, read_job, set_default_job}
use mod_gearman.Job.Received.{Environment, setenv, export_outputs}
use mod_gearman.Neb.{max_output}
use mod_gearman.Neb.Notify.{Core, Notification, Subject, notification_lines, notification_text}
use mod_gearman.Neb.Notify.Sent.{OneLined, read_job-notification_text}

-- The text of a notification names no service. So a worker that reads it sets the two variables for
-- hosts to its output, for a notification of a service as well as of a host, and the long output
-- reaches neither. Every part is not empty and stands on one line, and the text fits into its
-- buffer.
pub export_outputs-notification_text :
    (libc : Libc) (core : Core) (ds : Notification) (s : Subject) (cmd : Bytes) (memory : Job)
    (job_timeout : ℤ) (env : Environment)
    → OneLined core ds s cmd
    → length (notification_lines core ds s cmd) ≤ max_output - 2
    → export_outputs
        (read_job libc (notification_text core ds s cmd) (set_default_job job_timeout memory)).0
        env
      ≡ some (
          setenv
            (codes "NAGIOS_LONGHOSTOUTPUT")
            (core.show_text ds.output)
            (setenv (codes "NAGIOS_HOSTOUTPUT") (core.show_text ds.output) env))
unfolding export_outputs set_default_job
export_outputs-notification_text libc core ds s cmd memory job_timeout env h fits =
    rw (read_job-notification_text libc core ds s cmd (set_default_job job_timeout memory) h fits)
      refl
