-- ===== src/Neb/Notify/Sent.antt =====
-- What becomes of a notification: `handle_notifications` of neb_module_naemon/mod_gearman.c, and its
-- text as `get_job` of worker/worker_client.c reads it.
use mod_gearman.Common.{
  ℕ, suc, Bytes, codes, Lacks, Bool, true, false, not, List, [], ◌∷◌, ◌++◌, Option, none, some, All,
  All-append, length, append_assoc, take_long, if_both, ◌-◌, ◌≡◌, ◌≢◌, ◌≤◌, ◌<◌, refl, ap, ◌∙◌,
  arith,
}
use mod_gearman.Text.Replace.Laws.{OccursAt, Substituted, done, next, replace_substitutes}
use mod_gearman.Routing.{set_target_queue}
use mod_gearman.Job.{Libc, Job, read_job, set_field}
use mod_gearman.Job.Fields.{Field, IsField, OneLine, one-IsField, text, read_job-text}
use mod_gearman.Neb.{Returned, neb_ok, callback_cancel, callback_override, max_output, printed}
use mod_gearman.Neb.Notify.{
  Core, State, Notification, Subject, contact_name, escaped_command, replaced_newlines, ret_of,
  notification_lines, notification_text, notification_job, notification_macros, log_entries,
  submit_notification, with_processed, with_raw, with_queue, notification_subject,
  handle_notifications,
}

-- Where a line break does not occur there is none.
Lacks-of_none : (p : Bytes) → ((i : ℕ) → ¬ OccursAt (10 ∷ []) p i) → Lacks 10 p
Lacks-of_none [] h = tt
Lacks-of_none (c ∷ p) h = (
  λ e. h 0 ([], p, ap (λ d. d ∷ p) e, refl),
  Lacks-of_none p (λ i (pre, rest, e, n). h (suc i) (c ∷ pre, rest, ap (λ t. c ∷ t) e, ap suc n)),
)

Lacks-before :
    (pre rest : Bytes)
    → ((i : ℕ) → i < length pre → ¬ OccursAt (10 ∷ []) (pre ++ (10 ∷ rest)) i)
    → Lacks 10 pre
Lacks-before [] rest h = tt
Lacks-before (c ∷ pre) rest h = (
  λ e. h 0 (omega arith) ([], pre ++ (10 ∷ rest), ap (λ d. d ∷ (pre ++ (10 ∷ rest))) e, refl),
  Lacks-before pre rest (λ i lt (front, back, e, n).
      h (suc i) (omega arith) (c ∷ front, back, ap (λ t. c ∷ t) e, ap suc n)),
)

Substituted-Lacks : {p out : Bytes} → Substituted (10 ∷ []) (codes "\\n") p out → Lacks 10 out
Substituted-Lacks (done p h) = Lacks-of_none p h
Substituted-Lacks (next pre rest out h s) =
    All-append (λ c. c ≢ 10) pre (codes "\\n" ++ out) (Lacks-before pre rest h)
      (All-append (λ c. c ≢ 10) (codes "\\n") out (ground arith) (Substituted-Lacks s))

replaced_newlines-Lacks :
    (s : Bytes) → (out : Bytes) × (replaced_newlines (some s) ≡ some out) × Lacks 10 out
replaced_newlines-Lacks s =
    let (n, out, e, sub) = replace_substitutes s (10 ∷ []) (codes "\\n") (omega arith) in
    (out, ap ret_of e, Substituted-Lacks sub)

escaped_command-Lacks : (s : Bytes) → (out : Bytes) × (escaped_command s ≡ some out) × Lacks 10 out
escaped_command-Lacks s =
    let (once, e, _) = replaced_newlines-Lacks s in
    let (twice, e', lacks) = replaced_newlines-Lacks once in
    (twice, ap replaced_newlines e ∙ e', lacks)

module _ (core : Core) where
  -- A notification that is sent: one job with a command in one line, if it is taken, and at most one
  -- entry of the log.
  pub record IsSent (ds : Notification) (before after : State) : Type 0 where
    subject : Subject
    command : Bytes
    one_line : Lacks 10 command
    sent :
        after.submitted
        ≡ submit_notification core (notification_job core ds subject command) before.submitted
    log : after.logged ≡ before.logged ++ log_entries core ds subject

  -- Naemon notifies by itself, or not at all, and nothing is sent; or a job is sent instead.
  abbrev pub Handled : Notification → State → Option (Returned × State) → Type 0
  Handled ds st none = ⊥
  Handled ds st (some (neb_ok, st')) = st' ≡ st
  Handled ds st (some (callback_cancel, st')) = st' ≡ st
  Handled ds st (some (callback_override, st')) = IsSent ds st st'

  with_raw-Handled :
      (ds : Notification) (s : Subject) (raw : Option Bytes) (st : State)
      → Handled ds st (with_raw core ds s raw st)
  with_raw-Handled ds s none st = refl
  with_raw-Handled ds s (some raw) st =
      processed (core.process_macros (notification_macros core ds s) raw)
    where
      processed : (o : Option Bytes) → Handled ds st (with_processed core ds s o st)
      processed none = refl
      processed (some cmd) =
          let (out, e, lacks) = escaped_command-Lacks cmd in
          rw e (record { subject = s; command = out; one_line = lacks; sent = refl; log = refl })

  with_queue-Handled :
      (ds : Notification) (s : Subject) (queue : Bytes) (st : State)
      → Handled ds st (with_queue core ds s queue st)
  with_queue-Handled ds s [] st = refl
  with_queue-Handled ds s (c ∷ queue) st =
      with_raw-Handled ds s (core.raw_command_line ds.command_name) st

  module _ (opt : mod_gearman.Routing.Options) where
    subject-Handled :
        (ds : Notification) (b : Bool) (svc hst : Option Subject) (st : State)
        → Handled ds st (notification_subject core opt ds b svc hst st)
    subject-Handled ds true none hst st = refl
    subject-Handled ds true (some svc) none st = refl
    subject-Handled ds true (some svc) (some hst) st =
        with_queue-Handled ds svc (set_target_queue opt hst.object (some svc.object)) st
    subject-Handled ds false svc none st = refl
    subject-Handled ds false svc (some hst) st =
        with_queue-Handled ds hst (set_target_queue opt hst.object none) st

-- Whatever notification Naemon hands over, the handler returns. Where it lets Naemon go on or cancels,
-- it sends and logs nothing. Otherwise Naemon does not run the command: one job is sent, if it is
-- taken, whose command line holds no line break, and the log gets its entry.
pub handle_notifications-Handled :
    (core : Core) (opt : mod_gearman.Routing.Options) (ds : Notification) (st : State)
    → Handled core ds st (handle_notifications core opt ds st)
unfolding handle_notifications
handle_notifications-Handled core opt ds st =
    if_both (Handled core ds st) (not ds.is_method_data) (λ _. refl)
      (λ _.
        if_both (Handled core ds st) (not ds.is_start) (λ _. refl)
          (λ _. subject-Handled core opt ds ds.is_service ds.svc ds.hst st))

module _ (core : Core) where
  abbrev pub notification_fields : Notification → Subject → Bytes → List Field
  notification_fields ds s cmd =
      record { key = codes "type"; value = codes "notification" }
      ∷ record { key = codes "start_time"; value = ds.start_time }
      ∷ record { key = codes "core_time"; value = core.core_time }
      ∷ record { key = codes "contact"; value = contact_name ds.contact_name }
      ∷ record { key = codes "command_line"; value = cmd }
      ∷ record { key = codes "plugin_output"; value = core.show_text ds.output }
      ∷ record { key = codes "long_plugin_output"; value = core.show_text s.long_plugin_output }
      ∷ []

  -- The parts of a notification that stand on one line each.
  pub record OneLined (ds : Notification) (s : Subject) (cmd : Bytes) : Type 0 where
    pub start_OneLine : OneLine ds.start_time
    pub core_OneLine : OneLine core.core_time
    pub contact_OneLine : OneLine (contact_name ds.contact_name)
    pub command_OneLine : OneLine cmd
    pub output_OneLine : OneLine (core.show_text ds.output)
    pub long_OneLine : OneLine (core.show_text s.long_plugin_output)

  notification_lines-text :
      (ds : Notification) (s : Subject) (cmd : Bytes)
      → notification_lines core ds s cmd ≡ text (notification_fields ds s cmd) ++ codes "\n\n"
  notification_lines-text ds s cmd = simp append_assoc

  notification_fields-IsField :
      (ds : Notification) (s : Subject) (cmd : Bytes)
      → OneLined ds s cmd
      → All IsField (notification_fields ds s cmd)
  notification_fields-IsField ds s cmd h = (
    one-IsField (codes "type") _ (ground arith) (ground arith) (ground arith, λ e. cc e),
    (
      one-IsField (codes "start_time") _ (ground arith) (ground arith) h.start_OneLine,
      (
        one-IsField (codes "core_time") _ (ground arith) (ground arith) h.core_OneLine,
        (
          one-IsField (codes "contact") _ (ground arith) (ground arith) h.contact_OneLine,
          (
            one-IsField (codes "command_line") _ (ground arith) (ground arith) h.command_OneLine,
            (
              one-IsField (codes "plugin_output") _ (ground arith) (ground arith) h.output_OneLine,
              (
                one-IsField (codes "long_plugin_output") _ (ground arith) (ground arith)
                    h.long_OneLine,
                tt,
              ),
            ),
          ),
        ),
      ),
    ),
  )

-- The text of a notification, read by a worker: its type, the start as the time of the next check,
-- the core's time, the command line and the two outputs are those that the module wrote, in six
-- fields that count; the contact is not kept, nor are host and service, and the other fields stay.
-- Every part is not empty and stands on one line, and the text fits into its buffer.
pub read_job-notification_text :
    (libc : Libc) (core : Core) (ds : Notification) (s : Subject) (cmd : Bytes) (job : Job)
    → OneLined core ds s cmd
    → length (notification_lines core ds s cmd) ≤ max_output - 2
    → read_job libc (notification_text core ds s cmd) job ≡ (
      record job {
        type = some (codes "notification");
        next_check = libc.string2timeval ds.start_time;
        core_time = libc.string2timeval core.core_time;
        command_line = some cmd;
        output = some (core.show_text ds.output);
        long_output = some (core.show_text s.long_plugin_output);
      },
      6,
    )
unfolding notification_text set_field printed
read_job-notification_text libc core ds s cmd job h fits =
    rw
      (take_long (max_output - 2) (notification_lines core ds s cmd) fits
        ∙ notification_lines-text core ds s cmd)
      (read_job-text libc (notification_fields core ds s cmd) (codes "\n\n") job
        (notification_fields-IsField core ds s cmd h) refl)
