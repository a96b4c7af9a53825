-- ===== src/Neb/Outcomes.antt =====
-- What a check ends in: `handle_host_check` and `handle_svc_check` of neb_module_naemon/mod_gearman.c.
use mod_gearman.Common.{
  ℕ, Bytes, true, false, not, if_both, [], ◌∷◌, Option, none, some, ◌≡◌, ◌⊎◌, inl, inr, refl,
}
use mod_gearman.Routing.{set_target_queue}
use mod_gearman.Result.{Float, CheckResult}
use mod_gearman.Neb.Dummy.{Reply, declined, answered, undefined, try_check_dummy}
use mod_gearman.Neb.{
  Options, Env, Event, Named, Checked, State, Returned, neb_ok, callback_cancel, callback_override,
  Submission, cleared, add_orphan, submit, or_submit, intercept, host_job, host_orphan,
  host_command, host_queue, host_object, handle_host_check, service_job, service_orphan,
  service_command, service_queue, service_object, handle_svc_check,
}

module _ (float : Float) (opt : Options) (env : Env float) where
  -- The answer to Naemon and the state afterwards. Naemon runs the check itself: nothing has changed.
  -- It is cancelled: no job, no result, and the object is not marked as executing by the module. It has been
  -- answered: one result, no job. It has been sent: one job that was taken, and the object is executing.
  pub data Handled (st : State float) : Returned × State float → Type 0 where
    kept : Handled st (neb_ok, st)
    cancelled :
        (o : Checked)
        → (o.is_executing ≡ false) ⊎ (o.is_executing ≡ st.object.is_executing)
        → Handled st (
          callback_cancel,
          record {
            object = o;
            submitted = st.submitted;
            mod_gm_result_list = st.mod_gm_result_list;
          },
        )
    answered_here :
        (o : Checked) (c : CheckResult float)
        → Handled st (
          callback_override,
          record {
            object = o;
            submitted = st.submitted;
            mod_gm_result_list = c ∷ st.mod_gm_result_list;
          },
        )
    sent :
        (job : Submission) (orphan : Option (CheckResult float))
        → env.takes job ≡ true
        → Handled st (
          callback_override,
          add_orphan float opt env orphan (record {
            object = record { check_options = 0; is_being_freshened = false; is_executing = true };
            submitted = job ∷ st.submitted;
            mod_gm_result_list = st.mod_gm_result_list;
          }),
        )

  abbrev pub AllHandled : State float → Option (Returned × State float) → Type 0
  AllHandled st none = Unit
  AllHandled st (some done) = Handled st done

  submit-Handled :
      (job : Submission) (orphan : Option (CheckResult float)) (st : State float)
      → Handled st (submit float opt env job orphan (cleared float opt env st))
  unfolding submit
  submit-Handled job orphan st =
      if_both (Handled st) (env.takes job) (λ e. sent job orphan e)
        (λ _.
          cancelled (record { check_options = 0; is_being_freshened = false; is_executing = false })
            (inl refl))

  or_submit-Handled :
      (reply : Reply float) (job : Submission) (orphan : Option (CheckResult float))
      (st : State float)
      → AllHandled st (
          or_submit float opt env reply
            (submit float opt env job orphan)
            (cleared float opt env st))
  or_submit-Handled declined job orphan st = submit-Handled job orphan st
  or_submit-Handled (answered c) job orphan st = answered_here ((cleared float opt env st).object) c
  or_submit-Handled undefined job orphan st = tt

  intercept-Handled :
      (cmd host : Bytes) (service : Option Bytes) (job : Submission)
      (orphan : Option (CheckResult float)) (st : State float)
      → AllHandled st (
          intercept float opt env cmd host service
            (submit float opt env job orphan)
            (cleared float opt env st))
  intercept-Handled cmd host service job orphan st =
      if_both (AllHandled st) opt.internal_check_dummy
        (λ _.
          or_submit-Handled
            (try_check_dummy float env.init_check_result env.time env.gm_version cmd host service)
            job orphan st)
        (λ _. submit-Handled job orphan st)

  host_command-Handled :
      (queue : Bytes) (options : ℕ) (name : Bytes) (ev : Event float) (cmd : Option Bytes)
      (st : State float)
      → AllHandled st
          (host_command float opt env queue options name ev cmd (cleared float opt env st))
  host_command-Handled queue options name ev none st =
      cancelled ((cleared float opt env st).object) (inr refl)
  host_command-Handled queue options name ev (some cmd) st =
      intercept-Handled cmd name none (host_job float opt env queue name ev cmd)
        (host_orphan float opt env options queue name) st

  host_queue-Handled :
      (queue : Bytes) (hst : Named) (ev : Event float) (st : State float)
      → AllHandled st (host_queue float opt env queue hst ev st)
  host_queue-Handled [] hst ev st = kept
  host_queue-Handled (c ∷ queue) hst ev st =
      host_command-Handled (c ∷ queue) (env.bit_or st.object.check_options ev.result_options)
        hst.name ev ev.command_line st

  host_object-Handled :
      (hst : Option Named) (ev : Event float) (st : State float)
      → AllHandled st (host_object float opt env hst ev st)
  host_object-Handled none ev st = cancelled st.object (inr refl)
  host_object-Handled (some hst) ev st =
      host_queue-Handled (set_target_queue opt.routing hst.object none) hst ev st

  service_command-Handled :
      (queue : Bytes) (options : ℕ) (svc hst : Named) (ev : Event float) (cmd : Option Bytes)
      (st : State float)
      → AllHandled st
          (service_command float opt env queue options svc hst ev cmd (cleared float opt env st))
  service_command-Handled queue options svc hst ev none st =
      cancelled ((cleared float opt env st).object) (inr refl)
  service_command-Handled queue options svc hst ev (some cmd) st =
      intercept-Handled cmd hst.name (some svc.name)
        (service_job float opt env queue options ev cmd)
        (service_orphan float opt env options queue hst.name svc.name) st

  service_queue-Handled :
      (queue : Bytes) (svc hst : Named) (ev : Event float) (st : State float)
      → AllHandled st (service_queue float opt env queue svc hst ev st)
  service_queue-Handled [] svc hst ev st = kept
  service_queue-Handled (c ∷ queue) svc hst ev st =
      service_command-Handled (c ∷ queue) (env.bit_or st.object.check_options ev.result_options) svc
        hst ev ev.command_line st

  service_object-Handled :
      (svc hst : Option Named) (ev : Event float) (st : State float)
      → AllHandled st (service_object float opt env svc hst ev st)
  service_object-Handled none hst ev st = cancelled st.object (inr refl)
  service_object-Handled (some svc) none ev st = cancelled st.object (inr refl)
  service_object-Handled (some svc) (some hst) ev st =
      service_queue-Handled (set_target_queue opt.routing hst.object (some svc.object)) svc hst ev
        st

-- A host check that the module is asked about ends in one of four ways where its behaviour is defined: Naemon runs it and nothing has
-- changed; it is cancelled, with no job and no result, and is not left executing unless it was; it is answered by one result
-- without a job; or one job has been taken, the options are cleared and the host is executing. So it is never run by
-- both, and never overridden without a job or a result.
pub handle_host_check-Handled :
    (float : Float) (opt : Options) (env : Env float) (ev : Event float) (hst : Option Named)
    (st : State float)
    → AllHandled float opt env st (handle_host_check float opt env ev hst st)
unfolding handle_host_check
handle_host_check-Handled float opt env ev hst st =
    let P = AllHandled float opt env st in
    if_both P (not opt.do_hostchecks) (λ _. kept)
      (λ _.
        if_both P (not ev.is_check_data) (λ _. kept)
          (λ _.
            if_both P (not ev.is_initiate) (λ _. kept)
              (λ _. host_object-Handled float opt env hst ev st)))

-- The same four ways for a service check.
pub handle_svc_check-Handled :
    (float : Float) (opt : Options) (env : Env float) (ev : Event float) (svc hst : Option Named)
    (st : State float)
    → AllHandled float opt env st (handle_svc_check float opt env ev svc hst st)
unfolding handle_svc_check
handle_svc_check-Handled float opt env ev svc hst st =
    let P = AllHandled float opt env st in
    if_both P (not ev.is_check_data) (λ _. kept)
      (λ _.
        if_both P (not ev.is_initiate) (λ _. kept)
          (λ _. service_object-Handled float opt env svc hst ev st))
