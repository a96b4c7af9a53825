-- ===== src/Neb/Perfdata.antt =====
-- Performance data: `handle_perfdata` of neb_module_naemon/mod_gearman.c. Naemon's macros, as
-- `process_macros_r` replaces them, are a function of the check that is handed over.
use mod_gearman.Common.{
  Bytes, codes, Bool, true, false, not, ◌&&◌, ◌||◌, if◌then◌else◌, Bool-cases, inl, inr, List, [],
  ◌∷◌, ◌++◌, Option, none, some, map, append-nil, append_assoc, ◌≡◌, arith, sym, ap, ◌∙◌,
}
use mod_gearman.Result.{Float}
use mod_gearman.Neb.{Options, Env, Submission, prio_normal, make_uniq}

-- The options that are read here; `process_performance_data` is the core's own switch.
pub record PerfOptions : Type 0 where
  pub process_performance_data : Bool
  pub perfdata_send_all : Bool
  pub is_overwrite : Bool
  pub host_perfdata_template : Bytes
  pub service_perfdata_template : Bytes
  pub perfdata_queues_list : List Bytes

-- What the callback hands over, with the switch of the host or service and its macros.
pub record Processed : Type 0 where
  pub is_processed : Bool
  pub perf_data : Option Bytes
  pub host_name : Bytes
  pub service_description : Bytes
  pub process_performance_data : Bool
  pub process_macros : Bytes → Option Bytes

pub data PerfEvent : Type 0 where
  host_check_data service_check_data : Option Processed → PerfEvent
  other_event : PerfEvent

pub data PerfReturn : Type 0 where
  zero_code error_code : PerfReturn

-- `has_perfdata` with the text and the name for the unique id, or the return with an error.
pub data Gathered : Type 0 where
  no_perfdata macros_failed : Gathered
  perfdata : Bytes → Bytes → Gathered

abbrev is_null : Option Bytes → Bool
is_null none = true
is_null (some s) = false

abbrev with_macros : Bytes → Option Bytes → Gathered
with_macros name none = macros_failed
with_macros name (some text) = perfdata name text

module _ (perf : PerfOptions) where
  abbrev pub gather : Bytes → Bytes → Processed → Gathered
  gather template name ev =
      if not ev.is_processed || is_null ev.perf_data
      then no_perfdata
      else if not ev.process_performance_data && not perf.perfdata_send_all
      then no_perfdata
      else with_macros name (ev.process_macros (template ++ codes "\n"))

  unfoldable pub gathered : PerfEvent → Gathered
  gathered (host_check_data none) = no_perfdata
  gathered (host_check_data (some ev)) = gather perf.host_perfdata_template ev.host_name ev
  gathered (service_check_data none) = no_perfdata
  gathered (service_check_data (some ev)) =
      gather perf.service_perfdata_template (ev.host_name ++ (codes "-" ++ ev.service_description))
        ev
  gathered other_event = no_perfdata

  module _ (float : Float) (opt : Options) (env : Env float) where
    abbrev pub perf_job : Bytes → Bytes → Bytes → Submission
    perf_job name text queue = record {
      queue = queue;
      uniq =
          if perf.is_overwrite
          then some (make_uniq float opt env (queue ++ (codes "-" ++ name)))
          else none;
      data_text = text;
      priority = prio_normal;
    }

    unfoldable pub send_all : Bytes → Bytes → List Bytes → List Submission → List Submission
    send_all name text [] sent = sent
    send_all name text (q ∷ queues) sent =
        let job = perf_job name text q in
        send_all name text queues (if env.takes job then sent ++ (job ∷ []) else sent)

    abbrev pub send_gathered : Gathered → List Submission → PerfReturn × List Submission
    send_gathered no_perfdata sent = (zero_code, sent)
    send_gathered macros_failed sent = (error_code, sent)
    send_gathered (perfdata name text) sent =
        (zero_code, send_all name text perf.perfdata_queues_list sent)

    unfoldable pub handle_perfdata : PerfEvent → List Submission → PerfReturn × List Submission
    unfolding gathered send_all
    handle_perfdata ev sent =
        if not perf.process_performance_data
        then (zero_code, sent)
        else send_gathered (gathered ev) sent

    -- The jobs that are taken, in order.
    abbrev pub accepted : List Submission → List Submission
    accepted [] = []
    accepted (job ∷ jobs) = if env.takes job then job ∷ accepted jobs else accepted jobs

    send_all-accepted :
        (name text : Bytes) (queues : List Bytes) (sent : List Submission)
        → send_all name text queues sent ≡ sent ++ accepted (map (perf_job name text) queues)
    unfolding send_all
    send_all-accepted name text [] sent = sym (append-nil sent)
    send_all-accepted name text (q ∷ queues) sent =
        let job = perf_job name text q in
        elim (Bool-cases (env.takes job)) [
          | inl e ↦
              rw (e, send_all)
                (send_all-accepted name text queues (sent ++ (job ∷ []))
                  ∙ append_assoc sent (job ∷ []) (accepted (map (perf_job name text) queues)))
          | inr e ↦ rw (e, send_all) (send_all-accepted name text queues sent)
        ]

-- A service check that is processed and has performance data, where the core, and the service or
-- the option for all, want them and the macros give a text: the text is sent in order to the
-- configured queues, one job each with an id of its queue, host and service in the overwrite mode, of
-- which those are added that are taken.
pub handle_perfdata-service :
    (perf : PerfOptions) (float : Float) (opt : Options) (env : Env float) (ev : Processed)
    (data_text text : Bytes) (sent : List Submission)
    → perf.process_performance_data ≡ true
    → ev.is_processed ≡ true
    → ev.perf_data ≡ some data_text
    → (ev.process_performance_data || perf.perfdata_send_all) ≡ true
    → ev.process_macros (perf.service_perfdata_template ++ codes "\n") ≡ some text
    → handle_perfdata perf float opt env (service_check_data (some ev)) sent ≡ (
      zero_code,
      sent
          ++ accepted perf float opt env (
              map
                (λ queue. record {
                  queue = queue;
                  uniq =
                      if perf.is_overwrite
                      then some (
                          make_uniq float opt env (
                            queue
                            ++ (codes "-"
                                ++ (ev.host_name ++ (codes "-" ++ ev.service_description)))))
                      else none;
                  data_text = text;
                  priority = prio_normal;
                })
                perf.perfdata_queues_list),
    )
unfolding handle_perfdata gathered
handle_perfdata-service perf float opt env ev data_text text sent on processed given wanted macros =
    let name = ev.host_name ++ (codes "-" ++ ev.service_description) in
    let all_sent =
      ap (λ (s : List Submission). (zero_code, s))
        (send_all-accepted perf float opt env name text perf.perfdata_queues_list sent) in
    elim (Bool-cases ev.process_performance_data) [
      | inl own ↦ rw (on, processed, given, own, macros) all_sent
      | inr other ↦
          let everything : perf.perfdata_send_all ≡ true = ground (arith, wanted, other) in
          rw (on, processed, given, other, everything, macros) all_sent
    ]
