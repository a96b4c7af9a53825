-- ===== src/Neb/Export.antt =====
-- Exported events: `handle_export` of neb_module_naemon/mod_gearman.c.
use mod_gearman.Common.{
  ℕ, Bytes, codes, Bool, if◌then◌else◌, Bool-cases, inl, inr, List, [], ◌∷◌, ◌++◌, map, take,
  append-nil, append_assoc, ◌≡◌, sym, ap, ◌∙◌,
}
use mod_gearman.Common.Int.{ℤ, pos, negsuc}
use mod_gearman.Text.Escape.{escapestring}
use mod_gearman.Config.{Export}

-- What the callback hands over, with `%d`, `%Lf` and the names of types done.
pub data Exported : Type 0 where
  process_data : Bytes → Bytes → Bytes → Bytes → Exported
  timed_event_data : Bytes → Bytes → Bytes → Bytes → Bytes → Bytes → Bytes → Exported
  log_data : Bytes → Bytes → Bytes → Bytes → Bytes → Bytes → Bytes → Exported
  other_data : Exported
  unknown_data : Exported

pub record ExportJob : Type 0 where
  pub queue : Bytes
  pub data_text : Bytes

-- `GM_MAX_OUTPUT` less two.
abbrev max_text : ℕ
max_text = 10485758

abbrev pub head : Bytes → Bytes → Bytes
head callback rest = codes "{\"callback_type\":\"" ++ (callback ++ (codes "\",\"" ++ rest))

abbrev pub common : Bytes → Bytes → Bytes → Bytes → Bytes → Bytes
common type flags attr timestamp rest =
    codes "type\":\""
    ++ (type
        ++ (codes "\",\"flags\":"
            ++ (flags
                ++ (codes ",\"attr\":"
                    ++ (attr ++ (codes ",\"timestamp\":" ++ (timestamp ++ rest)))))))

unfoldable pub event_text : Exported → Bytes
event_text (process_data type flags attr timestamp) =
    take max_text
      (head (codes "NEBCALLBACK_PROCESS_DATA") (common type flags attr timestamp (codes "}")))
event_text (timed_event_data event_type type flags attr timestamp recurring run_time) =
    take max_text (
      head (codes "NEBCALLBACK_TIMED_EVENT_DATA") (
        codes "event_type\":\""
        ++ (event_type
            ++ (codes "\",\""
                ++ common type flags attr timestamp (
                    codes ",\"recurring\":"
                    ++ (recurring ++ (codes ",\"run_time\":" ++ (run_time ++ codes "}"))))))))
event_text (log_data type flags attr timestamp entry_time data_type text) = take max_text (
    head (codes "NEBCALLBACK_LOG_DATA") (
      common type flags attr timestamp (
        codes ",\"entry_time\":"
        ++ (entry_time
            ++ (codes ",\"data_type\":"
                ++ (data_type ++ (codes ",\"data\":\"" ++ (escapestring text ++ codes "\"}"))))))))
event_text other_data = []
event_text unknown_data = []

pub record Exporter : Type 0 where
  pub debug_level : ℤ
  pub sent : List ExportJob

-- `takes` answers for `add_job_to_queue`; what it says is not looked at.
module _ (takes : ExportJob → Bool) where
  abbrev pub add_job : ExportJob → List ExportJob → List ExportJob
  add_job job sent = if takes job then sent ++ (job ∷ []) else sent

  -- The return code is that of the last export.
  unfoldable pub export_all : Bytes → List Export → ℤ → List ExportJob → ℤ × List ExportJob
  export_all text [] return_code sent = (return_code, sent)
  export_all text (e ∷ exports) return_code sent =
      export_all text exports e.return_code_num
        (add_job (record { queue = e.name; data_text = text }) sent)

  -- An event without a text is not sent.
  abbrev pub send_text : Bytes → List Export → List ExportJob → ℤ × List ExportJob
  send_text [] exports sent = (pos 0, sent)
  send_text (c ∷ text) exports sent = export_all (c ∷ text) exports (pos 0) sent

  -- `debug_level_orig` is read after the level was set to -1. `exports` are those of the callback.
  unfoldable pub handle_export : Exported → List Export → Exporter → ℤ × Exporter
  unfolding event_text export_all
  handle_export event exports st =
      let quiet : ℤ = negsuc 0 in
      let debug_level_orig : ℤ = quiet in
      let done : ℤ × List ExportJob = send_text (event_text event) exports st.sent in
      (done.0, record { debug_level = debug_level_orig; sent = done.1 })

  -- The jobs that are taken, in order.
  abbrev pub taken : List ExportJob → List ExportJob
  taken [] = []
  taken (job ∷ jobs) = if takes job then job ∷ taken jobs else taken jobs

  abbrev pub jobs_of : Bytes → List Export → List ExportJob
  jobs_of [] exports = []
  jobs_of (c ∷ text) exports =
      map (λ (e : Export). record { queue = e.name; data_text = c ∷ text }) exports

  export_all-sent :
      (c : ℕ) (text : Bytes) (exports : List Export) (return_code : ℤ) (sent : List ExportJob)
      → (export_all (c ∷ text) exports return_code sent).1
        ≡ sent ++ taken (jobs_of (c ∷ text) exports)
  unfolding export_all
  export_all-sent c text [] return_code sent = sym (append-nil sent)
  export_all-sent c text (x ∷ exports) return_code sent =
      let job : ExportJob = record { queue = x.name; data_text = c ∷ text } in
      elim (Bool-cases (takes job)) [
        | inl e ↦
            rw (e, export_all)
              (export_all-sent c text exports x.return_code_num (sent ++ (job ∷ []))
                ∙ append_assoc sent (job ∷ []) (taken (jobs_of (c ∷ text) exports)))
        | inr e ↦ rw (e, export_all) (export_all-sent c text exports x.return_code_num sent)
      ]

  send_text-sent :
      (text : Bytes) (exports : List Export) (sent : List ExportJob)
      → (send_text text exports sent).1 ≡ sent ++ taken (jobs_of text exports)
  send_text-sent [] exports sent = sym (append-nil sent)
  send_text-sent (c ∷ text) exports sent = export_all-sent c text exports (pos 0) sent

-- After an exported event, whatever it is, the debug level of the module is -1 and not the one from
-- before. The event has been sent in order to the queues of its callback, one job each and each with the
-- same text, of which those are added that are taken; an event without a text is sent nowhere.
pub handle_export_lem :
    (takes : ExportJob → Bool) (event : Exported) (exports : List Export) (st : Exporter)
    → ((handle_export takes event exports st).1 ≡ record {
      debug_level = negsuc 0;
      sent = st.sent ++ taken takes (jobs_of takes (event_text event) exports);
    })
unfolding handle_export
handle_export_lem takes event exports st =
    ap (λ s. record { debug_level = negsuc 0; sent = s })
      (send_text-sent takes (event_text event) exports st.sent)
