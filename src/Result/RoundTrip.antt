-- ===== src/Result/RoundTrip.antt =====
-- The result that `send_result_back` of common/utils.c writes, as `get_results` of
-- neb_module_naemon/result_thread.c reads it.
use mod_gearman.Common.{
  ℕ, Bytes, Lacks, codes, str_eq, str_eq_iff, Bool, true, false, if◌then◌else◌, List, [], ◌∷◌, ◌++◌,
  Option, none, some, length, drop, ltb, ◌*◌, All, length-append, take_long, append_assoc, ◌-◌, ◌≡◌,
  ◌≢◌, ◌≤◌, refl, ap, ◌∙◌, arith, Option-cases, inl, inr,
}
use mod_gearman.Common.Int.{ℤ, pos, fits_int}
use mod_gearman.Common.Outcome.{ok}
use mod_gearman.Job.{Job, Timeval}
use mod_gearman.Job.Fields.{OneLine, one-IsField, Field, IsField, text}
use mod_gearman.Job.Exec.{Options, World}
use mod_gearman.Job.Delivery.{
  head_text, service_text, error_text, output_text, result_size, in_buffer, result_text,
}
use mod_gearman.Crypt.{Evp, encode_and_encrypt, mod_gm_encrypt}
use mod_gearman.Crypt.Aes.{EvpLaws}
use mod_gearman.Result.Decrypted.{decrypted_data-encrypt}
use mod_gearman.Result.{
  Float, CheckResult, Reading, start_reading, set_output, set_result, output_of, read_result,
  complete, freed, in_text, dangling, Core, Statistics, add_result, take_result, get_results,
}
use mod_gearman.Result.Read.{output_line, set_fields, read_results-text, read_results-output_line}

-- What `printf` writes of an `int` is read back by `atoi`, and printed numbers stand on one line.
pub record Prints (w : World) (float : Float) : Type 0 where
  pub atoi_show : (n : ℕ) → fits_int (pos n) ≡ true → float.atoi (w.show n) ≡ pos n
  pub show_OneLine : (n : ℕ) → OneLine (w.show n)
  pub show_time_OneLine : (t : Timeval) → OneLine (w.show_time t)

abbrev pub flag : Bool → Bytes
flag b = if b then codes "1" else codes "0"

abbrev service_fields : Option Bytes → List Field
service_fields none = []
service_fields (some d) = record { key = codes "service_description"; value = d } ∷ []

abbrev fields : World → Job → Option Bytes → List Field
fields w job service =
    record { key = codes "host_name"; value = w.show_text job.host_name }
    ∷ record { key = codes "core_start_time"; value = w.show_time job.next_check }
    ∷ record { key = codes "start_time"; value = w.show_time job.start_time }
    ∷ record { key = codes "finish_time"; value = w.show_time job.finish_time }
    ∷ record { key = codes "return_code"; value = w.show job.return_code }
    ∷ record { key = codes "exited_ok"; value = flag job.exited_ok }
    ∷ record { key = codes "source"; value = w.show_text job.source }
    ∷ service_fields service

-- The text behind `output=`.
abbrev pub shown_output : Options → Job → Bytes → Bytes
shown_output opt job output =
    (if opt.debug_result then codes "(" ++ (opt.hostname ++ codes ") - ") else [])
    ++ (output ++ error_text opt output job.error)

-- The text before it is cut to its size.
abbrev pub whole_text : Options → World → Job → Bytes → Bytes
whole_text opt w job output =
    head_text w job ++ (service_text job ++ (output_text opt job output ++ codes "\n"))

reshape_output :
    (opt : Options) (job : Job) (output : Bytes)
    → output_text opt job output ++ codes "\n" ≡ output_line (shown_output opt job output)
reshape_output opt job output = simp (append_assoc)

reshape :
    (opt : Options) (w : World) (job : Job) (output : Bytes)
    → whole_text opt w job output
      ≡ text (fields w job job.service_description) ++ output_line (shown_output opt job output)
reshape opt w job output = elim (Option-cases job.service_description) [
  | inl e ↦ rw (reshape_output opt job output, e) (simp append_assoc)
  | inr (d, e) ↦ rw (reshape_output opt job output, e) (simp append_assoc)
]

in_buffer_whole : (output s : Bytes) → length s ≤ result_size output → in_buffer output s ≡ some s
in_buffer_whole output s fits =
    let small : ltb (length s) (8 * result_size output) ≡ true = ground (arith, fits) in
    rw (small, take_long (result_size output) s fits) refl

result_text_whole :
    (opt : Options) (w : World) (job : Job) (output : Bytes)
    → length (whole_text opt w job output) ≤ result_size output
    → result_text opt w job output ≡ some (whole_text opt w job output)
unfolding result_text
result_text_whole opt w job output fits =
    let n = result_size output in
    let head = head_text w job in
    let service = service_text job in
    let tail = output_text opt job output ++ codes "\n" in
    let whole = length-append head (service ++ tail) in
    let rest = length-append service tail in
    let front = length-append head service in
    let end = length-append (output_text opt job output) (codes "\n") in
    let begin = length-append (codes "output=") (drop 7 (output_text opt job output)) in
    rw
      (
        take_long (n - 2) head (omega (arith, fits, whole, rest, end, begin)),
        in_buffer_whole output (head ++ service) (omega (arith, fits, whole, rest, front)),
      )
      (in_buffer_whole output ((head ++ service) ++ tail)
          (omega (arith, fits, whole, rest, front, length-append (head ++ service) tail))
        ∙ ap some (append_assoc head service tail))

-- A result whose parts stand on one line each, and which fits into its buffers.
pub record Sendable (opt : Options) (w : World) (job : Job) (output : Bytes) : Type 0 where
  pub host_OneLine : OneLine (w.show_text job.host_name)
  pub source_OneLine : OneLine (w.show_text job.source)
  pub service_OneLine : (d : Bytes) → job.service_description ≡ some d → OneLine d
  pub return_code_fits : fits_int (pos job.return_code) ≡ true
  pub output_Lacks : Lacks 10 (shown_output opt job output)
  pub fits : length (whole_text opt w job output) ≤ result_size output

flag-OneLine : (b : Bool) → OneLine (flag b)
flag-OneLine true = (ground arith, λ e. cc e)
flag-OneLine false = (ground arith, λ e. cc e)

module _ (float : Float) (w : World) (printed : Prints w float) where
  service_fields-IsField :
      (service : Option Bytes)
      → ((d : Bytes) → service ≡ some d → OneLine d)
      → All IsField (service_fields service)
  service_fields-IsField none h = tt
  service_fields-IsField (some d) h =
      (one-IsField (codes "service_description") d (ground arith) (ground arith) (h d refl), tt)

  fields-IsField :
      (opt : Options) (job : Job) (output : Bytes)
      → Sendable opt w job output
      → All IsField (fields w job job.service_description)
  fields-IsField opt job output h = (
    one-IsField (codes "host_name") _ (ground arith) (ground arith) h.host_OneLine,
    (
      one-IsField (codes "core_start_time") _ (ground arith) (ground arith)
          (printed.show_time_OneLine job.next_check),
      (
        one-IsField (codes "start_time") _ (ground arith) (ground arith)
            (printed.show_time_OneLine job.start_time),
        (
          one-IsField (codes "finish_time") _ (ground arith) (ground arith)
              (printed.show_time_OneLine job.finish_time),
          (
            one-IsField (codes "return_code") _ (ground arith) (ground arith)
                (printed.show_OneLine job.return_code),
            (
              one-IsField (codes "exited_ok") _ (ground arith) (ground arith)
                  (flag-OneLine job.exited_ok),
              (
                one-IsField (codes "source") _ (ground arith) (ground arith) h.source_OneLine,
                service_fields-IsField job.service_description h.service_OneLine,
              ),
            ),
          ),
        ),
      ),
    ),
  )

  -- What the result thread has read when it is done.
  abbrev pub arrived : Options → Job → Bytes → CheckResult float → Reading float
  arrived opt job output init = record {
    chk_result = record init {
      host_name = some (w.show_text job.host_name);
      service_description = job.service_description;
      source = in_text (w.show_text job.source);
      output = some (output_of float (some (shown_output opt job output)));
      scheduled_check = pos 1;
      latency = float.zero_double;
      start_time = float.string2timeval (w.show_time job.start_time);
      finish_time = float.string2timeval (w.show_time job.finish_time);
      exited_ok = float.atoi (flag job.exited_ok);
      return_code = pos job.return_code;
    };
    core_start_time = float.string2timeval (w.show_time job.next_check);
    active_check = true;
  }

  fields-arrived :
      (opt : Options) (job : Job) (output : Bytes) (init : CheckResult float)
      (service : Option Bytes)
      → init.service_description ≡ none
      → fits_int (pos job.return_code) ≡ true
      → set_output float
          (codes "output")
          (some (shown_output opt job output))
          (set_fields float (fields w job service) (start_reading float init))
        ≡ arrived opt (record job { service_description = service }) output init
  unfolding set_output set_result start_reading
  fields-arrived opt job output init none fresh small =
      rw (fresh, printed.atoi_show job.return_code small) refl
  fields-arrived opt job output init (some d) fresh small =
      rw (printed.atoi_show job.return_code small) refl

  -- `get_results` reads the result that `send_result_back` writes: each field arrives as it was printed.
  read_result-whole_text :
      (opt : Options) (job : Job) (output : Bytes) (init : CheckResult float)
      → Sendable opt w job output
      → init.service_description ≡ none
      → read_result float init (whole_text opt w job output) ≡ arrived opt job output init
  unfolding read_result
  read_result-whole_text opt job output init h fresh = rw (reshape opt w job output) (
      read_results-text float _ (fields w job job.service_description)
        (output_line (shown_output opt job output)) (start_reading float init)
        (set_output float (codes "output") (some (shown_output opt job output)))
        (fields-IsField opt job output h)
        (read_results-output_line float (shown_output opt job output) h.output_Lacks)
        (omega (arith, ap length (reshape opt w job output)))
      ∙ fields-arrived opt job output init job.service_description fresh h.return_code_fits)

  take_result-whole_text :
      (opt : Options) (job : Job) (output : Bytes) (init : CheckResult float)
      (stats : Statistics float) (now : Timeval) (time : ℤ) (workload : Bytes) (core : Core float)
      → Sendable opt w job output
      → init.service_description ≡ none
      → workload ≢ codes "check"
      → take_result float init stats now time workload (some (whole_text opt w job output)) core ≡ (
        record { success = true; result = none },
        record {
          mod_gm_result_list =
              freed float (complete float now time (arrived opt job output init))
              ∷ core.mod_gm_result_list;
          cancel_enabled = true;
        },
      )
  unfolding take_result add_result
  take_result-whole_text opt job output init stats now time workload core h fresh ne =
      let other : str_eq workload (codes "check") ≡ false =
        ground (arith, (str_eq_iff workload (codes "check")).0, ne) in
      rw (other, read_result-whole_text opt job output init h fresh) refl

-- A check that `send_result_back` reports and whose encrypted text a result thread with the same key
-- gets, where neither accepts clear text: the thread puts one result in front of the core's list and
-- succeeds. Host, service, source, exit code and times are those of the job as they were printed, the
-- check is active, and the output is the printed one with its line breaks back; the source of the
-- listed result is a pointer into the text that was freed. The exit code is an `int`, which `atoi` reads back; the host name, the
-- source and the service description are not empty and stand on one line, as do printed numbers and times; the output stands on one line, the text fits
-- into its buffers and holds no NUL byte, a new result has no service, and the encrypted text is not the word of the health check.
pub get_results-result_text :
    (evp : Evp) (laws : EvpLaws evp) (float : Float) (w : World) (printed : Prints w float)
    (opt : Options) (job : Job) (output key ciphertext fresh fresh' : Bytes)
    (init : CheckResult float) (stats : Statistics float) (now : Timeval) (time : ℤ)
    (core : Core float)
    → Sendable opt w job output
    → init.service_description ≡ none
    → Lacks 0 (whole_text opt w job output)
    → mod_gm_encrypt evp key (whole_text opt w job output) encode_and_encrypt ≡ ok ciphertext
    → ciphertext ≢ codes "check"
    → (result_text opt w job output ≡ some (whole_text opt w job output))
      × (get_results evp float init stats now time key encode_and_encrypt false fresh fresh'
            (some ciphertext)
            core
          ≡ some (
            record { success = true; result = none },
            record {
              mod_gm_result_list =
                  record (complete float now time (arrived float w printed opt job output init)) {
                    source = dangling;
                  }
                  ∷ core.mod_gm_result_list;
              cancel_enabled = true;
            },
          ))
unfolding get_results complete
get_results-result_text evp laws float w printed opt job output key ciphertext fresh fresh' init
      stats now time core h empty clean sent ne =
    (
      result_text_whole opt w job output h.fits,
      rw
          (decrypted_data-encrypt evp laws key (whole_text opt w job output) ciphertext fresh fresh'
            clean sent)
          (ap some (
            take_result-whole_text float w printed opt job output init stats now time ciphertext
              (record core { cancel_enabled = false }) h empty ne)),
    )
