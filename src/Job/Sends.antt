-- ===== src/Job/Sends.antt =====
-- The messages of `send_result_back` of common/utils.c: to whom a result goes, and when its text is too
-- long for the buffers.
use mod_gearman.Common.{
  Bytes, codes, ◌==◌, ltb, if◌then◌else◌, List, [], ◌∷◌, ◌++◌, Option, none, some, length, take,
  length-take, length-append, ◌+◌, ◌-◌, ◌*◌, ◌≡◌, ◌≤◌, ◌⊎◌, inl, inr, refl, ap, arith, if_both,
  Bool-cases,
}
use mod_gearman.Job.{Job}
use mod_gearman.Job.Exec.{Options, World}
use mod_gearman.Job.Delivery.{
  Target, server, dupserver, overflow, Message, head_text, service_text, output_text, result_size,
  in_buffer, with_output, result_text, text_messages, messages,
}

-- To whom a result goes.
abbrev pub targets : List Message → List Target
targets [] = []
targets (m ∷ ms) = m.target ∷ targets ms

abbrev pub receivers : Options → List Target
receivers opt = server ∷ (if opt.dupserver_num == 0 then [] else dupserver ∷ [])

-- The text of a result needs more than the eightfold size that its buffers have.
abbrev pub TooLong : Options → World → Job → Type 0
TooLong opt w job =
    (output : Bytes) × (job.output ≡ some output)
    × (8 * result_size output
        ≤ length (head_text w job)
          + length (service_text job)
          + length (output_text opt job output)
          + 1)

-- One message for each server, or a text that is too long for its buffers.
abbrev pub Sends : Options → World → Job → List Message → Type 0
Sends opt w job ms =
    (targets ms ≡ receivers opt) ⊎ ((targets ms ≡ overflow ∷ []) × TooLong opt w job)

in_buffer-none : (output s : Bytes) → in_buffer output s ≡ none → 8 * result_size output ≤ length s
in_buffer-none output s =
    if_both (λ (r : Option Bytes). r ≡ none → 8 * result_size output ≤ length s)
      (ltb (length s) (8 * result_size output)) (λ _ e. cc e) (λ small _. ground (arith, small))

in_buffer-some : (output s t : Bytes) → in_buffer output s ≡ some t → length t ≤ length s
in_buffer-some output s t =
    if_both (λ (r : Option Bytes). r ≡ some t → length t ≤ length s)
      (ltb (length s) (8 * result_size output))
      (λ _ e.
        let same : take (result_size output) s ≡ t = cc e in
        omega (arith, length-take (result_size output) s, ap length same))
      (λ _ e. cc e)

with_output-none :
    (opt : Options) (w : World) (job : Job) (output : Bytes) (o : Option Bytes)
    → job.output ≡ some output
    → in_buffer output (take (result_size output - 2) (head_text w job) ++ service_text job) ≡ o
    → with_output opt job output o ≡ none
    → TooLong opt w job
with_output-none opt w job output none given first e =
    let head = take (result_size output - 2) (head_text w job) in
    (
      output,
      given,
      omega (
        arith,
        in_buffer-none output (head ++ service_text job) first,
        length-append head (service_text job),
        length-take (result_size output - 2) (head_text w job),
      ),
    )
with_output-none opt w job output (some front) given first e =
    let head = take (result_size output - 2) (head_text w job) in
    let tail = output_text opt job output ++ codes "\n" in
    (
      output,
      given,
      omega (
        arith,
        in_buffer-none output (front ++ tail) e,
        in_buffer-some output (head ++ service_text job) front first,
        length-append front tail,
        length-append (output_text opt job output) (codes "\n"),
        length-append head (service_text job),
        length-take (result_size output - 2) (head_text w job),
      ),
    )

result_text-none :
    (opt : Options) (w : World) (job : Job) (output : Bytes)
    → job.output ≡ some output
    → result_text opt w job output ≡ none
    → TooLong opt w job
unfolding result_text
result_text-none opt w job output given e = with_output-none opt w job output _ given refl e

text_messages-Sends :
    (opt : Options) (w : World) (job : Job) (queue output : Bytes) (text : Option Bytes)
    → (text ≡ none → TooLong opt w job)
    → Sends opt w job (text_messages opt queue output text)
text_messages-Sends opt w job queue output none long = inr (refl, long refl)
text_messages-Sends opt w job queue output (some text) long =
    inl (elim (Bool-cases (opt.dupserver_num == 0)) [ inl e ↦ rw e | inr e ↦ rw e ])

pub messages-Sends :
    (opt : Options) (w : World) (job : Job) (queue output : Bytes)
    → job.output ≡ some output
    → Sends opt w job (messages opt w job queue output)
unfolding messages
messages-Sends opt w job queue output given =
    text_messages-Sends opt w job queue output (result_text opt w job output)
      (λ e. result_text-none opt w job output given e)
