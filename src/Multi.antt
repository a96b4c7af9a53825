-- ===== src/Multi.antt =====
-- Results of check_multi from a stream: `read_multi_stream`, `read_child_check`,
-- `read_multi_attribute`, `decode_xml` and `send_result` of tools/send_multi.c.
-- `none` is a write behind the end of a buffer or a null pointer that is read.
pub mod Decode
pub mod Ends
use mod_gearman.Common.{
  ℕ, zero, suc, Bytes, codes, str_eq, Bool, true, false, not, ◌&&◌, ◌==◌, leb, if◌then◌else◌, List,
  [], ◌∷◌, ◌++◌, Option, none, some, length, take, drop, set, ◌+◌, ◌-◌,
}
use mod_gearman.Common.Int.{ℤ}
use mod_gearman.Text.{trim}
use mod_gearman.Text.Escape.{gm_escape_newlines}
use mod_gearman.Text.Replace.{strstr}
use mod_gearman.Crypt.{c_string}
use mod_gearman.Job.{Timeval}
use mod_gearman.Job.Delivery.{Message, server, dupserver}

infixl 5 ◌>>=◌
abbrev ◌>>=◌ {ℓ κ} : {A : Type ℓ} {B : Type κ} → Option A → (A → Option B) → Option B
none >>= f = none
some a >>= f = f a

-- The options that are read and set here.
pub record Options : Type 0 where
  pub result_queue : Option Bytes
  pub active : Bool
  pub host : Bytes
  pub service : Option Bytes
  pub return_code : ℤ
  pub starttime : Timeval
  pub finishtime : Timeval
  pub message : Option Bytes
  pub dupserver_num : ℕ

-- `atoi`, the end time less the seconds of a text, `printf`, the answer of `add_job_to_queue`, and
-- the byte that lies behind the data in the buffer, by the rounds that are left.
pub record Env : Type 0 where
  pub atoi : Bytes → ℤ
  pub started : Timeval → Bytes → Timeval
  pub show : ℤ → Bytes
  pub show_time : Timeval → Bytes
  pub takes : Message → Bool
  pub behind : ℕ → ℕ

-- An element that was found: where its text starts, and the buffer with a NUL at its end.
pub record Attribute : Type 0 where
  pub start : ℕ
  pub buffer : Bytes

abbrev with_end : Bytes → ℕ → Option ℕ → Option Attribute
with_end buf start none = none
with_end buf start (some j) = some (record { start = start; buffer = set buf (start + j) 0 })

abbrev with_start : Bytes → Bytes → Bytes → Option ℕ → Option Attribute
with_start buf start_element end_element none = none
with_start buf start_element end_element (some i) =
    with_end buf (i + length start_element)
      (strstr (drop (i + length start_element) buf) end_element)

unfoldable pub read_multi_attribute : Bytes → Bytes → Option Attribute
unfolding strstr
read_multi_attribute buf element =
    let start_element : Bytes = codes "<" ++ (element ++ codes ">") in
    with_start buf start_element (codes "</" ++ (element ++ codes ">")) (strstr buf start_element)

-- `while ((found=strstr(string, dtab[i].enc_string)) != NULL)`, with the rounds left.
unfoldable pub decode_stage : ℕ → ℕ → Bytes → Bytes → Bytes
unfolding strstr
decode_stage zero c enc s = s
decode_stage (suc n) c enc s = elim (strstr s enc) [
  | none ↦ s
  | some l ↦ decode_stage n c enc (take l s ++ c ∷ drop (l + length enc) s)
]

abbrev pub Code : Type 0
Code = ℕ × Bytes

abbrev pub dtab : List Code
dtab =
    (b'>', codes "&gt;")
    ∷ (b'<', codes "&lt;")
    ∷ (b'&', codes "&amp;")
    ∷ (b'\'', codes "&#039;")
    ∷ (b'|', codes "&#124;")
    ∷ []

abbrev pub decode_all : List Code → Bytes → Bytes
decode_all [] s = s
decode_all ((c, enc) ∷ codes) s = decode_all codes (decode_stage (length s) c enc s)

-- Each round shortens the text, so its length is enough.
unfoldable pub decode_xml : Bytes → Bytes
unfolding decode_stage
decode_xml s = decode_all dtab s

-- The text at an offset of the buffer.
abbrev pub text_at : Bytes → ℕ → Bytes
text_at buf start = c_string (drop start buf)

-- `error` -> ` [error]`: the two bytes before the text and the two at its end are written.
abbrev pub bracketed : Attribute → Bytes → Attribute
bracketed a [] = a
bracketed a (c ∷ message) = record {
  start = a.start - 2;
  buffer =
      set
        (set (set (set a.buffer (a.start - 1) b'[') (a.start - 2) b' ')
          (a.start + length (c ∷ message)) b']')
        (suc (a.start + length (c ∷ message))) 0;
}

abbrev pub with_attribute :
    Option Attribute → Options → (Attribute → Option (Bool × Options)) → Option (Bool × Options)
with_attribute none opt f = some (false, opt)
with_attribute (some a) opt f = f a

abbrev service_of : Option Bytes → Bytes
service_of none = []
service_of (some s) = s

-- The performance data behind a header; one that begins with a quote has its header in the quote.
abbrev perf_text : Bytes → Bytes → Bytes → Bytes
perf_text service pplugin [] =
    codes "|" ++ (service ++ (codes "::" ++ (decode_xml pplugin ++ codes "::")))
perf_text service pplugin (c ∷ perf) =
    if c == b'\''
    then codes "|'"
      ++ (service ++ (codes "::" ++ (decode_xml pplugin ++ (codes "::" ++ decode_xml perf))))
    else codes "|"
      ++ (service ++ (codes "::" ++ (decode_xml pplugin ++ (codes "::" ++ decode_xml (c ∷ perf)))))

abbrev with_message : Options → Bytes → Option (Bool × Options)
with_message opt text = some (true, record opt { message = some (take 65534 text) })

-- The message, from the buffer in which the elements were found.
abbrev plain_text : Attribute → Attribute → Bytes → Bytes
plain_text output err buf =
    decode_xml (text_at buf output.start) ++ decode_xml (text_at buf err.start)

abbrev pub finish_child :
    Options → Attribute → Attribute → Option Attribute → Option (Bool × Options)
finish_child opt output err none = with_message opt (plain_text output err err.buffer)
finish_child opt output err (some perf) =
    with_attribute (read_multi_attribute perf.buffer (codes "pplugin")) opt λ pplugin. do
      trimmed ← trim (text_at pplugin.buffer perf.start)
      with_message opt (
          plain_text output err pplugin.buffer
          ++ perf_text (service_of opt.service) (text_at pplugin.buffer pplugin.start)
              (decode_xml trimmed))

abbrev pub child_message : Options → Attribute → Attribute → Option (Bool × Options)
child_message opt output err =
    finish_child opt output err (read_multi_attribute err.buffer (codes "performance"))

module _ (env : Env) where
  -- One chunk, between `bufstart` and `bufend`. The options are set as far as the elements are
  -- found.
  unfoldable pub read_child_check : Timeval → Bytes → Options → Option (Bool × Options)
  unfolding read_multi_attribute decode_xml
  read_child_check end_time buf opt =
      with_attribute (read_multi_attribute buf (codes "no")) opt λ no.
        if str_eq (text_at no.buffer no.start) (codes "0")
        then some (false, opt)
        else with_attribute (read_multi_attribute no.buffer (codes "name")) opt λ name.
          let opt1 = record opt { service = some (text_at name.buffer name.start) } in
          with_attribute (read_multi_attribute name.buffer (codes "rc")) opt1 λ rc.
            let opt2 = record opt1 { return_code = env.atoi (text_at rc.buffer rc.start) } in
            with_attribute (read_multi_attribute rc.buffer (codes "runtime")) opt2 λ runtime.
              let opt3 = record opt2 {
                starttime = env.started end_time (text_at runtime.buffer runtime.start);
                finishtime = end_time;
              } in
              with_attribute (read_multi_attribute runtime.buffer (codes "output")) opt3 λ output.
                with_attribute (read_multi_attribute output.buffer (codes "error")) opt3
                  λ err. child_message opt3 output (bracketed err (text_at err.buffer err.start))

  -- A text in a buffer of `GM_BUFFERSIZE` bytes.
  abbrev pub in_buffer : Bytes → Option Bytes
  in_buffer s = if leb (length s) 65535 then some s else none

  abbrev header_text : Options → Bytes
  header_text opt =
      codes "type="
      ++ ((if opt.active then codes "active" else codes "passive")
          ++ (codes "\nhost_name="
              ++ (opt.host
                  ++ (codes "\nstart_time="
                      ++ (env.show_time opt.starttime
                          ++ (codes "\nfinish_time="
                              ++ (env.show_time opt.finishtime
                                  ++ (codes "\nreturn_code="
                                      ++ (env.show opt.return_code
                                          ++ codes "\nsource=send_multi\n")))))))))

  -- `strncat` with a limit on what is added, which is no limit on the buffer.
  abbrev pub add_line : Bytes → Bytes → Option Bytes → Option Bytes
  add_line buf key none = some buf
  add_line buf key (some value) = do
    line ← in_buffer (key ++ (take 65535 value ++ codes "\n"))
    in_buffer (buf ++ line)

  abbrev pub escaped_message : Option Bytes → Option Bytes
  escaped_message none = none
  escaped_message (some message) = do buf ← gm_escape_newlines message false; some (take 65535 buf)

  unfoldable pub child_text : Options → Option Bytes
  child_text opt = do
    message ← escaped_message opt.message
    with_service ←
        add_line (take 65534 (header_text opt)) (codes "service_description=") opt.service
    with_output ← add_line with_service (codes "output=") (some message)
    in_buffer (with_output ++ codes "\n")

  abbrev pub to_dupserver : ℕ → Bytes → Bytes → List Message
  to_dupserver num queue text =
      if num == 0
      then []
      else (let m : Message = record { target = dupserver; queue = queue; data_text = text } in
          if env.takes m then m ∷ [] else [])

  abbrev pub submit_text : ℕ → Bytes → Bytes → Bool × List Message
  submit_text num queue text =
      let m : Message = record { target = server; queue = queue; data_text = text } in
      if env.takes m then (true, m ∷ to_dupserver num queue text) else (false, [])

  abbrev pub with_text : ℕ → Bytes → Option Bytes → Option (Bool × List Message)
  with_text num queue none = none
  with_text num queue (some text) = some (submit_text num queue text)

  abbrev pub to_queue : Options → Option Bytes → Option (Bool × List Message)
  to_queue opt none = some (false, [])
  to_queue opt (some queue) = with_text opt.dupserver_num queue (child_text opt)

  -- Does it return GM_OK, and what was added to the queues. That the message is replaced by its
  -- escaped form is left out, since each chunk that is sent sets a new one.
  unfoldable pub send_result : Options → Option (Bool × List Message)
  unfolding child_text
  send_result opt = to_queue opt opt.result_queue

-- How the reading of a stream ends.
pub data Ending : Type 0 where
  counted : ℕ → Ending
  unclosed message_in_input read_error : Ending

-- The buffer up to `buflen`, the rest of the stream, and the chunks that were sent.
pub record Run : Type 0 where
  pub buffer : Bytes
  pub stream : Bytes
  pub count : ℕ
  pub opt : Options
  pub sent : List Message

-- `for (i=0; i<buflen && buffer[i] && isascii(buffer[i]); i++);` stops at a NUL.
unfoldable pub stops_at_nul : ℕ → Bytes → Bool
stops_at_nul behind [] = behind == 0
stops_at_nul behind (c ∷ s) =
    let rest = stops_at_nul behind s in if c == 0 then true else (if leb c 127 then rest else false)

abbrev pub is_message : ℕ → Bytes → Bool
is_message behind [] = false
is_message behind (c ∷ s) = not (c == 0) && stops_at_nul behind (c ∷ s)

-- The rounds ran out, something undefined was done, or the end of the reading.
pub data Reading : Type 0 where
  exhausted undefined : Reading
  ended : Ending → Run → Reading

-- `fread` fills the buffer. A read of nothing that is not the end of the stream is an error.
abbrev pub loop_on : (Run → Reading) → Run → Bytes → Reading
loop_on next r [] = ended (counted r.count) r
loop_on next r (c ∷ s) = next r

abbrev pub refill : (Run → Reading) → Run → Reading
refill next r =
    if leb 65536 (length r.buffer)
    then ended read_error r
    else (let space = 65536 - length r.buffer in
        loop_on next
          (record r { buffer = r.buffer ++ take space r.stream; stream = drop space r.stream })
          (r.buffer ++ take space r.stream))

-- The buffer behind a chunk, and what became of the chunk.
abbrev pub behind_chunk : Bytes → Run → Bool × Options × Bool × List Message → Run
behind_chunk rest r (is_child, opt, is_sent, ms) = record r {
  buffer = rest;
  opt = opt;
  count = if is_child && is_sent then suc r.count else r.count;
  sent = r.sent ++ ms;
}

abbrev pub with_chunk :
    (Run → Reading) → Bytes → Run → Option (Bool × Options × Bool × List Message) → Reading
with_chunk next rest r none = undefined
with_chunk next rest r (some chunk) = refill next (behind_chunk rest r chunk)

abbrev pub with_sent :
    Options → Option (Bool × List Message) → Option (Bool × Options × Bool × List Message)
with_sent opt none = none
with_sent opt (some (is_sent, ms)) = some (true, opt, is_sent, ms)

module _ (env : Env) (end_time : Timeval) where
  abbrev pub send_child : Option (Bool × Options) → Option (Bool × Options × Bool × List Message)
  send_child none = none
  send_child (some (false, opt)) = some (false, opt, false, [])
  send_child (some (true, opt)) = with_sent opt (send_result env opt)

  abbrev pub read_chunk : Bytes → Options → Option (Bool × Options × Bool × List Message)
  read_chunk chunk opt = send_child (read_child_check env end_time chunk opt)

  abbrev pub with_close : (Run → Reading) → Run → ℕ → Option ℕ → Reading
  with_close next r i none = ended unclosed (record r { buffer = [] })
  with_close next r i (some j) =
      with_chunk next (drop (i + j + 8) r.buffer) r
        (read_chunk (take (j - 7) (drop (i + 7) r.buffer)) r.opt)

  abbrev pub with_open : ℕ → (Run → Reading) → Run → Option ℕ → Reading
  with_open behind next r none =
      if r.count == 0 && is_message behind r.buffer
      then ended message_in_input r
      else refill next (record r { buffer = [] })
  with_open behind next r (some i) =
      with_close next r i (strstr (drop i r.buffer) (codes "</CHILD>"))

  -- `do { … } while (buflen > 0)`, with the rounds left; `exhausted` is that there are none.
  unfoldable pub read_multi_stream : ℕ → Run → Reading
  unfolding strstr read_child_check send_result stops_at_nul
  read_multi_stream zero r = exhausted
  read_multi_stream (suc n) r =
      with_open (env.behind n) (read_multi_stream n) r (strstr r.buffer (codes "<CHILD>"))
