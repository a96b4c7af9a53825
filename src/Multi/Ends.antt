-- ===== src/Multi/Ends.antt =====
-- How `read_multi_stream` of tools/send_multi.c ends.
use mod_gearman.Common.{
  ℕ, Bool, ◌&&◌, if◌then◌else◌, List, [], ◌∷◌, Option, none, some, length, ◌+◌, ◌≡◌, ◌≤◌, ◌<◌,
}
use mod_gearman.Job.Delivery.{Message, server, dupserver, overflow}
use mod_gearman.Multi.{
  Options, Env, counted, unclosed, message_in_input, read_error, Run, Reading, exhausted, undefined,
  ended,
}

-- The results that went to the server itself.
abbrev pub to_server : List Message → ℕ
to_server [] = 0
to_server (m ∷ ms) = (elim m.target [ server ↦ 1 | dupserver ↦ 0 | overflow ↦ 0 ]) + to_server ms

module _ (env : Env) where
  -- A result that is sent is one message to the server.
  abbrev IsSent : Option (Bool × List Message) → Type 0
  IsSent none = Unit
  IsSent (some (is_sent, ms)) = to_server ms ≡ (if is_sent then 1 else 0)

  -- A chunk counts if it is sent.
  abbrev IsCounted : Option (Bool × Options × Bool × List Message) → Type 0
  IsCounted none = Unit
  IsCounted (some (is_child, opt, is_sent, ms)) =
      to_server ms ≡ (if is_child && is_sent then 1 else 0)

-- The buffer is no longer than its size, and the count is that of the results at the server.
pub record IsRun (r : Run) : Type 0 where
  pub fits : length r.buffer ≤ 65536
  pub counts : r.count ≡ to_server r.sent

-- How a reading ends that began with a run: with its rounds it comes to an end, and no read fails.
-- Where it has counted, the whole stream is read.
abbrev pub Ends : Reading → Type 0
Ends exhausted = ⊥
Ends undefined = Unit
Ends (ended (counted n) r) = (n ≡ to_server r.sent) × (r.buffer ≡ []) × (r.stream ≡ [])
Ends (ended unclosed r) = r.count ≡ to_server r.sent
Ends (ended message_in_input r) = (r.count ≡ 0) × (to_server r.sent ≡ 0)
Ends (ended read_error r) = ⊥

abbrev pub total : Run → ℕ
total r = length r.buffer + length r.stream

abbrev Next : (Run → Reading) → ℕ → Type 0
Next next n = (r : Run) → IsRun r → 0 < length r.buffer → total r ≤ n → Ends (next r)
