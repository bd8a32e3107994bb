-- ===== src/Router/CallLog/Tests.antt =====
-- The buffer's theorems at a buffer for two entries.
use eucal_ai_backend.Prelude.{◌≡◌, ◌≤◌, ◌+◌, List, arith, ℕ, String, refl, false, [], ◌∷◌}
use eucal_ai_backend.Prelude.Int.{pos}
use eucal_ai_backend.Prelude.Keyed.{string_eq, find, put}
use eucal_ai_backend.Router.CallLog.{
  PendingLogEntry, CallLogBuffer, number, System, Event, step, take_batch, requeue, requeue_entry,
  update, merge, updated, flush_started, flush_ended,
}
use eucal_ai_backend.Router.CallLog.Sends.{touches, count_sent, count_sent-le}

abbrev entry : String → ℕ → PendingLogEntry
entry id n = record { request_id = id; fields = []; has_billing = false; retry_count = n }

abbrev full : CallLogBuffer
full = record {
  max_buffer = 2;
  max_retries = 3;
  entries = ("a", entry "a" 1) ∷ ("b", entry "b" 0) ∷ [];
}

abbrev empty : System
empty = record { buffer = record full { entries = [] }; in_flight = [] }

-- the gateway takes nothing: the entry is sent once and then as often as retries are allowed
abbrev retried : List Event
retried =
    flush_started
    ∷ flush_ended false
    ∷ updated "b" (("status", number (pos 200)) ∷ [])
    ∷ flush_started
    ∷ flush_ended false
    ∷ flush_started
    ∷ flush_ended false
    ∷ []

abbrev waiting : System
waiting = record {
  buffer = record full { max_retries = 1; entries = ("a", entry "a" 0) ∷ [] };
  in_flight = [];
}

count_sent-le_example : count_sent "a" retried waiting ≤ 1 + 1
unfolding touches
count_sent-le_example =
    count_sent-le "a" retried waiting 1 (refl, ((refl, omega arith), tt), tt) refl

sent_twice : count_sent "a" retried waiting ≡ 2
unfolding count_sent step take_batch requeue requeue_entry update find put merge
sent_twice = refl
