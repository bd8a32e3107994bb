-- ===== src/Router/CallLog/Sends.antt =====
-- services/router-service/src/services/calllog_buffer.py: how often an entry is sent.
use eucal_ai_backend.Prelude.{
  ℕ, ◌+◌, ◌-◌, ◌≤◌, String, ◌≡◌, inl, inr, Bool, true, false, ◌||◌, none, some, List, [], ◌∷◌,
  arith, All, All-map, Option-cases, Bool-cases, leb, length, if◌then◌else◌,
}
use eucal_ai_backend.Prelude.Keyed.{Table, find, put, string_eq, All-put}
use eucal_ai_backend.Router.CallLog.{
  PendingLogEntry, CallLogBuffer, Fields, requeue_entry, requeue, System, Event, recorded, updated,
  flush_started, flush_ended, step, steps, record_call, update, take_batch, drop_oldest,
}
use eucal_ai_backend.Router.CallLog.Buffer.{
  IsRetriable, find-IsRetriable, entry_or_new_fits, requeue_entry-cases, IsBounded, steps-IsBounded,
}

-- the program handles the request `id` anew
unfoldable pub touches : (id : String) → List Event → Bool
touches id [] = false
touches id (recorded request_id fields ∷ events) = string_eq.beq request_id id || touches id events
touches id (updated request_id fields ∷ events) = string_eq.beq request_id id || touches id events
touches id (flush_started ∷ events) = touches id events
touches id (flush_ended ok ∷ events) = touches id events

abbrev pub is_waiting : String → System → Bool
is_waiting id y = elim (find id y.buffer.entries) [ none ↦ false | some entry ↦ true ]

-- how many batches that are handed to the gateway have an entry for `id`
unfoldable pub count_sent : (id : String) → List Event → System → ℕ
count_sent id [] y = 0
count_sent id (recorded request_id fields ∷ events) y =
    count_sent id events (step (recorded request_id fields) y)
count_sent id (updated request_id fields ∷ events) y =
    count_sent id events (step (updated request_id fields) y)
count_sent id (flush_started ∷ events) y =
    let rest = count_sent id events (step flush_started y) in
    if is_waiting id y then rest + 1 else rest
count_sent id (flush_ended ok ∷ events) y = count_sent id events (step (flush_ended ok) y)

-- an entry for `id` has been tried so often that `n` more tries make `bound`
unfoldable Few : (id : String) (bound n : ℕ) → PendingLogEntry → Type 0
Few id bound n entry = string_eq.beq entry.request_id id ≡ true → bound ≤ entry.retry_count + n

unfoldable AreFew : (id : String) (bound n : ℕ) → Table String PendingLogEntry → Type 0
AreFew id bound n t = All (λ row. Few id bound n row.1) t

module _ (id : String) where
  all_few : (max : ℕ) (t : Table String PendingLogEntry) → AreFew id max max t
  unfolding AreFew Few
  all_few max [] = tt
  all_few max (row ∷ t) = (λ same. omega arith, all_few max t)

  AreFew-mono :
      (b n c m : ℕ) (t : Table String PendingLogEntry)
      → c + n ≤ b + m
      → AreFew id b n t
      → AreFew id c m t
  unfolding AreFew Few
  AreFew-mono b n c m t le h =
      All-map {Q = λ row. Few id c m row.1} (λ row few same. let l = few same in omega arith) t h

  put-AreFew :
      (b n : ℕ) (k : String) (e : PendingLogEntry) (t : Table String PendingLogEntry)
      → Few id b n e
      → AreFew id b n t
      → AreFew id b n (put k e t)
  unfolding AreFew
  put-AreFew b n k e t few h = All-put (Few id b n) k e t few h

  find-AreFew :
      (b n : ℕ) (t : Table String PendingLogEntry) (e : PendingLogEntry)
      → AreFew id b n t
      → find id t ≡ some e
      → Few id b n e
  unfolding AreFew find
  find-AreFew b n [] e h found = ground arith
  find-AreFew b n ((k, d) ∷ t) e (few, h) found = elim (Bool-cases (string_eq.beq k id)) [
    | inl here ↦ let same : d ≡ e = ground arith in rw (← same) few
    | inr other ↦ find-AreFew b n t e h (ground arith)
  ]

  -- what is waiting, and what is under way, may be sent `n` more times
  unfoldable Allows : (max n : ℕ) → System → Type 0
  Allows max n y = AreFew id (max + 1) n y.buffer.entries × AreFew id max n y.in_flight

  elsewhere : (b n : ℕ) (e : PendingLogEntry) → string_eq.beq e.request_id id ≡ false → Few id b n e
  unfolding Few
  elsewhere b n e other same = ground arith

  bumped :
      (max n : ℕ) (e : PendingLogEntry)
      → Few id max n e
      → Few id (max + 1) n (record e { retry_count = e.retry_count + 1 })
  unfolding Few
  bumped max n e few same = let le = few same in omega arith

  drop_oldest-AreFew :
      (b n : ℕ) (t : Table String PendingLogEntry) → AreFew id b n t → AreFew id b n (drop_oldest t)
  unfolding AreFew
  drop_oldest-AreFew b n [] h = h
  drop_oldest-AreFew b n (row ∷ t) (few, h) = h

  record-AreFew :
      (b n : ℕ) (request_id : String) (fields : Fields) (s : CallLogBuffer)
      → string_eq.beq request_id id ≡ false
      → AreFew id b n s.entries
      → AreFew id b n (record_call request_id fields s).entries
  unfolding record_call
  record-AreFew b n request_id fields s other h =
      let entry : PendingLogEntry = record {
        request_id = request_id;
        fields = fields;
        has_billing = false;
        retry_count = 0;
      } in
      let few = elsewhere b n entry other in
      elim (Bool-cases (leb s.max_buffer (length s.entries))) [
        | inl full ↦
            rw (full, record_call)
              (put-AreFew b n request_id entry (drop_oldest s.entries) few
                (drop_oldest-AreFew b n s.entries h))
        | inr room ↦ rw (room, record_call) (put-AreFew b n request_id entry s.entries few h)
      ]

  update-AreFew :
      (b n max : ℕ) (request_id : String) (fields : Fields) (s : CallLogBuffer)
      → string_eq.beq request_id id ≡ false
      → IsRetriable max s.entries
      → AreFew id b n s.entries
      → AreFew id b n (update request_id fields s).entries
  unfolding update
  update-AreFew b n max request_id fields s other valid h =
      let (same, few) = entry_or_new_fits max request_id s.entries valid in
      put-AreFew b n request_id _ s.entries (elsewhere b n _ (rw same other)) h

  requeue_entry-AreFew :
      (max n : ℕ) (entry : PendingLogEntry) (s : CallLogBuffer)
      → Few id max n entry
      → AreFew id (max + 1) n s.entries
      → AreFew id (max + 1) n (requeue_entry entry s).entries
  requeue_entry-AreFew max n entry s few h = elim (requeue_entry-cases entry s) [
    | inl same ↦ rw same h
    | inr (gone, left, put_back) ↦ rw put_back (
        put-AreFew (max + 1) n entry.request_id
          (record entry { retry_count = entry.retry_count + 1 }) s.entries (bumped max n entry few)
          h)
  ]

  requeue-AreFew :
      (max n : ℕ) (batch : Table String PendingLogEntry) (s : CallLogBuffer)
      → AreFew id max n batch
      → AreFew id (max + 1) n s.entries
      → AreFew id (max + 1) n (requeue batch s).entries
  unfolding requeue AreFew
  requeue-AreFew max n [] s few h = h
  requeue-AreFew max n ((key, entry) ∷ batch) s (first, few) h =
      requeue-AreFew max n batch (requeue_entry entry s) few
        (requeue_entry-AreFew max n entry s first h)

  waiting_few :
      (max n : ℕ) (y : System)
      → IsRetriable max y.buffer.entries
      → AreFew id (max + 1) n y.buffer.entries
      → is_waiting id y ≡ true
      → 1 ≤ n
  unfolding Few
  waiting_few max n y valid h waiting = elim (Option-cases (find id y.buffer.entries)) [
    | inl missing ↦ ground arith
    | inr (e, found) ↦
        let (same, tried) = find-IsRetriable max id y.buffer.entries e valid found in
        let few =
          find-AreFew (max + 1) n y.buffer.entries e h found
            ((string_eq.beq_iff e.request_id id).1 same) in
        omega arith
  ]

  stepped : (event : Event) (y : System) (max : ℕ) → IsBounded max y → IsBounded max (step event y)
  unfolding steps
  stepped event y max valid = steps-IsBounded (event ∷ []) y max valid

  sent-le :
      (events : List Event) (y : System) (max n : ℕ)
      → IsBounded max y
      → touches id events ≡ false
      → Allows max n y
      → count_sent id events y ≤ n
  unfolding count_sent touches Allows step take_batch AreFew
  sent-le [] y max n valid new h = omega arith
  sent-le (recorded request_id fields ∷ events) y max n valid new (waiting, sent) =
      sent-le events _ max n (stepped (recorded request_id fields) y max valid) (ground arith)
        (record-AreFew (max + 1) n request_id fields y.buffer (ground arith) waiting, sent)
  sent-le (updated request_id fields ∷ events) y max n valid new (waiting, sent) =
      sent-le events _ max n (stepped (updated request_id fields) y max valid) (ground arith) (
        update-AreFew (max + 1) n max request_id fields y.buffer (ground arith) valid.1 waiting,
        sent,
      )
  sent-le (flush_started ∷ events) y max n valid new (waiting, sent) =
      let after = stepped flush_started y max valid in
      elim (Bool-cases (is_waiting id y)) [
        | inl here ↦
            let some_left = waiting_few max n y valid.1 waiting here in
            let rest =
              sent-le events (step flush_started y) max (n - 1) after new
                (tt, AreFew-mono (max + 1) n max (n - 1) y.buffer.entries (omega arith) waiting) in
            ground arith
        | inr gone ↦
            let rest =
              sent-le events (step flush_started y) max n after new
                (tt, AreFew-mono (max + 1) n max n y.buffer.entries (omega arith) waiting) in
            ground arith
      ]
  sent-le (flush_ended true ∷ events) y max n valid new (waiting, sent) =
      sent-le events _ max n (stepped (flush_ended true) y max valid) new (waiting, tt)
  sent-le (flush_ended false ∷ events) y max n valid new (waiting, sent) =
      sent-le events _ max n (stepped (flush_ended false) y max valid) new
        (requeue-AreFew max n y.in_flight y.buffer sent waiting, tt)

  -- No entry is sent more than once and then as often as retries are allowed: in any run in which
  -- the program neither records nor updates a request, whatever it does with others and whatever
  -- the gateway takes, at most `max_retries + 1` batches have an entry for that request. (At the
  -- start, no entry has failed more than `max_retries` times, and each stands at its request id.)
  pub count_sent-le :
      (events : List Event) (y : System) (max : ℕ)
      → IsBounded max y
      → touches id events ≡ false
      → count_sent id events y ≤ max + 1
  unfolding Allows
  count_sent-le events y max valid new = sent-le events y max (max + 1) valid new (
    all_few (max + 1) y.buffer.entries,
    AreFew-mono (max + 1) (max + 1) max (max + 1) y.in_flight (omega arith)
        (all_few (max + 1) y.in_flight),
  )
