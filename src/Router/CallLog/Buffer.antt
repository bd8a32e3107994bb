-- ===== src/Router/CallLog/Buffer.antt =====
-- Bounds of the call-log buffer, and what becomes of a batch that is not delivered.
use eucal_ai_backend.Prelude.{
  ℕ, ◌+◌, ◌≤◌, String, ◌≡◌, ◌≢◌, ◌∙◌, refl, sym, ap, ◌⊎◌, inl, inr, true, false, none, some, List,
  [], ◌∷◌, arith, length, All, leb, Option-cases, Bool-cases,
}
use mathlib.Core.Path.{subst}
use eucal_ai_backend.Prelude.Keyed.{
  Table, find, put, string_eq, find-put, find-put_self, find-put_ne, IsKeyed,
}
use eucal_ai_backend.Router.CallLog.{
  PendingLogEntry, CallLogBuffer, Fields, drop_oldest, record_call, update, take_batch,
  requeue_entry, requeue, System, Event, recorded, updated, flush_started, flush_ended, step, steps,
  entry_or_new,
}

module _ {V : Type 0} where
  length-put-le : (k : String) (v : V) (t : Table String V) → length (put k v t) ≤ length t + 1
  unfolding put
  length-put-le k v [] = ground arith
  length-put-le k v ((j, w) ∷ t) = ground (arith, length-put-le k v t)

length-drop_oldest :
    (t : Table String PendingLogEntry) → 1 ≤ length t → length (drop_oldest t) + 1 ≡ length t
length-drop_oldest [] h = ground arith
length-drop_oldest (row ∷ t) h = ground arith

-- The buffer never holds more than its bound because of `record`.
pub length-record_call :
    (request_id : String) (fields : Fields) (s : CallLogBuffer)
    → 1 ≤ s.max_buffer
    → length s.entries ≤ s.max_buffer
    → length (record_call request_id fields s).entries ≤ s.max_buffer
unfolding record_call
length-record_call request_id fields s h k = ground (
  arith,
  length-put-le request_id
      (record { request_id = request_id; fields = fields; has_billing = false; retry_count = 0 })
      s.entries,
  length-put-le request_id
      (record { request_id = request_id; fields = fields; has_billing = false; retry_count = 0 })
      (drop_oldest s.entries),
  length-drop_oldest s.entries,
)

-- every entry has been retried as often as allowed at most, and stands at its request id
abbrev pub IsRetriable : ℕ → Table String PendingLogEntry → Type 0
IsRetriable max t = All (λ row. (row.1.request_id ≡ row.0) × (row.1.retry_count ≤ max)) t

put-IsRetriable :
    (max : ℕ) (k : String) (e : PendingLogEntry) (t : Table String PendingLogEntry)
    → IsRetriable max t
    → e.request_id ≡ k
    → e.retry_count ≤ max
    → IsRetriable max (put k e t)
unfolding put
put-IsRetriable max k e [] h same few = ground arith
put-IsRetriable max k e ((j, f) ∷ t) h same few =
    ground (arith, string_eq.beq_iff j k, put-IsRetriable max k e t)

pub find-IsRetriable :
    (max : ℕ) (k : String) (t : Table String PendingLogEntry) (e : PendingLogEntry)
    → IsRetriable max t
    → find k t ≡ some e
    → (e.request_id ≡ k) × (e.retry_count ≤ max)
unfolding find
find-IsRetriable max k [] e h found = ground arith
find-IsRetriable max k ((j, f) ∷ t) e (h, hs) found =
    ground (arith, string_eq.beq_iff j k, find-IsRetriable max k t e hs)

drop_oldest-IsRetriable :
    (max : ℕ) (t : Table String PendingLogEntry)
    → IsRetriable max t
    → IsRetriable max (drop_oldest t)
drop_oldest-IsRetriable max [] h = h
drop_oldest-IsRetriable max (row ∷ t) (h, hs) = hs

record-IsRetriable :
    (request_id : String) (fields : Fields) (s : CallLogBuffer)
    → IsRetriable s.max_retries s.entries
    → IsRetriable s.max_retries (record_call request_id fields s).entries
unfolding record_call
record-IsRetriable request_id fields s h =
    let entry : PendingLogEntry = record {
      request_id = request_id;
      fields = fields;
      has_billing = false;
      retry_count = 0;
    } in
    ground (
      arith,
      put-IsRetriable s.max_retries request_id entry s.entries,
      put-IsRetriable s.max_retries request_id entry (drop_oldest s.entries),
      drop_oldest-IsRetriable s.max_retries s.entries h,
    )

pub entry_or_new_fits :
    (max : ℕ) (id : String) (t : Table String PendingLogEntry)
    → IsRetriable max t
    → let entry = entry_or_new id (find id t) in (entry.request_id ≡ id) × (entry.retry_count ≤ max)
entry_or_new_fits max id t h = elim (Option-cases (find id t)) [
  | inl missing ↦ ground arith
  | inr (e, found) ↦ ground (arith, find-IsRetriable max id t e h found)
]

update-IsRetriable :
    (request_id : String) (fields : Fields) (s : CallLogBuffer)
    → IsRetriable s.max_retries s.entries
    → IsRetriable s.max_retries (update request_id fields s).entries
unfolding update
update-IsRetriable request_id fields s h =
    let (same, few) = entry_or_new_fits s.max_retries request_id s.entries h in
    put-IsRetriable s.max_retries request_id _ s.entries h same few

pub requeue_entry-cases :
    (entry : PendingLogEntry) (s : CallLogBuffer)
    → (requeue_entry entry s ≡ s)
      ⊎ ((find entry.request_id s.entries ≡ none)
          × (entry.retry_count + 1 ≤ s.max_retries)
          × (requeue_entry entry s ≡ record s {
            entries =
                put entry.request_id
                  (record entry { retry_count = entry.retry_count + 1 })
                  s.entries;
          }))
unfolding requeue_entry
requeue_entry-cases entry s = elim (Bool-cases (leb (entry.retry_count + 1) s.max_retries)) [
  | inr spent ↦ inl (ground arith)
  | inl few ↦ elim (Option-cases (find entry.request_id s.entries)) [
    | inl gone ↦ inr (gone, ground arith, ground arith)
    | inr (newer, found) ↦ inl (ground arith)
  ]
]

requeue_entry-IsRetriable :
    (entry : PendingLogEntry) (s : CallLogBuffer)
    → IsRetriable s.max_retries s.entries
    → let s' = requeue_entry entry s in
      IsRetriable s'.max_retries s'.entries × (s'.max_retries ≡ s.max_retries)
requeue_entry-IsRetriable entry s h = elim (requeue_entry-cases entry s) [
  | inl same ↦ ground arith
  | inr (gone, few, put_back) ↦
      let bumped = record entry { retry_count = entry.retry_count + 1 } in
      ground (arith, put-IsRetriable s.max_retries entry.request_id bumped s.entries h refl few)
]

requeue-IsRetriable :
    (batch : Table String PendingLogEntry) (s : CallLogBuffer)
    → IsRetriable s.max_retries s.entries
    → let s' = requeue batch s in
      IsRetriable s'.max_retries s'.entries × (s'.max_retries ≡ s.max_retries)
unfolding requeue
requeue-IsRetriable [] s h = (h, refl)
requeue-IsRetriable ((key, entry) ∷ batch) s h =
    let (k, same) = requeue_entry-IsRetriable entry s h in
    let (l, same') = requeue-IsRetriable batch (requeue_entry entry s) k in (l, same' ∙ same)

-- what is waiting and what is under way
abbrev pub IsBounded : ℕ → System → Type 0
IsBounded max y =
    (y.buffer.max_retries ≡ max) × IsRetriable max y.buffer.entries × IsRetriable max y.in_flight

pub step-IsBounded :
    (event : Event) (y : System)
    → IsBounded y.buffer.max_retries y
    → IsBounded y.buffer.max_retries (step event y)
unfolding step take_batch record_call update
step-IsBounded (recorded id fields) y (e, h, k) = (refl, record-IsRetriable id fields y.buffer h, k)
step-IsBounded (updated id fields) y (e, h, k) = (refl, update-IsRetriable id fields y.buffer h, k)
step-IsBounded flush_started y (e, h, k) = (refl, tt, h)
step-IsBounded (flush_ended true) y (e, h, k) = (refl, h, tt)
step-IsBounded (flush_ended false) y (e, h, k) =
    let (l, same) = requeue-IsRetriable y.in_flight y.buffer h in
    (same, subst (λ n. IsRetriable n (requeue y.in_flight y.buffer).entries) same l, tt)

-- What no step breaks, no run breaks.
pub steps-IsBounded :
    (events : List Event) (y : System) (max : ℕ) → IsBounded max y → IsBounded max (steps events y)
unfolding steps
steps-IsBounded [] y max h = h
steps-IsBounded (event ∷ events) y max h =
    let here = subst (λ n. IsBounded n y) (sym h.0) h in
    steps-IsBounded events (step event y) max
      (subst (λ n. IsBounded n (step event y)) h.0 (step-IsBounded event y here))

-- A batch that is not delivered overwrites nothing that was recorded since it was taken: what the
-- batch had on the same request is lost.
pub requeue_keeps :
    (batch : Table String PendingLogEntry) (s : CallLogBuffer) (id : String) (e : PendingLogEntry)
    → find id s.entries ≡ some e
    → find id (requeue batch s).entries ≡ some e
unfolding requeue
requeue_keeps [] s id e found = found
requeue_keeps ((key, entry) ∷ batch) s id e found =
    requeue_keeps batch (requeue_entry entry s) id e (elim (requeue_entry-cases entry s) [
      | inl same ↦ ground arith
      | inr (gone, few, put_back) ↦ ground (
        arith,
        find-put entry.request_id id (record entry { retry_count = entry.retry_count + 1 })
            s.entries,
        string_eq.beq_iff entry.request_id id,
      )
    ])

requeue_entry_put :
    (entry : PendingLogEntry) (s : CallLogBuffer)
    → find entry.request_id s.entries ≡ none
    → entry.retry_count + 1 ≤ s.max_retries
    → find entry.request_id (requeue_entry entry s).entries
      ≡ some (record entry { retry_count = entry.retry_count + 1 })
unfolding requeue_entry
requeue_entry_put entry s gone few = ground (
  arith,
  find-put_self entry.request_id (record entry { retry_count = entry.retry_count + 1 }) s.entries,
)

requeue_entry_other :
    (entry : PendingLogEntry) (s : CallLogBuffer) (id : String)
    → entry.request_id ≢ id
    → (find id (requeue_entry entry s).entries ≡ find id s.entries)
      × ((requeue_entry entry s).max_retries ≡ s.max_retries)
requeue_entry_other entry s id other = elim (requeue_entry-cases entry s) [
  | inl same ↦ ground arith
  | inr (gone, few, put_back) ↦ ground (
    arith,
    find-put_ne entry.request_id id (record entry { retry_count = entry.retry_count + 1 }) s.entries
        other,
  )
]

-- Nothing else is lost: an entry of the batch that may be sent again, and whose request has no
-- newer entry, waits again with one more failure counted. (The batch has one entry for each
-- request, under its id.)
pub find-requeue :
    (batch : Table String PendingLogEntry) (s : CallLogBuffer) (id : String) (e : PendingLogEntry)
    (max : ℕ)
    → IsKeyed batch
    → IsRetriable max batch
    → find id batch ≡ some e
    → find id s.entries ≡ none
    → e.retry_count + 1 ≤ s.max_retries
    → find id (requeue batch s).entries ≡ some (record e { retry_count = e.retry_count + 1 })
unfolding requeue find
find-requeue [] s id e max keyed h there gone few = ground arith
find-requeue ((key, entry) ∷ batch) s id e max (unique, keyed) (h, hs) there gone few =
    elim (Bool-cases (string_eq.beq key id)) [
      | inl here ↦
          let at : key ≡ id = (string_eq.beq_iff key id).0 here in
          let same : entry ≡ e = ground arith in
          requeue_keeps batch (requeue_entry entry s) id _ (
            ground (
              arith,
              requeue_entry_put entry s,
              ap (λ i. find i s.entries) (h.0 ∙ at),
              ap (λ i. find i (requeue_entry entry s).entries) (h.0 ∙ at),
            ))
      | inr other ↦
          let differ : entry.request_id ≢ id = λ q. ground (arith, string_eq.beq_iff key id) in
          let (kept, bound) = requeue_entry_other entry s id differ in
          find-requeue batch (requeue_entry entry s) id e max keyed hs (ground arith) (kept ∙ gone)
            (ground arith)
    ]
