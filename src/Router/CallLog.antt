-- ===== src/Router/CallLog.antt =====
-- services/router-service/src/services/calllog_buffer.py
-- A dictionary keeps the order of insertion, as the tables do. `_flush` is two steps, since other
-- calls run while the gateway is awaited: `take_batch`, and `requeue` for a batch that was not
-- delivered. Without a gateway a batch is dropped, as if delivered. `created_at` is read nowhere.
mod Tests
pub mod Buffer
pub mod Sends
use eucal_ai_backend.Prelude.{
  ℕ, ◌+◌, String, Bool, true, false, not, ◌&&◌, Option, none, some, List, [], ◌∷◌, map, ltb, leb,
  length, if◌then◌else◌,
}
use eucal_ai_backend.Prelude.Int.{ℤ, pos, ltb_ℤ, leb_ℤ}
use eucal_ai_backend.Prelude.Keyed.{Table, find, put, string_eq}

-- the value of a field; `cost` and `status` hold numbers, or None
pub data Value : Type 0 where
  number : ℤ → Value
  null : Value
  text : String → Value

abbrev pub Fields : Type 0
Fields = Table String Value

pub record PendingLogEntry : Type 0 where
  pub request_id : String
  pub fields : Fields
  pub has_billing : Bool
  pub retry_count : ℕ

pub record CallLogBuffer : Type 0 where
  pub max_buffer : ℕ
  pub max_retries : ℕ
  pub entries : Table String PendingLogEntry

-- An empty buffer is full only if `max_buffer` is 0, where the code raises `StopIteration`.
abbrev pub drop_oldest : Table String PendingLogEntry → Table String PendingLogEntry
drop_oldest [] = []
drop_oldest (entry ∷ entries) = entries

unfoldable pub record_call : String → Fields → CallLogBuffer → CallLogBuffer
record_call request_id fields s =
    let kept = if leb s.max_buffer (length s.entries) then drop_oldest s.entries else s.entries in
    let entry : PendingLogEntry = record {
      request_id = request_id;
      fields = fields;
      has_billing = false;
      retry_count = 0;
    } in
    record s { entries = put request_id entry kept }

-- `dict.update`
unfoldable pub merge : Fields → Fields → Fields
merge fields [] = fields
merge fields ((name, value) ∷ more) = merge (put name value fields) more

-- `fields.get(name, entry.fields.get(name, default))`
abbrev pub get_either : String → Fields → Fields → Value → Value
get_either name fields old default = elim (find name fields) [
  | some value ↦ value
  | none ↦ elim (find name old) [ some value ↦ value | none ↦ default ]
]

-- `cost and cost > 0`, for a number
abbrev pub is_positive : Value → Bool
is_positive (number n) = ltb_ℤ (pos 0) n
is_positive null = false
is_positive (text s) = false

abbrev pub is_200 : Value → Bool
is_200 (number n) = leb_ℤ (pos 200) n && leb_ℤ n (pos 200)
is_200 null = false
is_200 (text s) = false

abbrev pub entry_or_new : String → Option PendingLogEntry → PendingLogEntry
entry_or_new request_id none = record {
  request_id = request_id;
  fields = [];
  has_billing = false;
  retry_count = 0;
}
entry_or_new request_id (some entry) = entry

unfoldable pub update : String → Fields → CallLogBuffer → CallLogBuffer
unfolding merge
update request_id fields s =
    let entry = entry_or_new request_id (find request_id s.entries) in
    let merged = merge entry.fields fields in
    let cost = get_either "cost" fields merged (number (pos 0)) in
    let status = get_either "status" fields merged null in
    let billed = if is_positive cost && is_200 status then true else entry.has_billing in
    record s {
      entries = put request_id (record entry { fields = merged; has_billing = billed }) s.entries;
    }

unfoldable pub take_batch : CallLogBuffer → Table String PendingLogEntry × CallLogBuffer
take_batch s = (s.entries, record s { entries = [] })

pub data LogAction : Type 0 where
  create complete update_row : LogAction

-- `entry.fields.get("status") is not None and entry.fields.get("status") >= 200`
abbrev pub is_ended : Value → Bool
is_ended (number n) = leb_ℤ (pos 200) n
is_ended null = false
is_ended (text s) = false

-- the action that `_flush` reports an entry with
unfoldable pub action_of : PendingLogEntry → LogAction
action_of entry = elim (find "status" entry.fields) [
  | none ↦ create
  | some status ↦
      if is_ended status && not entry.has_billing
      then update_row
      else if entry.has_billing
      then complete
      else create
]

-- what `_flush` does with an entry when the gateway has not taken the batch
unfoldable pub requeue_entry : PendingLogEntry → CallLogBuffer → CallLogBuffer
requeue_entry entry s =
    let entry' = record entry { retry_count = entry.retry_count + 1 } in
    if leb (entry.retry_count + 1) s.max_retries
    then (elim (find entry.request_id s.entries) [
      | none ↦ record s { entries = put entry.request_id entry' s.entries }
      | some newer ↦ s
    ])
    else s

unfoldable pub requeue : Table String PendingLogEntry → CallLogBuffer → CallLogBuffer
requeue [] s = s
requeue ((key, entry) ∷ batch) s = requeue batch (requeue_entry entry s)

-- The buffer, and the batch that the gateway is awaited for; `_run` flushes one at a time.
pub record System : Type 0 where
  pub buffer : CallLogBuffer
  pub in_flight : Table String PendingLogEntry

pub data Event : Type 0 where
  recorded : String → Fields → Event
  updated : String → Fields → Event
  -- `_flush` up to the call of the gateway, and after it
  flush_started : Event
  flush_ended : (ok : Bool) → Event

unfoldable pub step : Event → System → System
step (recorded request_id fields) y = record y { buffer = record_call request_id fields y.buffer }
step (updated request_id fields) y = record y { buffer = update request_id fields y.buffer }
step flush_started y =
    let (batch, s) = take_batch y.buffer in record { buffer = s; in_flight = batch }
step (flush_ended ok) y = record {
  buffer = if ok then y.buffer else requeue y.in_flight y.buffer;
  in_flight = [];
}

unfoldable pub steps : List Event → System → System
unfolding step
steps [] y = y
steps (event ∷ events) y = steps events (step event y)
