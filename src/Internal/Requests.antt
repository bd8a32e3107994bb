-- ===== src/Internal/Requests.antt =====
-- services/router-service/src/common/internal.py: calls of other services, their retries and the
-- circuit breaker of each target. A call meets the answers `replies 0`, `replies 1`, ... to its
-- attempts; `now` and `now'` are the two readings of the clock at its start and `later` the one
-- when it records a failure. The waits between the attempts are left out, and so are the texts of
-- the errors. `none` for `opened_until` is None, or 0.0.
pub mod Breaker
use Prim.Native.String.{◌++◌ as str_append, [] as nil}
use eucal_ai_backend.Prelude.{
  [], ℕ, zero, suc, ◌+◌, String, Bool, true, false, ◌&&◌, Option, none, some, ltb, leb, ◌==◌,
  if◌then◌else◌,
}
use eucal_ai_backend.Prelude.Int.{ℤ, pos_part}
use eucal_ai_backend.Prelude.Keyed.{Table, find, put, string_eq}
use eucal_ai_backend.Prelude.Text.{is_empty}

pub record CircuitState : Type 0 where
  pub consecutive_failures : ℕ
  pub opened_until : Option ℕ

-- `_CIRCUIT_BREAKERS`
abbrev pub Circuits : Type 0
Circuits = Table String CircuitState

abbrev pub closed : CircuitState
closed = record { consecutive_failures = 0; opened_until = none }

abbrev pub state_or_new : Option CircuitState → CircuitState
state_or_new none = closed
state_or_new (some state) = state

unfoldable pub reset_internal_circuit_breakers : Circuits → Circuits
reset_internal_circuit_breakers circuits = []

-- `_get_circuit_state`, which also adds a state that is missing: here it is added when it is
-- written, and a missing state reads as a closed one
unfoldable pub get_circuit_state : String → Circuits → CircuitState
get_circuit_state key circuits = state_or_new (find key circuits)

-- `_check_circuit_open`: whether `InternalCircuitOpenError` is raised
unfoldable pub check_circuit_open : (now now' : ℕ) → String → Circuits → Bool × Circuits
check_circuit_open now now' key circuits =
    let state = get_circuit_state key circuits in
    elim (state.opened_until) [
      | none ↦ (false, circuits)
      | some opened_until ↦
          if ltb now opened_until
          then (true, circuits)
          else if leb opened_until now'
          then (false, put key (record state { opened_until = none }) circuits)
          else (false, circuits)
    ]

unfoldable pub record_success : String → Circuits → Circuits
record_success key circuits = put key closed circuits

-- what `_record_failure` makes of a state
unfoldable pub failed_state : (later threshold cooldown_seconds : ℕ) → CircuitState → CircuitState
failed_state later threshold cooldown_seconds state =
    let failures = state.consecutive_failures + 1 in
    if ltb 0 threshold && leb threshold failures
    then record { consecutive_failures = failures; opened_until = some (later + cooldown_seconds) }
    else record state { consecutive_failures = failures }

unfoldable pub record_failure :
    (later threshold cooldown_seconds : ℕ) → String → Circuits → Circuits
record_failure later threshold cooldown_seconds key circuits =
    put key (failed_state later threshold cooldown_seconds (get_circuit_state key circuits))
      circuits

-- a response; the fields of an error payload are empty where they are missing, and `text` is
-- stripped
pub record Response : Type 0 where
  pub status_code : ℕ
  -- what `response.json()` gives, if it does not raise
  pub json : Option String
  pub is_dict : Bool
  pub detail : String
  pub message : String
  pub error : String
  pub text : String

pub data Reply : Type 0 where
  answered : Response → Reply
  -- an `httpx.HTTPError`
  http_error : Reply

pub data Outcome : Type 0 where
  returned : (json : String) → Outcome
  -- None, for a 404 that is allowed
  returned_none : Outcome
  circuit_open_error : Outcome
  unavailable_error : (status_code : Option ℕ) → Outcome
  response_error : (status_code : ℕ) → (detail : String) → Outcome
  -- "Internal request retry loop exited unexpectedly"
  runtime_error : Outcome

abbrev or_else : String → String → String
or_else s t = if is_empty s then t else s

-- `_extract_error_detail`, with an empty text for None
unfoldable pub extract_error_detail : Response → String
extract_error_detail response =
    let detail = or_else response.detail (or_else response.message response.error) in
    if response.is_dict then or_else detail response.text else response.text

-- what a call is made with
pub record Policy : Type 0 where
  pub allow_404 : Bool
  pub max_retries : ℤ
  pub threshold : ℕ
  pub cooldown_seconds : ℕ

abbrev pub is_allowed_404 : Policy → ℕ → Bool
is_allowed_404 policy status_code = policy.allow_404 && status_code == 404

module _ (policy : Policy) (key : String) (later : ℕ) where
  abbrev pub fail : Circuits → Circuits
  fail = record_failure later policy.threshold policy.cooldown_seconds key

  -- what an attempt ends with whose answer is not tried again
  unfoldable pub conclude : Response → Circuits → Outcome × Circuits
  conclude response circuits =
      let code = response.status_code in
      if is_allowed_404 policy code
      then (returned_none, record_success key circuits)
      else if leb 500 code
      then (unavailable_error (some code), fail circuits)
      else if leb 400 code
      then (response_error code (extract_error_detail response), record_success key circuits)
      else (elim (response.json) [
        | some json ↦ (returned json, record_success key circuits)
        | none ↦ (unavailable_error (some code), fail (record_success key circuits))
      ])

  -- The loop, with `left` attempts to go.
  unfoldable pub run_attempts : (ℕ → Reply) → (left attempt : ℕ) → Circuits → Outcome × Circuits
  run_attempts replies zero attempt circuits = (runtime_error, circuits)
  run_attempts replies (suc left) attempt circuits =
      let again = run_attempts replies left (attempt + 1) circuits in
      elim (replies attempt) [
        | http_error ↦ if left == 0 then (unavailable_error none, fail circuits) else again
        | answered response ↦
            if leb 500 response.status_code
            then (if left == 0 then conclude response circuits else again)
            else conclude response circuits
      ]

-- `request_internal_json`
unfoldable pub request_internal_json :
    Policy → (key : String) → (now now' later : ℕ) → (ℕ → Reply) → Circuits → Outcome × Circuits
request_internal_json policy key now now' later replies circuits =
    let (is_open, checked) = check_circuit_open now now' key circuits in
    if is_open
    then (circuit_open_error, checked)
    else run_attempts policy key later replies (pos_part policy.max_retries + 1) 0 checked
