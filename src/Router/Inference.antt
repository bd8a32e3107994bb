-- ===== src/Router/Inference.antt =====
-- services/router-service/src/services/inference_client.py: the circuit breaker and the retries.
-- A call of `classify` meets the answers `replies 0`, `replies 1`, ... to its posts; `now` is the
-- reading of the clock at its start and `later` the one when it records a failure.
mod Tests
pub mod Breaker
use Prim.Native.String.{[] as nil, ◌∷◌ as cons}
use eucal_ai_backend.Prelude.{
  ℕ, zero, suc, ◌+◌, String, Bool, true, false, Option, none, some, ltb, leb, ◌==◌, if◌then◌else◌,
}

-- a response's body, as `resp.json()` and `resp.text` give it
pub record Body : Type 0 where
  pub is_json : Bool
  -- the fields of a JSON object
  pub error_code : Option String
  pub message : Option String
  pub text : String

pub data Reply : Type 0 where
  answered : (status_code : ℕ) → Body → Reply
  -- `ConnectError` or `TimeoutException`
  unreachable : Reply
  -- any other exception
  broken : Reply

pub data ClassifyResult : Type 0 where
  success : (http_status : ℕ) → ClassifyResult
  failed : (error_code error_message : String) → (http_status : Option ℕ) → ClassifyResult
  -- an exception that `classify` does not catch
  raised : ClassifyResult

pub record InferenceClient : Type 0 where
  pub max_retries : ℕ
  pub cb_threshold : ℕ
  pub cb_cooldown : ℕ
  pub cb_failures : ℕ
  pub cb_open_until : ℕ

-- `_check_circuit_breaker`, which resets an expired breaker
unfoldable pub check_circuit_breaker :
    (now : ℕ) → InferenceClient → Option ClassifyResult × InferenceClient
check_circuit_breaker now s =
    if leb s.cb_threshold s.cb_failures
    then if ltb now s.cb_open_until
      then (some (failed "circuit_open" "inference service circuit breaker open" none), s)
      else (none, record s { cb_failures = 0 })
    else (none, s)

abbrev pub record_success : InferenceClient → InferenceClient
record_success s = record s { cb_failures = 0 }

unfoldable pub record_failure : (later : ℕ) → InferenceClient → InferenceClient
record_failure later s =
    let s' = record s { cb_failures = s.cb_failures + 1 } in
    if leb s.cb_threshold (s.cb_failures + 1)
    then record s' { cb_open_until = later + s.cb_cooldown }
    else s'

-- `text[:n]`
take_text : ℕ → String → String
take_text zero s = nil
take_text (suc n) nil = nil
take_text (suc n) (cons c s) = cons c (take_text n s)

or_unknown : String → String
or_unknown nil = "unknown error"
or_unknown (cons c s) = take_text 200 (cons c s)

-- `_parse_error_response`
unfoldable pub parse_error_response : Body → String × String
unfolding or_unknown take_text
parse_error_response body = elim (body.error_code) [
  | some code ↦ (code, elim (body.message) [ none ↦ nil | some message ↦ message ])
  | none ↦ ("unavailable", or_unknown body.text)
]

abbrev pub reject : ℕ → Body → ClassifyResult
reject status_code body =
    let (code, message) = parse_error_response body in failed code message (some status_code)

-- The loop, with `left` attempts to go.
unfoldable pub attempts :
    (later : ℕ)
    → (ℕ → Reply)
    → (left attempt : ℕ) → InferenceClient
    → ClassifyResult × InferenceClient
attempts later replies zero attempt s =
    (failed "unavailable" "inference service unavailable" none, record_failure later s)
attempts later replies (suc left) attempt s =
    let again = attempts later replies left (attempt + 1) s in
    elim (replies attempt) [
      | answered status_code body ↦
          if ltb status_code 400
          then ((if body.is_json then success status_code else raised), record_success s)
          else if ltb status_code 500
          then (reject status_code body, record_success s)
          else if left == 0
          then (reject status_code body, record_failure later s)
          else again
      | unreachable ↦ again
      | broken ↦ (raised, s)
    ]

unfoldable pub classify :
    (now later : ℕ) → (ℕ → Reply) → InferenceClient → ClassifyResult × InferenceClient
classify now later replies s =
    let (stopped, s') = check_circuit_breaker now s in
    elim stopped [
      | some result ↦ (result, s')
      | none ↦ attempts later replies (1 + s.max_retries) 0 s'
    ]
