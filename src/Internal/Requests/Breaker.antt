-- ===== src/Internal/Requests/Breaker.antt =====
-- services/router-service/src/common/internal.py: what a call comes to, when the circuit breaker
-- opens, and whom it stops.
pub mod Attempts
use mathlib.Core.Path.{subst}
use eucal_ai_backend.Prelude.{
  ℕ, zero, suc, ◌+◌, ◌≤◌, ◌<◌, ◌≡◌, ◌≢◌, refl, sym, ap, ◌∙◌, ◌⊎◌, inl, inr, String, Bool, true,
  false, Option, none, some, List, [], ◌∷◌, arith, ltb, leb, ◌==◌, ◌&&◌, All, Bool-cases,
  Option-cases, if◌then◌else◌, length,
}
use eucal_ai_backend.Prelude.Int.{ℤ, pos_part}
use eucal_ai_backend.Prelude.Keyed.{find, put, string_eq, find-put_self, find-put_ne}
use eucal_ai_backend.Internal.Requests.{
  CircuitState, Circuits, closed, state_or_new, get_circuit_state, check_circuit_open,
  record_success, failed_state, record_failure, Response, Reply, answered, http_error, Outcome,
  returned, returned_none, circuit_open_error, unavailable_error, response_error, runtime_error,
  extract_error_detail, Policy, is_allowed_404, fail, conclude, run_attempts, request_internal_json,
}
use eucal_ai_backend.Internal.Requests.Breaker.Attempts.{
  IsRetried, retried-cases, Reply-cases, later-IsRetried, attempts_failed, attempts_reach,
  conclude_other, attempts_other, check_other, Decides, settle, attempts_decided,
}

-- Services fail alone: a call changes nothing in the circuit of any other target.
pub find-request_internal_json :
    (policy : Policy) (key other : String) (now now' later : ℕ) (replies : ℕ → Reply)
    (circuits : Circuits)
    → key ≢ other
    → find other (request_internal_json policy key now now' later replies circuits).1
      ≡ find other circuits
unfolding request_internal_json
find-request_internal_json policy key other now now' later replies circuits h =
    let checked = (check_circuit_open now now' key circuits).1 in
    let same = check_other policy key later now now' circuits other h in
    let run =
      attempts_other policy key later replies (pos_part policy.max_retries + 1) 0 checked other h in
    ground arith

-- What a call comes to: with an open circuit, no attempt is made and CircuitOpenError is raised.
-- Otherwise one attempt decides, what its answer is settled as is the result, and the answers
-- before it were server errors or none at all; it is the first attempt whose answer is neither, or
-- the last: after `max_retries` more than the first, a negative number counting as 0.
pub request_decided :
    (policy : Policy) (key : String) (now now' later : ℕ) (replies : ℕ → Reply)
    (circuits : Circuits)
    → let (is_open, checked) = check_circuit_open now now' key circuits in
      let result = request_internal_json policy key now now' later replies circuits in
      ((is_open ≡ true) × (result ≡ (circuit_open_error, checked)))
      ⊎ ((is_open ≡ false)
          × ((n : ℕ) × Decides policy key later replies 0 (pos_part policy.max_retries) n
              × (result ≡ settle policy key later (replies n) checked)))
unfolding request_internal_json Decides
request_decided policy key now now' later replies circuits =
    let checked = (check_circuit_open now now' key circuits).1 in
    let last = pos_part policy.max_retries in
    let run = attempts_decided policy key later replies last 0 checked in
    let more : suc last ≡ last + 1 = omega arith in
    elim (Bool-cases (check_circuit_open now now' key circuits).0) [
      | inl shut ↦ inl (shut, ground arith)
      | inr clear ↦
          let here : request_internal_json policy key now now' later replies circuits
              ≡ run_attempts policy key later replies (last + 1) 0 checked =
            ground arith in
          let decided : settle policy key later (replies (0 + run.0)) checked
              ≡ settle policy key later (replies run.0) checked =
            ap (λ m. settle policy key later (replies m) checked) (omega arith) in
          inr (
            clear,
            (
              run.0,
              run.1,
              here
                  ∙ ap (λ k. run_attempts policy key later replies k 0 checked) (sym more)
                  ∙ run.2
                  ∙ decided,
            ),
          )
    ]

get-put :
    (key : String) (state : CircuitState) (circuits : Circuits)
    → get_circuit_state key (put key state circuits) ≡ state
unfolding get_circuit_state
get-put key state circuits = rw (find-put_self key state circuits)

abbrev IsClear : (now now' : ℕ) → String → Circuits → Type 0
IsClear now now' key circuits = (check_circuit_open now now' key circuits).0 ≡ false

failures-check :
    (now now' : ℕ) (key : String) (circuits : Circuits)
    → (get_circuit_state key (check_circuit_open now now' key circuits).1).consecutive_failures
      ≡ (get_circuit_state key circuits).consecutive_failures
unfolding check_circuit_open
failures-check now now' key circuits =
    let cleared = record (get_circuit_state key circuits) { opened_until = none } in
    ground (arith, get-put key cleared circuits)

request_failed :
    (policy : Policy) (key : String) (now now' later : ℕ) (replies : ℕ → Reply)
    (circuits : Circuits)
    → IsClear now now' key circuits
    → ((n : ℕ) → IsRetried (replies n))
    → (request_internal_json policy key now now' later replies circuits).1
      ≡ fail policy key later (check_circuit_open now now' key circuits).1
unfolding request_internal_json
request_failed policy key now now' later replies circuits clear h =
    let checked = (check_circuit_open now now' key circuits).1 in
    let run = attempts_failed policy key later replies (pos_part policy.max_retries) 0 checked h in
    let e : pos_part policy.max_retries + 1 ≡ suc (pos_part policy.max_retries) = omega arith in
    ground arith

refused :
    (policy : Policy) (key : String) (now now' later until : ℕ) (replies : ℕ → Reply)
    (circuits : Circuits)
    → (get_circuit_state key circuits).opened_until ≡ some until
    → now < until
    → request_internal_json policy key now now' later replies circuits
      ≡ (circuit_open_error, circuits)
unfolding request_internal_json check_circuit_open
refused policy key now now' later until replies circuits h early = ground arith

opened_by_failure :
    (policy : Policy) (key : String) (later : ℕ) (circuits : Circuits)
    → 0 < policy.threshold
    → policy.threshold ≤ (get_circuit_state key circuits).consecutive_failures + 1
    → (get_circuit_state key (fail policy key later circuits)).opened_until
      ≡ some (later + policy.cooldown_seconds)
unfolding record_failure failed_state
opened_by_failure policy key later circuits on enough =
    let failed =
      failed_state later policy.threshold policy.cooldown_seconds
        (get_circuit_state key circuits) in
    ground (arith, get-put key failed circuits)

-- One failed call opens the circuit of a target whose failures in a row have come up to the
-- threshold with it, also after the wait, when the circuit lets one call try: until the cooldown
-- has passed since, every call to that target is refused at once, whatever it would answer, and
-- changes nothing.
pub request_opens :
    (policy : Policy) (key : String) (now now' later : ℕ) (replies : ℕ → Reply)
    (circuits : Circuits) (next : Policy) (t t' u : ℕ) (answers : ℕ → Reply)
    → IsClear now now' key circuits
    → ((n : ℕ) → IsRetried (replies n))
    → 0 < policy.threshold
    → policy.threshold ≤ (get_circuit_state key circuits).consecutive_failures + 1
    → t < later + policy.cooldown_seconds
    → let circuits' = (request_internal_json policy key now now' later replies circuits).1 in
      request_internal_json next key t t' u answers circuits' ≡ (circuit_open_error, circuits')
request_opens policy key now now' later replies circuits next t t' u answers clear h on enough
      early =
    let checked = (check_circuit_open now now' key circuits).1 in
    let e = request_failed policy key now now' later replies circuits clear h in
    let opened =
      opened_by_failure policy key later checked on
        (omega (arith, failures-check now now' key circuits)) in
    refused next key t t' u (later + policy.cooldown_seconds) answers _
      (ap (λ (c : Circuits). (get_circuit_state key c).opened_until) e ∙ opened) early

-- The retries reach the first answer that is no server error, if it comes within the retries that
-- are allowed: what the call comes to and how the circuit stands after it are decided by that
-- answer alone.
pub request_reach :
    (policy : Policy) (key : String) (now now' later : ℕ) (replies : ℕ → Reply)
    (circuits : Circuits) (response : Response) (n : ℕ)
    → IsClear now now' key circuits
    → ((i : ℕ) → i < n → IsRetried (replies i))
    → replies n ≡ answered response
    → response.status_code < 500
    → n ≤ pos_part policy.max_retries
    → request_internal_json policy key now now' later replies circuits
      ≡ conclude policy key later response (check_circuit_open now now' key circuits).1
unfolding request_internal_json
request_reach policy key now now' later replies circuits response n clear h e good enough =
    let checked = (check_circuit_open now now' key circuits).1 in
    let run =
      attempts_reach policy key later replies response n (pos_part policy.max_retries + 1) 0 checked
        (λ i lt.
          let shift : i ≡ 0 + i = omega arith in subst (λ m. IsRetried (replies m)) shift (h i lt))
        (ap replies (omega arith) ∙ e) good (omega arith) in
    ground arith

-- a call that is answered in full, but not by JSON
pub record Garbled : Type 0 where
  pub now : ℕ
  pub now' : ℕ
  pub later : ℕ
  pub response : Response

abbrev pub IsGarbled : Garbled → Type 0
IsGarbled call = (call.response.status_code < 400) × (call.response.json ≡ none)

unfoldable pub request_all : Policy → (key : String) → List Garbled → Circuits → Circuits
request_all policy key [] circuits = circuits
request_all policy key (call ∷ calls) circuits =
    request_all policy key calls
      (request_internal_json policy key call.now call.now' call.later (λ n. answered call.response)
        circuits).1

garbled_closed :
    (policy : Policy) (key : String) (later : ℕ) (response : Response) (circuits : Circuits)
    → 1 < policy.threshold
    → response.status_code < 400
    → response.json ≡ none
    → (get_circuit_state key (conclude policy key later response circuits).1).opened_until ≡ none
unfolding conclude record_failure record_success failed_state
garbled_closed policy key later response circuits high good none_there =
    let won = put key closed circuits in
    let failed =
      failed_state later policy.threshold policy.cooldown_seconds (get_circuit_state key won) in
    ground (arith, get-put key closed circuits, get-put key failed won)

clear_of_none :
    (now now' : ℕ) (key : String) (circuits : Circuits)
    → (get_circuit_state key circuits).opened_until ≡ none
    → check_circuit_open now now' key circuits ≡ (false, circuits)
unfolding check_circuit_open
clear_of_none now now' key circuits h = ground arith

-- Answers that are no JSON never open the circuit, however many come in a row, where the threshold
-- is more than one: each counts as a success first. (At the start the circuit is not open.)
pub request_all_closed :
    (policy : Policy) (key : String) (calls : List Garbled) (circuits : Circuits)
    → 1 < policy.threshold
    → All IsGarbled calls
    → (get_circuit_state key circuits).opened_until ≡ none
    → (get_circuit_state key (request_all policy key calls circuits)).opened_until ≡ none
unfolding request_all
request_all_closed policy key [] circuits high h start = start
request_all_closed policy key (call ∷ calls) circuits high (garbled, h) start =
    let clear = clear_of_none call.now call.now' key circuits start in
    let reached =
      request_reach policy key call.now call.now' call.later (λ n. answered call.response) circuits
        call.response 0 (ap (λ (c : Bool × Circuits). c.0) clear) (λ i lt. absurd (omega arith))
        refl (omega (arith, garbled.0)) (omega arith) in
    request_all_closed policy key calls _ high h
      (rw reached (garbled_closed policy key call.later call.response _ high garbled.0 garbled.1))
