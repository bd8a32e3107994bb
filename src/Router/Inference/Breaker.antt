-- ===== src/Router/Inference/Breaker.antt =====
-- When the circuit breaker opens, what it stops, and what the retries reach.
use eucal_ai_backend.Prelude.{
  ℕ, zero, suc, ◌+◌, ◌≤◌, ◌<◌, ◌≡◌, refl, ap, ◌∙◌, ◌⊎◌, inl, inr, Bool, true, false, none, List, [],
  ◌∷◌, arith, length, ltb, leb, ◌&&◌, All, if◌then◌else◌,
}
use mathlib.Core.Path.{subst}
use eucal_ai_backend.Router.Inference.{
  Reply, answered, unreachable, broken, Body, ClassifyResult, success, failed, raised, reject,
  InferenceClient, check_circuit_breaker, record_failure, record_success, attempts, classify,
}

-- a reply that is tried again: a server error, or none at all
abbrev pub IsRetried : Reply → Type 0
IsRetried (answered status_code body) = 500 ≤ status_code
IsRetried unreachable = Unit
IsRetried broken = ⊥

retried-cases :
    (r : Reply)
    → IsRetried r
    → (r ≡ unreachable) ⊎ ((c : ℕ) × (body : Body) × (r ≡ answered c body) × (500 ≤ c))
retried-cases (answered c body) h = inr (c, body, refl, h)
retried-cases unreachable h = inl refl
retried-cases broken h = absurd h

attempts_failed :
    (later : ℕ) (replies : ℕ → Reply) (left attempt : ℕ) (s : InferenceClient)
    → ((n : ℕ) → IsRetried (replies n))
    → (attempts later replies left attempt s).1 ≡ record_failure later s
unfolding attempts
attempts_failed later replies zero attempt s h = refl
attempts_failed later replies (suc left) attempt s h =
    let rest = attempts_failed later replies left (attempt + 1) s h in
    elim (retried-cases (replies attempt) (h attempt)) [
      | inl none_there ↦ ground arith
      | inr (c, body, e, server) ↦ ground arith
    ]

-- the breaker lets a call through
abbrev pub is_stopped : ℕ → InferenceClient → Bool
is_stopped now s = leb s.cb_threshold s.cb_failures && ltb now s.cb_open_until

classify_failed :
    (now later : ℕ) (replies : ℕ → Reply) (s : InferenceClient)
    → s.cb_failures < s.cb_threshold
    → ((n : ℕ) → IsRetried (replies n))
    → (classify now later replies s).1 ≡ record_failure later s
unfolding classify check_circuit_breaker
classify_failed now later replies s closed h =
    ground (arith, attempts_failed later replies (1 + s.max_retries) 0 s h)

pub record Call : Type 0 where
  pub now : ℕ
  pub later : ℕ
  pub replies : ℕ → Reply

abbrev pub IsFailing : Call → Type 0
IsFailing call = (n : ℕ) → IsRetried (call.replies n)

-- the calls of `classify` one after the other
unfoldable pub classify_all : List Call → InferenceClient → InferenceClient
classify_all [] s = s
classify_all (call ∷ calls) s = classify_all calls (classify call.now call.later call.replies s).1

failures-classify_all :
    (calls : List Call) (s : InferenceClient)
    → All IsFailing calls
    → s.cb_failures + length calls < s.cb_threshold
    → let s' = classify_all calls s in
      (s'.cb_failures ≡ s.cb_failures + length calls)
      × (s'.cb_threshold ≡ s.cb_threshold)
      × (s'.cb_cooldown ≡ s.cb_cooldown)
unfolding classify_all record_failure
failures-classify_all [] s h closed = ground arith
failures-classify_all (call ∷ calls) s (h, hs) closed =
    let step = classify_failed call.now call.later call.replies s (omega arith) h in
    ground
      (arith, step, failures-classify_all calls (classify call.now call.later call.replies s).1 hs)

stopped :
    (now later : ℕ) (replies : ℕ → Reply) (s : InferenceClient)
    → is_stopped now s ≡ true
    → classify now later replies s
      ≡ (failed "circuit_open" "inference service circuit breaker open" none, s)
unfolding classify check_circuit_breaker
stopped now later replies s h = ground arith

-- The breaker opens: after as many calls in a row as the threshold says, from a client without
-- failures, in which no attempt met anything but server errors and unreachable servers, every
-- call before the cooldown has passed is refused at once, whatever the service would answer.
pub classify_all_opens :
    (calls : List Call) (last : Call) (s : InferenceClient) (now later : ℕ) (replies : ℕ → Reply)
    → s.cb_failures ≡ 0
    → All IsFailing calls
    → IsFailing last
    → length calls + 1 ≡ s.cb_threshold
    → now < last.later + s.cb_cooldown
    → let s' = (classify last.now last.later last.replies (classify_all calls s)).1 in
      classify now later replies s'
      ≡ (failed "circuit_open" "inference service circuit breaker open" none, s')
unfolding record_failure
classify_all_opens calls last s now later replies fresh h h' enough early =
    let earlier = failures-classify_all calls s h (omega arith) in
    let s' = classify_all calls s in
    let final = classify_failed last.now last.later last.replies s' (omega (arith, earlier)) h' in
    stopped now later replies _ (ground (arith, earlier, final))

attempts_bounded :
    (later : ℕ) (replies : ℕ → Reply) (left attempt : ℕ) (s : InferenceClient)
    → s.cb_failures < s.cb_threshold
    → let s' = (attempts later replies left attempt s).1 in s'.cb_failures ≤ s'.cb_threshold
unfolding attempts record_failure
attempts_bounded later replies zero attempt s h = ground arith
attempts_bounded later replies (suc left) attempt s h =
    let rest = attempts_bounded later replies left (attempt + 1) s h in ground arith

-- The failures that are counted never exceed the threshold.
pub classify_bounded :
    (now later : ℕ) (replies : ℕ → Reply) (s : InferenceClient)
    → 1 ≤ s.cb_threshold
    → s.cb_failures ≤ s.cb_threshold
    → let s' = (classify now later replies s).1 in s'.cb_failures ≤ s'.cb_threshold
unfolding classify check_circuit_breaker
classify_bounded now later replies s h k = ground (
  arith,
  attempts_bounded later replies (1 + s.max_retries) 0 s,
  attempts_bounded later replies (1 + s.max_retries) 0 (record s { cb_failures = 0 }),
)

-- what `classify` makes of an answer that it does not retry
abbrev pub answer : ℕ → Body → ClassifyResult
answer c body = if ltb c 400 then (if body.is_json then success c else raised) else reject c body

attempts_reach :
    (later : ℕ) (replies : ℕ → Reply) (n left attempt c : ℕ) (body : Body) (s : InferenceClient)
    → ((i : ℕ) → i < n → IsRetried (replies (attempt + i)))
    → replies (attempt + n) ≡ answered c body
    → c < 500
    → n < left
    → attempts later replies left attempt s ≡ (answer c body, record_success s)
unfolding attempts
attempts_reach later replies n zero attempt c body s h e k j = ground arith
attempts_reach later replies zero (suc left) attempt c body s h e k j =
    let here : replies attempt ≡ answered c body = ap replies (omega arith) ∙ e in ground arith
attempts_reach later replies (suc n) (suc left) attempt c body s h e k j =
    let first : IsRetried (replies attempt) =
      subst (λ m. IsRetried (replies m)) (omega arith) (h 0 (omega arith)) in
    let rest =
      attempts_reach later replies n left (attempt + 1) c body s
        (λ i lt. subst (λ m. IsRetried (replies m)) (omega arith) (h (suc i) (omega arith)))
        (ap replies (omega arith) ∙ e) k (omega arith) in
    elim (retried-cases (replies attempt) first) [
      | inl none_there ↦ ground arith
      | inr (code, text, again, server) ↦ ground arith
    ]

-- The retries reach the first answer that is no server error, if it comes within the allowed
-- number of retries; a success or a client error resets the breaker.
pub classify_reach :
    (now later : ℕ) (replies : ℕ → Reply) (n c : ℕ) (body : Body) (s : InferenceClient)
    → is_stopped now s ≡ false
    → ((i : ℕ) → i < n → IsRetried (replies i))
    → replies n ≡ answered c body
    → c < 500
    → n ≤ s.max_retries
    → classify now later replies s ≡ (answer c body, record s { cb_failures = 0 })
unfolding classify check_circuit_breaker
classify_reach now later replies n c body s open_ h e k j =
    let start = λ (t : InferenceClient).
      attempts_reach later replies n (1 + s.max_retries) 0 c body t
        (λ i lt. subst (λ m. IsRetried (replies m)) (omega arith) (h i lt))
        (ap replies (omega arith) ∙ e) k (omega arith) in
    ground (arith, start s, start (record s { cb_failures = 0 }))
