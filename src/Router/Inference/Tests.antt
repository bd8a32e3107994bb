-- ===== src/Router/Inference/Tests.antt =====
-- The circuit breaker at a client that opens after two failures.
use eucal_ai_backend.Prelude.{ℕ, zero, suc, ◌<◌, ◌≡◌, refl, true, none, [], ◌∷◌, arith}
use eucal_ai_backend.Router.Inference.{
  Reply, answered, unreachable, Body, InferenceClient, failed, classify,
}
use eucal_ai_backend.Router.Inference.Breaker.{Call, IsRetried, classify_all, classify_all_opens}

abbrev client : InferenceClient
client = record {
  max_retries = 1;
  cb_threshold = 2;
  cb_cooldown = 30;
  cb_failures = 0;
  cb_open_until = 0;
}

abbrev good : Body
good = record { is_json = true; error_code = none; message = none; text = "{}" }

abbrev down : ℕ → Reply
down n = unreachable

-- a server error, and then a success
abbrev late : ℕ → Reply
late zero = answered 503 good
late (suc n) = answered 200 good

abbrev first : Call
first = record { now = 5; later = 6; replies = down }

abbrev second : Call
second = record { now = 7; later = 8; replies = down }

classify_all_opens_example :
    let s = (classify 7 8 down (classify_all (first ∷ []) client)).1 in
    classify 37 37 late s ≡ (failed "circuit_open" "inference service circuit breaker open" none, s)
classify_all_opens_example =
    classify_all_opens (first ∷ []) second client 37 37 late refl ((λ n. tt), tt) (λ n. tt) refl
      (omega arith)

at_first : (i : ℕ) → i < 1 → IsRetried (late i)
at_first zero h = omega arith
at_first (suc i) h = ground arith
