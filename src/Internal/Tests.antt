-- ===== src/Internal/Tests.antt =====
-- services/router-service/src/common/internal.py: the theorems at concrete requests.
use Prim.Native.String.{[] as nil, ◌++◌ as str_append}
use eucal_ai_backend.Prelude.{
  ◌↔◌, ◌⊎◌, true, ℕ, zero, suc, ◌<◌, Option, none, false, ◌≡◌, refl, String, some, List, [], ◌∷◌,
  arith,
}
use eucal_ai_backend.Prelude.Int.{pos, negsuc, ◌-ℤ◌}
use eucal_ai_backend.Prelude.Keyed.{mem, find, string_eq}
use eucal_ai_backend.Internal.Signatures.{
  Library, QueryValue, one, accepted, forbidden, Headers, Request, pairs_of,
  invalid_internal_secret_detail, build_internal_headers, build_internal_signature,
  canonicalize_json_body, canonicalize_query_pairs, canonicalize_query_params,
  canonicalize_request_target, verify_internal_secret, is_stale, sort, insert,
  canonicalize_request_query, canonicalize_request_body,
}
use eucal_ai_backend.Internal.Signatures.Acceptance.{
  IsGenuine, IsDelivered, verify-IsGenuine, verify_replayed, verify-build,
}
use eucal_ai_backend.Internal.Requests.{
  Circuits, get_circuit_state, check_circuit_open, Response, Reply, answered, http_error,
  circuit_open_error, Policy, request_internal_json,
}
use eucal_ai_backend.Internal.Requests.Breaker.{
  request_opens, Garbled, IsGarbled, request_all, request_all_closed, request_decided,
}
use eucal_ai_backend.Internal.Requests.Breaker.Attempts.{IsRetried, Decides, settle}

-- One path, one query and one body are enough here.
abbrev lib : Library
lib = record {
  Json = String;
  dumps = λ s. s;
  loads = λ s. some (some s);
  decode_ignoring = λ s. s;
  urlencode = λ pairs. "limit=5";
  parse_qsl = λ s. ("limit", "5") ∷ [];
  split_path = λ s. s;
  split_query = λ s. nil;
  upper = λ s. "POST";
  int = λ s. some (pos 100);
  str_of_int = λ n. "100";
  sha256 = λ s. s;
  hmac_sha256 = λ secret payload. str_append secret payload;
}

abbrev query_params : List (String × QueryValue)
query_params = ("limit", one "5") ∷ []

abbrev headers : Headers
headers = build_internal_headers lib 100 "key" "router" "post" "/usage" (some "{}") query_params

abbrev request : Request
request = record {
  method = "POST";
  path = "/usage";
  query = "limit=5";
  body = "{}";
  headers = headers;
}

request-IsDelivered : IsDelivered lib "post" "/usage" (some "{}") query_params request
unfolding pairs_of
request-IsDelivered = record {
  same_method = refl;
  same_body = (refl, refl);
  same_path = refl;
  plain_path = refl;
  path_given = refl;
  no_query = refl;
  query_of_path = λ h. cc;
  query_of_params = λ h. refl;
  query_given = λ h. refl;
}

request_accepted :
    verify_internal_secret lib 120 "key" 30 ("router" ∷ []) request ≡ accepted "router"
unfolding build_internal_headers build_internal_signature mem canonicalize_request_target
    canonicalize_query_params canonicalize_query_pairs pairs_of canonicalize_json_body
    verify_internal_secret is_stale canonicalize_request_query canonicalize_request_body sort insert
    ◌-ℤ◌
request_accepted = refl

verify-build_example :
    verify_internal_secret lib 120 "key" 30 ("router" ∷ []) request ≡ accepted "router"
unfolding build_internal_headers build_internal_signature mem canonicalize_request_target
    canonicalize_query_params canonicalize_query_pairs pairs_of canonicalize_json_body
verify-build_example =
    verify-build lib 100 120 "key" 30 ("router" ∷ []) "router" "post" "/usage" (some "{}")
      query_params request refl request-IsDelivered refl refl refl refl (omega arith) (λ h. refl)

verify-IsGenuine_example :
    (verify_internal_secret lib 120 "key" 30 ("router" ∷ []) request ≡ accepted "router")
    ↔ ((request.headers.caller ≡ "router") × IsGenuine lib 120 "key" 30 ("router" ∷ []) request)
verify-IsGenuine_example = verify-IsGenuine lib 120 "key" 30 ("router" ∷ []) request "router"

verify_replayed_example :
    verify_internal_secret lib 181 "key" 30 ("router" ∷ []) request
    ≡ forbidden invalid_internal_secret_detail
verify_replayed_example =
    verify_replayed lib 120 181 "key" 30 ("router" ∷ []) request "router" request_accepted
      (omega arith)

abbrev policy : Policy
policy = record { allow_404 = false; max_retries = pos 1; threshold = 3; cooldown_seconds = 30 }

abbrev answer : ℕ → Option String → Response
answer status_code json = record {
  status_code = status_code;
  json = json;
  is_dict = false;
  detail = nil;
  message = nil;
  error = nil;
  text = nil;
}

abbrev twice_failed : Circuits
twice_failed = ("user|http://u", record { consecutive_failures = 2; opened_until = none }) ∷ []

request_opens_example :
    let s =
      (request_internal_json policy "user|http://u" 10 10 12 (λ n. http_error) twice_failed).1 in
    request_internal_json policy "user|http://u" 40 40 40 (λ n. answered (answer 200 (some "{}"))) s
    ≡ (circuit_open_error, s)
unfolding get_circuit_state check_circuit_open find
request_opens_example =
    request_opens policy "user|http://u" 10 10 12 (λ n. http_error) twice_failed policy 40 40 40
      (λ n. answered (answer 200 (some "{}"))) refl (λ n. tt) (omega arith) (omega arith)
      (omega arith)

abbrev replies : ℕ → Reply
replies zero = http_error
replies (suc n) = answered (answer 200 (some "{}"))

replies-IsRetried : (i : ℕ) → i < 1 → IsRetried (replies i)
replies-IsRetried zero h = tt
replies-IsRetried (suc i) h = absurd (omega arith)

abbrev garbled : Garbled
garbled = record { now = 10; now' = 10; later = 12; response = answer 200 none }

one_garbled : IsGarbled garbled
one_garbled = (omega arith, refl)

request_all_closed_example :
    (get_circuit_state "user|http://u" (
      request_all policy "user|http://u"
        (garbled ∷ garbled ∷ garbled ∷ garbled ∷ [])
        twice_failed)).opened_until
    ≡ none
unfolding get_circuit_state find
request_all_closed_example =
    request_all_closed policy "user|http://u" (garbled ∷ garbled ∷ garbled ∷ garbled ∷ [])
      twice_failed (omega arith) (one_garbled, (one_garbled, (one_garbled, (one_garbled, tt)))) refl

abbrev no_retry : Policy
no_retry = record policy { max_retries = negsuc 0 }

request_decided_example :
    let (is_open, checked) = check_circuit_open 10 10 "user|http://u" twice_failed in
    let result =
      request_internal_json no_retry "user|http://u" 10 10 12 (λ n. http_error) twice_failed in
    ((is_open ≡ true) × (result ≡ (circuit_open_error, checked)))
    ⊎ ((is_open ≡ false)
        × ((n : ℕ) × Decides no_retry "user|http://u" 12 (λ n. http_error) 0 0 n
            × (result ≡ settle no_retry "user|http://u" 12 http_error checked)))
request_decided_example =
    request_decided no_retry "user|http://u" 10 10 12 (λ n. http_error) twice_failed
