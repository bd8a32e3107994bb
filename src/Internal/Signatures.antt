-- ===== src/Internal/Signatures.antt =====
-- services/router-service/src/common/internal.py: the canonical form of a request, its signature,
-- and the check of it. A missing text is empty: the code tests each for its truth. `Library` has
-- the modules json, urllib, hashlib and hmac; SHA-256 and HMAC are functions, and nothing is
-- assumed of them. A signature is taken to be ASCII: for any other, `hmac.compare_digest` raises.
pub mod Acceptance
use Prim.Native.String.{◌++◌ as str_append, compare, [] as nil}
use text.Mathlib.Text.{is_lt}
use eucal_ai_backend.Prelude.{
  ℕ, ◌+◌, String, Bool, true, false, not, ◌&&◌, ◌||◌, Option, none, some, List, [], ◌∷◌, ◌++◌, ltb,
  is_nonempty, if◌then◌else◌,
}
use eucal_ai_backend.Prelude.Int.{ℤ, pos, pos_part, neg_part, ◌-ℤ◌}
use eucal_ai_backend.Prelude.Keyed.{mem, string_eq}
use eucal_ai_backend.Prelude.Text.{is_empty}

-- The body of a request is bytes, kept as a text; `Json` is a dictionary or a list.
pub record Library : Type 1 where
  pub Json : Type 0
  -- `json.dumps(..., ensure_ascii=False, sort_keys=True, separators=(",", ":"))`
  pub dumps : Json → String
  -- `json.loads(body.decode("utf-8"))`: `none` for an error, `some none` for `null`
  pub loads : String → Option (Option Json)
  -- `body.decode("utf-8", errors="ignore")`
  pub decode_ignoring : String → String
  pub urlencode : List (String × String) → String
  -- with `keep_blank_values=True`
  pub parse_qsl : String → List (String × String)
  pub split_path : String → String
  pub split_query : String → String
  pub upper : String → String
  pub int : String → Option ℤ
  pub str_of_int : ℕ → String
  pub sha256 : String → String
  pub hmac_sha256 : (secret payload : String) → String

-- the value of a query parameter, its texts made by `str`
pub data QueryValue : Type 0 where
  missing : QueryValue
  one : String → QueryValue
  many : List (Option String) → QueryValue

abbrev pub or_else : String → String → String
or_else s t = if is_empty s then t else s

-- the order of pairs of texts
abbrev pub is_before : String × String → String × String → Bool
is_before (k, v) (l, w) = is_lt (compare k l) || (string_eq.beq k l && is_lt (compare v w))

unfoldable pub insert : String × String → List (String × String) → List (String × String)
insert p [] = p ∷ []
insert p (q ∷ qs) = if is_before q p then q ∷ insert p qs else p ∷ q ∷ qs

-- `sorted`
unfoldable pub sort : List (String × String) → List (String × String)
sort [] = []
sort (p ∷ ps) = insert p (sort ps)

abbrev entries_of : (key : String) → List (Option String) → List (String × String)
entries_of key [] = []
entries_of key (none ∷ entries) = entries_of key entries
entries_of key (some entry ∷ entries) = (key, entry) ∷ entries_of key entries

abbrev pairs_of_value : (key : String) → QueryValue → List (String × String)
pairs_of_value key missing = []
pairs_of_value key (one value) = (key, value) ∷ []
pairs_of_value key (many values) = entries_of key values

-- the loop of `_canonicalize_query_params`
unfoldable pub pairs_of : List (String × QueryValue) → List (String × String)
pairs_of [] = []
pairs_of ((key, value) ∷ items) = pairs_of_value key value ++ pairs_of items

pub data Verdict : Type 0 where
  accepted : (internal_caller : String) → Verdict
  forbidden : (detail : String) → Verdict

pub record Headers : Type 0 where
  pub caller : String
  pub timestamp : String
  pub signature : String

pub record Request : Type 0 where
  pub method : String
  pub path : String
  pub query : String
  pub body : String
  pub headers : Headers

abbrev pub invalid_internal_secret_detail : String
invalid_internal_secret_detail = "Invalid internal secret"

abbrev pub invalid_internal_caller_detail : String
invalid_internal_caller_detail = "Invalid internal caller"

-- `abs(int(time.time()) - timestamp_value) > request_ttl_seconds`
unfoldable pub is_stale : (now ttl : ℕ) → ℤ → Bool
is_stale now ttl t =
    let difference = pos now -ℤ t in ltb ttl (pos_part difference + neg_part difference)

module _ (lib : Library) where
  open lib use {
    Json, dumps, loads, decode_ignoring, urlencode, parse_qsl, split_path, split_query, upper, int,
    str_of_int, sha256, hmac_sha256,
  }

  unfoldable pub canonicalize_json_body : Option Json → String
  canonicalize_json_body none = nil
  canonicalize_json_body (some json_body) = dumps json_body

  unfoldable pub canonicalize_request_body : String → String
  canonicalize_request_body body = if is_empty body then nil else (elim (loads body) [
    | none ↦ decode_ignoring body
    | some parsed ↦ canonicalize_json_body parsed
  ])

  unfoldable pub canonicalize_query_pairs : List (String × String) → String
  canonicalize_query_pairs pairs = if is_nonempty pairs then urlencode (sort pairs) else nil

  unfoldable pub canonicalize_request_query : String → String
  canonicalize_request_query raw_query =
      if is_empty raw_query then nil else canonicalize_query_pairs (parse_qsl raw_query)

  unfoldable pub canonicalize_query_params : List (String × QueryValue) → String
  canonicalize_query_params query_params =
      if is_nonempty query_params then canonicalize_query_pairs (pairs_of query_params) else nil

  abbrev pub target_of : (path query : String) → String
  target_of path query = if is_empty query then path else str_append path (str_append "?" query)

  unfoldable pub canonicalize_request_target :
      (path raw_query : String) → List (String × QueryValue) → String
  canonicalize_request_target path raw_query query_params =
      target_of (or_else (split_path path) (or_else path "/")) (
        if is_nonempty query_params
        then canonicalize_query_params query_params
        else canonicalize_request_query (or_else raw_query (split_query path)))

  abbrev pub bar : String → String → String
  bar s t = str_append s (str_append "|" t)

  unfoldable pub build_internal_signature :
      (secret caller_service method request_target timestamp canonical_body : String) → String
  build_internal_signature secret caller_service method request_target timestamp canonical_body =
      hmac_sha256 secret (
        bar caller_service
          (bar (upper method) (bar request_target (bar timestamp (sha256 canonical_body)))))

  -- the three headers that `build_internal_headers` signs with; the ids of the trace come besides
  unfoldable pub build_internal_headers :
      (now : ℕ)
      → (secret caller_service method path : String) → Option Json
      → List (String × QueryValue)
      → Headers
  build_internal_headers now secret caller_service method path json_body query_params = record {
    caller = caller_service;
    timestamp = str_of_int now;
    signature =
        build_internal_signature secret caller_service method
          (canonicalize_request_target path nil query_params) (str_of_int now)
          (canonicalize_json_body json_body);
  }

  abbrev pub expected_signature : (secret : String) → Request → String
  expected_signature secret request =
      build_internal_signature secret request.headers.caller request.method
        (canonicalize_request_target request.path request.query []) request.headers.timestamp
        (canonicalize_request_body request.body)

  -- `verify_internal_secret` of `build_internal_auth_dependency`
  unfoldable pub verify_internal_secret :
      (now : ℕ)
      → (expected_secret : String) → (request_ttl_seconds : ℕ) → (allowed_callers : List String)
      → Request
      → Verdict
  verify_internal_secret now expected_secret request_ttl_seconds allowed_callers request =
      let h = request.headers in
      if is_empty h.caller || is_empty h.timestamp || is_empty h.signature
      then forbidden invalid_internal_secret_detail
      else (elim (int h.timestamp) [
        | none ↦ forbidden invalid_internal_secret_detail
        | some timestamp_value ↦
            if is_stale now request_ttl_seconds timestamp_value
            then forbidden invalid_internal_secret_detail
            else if not (string_eq.beq (expected_signature expected_secret request) h.signature)
            then forbidden invalid_internal_secret_detail
            else if is_nonempty allowed_callers && not (mem h.caller allowed_callers)
            then forbidden invalid_internal_caller_detail
            else accepted h.caller
      ])
