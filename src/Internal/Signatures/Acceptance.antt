-- ===== src/Internal/Signatures/Acceptance.antt =====
-- services/router-service/src/common/internal.py: which requests `verify_internal_secret` accepts,
-- and that it accepts those that `build_internal_headers` has signed.
use Prim.Native.String.{◌++◌, [] as nil}
use eucal_ai_backend.Prelude.{
  ℕ, ◌+◌, ◌*◌, ◌≤◌, ◌<◌, ◌≡◌, ◌↔◌, refl, sym, ap, ◌∙◌, inl, inr, String, true, false, not, Option,
  none, some, List, [], arith, Bool-cases, Option-cases, is_nonempty,
}
use eucal_ai_backend.Prelude.Int.{ℤ, pos, negsuc, pos_part, neg_part, ◌-ℤ◌}
use eucal_ai_backend.Prelude.Keyed.{mem, string_eq}
use eucal_ai_backend.Prelude.Text.{is_empty}
use eucal_ai_backend.Internal.Signatures.{
  Library, QueryValue, pairs_of, accepted, forbidden, Headers, Request, canonicalize_json_body,
  canonicalize_request_body, canonicalize_query_pairs, canonicalize_request_query,
  canonicalize_query_params, canonicalize_request_target, build_internal_signature,
  build_internal_headers, expected_signature, is_stale, verify_internal_secret,
  invalid_internal_secret_detail,
}

-- the distance of two times is within `ttl`
abbrev pub IsWithin : (ttl : ℕ) → ℕ → ℤ → Type 0
IsWithin ttl now t = (now + neg_part t ≤ pos_part t + ttl) × (pos_part t ≤ now + neg_part t + ttl)

is_stale-IsWithin : (now ttl : ℕ) (t : ℤ) → is_stale now ttl t ≡ false → IsWithin ttl now t
unfolding is_stale ◌-ℤ◌
is_stale-IsWithin now ttl t h = ground arith

IsWithin-is_stale : (now ttl : ℕ) (t : ℤ) → IsWithin ttl now t → is_stale now ttl t ≡ false
unfolding is_stale ◌-ℤ◌
IsWithin-is_stale now ttl (pos n) h = ground arith
IsWithin-is_stale now ttl (negsuc n) h = ground arith

module _ (lib : Library) where
  -- what a signature covers: the caller, the method in capitals, the target, the time and the hash
  -- of the body, with bars between them
  unfoldable pub signed_text : Request → String
  signed_text request =
      request.headers.caller
      ++ ("|"
          ++ (lib.upper request.method
              ++ ("|"
                  ++ (canonicalize_request_target lib request.path request.query []
                      ++ ("|"
                          ++ (request.headers.timestamp
                              ++ ("|"
                                  ++ lib.sha256 (canonicalize_request_body lib request.body))))))))

  -- what the check asks of a request
  pub record IsGenuine (now : ℕ) (secret : String) (ttl : ℕ) (allowed : List String)
      (request : Request) : Type 0 where
    pub time : ℤ
    pub signed_at : lib.int request.headers.timestamp ≡ some time
    pub recent : IsWithin ttl now time
    pub signed : lib.hmac_sha256 secret (signed_text request) ≡ request.headers.signature
    pub named : is_empty request.headers.caller ≡ false
    pub has_time : is_empty request.headers.timestamp ≡ false
    pub has_signature : is_empty request.headers.signature ≡ false
    pub allows : is_nonempty allowed ≡ true → mem request.headers.caller allowed ≡ true

  expected_signature_lem :
      (secret : String) (request : Request)
      → expected_signature lib secret request ≡ lib.hmac_sha256 secret (signed_text request)
  unfolding build_internal_signature signed_text
  expected_signature_lem secret request = refl

  accepted-IsGenuine :
      (now : ℕ) (secret : String) (ttl : ℕ) (allowed : List String) (request : Request) (c : String)
      → verify_internal_secret lib now secret ttl allowed request ≡ accepted c
      → (c ≡ request.headers.caller) × IsGenuine now secret ttl allowed request
  unfolding verify_internal_secret
  accepted-IsGenuine now secret ttl allowed request c h =
      let r = request.headers in
      let text = expected_signature_lem secret request in
      elim (Option-cases (lib.int r.timestamp)) [
        | inl unread ↦ ground arith
        | inr (time, read) ↦
            let same = string_eq.beq_iff (expected_signature lib secret request) r.signature in
            (
              ground arith,
              record {
                time = time;
                signed_at = read;
                recent = is_stale-IsWithin now ttl time (ground arith);
                signed = ground arith;
                named = ground arith;
                has_time = ground arith;
                has_signature = ground arith;
                allows = λ some_are. ground arith;
              },
            )
      ]

  pub IsGenuine-verify :
      (now : ℕ) (secret : String) (ttl : ℕ) (allowed : List String) (request : Request)
      → IsGenuine now secret ttl allowed request
      → verify_internal_secret lib now secret ttl allowed request ≡ accepted request.headers.caller
  unfolding verify_internal_secret
  IsGenuine-verify now secret ttl allowed request h =
      let r = request.headers in
      let text = expected_signature_lem secret request in
      let fresh = IsWithin-is_stale now ttl h.time h.recent in
      let same = string_eq.beq_iff (expected_signature lib secret request) r.signature in
      elim (Bool-cases (is_nonempty allowed)) [
        | inl some_are ↦ let listed = h.allows some_are in ground arith
        | inr all_are ↦ ground arith
      ]

  -- A request is accepted exactly if all of this holds, and then under the caller that its header
  -- names: the header has a caller, a time and a signature; the time is an integer within the
  -- allowed seconds of the clock, before or after; the signature is the HMAC, by the secret, of the
  -- caller, the method, the target, the time and the hash of the body of this request; and the
  -- caller is an allowed one, if only some are.
  pub verify-IsGenuine :
      (now : ℕ) (secret : String) (ttl : ℕ) (allowed : List String) (request : Request) (c : String)
      → (verify_internal_secret lib now secret ttl allowed request ≡ accepted c)
        ↔ ((request.headers.caller ≡ c) × IsGenuine now secret ttl allowed request)
  verify-IsGenuine now secret ttl allowed request c = (
    λ h.
        let (same, genuine) = accepted-IsGenuine now secret ttl allowed request c h in
        (sym same, genuine),
    λ (same, genuine). IsGenuine-verify now secret ttl allowed request genuine ∙ ap accepted same,
  )

  -- Where a signature is accepted, it is refused once twice the allowed seconds have passed: an
  -- intercepted request can be sent again for that long only.
  pub verify_replayed :
      (now later : ℕ) (secret : String) (ttl : ℕ) (allowed : List String) (request : Request)
      (c : String)
      → verify_internal_secret lib now secret ttl allowed request ≡ accepted c
      → now + 2 * ttl < later
      → verify_internal_secret lib later secret ttl allowed request
        ≡ forbidden invalid_internal_secret_detail
  unfolding verify_internal_secret
  verify_replayed now later secret ttl allowed request c h late =
      let genuine = (accepted-IsGenuine now secret ttl allowed request c h).1 in
      let stale : is_stale later ttl genuine.time ≡ true =
        elim (Bool-cases (is_stale later ttl genuine.time)) [
          | inl old ↦ old
          | inr fresh ↦ absurd (omega (arith, is_stale-IsWithin later ttl genuine.time fresh))
        ] in
      ground arith

  -- `httpx` has sent this JSON
  abbrev pub Carries : Option lib.Json → String → Type 0
  Carries none body = is_empty body ≡ true
  Carries (some json_body) body = (is_empty body ≡ false) × (lib.loads body ≡ some (some json_body))

  -- The request that arrives is the one that was signed: httpx writes the method in capitals, sends
  -- the JSON body as a text that parses to it, the path as it is, and the query parameters in their
  -- order. (A parameter that is None is left out of the signature: it must not be sent either.)
  pub record IsDelivered (method path : String) (json_body : Option lib.Json)
      (query_params : List (String × QueryValue)) (request : Request) : Type 0 where
    pub same_method : lib.upper request.method ≡ lib.upper method
    pub same_body : Carries json_body request.body
    pub same_path : lib.split_path path ≡ request.path
    pub plain_path : lib.split_path request.path ≡ request.path
    pub path_given : is_empty request.path ≡ false
    pub no_query : lib.split_query request.path ≡ nil
    pub query_of_path : is_nonempty query_params ≡ false → request.query ≡ lib.split_query path
    pub query_of_params :
        is_nonempty query_params ≡ true → lib.parse_qsl request.query ≡ pairs_of query_params
    pub query_given :
        is_nonempty query_params ≡ true
        → is_empty request.query ≡ not (is_nonempty (pairs_of query_params))

  same_body_lem :
      (json_body : Option lib.Json) (body : String)
      → Carries json_body body
      → canonicalize_request_body lib body ≡ canonicalize_json_body lib json_body
  unfolding canonicalize_request_body canonicalize_json_body
  same_body_lem none body h = ground arith
  same_body_lem (some json_body) body h = ground arith

  same_target :
      (method path : String) (json_body : Option lib.Json)
      (query_params : List (String × QueryValue)) (request : Request)
      → IsDelivered method path json_body query_params request
      → canonicalize_request_target lib request.path request.query []
        ≡ canonicalize_request_target lib path nil query_params
  unfolding canonicalize_request_target canonicalize_query_params canonicalize_request_query
      canonicalize_query_pairs
  same_target method path json_body query_params request h =
      elim (Bool-cases (is_nonempty query_params)) [
        | inl some_are ↦
            let sent = h.query_of_params some_are in
            let given = h.query_given some_are in
            elim (Bool-cases (is_nonempty (pairs_of query_params))) [
              | inl pairs ↦ ground arith
              | inr no_pairs ↦ ground arith
            ]
        | inr no_params ↦
            let sent = h.query_of_path no_params in
            elim (Bool-cases (is_empty request.query)) [
              | inl bare ↦ ground arith
              | inr query ↦ ground arith
            ]
      ]

  -- Round trip: a request that a service signs with the secret is accepted under that service's
  -- name, if it arrives as it was signed, within the allowed seconds by the two clocks, and the
  -- service is an allowed caller.
  pub verify-build :
      (now later : ℕ) (secret : String) (ttl : ℕ) (allowed : List String)
      (caller method path : String) (json_body : Option lib.Json)
      (query_params : List (String × QueryValue)) (request : Request)
      → request.headers
        ≡ build_internal_headers lib now secret caller method path json_body query_params
      → IsDelivered method path json_body query_params request
      → lib.int (lib.str_of_int now) ≡ some (pos now)
      → is_empty (lib.str_of_int now) ≡ false
      → is_empty caller ≡ false
      → is_empty request.headers.signature ≡ false
      → IsWithin ttl later (pos now)
      → (is_nonempty allowed ≡ true → mem caller allowed ≡ true)
      → verify_internal_secret lib later secret ttl allowed request ≡ accepted caller
  unfolding build_internal_headers build_internal_signature
  verify-build now later secret ttl allowed caller method path json_body query_params request signed
        sent reads shown named made recent listed =
      let target = same_target method path json_body query_params request sent in
      let body = same_body_lem json_body request.body sent.same_body in
      let e : request.headers.caller ≡ caller = ap (λ (h : Headers). h.caller) signed in
      let et : request.headers.timestamp ≡ lib.str_of_int now =
        ap (λ (h : Headers). h.timestamp) signed in
      let es = ap (λ (h : Headers). h.signature) signed in
      let text = expected_signature_lem secret request in
      let genuine : IsGenuine later secret ttl allowed request = record {
        time = pos now;
        signed_at = ap lib.int et ∙ reads;
        recent = recent;
        signed = cc;
        named = rw e named;
        has_time = rw et shown;
        has_signature = made;
        allows = λ some_are. rw e (listed some_are);
      } in
      IsGenuine-verify later secret ttl allowed request genuine ∙ ap accepted e
