-- ===== src/Router/Routing.antt =====
-- services/router-service/src/services/routing.py, and the resolution of a target in
-- services/upstream.py. `Env` has what the two ask others: `urlparse` gives the scheme and the
-- lower-case hostname of a URL, `int` is Python's, and `account_available` is the rate limiter's
-- `is_account_available`, if there is a limiter. `now` is the reading of the monotonic clock. The
-- affinity store is what it answers: see `Affinity`. Logs and the metadata of a route are left out.
pub mod Targets
pub mod Decisions
pub mod Tests
use Prim.Native.String.{◌++◌ as str_append, [] as nil}
use eucal_ai_backend.Prelude.{
  ℕ, String, Bool, true, false, not, ◌&&◌, Option, none, some, List, [], ◌∷◌, is_nonempty, ◌==◌,
  if◌then◌else◌,
}
use eucal_ai_backend.Prelude.Int.{ℤ, pos}
use eucal_ai_backend.Prelude.Keyed.{Table, find, keys, get_or, mem, nat_eq, string_eq}
use eucal_ai_backend.Prelude.Text.{is_empty, strip, rstrip_by, before_suffix}
use eucal_ai_backend.Router.Channels.{
  Channel, ChannelSelector, chosen, no_channels, rate_limited, index_error, is_channel_available,
  select,
}
use eucal_ai_backend.Router.Upstream.{Checked, passed, value_error, validate_upstream_url}

pub record Env : Type 0 where
  pub urlparse : String → String × String
  pub int : String → Option ℤ
  pub account_available : Option (ℕ → ℤ → Bool)

pub record TargetInfo : Type 0 where
  pub logical_model : String
  pub channel_slug : Option String
  pub provider_slug : String
  pub api_key : String
  pub api_base : String
  pub upstream_model : String
  pub input_price : ℤ
  pub output_price : ℤ
  pub cached_input_price : ℤ
  pub pool_account_id : Option ℕ
  pub rpm_limit : Option ℤ

pub data RouteError : Type 0 where
  routing_error : (status_code : ℕ) → (error_code : String) → RouteError
  -- a `KeyError`: no channels, or no provider
  key_error : RouteError
  channel_rate_limited : RouteError
  list_index_error : RouteError
  missing_api_key missing_api_base missing_upstream_model : RouteError
  -- the `ValueError` of `_validate_upstream_url`
  refused_url : RouteError

pub data Result (A : Type 0) : Type 0 where
  ok : A → Result A
  err : RouteError → Result A

pub record Provider : Type 0 where
  pub provider_slug : String
  pub api_key : String
  pub api_base : String
  pub upstream_model : String

pub record Config : Type 0 where
  pub router_alias : String
  pub user_facing_aliases : List String
  pub tier_model_map : Table ℕ String
  pub model_providers : Table String Provider
  -- `none` where the key is missing
  pub model_channels : Option (Table String (List Channel))
  -- the keys of `model_prices`
  pub priced_models : List String

is_slash : ℕ → Bool
is_slash c = c == b'/'

or_models_removed : String → String
or_models_removed base = elim (before_suffix "/models" base) [ none ↦ base | some before ↦ before ]

unfoldable pub normalize_api_base : String → String
unfolding is_slash or_models_removed
normalize_api_base value =
    let base = rstrip_by is_slash (strip value) in
    elim (before_suffix "/chat/completions" base) [
      | some before ↦ before
      | none ↦ or_models_removed base
    ]

abbrev pub check_url : Env → String → Checked
check_url env url =
    let (scheme, hostname) = env.urlparse url in validate_upstream_url env.int scheme hostname

abbrev pub if_passed : {A : Type 0} → Checked → A → Result A
if_passed passed a = ok a
if_passed value_error a = err refused_url

-- the prices that `normalize_runtime_config` gives a channel
abbrev pub normalized_prices : (input output cached_input : ℤ) → Table String ℤ
normalized_prices input output cached_input =
    ("input_price_per_million", input)
    ∷ ("output_price_per_million", output)
    ∷ ("cached_input_price_per_million", cached_input)
    ∷ []

abbrev pub price : String → Channel → ℤ
price key ch = get_or key (pos 0) ch.prices

module _ (env : Env) (model : String) where
  -- the dictionary that `resolve_model_channel_target` returns
  abbrev pub channel_info : Channel → TargetInfo
  channel_info selected = record {
    logical_model = model;
    channel_slug = some selected.channel_slug;
    provider_slug = selected.provider_slug;
    api_key = strip selected.api_key;
    api_base = normalize_api_base selected.api_base;
    upstream_model = strip selected.upstream_model;
    input_price = price "input_price_per_million" selected;
    output_price = price "output_price_per_million" selected;
    cached_input_price = price "cached_input_price_per_million" selected;
    pool_account_id = selected.pool_account_id;
    rpm_limit = selected.rpm_limit;
  }

  -- what `resolve_model_channel_target` makes of the channel that it has selected
  unfoldable pub channel_target : Channel → Result TargetInfo
  channel_target selected =
      let info = channel_info selected in
      if is_empty info.api_key
      then err missing_api_key
      else if is_empty info.api_base
      then err missing_api_base
      else if_passed (check_url env info.api_base) info

  unfoldable pub resolve_model_channel_target :
      (now : ℕ)
      → Table String (List Channel)
      → (excluded_slugs : List String) → (retry_tier : ℕ) → (rate_limited_accounts : List ℕ)
      → ChannelSelector
      → Result TargetInfo × ChannelSelector
  resolve_model_channel_target now model_channels excluded_slugs retry_tier rate_limited_accounts
        s =
      let (choice, s') =
        select now model (get_or model [] model_channels) excluded_slugs retry_tier
          rate_limited_accounts s in
      elim choice [
        | chosen selected ↦ (channel_target selected, s')
        | no_channels ↦ (err key_error, s')
        | rate_limited ↦ (err channel_rate_limited, s')
        | index_error ↦ (err list_index_error, s')
      ]

  -- the dictionary that `resolve_model_provider_target` returns
  abbrev pub provider_info : Provider → TargetInfo
  provider_info config = record {
    logical_model = model;
    channel_slug = none;
    provider_slug = config.provider_slug;
    api_key = strip config.api_key;
    api_base = normalize_api_base config.api_base;
    upstream_model = strip config.upstream_model;
    input_price = pos 0;
    output_price = pos 0;
    cached_input_price = pos 0;
    pool_account_id = none;
    rpm_limit = none;
  }

  -- what `resolve_model_provider_target` makes of a provider's configuration
  unfoldable pub provider_target : Provider → Result TargetInfo
  provider_target config =
      let info = provider_info config in
      if is_empty info.api_key
      then err missing_api_key
      else if is_empty info.api_base
      then err missing_api_base
      else if is_empty info.upstream_model
      then err missing_upstream_model
      else if_passed (check_url env info.api_base) info

  unfoldable pub resolve_model_provider_target : Table String Provider → Result TargetInfo
  resolve_model_provider_target model_providers = elim (find model model_providers) [
    | none ↦ err key_error
    | some config ↦ provider_target config
  ]

  abbrev pub is_unavailable : (ℕ → ℤ → Bool) → Option ℕ → Option ℤ → Bool
  is_unavailable available none limit = false
  is_unavailable available (some account) none = false
  is_unavailable available (some account) (some limit) = not (available account limit)

  abbrev pub add_account : Option ℕ → List ℕ → List ℕ
  add_account none accounts = accounts
  add_account (some account) accounts = account ∷ accounts

  unfoldable pub limited_accounts : (ℕ → ℤ → Bool) → List Channel → List ℕ
  limited_accounts available [] = []
  limited_accounts available (ch ∷ channels) =
      let rest = limited_accounts available channels in
      if is_unavailable available ch.pool_account_id ch.rpm_limit
      then add_account ch.pool_account_id rest
      else rest

  abbrev pub channels_of : Config → List Channel
  channels_of config = elim (config.model_channels) [
    | none ↦ []
    | some model_channels ↦ get_or model [] model_channels
  ]

  -- `_get_rate_limited_accounts`
  unfoldable pub get_rate_limited_accounts : Config → List ℕ
  get_rate_limited_accounts config = elim (env.account_available) [
    | none ↦ []
    | some available ↦ limited_accounts available (channels_of config)
  ]

  unfoldable pub resolve_target :
      (now : ℕ)
      → Config
      → (excluded_slugs : List String) → (retry_tier : ℕ) → ChannelSelector
      → Result TargetInfo × ChannelSelector
  resolve_target now config excluded_slugs retry_tier s = elim (config.model_channels) [
    | none ↦ (resolve_model_provider_target config.model_providers, s)
    | some model_channels ↦
        if is_nonempty model_channels
        then resolve_model_channel_target now model_channels excluded_slugs retry_tier
            (get_rate_limited_accounts config) s
        else (resolve_model_provider_target config.model_providers, s)
  ]

  -- the channel that the affinity names
  unfoldable pub find_channel : (slug : String) → List Channel → Option Channel
  find_channel slug [] = none
  find_channel slug (ch ∷ channels) =
      if string_eq.beq ch.channel_slug slug then some ch else find_channel slug channels

  -- the dictionary of an affinity that holds
  abbrev pub affinity_info : Channel → TargetInfo
  affinity_info ch = record {
    logical_model = model;
    channel_slug = some ch.channel_slug;
    provider_slug = ch.provider_slug;
    api_key = strip ch.api_key;
    api_base = normalize_api_base ch.api_base;
    upstream_model = strip ch.upstream_model;
    input_price = price "cost_input_per_million" ch;
    output_price = price "cost_output_per_million" ch;
    cached_input_price = price "cost_cached_input_per_million" ch;
    pool_account_id = ch.pool_account_id;
    rpm_limit = ch.rpm_limit;
  }

  unfoldable pub affinity_target : Channel → Result TargetInfo
  affinity_target ch = let info = affinity_info ch in if_passed (check_url env info.api_base) info

  -- The channel that is pinned: `cached` is what the store has under the request's affinity key,
  -- empty if there is no key, no store or no entry.
  unfoldable pub pinned : (now : ℕ) → Config → (cached : String) → ChannelSelector → Option Channel
  pinned now config cached s =
      if is_empty cached then none else (elim (find_channel cached (channels_of config)) [
        | none ↦ none
        | some ch ↦ if is_channel_available s now ch.channel_slug then some ch else none
      ])

  -- `_resolve_target_with_affinity`; what it writes to the store follows from the target
  unfoldable pub resolve_target_with_affinity :
      (now : ℕ) → Config → (cached : String) → ChannelSelector → Result TargetInfo × ChannelSelector
  resolve_target_with_affinity now config cached s = elim (pinned now config cached s) [
    | some ch ↦ (affinity_target ch, s)
    | none ↦ resolve_target now config [] 0 s
  ]

-- what the inference service answers, `none` for no error code
pub data Classified : Type 0 where
  classified : (selected_model : String) → Classified
  failed : (error_code : Option String) → Classified

abbrev pub direct_error_codes : Table String ℕ
direct_error_codes = ("auth", 502) ∷ ("validation", 400) ∷ []

unfoldable pub available_models : Config → List String
available_models config = elim (config.model_channels) [
  | some model_channels ↦ keys model_channels
  | none ↦ keys config.model_providers
]

abbrev pub requested_aliases : Config → List String
requested_aliases config =
    if is_nonempty config.user_facing_aliases
    then config.user_facing_aliases
    else config.router_alias ∷ []

-- the model of tier 3, if requests can be sent to it
unfoldable pub tier3_model : Config → Option String
tier3_model config = elim (find 3 config.tier_model_map) [
  | none ↦ none
  | some model ↦
      if not (is_empty model) && mem model (available_models config) then some model else none
]

abbrev pub or_no_fallback : Option String → Result String
or_no_fallback none = err (routing_error 503 "no_fallback")
or_no_fallback (some model) = ok model

-- The error code of a failed classification, for the router's own alias: `error_code or
-- "unavailable"`.
unfoldable pub fall_back : Config → (error_code : Option String) → Result String
fall_back config none = or_no_fallback (tier3_model config)
fall_back config (some error_code) = elim (find error_code direct_error_codes) [
  | some status_code ↦ err (routing_error status_code (str_append "inference_" error_code))
  | none ↦ or_no_fallback (tier3_model config)
]

-- `selected_model`
unfoldable pub select_model : Config → (requested_model : String) → Classified → Result String
select_model config requested_model answer =
    if not (mem requested_model (requested_aliases config))
    then err (routing_error 400 "invalid_model")
    else if string_eq.beq requested_model config.router_alias
    then (elim answer [ classified model ↦ ok model | failed code ↦ fall_back config code ])
    else if mem requested_model (available_models config)
    then ok requested_model
    else (elim answer [
      | classified model ↦ ok model
      | failed code ↦ or_no_fallback (tier3_model config)
    ])

-- the selected model and its target
unfoldable pub route_and_resolve :
    Env
    → (now : ℕ) → Config
    → (requested_model : String) → Classified
    → (cached : String) → ChannelSelector
    → Result (String × TargetInfo) × ChannelSelector
route_and_resolve env now config requested_model answer cached s =
    elim (select_model config requested_model answer) [
      | err error ↦ (err error, s)
      | ok model ↦
          if not (mem model config.priced_models)
          then (err (routing_error 428 "pricing_not_configured"), s)
          else (let (target, s') = resolve_target_with_affinity env model now config cached s in
              elim target [ err error ↦ (err error, s') | ok info ↦ (ok (model, info), s') ])
    ]
