-- ===== src/Router/Calls/Distinct.antt =====
-- services/router-service/src/services/upstream_caller.py: the channels that a call is retried on.
use mathlib.Core.Path.{subst}
use eucal_ai_backend.Prelude.{
  ℕ, zero, suc, ◌+◌, ◌≤◌, ◌≡◌, ap, sym, inl, inr, String, Bool, false, Option, none, some, List, [],
  ◌∷◌, arith, Bool-cases, Option-cases, length, IsIn, is_nonempty,
}
use eucal_ai_backend.Prelude.Keyed.{Table, find, get_or, mem, string_eq}
use eucal_ai_backend.Prelude.Text.{is_empty}
use eucal_ai_backend.Router.Channels.{Channel, ChannelSelector, is_excluded, select}
use eucal_ai_backend.Router.Channels.Choices.{select-is_open}
use eucal_ai_backend.Router.Routing.{
  Env, TargetInfo, ok, Provider, Config, channel_info, provider_info, check_url, channels_of,
  channel_target, provider_target, get_rate_limited_accounts, resolve_model_channel_target,
  resolve_model_provider_target, resolve_target,
}
use eucal_ai_backend.Router.Routing.Targets.{Choice-cases, if_passed-ok}
use eucal_ai_backend.Router.Calls.{
  Attempt, used_slug, add_slug, failure_reported, call_loop, upstream_call_with_retry,
}
use eucal_ai_backend.Router.Calls.Trace.{next_target, call_loop-cases}

-- the target is a channel that has been tried
abbrev pub is_tried : List String → TargetInfo → Bool
is_tried tried target = elim (used_slug target) [ none ↦ false | some slug ↦ mem slug tried ]

-- the slugs that are tried after the target
abbrev pub tried_with : TargetInfo → List String → List String
tried_with target tried = elim (used_slug target) [ none ↦ tried | some slug ↦ slug ∷ tried ]

-- no target is a channel that has been tried, or that comes earlier in the list
abbrev pub Untried : (tried : List String) → List TargetInfo → Type 0
Untried tried [] = Unit
Untried tried (target ∷ targets) =
    (is_tried tried target ≡ false) × Untried (tried_with target tried) targets

-- a channel of the model that is not excluded
abbrev pub Spare : Env → (model : String) → Config → (excluded : List String) → Type 0
Spare env model config excluded =
    (ch : Channel) × IsIn ch (channels_of env model config) × (is_excluded excluded ch ≡ false)

is_tried-none :
    (tried : List String) (t : TargetInfo) → t.channel_slug ≡ none → is_tried tried t ≡ false
is_tried-none tried t e = ground arith

is_tried-channel :
    (tried : List String) (ch : Channel) (t : TargetInfo)
    → t.channel_slug ≡ some ch.channel_slug
    → is_excluded tried ch ≡ false
    → is_tried tried t ≡ false
unfolding is_excluded
is_tried-channel tried ch t e untried_d = elim (Bool-cases (is_empty ch.channel_slug)) [
  | inl unnamed ↦ ground arith
  | inr named ↦ ground arith
]

module _ (env : Env) (model : String) (target : TargetInfo) where
  channel_target-slug :
      (ch : Channel)
      → channel_target env model ch ≡ ok target
      → target.channel_slug ≡ some ch.channel_slug
  unfolding channel_target
  channel_target-slug ch h =
      let info = channel_info env model ch in
      let (pass, same) = if_passed-ok (check_url env info.api_base) info target (ground arith) in
      ap (λ t. t.channel_slug) (sym same)

  provider_target-slug :
      (config : Provider)
      → provider_target env model config ≡ ok target
      → target.channel_slug ≡ none
  unfolding provider_target
  provider_target-slug config h =
      let info = provider_info env model config in
      let (pass, same) = if_passed-ok (check_url env info.api_base) info target (ground arith) in
      ap (λ t. t.channel_slug) (sym same)

  resolve_model_provider_target-slug :
      (model_providers : Table String Provider)
      → resolve_model_provider_target env model model_providers ≡ ok target
      → target.channel_slug ≡ none
  unfolding resolve_model_provider_target
  resolve_model_provider_target-slug model_providers h =
      elim (Option-cases (find model model_providers)) [
        | inl missing ↦ ground arith
        | inr (config, there) ↦ provider_target-slug config (ground arith)
      ]

  module _ (now : ℕ) (excluded : List String) (retry_tier : ℕ) (s : ChannelSelector) where
    resolve_model_channel_target-is_tried :
        (model_channels : Table String (List Channel)) (limited : List ℕ) (d : Channel)
        → IsIn d (get_or model [] model_channels)
        → is_excluded excluded d ≡ false
        → (resolve_model_channel_target env model now model_channels excluded retry_tier limited
            s).0
          ≡ ok target
        → is_tried excluded target ≡ false
    unfolding resolve_model_channel_target
    resolve_model_channel_target-is_tried model_channels limited d there untried_d h =
        let channels = get_or model [] model_channels in
        let choice = (select now model channels excluded retry_tier limited s).0 in
        elim (Choice-cases choice) [
          | inl (ch, picked) ↦
              let (fresh, unlimited) =
                select-is_open now model channels excluded retry_tier limited s d ch there untried_d
                  picked in
              is_tried-channel excluded ch target (channel_target-slug ch (ground arith)) fresh
          | inr none_there ↦ ground arith
        ]

    resolve_model_provider_target-is_tried :
        (model_providers : Table String Provider)
        → resolve_model_provider_target env model model_providers ≡ ok target
        → is_tried excluded target ≡ false
    resolve_model_provider_target-is_tried model_providers h =
        is_tried-none excluded target (resolve_model_provider_target-slug model_providers h)

    channels_of-some :
        (config : Config) (model_channels : Table String (List Channel))
        → config.model_channels ≡ some model_channels
        → channels_of env model config ≡ get_or model [] model_channels
    channels_of-some config model_channels e = ground arith

    resolve_target-is_tried :
        (config : Config)
        → Spare env model config excluded
        → (resolve_target env model now config excluded retry_tier s).0 ≡ ok target
        → is_tried excluded target ≡ false
    unfolding resolve_target
    resolve_target-is_tried config (d, there, untried_d) h =
        elim (Option-cases (config.model_channels)) [
          | inl missing ↦
              resolve_model_provider_target-is_tried config.model_providers (ground arith)
          | inr (model_channels, e) ↦ elim (Bool-cases (is_nonempty model_channels)) [
            | inl some_are ↦
                resolve_model_channel_target-is_tried model_channels
                  (get_rate_limited_accounts env model config) d
                  (subst (IsIn d) (channels_of-some config model_channels e) there) untried_d
                  (ground arith)
            | inr none_are ↦
                resolve_model_provider_target-is_tried config.model_providers (ground arith)
          ]
        ]

length-add_slug :
    (slug : Option String) (tried : List String) → length (add_slug slug tried) ≤ length tried + 1
length-add_slug none tried = omega arith
length-add_slug (some slug) tried = omega arith

none_tried : (target : TargetInfo) → is_tried [] target ≡ false
unfolding mem
none_tried target = elim (Option-cases (used_slug target)) [
  | inl unnamed ↦ ground arith
  | inr (slug, e) ↦ ground arith
]

tried_with-add_slug :
    (target : TargetInfo) (tried : List String)
    → add_slug (used_slug target) tried ≡ tried_with target tried
tried_with-add_slug target tried = elim (Option-cases (used_slug target)) [
  | inl unnamed ↦ ground arith
  | inr (slug, e) ↦ ground arith
]

module _ (env : Env) (model : String) (max_retries : ℕ) (outcomes : ℕ → Attempt)
    (spare : (attempt : ℕ) (tried : List String)
      → length tried ≤ max_retries
      → Spare env model ((outcomes attempt).config) tried) where
  call_loop-Untried :
      (left attempt : ℕ) (target : TargetInfo) (tried : List String) (s : ChannelSelector)
      → length tried ≤ attempt
      → is_tried tried target ≡ false
      → Untried tried (call_loop env model max_retries outcomes left attempt target tried s).0.0
  unfolding call_loop
  call_loop-Untried zero attempt target tried s few fresh = tt
  call_loop-Untried (suc left) attempt target tried s few fresh =
      elim (call_loop-cases env model max_retries outcomes left attempt target tried s) [
        | inr last ↦ rw last.stops (fresh, tt)
        | inl more ↦
            let o = outcomes attempt in
            let slug = used_slug target in
            let tried' = add_slug slug tried in
            let few' : length tried' ≤ attempt + 1 = omega (arith, length-add_slug slug tried) in
            let few_enough : length tried' ≤ max_retries = omega (arith, more.retried) in
            let fresh' =
              resolve_target-is_tried env model more.target' o.now tried' (attempt + 1)
                (failure_reported o.first o.second slug s) o.config
                (spare attempt tried' few_enough) more.found in
            let s' = (next_target env model max_retries outcomes attempt target tried s).1 in
            let (later, result) =
              (call_loop env model max_retries outcomes left (attempt + 1) more.target' tried'
                s').0 in
            rw more.goes_on (
              fresh,
              subst (λ (seen : List String). Untried seen later) (tried_with-add_slug target tried)
                  (call_loop-Untried left (attempt + 1) more.target' tried' s' few' fresh'),
            )
      ]

-- Every retry of a call goes to a channel that the call has not tried before, as long as each
-- configuration that is loaded has, besides any `max_retries` channels, one more for the model.
pub upstream_call-Untried :
    (env : Env) (model : String) (target : TargetInfo) (max_retries : ℕ) (outcomes : ℕ → Attempt)
    (s : ChannelSelector)
    → ((attempt : ℕ) (tried : List String)
        → length tried ≤ max_retries
        → Spare env model ((outcomes attempt).config) tried)
    → Untried [] (upstream_call_with_retry env model target max_retries outcomes s).0.0
unfolding upstream_call_with_retry
upstream_call-Untried env model target max_retries outcomes s spare =
    call_loop-Untried env model max_retries outcomes spare (max_retries + 1) 0 target [] s
      (omega arith) (none_tried target)
