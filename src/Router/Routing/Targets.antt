-- ===== src/Router/Routing/Targets.antt =====
-- services/router-service/src/services/routing.py: no target has a URL that the check refuses, and
-- what an affinity leaves out.
use mathlib.Core.Path.{subst}
use eucal_ai_backend.Prelude.{
  ℕ, ◌≡◌, refl, ◌⊎◌, inl, inr, ap, String, some, List, [], arith, Bool-cases, Option-cases,
  is_nonempty,
}
use eucal_ai_backend.Prelude.Int.{ℤ, pos}
use eucal_ai_backend.Prelude.Keyed.{Table, find, get_or, nat_eq, string_eq}
use eucal_ai_backend.Router.Channels.{
  Channel, ChannelSelector, Choice, chosen, no_channels, rate_limited, index_error, select,
}
use eucal_ai_backend.Router.Upstream.{Checked, passed, value_error}
use eucal_ai_backend.Router.Routing.{
  Env, TargetInfo, ok, Provider, Config, normalize_api_base, check_url, if_passed,
  normalized_prices, channel_info, provider_info, affinity_info, channel_target, provider_target,
  resolve_model_channel_target, resolve_model_provider_target, get_rate_limited_accounts,
  resolve_target, affinity_target, pinned, resolve_target_with_affinity,
}

-- the target is for the model, and its URL passes the check
pub record IsChecked (env : Env) (model : String) (target : TargetInfo) : Type 0 where
  pub for_model : target.logical_model ≡ model
  pub url_passes : check_url env target.api_base ≡ passed

pub if_passed-ok :
    (c : Checked) (t target : TargetInfo) → if_passed c t ≡ ok target → (c ≡ passed) × (t ≡ target)
if_passed-ok passed t target h = (refl, cc)
if_passed-ok value_error t target h = cc

pub Choice-cases :
    (choice : Choice)
    → ((ch : Channel) × (choice ≡ chosen ch))
      ⊎ ((choice ≡ no_channels) ⊎ (choice ≡ rate_limited) ⊎ (choice ≡ index_error))
Choice-cases (chosen ch) = inl (ch, refl)
Choice-cases no_channels = inr (inl refl)
Choice-cases rate_limited = inr (inr (inl refl))
Choice-cases index_error = inr (inr (inr refl))

module _ (env : Env) (model : String) (target : TargetInfo) where
  if_passed-IsChecked :
      (t : TargetInfo)
      → t.logical_model ≡ model
      → if_passed (check_url env t.api_base) t ≡ ok target
      → IsChecked env model target
  if_passed-IsChecked t e h =
      let (pass, same) = if_passed-ok (check_url env t.api_base) t target h in
      subst (λ (u : TargetInfo). IsChecked env model u) same
        (record { for_model = e; url_passes = pass })

  channel_target-IsChecked :
      (ch : Channel) → channel_target env model ch ≡ ok target → IsChecked env model target
  unfolding channel_target
  channel_target-IsChecked ch h =
      if_passed-IsChecked (channel_info env model ch) refl (ground arith)

  affinity_target-IsChecked :
      (ch : Channel) → affinity_target env model ch ≡ ok target → IsChecked env model target
  unfolding affinity_target
  affinity_target-IsChecked ch h = if_passed-IsChecked (affinity_info env model ch) refl h

  resolve_model_channel_target-IsChecked :
      (now : ℕ) (model_channels : Table String (List Channel)) (excluded : List String)
      (retry_tier : ℕ) (limited : List ℕ) (s : ChannelSelector)
      → (resolve_model_channel_target env model now model_channels excluded retry_tier limited s).0
        ≡ ok target
      → IsChecked env model target
  unfolding resolve_model_channel_target
  resolve_model_channel_target-IsChecked now model_channels excluded retry_tier limited s h =
      let choice =
        (select now model (get_or model [] model_channels) excluded retry_tier limited s).0 in
      elim (Choice-cases choice) [
        | inl (ch, picked) ↦ channel_target-IsChecked ch (ground arith)
        | inr none_there ↦ ground arith
      ]

  provider_target-IsChecked :
      (config : Provider)
      → provider_target env model config ≡ ok target
      → IsChecked env model target
  unfolding provider_target
  provider_target-IsChecked config h =
      if_passed-IsChecked (provider_info env model config) refl (ground arith)

  resolve_model_provider_target-IsChecked :
      (model_providers : Table String Provider)
      → resolve_model_provider_target env model model_providers ≡ ok target
      → IsChecked env model target
  unfolding resolve_model_provider_target
  resolve_model_provider_target-IsChecked model_providers h =
      elim (Option-cases (find model model_providers)) [
        | inl missing ↦ ground arith
        | inr (config, there) ↦ provider_target-IsChecked config (ground arith)
      ]

  pub resolve_target-IsChecked :
      (now : ℕ) (config : Config) (excluded : List String) (retry_tier : ℕ) (s : ChannelSelector)
      → (resolve_target env model now config excluded retry_tier s).0 ≡ ok target
      → IsChecked env model target
  unfolding resolve_target
  resolve_target-IsChecked now config excluded retry_tier s h =
      elim (Option-cases (config.model_channels)) [
        | inl missing ↦
            resolve_model_provider_target-IsChecked config.model_providers (ground arith)
        | inr (model_channels, there) ↦ elim (Bool-cases (is_nonempty model_channels)) [
          | inl some_are ↦
              resolve_model_channel_target-IsChecked now model_channels excluded retry_tier
                (get_rate_limited_accounts env model config) s (ground arith)
          | inr none_are ↦
              resolve_model_provider_target-IsChecked config.model_providers (ground arith)
        ]
      ]

  pub resolve_target_with_affinity-IsChecked :
      (now : ℕ) (config : Config) (cached : String) (s : ChannelSelector)
      → (resolve_target_with_affinity env model now config cached s).0 ≡ ok target
      → IsChecked env model target
  unfolding resolve_target_with_affinity
  resolve_target_with_affinity-IsChecked now config cached s h =
      elim (Option-cases (pinned env model now config cached s)) [
        | inl free ↦ resolve_target-IsChecked now config [] 0 s (ground arith)
        | inr (ch, bound) ↦ affinity_target-IsChecked ch (ground arith)
      ]

-- An affinity that holds loses the prices of its channel: the target has the price 0 three times,
-- where the selection of the same channel gives the prices that the normalized configuration has.
pub affinity_prices :
    (env : Env) (model : String) (now : ℕ) (config : Config) (cached : String) (s : ChannelSelector)
    (ch : Channel) (input output cached_input : ℤ)
    → pinned env model now config cached s ≡ some ch
    → ch.prices ≡ normalized_prices input output cached_input
    → check_url env (normalize_api_base ch.api_base) ≡ passed
    → (target : TargetInfo) × (resolve_target_with_affinity env model now config cached s
        ≡ (ok target, s))
      × (target.input_price ≡ pos 0)
      × (target.output_price ≡ pos 0)
      × (target.cached_input_price ≡ pos 0)
      × ((channel_info env model ch).input_price ≡ input)
      × ((channel_info env model ch).output_price ≡ output)
      × ((channel_info env model ch).cached_input_price ≡ cached_input)
unfolding resolve_target_with_affinity affinity_target find
affinity_prices env model now config cached s ch input output cached_input bound prices pass =
    let found = λ (key : String). ap (λ (t : Table String ℤ). get_or key (pos 0) t) prices in
    (
      affinity_info env model ch,
      ground arith,
      found "cost_input_per_million",
      found "cost_output_per_million",
      found "cost_cached_input_per_million",
      found "input_price_per_million",
      found "output_price_per_million",
      found "cached_input_price_per_million",
    )
