-- ===== src/Router/Routing/Tests.antt =====
-- The routing's theorems at a configuration with one model, behind the alias "auto".
use eucal_ai_backend.Prelude.{
  ◌≡◌, ◌≢◌, refl, String, true, false, none, some, [], ◌∷◌, arith, filter,
}
use eucal_ai_backend.Prelude.Int.{pos}
use eucal_ai_backend.Prelude.Keyed.{find, mem, string_eq, nat_eq}
use eucal_ai_backend.Prelude.Text.{strip, before_suffix}
use eucal_ai_backend.Router.Channels.{
  Channel, ChannelSelector, is_channel_available, is_healthy, is_excluded, is_limited, candidates,
  weight_of, is_before, insert, sort, insert_priority, unique_priorities, tier, total_weight, scan,
  pick, rotate, select,
}
use eucal_ai_backend.Router.Upstream.{validate_upstream_url}
use eucal_ai_backend.Router.Routing.{
  Env, TargetInfo, ok, Config, classified, failed, available_models, tier3_model, select_model,
  normalize_api_base, normalized_prices, channel_info, channel_target, resolve_model_channel_target,
  limited_accounts, get_rate_limited_accounts, resolve_target, find_channel, affinity_info, pinned,
  resolve_target_with_affinity, route_and_resolve,
}
use eucal_ai_backend.Router.Routing.Decisions.{IsRouted, route-IsRouted, route_degrades}
use eucal_ai_backend.Router.Routing.Targets.{affinity_prices}

abbrev pub channel : Channel
channel = record {
  channel_slug = "a";
  priority = none;
  weight = none;
  pool_account_id = some 1;
  provider_slug = "openai";
  api_key = " key ";
  api_base = "https://api.example.com/v1/models/";
  upstream_model = "m";
  prices = normalized_prices (pos 3) (pos 5) (pos 1);
  rpm_limit = some (pos 60);
}

abbrev pub fresh : ChannelSelector
fresh = record {
  cooldown = 30;
  auto_disable_enabled = true;
  auto_disable_threshold = 2;
  auto_disable_cooldown = 300;
  counters = [];
  failures = [];
  failure_counts = [];
  disabled_until = [];
  health_cache = [];
}

-- every URL is that of one host, and no account is limited
abbrev pub env : Env
env = record {
  urlparse = λ url. ("https", "api.example.com");
  int = λ part. none;
  account_available = some (λ account limit. true);
}

abbrev pub config : Config
config = record {
  router_alias = "auto";
  user_facing_aliases = [];
  tier_model_map = (3, "m") ∷ [];
  model_providers = [];
  model_channels = some (("m", channel ∷ record channel { channel_slug = "b" } ∷ []) ∷ []);
  priced_models = "m" ∷ [];
}

route-IsRouted_example :
    IsRouted env config "auto" (classified "m") "m" (channel_info env "m" channel)
unfolding route_and_resolve select_model mem resolve_target_with_affinity pinned resolve_target
    resolve_model_channel_target channel_target select candidates is_channel_available is_healthy
    is_excluded is_limited find sort insert is_before tier unique_priorities insert_priority filter
    total_weight weight_of rotate pick scan get_rate_limited_accounts limited_accounts
    normalize_api_base validate_upstream_url strip before_suffix
route-IsRouted_example =
    route-IsRouted env 5 config "auto" (classified "m") "" fresh "m" (channel_info env "m" channel)
      refl

abbrev pinned_target : TargetInfo
pinned_target = affinity_info env "m" channel

not_timeout : (code : String) → string_eq.beq "timeout" code ≡ false → some "timeout" ≢ some code
not_timeout code h = λ e. ground (arith, string_eq.beq_iff "timeout" code)

route_degrades_example :
    route_and_resolve env 5 config "auto" (failed (some "timeout")) "a" fresh
    ≡ route_and_resolve env 5 config "auto" (classified "m") "a" fresh
unfolding tier3_model find available_models mem
route_degrades_example =
    route_degrades env 5 config "auto" (some "timeout") "a" fresh "m" (not_timeout "auth" refl)
      (not_timeout "validation" refl) refl

affinity_prices_example :
    (target : TargetInfo) × (resolve_target_with_affinity env "m" 5 config "a" fresh
      ≡ (ok target, fresh))
    × (target.input_price ≡ pos 0)
    × (target.output_price ≡ pos 0)
    × (target.cached_input_price ≡ pos 0)
    × ((channel_info env "m" channel).input_price ≡ pos 3)
    × ((channel_info env "m" channel).output_price ≡ pos 5)
    × ((channel_info env "m" channel).cached_input_price ≡ pos 1)
unfolding pinned find_channel is_channel_available normalize_api_base validate_upstream_url mem find
affinity_prices_example =
    affinity_prices env "m" 5 config "a" fresh channel (pos 3) (pos 5) (pos 1) refl refl refl
