-- ===== src/Router/Calls/Tests.antt =====
-- The calls' theorems at a model with two channels, whose first answer is a 503.
use eucal_ai_backend.Prelude.{
  ℕ, zero, suc, ◌+◌, ◌≤◌, ◌≢◌, refl, inl, inr, String, some, List, [], ◌∷◌, arith, All, filter,
  length, Bool-cases,
}
use eucal_ai_backend.Prelude.Keyed.{find, mem, string_eq}
use eucal_ai_backend.Prelude.Text.{strip, before_suffix}
use eucal_ai_backend.Router.Channels.{
  is_channel_available, is_healthy, is_excluded, is_limited, candidates, weight_of, is_before,
  insert, sort, insert_priority, unique_priorities, tier, total_weight, scan, pick, rotate, select,
}
use eucal_ai_backend.Router.Upstream.{validate_upstream_url}
use eucal_ai_backend.Router.Routing.{
  TargetInfo, classified, select_model, normalize_api_base, channel_info, channel_target,
  resolve_model_channel_target, limited_accounts, get_rate_limited_accounts, resolve_target, pinned,
  resolve_target_with_affinity, route_and_resolve,
}
use eucal_ai_backend.Router.Routing.Targets.{IsChecked}
use eucal_ai_backend.Router.Routing.Tests.{env, config, channel, fresh}
use eucal_ai_backend.Router.Calls.{
  Dispatched, Attempt, response, raised, runtime_error, upstream_call_with_retry,
}
use eucal_ai_backend.Router.Calls.Trace.{upstream_call_ends, route_call-IsChecked}
use eucal_ai_backend.Router.Calls.Distinct.{Spare, Untried, upstream_call-Untried}

abbrev outcome : ℕ → Dispatched
outcome zero = raised (some 503)
outcome (suc n) = response

abbrev outcomes : ℕ → Attempt
outcomes n = record {
  result = outcome n;
  first = 6 + n;
  second = 7 + n;
  now = 8 + n;
  config = config;
}

abbrev target : TargetInfo
target = channel_info env "m" channel

upstream_call_ends_example :
    let (targets, result) = (upstream_call_with_retry env "m" target 1 outcomes fresh).0 in
    (result ≢ runtime_error) × (length targets ≤ 2)
upstream_call_ends_example = upstream_call_ends env "m" target 1 outcomes fresh

route_call-IsChecked_example :
    let s' = (route_and_resolve env 5 config "auto" (classified "m") "" fresh).1 in
    All (IsChecked env "m") (upstream_call_with_retry env "m" target 1 outcomes s').0.0
unfolding route_and_resolve select_model mem resolve_target_with_affinity pinned resolve_target
    resolve_model_channel_target channel_target select candidates is_channel_available is_healthy
    is_excluded is_limited find sort insert is_before tier unique_priorities insert_priority filter
    total_weight weight_of rotate pick scan get_rate_limited_accounts limited_accounts
    normalize_api_base validate_upstream_url strip before_suffix
route_call-IsChecked_example =
    route_call-IsChecked env 5 config "auto" (classified "m") "" fresh "m" target 1 outcomes refl

-- besides any one channel, there is another
spare :
    (attempt : ℕ) (tried : List String)
    → length tried ≤ 1
    → Spare env "m" ((outcomes attempt).config) tried
unfolding is_excluded mem find
spare attempt [] few = (channel, inl refl, refl)
spare attempt (slug ∷ []) few = elim (Bool-cases (string_eq.beq slug "a")) [
  | inl same ↦ (
    record channel { channel_slug = "b" },
    inr (inl refl),
    (rw ((string_eq.beq_iff slug "a").0 same) refl),
  )
  | inr other ↦ (channel, inl refl, ground arith)
]
spare attempt (slug ∷ slug' ∷ tried) few = absurd (omega arith)

upstream_call-Untried_example :
    Untried [] (upstream_call_with_retry env "m" target 1 outcomes fresh).0.0
upstream_call-Untried_example = upstream_call-Untried env "m" target 1 outcomes fresh spare
