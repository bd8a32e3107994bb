-- ===== src/Router/Tests.antt =====
-- The channel selector's theorems at three channels, of which one is cooling down.
use eucal_ai_backend.Prelude.{
  IsIn, ◌≡◌, refl, ◌≢◌, inl, inr, true, false, not, ◌&&◌, none, some, List, [], ◌∷◌, arith, filter,
}
use eucal_ai_backend.Prelude.Int.{pos}
use eucal_ai_backend.Prelude.Keyed.{find, put, mem, string_eq, nat_eq}
use eucal_ai_backend.Router.Channels.{
  Channel, ChannelSelector, chosen, is_channel_available, is_healthy, is_excluded, is_limited,
  is_candidate, candidates, weight_of, is_before, insert, sort, insert_priority, unique_priorities,
  tier, total_weight, scan, pick, rotate, select, report_failure,
}
use eucal_ai_backend.Router.Channels.Choices.{select-is_candidate, select-is_open}
use eucal_ai_backend.Router.Channels.Rotation.{selects, select-fair}

abbrev a : Channel
a = record {
  channel_slug = "a";
  priority = some (pos 1);
  weight = some (pos 2);
  pool_account_id = some 1;
  provider_slug = "openai";
  api_key = "key";
  api_base = "https://api.example.com";
  upstream_model = "m";
  prices = [];
  rpm_limit = none;
}

abbrev b : Channel
b = record a { channel_slug = "b"; weight = none; pool_account_id = none }

abbrev c : Channel
c = record a { channel_slug = "c"; priority = none; weight = none; pool_account_id = some 2 }

abbrev channels : List Channel
channels = c ∷ b ∷ a ∷ []

abbrev fresh : ChannelSelector
fresh = record {
  cooldown = 30;
  auto_disable_enabled = true;
  auto_disable_threshold = 2;
  auto_disable_cooldown = 300;
  counters = [];
  failures = [];
  failure_counts = [];
  disabled_until = [];
  health_cache = [];
}

abbrev failed : ChannelSelector
failed = report_failure 10 11 "b" fresh

select-fair_example : selects 5 "m" channels [] 0 [] 3 fresh ≡ chosen a ∷ chosen a ∷ chosen b ∷ []
unfolding candidates is_channel_available is_healthy is_excluded is_limited mem find sort insert
    is_before tier unique_priorities insert_priority filter total_weight weight_of
select-fair_example = select-fair 5 "m" channels [] 0 [] channels fresh refl refl refl

select-is_candidate_example :
    (ch : Channel) × ((select 20 "m" channels [] 0 [] failed).0 ≡ chosen ch)
    × IsIn ch channels
    × (is_candidate failed 20 "m" [] [] ch ≡ true)
unfolding select candidates is_channel_available is_healthy is_excluded is_limited mem find put sort
    insert is_before tier unique_priorities insert_priority filter total_weight weight_of rotate
    pick scan report_failure
select-is_candidate_example = select-is_candidate 20 "m" channels [] 0 [] failed c (inl refl) refl

select-is_open_example :
    (is_excluded ("a" ∷ []) b ≡ false)
    × (is_limited (2 ∷ []) b && not (is_limited (2 ∷ []) b) ≡ false)
unfolding select candidates is_channel_available is_healthy is_excluded is_limited mem find put sort
    insert is_before tier unique_priorities insert_priority filter total_weight weight_of rotate
    pick scan report_failure
select-is_open_example =
    select-is_open 20 "m" channels ("a" ∷ []) 0 (2 ∷ []) failed b b (inr (inl refl)) refl refl

different : b.channel_slug ≢ a.channel_slug
different = λ q. ground (arith, (string_eq.beq_iff "b" "a").1 q)
