-- ===== src/Router/Channels.antt =====
-- services/router-service/src/services/channel_selector.py
-- The clock is `time.monotonic()`, as a number that each operation is given. `select` sorts a
-- copy here: the code sorts the caller's own list when every channel is excluded.
pub mod Candidates
pub mod Choices
pub mod Tiers
pub mod Rotation
pub mod Failures
use Prim.Native.String.{◌++◌ as str_append, compare}
use text.Mathlib.Text.{is_lt}
use eucal_ai_backend.Prelude.{
  ℕ, zero, suc, ◌+◌, ◌-◌, ◌%◌, String, Bool, true, false, not, ◌&&◌, ◌||◌, Option, none, some, List,
  [], ◌∷◌, ltb, leb, if◌then◌else◌, length, filter, is_nonempty, nth, last,
}
use eucal_ai_backend.Prelude.Int.{ℤ, pos, negsuc, ltb_ℤ, leb_ℤ}
use eucal_ai_backend.Prelude.Keyed.{Table, find, put, get_or, pop, mem, nat_eq, string_eq}

-- what the router reads of a channel's dictionary; `none` is a missing key, or `None`
pub record Channel : Type 0 where
  pub channel_slug : String
  pub priority : Option ℤ
  pub weight : Option ℤ
  pub pool_account_id : Option ℕ
  pub provider_slug : String
  pub api_key : String
  pub api_base : String
  pub upstream_model : String
  -- the keys of the dictionary that hold a price
  pub prices : Table String ℤ
  pub rpm_limit : Option ℤ

pub record ChannelSelector : Type 0 where
  pub cooldown : ℕ
  pub auto_disable_enabled : Bool
  pub auto_disable_threshold : ℕ
  pub auto_disable_cooldown : ℕ
  pub counters : Table String ℕ
  pub failures : Table String ℕ
  pub failure_counts : Table String ℕ
  pub disabled_until : Table String ℕ
  pub health_cache : Table String String

pub data Choice : Type 0 where
  chosen : Channel → Choice
  -- the `KeyError` of a model without channels
  no_channels : Choice
  -- `ChannelRateLimited`
  rate_limited : Choice
  -- the `IndexError` of an empty list
  index_error : Choice

module _ (s : ChannelSelector) (now : ℕ) where
  -- the tests of `is_channel_available`
  unfoldable pub is_channel_available : String → Bool
  is_channel_available slug =
      ltb (get_or slug 0 s.disabled_until) now && ltb (get_or slug 0 s.failures) now

  is_unhealthy : Option String → Bool
  is_unhealthy none = false
  is_unhealthy (some health) = string_eq.beq health "unhealthy"

  unfoldable pub is_healthy : String → Channel → Bool
  unfolding is_unhealthy
  is_healthy model_slug ch =
      not (
        is_unhealthy (find (str_append ch.channel_slug (str_append ":" model_slug)) s.health_cache))

unfoldable pub is_excluded : List String → Channel → Bool
is_excluded excluded ch = mem ch.channel_slug excluded

is_some_in : Option ℕ → List ℕ → Bool
is_some_in none accounts = false
is_some_in (some account) accounts = mem account accounts

unfoldable pub is_limited : List ℕ → Channel → Bool
unfolding is_some_in
is_limited rl_accounts ch = is_some_in ch.pool_account_id rl_accounts

-- the tests of the first list that `select` builds
abbrev pub is_candidate :
    ChannelSelector → (now : ℕ) → (model_slug : String) → List String → List ℕ → Channel → Bool
is_candidate s now model_slug excluded rl_accounts ch =
    not (is_excluded excluded ch)
    && is_channel_available s now ch.channel_slug
    && is_healthy s now model_slug ch
    && not (is_limited rl_accounts ch)

-- `available` before it is sorted, or `none` for `ChannelRateLimited`
unfoldable pub candidates :
    ChannelSelector
    → (now : ℕ) → (model_slug : String) → List Channel
    → List String
    → List ℕ
    → Option (List Channel)
candidates s now model_slug channels excluded rl_accounts =
    let available = filter (is_candidate s now model_slug excluded rl_accounts) channels in
    let non_rl =
      filter (λ ch. not (is_excluded excluded ch) && not (is_limited rl_accounts ch)) channels in
    let non_excluded = filter (λ ch. not (is_excluded excluded ch)) channels in
    if is_nonempty available
    then some available
    else if is_nonempty non_rl
    then some non_rl
    else if is_nonempty non_excluded && is_nonempty rl_accounts
    then none
    else some (if is_nonempty non_excluded then non_excluded else channels)

abbrev pub priority_of : Channel → ℤ
priority_of ch = elim (ch.priority) [ none ↦ pos 0 | some p ↦ p ]

-- `max(c.get("weight", 1), 1)`
unfoldable pub weight_of : Channel → ℕ
weight_of ch = elim (ch.weight) [
  | none ↦ 1
  | some (pos n) ↦ (if ltb n 1 then 1 else n)
  | some (negsuc n) ↦ 1
]

-- the order of the key `(-priority, channel_slug)`
unfoldable pub is_before : Channel → Channel → Bool
is_before a b =
    ltb_ℤ (priority_of b) (priority_of a)
    || (leb_ℤ (priority_of b) (priority_of a)
        && leb_ℤ (priority_of a) (priority_of b)
        && is_lt (compare a.channel_slug b.channel_slug))

-- a stable sort: an element goes before those that are not before it
unfoldable pub insert : Channel → List Channel → List Channel
insert ch [] = ch ∷ []
insert ch (c ∷ cs) = if is_before c ch then c ∷ insert ch cs else ch ∷ c ∷ cs

unfoldable pub sort : List Channel → List Channel
sort [] = []
sort (ch ∷ chs) = insert ch (sort chs)

-- `sorted({...}, reverse=True)`
unfoldable pub insert_priority : ℤ → List ℤ → List ℤ
insert_priority p [] = p ∷ []
insert_priority p (q ∷ qs) =
    if ltb_ℤ q p then p ∷ q ∷ qs else if ltb_ℤ p q then q ∷ insert_priority p qs else q ∷ qs

unfoldable pub unique_priorities : List Channel → List ℤ
unique_priorities [] = []
unique_priorities (ch ∷ chs) = insert_priority (priority_of ch) (unique_priorities chs)

abbrev pub has_priority : ℤ → Channel → Bool
has_priority p ch = leb_ℤ p (priority_of ch) && leb_ℤ (priority_of ch) p

-- the priority tier that `retry_tier` asks for, or the last one
unfoldable pub tier : ℕ → List Channel → List Channel
tier retry_tier available =
    let priorities = unique_priorities available in
    let last_idx = length priorities - 1 in
    let tier_idx = if ltb retry_tier last_idx then retry_tier else last_idx in
    elim (nth priorities tier_idx) [
      | none ↦ available
      | some target_priority ↦
          let tier_channels = filter (has_priority target_priority) available in
          if is_nonempty tier_channels then tier_channels else available
    ]

unfoldable pub total_weight : List Channel → ℕ
total_weight [] = 0
total_weight (ch ∷ chs) = weight_of ch + total_weight chs

-- the loop over the cumulative weights
unfoldable pub scan : (idx cumulative : ℕ) → List Channel → Option Channel
scan idx cumulative [] = none
scan idx cumulative (ch ∷ chs) =
    let rest = scan idx (cumulative + weight_of ch) chs in
    if ltb idx (cumulative + weight_of ch) then some ch else rest

unfoldable pub pick : (idx : ℕ) → List Channel → Choice
pick idx available = elim (scan idx 0 available) [
  | some ch ↦ chosen ch
  | none ↦ elim (last available) [ some ch ↦ chosen ch | none ↦ index_error ]
]

-- the weighted round robin over a tier
unfoldable pub rotate : String → List Channel → ChannelSelector → Choice × ChannelSelector
rotate model_slug available s =
    let counter = get_or model_slug 0 s.counters in
    (
      pick (counter % total_weight available) available,
      record s { counters = put model_slug (counter + 1) s.counters },
    )

unfoldable pub select :
    (now : ℕ)
    → String
    → List Channel
    → List String
    → (retry_tier : ℕ) → List ℕ
    → ChannelSelector
    → Choice × ChannelSelector
select now model_slug channels excluded retry_tier rl_accounts s =
    if is_nonempty channels
    then elim (candidates s now model_slug channels excluded rl_accounts) [
      | none ↦ (rate_limited, s)
      | some available ↦ rotate model_slug (tier retry_tier (sort available)) s
    ]
    else (no_channels, s)

-- `first` and `second` are the two readings of the clock.
unfoldable pub report_failure : (first second : ℕ) → String → ChannelSelector → ChannelSelector
report_failure first second channel_slug s =
    let count = get_or channel_slug 0 s.failure_counts + 1 in
    let s' = record s {
      failures = put channel_slug (first + s.cooldown) s.failures;
      failure_counts = put channel_slug count s.failure_counts;
    } in
    if s.auto_disable_enabled && leb s.auto_disable_threshold count
    then record s' {
      disabled_until = put channel_slug (second + s.auto_disable_cooldown) s.disabled_until;
    }
    else s'

unfoldable pub report_success : String → ChannelSelector → ChannelSelector
report_success channel_slug s = record s {
  failures = pop channel_slug s.failures;
  failure_counts = pop channel_slug s.failure_counts;
  disabled_until = pop channel_slug s.disabled_until;
}

unfoldable pub update_health_cache : Table String String → ChannelSelector → ChannelSelector
update_health_cache health_data s = record s { health_cache = health_data }
