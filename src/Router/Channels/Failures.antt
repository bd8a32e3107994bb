-- ===== src/Router/Channels/Failures.antt =====
-- The cooldown of a channel that fails, and its disabling after several failures in a row.
use eucal_ai_backend.Prelude.{
  ℕ, ◌+◌, ◌<◌, ◌≤◌, String, ◌≡◌, ◌≢◌, refl, inl, inr, true, false, List, [], ◌∷◌, arith, length,
  Bool-cases, leb, ◌&&◌,
}
use eucal_ai_backend.Prelude.Keyed.{
  get_or, string_eq, find-put_self, find-put_ne, find-pop_self, find-pop_ne,
}
use eucal_ai_backend.Router.Channels.{
  ChannelSelector, is_channel_available, report_failure, report_success,
}

-- failures that are reported one after the other, each with its two readings of the clock
unfoldable pub report_failures : List (ℕ × ℕ) → String → ChannelSelector → ChannelSelector
report_failures [] slug s = s
report_failures ((first, second) ∷ times) slug s =
    report_failures times slug (report_failure first second slug s)

abbrev count_of : String → ChannelSelector → ℕ
count_of slug s = get_or slug 0 s.failure_counts

failure-facts :
    (first second : ℕ) (slug : String) (s : ChannelSelector)
    → let s' = report_failure first second slug s in
      (get_or slug 0 s'.failures ≡ first + s.cooldown)
      × (count_of slug s' ≡ count_of slug s + 1)
      × (s.auto_disable_enabled && leb s.auto_disable_threshold (count_of slug s + 1) ≡ true
          → get_or slug 0 s'.disabled_until ≡ second + s.auto_disable_cooldown)
      × (s'.auto_disable_enabled ≡ s.auto_disable_enabled)
      × (s'.auto_disable_threshold ≡ s.auto_disable_threshold)
      × (s'.auto_disable_cooldown ≡ s.auto_disable_cooldown)
unfolding report_failure
failure-facts first second slug s =
    let count = count_of slug s + 1 in
    let found-failure = find-put_self slug (first + s.cooldown) s.failures in
    let found-count = find-put_self slug count s.failure_counts in
    let found-disabled = find-put_self slug (second + s.auto_disable_cooldown) s.disabled_until in
    elim (Bool-cases (s.auto_disable_enabled && leb s.auto_disable_threshold count)) [
      | inl over ↦
          (ground arith, ground arith, λ h. ground arith, ground arith, ground arith, ground arith)
      | inr under ↦
          (ground arith, ground arith, λ h. ground arith, ground arith, ground arith, ground arith)
    ]

-- A failure puts its channel out of use until the cooldown has passed, and no other channel.
pub report_failure-cooldown :
    (first second : ℕ) (slug other : String) (s : ChannelSelector) (now : ℕ)
    → now ≤ first + s.cooldown
    → slug ≢ other
    → let s' = report_failure first second slug s in
      (is_channel_available s' now slug ≡ false)
      × (is_channel_available s' now other ≡ is_channel_available s now other)
unfolding is_channel_available report_failure
report_failure-cooldown first second slug other s now early differ =
    let until = first + s.cooldown in
    let disabled = second + s.auto_disable_cooldown in
    (
      ground (arith, find-put_self slug until s.failures),
      ground (
        arith,
        find-put_ne slug other until s.failures differ,
        find-put_ne slug other disabled s.disabled_until differ,
      ),
    )

-- A success puts its channel back into use at once, whatever has failed before, and leaves the
-- others as they are. (The clock has started: it reads more than 0.)
pub report_success-available :
    (slug other : String) (s : ChannelSelector) (now : ℕ)
    → 0 < now
    → slug ≢ other
    → let s' = report_success slug s in
      (is_channel_available s' now slug ≡ true)
      × (is_channel_available s' now other ≡ is_channel_available s now other)
unfolding is_channel_available report_success
report_success-available slug other s now started differ = (
  ground (arith, find-pop_self slug s.failures, find-pop_self slug s.disabled_until),
  ground (
    arith,
    find-pop_ne slug other s.failures differ,
    find-pop_ne slug other s.disabled_until differ,
  ),
)

failures-facts :
    (times : List (ℕ × ℕ)) (slug : String) (s : ChannelSelector)
    → let s' = report_failures times slug s in
      (count_of slug s' ≡ count_of slug s + length times)
      × (s'.auto_disable_enabled ≡ s.auto_disable_enabled)
      × (s'.auto_disable_threshold ≡ s.auto_disable_threshold)
      × (s'.auto_disable_cooldown ≡ s.auto_disable_cooldown)
unfolding report_failures
failures-facts [] slug s = (ground arith, refl, refl, refl)
failures-facts ((first, second) ∷ times) slug s = ground (
  arith,
  failure-facts first second slug s,
  failures-facts times slug (report_failure first second slug s),
)

-- With automatic disabling, a channel that has failed as often in a row as the threshold says is
-- out of use until the longer cooldown has passed since the last failure, whatever was reported
-- before.
pub report_failures-disabled :
    (earlier : List (ℕ × ℕ)) (first second : ℕ) (slug : String) (s : ChannelSelector) (now : ℕ)
    → s.auto_disable_enabled ≡ true
    → s.auto_disable_threshold ≤ length earlier + 1
    → now ≤ second + s.auto_disable_cooldown
    → is_channel_available
        (report_failure first second slug (report_failures earlier slug s))
        now
        slug
      ≡ false
unfolding is_channel_available
report_failures-disabled earlier first second slug s now enabled enough early = ground (
  arith,
  failures-facts earlier slug s,
  failure-facts first second slug (report_failures earlier slug s),
)
