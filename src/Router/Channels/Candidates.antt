-- ===== src/Router/Channels/Candidates.antt =====
-- How a property of the channels passes through the steps of `select` to the one it returns.
use eucal_ai_backend.Prelude.{
  ℕ, ◌+◌, ◌%◌, String, ◌≡◌, ◌≢◌, refl, ◌⊎◌, inl, inr, true, not, ◌&&◌, Option, none, some, List, [],
  ◌∷◌, arith, length, All, All-filter, nonempty_of_filter, filter, is_nonempty, nth, last,
  Bool-cases, Option-cases, ltb, sym, ap, ◌∙◌, ◌-◌, if◌then◌else◌,
}
use eucal_ai_backend.Prelude.Int.{ℤ}
use mathlib.Core.Option.{some-injective}
use mathlib.Core.Path.{subst}
use eucal_ai_backend.Prelude.Keyed.{get_or, string_eq}
use eucal_ai_backend.Router.Channels.{
  Channel, ChannelSelector, Choice, chosen, weight_of, total_weight, scan, pick, rotate, select,
  candidates, tier, sort, insert, is_candidate, is_excluded, is_limited, unique_priorities,
  has_priority,
}

-- The tier is all of the list, or the channels of one priority.
tier-cases :
    (retry_tier : ℕ) (chs : List Channel)
    → (tier retry_tier chs ≡ chs)
      ⊎ ((p : ℤ) × (tier retry_tier chs ≡ filter (has_priority p) chs)
          × (is_nonempty (filter (has_priority p) chs) ≡ true))
unfolding tier
tier-cases retry_tier chs =
    let last_idx = length (unique_priorities chs) - 1 in
    let tier_idx = if ltb retry_tier last_idx then retry_tier else last_idx in
    elim (Option-cases (nth (unique_priorities chs) tier_idx)) [
      | inl empty ↦ inl (rw (empty, tier))
      | inr (p, target) ↦ elim (Bool-cases (is_nonempty (filter (has_priority p) chs))) [
        | inl some_left ↦ inr (p, ground (arith, target, some_left), some_left)
        | inr none_left ↦ inl (ground (arith, target, none_left))
      ]
    ]

module _ {κ} (P : Channel → Type κ) where
  All-insert : (ch : Channel) (chs : List Channel) → P ch → All P chs → All P (insert ch chs)
  unfolding insert
  All-insert ch [] h hs = (h, hs)
  All-insert ch (c ∷ cs) h (k, ks) = ground (arith, All-insert ch cs h ks)

  All-sort : (chs : List Channel) → All P chs → All P (sort chs)
  unfolding sort
  All-sort [] h = h
  All-sort (ch ∷ chs) (h, hs) = All-insert ch (sort chs) h (All-sort chs hs)

  pub All-tier : (retry_tier : ℕ) (chs : List Channel) → All P chs → All P (tier retry_tier chs)
  All-tier retry_tier chs h = elim (tier-cases retry_tier chs) [
    | inl whole ↦ subst (All P) (sym whole) h
    | inr (p, part, some_left) ↦ subst (All P) (sym part) (All-filter P (has_priority p) chs h)
  ]

  scan-All :
      (chs : List Channel) (idx cumulative : ℕ) (ch : Channel)
      → All P chs
      → scan idx cumulative chs ≡ some ch
      → P ch
  unfolding scan
  scan-All [] idx cumulative ch h e = ground arith
  scan-All (c ∷ cs) idx cumulative ch (h, hs) e =
      ground (arith, scan-All cs idx (cumulative + weight_of c) ch hs)

  last-All : (chs : List Channel) (ch : Channel) → All P chs → last chs ≡ some ch → P ch
  last-All [] ch h e = ground arith
  last-All (c ∷ []) ch h e = subst P (some-injective c ch e) h.0
  last-All (c ∷ d ∷ ds) ch (h, hs) e = last-All (d ∷ ds) ch hs e

  pick-All :
      (idx : ℕ) (chs : List Channel) (ch : Channel) → All P chs → pick idx chs ≡ chosen ch → P ch
  unfolding pick
  pick-All idx chs ch h e = elim (Option-cases (scan idx 0 chs)) [
    | inl missed ↦ last-All chs ch h (ground arith)
    | inr (c, hit) ↦ scan-All chs idx 0 ch h (ground arith)
  ]

-- There is something left at each step.
nonempty-insert : (ch : Channel) (chs : List Channel) → is_nonempty (insert ch chs) ≡ true
unfolding insert
nonempty-insert ch [] = refl
nonempty-insert ch (c ∷ cs) = ground arith

nonempty-sort : (chs : List Channel) → is_nonempty (sort chs) ≡ is_nonempty chs
unfolding sort
nonempty-sort [] = refl
nonempty-sort (ch ∷ chs) = nonempty-insert ch (sort chs)

nonempty-tier :
    (retry_tier : ℕ) (chs : List Channel) → is_nonempty (tier retry_tier chs) ≡ is_nonempty chs
nonempty-tier retry_tier chs = elim (tier-cases retry_tier chs) [
  | inl whole ↦ ap is_nonempty whole
  | inr (p, part, some_left) ↦
      ap is_nonempty part ∙ some_left ∙ sym (nonempty_of_filter (has_priority p) chs some_left)
]

last-some : (chs : List Channel) → is_nonempty chs ≡ true → last chs ≢ none
last-some [] h e = ground arith
last-some (ch ∷ []) h e = ground arith
last-some (c ∷ d ∷ ds) h e = last-some (d ∷ ds) refl e

pick-chosen :
    (idx : ℕ) (chs : List Channel)
    → is_nonempty chs ≡ true
    → (ch : Channel) × (pick idx chs ≡ chosen ch)
unfolding pick
pick-chosen idx chs h = elim (Option-cases (scan idx 0 chs)) [
  | inr (ch, hit) ↦ (ch, rw (hit, pick))
  | inl missed ↦ elim (Option-cases (last chs)) [
    | inl empty ↦ absurd (last-some chs h empty)
    | inr (ch, hit) ↦ (ch, ground arith)
  ]
]

module _ (now : ℕ) (model_slug : String) (channels : List Channel) (excluded : List String)
    (retry_tier : ℕ) (rl_accounts : List ℕ) (s : ChannelSelector) where
  abbrev choice : Choice
  choice = (select now model_slug channels excluded retry_tier rl_accounts s).0

  abbrev found : Option (List Channel)
  found = candidates s now model_slug channels excluded rl_accounts

  -- What holds of all of the tier holds of the choice.
  pub tier-choice :
      (P : Channel → Type 0) (available : List Channel)
      → found ≡ some available
      → All P (tier retry_tier (sort available))
      → (ch : Channel) → choice ≡ chosen ch
      → P ch
  unfolding select rotate
  tier-choice P available e h ch picked =
      let turns = tier retry_tier (sort available) in
      let idx = get_or model_slug 0 s.counters % total_weight turns in
      elim (Bool-cases (is_nonempty channels)) [
        | inl some_left ↦ pick-All P idx turns ch h (ground arith)
        | inr empty ↦ ground arith
      ]

  -- What holds of all candidates holds of the choice.
  pub choice-All :
      (P : Channel → Type 0) (available : List Channel)
      → found ≡ some available
      → All P available
      → (ch : Channel) → choice ≡ chosen ch
      → P ch
  choice-All P available e h =
      tier-choice P available e (All-tier P retry_tier (sort available) (All-sort P available h))

  pub choice-chosen :
      (available : List Channel)
      → found ≡ some available
      → is_nonempty channels ≡ true
      → is_nonempty available ≡ true
      → (ch : Channel) × (choice ≡ chosen ch)
  unfolding select rotate
  choice-chosen available e some_left h =
      let turns = tier retry_tier (sort available) in
      let (ch, picked) =
        pick-chosen (get_or model_slug 0 s.counters % total_weight turns) turns
          (nonempty-tier retry_tier (sort available) ∙ nonempty-sort available ∙ h) in
      (ch, ground (arith, picked, e, some_left))

  pub candidates-All :
      (P : Channel → Type 0) (available : List Channel)
      → All P channels
      → found ≡ some available
      → All P available
  unfolding candidates
  candidates-All P available h e = ground (
    arith,
    All-filter P (is_candidate s now model_slug excluded rl_accounts) channels h,
    All-filter P (λ ch. not (is_excluded excluded ch) && not (is_limited rl_accounts ch)) channels
        h,
    All-filter P (λ ch. not (is_excluded excluded ch)) channels h,
  )
