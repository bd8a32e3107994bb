-- ===== src/Router/Channels/Rotation.antt =====
-- The weighted round robin against a list in which each channel stands as often as it weighs.
use native.Mathlib.Nat.{mul-add-mod_self_left, mod-eq_of_lt, div-add-mod}
use eucal_ai_backend.Prelude.{
  ℕ, zero, suc, ◌+◌, ◌-◌, ◌*◌, ◌/◌, ◌%◌, ◌<◌, ◌≤◌, String, ◌≡◌, refl, sym, ap, ◌∙◌, inl, inr, true,
  some, List, [], ◌∷◌, ◌++◌, map, arith, length, length-append, nth, nth-append_lt, nth-append_add,
  nth-replicate, length-replicate, replicate, Bool-cases, ltb, is_nonempty,
}
use mathlib.Core.List.{append_assoc, append-nil}
use eucal_ai_backend.Prelude.Keyed.{put, get_or, find-put_self, string_eq}
use eucal_ai_backend.Router.Channels.{
  Channel, ChannelSelector, Choice, chosen, weight_of, total_weight, scan, pick, rotate, select,
  candidates, tier, sort, is_channel_available, is_healthy,
}

-- each channel as often as it weighs
abbrev pub expand : List Channel → List Channel
expand [] = []
expand (ch ∷ chs) = replicate (weight_of ch) ch ++ expand chs

weight-pos : (ch : Channel) → 1 ≤ weight_of ch
unfolding weight_of
weight-pos ch = ground arith

length-expand : (chs : List Channel) → length (expand chs) ≡ total_weight chs
unfolding total_weight
length-expand [] = refl
length-expand (ch ∷ chs) = omega (
  arith,
  length-append (replicate (weight_of ch) ch) (expand chs),
  length-replicate (weight_of ch) ch,
  length-expand chs,
)

scan-eq-nth :
    (chs : List Channel) (idx cumulative : ℕ)
    → scan (cumulative + idx) cumulative chs ≡ nth (expand chs) idx
unfolding scan
scan-eq-nth [] idx cumulative = refl
scan-eq-nth (ch ∷ chs) idx cumulative =
    let turns = replicate (weight_of ch) ch in
    elim (Bool-cases (ltb idx (weight_of ch))) [
      | inl here ↦ ground (
        arith,
        nth-append_lt turns (expand chs) idx,
        length-replicate (weight_of ch) ch,
        nth-replicate (weight_of ch) ch idx,
      )
      | inr there ↦
          let j = idx - weight_of ch in
          let shift : length turns + j ≡ idx = ground (arith, length-replicate (weight_of ch) ch) in
          let advance : cumulative + weight_of ch + j ≡ cumulative + idx = ground arith in
          ground (
            arith,
            ap (λ i. scan i (cumulative + weight_of ch) chs) advance,
            ap (nth (turns ++ expand chs)) shift,
            scan-eq-nth chs j (cumulative + weight_of ch),
            nth-append_add turns (expand chs) j,
          )
    ]

nth-middle :
    (ch : Channel) (before after : List Channel)
    → nth (before ++ (ch ∷ after)) (length before) ≡ some ch
nth-middle ch [] after = refl
nth-middle ch (x ∷ before) after = nth-middle ch before after

-- what `n` turns of the round robin give
unfoldable pub rotations : ℕ → String → List Channel → ChannelSelector → List Choice
rotations zero model_slug available s = []
rotations (suc n) model_slug available s =
    let (choice, s') = rotate model_slug available s in choice ∷ rotations n model_slug available s'

module _ (model_slug : String) (available : List Channel) where
  pick_at :
      (before after : List Channel) (ch : Channel) (q : ℕ)
      → expand available ≡ before ++ (ch ∷ after)
      → pick ((total_weight available * q + length before) % total_weight available) available
        ≡ chosen ch
  unfolding pick
  pick_at before after ch q split =
      let total = total_weight available in
      let place : length before < total = ground (
        arith,
        length-expand available,
        ap (λ l. length l) split,
        length-append before (ch ∷ after),
      ) in
      let idx : (total * q + length before) % total ≡ length before =
        mul-add-mod_self_left total q (length before) ∙ mod-eq_of_lt place in
      ground (
        arith,
        ap (λ i. scan i 0 available) idx,
        scan-eq-nth available (length before) 0,
        ap (λ l. nth l (length before)) split,
        nth-middle ch before after,
      )

  rotations_split :
      (turns before after : List Channel) (q : ℕ) (s : ChannelSelector)
      → expand available ≡ before ++ (turns ++ after)
      → get_or model_slug 0 s.counters ≡ total_weight available * q + length before
      → rotations (length turns) model_slug available s ≡ map chosen turns
  unfolding rotations rotate
  rotations_split [] before after q s split counter = refl
  rotations_split (ch ∷ turns) before after q s split counter =
      let step : length (before ++ (ch ∷ [])) ≡ length before + 1 =
        length-append before (ch ∷ []) in
      ground (
        arith,
        ap (λ c. pick (c % total_weight available) available) counter,
        pick_at before (turns ++ after) ch q split,
        rotations_split turns (before ++ (ch ∷ [])) after q (record s {
          counters = put model_slug (get_or model_slug 0 s.counters + 1) s.counters;
        }),
        append_assoc before (ch ∷ []) (turns ++ after),
        find-put_self model_slug (get_or model_slug 0 s.counters + 1) s.counters,
        step,
      )

module _ (now : ℕ) (model_slug : String) (channels : List Channel) (excluded : List String)
    (retry_tier : ℕ) (rl_accounts : List ℕ) where
  -- what `n` calls of `select` in a row return
  unfoldable pub selects : ℕ → ChannelSelector → List Choice
  selects zero s = []
  selects (suc n) s =
      let (choice, s') = select now model_slug channels excluded retry_tier rl_accounts s in
      choice ∷ selects n s'

  -- The counters are not read when the candidates are listed.
  candidates-counted :
      (s : ChannelSelector) (n : ℕ)
      → candidates
          (record s { counters = put model_slug n s.counters })
          now
          model_slug
          channels
          excluded
          rl_accounts
        ≡ candidates s now model_slug channels excluded rl_accounts
  unfolding candidates is_channel_available is_healthy
  candidates-counted s n = refl

  selects-eq-rotations :
      (n : ℕ) (available : List Channel) (s : ChannelSelector)
      → is_nonempty channels ≡ true
      → candidates s now model_slug channels excluded rl_accounts ≡ some available
      → selects n s ≡ rotations n model_slug (tier retry_tier (sort available)) s
  unfolding selects rotations select rotate
  selects-eq-rotations zero available s h e = refl
  selects-eq-rotations (suc n) available s h e =
      let counter = get_or model_slug 0 s.counters + 1 in
      let s' = record s { counters = put model_slug counter s.counters } in
      ground (
        arith,
        selects-eq-rotations n available s' h (candidates-counted s counter ∙ e),
        candidates-counted s counter,
      )

  -- The round robin is fair. While the candidates stay the same, and from a counter that is a
  -- multiple of the tier's total weight, as many calls of `select` as that weight return each
  -- channel of the tier as often as it weighs, in the order of the tier.
  pub select-fair :
      (available : List Channel) (s : ChannelSelector)
      → is_nonempty channels ≡ true
      → candidates s now model_slug channels excluded rl_accounts ≡ some available
      → let turns = tier retry_tier (sort available) in
        get_or model_slug 0 s.counters % total_weight turns ≡ 0
        → selects (total_weight turns) s ≡ map chosen (expand turns)
  select-fair available s h e multiple =
      let turns = tier retry_tier (sort available) in
      let total = total_weight turns in
      let counter = get_or model_slug 0 s.counters in
      let start : counter ≡ total * (counter / total) + 0 =
        sym (div-add-mod counter total) ∙ ap (λ r. total * (counter / total) + r) multiple in
      selects-eq-rotations total available s h e
      ∙ ap (λ n. rotations n model_slug turns s) (sym (length-expand turns))
      ∙ rotations_split model_slug turns (expand turns) [] [] (counter / total) s
          (sym (append-nil (expand turns))) start
