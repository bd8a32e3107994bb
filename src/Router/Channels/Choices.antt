-- ===== src/Router/Channels/Choices.antt =====
-- Which channels `select` can return, and when it raises.
use eucal_ai_backend.Prelude.{
  Bool-cases, ℕ, String, Bool, ◌≡◌, ◌⊎◌, inl, inr, true, false, not, ◌&&◌, ◌||◌, Option, none, some,
  List, [], ◌∷◌, refl, arith, All, IsIn, All-IsIn, some_of_filter, none_of_filter, All-map,
  filter-All, nonempty-filter, filter, is_nonempty, Option-cases,
}
use eucal_ai_backend.Router.Channels.{
  Channel, ChannelSelector, Choice, chosen, rate_limited, select, candidates, is_candidate,
  is_excluded, is_limited,
}
use eucal_ai_backend.Router.Channels.Candidates.{choice-All, choice-chosen, candidates-All}

IsIn-nonempty :
    (d : Channel) (channels : List Channel) → IsIn d channels → is_nonempty channels ≡ true
IsIn-nonempty d [] there = ground arith
IsIn-nonempty d (c ∷ channels) there = refl

module _ (now : ℕ) (model_slug : String) (channels : List Channel) (excluded : List String)
    (retry_tier : ℕ) (rl_accounts : List ℕ) (s : ChannelSelector) where
  abbrev choice : Choice
  choice = (select now model_slug channels excluded retry_tier rl_accounts s).0

  abbrev found : Option (List Channel)
  found = candidates s now model_slug channels excluded rl_accounts

  select-none : found ≡ none → is_nonempty channels ≡ true → choice ≡ rate_limited
  unfolding select
  select-none e h = ground arith

  found-none :
      found ≡ none
      → (is_nonempty (
            filter
              (λ ch. not (is_excluded excluded ch) && not (is_limited rl_accounts ch))
              channels)
          ≡ false)
        × (is_nonempty (filter (λ ch. not (is_excluded excluded ch)) channels) ≡ true)
  unfolding candidates
  found-none e = ground arith

  found-nonempty :
      (available : List Channel)
      → is_nonempty channels ≡ true
      → found ≡ some available
      → is_nonempty available ≡ true
  unfolding candidates
  found-nonempty available h e = ground arith

  -- a channel that is neither excluded nor limited
  abbrev is_open : Channel → Bool
  is_open ch = not (is_excluded excluded ch) && not (is_limited rl_accounts ch)

  found-candidates :
      is_nonempty (filter (is_candidate s now model_slug excluded rl_accounts) channels) ≡ true
      → found ≡ some (filter (is_candidate s now model_slug excluded rl_accounts) channels)
  unfolding candidates
  found-candidates h = ground arith

  found-open :
      (available : List Channel)
      → is_nonempty (filter is_open channels) ≡ true
      → found ≡ some available
      → All (λ ch. is_open ch ≡ true) available
  unfolding candidates
  found-open available h e =
      let cand = is_candidate s now model_slug excluded rl_accounts in
      ground (
        arith,
        All-map {Q = λ c. is_open c ≡ true} (λ c k. ground arith) (filter cand channels)
            (filter-All cand channels),
        filter-All is_open channels,
      )

  found-not_excluded :
      (available : List Channel)
      → is_nonempty (filter (λ ch. not (is_excluded excluded ch)) channels) ≡ true
      → found ≡ some available
      → All (λ ch. not (is_excluded excluded ch) ≡ true) available
  unfolding candidates
  found-not_excluded available h e =
      let cand = is_candidate s now model_slug excluded rl_accounts in
      ground (
        arith,
        All-map {Q = λ c. not (is_excluded excluded c) ≡ true} (λ c k. ground arith)
            (filter cand channels) (filter-All cand channels),
        All-map {Q = λ c. not (is_excluded excluded c) ≡ true} (λ c k. ground arith)
            (filter is_open channels) (filter-All is_open channels),
        filter-All (λ c. not (is_excluded excluded c)) channels,
      )

  closed :
      is_nonempty (filter is_open channels) ≡ false
      → (ch : Channel) → IsIn ch channels
      → is_excluded excluded ch || is_limited rl_accounts ch ≡ true
  closed none_open ch there =
      let shut = none_of_filter is_open channels ch none_open there in ground arith

  -- For a model that has channels, `select` returns one of them, or raises `ChannelRateLimited`.
  -- It raises only if every channel is excluded or on a limited account, and some is not excluded.
  pub select-outcome :
      is_nonempty channels ≡ true
      → ((ch : Channel) × (choice ≡ chosen ch) × IsIn ch channels)
        ⊎ ((choice ≡ rate_limited)
            × All (λ ch. is_excluded excluded ch || is_limited rl_accounts ch ≡ true) channels
            × ((ch : Channel) × IsIn ch channels × (is_excluded excluded ch ≡ false)))
  select-outcome h = elim (Option-cases found) [
    | inl e ↦
        let (none_open, some_left) = found-none e in
        let (d, there, kept) =
          some_of_filter (λ c. not (is_excluded excluded c)) channels some_left in
        inr (
          select-none e h,
          All-map (closed none_open) channels (All-IsIn channels),
          (d, there, ground arith),
        )
    | inr (available, e) ↦
        let (ch, picked) =
          choice-chosen now model_slug channels excluded retry_tier rl_accounts s available e h
            (found-nonempty available h e) in
        inl (
          ch,
          picked,
          choice-All now model_slug channels excluded retry_tier rl_accounts s
              (λ c. IsIn c channels) available e
              (candidates-All now model_slug channels excluded retry_tier rl_accounts s
                (λ c. IsIn c channels) available (All-IsIn channels) e)
              ch picked,
        )
  ]

  choice-is :
      (q : Channel → Bool) (available : List Channel) (ch : Channel)
      → found ≡ some available
      → All (λ c. q c ≡ true) available
      → choice ≡ chosen ch
      → q ch ≡ true
  choice-is q available ch e h picked =
      choice-All now model_slug channels excluded retry_tier rl_accounts s (λ c. q c ≡ true)
        available e h ch picked

  chosen-found :
      (ch : Channel) → choice ≡ chosen ch → (available : List Channel) × (found ≡ some available)
  unfolding select
  chosen-found ch picked = elim (Option-cases found) [
    | inl e ↦ ground arith
    | inr some_found ↦ some_found
  ]

  -- While the model has a channel that is not excluded, healthy, on no limited account and neither
  -- cooling down nor disabled, `select` returns one of its channels, one that is all of this.
  pub select-is_candidate :
      (d : Channel)
      → IsIn d channels
      → is_candidate s now model_slug excluded rl_accounts d ≡ true
      → (ch : Channel) × (choice ≡ chosen ch)
        × IsIn ch channels
        × (is_candidate s now model_slug excluded rl_accounts ch ≡ true)
  select-is_candidate d there good =
      let cand = is_candidate s now model_slug excluded rl_accounts in
      let some_are = nonempty-filter cand channels d there good in
      let available = found-candidates some_are in
      let (ch, picked) =
        choice-chosen now model_slug channels excluded retry_tier rl_accounts s
          (filter cand channels) available (IsIn-nonempty d channels there) some_are in
      (
        ch,
        picked,
        choice-All now model_slug channels excluded retry_tier rl_accounts s (λ c. IsIn c channels)
            (filter cand channels) available
            (candidates-All now model_slug channels excluded retry_tier rl_accounts s
              (λ c. IsIn c channels) (filter cand channels) (All-IsIn channels) available)
            ch picked,
        choice-is cand (filter cand channels) ch available (filter-All cand channels) picked,
      )

  -- While the model has a channel that is not excluded, what `select` returns is not excluded; and
  -- if that channel is on no limited account, neither is what it returns.
  pub select-is_open :
      (d ch : Channel)
      → IsIn d channels
      → is_excluded excluded d ≡ false
      → choice ≡ chosen ch
      → (is_excluded excluded ch ≡ false)
        × (is_limited rl_accounts ch && not (is_limited rl_accounts d) ≡ false)
  select-is_open d ch there good picked =
      let (available, e) = chosen-found ch picked in
      let kept =
        choice-is (λ c. not (is_excluded excluded c)) available ch e
          (found-not_excluded available
            (nonempty-filter (λ c. not (is_excluded excluded c)) channels d there (ground arith)) e)
          picked in
      elim (Bool-cases (is_limited rl_accounts d)) [
        | inl limited ↦ (ground arith, ground arith)
        | inr free ↦
            let open_ =
              choice-is is_open available ch e
                (found-open available (nonempty-filter is_open channels d there (ground arith)) e)
                picked in
            (ground arith, ground arith)
      ]
