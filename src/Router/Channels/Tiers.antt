-- ===== src/Router/Channels/Tiers.antt =====
-- The first attempt goes to the channels of the highest priority.
use mathlib.Core.Path.{subst}
use eucal_ai_backend.Prelude.{
  ℕ, ◌-◌, String, ◌≡◌, sym, ap, refl, ◌⊎◌, inl, inr, true, some, List, [], ◌∷◌, arith, length, All,
  All-map, filter-All, filter, is_nonempty, nth, ltb, if◌then◌else◌,
}
use eucal_ai_backend.Prelude.Int.{ℤ, ◌≤ℤ◌}
use eucal_ai_backend.Router.Channels.{
  Channel, ChannelSelector, chosen, select, candidates, tier, sort, insert, priority_of,
  has_priority, insert_priority, unique_priorities,
}
use eucal_ai_backend.Router.Channels.Candidates.{tier-choice, All-tier}

-- the head of a list of priorities bounds `p`
abbrev Tops : ℤ → List ℤ → Type 0
Tops p [] = Unit
Tops p (q ∷ qs) = p ≤ℤ q

Tops-insert_priority : (p : ℤ) (qs : List ℤ) → Tops p (insert_priority p qs)
unfolding insert_priority
Tops-insert_priority p [] = ground arith
Tops-insert_priority p (q ∷ qs) = ground arith

Tops-insert_other :
    (p r : ℤ) (qs : List ℤ) → Tops r qs → is_nonempty qs ≡ true → Tops r (insert_priority p qs)
unfolding insert_priority
Tops-insert_other p r [] h some_left = ground arith
Tops-insert_other p r (q ∷ qs) h some_left = ground arith

nonempty-insert_priority : (p : ℤ) (qs : List ℤ) → is_nonempty (insert_priority p qs) ≡ true
unfolding insert_priority
nonempty-insert_priority p [] = refl
nonempty-insert_priority p (q ∷ qs) = ground arith

nonempty-unique_priorities :
    (ch : Channel) (chs : List Channel) → is_nonempty (unique_priorities (ch ∷ chs)) ≡ true
unfolding unique_priorities
nonempty-unique_priorities ch chs =
    nonempty-insert_priority (priority_of ch) (unique_priorities chs)

unique-Tops : (chs : List Channel) → All (λ c. Tops (priority_of c) (unique_priorities chs)) chs
unfolding unique_priorities
unique-Tops [] = tt
unique-Tops (ch ∷ []) = (Tops-insert_priority (priority_of ch) [], tt)
unique-Tops (ch ∷ d ∷ ds) = (
  Tops-insert_priority (priority_of ch) (unique_priorities (d ∷ ds)),
  All-map
      (λ c h.
        Tops-insert_other (priority_of ch) (priority_of c) (unique_priorities (d ∷ ds)) h
          (nonempty-unique_priorities d ds))
      (d ∷ ds) (unique-Tops (d ∷ ds)),
)

-- one of the priorities of the list stands first
abbrev IsTop : ℤ → List Channel → Type 0
IsTop p chs = is_nonempty (filter (has_priority p) chs) ≡ true

head-insert_priority :
    (p t : ℤ) (qs : List ℤ) → nth (insert_priority p qs) 0 ≡ some t → (t ≡ p) ⊎ (nth qs 0 ≡ some t)
unfolding insert_priority
head-insert_priority p t [] e = ground arith
head-insert_priority p t (q ∷ qs) e = ground arith

has_priority_self : (p : ℤ) (ch : Channel) → p ≡ priority_of ch → has_priority p ch ≡ true
has_priority_self p ch e = ground arith

unique-IsTop : (chs : List Channel) (p : ℤ) → nth (unique_priorities chs) 0 ≡ some p → IsTop p chs
unfolding unique_priorities filter
unique-IsTop [] p e = ground arith
unique-IsTop (ch ∷ chs) p e =
    elim (head-insert_priority (priority_of ch) p (unique_priorities chs) e) [
      | inl here ↦ ground (arith, has_priority_self p ch here)
      | inr later ↦ ground (arith, unique-IsTop chs p later)
    ]

head-nonempty : (ps : List ℤ) → is_nonempty ps ≡ true → (p : ℤ) × (nth ps 0 ≡ some p)
head-nonempty [] h = ground arith
head-nonempty (p ∷ ps) h = (p, refl)

-- None of the list is above `ch`.
abbrev IsHighest : List Channel → Channel → Type 0
IsHighest chs ch = All (λ d. priority_of d ≤ℤ priority_of ch) chs

at_top :
    (chs : List Channel) (ps : List ℤ) (p : ℤ)
    → nth ps 0 ≡ some p
    → All (λ c. Tops (priority_of c) ps) chs
    → (ch : Channel) → has_priority p ch ≡ true
    → IsHighest chs ch
at_top chs [] p e h ch same = ground arith
at_top chs (q ∷ qs) p e h ch same = All-map (λ d k. ground arith) chs h

clamp_zero : (n : ℕ) → (if ltb 0 n then 0 else n) ≡ 0
clamp_zero n = ground arith

tier-zero :
    (chs : List Channel) (p : ℤ)
    → nth (unique_priorities chs) 0 ≡ some p
    → tier 0 chs ≡ filter (has_priority p) chs
unfolding tier
tier-zero chs p e =
    let first = clamp_zero (length (unique_priorities chs) - 1) in
    ground (arith, first, ap (nth (unique_priorities chs)) first, unique-IsTop chs p e)

tier-IsHighest : (chs : List Channel) → All (IsHighest chs) (tier 0 chs)
tier-IsHighest [] = All-tier (IsHighest []) 0 [] tt
tier-IsHighest (c ∷ cs) =
    let (p, e) = head-nonempty (unique_priorities (c ∷ cs)) (nonempty-unique_priorities c cs) in
    subst (All (IsHighest (c ∷ cs))) (sym (tier-zero (c ∷ cs) p e)) (
      All-map (at_top (c ∷ cs) (unique_priorities (c ∷ cs)) p e (unique-Tops (c ∷ cs)))
        (filter (has_priority p) (c ∷ cs)) (filter-All (has_priority p) (c ∷ cs)))

module _ (P : Channel → Type 0) where
  insert-All : (ch : Channel) (chs : List Channel) → All P (insert ch chs) → P ch × All P chs
  unfolding insert
  insert-All ch [] h = h
  insert-All ch (c ∷ cs) h = ground (arith, insert-All ch cs)

  sort-All : (chs : List Channel) → All P (sort chs) → All P chs
  unfolding sort
  sort-All [] h = h
  sort-All (ch ∷ chs) h = let (k, ks) = insert-All ch (sort chs) h in (k, sort-All chs ks)

-- On the first attempt, no candidate has a higher priority than the channel that `select` returns.
pub select-IsHighest :
    (now : ℕ) (model_slug : String) (channels : List Channel) (excluded : List String)
    (rl_accounts : List ℕ) (s : ChannelSelector) (available : List Channel) (ch : Channel)
    → candidates s now model_slug channels excluded rl_accounts ≡ some available
    → (select now model_slug channels excluded 0 rl_accounts s).0 ≡ chosen ch
    → All (λ d. priority_of d ≤ℤ priority_of ch) available
select-IsHighest now model_slug channels excluded rl_accounts s available ch e picked =
    sort-All (λ d. priority_of d ≤ℤ priority_of ch) available
      (tier-choice now model_slug channels excluded 0 rl_accounts s (IsHighest (sort available))
        available e (tier-IsHighest (sort available)) ch picked)
