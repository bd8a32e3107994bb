-- ===== src/Inference/Reads.antt =====
-- services/inference-service/src/inference_service/utils/runtime_config.py: lemmas on results that
-- may be a raise, on tables, and on the tiers of a configuration.
use eucal_ai_backend.Prelude.{
  ◌≡◌, refl, inl, inr, String, Bool, true, false, Option, none, some, List, [], ◌∷◌, arith, All,
  Bool-cases,
}
use eucal_ai_backend.Prelude.Int.{ℤ}
use eucal_ai_backend.Prelude.Keyed.{Eq, Table, find, keys, mem, string_eq}
use eucal_ai_backend.Prelude.Text.{is_empty, strip}
use eucal_ai_backend.Inference.{◌>>=◌, guard, int_eq, tiers, all_in, or_default}

pub guard-some :
    {A : Type 0} (test : Bool) (rest : Option A) (a : A)
    → guard test rest ≡ some a
    → (test ≡ true) × (rest ≡ some a)
guard-some true rest a h = (refl, h)
guard-some false rest a h = ground arith

pub bind_some :
    {A B : Type 0} (m : Option A) (next : A → Option B) (b : B)
    → (m >>= next) ≡ some b
    → (a : A) × (m ≡ some a) × (next a ≡ some b)
bind_some none next b h = ground arith
bind_some (some a) next b h = (a, refl, h)

module _ {K V : Type 0} ⦃e : Eq K⦄ where
  pub find_of_mem :
      (P : V → Type 0) (k : K) (t : Table K V)
      → All (λ r. P r.1) t
      → mem k (keys t) ≡ true
      → (v : V) × (find k t ≡ some v) × P v
  unfolding find mem
  find_of_mem P k [] all h = ground arith
  find_of_mem P k ((j, w) ∷ t) (p, all) h = elim (Bool-cases (e.beq j k)) [
    | inl same ↦ (w, ground arith, p)
    | inr other ↦ let (v, found, q) = find_of_mem P k t all (ground arith) in (v, ground arith, q)
  ]

  pub find_missing : (k : K) (t : Table K V) → mem k (keys t) ≡ false → find k t ≡ none
  unfolding find mem
  find_missing k [] h = refl
  find_missing k ((j, w) ∷ t) h = ground (arith, find_missing k t)

pub all_in-mem : (x : ℤ) (xs ys : List ℤ) → all_in xs ys ≡ true → mem x xs ≡ true → mem x ys ≡ true
unfolding mem
all_in-mem x [] ys h there = ground arith
all_in-mem x (y ∷ xs) ys h there = elim (Bool-cases (int_eq.beq y x)) [
  | inl same ↦ rw (← (int_eq.beq_iff y x).0 same) (ground arith)
  | inr other ↦ all_in-mem x xs ys (ground arith) (ground arith)
]

-- `tier` has a model, which has a name
unfoldable pub Named : Table ℤ String → ℤ → Type 0
Named m tier = (name : String) × (find tier m ≡ some name) × (is_empty name ≡ false)

-- what is given to the scores of a band with this tier
unfoldable pub Selects : ℤ → Option (ℤ × String) → Type 0
Selects tier none = mem tier tiers ≡ false
Selects tier (some (given, name)) =
    (given ≡ tier) × (mem tier tiers ≡ true) × (is_empty name ≡ false)

pub or_default-nonempty : (alias : Option String) → is_empty (or_default alias) ≡ false
or_default-nonempty none = refl
or_default-nonempty (some alias) = elim (Bool-cases (is_empty (strip alias))) [
  | inl e ↦ rw e refl
  | inr e ↦ rw e e
]

pub all_in-Named :
    (m : Table ℤ String) (xs : List ℤ)
    → All (λ r. is_empty r.1 ≡ false) m
    → all_in xs (keys m) ≡ true
    → All (Named m) xs
unfolding Named
all_in-Named m [] named h = tt
all_in-Named m (x ∷ xs) named h = (
  find_of_mem (λ name. is_empty name ≡ false) x m named (ground arith),
  all_in-Named m xs named (ground arith),
)

pub Named-of_mem :
    (m : Table ℤ String) (xs : List ℤ) (tier : ℤ)
    → All (Named m) xs
    → mem tier xs ≡ true
    → Named m tier
unfolding mem
Named-of_mem m [] tier named there = ground arith
Named-of_mem m (x ∷ xs) tier (first, named) there = elim (Bool-cases (int_eq.beq x tier)) [
  | inl same ↦ rw (← (int_eq.beq_iff x tier).0 same) first
  | inr other ↦ Named-of_mem m xs tier named (ground arith)
]

pub find-Selects :
    (m : Table ℤ String) (tier : ℤ)
    → All (Named m) tiers
    → all_in (keys m) tiers ≡ true
    → Selects tier (find tier m >>= λ name. some (tier, name))
unfolding Named Selects
find-Selects m tier named only = elim (Bool-cases (mem tier tiers)) [
  | inl there ↦
      let (name, found, filled) = Named-of_mem m tiers tier named there in
      rw found (refl, there, filled)
  | inr missing ↦ elim (Bool-cases (mem tier (keys m))) [
    | inl here ↦ ground (arith, all_in-mem tier (keys m) tiers only here)
    | inr nowhere ↦ rw (find_missing tier m nowhere) missing
  ]
]

pub resolved :
    (found : Option ℤ) (other : ℤ)
    → (tier : ℤ) × ((elim found [ some t ↦ some t | none ↦ some other ]) ≡ some tier)
resolved none other = (other, refl)
resolved (some t) other = (t, refl)
