-- ===== src/Prelude/Keyed.antt =====
-- A table with a primary key, as an association list; keys are compared through an instance.
use text.Mathlib.Text.{◌==◌ as str_eq}
use text.Mathlib.TextEquality.{eq_iff}
use Prim.Native.Nat.{ℕ}
use Prim.Native.String.{String}
use mathlib.Core.Path.{◌≡◌, refl}
use mathlib.Core.Logic.{◌↔◌, ◌≢◌, inl, inr}
use mathlib.Core.Bool.{Bool, true, false, ◌||◌}
use mathlib.Core.Option.{Option, none, some}
use mathlib.Core.List.{List, [], ◌∷◌}
use native.Mathlib.Omega.{arith}
use eucal_ai_backend.Prelude.Lists.{All}
use eucal_ai_backend.Prelude.Tests.{Bool-cases, ◌==◌, ==_iff, if◌then◌else◌}

pub record Eq {ℓ} (A : Type ℓ) : Type ℓ where
  pub beq : A → A → Bool
  pub beq_iff : (a b : A) → (beq a b ≡ true) ↔ (a ≡ b)

abbrev pub Table : Type 0 → Type 0 → Type 0
Table K V = List (K × V)

-- `table.keys()`
abbrev pub keys : {K V : Type 0} → Table K V → List K
keys [] = []
keys ((k, v) ∷ t) = k ∷ keys t

instance abbrev pub nat_eq : Eq ℕ
nat_eq = record { beq = ◌==◌; beq_iff = ==_iff }

-- texts, by their characters
instance abbrev pub string_eq : Eq String
string_eq = record { beq = str_eq; beq_iff = eq_iff }

module _ {K V : Type 0} ⦃e : Eq K⦄ where
  unfoldable pub find : K → Table K V → Option V
  find k [] = none
  find k ((j, v) ∷ t) = if e.beq j k then some v else find k t

  -- Writes the row of a key that is there, and adds the row of a new one.
  unfoldable pub put : K → V → Table K V → Table K V
  put k v [] = (k, v) ∷ []
  put k v ((j, w) ∷ t) = if e.beq j k then (j, v) ∷ t else (j, w) ∷ put k v t

  pub find-put :
      (k j : K) (v : V) (t : Table K V)
      → find j (put k v t) ≡ (if e.beq k j then some v else find j t)
  unfolding find put
  find-put k j v [] = refl
  find-put k j v ((i, w) ∷ t) =
      ground (arith, e.beq_iff i k, e.beq_iff i j, e.beq_iff k j, find-put k j v t)

  pub find-put_self : (k : K) (v : V) (t : Table K V) → find k (put k v t) ≡ some v
  find-put_self k v t = ground (arith, find-put k k v t, e.beq_iff k k)

  pub find-put_ne : (k j : K) (v : V) (t : Table K V) → k ≢ j → find j (put k v t) ≡ find j t
  find-put_ne k j v t h = ground (arith, find-put k j v t, e.beq_iff k j)

  -- No key has two rows.
  abbrev pub IsKeyed : Table K V → Type 0
  IsKeyed [] = Unit
  IsKeyed ((k, v) ∷ t) = (find k t ≡ none) × IsKeyed t

  pub put-IsKeyed : (k : K) (v : V) (t : Table K V) → IsKeyed t → IsKeyed (put k v t)
  unfolding find put
  put-IsKeyed k v [] h = (refl, tt)
  put-IsKeyed k v ((j, w) ∷ t) h =
      ground (arith, e.beq_iff j k, e.beq_iff k j, put-IsKeyed k v t h.1, find-put k j v t)

  -- `dict.get(k, default)`
  abbrev pub get_or : K → V → Table K V → V
  get_or k default t = elim (find k t) [ none ↦ default | some v ↦ v ]

  -- `dict.pop(k, None)`
  unfoldable pub pop : K → Table K V → Table K V
  pop k [] = []
  pop k ((j, v) ∷ t) = if e.beq j k then pop k t else (j, v) ∷ pop k t

  pub find-pop_self : (k : K) (t : Table K V) → find k (pop k t) ≡ none
  unfolding find pop
  find-pop_self k [] = refl
  find-pop_self k ((j, v) ∷ t) = ground (arith, find-pop_self k t)

  pub find-pop_ne : (k j : K) (t : Table K V) → k ≢ j → find j (pop k t) ≡ find j t
  unfolding find pop
  find-pop_ne k j [] h = refl
  find-pop_ne k j ((i, v) ∷ t) h = ground (arith, e.beq_iff i k, e.beq_iff i j, find-pop_ne k j t h)

-- `x in xs`
unfoldable pub mem : {A : Type 0} ⦃e : Eq A⦄ → A → List A → Bool
mem x [] = false
mem {A} ⦃e⦄ x (y ∷ ys) = e.beq y x || mem x ys

-- a property of the values
module _ {K V : Type 0} ⦃e : Eq K⦄ where
  pub All-put :
      (P : V → Type 0) (k : K) (v : V) (t : Table K V)
      → P v
      → All (λ r. P r.1) t
      → All (λ r. P r.1) (put k v t)
  unfolding put
  All-put P k v [] p all = (p, tt)
  All-put P k v ((j, w) ∷ t) p (q, all) = elim (Bool-cases (e.beq j k)) [
    | inl same ↦ ground arith
    | inr other ↦ ground (arith, All-put P k v t p all)
  ]
