-- ===== src/Prelude/Lists.antt =====
-- Lists over the native numbers, and predicates that compute on a list.
use Prim.Native.Nat.{ℕ, zero, suc, ◌+◌, ◌<◌}
use mathlib.Core.Path.{◌≡◌, refl, ap, ◌∙◌}
use mathlib.Core.Logic.{◌⊎◌, inl, inr}
use mathlib.Core.Bool.{Bool, true, false}
use mathlib.Core.Option.{Option, none, some}
use mathlib.Core.List.{List, [], ◌∷◌, ◌++◌}
use native.Mathlib.Omega.{arith}
use eucal_ai_backend.Prelude.Tests.{Bool-cases, if◌then◌else◌}

module _ {ℓ} {A : Type ℓ} where
  abbrev pub length : List A → ℕ
  length [] = 0
  length (x ∷ xs) = suc (length xs)

  abbrev pub All {κ} : (A → Type κ) → List A → Type κ
  All P [] = Unit
  All P (x ∷ xs) = P x × All P xs

  pub length-append : (xs ys : List A) → length (xs ++ ys) ≡ length xs + length ys
  length-append [] ys = omega arith
  length-append (x ∷ xs) ys = omega (arith, length-append xs ys)

  unfoldable pub filter : (A → Bool) → List A → List A
  filter p [] = []
  filter p (x ∷ xs) = if p x then x ∷ filter p xs else filter p xs

  -- `if xs:`
  abbrev pub is_nonempty : List A → Bool
  is_nonempty [] = false
  is_nonempty (x ∷ xs) = true

  abbrev pub nth : List A → ℕ → Option A
  nth [] n = none
  nth (x ∷ xs) zero = some x
  nth (x ∷ xs) (suc n) = nth xs n

  -- `xs[-1]`
  abbrev pub last : List A → Option A
  last [] = none
  last (x ∷ []) = some x
  last (x ∷ y ∷ ys) = last (y ∷ ys)

  -- `xs[:n]` and `xs[n:]`
  abbrev pub take : ℕ → List A → List A
  take zero xs = []
  take (suc n) [] = []
  take (suc n) (x ∷ xs) = x ∷ take n xs

  abbrev pub drop : ℕ → List A → List A
  drop zero xs = xs
  drop (suc n) [] = []
  drop (suc n) (x ∷ xs) = drop n xs

  pub take-append-drop : (n : ℕ) (xs : List A) → take n xs ++ drop n xs ≡ xs
  take-append-drop zero xs = refl
  take-append-drop (suc n) [] = refl
  take-append-drop (suc n) (x ∷ xs) = ap (λ ys. x ∷ ys) (take-append-drop n xs)

  abbrev pub replicate : ℕ → A → List A
  replicate zero x = []
  replicate (suc n) x = x ∷ replicate n x

  pub All-filter {κ} :
      (P : A → Type κ) (p : A → Bool) (xs : List A) → All P xs → All P (filter p xs)
  unfolding filter
  All-filter P p [] h = h
  All-filter P p (x ∷ xs) (h, hs) = elim (Bool-cases (p x)) [
    | inl taken ↦ ground (arith, All-filter P p xs hs)
    | inr dropped ↦ ground (arith, All-filter P p xs hs)
  ]

  pub filter-All : (p : A → Bool) (xs : List A) → All (λ x. p x ≡ true) (filter p xs)
  unfolding filter
  filter-All p [] = tt
  filter-All p (x ∷ xs) = elim (Bool-cases (p x)) [
    | inl taken ↦ ground (arith, filter-All p xs)
    | inr dropped ↦ ground (arith, filter-All p xs)
  ]

  pub All-map {κ μ} :
      {P : A → Type κ} {Q : A → Type μ}
      → ((x : A) → P x → Q x)
      → (xs : List A) → All P xs
      → All Q xs
  All-map f [] h = tt
  All-map f (x ∷ xs) (h, hs) = (f x h, All-map f xs hs)

  pub nth-append_lt : (xs ys : List A) (n : ℕ) → n < length xs → nth (xs ++ ys) n ≡ nth xs n
  nth-append_lt [] ys n h = ground arith
  nth-append_lt (x ∷ xs) ys zero h = refl
  nth-append_lt (x ∷ xs) ys (suc n) h = nth-append_lt xs ys n (omega arith)

  pub nth-append_add : (xs ys : List A) (n : ℕ) → nth (xs ++ ys) (length xs + n) ≡ nth ys n
  nth-append_add [] ys n = ap (nth ys) (omega arith)
  nth-append_add (x ∷ xs) ys n =
      let e : suc (length xs) + n ≡ suc (length xs + n) = omega arith in
      ap (nth (x ∷ (xs ++ ys))) e ∙ nth-append_add xs ys n

  pub length-replicate : (n : ℕ) (x : A) → length (replicate n x) ≡ n
  length-replicate zero x = refl
  length-replicate (suc n) x = omega (arith, length-replicate n x)

  pub nth-replicate : (n : ℕ) (x : A) (i : ℕ) → i < n → nth (replicate n x) i ≡ some x
  nth-replicate zero x i h = ground arith
  nth-replicate (suc n) x zero h = refl
  nth-replicate (suc n) x (suc i) h = nth-replicate n x i (omega arith)

module _ {A : Type 0} where
  abbrev pub IsIn : A → List A → Type 0
  IsIn x [] = ⊥
  IsIn x (y ∷ ys) = (x ≡ y) ⊎ IsIn x ys

  pub All-IsIn : (xs : List A) → All (λ x. IsIn x xs) xs
  All-IsIn [] = tt
  All-IsIn (x ∷ xs) = (inl refl, All-map (λ y h. inr h) xs (All-IsIn xs))

  pub nonempty_of_filter :
      (q : A → Bool) (xs : List A) → is_nonempty (filter q xs) ≡ true → is_nonempty xs ≡ true
  unfolding filter
  nonempty_of_filter q [] h = h
  nonempty_of_filter q (x ∷ xs) h = refl

  pub nonempty-filter :
      (q : A → Bool) (xs : List A) (x : A)
      → IsIn x xs
      → q x ≡ true
      → is_nonempty (filter q xs) ≡ true
  unfolding filter
  nonempty-filter q [] x nowhere h = absurd nowhere
  nonempty-filter q (y ∷ ys) x (inl here) h = ground (arith, ap q here)
  nonempty-filter q (y ∷ ys) x (inr later) h = ground (arith, nonempty-filter q ys x later h)

  pub some_of_filter :
      (q : A → Bool) (xs : List A)
      → is_nonempty (filter q xs) ≡ true
      → (x : A) × IsIn x xs × (q x ≡ true)
  unfolding filter
  some_of_filter q [] h = ground arith
  some_of_filter q (x ∷ xs) h = elim (Bool-cases (q x)) [
    | inl here ↦ (x, inl refl, here)
    | inr skip ↦ let (y, there, good) = some_of_filter q xs (ground arith) in (y, inr there, good)
  ]

  pub none_of_filter :
      (q : A → Bool) (xs : List A) (x : A)
      → is_nonempty (filter q xs) ≡ false
      → IsIn x xs
      → q x ≡ false
  none_of_filter q xs x h there = elim (Bool-cases (q x)) [
    | inl good ↦ ground (arith, nonempty-filter q xs x there good)
    | inr bad ↦ bad
  ]

pub some_injective : {A : Type 0} (a b : A) → some a ≡ some b → a ≡ b
some_injective a b h = grind arith
