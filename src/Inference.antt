-- ===== src/Inference.antt =====
-- services/inference-service/src/inference_service: the configuration of the routing
-- (utils/runtime_config.py), the score bands (utils/scoring.py), and how
-- services/router_engine.py makes a model of a score. `Python` has the numbers that Python
-- computes with, and its conversions, which raise where they are `none`; nothing is assumed of
-- them. A raise is `none`.
pub mod Normalize
pub mod Reads
pub mod Validity
mod Tests
use Prim.Native.String.{[] as nil, ◌∷◌ as cons}
use Prim.Native.Char.{code}
use eucal_ai_backend.Prelude.{
  ℕ, String, Bool, true, false, not, ◌&&◌, ◌||◌, Option, none, some, List, [], ◌∷◌, ◌==◌,
  is_nonempty, if◌then◌else◌, arith, ◌≡◌, ◌↔◌,
}
use eucal_ai_backend.Prelude.Int.{ℤ, pos, pos_part, neg_part}
use eucal_ai_backend.Prelude.Keyed.{Table, find, put, keys, mem, string_eq, Eq}
use eucal_ai_backend.Prelude.Text.{is_empty, split_by, strip}

-- `V` are the values of a configuration, `F` the floats.
pub record Python (V F : Type 0) : Type 0 where
  pub float : V → Option F
  pub int : V → Option ℤ
  pub str : V → String
  pub float_of_text : String → Option F
  pub int_of_text : String → Option ℤ
  pub leb : F → F → Bool
  pub ltb : F → F → Bool
  pub add : F → F → F
  pub zero : F
  pub one : F
  pub str_of_float : F → String
  pub str_of_int : ℤ → String
  -- `start != end`
  pub differ : F → F → Bool

pub data RawWeights (V : Type 0) : Type 0 where
  weight_list : List V → RawWeights V
  weight_dict : Table String V → RawWeights V
  no_weights : RawWeights V

-- A band of a list is `none` if it has not three parts.
pub data RawBands (V : Type 0) : Type 0 where
  band_list : List (Option (V × V × V)) → RawBands V
  band_text : String → RawBands V

-- `none` is a missing key; a tier map that is no dictionary is `some none`.
pub record Raw (V : Type 0) : Type 0 where
  pub route_order : Option (List String)
  pub weights : Option (RawWeights V)
  pub score_bands : Option (RawBands V)
  pub score_bands_raw : String
  pub tier_model_map : Option (Option (Table V V))
  pub router_alias : Option String

pub record Band (F : Type 0) : Type 0 where
  pub start : F
  pub end : F
  pub tier : ℤ

pub record RuntimeConfig (F : Type 0) : Type 0 where
  pub router_alias : String
  pub weights : Table String F
  pub score_bands_raw : String
  pub score_bands : List (Band F)
  pub tier_model_map : Table ℤ String

-- `FIVEWAY_ROUTE_ORDER`
abbrev pub fiveway_route_order : List String
fiveway_route_order = "纠错" ∷ "工具调用" ∷ "通用任务" ∷ "任务拆解" ∷ "编程" ∷ []

infixl 5 ◌>>=◌
abbrev pub ◌>>=◌ : {A B : Type 0} → Option A → (A → Option B) → Option B
none >>= next = none
some a >>= next = next a

-- `if not test: raise`
abbrev pub guard : {A : Type 0} → Bool → Option A → Option A
guard test rest = if test then rest else none

-- each value, or a raise at the first that raises
unfoldable pub traverse : {A B : Type 0} → (A → Option B) → List A → Option (List B)
traverse f [] = some []
traverse f (x ∷ xs) = let rest = traverse f xs in f x >>= λ y. rest >>= λ ys. some (y ∷ ys)

abbrev pub same_texts : List String → List String → Bool
same_texts [] [] = true
same_texts [] (y ∷ ys) = false
same_texts (x ∷ xs) [] = false
same_texts (x ∷ xs) (y ∷ ys) = string_eq.beq x y && same_texts xs ys

-- `dict(zip(names, xs))` of names that differ, for lists of the same length
unfoldable pub zip : {A : Type 0} → List String → List A → Option (Table String A)
zip [] [] = some []
zip [] (x ∷ xs) = none
zip (name ∷ names) [] = none
zip (name ∷ names) (x ∷ xs) = let rest = zip names xs in rest >>= λ t. some ((name, x) ∷ t)

-- `s.partition(c)`: what is before the first `c`, and what is after it, if it is there
unfoldable pub partition : (ℕ → Bool) → String → String × String
partition is_break nil = (nil, nil)
partition is_break (cons c s) =
    let (before, after) = partition is_break s in
    if is_break (code c) then (nil, s) else (cons c before, after)

unfoldable pub contains : (ℕ → Bool) → String → Bool
contains is_break nil = false
contains is_break (cons c s) = is_break (code c) || contains is_break s

pub is_comma : ℕ → Bool
is_comma c = c == b','

pub is_colon : ℕ → Bool
is_colon c = c == b':'

pub is_dash : ℕ → Bool
is_dash c = c == b'-'

abbrev pub eqb_ℤ : ℤ → ℤ → Bool
eqb_ℤ a b = (pos_part a == pos_part b) && (neg_part a == neg_part b)

pub eqb_ℤ_iff : (a b : ℤ) → (eqb_ℤ a b ≡ true) ↔ (a ≡ b)
eqb_ℤ_iff a b = ground arith

instance abbrev pub int_eq : Eq ℤ
int_eq = record { beq = eqb_ℤ; beq_iff = eqb_ℤ_iff }

abbrev pub tiers : List ℤ
tiers = pos 1 ∷ pos 2 ∷ pos 3 ∷ pos 4 ∷ pos 5 ∷ []

abbrev pub all_in : List ℤ → List ℤ → Bool
all_in [] ys = true
all_in (x ∷ xs) ys = mem x ys && all_in xs ys

abbrev pub or_default : Option String → String
or_default none = "auto"
or_default (some alias) = if is_empty (strip alias) then "auto" else strip alias

-- `route_order` must be missing, empty, or `FIVEWAY_ROUTE_ORDER`
abbrev pub is_route_order : Option (List String) → Bool
is_route_order none = true
is_route_order (some []) = true
is_route_order (some (name ∷ order)) = same_texts (name ∷ order) fiveway_route_order
