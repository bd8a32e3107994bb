-- ===== src/Router/Anthropic/Tags.antt =====
-- The texts of services/router-service/src/services/anthropic_convert.py, and Python's
-- `partition`, `in` and `strip` on them.
pub use eucal_ai_backend.Router.Streams.{Text}
use eucal_ai_backend.Prelude.{
  ℕ, String, Bool, true, ◌&&◌, Option, none, some, [], ◌∷◌, ◌==◌, if◌then◌else◌,
}
use Prim.Native.Char.{code}
use eucal_ai_backend.Prelude.Text.{is_space}

abbrev pub codes : String → Text
codes String.[] = []
codes (String.◌∷◌ c s) = code c ∷ codes s

-- what follows a prefix
unfoldable pub drop_prefix : (tag : Text) → Text → Option Text
drop_prefix [] s = some s
drop_prefix (t ∷ tag) [] = none
drop_prefix (t ∷ tag) (c ∷ s) = let rest = drop_prefix tag s in if t == c then rest else none

abbrev pub cons_before : ℕ → Option (Text × Text) → Option (Text × Text)
cons_before c none = none
cons_before c (some (before, after)) = some (c ∷ before, after)

-- `s.partition(tag)`, or `none` where `tag in s` is false; the tag is not empty
unfoldable pub partition : (tag : Text) → Text → Option (Text × Text)
partition tag [] = none
partition tag (c ∷ s) = elim (drop_prefix tag (c ∷ s)) [
  | some after ↦ some ([], after)
  | none ↦ cons_before c (partition tag s)
]

abbrev pub think_start : Text
think_start = codes "<think>"

abbrev pub think_end : Text
think_end = codes "</think>"

-- `not s.strip()`
unfoldable pub is_blank : Text → Bool
unfolding is_space
is_blank [] = true
is_blank (c ∷ s) = is_space c && is_blank s
