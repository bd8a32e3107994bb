-- ===== src/Prelude/Text.antt =====
-- Splitting a text at characters, stripping it, and its test for emptiness.
use Prim.Native.Char.{code}
use Prim.Native.String.{String, [] as nil, ◌∷◌ as cons, ◌++◌ as str_append}
use Prim.Native.Nat.{ℕ}
use text.Mathlib.Text.{◌==◌ as str_eq}
use mathlib.Core.Option.{Option, none, some}
use mathlib.Core.Bool.{Bool, true, false, ◌&&◌, ◌||◌}
use mathlib.Core.List.{List, [], ◌∷◌}
use eucal_ai_backend.Prelude.Tests.{leb, ◌==◌, if◌then◌else◌}

add_to_first : String → List String → List String
add_to_first s [] = s ∷ []
add_to_first s (t ∷ ts) = str_append s t ∷ ts

-- the pieces between the characters that `is_break` marks
unfoldable pub split_by : (ℕ → Bool) → String → List String
unfolding add_to_first
split_by is_break nil = nil ∷ []
split_by is_break (cons c s) =
    let rest = split_by is_break s in
    if is_break (code c) then nil ∷ rest else add_to_first (cons c nil) rest

abbrev pub is_empty : String → Bool
is_empty nil = true
is_empty (cons c s) = false

-- `str.isspace` of a character
unfoldable pub is_space : ℕ → Bool
is_space c =
    (leb 9 c && leb c 13)
    || (leb 28 c && leb c 32)
    || c == 0x85
    || c == 0xa0
    || c == 0x1680
    || (leb 0x2000 c && leb c 0x200a)
    || c == 0x2028
    || c == 0x2029
    || c == 0x202f
    || c == 0x205f
    || c == 0x3000

unfoldable pub lstrip_by : (ℕ → Bool) → String → String
lstrip_by drops nil = nil
lstrip_by drops (cons c s) = if drops (code c) then lstrip_by drops s else cons c s

unfoldable pub rstrip_by : (ℕ → Bool) → String → String
rstrip_by drops nil = nil
rstrip_by drops (cons c s) =
    let rest = rstrip_by drops s in if is_empty rest && drops (code c) then nil else cons c rest

-- `s.strip()`
unfoldable pub strip : String → String
unfolding is_space lstrip_by rstrip_by
strip s = rstrip_by is_space (lstrip_by is_space s)

-- the text before a suffix, if the text ends with it
unfoldable pub before_suffix : (suffix : String) → String → Option String
before_suffix suffix nil = if str_eq nil suffix then some nil else none
before_suffix suffix (cons c s) =
    if str_eq (cons c s) suffix
    then some nil
    else (elim (before_suffix suffix s) [ none ↦ none | some before ↦ some (cons c before) ])
