-- ===== src/Router/Streams.antt =====
-- What the converters of streams in services/router-service/src/services share: the chunks of an
-- OpenAI stream, as anthropic_convert.py and responses_convert.py read them, and methods that
-- return events.
use eucal_ai_backend.Prelude.{ℕ, String, Bool, Option, List, [], ◌∷◌, ◌++◌, if◌then◌else◌}

-- code points
abbrev pub Text : Type 0
Text = List ℕ

-- A missing text is empty, a missing index 0.
pub record ToolCall : Type 0 where
  pub index : ℕ
  pub id : String
  pub name : String
  pub arguments : Text

-- `choices[0]`: its delta's content and tool calls, and `none` for no reason to finish
pub record Choice : Type 0 where
  pub content : Text
  pub tool_calls : List ToolCall
  pub finish_reason : Option String

-- A method of a converter `S` that returns events `E`; `events += ...` is one method after another.
abbrev pub Emits : Type 0 → Type 0 → Type 0
Emits S E = S → List E × S

module _ {S E : Type 0} where
  infixl 5 ◌>>◌
  abbrev pub ◌>>◌ : Emits S E → Emits S E → Emits S E
  ◌>>◌ m k s = let (first, s') = m s in let (more, s'') = k s' in (first ++ more, s'')

  abbrev pub emit : E → Emits S E
  emit event s = (event ∷ [], s)

  abbrev pub skip : Emits S E
  skip s = ([], s)

  abbrev pub modify : (S → S) → Emits S E
  modify f s = ([], f s)

  unfoldable pub when : Bool → Emits S E → Emits S E
  when test m = if test then m else skip
