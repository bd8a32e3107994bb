-- ===== src/Router/Anthropic/Protocol/Client.antt =====
-- services/router-service/src/services/anthropic_convert.py: what a client of the protocol accepts.
use eucal_ai_backend.Prelude.{
  ℕ, ◌+◌, ◌≡◌, inl, inr, Option, none, some, List, [], ◌∷◌, ◌++◌, arith, ◌==◌, ◌&&◌, ◌||◌, Bool,
  true, false, not, if◌then◌else◌, Option-cases,
}
use eucal_ai_backend.Prelude.Keyed.{Table, mem, nat_eq}
use eucal_ai_backend.Router.Anthropic.{
  BlockType, text, thinking, tool_use, Event, message_start, ping, start_text, start_thinking,
  start_tool, block_stop, text_delta, thinking_delta, input_json_delta, message_delta, message_stop,
  StreamConverter,
}

-- A client of the protocol: it has read `n` whole blocks, and may be inside the next; `tools` are
-- the numbers of the blocks of tools.
pub data Reader : Type 0 where
  before_message : Reader
  between : (n : ℕ) (tools : List ℕ) → Reader
  inside : (n : ℕ) → BlockType → (tools : List ℕ) → Reader
  closing : Reader
  ended : Reader

abbrev pub is_thinking_block : BlockType → Bool
is_thinking_block text = false
is_thinking_block thinking = true
is_thinking_block tool_use = false

abbrev pub is_tool_block : BlockType → Bool
is_tool_block text = false
is_tool_block thinking = false
is_tool_block tool_use = true

-- `none` is a breach of the protocol. A message has blocks numbered from 0, one at a time, and
-- each delta goes into the open block, which is of its type. A client that is not `strict` forgives
-- two breaches: a thought in an open block of another type, and the input of a tool in the block of
-- a tool that is closed.
unfoldable pub read : (strict : Bool) → Event → Reader → Option Reader
read strict (message_start msg_id model n) before_message = some (between 0 [])
read strict ping (between n tools) = some (between n tools)
read strict (start_text i) (between n tools) = if i == n then some (inside n text tools) else none
read strict (start_thinking i) (between n tools) =
    if i == n then some (inside n thinking tools) else none
read strict (start_tool i id name) (between n tools) =
    if i == n then some (inside n tool_use (tools ++ (n ∷ []))) else none
read strict (block_stop i) (inside n kind tools) =
    if i == n then some (between (n + 1) tools) else none
read strict (text_delta i t) (inside n text tools) =
    if i == n then some (inside n text tools) else none
read strict (thinking_delta i t) (inside n kind tools) =
    if i == n && (is_thinking_block kind || not strict) then some (inside n kind tools) else none
read strict (input_json_delta i t) (inside n kind tools) =
    if (i == n && is_tool_block kind) || (mem i tools && not strict)
    then some (inside n kind tools)
    else none
read strict (input_json_delta i t) (between n tools) =
    if mem i tools && not strict then some (between n tools) else none
read strict (message_delta reason n) (between k tools) = some closing
read strict message_stop closing = some ended
read strict event reader = none

unfoldable pub read_all : (strict : Bool) → List Event → Reader → Option Reader
read_all strict [] r = some r
read_all strict (event ∷ events) r = elim (read strict event r) [
  | none ↦ none
  | some r' ↦ read_all strict events r'
]

unfoldable pub values : Table ℕ ℕ → List ℕ
values [] = []
values ((k, v) ∷ t) = v ∷ values t

abbrev pub live_reader : StreamConverter → Reader
live_reader s = elim (s.block) [
  | none ↦ between s.content_index (values s.tool_index_map)
  | some kind ↦ inside s.content_index kind (values s.tool_index_map)
]

-- where a client stands that has read all that the converter has emitted
abbrev pub reader_of : StreamConverter → Reader
reader_of s = if s.finished then ended else if s.started then live_reader s else before_message

pub read_all-append :
    (strict : Bool) (xs ys : List Event) (r r' : Reader)
    → read_all strict xs r ≡ some r'
    → read_all strict (xs ++ ys) r ≡ read_all strict ys r'
unfolding read_all
read_all-append strict [] ys r r' h = ground arith
read_all-append strict (x ∷ xs) ys r r' h = elim (Option-cases (read strict x r)) [
  | inl refused ↦ ground arith
  | inr (q, taken) ↦ ground (arith, read_all-append strict xs ys q r' (ground arith))
]
