-- ===== src/Router/Anthropic.antt =====
-- services/router-service/src/services/anthropic_convert.py: AnthropicStreamConverter, which turns
-- the chunks of an OpenAI stream into the events of an Anthropic one. An event stands for the text
-- that `_sse_event` renders it as. `_block_open` and `_block_type` change together: `block` is the
-- type of the open block. A text is the list of its code points.
pub mod Tags
pub mod Protocol
pub mod Texts
pub mod Tests
pub use eucal_ai_backend.Router.Streams.{ToolCall, Choice, ◌>>◌, emit, skip, modify}
unfoldable pub use eucal_ai_backend.Router.Streams.{when}
use eucal_ai_backend.Router.Streams.{Text, Emits}
use Prim.Native.String.{◌++◌ as str_append}
use eucal_ai_backend.Prelude.{
  ℕ, ◌+◌, ◌-◌, String, Bool, true, false, not, Option, none, some, List, [], ◌∷◌, ◌++◌, leb, length,
  take, drop, is_nonempty, if◌then◌else◌,
}
use eucal_ai_backend.Prelude.Keyed.{Table, find, put, get_or, nat_eq, string_eq}
use eucal_ai_backend.Prelude.Text.{is_empty}
use eucal_ai_backend.Router.Anthropic.Tags.{partition, think_start, think_end, is_blank}

pub data BlockType : Type 0 where
  text thinking tool_use : BlockType

-- the events, with what the code puts into them; their constant fields are left out
pub data Event : Type 0 where
  message_start : (msg_id model : String) (input_tokens : ℕ) → Event
  ping : Event
  start_text start_thinking : (index : ℕ) → Event
  start_tool : (index : ℕ) (id name : String) → Event
  block_stop : (index : ℕ) → Event
  text_delta thinking_delta : (index : ℕ) → Text → Event
  input_json_delta : (index : ℕ) → Text → Event
  message_delta : (stop_reason : String) (output_tokens : ℕ) → Event
  message_stop : Event

pub data ThinkState : Type 0 where
  idle in_thinking done : ThinkState

-- `prompt_tokens` and `completion_tokens`, 0 where they are missing
pub record Usage : Type 0 where
  pub prompt_tokens : ℕ
  pub completion_tokens : ℕ

pub record Chunk : Type 0 where
  pub usage : Option Usage
  pub choice : Option Choice

pub record StreamConverter : Type 0 where
  pub model : String
  pub msg_id : String
  pub content_index : ℕ
  pub block : Option BlockType
  pub tool_index_map : Table ℕ ℕ
  pub started : Bool
  pub finished : Bool
  pub input_tokens : ℕ
  pub output_tokens : ℕ
  pub think_state : ThinkState
  pub think_buffer : Text

-- `__init__`
unfoldable pub new_converter : (model msg_id : String) → StreamConverter
new_converter model msg_id = record {
  model = model;
  msg_id = msg_id;
  content_index = 0;
  block = none;
  tool_index_map = [];
  started = false;
  finished = false;
  input_tokens = 0;
  output_tokens = 0;
  think_state = idle;
  think_buffer = [];
}

-- a method that returns events
abbrev pub Emit : Type 0
Emit = Emits StreamConverter Event

unfoldable pub openai_to_anthropic_stop : Table String String
openai_to_anthropic_stop =
    ("stop", "end_turn")
    ∷ ("length", "max_tokens")
    ∷ ("max_tokens", "max_tokens")
    ∷ ("tool_calls", "tool_use")
    ∷ ("content_filter", "end_turn")
    ∷ []

unfoldable pub emit_message_start : Option Usage → Emit
emit_message_start none s =
    (message_start s.msg_id s.model 0 ∷ ping ∷ [], record s { started = true })
emit_message_start (some hint) s = (
  message_start s.msg_id s.model hint.prompt_tokens ∷ ping ∷ [],
  record s { started = true; input_tokens = hint.prompt_tokens },
)

unfoldable pub emit_block_start_text : Emit
emit_block_start_text s = (start_text s.content_index ∷ [], record s { block = some text })

unfoldable pub emit_block_start_thinking : Emit
emit_block_start_thinking s =
    (start_thinking s.content_index ∷ [], record s { block = some thinking })

unfoldable pub emit_block_start_tool : (tool_id name : String) → Emit
emit_block_start_tool tool_id name s =
    (start_tool s.content_index tool_id name ∷ [], record s { block = some tool_use })

unfoldable pub emit_block_stop : Emit
emit_block_stop s = (
  block_stop s.content_index ∷ [],
  record s { block = none; content_index = s.content_index + 1 },
)

abbrev pub emit_text_delta : Text → Emit
emit_text_delta t s = (text_delta s.content_index t ∷ [], s)

abbrev pub emit_thinking_delta : Text → Emit
emit_thinking_delta t s = (thinking_delta s.content_index t ∷ [], s)

unfoldable pub emit_tool_json_delta : (index : ℕ) → Text → Emit
emit_tool_json_delta index partial s =
    (input_json_delta (get_or index s.content_index s.tool_index_map) partial ∷ [], s)

-- `if self._block_open: events += self._emit_block_stop()`
unfoldable pub close_block : Emit
close_block s = elim (s.block) [ none ↦ skip s | some kind ↦ emit_block_stop s ]

abbrev pub is_text : Option BlockType → Bool
is_text none = false
is_text (some text) = true
is_text (some thinking) = false
is_text (some tool_use) = false

-- `if not self._block_open or self._block_type != "text"`
unfoldable pub open_text_block : Emit
open_text_block s = if is_text s.block then skip s else (close_block >> emit_block_start_text) s

unfoldable pub emit_plain_text : Text → Emit
emit_plain_text t = do open_text_block; emit_text_delta t

unfoldable pub start_thinking_block : Emit
start_thinking_block = do close_block; emit_block_start_thinking

-- `_process_text`, a function for each state of its loop: from `idle` the loop goes on in
-- `thinking`, and from there in `done`, with what is left of the text.
unfoldable pub process_done : Text → Emit
process_done remaining = when (is_nonempty remaining) (emit_plain_text remaining)

unfoldable pub process_thinking : Text → Emit
process_thinking remaining =
    if is_nonempty remaining
    then (elim (partition think_end remaining) [
      | some (before, after) ↦ do
        when (is_nonempty before) (emit_thinking_delta before)
        emit_block_stop
        modify (λ s. record s { think_state = done })
        process_done after
      | none ↦ emit_thinking_delta remaining
    ])
    else skip

-- the buffer is not a part of a tag, but for its last six characters
unfoldable pub flush_safe : Text → Emit
flush_safe buffer = do
  modify (λ s. record s { think_buffer = drop (length buffer - 6) buffer })
  let safe = take (length buffer - 6) buffer
  when (is_nonempty safe) (emit_plain_text safe)

-- with the text that the buffer and the new text make
unfoldable pub process_idle : Text → Emit
process_idle buffer = elim (partition think_start buffer) [
  | some (before, after) ↦ do
    when (not (is_blank before)) (emit_plain_text before)
    modify (λ s. record s { think_state = in_thinking })
    start_thinking_block
    modify (λ s. record s { think_buffer = [] })
    process_thinking after
  | none ↦
      if leb 7 (length buffer)
      then flush_safe buffer
      else modify (λ s. record s { think_buffer = buffer })
]

unfoldable pub process_text : Text → Emit
process_text remaining s =
    if is_nonempty remaining
    then (elim (s.think_state) [
      | idle ↦ process_idle (s.think_buffer ++ remaining) s
      | in_thinking ↦ process_thinking remaining s
      | done ↦ process_done remaining s
    ])
    else skip s

unfoldable pub flush_think_buffer : Emit
flush_think_buffer s =
    if is_nonempty s.think_buffer
    then (elim (s.think_state) [
      | idle ↦ (emit_plain_text s.think_buffer >> modify (λ s'. record s' { think_buffer = [] })) s
      | in_thinking ↦ skip s
      | done ↦ skip s
    ])
    else skip s

unfoldable pub emit_end : (stop_reason : String) → Emit
emit_end stop_reason s =
    (message_delta stop_reason s.output_tokens ∷ message_stop ∷ [], record s { finished = true })

unfoldable pub emit_finish : (stop_reason : String) → Emit
emit_finish stop_reason = do flush_think_buffer; close_block; emit_end stop_reason

unfoldable pub note_usage : Option Usage → StreamConverter → StreamConverter
note_usage none s = s
note_usage (some usage) s = record s {
  input_tokens = usage.prompt_tokens;
  output_tokens = usage.completion_tokens;
}

-- `uuid n` is the identifier that is drawn for a tool call without one in the block `n`.
module _ (uuid : ℕ → String) where
  unfoldable pub start_tool_block : ToolCall → Emit
  start_tool_block call s =
      let id = if is_empty call.id then str_append "toolu_" (uuid s.content_index) else call.id in
      (emit_block_start_tool id call.name
          >> modify (λ s'. record s' {
            tool_index_map = put call.index s'.content_index s'.tool_index_map;
          }))
        s

  unfoldable pub open_tool_block : ToolCall → Emit
  open_tool_block call s = elim (find call.index s.tool_index_map) [
    | some block ↦ skip s
    | none ↦ (close_block >> start_tool_block call) s
  ]

  unfoldable pub process_tool_call : ToolCall → Emit
  process_tool_call call = do
    open_tool_block call
    when (is_nonempty call.arguments) (emit_tool_json_delta call.index call.arguments)

  unfoldable pub process_tool_calls : List ToolCall → Emit
  process_tool_calls [] = skip
  process_tool_calls (call ∷ calls) = do process_tool_call call; process_tool_calls calls

  unfoldable pub finish_choice : Option String → Emit
  finish_choice none = skip
  finish_choice (some finish_reason) =
      emit_finish (get_or finish_reason "end_turn" openai_to_anthropic_stop)

  unfoldable pub process_choice : Choice → Emit
  process_choice choice = do
    process_text choice.content
    process_tool_calls choice.tool_calls
    finish_choice choice.finish_reason

  -- what `convert_chunk` does after the message has started
  unfoldable pub process_chunk : Chunk → Emit
  process_chunk chunk = elim (chunk.choice) [
    | some choice ↦ process_choice choice
    | none ↦ elim (chunk.usage) [ none ↦ skip | some usage ↦ emit_finish "end_turn" ]
  ]

  unfoldable pub begin : Option Usage → Emit
  begin usage s = if s.started then skip s else emit_message_start usage s

  unfoldable pub convert_chunk : Chunk → Emit
  convert_chunk chunk s =
      if s.finished
      then skip s
      else (do modify (note_usage chunk.usage); begin chunk.usage; process_chunk chunk) s

  -- a stream of chunks
  unfoldable pub convert_all : List Chunk → Emit
  convert_all [] = skip
  convert_all (chunk ∷ chunks) = do convert_chunk chunk; convert_all chunks
