-- ===== src/Router/Responses.antt =====
-- services/router-service/src/services/responses_convert.py: ResponsesStreamConverter, which turns
-- the chunks of an OpenAI stream into the events of a stream of the Responses API, and what
-- controllers/responses.py emits when the stream is over. An event stands for the text that
-- `_sse_event` renders it as, without its constant fields; `_created_at` is left out.
pub mod Client
pub mod Rules
pub mod Events
pub mod Ends
pub mod Chunks
pub mod Completion
mod Tests
use Prim.Native.String.{◌++◌ as str_append}
pub use eucal_ai_backend.Router.Streams.{Text, ToolCall, Choice, ◌>>◌, emit, skip, modify}
unfoldable pub use eucal_ai_backend.Router.Streams.{when}
use eucal_ai_backend.Router.Streams.{Emits}
use eucal_ai_backend.Prelude.{
  ℕ, ◌+◌, String, Bool, true, false, not, ◌&&◌, Option, none, some, List, [], ◌∷◌, ◌++◌, leb,
  is_nonempty, if◌then◌else◌,
}
use eucal_ai_backend.Prelude.Keyed.{Table, find, put, mem, nat_eq, string_eq}
use eucal_ai_backend.Prelude.Text.{is_empty}

pub record Usage : Type 0 where
  pub input_tokens : ℕ
  pub output_tokens : ℕ
  pub total_tokens : ℕ

-- `none` for a usage that is missing or empty, and for no choices
pub record Chunk : Type 0 where
  pub usage : Option Usage
  pub choice : Option Choice

pub record Call : Type 0 where
  pub id : String
  pub call_id : String
  pub name : String
  pub arguments : Text

-- an entry of `_tool_calls`
pub record OpenCall : Type 0 where
  pub call : Call
  pub output_index : ℕ

-- what an output item has in it
pub data Item : Type 0 where
  message : Text → Item
  function_call : Call → Item

pub data Status : Type 0 where
  completed incomplete : Status

pub data Event : Type 0 where
  response_created : (resp_id model : String) → Event
  message_added part_added : (item_id : String) (output_index : ℕ) → Event
  text_delta text_done part_done message_done : (item_id : String) (output_index : ℕ) → Text → Event
  call_added : (output_index : ℕ) → Call → Event
  arguments_delta : (item_id call_id : String) (output_index : ℕ) → Text → Event
  arguments_done : (item_id : String) (output_index : ℕ) → Text → Event
  call_done : (output_index : ℕ) → Call → Event
  response_completed : (resp_id model : String) → Status → (output : List Item) → Usage → Event

pub record ResponsesStreamConverter : Type 0 where
  pub model : String
  pub resp_id : String
  pub msg_id : String
  pub started : Bool
  pub text_started : Bool
  pub text_content : Text
  pub tool_calls : Table ℕ OpenCall
  -- a set: the order is that of insertion
  pub tool_started : List ℕ
  pub finished : Bool
  pub pending_finish : Bool
  pub finish_reason : Option String
  pub usage : Usage

-- `__init__`
unfoldable pub new_converter : (model resp_id msg_id : String) → ResponsesStreamConverter
new_converter model resp_id msg_id = record {
  model = model;
  resp_id = resp_id;
  msg_id = msg_id;
  started = false;
  text_started = false;
  text_content = [];
  tool_calls = [];
  tool_started = [];
  finished = false;
  pending_finish = false;
  finish_reason = none;
  usage = record { input_tokens = 0; output_tokens = 0; total_tokens = 0 };
}

-- a method that returns events
abbrev pub Emit : Type 0
Emit = Emits ResponsesStreamConverter Event

unfoldable pub emit_created : Emit
emit_created s = (response_created s.resp_id s.model ∷ [], record s { started = true })

unfoldable pub emit_output_item_added_message : Emit
emit_output_item_added_message s =
    (message_added s.msg_id 0 ∷ part_added s.msg_id 0 ∷ [], record s { text_started = true })

unfoldable pub emit_text_delta : Text → Emit
emit_text_delta text s =
    (text_delta s.msg_id 0 text ∷ [], record s { text_content = s.text_content ++ text })

unfoldable pub emit_text_done : Emit
emit_text_done s = (
  text_done s.msg_id 0 s.text_content
      ∷ part_done s.msg_id 0 s.text_content
      ∷ message_done s.msg_id 0 s.text_content
      ∷ [],
  s,
)

abbrev pub offset : ResponsesStreamConverter → ℕ
offset s = if s.text_started then 1 else 0

-- the entry that a missing one is read as
abbrev pub no_call : OpenCall
no_call = record {
  call = record { id = ""; call_id = ""; name = ""; arguments = [] };
  output_index = 0;
}

abbrev pub with_arguments : Text → Call → Call
with_arguments arguments call = record call { arguments = arguments }

-- `tc["arguments"] = tc.get("arguments", "") + delta`
abbrev pub more_arguments : Text → OpenCall → OpenCall
more_arguments delta tc = record tc { call = with_arguments (tc.call.arguments ++ delta) tc.call }

unfoldable pub add_arguments : (tc_index : ℕ) → Text → OpenCall → Emit
add_arguments tc_index delta tc s = (
  arguments_delta tc.call.id tc.call.call_id tc.output_index delta ∷ [],
  record s { tool_calls = put tc_index (more_arguments delta tc) s.tool_calls },
)

unfoldable pub emit_tool_args_delta : (tc_index : ℕ) → Text → Emit
emit_tool_args_delta tc_index delta s = elim (find tc_index s.tool_calls) [
  | none ↦ (arguments_delta "" "" 0 delta ∷ [], s)
  | some tc ↦ add_arguments tc_index delta tc s
]

-- with the entry of the call
unfoldable pub call_done_events : OpenCall → List Event
call_done_events tc =
    arguments_done tc.call.id tc.output_index tc.call.arguments
    ∷ call_done tc.output_index tc.call
    ∷ []

unfoldable pub emit_tool_done : (tc_index : ℕ) → Emit
emit_tool_done tc_index s = elim (find tc_index s.tool_calls) [
  | none ↦ (call_done_events no_call, s)
  | some tc ↦ (call_done_events tc, s)
]

unfoldable pub emit_tools_done : List ℕ → Emit
emit_tools_done [] = skip
emit_tools_done (tc_index ∷ indices) = do emit_tool_done tc_index; emit_tools_done indices

abbrev pub calls_of : Table ℕ OpenCall → List Item
calls_of [] = []
calls_of ((tc_index, tc) ∷ tool_calls) = function_call tc.call ∷ calls_of tool_calls

-- `output` before the test whether it is empty
abbrev pub output_of : ResponsesStreamConverter → List Item
output_of s = (if s.text_started then message s.text_content ∷ [] else []) ++ calls_of s.tool_calls

abbrev pub or_message : Text → List Item → List Item
or_message text output = if is_nonempty output then output else message text ∷ []

unfoldable pub status_of : (finish_reason : Option String) → Status
status_of none = completed
status_of (some finish_reason) =
    if string_eq.beq finish_reason "length" then incomplete else completed

unfoldable pub emit_completed : Emit
emit_completed s = (
  response_completed s.resp_id s.model (status_of s.finish_reason)
        (or_message s.text_content (output_of s)) s.usage
      ∷ [],
  record s { finished = true },
)

-- `sorted`
unfoldable pub insert_index : ℕ → List ℕ → List ℕ
insert_index i [] = i ∷ []
insert_index i (j ∷ js) = if leb i j then i ∷ j ∷ js else j ∷ insert_index i js

unfoldable pub sorted : List ℕ → List ℕ
sorted [] = []
sorted (i ∷ is) = insert_index i (sorted is)

unfoldable pub note_usage : Option Usage → ResponsesStreamConverter → ResponsesStreamConverter
note_usage none s = s
note_usage (some usage) s = record s { usage = usage }

-- `if self._text_started: events += self._emit_text_done()`
unfoldable pub end_text : Emit
end_text s = when s.text_started emit_text_done s

unfoldable pub begin : Emit
begin s = if s.started then skip s else emit_created s

unfoldable pub process_text : Text → Emit
process_text text s =
    if is_nonempty text
    then (when (not s.text_started) emit_output_item_added_message >> emit_text_delta text) s
    else skip s

unfoldable pub finish_choice : Option String → Emit
finish_choice none = skip
finish_choice (some finish_reason) = do
  modify (λ s. record s { finish_reason = some finish_reason })
  end_text
  (λ s. emit_tools_done (sorted s.tool_started) s)
  modify (λ s. record s { pending_finish = true })

-- what the controller emits when the stream of chunks is over
unfoldable pub end_stream : Emit
end_stream s =
    if s.finished
    then skip s
    else if s.pending_finish
    then emit_completed s
    else (end_text >> emit_completed) s

-- `uuid` gives the two identifiers that are drawn for the call of an index, and `set_order` the
-- order in which a set is gone through.
module _ (uuid : (drawn_for : String) → ℕ → String) (set_order : List ℕ → List ℕ) where
  abbrev pub added_call :
      (tc_index : ℕ) → (call_id name : String) → ResponsesStreamConverter → OpenCall
  added_call tc_index call_id name s = record {
    call = record {
      id = str_append "fc_" (uuid "fc" tc_index);
      call_id = call_id;
      name = name;
      arguments = [];
    };
    output_index = offset s + tc_index;
  }

  unfoldable pub emit_tool_added : (tc_index : ℕ) → (call_id name : String) → Emit
  emit_tool_added tc_index call_id name s =
      let tc = added_call tc_index call_id name s in
      (
        call_added tc.output_index tc.call ∷ [],
        record s {
          tool_started = tc_index ∷ s.tool_started;
          tool_calls = put tc_index tc s.tool_calls;
        },
      )

  abbrev pub call_id_of : ToolCall → String
  call_id_of tc = if is_empty tc.id then str_append "call_" (uuid "call" tc.index) else tc.id

  unfoldable pub open_call : ToolCall → Emit
  open_call tc s =
      if mem tc.index s.tool_started
      then skip s
      else emit_tool_added tc.index (call_id_of tc) tc.name s

  unfoldable pub process_tool_call : ToolCall → Emit
  process_tool_call tc = do
    open_call tc
    when (is_nonempty tc.arguments) (emit_tool_args_delta tc.index tc.arguments)

  unfoldable pub process_tool_calls : List ToolCall → Emit
  process_tool_calls [] = skip
  process_tool_calls (tc ∷ tcs) = do process_tool_call tc; process_tool_calls tcs

  unfoldable pub process_choice : Choice → Emit
  process_choice choice = do
    process_text choice.content
    process_tool_calls choice.tool_calls
    finish_choice choice.finish_reason

  -- `if not choices:`
  unfoldable pub process_no_choice : Option Usage → Emit
  process_no_choice usage s =
      if s.pending_finish
      then (modify (λ s'. record s' { pending_finish = false }) >> emit_completed) s
      else (elim usage [
        | none ↦ skip s
        | some u ↦
            if s.started && not s.finished
            then ((end_text >> emit_tools_done (set_order s.tool_started)) >> emit_completed) s
            else skip s
      ])

  unfoldable pub process_choices : Option Choice → Option Usage → Emit
  process_choices none usage = process_no_choice usage
  process_choices (some choice) usage = process_choice choice

  -- `convert_chunk` while the response is not completed
  unfoldable pub convert_open : Chunk → Emit
  convert_open chunk = do
    modify (note_usage chunk.usage)
    begin
    process_choices chunk.choice chunk.usage

  unfoldable pub convert_chunk : Chunk → Emit
  convert_chunk chunk s = if s.finished then skip s else convert_open chunk s

  -- what the controller emits for a stream of chunks
  unfoldable pub stream_responses : List Chunk → Emit
  stream_responses [] = end_stream
  stream_responses (chunk ∷ chunks) = do convert_chunk chunk; stream_responses chunks
