-- ===== src/Router/Anthropic/Protocol.antt =====
-- What a client reads off the events of AnthropicStreamConverter, and that they never break the
-- protocol.
pub mod Client
pub mod Rules
pub mod Blocks
pub mod Tools
use eucal_ai_backend.Prelude.{
  ℕ, ◌+◌, ◌≤◌, ◌<◌, ◌≡◌, refl, ◌⊎◌, inl, inr, ◌∙◌, String, Bool, true, false, Option, none, some,
  List, [], ◌∷◌, ◌++◌, arith, ◌&&◌, ◌||◌, ltb, leb, ◌==◌, if◌then◌else◌, All, All-map, Bool-cases,
  Option-cases, is_nonempty, length,
}
use eucal_ai_backend.Prelude.Keyed.{Table, find, put, nat_eq, find-put_self}
use eucal_ai_backend.Router.Anthropic.Tags.{Text, partition, think_start, think_end}
use eucal_ai_backend.Router.Anthropic.{
  BlockType, text, thinking, tool_use, Event, message_start, ping, start_text, start_thinking,
  start_tool, block_stop, text_delta, thinking_delta, input_json_delta, message_delta, message_stop,
  ThinkState, idle, in_thinking, done, Usage, ToolCall, Chunk, StreamConverter, new_converter, Emit,
  ◌>>◌, skip, modify, when, emit_message_start, emit_block_start_text, emit_block_start_thinking,
  emit_block_start_tool, emit_block_stop, emit_text_delta, emit_thinking_delta,
  emit_tool_json_delta, close_block, open_text_block, emit_plain_text, start_thinking_block,
  process_done, process_thinking, flush_safe, process_idle, process_text, flush_think_buffer,
  emit_end, emit_finish, note_usage, start_tool_block, open_tool_block, process_tool_call,
  process_tool_calls, finish_choice, process_choice, process_chunk, begin, convert_chunk,
  convert_all,
}
use eucal_ai_backend.Router.Anthropic.Protocol.Client.{
  Reader, before_message, between, inside, closing, ended, read, read_all, live_reader, reader_of,
  values, read_all-append,
}
use eucal_ai_backend.Router.Anthropic.Protocol.Rules.{
  Takes, Takes->>, Takes-skip, Takes-when, Takes-mono, is_open, IsRunning, IsOpen, IsClosed,
  is_thinking, IsQuiet, IsLive, quiet-IsLive,
}
use eucal_ai_backend.Router.Anthropic.Protocol.Blocks.{
  emit_block_stop-Takes, close_block-Takes, emit_block_start_text-Takes,
  emit_block_start_thinking-Takes, IsInText, open_text_block-Takes, emit_text_delta-Takes,
  emit_thinking_delta-Takes, emit_plain_text-Takes, start_thinking_block-Takes, process_done-Takes,
  end_thought-Takes, begin_thought-Takes, keep_buffer, process_thinking-Takes, flush_safe-Takes,
  IsRunning-open, process_idle-Takes, process_text-Takes,
}
use eucal_ai_backend.Router.Anthropic.Protocol.Tools.{
  is_some, HasTool, start_tool_block-Takes, open_tool_block-Takes, emit_tool_json_delta-Takes,
  process_tool_call-Takes, process_tool_calls-Takes, flush_think_buffer-Takes,
}

-- before the first chunk
record IsFresh (s : StreamConverter) : Type 0 where
  unstarted : s.started ≡ false
  unfinished : s.finished ≡ false
  no_block : s.block ≡ none
  first : s.content_index ≡ 0
  quiet : is_thinking s.think_state ≡ false
  unmapped : s.tool_index_map ≡ []

abbrev IsFinished : StreamConverter → Type 0
IsFinished s = s.finished ≡ true

-- a chunk that has tool calls
abbrev pub calls_tools : Chunk → Bool
calls_tools chunk = elim (chunk.choice) [
  | none ↦ false
  | some choice ↦ is_nonempty choice.tool_calls
]

unfoldable pub any_calls_tools : List Chunk → Bool
any_calls_tools [] = false
any_calls_tools (chunk ∷ chunks) = calls_tools chunk || any_calls_tools chunks

-- between two calls of `convert_chunk`
abbrev IsValid : (strict : Bool) → StreamConverter → Type 0
IsValid strict s = IsFinished s ⊎ IsLive strict s ⊎ IsFresh s

emit_end-Takes :
    {strict : Bool} (reason : String) → Takes strict IsClosed IsFinished (emit_end reason)
unfolding emit_end read_all read
emit_end-Takes reason = record { apply = λ s h. ground arith }

emit_finish-Takes :
    {strict : Bool} (reason : String) → Takes strict (IsLive strict) IsFinished (emit_finish reason)
unfolding emit_finish
emit_finish-Takes reason =
    Takes-mono (λ s h. h.running) (λ s h. h)
      (Takes->> flush_think_buffer-Takes (Takes->> close_block-Takes (emit_end-Takes reason)))

finish_choice-Takes :
    {strict : Bool} (uuid : ℕ → String) (reason : Option String)
    → Takes strict (IsLive strict) (IsValid strict) (finish_choice uuid reason)
unfolding finish_choice
finish_choice-Takes uuid none = Takes-skip (λ s h. inr (inl h))
finish_choice-Takes uuid (some reason) = Takes-mono (λ s h. h) (λ s h. inl h) (emit_finish-Takes _)

process_chunk-Takes :
    (strict : Bool) (uuid : ℕ → String) (chunk : Chunk)
    → strict && calls_tools chunk ≡ false
    → Takes strict (IsLive strict) (IsValid strict) (process_chunk uuid chunk)
unfolding process_chunk process_choice
process_chunk-Takes strict uuid chunk none_are = elim (Option-cases (chunk.choice)) [
  | inr (choice, there) ↦
      rw (there, process_chunk)
        (Takes->> (process_text-Takes choice.content) (
          Takes->> (process_tool_calls-Takes strict uuid choice.tool_calls (ground arith))
            (finish_choice-Takes uuid choice.finish_reason)))
  | inl missing ↦
      rw (missing, process_chunk)
        (elim (Option-cases (chunk.usage)) [
          | inl nothing ↦ rw (nothing, process_chunk) (Takes-skip (λ s h. inr (inl h)))
          | inr (usage, given) ↦
              rw (given, process_chunk)
                (Takes-mono (λ s h. h) (λ s h. inl h) (emit_finish-Takes "end_turn"))
        ])
]

note_usage-IsLive :
    {strict : Bool} (usage : Option Usage)
    → Takes strict
        (λ s. IsLive strict s ⊎ IsFresh s)
        (λ s. IsLive strict s ⊎ IsFresh s)
        (modify (note_usage usage))
unfolding note_usage read_all
note_usage-IsLive none = record { apply = λ s h. (refl, h) }
note_usage-IsLive (some usage) = record {
  apply = λ s h. elim h [
    | inl live ↦ (ground arith, inl (ground arith))
    | inr fresh ↦ (ground arith, inr (ground arith))
  ];
}

begin-Takes :
    {strict : Bool} (uuid : ℕ → String) (usage : Option Usage)
    → Takes strict (λ s. IsLive strict s ⊎ IsFresh s) (IsLive strict) (begin uuid usage)
unfolding begin emit_message_start read_all read values
begin-Takes uuid usage = record {
  apply = λ s h. elim h [ inl live ↦ ground arith | inr fresh ↦ ground arith ];
}

convert_chunk-Takes :
    (strict : Bool) (uuid : ℕ → String) (chunk : Chunk)
    → strict && calls_tools chunk ≡ false
    → Takes strict (IsValid strict) (IsValid strict) (convert_chunk uuid chunk)
unfolding convert_chunk read_all
convert_chunk-Takes strict uuid chunk none_are =
    let convert =
      Takes->> (note_usage-IsLive chunk.usage) (
        Takes->> (begin-Takes uuid chunk.usage) (process_chunk-Takes strict uuid chunk none_are)) in
    record {
      apply = λ s h. elim h [
        | inl over ↦ ground arith
        | inr (inl live) ↦ let r = convert.apply s (inl live) in ground arith
        | inr (inr fresh) ↦ let r = convert.apply s (inr fresh) in ground arith
      ];
    }

convert_all-Takes :
    (strict : Bool) (uuid : ℕ → String) (chunks : List Chunk)
    → strict && any_calls_tools chunks ≡ false
    → Takes strict (IsValid strict) (IsValid strict) (convert_all uuid chunks)
unfolding convert_all any_calls_tools
convert_all-Takes strict uuid [] none_are = Takes-skip (λ s h. h)
convert_all-Takes strict uuid (chunk ∷ chunks) none_are =
    Takes->> (convert_chunk-Takes strict uuid chunk (ground arith))
      (convert_all-Takes strict uuid chunks (ground arith))

-- Whatever chunks without tool calls come, a client that is strict never meets a breach of the
-- protocol: the message starts once and first, its blocks are numbered from 0 and opened and closed
-- one after the other, every text goes into an open block of texts and every thought into an open
-- block of thoughts, and nothing follows the end. With tool calls this holds for a client that
-- forgives two breaches: a thought in an open block of another type, and the input of a tool in a
-- block that was opened for a tool and is closed. Either client has read the end of the message
-- exactly if the converter has finished.
pub read_all-convert_all :
    (strict : Bool) (uuid : ℕ → String) (model msg_id : String) (chunks : List Chunk)
    → strict && any_calls_tools chunks ≡ false
    → let (events, s) = convert_all uuid chunks (new_converter model msg_id) in
      read_all strict events before_message ≡ some (reader_of s)
unfolding new_converter
read_all-convert_all strict uuid model msg_id chunks none_are =
    let fresh : IsFresh (new_converter model msg_id) = record {
      unstarted = refl;
      unfinished = refl;
      no_block = refl;
      first = refl;
      quiet = refl;
      unmapped = refl;
    } in
    ((convert_all-Takes strict uuid chunks none_are).apply (new_converter model msg_id)
      (inr (inr fresh))).0
