-- ===== src/Router/Anthropic/Tests.antt =====
-- services/router-service/src/services/anthropic_convert.py: streams, and the theorems at one.
use eucal_ai_backend.Prelude.{true, ℕ, ◌≡◌, refl, String, none, some, [], ◌∷◌, ◌++◌}
use eucal_ai_backend.Prelude.Keyed.{find, put, nat_eq, string_eq}
use eucal_ai_backend.Router.Anthropic.Tags.{Text, codes, drop_prefix, partition, is_blank}
use eucal_ai_backend.Router.Anthropic.{
  message_start, ping, start_text, start_thinking, start_tool, block_stop, text_delta,
  thinking_delta, input_json_delta, message_delta, message_stop, ToolCall, Chunk, new_converter,
  convert_chunk, convert_all, begin, note_usage, process_chunk, process_choice, process_text,
  process_idle, process_thinking, process_done, flush_safe, emit_plain_text, open_text_block,
  close_block, emit_block_stop, emit_block_start_text, emit_block_start_thinking,
  emit_block_start_tool, start_thinking_block, start_tool_block, open_tool_block,
  process_tool_calls, process_tool_call, emit_tool_json_delta, finish_choice, emit_finish,
  flush_think_buffer, emit_end, emit_message_start, when, openai_to_anthropic_stop,
}
use eucal_ai_backend.Router.Anthropic.Protocol.{any_calls_tools, read_all-convert_all}
use eucal_ai_backend.Router.Anthropic.Protocol.Client.{before_message, read, read_all, reader_of}
use eucal_ai_backend.Router.Anthropic.Texts.{texts-convert_all}
use eucal_ai_backend.Router.Anthropic.Texts.Cuts.{texts}
use eucal_ai_backend.Router.Anthropic.Texts.Held.{contents}

abbrev says : Text → Chunk
says t = record {
  usage = none;
  choice = some (record { content = t; tool_calls = []; finish_reason = none });
}

abbrev call : ToolCall
call = record { index = 0; id = "call_1"; name = "look"; arguments = codes "{}" }

abbrev calls : Chunk
calls = record {
  usage = none;
  choice = some (record { content = []; tool_calls = call ∷ []; finish_reason = none });
}

abbrev stops : Chunk
stops = record {
  usage = none;
  choice = some (record { content = codes "."; tool_calls = []; finish_reason = some "stop" });
}

abbrev uuid : ℕ → String
uuid n = "0"

read_all-convert_all_example :
    let (events, s) =
      convert_all uuid
        (says (codes "ah <think>hm") ∷ says (codes "</think>yes") ∷ stops ∷ [])
        (new_converter "m" "msg_1") in
    read_all true events before_message ≡ some (reader_of s)
unfolding any_calls_tools
read_all-convert_all_example =
    read_all-convert_all true uuid "m" "msg_1"
      (says (codes "ah <think>hm") ∷ says (codes "</think>yes") ∷ stops ∷ []) refl

-- a thought that goes on after a tool call is sent into the block of the tool
thought_in_tool :
    read_all true
      (convert_all uuid
        (says (codes "<think>hm") ∷ calls ∷ says (codes "yes") ∷ [])
        (new_converter "m" "msg_1")).0
      before_message
    ≡ none
unfolding convert_all convert_chunk begin note_usage process_chunk process_choice process_text
    process_idle process_thinking process_done flush_safe emit_plain_text open_text_block
    close_block emit_block_stop emit_block_start_text emit_block_start_thinking
    emit_block_start_tool start_thinking_block start_tool_block open_tool_block process_tool_calls
    process_tool_call emit_tool_json_delta emit_message_start new_converter when partition
    drop_prefix is_blank find put read_all read finish_choice
thought_in_tool = refl

texts-convert_all_example :
    texts
      (convert_all uuid
        ((says (codes "Hello wor") ∷ calls ∷ says (codes "ld") ∷ []) ++ stops ∷ [])
        (new_converter "m" "msg_1")).0
    ≡ contents (says (codes "Hello wor") ∷ calls ∷ says (codes "ld") ∷ []) ++ codes "."
unfolding partition drop_prefix contents
texts-convert_all_example =
    texts-convert_all uuid "m" "msg_1" (says (codes "Hello wor") ∷ calls ∷ says (codes "ld") ∷ [])
      stops (refl, (refl, (refl, tt))) refl refl

-- the last six characters that came before a tool call are sent after it
text_after_tool :
    (convert_all uuid
      (says (codes "Let me look.") ∷ calls ∷ stops ∷ [])
      (new_converter "m" "msg_1")).0
    ≡ message_start "msg_1" "m" 0
      ∷ ping
      ∷ start_text 0
      ∷ text_delta 0 (codes "Let me")
      ∷ block_stop 0
      ∷ start_tool 1 "call_1" "look"
      ∷ input_json_delta 1 (codes "{}")
      ∷ block_stop 1
      ∷ start_text 2
      ∷ text_delta 2 (codes " ")
      ∷ text_delta 2 (codes "look..")
      ∷ block_stop 2
      ∷ message_delta "end_turn" 0
      ∷ message_stop
      ∷ []
unfolding convert_all convert_chunk begin note_usage process_chunk process_choice process_text
    process_idle process_thinking process_done flush_safe emit_plain_text open_text_block
    close_block emit_block_stop emit_block_start_text emit_block_start_thinking
    emit_block_start_tool start_thinking_block start_tool_block open_tool_block process_tool_calls
    process_tool_call emit_tool_json_delta finish_choice emit_finish flush_think_buffer emit_end
    emit_message_start new_converter when partition drop_prefix openai_to_anthropic_stop is_blank
    find put
text_after_tool = refl

-- an end tag that is cut into two chunks is not found
cut_tag :
    (convert_all uuid
      (says (codes "<think>a</th") ∷ says (codes "ink>b") ∷ [])
      (new_converter "m" "msg_1")).0
    ≡ message_start "msg_1" "m" 0
      ∷ ping
      ∷ start_thinking 0
      ∷ thinking_delta 0 (codes "a</th")
      ∷ thinking_delta 0 (codes "ink>b")
      ∷ []
unfolding convert_all convert_chunk begin note_usage process_chunk process_choice process_text
    process_idle process_thinking process_done flush_safe emit_plain_text open_text_block
    close_block emit_block_stop emit_block_start_text emit_block_start_thinking
    emit_block_start_tool start_thinking_block start_tool_block open_tool_block process_tool_calls
    process_tool_call emit_tool_json_delta finish_choice emit_finish flush_think_buffer emit_end
    emit_message_start new_converter when partition drop_prefix openai_to_anthropic_stop is_blank
    find put
cut_tag = refl
