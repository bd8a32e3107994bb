-- ===== src/Router/Anthropic/Texts.antt =====
-- services/router-service/src/services/anthropic_convert.py: the text that
-- AnthropicStreamConverter passes on, however it is cut into chunks.
pub mod Cuts
pub mod Blocks
pub mod Held
pub mod Chunks
use mathlib.Core.List.{append_assoc, append-nil}
use eucal_ai_backend.Prelude.{
  ℕ, ◌+◌, ◌-◌, ◌≡◌, refl, sym, ap, ◌∙◌, String, Bool, true, false, Option, none, some, List, [],
  ◌∷◌, ◌++◌, inl, inr, arith, leb, ◌==◌, if◌then◌else◌, All, Bool-cases, Option-cases, is_nonempty,
  length, take, drop, take-append-drop,
}
use eucal_ai_backend.Prelude.Keyed.{find, put, get_or, nat_eq}
use eucal_ai_backend.Router.Anthropic.Tags.{Text, drop_prefix, partition, think_start}
use eucal_ai_backend.Router.Anthropic.{
  BlockType, Event, message_start, ping, start_text, start_thinking, start_tool, block_stop,
  text_delta, thinking_delta, input_json_delta, message_delta, message_stop, idle, in_thinking,
  done, Usage, ToolCall, Choice, Chunk, StreamConverter, new_converter, Emit, ◌>>◌, skip, modify,
  when, emit_message_start, emit_block_start_text, emit_block_start_tool, emit_block_stop,
  emit_text_delta, emit_tool_json_delta, close_block, open_text_block, emit_plain_text, flush_safe,
  process_idle, process_text, flush_think_buffer, emit_end, emit_finish, note_usage,
  start_tool_block, open_tool_block, process_tool_call, process_tool_calls, finish_choice,
  process_choice, process_chunk, begin, convert_chunk, convert_all,
}
use eucal_ai_backend.Router.Anthropic.Texts.Cuts.{
  texts, texts-append, drop_prefix-append, partition_suffix, partition_prefix,
}
use eucal_ai_backend.Router.Anthropic.Texts.Blocks.{
  Gives, Gives->>, Gives-skip, close_block-Gives, open_text_block-Gives, emit_plain_text-Gives,
  open_tool_block-Gives, process_tool_call-Gives, process_tool_calls-Gives, begin-Gives,
  flush_safe_gives, process_text_gives,
}
use eucal_ai_backend.Router.Anthropic.Texts.Held.{
  empty_of, Flushes, flush_think_buffer-Flushes, emit_end_gives, emit_finish-Flushes, content_of,
  contents, is_given, ends,
}
use eucal_ai_backend.Router.Anthropic.Texts.Chunks.{
  Passes, Finishes, Gives->>-Flushes, Gives->>-Passes, Passes->>-Gives, Gives->>-Finishes,
  Passes->>-Flushes, process_text-Passes, skip-Passes, Flushes-Finishes,
}

module _ (uuid : ℕ → String) where
  finish_choice-Gives :
      (reason : Option String) → is_given reason ≡ false → Gives [] (finish_choice uuid reason)
  unfolding finish_choice
  finish_choice-Gives none h = Gives-skip
  finish_choice-Gives (some reason) h = cc

  finish_choice-Flushes :
      (reason : Option String) → is_given reason ≡ true → Flushes (finish_choice uuid reason)
  unfolding finish_choice
  finish_choice-Flushes none h = cc
  finish_choice-Flushes (some reason) h = emit_finish-Flushes _

  process_choice-Passes :
      (choice : Choice)
      → is_given choice.finish_reason ≡ false
      → Passes choice.content (process_choice uuid choice)
  unfolding process_choice
  process_choice-Passes choice more = Passes->>-Gives (process_text-Passes choice.content) (
      Gives->> (process_tool_calls-Gives uuid choice.tool_calls)
        (finish_choice-Gives choice.finish_reason more))

  process_choice-Finishes :
      (choice : Choice)
      → is_given choice.finish_reason ≡ true
      → Finishes choice.content (process_choice uuid choice)
  unfolding process_choice
  process_choice-Finishes choice last = Passes->>-Flushes (process_text-Passes choice.content) (
      Gives->>-Flushes (process_tool_calls-Gives uuid choice.tool_calls)
        (finish_choice-Flushes choice.finish_reason last))

  process_chunk-Passes :
      (chunk : Chunk) → ends chunk ≡ false → Passes (content_of chunk) (process_chunk uuid chunk)
  unfolding process_chunk
  process_chunk-Passes chunk more = elim (Option-cases (chunk.choice)) [
    | inr (choice, there) ↦
        rw (there, process_chunk, content_of) (process_choice-Passes choice (ground arith))
    | inl missing ↦
        let unused : chunk.usage ≡ none = ground arith in
        rw (missing, unused, process_chunk, content_of) skip-Passes
  ]

  process_chunk-Finishes :
      (chunk : Chunk) → ends chunk ≡ true → Finishes (content_of chunk) (process_chunk uuid chunk)
  unfolding process_chunk
  process_chunk-Finishes chunk last = elim (Option-cases (chunk.choice)) [
    | inr (choice, there) ↦
        rw (there, process_chunk, content_of) (process_choice-Finishes choice (ground arith))
    | inl missing ↦ elim (Option-cases (chunk.usage)) [
      | inl unused ↦ ground arith
      | inr (usage, given) ↦
          rw (missing, given, process_chunk, content_of)
            (Flushes-Finishes (emit_finish "end_turn") (emit_finish-Flushes "end_turn"))
    ]
  ]

  convert_chunk_passes :
      (chunk : Chunk) (s : StreamConverter)
      → s.think_state ≡ idle
      → s.finished ≡ false
      → ends chunk ≡ false
      → partition think_start (s.think_buffer ++ content_of chunk) ≡ none
      → let (events, s') = convert_chunk uuid chunk s in
        (texts events ++ s'.think_buffer ≡ s.think_buffer ++ content_of chunk)
        × (s'.think_state ≡ idle)
        × (s'.finished ≡ false)
  unfolding convert_chunk
  convert_chunk_passes chunk s quiet on more plain =
      let all = Gives->>-Passes (begin-Gives uuid chunk.usage) (process_chunk-Passes chunk more) in
      let h = all.apply s quiet plain in ground arith

  convert_chunk_finishes :
      (chunk : Chunk) (s : StreamConverter)
      → s.think_state ≡ idle
      → s.finished ≡ false
      → ends chunk ≡ true
      → partition think_start (s.think_buffer ++ content_of chunk) ≡ none
      → texts (convert_chunk uuid chunk s).0 ≡ s.think_buffer ++ content_of chunk
  unfolding convert_chunk
  convert_chunk_finishes chunk s quiet on last plain =
      let all =
        Gives->>-Finishes (begin-Gives uuid chunk.usage) (process_chunk-Finishes chunk last) in
      let h = all.apply s quiet plain in ground arith

  texts-convert_all' :
      (chunks : List Chunk) (last : Chunk) (s : StreamConverter)
      → s.think_state ≡ idle
      → s.finished ≡ false
      → All (λ chunk. ends chunk ≡ false) chunks
      → ends last ≡ true
      → partition think_start (s.think_buffer ++ (contents chunks ++ content_of last)) ≡ none
      → texts (convert_all uuid (chunks ++ last ∷ []) s).0
        ≡ s.think_buffer ++ (contents chunks ++ content_of last)
  unfolding convert_all contents
  texts-convert_all' [] last s quiet on h end plain = ground (
    arith,
    convert_chunk_finishes last s quiet on end plain,
    append-nil (convert_chunk uuid last s).0,
  )
  texts-convert_all' (chunk ∷ chunks) last s quiet on (more, h) end plain =
      let (events, s') = convert_chunk uuid chunk s in
      let rest = contents chunks ++ content_of last in
      let regroup = append_assoc (content_of chunk) (contents chunks) (content_of last) in
      let whole = append_assoc s.think_buffer (content_of chunk) rest in
      let plain' : partition think_start ((s.think_buffer ++ content_of chunk) ++ rest) ≡ none =
        ground arith in
      let here =
        convert_chunk_passes chunk s quiet on more
          (partition_prefix think_start (s.think_buffer ++ content_of chunk) rest plain') in
      let split = append_assoc (texts events) s'.think_buffer rest in
      let plain'' : partition think_start (texts events ++ (s'.think_buffer ++ rest)) ≡ none =
        ground arith in
      let later =
        texts-convert_all' chunks last s' here.1 here.2 h end
          (partition_suffix think_start (texts events) (s'.think_buffer ++ rest) plain'') in
      texts-append events (convert_all uuid (chunks ++ last ∷ []) s').0 ∙ ground arith

-- No text is lost or doubled: where the whole text of a stream has no "<think>", the texts that
-- the converter emits for it, put together, are the texts of its chunks in their order, however
-- the text is cut into chunks and whatever tool calls come between, once the stream ends. (The
-- stream ends with its first chunk that has a reason to finish, or a usage without a choice.)
pub texts-convert_all :
    (uuid : ℕ → String) (model msg_id : String) (chunks : List Chunk) (last : Chunk)
    → All (λ chunk. ends chunk ≡ false) chunks
    → ends last ≡ true
    → partition think_start (contents chunks ++ content_of last) ≡ none
    → texts (convert_all uuid (chunks ++ last ∷ []) (new_converter model msg_id)).0
      ≡ contents chunks ++ content_of last
unfolding new_converter
texts-convert_all uuid model msg_id chunks last h end plain =
    texts-convert_all' uuid chunks last (new_converter model msg_id) refl refl h end plain
