-- ===== src/Router/Anthropic/Texts/Blocks.antt =====
-- services/router-service/src/services/anthropic_convert.py: what the methods that
-- do not look for tags add to the text.
use mathlib.Core.List.{append-nil}
use eucal_ai_backend.Prelude.{
  ℕ, ◌-◌, ◌≡◌, refl, sym, ◌∙◌, String, Option, none, some, List, [], ◌∷◌, ◌++◌, inl, inr, arith,
  Bool-cases, is_nonempty, length, take, drop, take-append-drop,
}
use eucal_ai_backend.Prelude.Keyed.{get_or, nat_eq}
use eucal_ai_backend.Router.Anthropic.Tags.{Text, partition, think_start}
use eucal_ai_backend.Router.Anthropic.{
  input_json_delta, idle, Usage, ToolCall, StreamConverter, Emit, ◌>>◌, skip, modify, when,
  emit_message_start, emit_block_start_text, emit_block_start_tool, emit_block_stop,
  emit_text_delta, emit_tool_json_delta, close_block, open_text_block, emit_plain_text, flush_safe,
  process_idle, process_text, note_usage, start_tool_block, open_tool_block, process_tool_call,
  process_tool_calls, begin,
}
use eucal_ai_backend.Router.Anthropic.Texts.Cuts.{texts, texts-append}

-- The method emits this text, and leaves alone the text that is held back.
pub record Gives (t : Text) (m : Emit) : Type 0 where
  pub apply :
      (s : StreamConverter)
      → (texts (m s).0 ≡ t)
        × ((m s).1.think_buffer ≡ s.think_buffer)
        × ((m s).1.think_state ≡ s.think_state)
        × ((m s).1.finished ≡ s.finished)

pub Gives->> : {t u : Text} {m k : Emit} → Gives t m → Gives u k → Gives (t ++ u) (m >> k)
Gives->> {m = m} {k} hm hk = record {
  apply = λ s.
      let h = hm.apply s in
      let h' = hk.apply (m s).1 in (texts-append (m s).0 (k (m s).1).0 ∙ cc, cc, cc, cc);
}

pub Gives-skip : Gives [] skip
unfolding texts
Gives-skip = record { apply = λ s. (refl, refl, refl, refl) }

pub close_block-Gives : Gives [] close_block
unfolding close_block emit_block_stop texts
close_block-Gives = record { apply = λ s. ground arith }

pub open_text_block-Gives : Gives [] open_text_block
unfolding open_text_block close_block emit_block_stop emit_block_start_text texts
open_text_block-Gives = record { apply = λ s. ground arith }

pub emit_plain_text-Gives : (t : Text) → Gives t (emit_plain_text t)
unfolding emit_plain_text texts
emit_plain_text-Gives t =
    Gives->> {k = emit_text_delta t} open_text_block-Gives
      (record { apply = λ s. (append-nil t, refl, refl, refl) })

module _ (uuid : ℕ → String) where
  pub open_tool_block-Gives : (call : ToolCall) → Gives [] (open_tool_block uuid call)
  unfolding open_tool_block start_tool_block emit_block_start_tool close_block emit_block_stop texts
  open_tool_block-Gives call = record { apply = λ s. ground arith }

  pub process_tool_call-Gives : (call : ToolCall) → Gives [] (process_tool_call uuid call)
  unfolding process_tool_call emit_tool_json_delta when texts
  process_tool_call-Gives call = record {
    apply = λ s.
        let h = (open_tool_block-Gives call).apply s in
        let s' = (open_tool_block uuid call s).1 in
        let pieces = texts-append (open_tool_block uuid call s).0 in
        elim (Bool-cases (is_nonempty call.arguments)) [
          | inl more ↦ ground (
            arith,
            pieces (
                input_json_delta (get_or call.index s'.content_index s'.tool_index_map)
                  call.arguments
                ∷ []),
          )
          | inr nothing ↦ ground (arith, pieces [])
        ];
  }

  pub process_tool_calls-Gives : (calls : List ToolCall) → Gives [] (process_tool_calls uuid calls)
  unfolding process_tool_calls
  process_tool_calls-Gives [] = Gives-skip
  process_tool_calls-Gives (call ∷ calls) =
      Gives->> (process_tool_call-Gives call) (process_tool_calls-Gives calls)

  pub begin-Gives :
      (usage : Option Usage) → Gives [] (do modify (note_usage usage); begin uuid usage)
  unfolding begin note_usage emit_message_start texts
  begin-Gives none = record { apply = λ s. ground arith }
  begin-Gives (some usage) = record { apply = λ s. ground arith }

pub flush_safe_gives :
    (t : Text) (s : StreamConverter)
    → let (events, s') = flush_safe t s in
      (texts events ++ s'.think_buffer ≡ t)
      × (s'.think_state ≡ s.think_state)
      × (s'.finished ≡ s.finished)
unfolding flush_safe when texts
flush_safe_gives t s =
    let safe = take (length t - 6) t in
    let rest = drop (length t - 6) t in
    let whole = take-append-drop (length t - 6) t in
    let plain = (emit_plain_text-Gives safe).apply (record s { think_buffer = rest }) in
    ground arith

-- While no tag begins, what is emitted and what is held back are what came in.
pub process_text_gives :
    (t : Text) (s : StreamConverter)
    → s.think_state ≡ idle
    → partition think_start (s.think_buffer ++ t) ≡ none
    → let (events, s') = process_text t s in
      (texts events ++ s'.think_buffer ≡ s.think_buffer ++ t)
      × (s'.think_state ≡ idle)
      × (s'.finished ≡ s.finished)
unfolding process_text process_idle texts
process_text_gives [] s quiet plain = (sym (append-nil s.think_buffer), quiet, refl)
process_text_gives (c ∷ t) s quiet plain =
    ground (arith, flush_safe_gives (s.think_buffer ++ c ∷ t) s)
