-- ===== src/Router/Responses/Chunks.antt =====
-- services/router-service/src/services/responses_convert.py: choices
-- keep a client up with the converter.
use eucal_ai_backend.Prelude.{
  ℕ, ◌≡◌, refl, String, Bool, true, false, not, ◌&&◌, ◌||◌, Option, none, some, List, [], ◌∷◌,
  arith, is_nonempty, ◌⊎◌, inl, inr, Bool-cases,
}
use eucal_ai_backend.Prelude.Keyed.{mem, nat_eq}
use eucal_ai_backend.Router.Responses.{
  Text, ToolCall, Choice, skip, when, Chunk, ResponsesStreamConverter, emit_tool_args_delta,
  call_id_of, emit_tool_added, open_call, process_tool_call, process_tool_calls, process_choice,
}
use eucal_ai_backend.Router.Responses.Client.{read_all, completions}
use eucal_ai_backend.Router.Responses.Ends.{finish_choice-Follows}
use eucal_ai_backend.Router.Responses.Events.{
  process_text-Follows, emit_tool_added-Follows, emit_tool_args_delta-Follows,
}
use eucal_ai_backend.Router.Responses.Rules.{Views, Follows, Follows->>}

-- whether a chunk has a text, or calls
abbrev pub has_text : Option Choice → Bool
has_text none = false
has_text (some choice) = is_nonempty choice.content

abbrev pub has_calls : Option Choice → Bool
has_calls none = false
has_calls (some choice) = is_nonempty choice.tool_calls

-- no text starts after a call
unfoldable pub texts_first : (text tools : Bool) → List Chunk → Bool
texts_first text tools [] = true
texts_first text tools (chunk ∷ chunks) =
    (text || not tools || not (has_text chunk.choice))
    && texts_first (has_text chunk.choice || text) (has_calls chunk.choice || tools) chunks

started-Views :
    (text tools : Bool) (s : ResponsesStreamConverter) → Views text tools s → Views text true s
started-Views text tools s h = record {
  live = h.live;
  text_is = h.text_is;
  no_tools = λ e. ground arith;
  no_text = h.no_text;
  placed = h.placed;
  listed = h.listed;
}

more_arguments-Follows :
    (text tools b : Bool) (i : ℕ) (delta : Text)
    → Follows
        (λ s. Views text tools s × (mem i s.tool_started ≡ true))
        (Views text tools)
        (when b (emit_tool_args_delta i delta))
unfolding when read_all completions
more_arguments-Follows text tools true i delta = emit_tool_args_delta-Follows text tools i delta
more_arguments-Follows text tools false i delta = record {
  apply = λ s (h, known). ((refl, refl), h);
}

module _ (uuid : String → ℕ → String) (set_order : List ℕ → List ℕ) where
  module _ (text : Bool) where
    open_call-Follows :
        (tools : Bool) (tc : ToolCall)
        → Follows
            (Views text tools)
            (λ s. Views text true s × (mem tc.index s.tool_started ≡ true))
            (open_call uuid set_order tc)
    unfolding open_call read_all completions
    open_call-Follows tools tc = record {
      apply = λ s h. elim (Bool-cases (mem tc.index s.tool_started)) [
        | inl known ↦
            let same : open_call uuid set_order tc s ≡ skip s = ground arith in
            rw same ((refl, refl), (started-Views text tools s h, known))
        | inr new ↦
            let added =
              emit_tool_added uuid set_order tc.index (call_id_of uuid set_order tc) tc.name in
            let same : open_call uuid set_order tc s ≡ added s = ground arith in
            rw same (
              (emit_tool_added-Follows text tools uuid set_order tc.index
                  (call_id_of uuid set_order tc) tc.name).apply
                s h)
      ];
    }

    process_tool_call-Follows :
        (tools : Bool) (tc : ToolCall)
        → Follows (Views text tools) (Views text true) (process_tool_call uuid set_order tc)
    unfolding process_tool_call
    process_tool_call-Follows tools tc =
        Follows->> (open_call-Follows tools tc)
          (more_arguments-Follows text true (is_nonempty tc.arguments) tc.index tc.arguments)

    more_calls-Follows :
        (tcs : List ToolCall)
        → Follows (Views text true) (Views text true) (process_tool_calls uuid set_order tcs)
    unfolding process_tool_calls read_all completions
    more_calls-Follows [] = record { apply = λ s h. ((refl, refl), h) }
    more_calls-Follows (tc ∷ tcs) =
        Follows->> (process_tool_call-Follows true tc) (more_calls-Follows tcs)

    process_tool_calls-Follows :
        (tools : Bool) (tcs : List ToolCall)
        → Follows
            (Views text tools)
            (Views text (is_nonempty tcs || tools))
            (process_tool_calls uuid set_order tcs)
    unfolding process_tool_calls read_all completions
    process_tool_calls-Follows tools [] = record { apply = λ s h. ((refl, refl), h) }
    process_tool_calls-Follows tools (tc ∷ tcs) =
        Follows->> (process_tool_call-Follows tools tc) (more_calls-Follows tcs)

  pub process_choice-Follows :
      (text tools : Bool) (choice : Choice)
      → (text ≡ true) ⊎ (tools ≡ false) ⊎ (is_nonempty choice.content ≡ false)
      → Follows
          (Views text tools)
          (Views (is_nonempty choice.content || text) (is_nonempty choice.tool_calls || tools))
          (process_choice uuid set_order choice)
  unfolding process_choice
  process_choice-Follows text tools choice first =
      let text' = is_nonempty choice.content || text in
      Follows->> (process_text-Follows text tools choice.content first) (
        Follows->> (process_tool_calls-Follows text' tools choice.tool_calls) (
          finish_choice-Follows text' (is_nonempty choice.tool_calls || tools)
            choice.finish_reason))
