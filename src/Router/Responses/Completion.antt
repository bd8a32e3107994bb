-- ===== src/Router/Responses/Completion.antt =====
-- services/router-service/src/services/responses_convert.py: a client has
-- what the response says in the end.
use eucal_ai_backend.Prelude.{
  ℕ, ◌≡◌, refl, ap, sym, ◌∙◌, String, Bool, true, false, not, ◌&&◌, ◌||◌, Option, none, some, List,
  [], ◌∷◌, arith, All, inl, inr, Bool-cases,
}
use eucal_ai_backend.Prelude.Keyed.{find, mem, nat_eq}
use eucal_ai_backend.Router.Responses.{
  Choice, Usage, ◌>>◌, Chunk, ResponsesStreamConverter, or_message, emit_tools_done, emit_completed,
  end_text, process_no_choice, process_choices, convert_open, convert_chunk, stream_responses,
  end_stream, new_converter,
}
use eucal_ai_backend.Router.Responses.Client.{read_all, values, completions}
use eucal_ai_backend.Router.Responses.Ends.{
  emit_completed-Completes, end_text-Follows, emit_tools_done-Follows, completed_pending-Completes,
  note_usage-Follows, begin-Follows, Follows-started,
}
use eucal_ai_backend.Router.Responses.Rules.{
  Views, Completes, Settles, Follows->>, Follows->>-Settles, Follows->>-Completes, Settles-Follows,
  Settles-Completes, Settles-if, Follows-skip, Completed->>, Completed-skip,
}
use eucal_ai_backend.Router.Responses.Chunks.{
  has_text, has_calls, texts_first, process_choice-Follows,
}

module _ (s : ResponsesStreamConverter) where
  end_stream-over : s.finished ≡ true → end_stream s ≡ ([], s)
  unfolding end_stream
  end_stream-over over = ground arith

  end_stream-pending :
      s.finished ≡ false → s.pending_finish ≡ true → end_stream s ≡ emit_completed s
  unfolding end_stream
  end_stream-pending live pending = ground arith

  end_stream-cut :
      s.finished ≡ false → s.pending_finish ≡ false → end_stream s ≡ (end_text >> emit_completed) s
  unfolding end_stream
  end_stream-cut live cut = ground arith

module _ (uuid : String → ℕ → String) (set_order : List ℕ → List ℕ)
    (members : (started : List ℕ) → All (λ i. mem i started ≡ true) (set_order started)) where
  end_all-Completes :
      (text tools : Bool)
      → Completes
          (Views text tools)
          (λ s. ((end_text >> emit_tools_done (set_order s.tool_started)) >> emit_completed) s)
  end_all-Completes text tools =
      Follows->>-Completes
        (Follows-started text tools (λ started. end_text >> emit_tools_done (set_order started))
          (λ started.
            Follows->> (end_text-Follows text tools started)
              (emit_tools_done-Follows text tools started (set_order started) (members started))))
        (emit_completed-Completes text tools)

  process_no_choice-Settles :
      (text tools : Bool) (usage : Option Usage)
      → Settles (Views text tools) (Views text tools) (process_no_choice uuid set_order usage)
  unfolding process_no_choice
  process_no_choice-Settles text tools none =
      Settles-if (λ s. s.pending_finish)
        (Settles-Completes (completed_pending-Completes text tools))
        (Settles-Follows (Follows-skip (λ s h. h)))
  process_no_choice-Settles text tools (some u) =
      Settles-if (λ s. s.pending_finish)
        (Settles-Completes (completed_pending-Completes text tools))
        (Settles-if (λ s. s.started && not s.finished)
          (Settles-Completes (end_all-Completes text tools))
          (Settles-Follows (Follows-skip (λ s h. h))))

  process_choices-Settles :
      (text tools : Bool) (choice : Option Choice) (usage : Option Usage)
      → (text || not tools || not (has_text choice)) ≡ true
      → Settles
          (Views text tools)
          (Views (has_text choice || text) (has_calls choice || tools))
          (process_choices uuid set_order choice usage)
  unfolding process_choices
  process_choices-Settles text tools none usage first = process_no_choice-Settles text tools usage
  process_choices-Settles text tools (some choice) usage first =
      Settles-Follows (process_choice-Follows uuid set_order text tools choice (ground arith))

  convert_open-Settles :
      (text tools : Bool) (chunk : Chunk)
      → (text || not tools || not (has_text chunk.choice)) ≡ true
      → Settles
          (Views text tools)
          (Views (has_text chunk.choice || text) (has_calls chunk.choice || tools))
          (convert_open uuid set_order chunk)
  unfolding convert_open
  convert_open-Settles text tools chunk first =
      Follows->>-Settles (note_usage-Follows text tools chunk.usage) (
        Follows->>-Settles (begin-Follows text tools)
          (process_choices-Settles text tools chunk.choice chunk.usage first))

  convert_chunk-open :
      (chunk : Chunk) (s : ResponsesStreamConverter)
      → s.finished ≡ false
      → convert_chunk uuid set_order chunk s ≡ convert_open uuid set_order chunk s
  unfolding convert_chunk
  convert_chunk-open chunk s live = ground arith

  convert_chunk-skip :
      (chunk : Chunk) (s : ResponsesStreamConverter)
      → s.finished ≡ true
      → convert_chunk uuid set_order chunk s ≡ ([], s)
  unfolding convert_chunk
  convert_chunk-skip chunk s over = ground arith

  convert_chunk-Settles :
      (text tools : Bool) (chunk : Chunk)
      → (text || not tools || not (has_text chunk.choice)) ≡ true
      → Settles
          (Views text tools)
          (Views (has_text chunk.choice || text) (has_calls chunk.choice || tools))
          (convert_chunk uuid set_order chunk)
  convert_chunk-Settles text tools chunk first = record {
    apply = λ s view.
        rw (convert_chunk-open chunk s view.live)
          ((convert_open-Settles text tools chunk first).apply s view);
  }

  end_stream-Completes : (text tools : Bool) → Completes (Views text tools) end_stream
  end_stream-Completes text tools = record {
    apply = λ s view. elim (Bool-cases (s.pending_finish)) [
      | inl pending ↦
          rw (end_stream-pending s view.live pending)
            ((emit_completed-Completes text tools).apply s view)
      | inr cut ↦ rw (end_stream-cut s view.live cut) (
          (Follows->>-Completes
              (Follows-started text tools (λ started. end_text) (end_text-Follows text tools))
              (emit_completed-Completes text tools)).apply
            s view)
    ];
  }

  -- after the end, whatever comes
  stream_responses-skip :
      (chunks : List Chunk) (s : ResponsesStreamConverter)
      → s.finished ≡ true
      → stream_responses uuid set_order chunks s ≡ ([], s)
  unfolding stream_responses
  stream_responses-skip [] s over = end_stream-over s over
  stream_responses-skip (chunk ∷ chunks) s over =
      rw (convert_chunk-skip chunk s over, stream_responses-skip chunks s over) refl

  stream_responses-Completes :
      (text tools : Bool) (chunks : List Chunk)
      → texts_first text tools chunks ≡ true
      → Completes (Views text tools) (stream_responses uuid set_order chunks)
  unfolding stream_responses texts_first
  stream_responses-Completes text tools [] first = end_stream-Completes text tools
  stream_responses-Completes text tools (chunk ∷ chunks) first = record {
    apply = λ s view.
        let convert = convert_chunk uuid set_order chunk in
        let rest = stream_responses uuid set_order chunks in
        let text' = has_text chunk.choice || text in
        let tools' = has_calls chunk.choice || tools in
        elim ((convert_chunk-Settles text tools chunk (ground arith)).apply s view) [
          | inl (reads, view') ↦ Completed->> s convert rest reads (
              (stream_responses-Completes text' tools' chunks (ground arith)).apply (convert s).1
                view')
          | inr over ↦
              let (reads, says, finished) = over in
              Completed-skip s convert rest over
                (stream_responses-skip chunks (convert s).1 finished)
        ];
  }

-- A client that puts the output together from the events has, in the end, what the response says
-- that it has: whatever chunks come, if no text starts after a tool call, exactly one event
-- completes the response, and its output is what the deltas have made of the items, in the order
-- of the items, or an empty message if there are none. (Python goes through a set by its members.)
pub completions-stream_responses :
    (uuid : String → ℕ → String) (set_order : List ℕ → List ℕ) (model resp_id msg_id : String)
    (chunks : List Chunk)
    → ((started : List ℕ) → All (λ i. mem i started ≡ true) (set_order started))
    → texts_first false false chunks ≡ true
    → let events =
        (stream_responses uuid set_order chunks (new_converter model resp_id msg_id)).0 in
      completions events ≡ or_message [] (values (read_all events [])) ∷ []
unfolding new_converter mem find
completions-stream_responses uuid set_order model resp_id msg_id chunks members first =
    let new = new_converter model resp_id msg_id in
    let fresh : Views false false new = record {
      live = refl;
      text_is = refl;
      no_tools = λ e. refl;
      no_text = λ e. refl;
      placed = tt;
      listed = λ i. refl;
    } in
    let (reads, says, over) =
      (stream_responses-Completes uuid set_order members false false chunks first).apply new
        fresh in
    says ∙ ap (λ items. or_message [] (values items) ∷ []) (sym reads)
