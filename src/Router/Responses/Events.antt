-- ===== src/Router/Responses/Events.antt =====
-- services/router-service/src/services/responses_convert.py: the methods of
-- ResponsesStreamConverter that do not complete the response.
use eucal_ai_backend.Prelude.{
  ℕ, ◌+◌, ◌≡◌, refl, String, Bool, true, false, not, ◌||◌, some, List, [], ◌∷◌, arith, ◌==◌,
  is_nonempty, ◌⊎◌, inl, inr, Option-cases,
}
use eucal_ai_backend.Prelude.Keyed.{Table, find, put, mem, nat_eq, find-put}
use eucal_ai_backend.Router.Responses.{
  Text, when, OpenCall, offset, emit_output_item_added_message, emit_text_delta, add_arguments,
  emit_tool_args_delta, more_arguments, added_call, process_text, emit_tool_added,
}
use eucal_ai_backend.Router.Responses.Client.{
  read, read_all, completions, found_nonempty, put-items, find-items, IsPlaced-find, IsPlaced-put,
}
use eucal_ai_backend.Router.Responses.Rules.{is_some, Views, Follows, Follows->>}

emit_text_delta-Follows :
    (tools : Bool) (text : Text)
    → Follows (Views true tools) (Views true tools) (emit_text_delta text)
unfolding emit_text_delta read_all read put find completions
emit_text_delta-Follows tools text = record {
  apply = λ s h. (
    (ground arith, refl),
    record {
      live = h.live;
      text_is = h.text_is;
      no_tools = h.no_tools;
      no_text = λ e. ground arith;
      placed = h.placed;
      listed = h.listed;
    },
  );
}

start_text-Follows :
    (text tools b : Bool)
    → (text ≡ true) ⊎ (tools ≡ false)
    → Follows
        (λ s. Views text tools s × (not s.text_started ≡ b))
        (Views true tools)
        (when b emit_output_item_added_message)
unfolding when emit_output_item_added_message read_all read put completions
start_text-Follows text tools true first = record {
  apply = λ s (h, off).
      let none_yet : s.tool_calls ≡ [] = ground arith in
      let empty : s.text_content ≡ [] = ground arith in
      (
        (ground arith, refl),
        record {
          live = h.live;
          text_is = refl;
          no_tools = h.no_tools;
          no_text = λ e. ground arith;
          placed = rw none_yet tt;
          listed = h.listed;
        },
      );
}
start_text-Follows text tools false first = record {
  apply = λ s (h, on). (
    (refl, refl),
    record {
      live = h.live;
      text_is = ground arith;
      no_tools = h.no_tools;
      no_text = h.no_text;
      placed = h.placed;
      listed = h.listed;
    },
  );
}

pub process_text-Follows :
    (text tools : Bool) (content : Text)
    → (text ≡ true) ⊎ (tools ≡ false) ⊎ (is_nonempty content ≡ false)
    → Follows (Views text tools) (Views (is_nonempty content || text) tools) (process_text content)
unfolding process_text read_all completions
process_text-Follows text tools [] first = record { apply = λ s h. ((refl, refl), h) }
process_text-Follows text tools (c ∷ content) first = record {
  apply = λ s h.
      let starts =
        Follows->> (start_text-Follows text tools (not s.text_started) (ground arith))
          (emit_text_delta-Follows tools (c ∷ content)) in
      starts.apply s (h, refl);
}

-- the calls that are known, after the entry of one is written
pub listed-put :
    (i j : ℕ) (tc : OpenCall) (started : List ℕ) (calls : Table ℕ OpenCall)
    → (mem j started ≡ is_some (find j calls))
    → ((i == j) || mem j started) ≡ is_some (find j (put i tc calls))
listed-put i j tc started calls h = ground (arith, find-put i j tc calls)

pub listed-put_known :
    (i j : ℕ) (tc : OpenCall) (started : List ℕ) (calls : Table ℕ OpenCall)
    → mem i started ≡ true
    → (mem j started ≡ is_some (find j calls))
    → mem j started ≡ is_some (find j (put i tc calls))
listed-put_known i j tc started calls known h = ground (arith, find-put i j tc calls)

module _ (text tools : Bool) where
  module _ (uuid : String → ℕ → String) (set_order : List ℕ → List ℕ) where
    pub emit_tool_added-Follows :
        (i : ℕ) (call_id name : String)
        → Follows
            (Views text tools)
            (λ s. Views text true s × (mem i s.tool_started ≡ true))
            (emit_tool_added uuid set_order i call_id name)
    unfolding emit_tool_added read_all read mem completions
    emit_tool_added-Follows i call_id name = record {
      apply = λ s h.
          let tc = added_call uuid set_order i call_id name s in
          (
            (put-items i (offset s + i) tc s.text_content s.tool_calls s.text_started refl, refl),
            (
              record {
                live = h.live;
                text_is = h.text_is;
                no_tools = λ e. ground arith;
                no_text = h.no_text;
                placed = IsPlaced-put (offset s) i tc s.tool_calls refl h.placed;
                listed = λ j. listed-put i j tc s.tool_started s.tool_calls (h.listed j);
              },
              ground arith,
            ),
          );
    }

  add_arguments-Follows :
      (i : ℕ) (delta : Text) (tc : OpenCall)
      → Follows
          (λ s. Views text tools s × (find i s.tool_calls ≡ some tc))
          (Views text tools)
          (add_arguments i delta tc)
  unfolding add_arguments read_all read completions
  add_arguments-Follows i delta tc = record {
    apply = λ s (h, there).
        let o = tc.output_index in
        let placed = IsPlaced-find (offset s) i tc s.tool_calls h.placed there in
        let found = find-items i o tc s.text_content s.tool_calls s.text_started placed there in
        let tc' = more_arguments delta tc in
        let known : mem i s.tool_started ≡ true = ground (arith, h.listed i) in
        (
          (rw found (put-items i o tc' s.text_content s.tool_calls s.text_started placed), refl),
          record {
            live = h.live;
            text_is = h.text_is;
            no_tools = λ e. absurd (found_nonempty i tc s.tool_calls there (h.no_tools e));
            no_text = h.no_text;
            placed = IsPlaced-put (offset s) i tc' s.tool_calls placed h.placed;
            listed = λ j. listed-put_known i j tc' s.tool_started s.tool_calls known (h.listed j);
          },
        );
  }

  pub emit_tool_args_delta-Follows :
      (i : ℕ) (delta : Text)
      → Follows
          (λ s. Views text tools s × (mem i s.tool_started ≡ true))
          (Views text tools)
          (emit_tool_args_delta i delta)
  unfolding emit_tool_args_delta
  emit_tool_args_delta-Follows i delta = record {
    apply = λ s (h, known). elim (Option-cases (find i s.tool_calls)) [
      | inl missing ↦ ground (arith, h.listed i)
      | inr (tc, there) ↦
          let same : emit_tool_args_delta i delta s ≡ add_arguments i delta tc s = ground arith in
          rw same ((add_arguments-Follows i delta tc).apply s (h, there))
    ];
  }
