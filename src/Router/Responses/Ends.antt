-- ===== src/Router/Responses/Ends.antt =====
-- services/router-service/src/services/responses_convert.py: what ends
-- the items and the response.
use eucal_ai_backend.Prelude.{
  ℕ, ◌≡◌, refl, ap, String, Bool, true, false, Option, none, some, List, [], ◌∷◌, arith, All,
  All-map, leb, inl, inr, Bool-cases, Option-cases,
}
use eucal_ai_backend.Prelude.Keyed.{find, put, mem, nat_eq}
use eucal_ai_backend.Router.Responses.{
  Usage, ◌>>◌, skip, modify, when, function_call, ResponsesStreamConverter, Emit, or_message,
  output_of, offset, emit_created, emit_text_done, call_done_events, emit_tool_done,
  emit_tools_done, emit_completed, insert_index, sorted, note_usage, end_text, begin, finish_choice,
}
use eucal_ai_backend.Router.Responses.Client.{
  read, read_all, items_of, values-items_of, completions, put_found, find-items, IsPlaced-find,
}
use eucal_ai_backend.Router.Responses.Rules.{
  Views, said, Follows, Completes, Follows->>, Follows->>-Completes, Follows-skip, Follows-if,
}

said_output :
    (s : ResponsesStreamConverter)
    → (s.text_started ≡ false → s.text_content ≡ [])
    → or_message s.text_content (output_of s) ≡ said (items_of s)
said_output s no_text =
    let same = values-items_of s in
    elim (Bool-cases (s.text_started)) [ inl on ↦ ground (arith) | inr off ↦ ground (arith) ]

module _ (text tools : Bool) where
  -- the same, with the set of the started calls
  abbrev pub Known : (started : List ℕ) → ResponsesStreamConverter → Type 0
  Known started s = Views text tools s × (s.tool_started ≡ started)

  pub emit_completed-Completes : Completes (Views text tools) emit_completed
  unfolding emit_completed read_all read completions
  emit_completed-Completes = record {
    apply = λ s h. (refl, ap (λ output. output ∷ []) (said_output s h.no_text), refl);
  }

  module _ (started : List ℕ) where
    emit_text_done-Follows :
        Follows (λ s. Known started s × (s.text_started ≡ true)) (Known started) emit_text_done
    unfolding emit_text_done read_all read put completions
    emit_text_done-Follows = record { apply = λ s (h, on). ((ground arith, refl), h) }

    pub end_text-Follows : Follows (Known started) (Known started) end_text
    unfolding end_text when read_all completions
    end_text-Follows = record {
      apply = λ s h. elim (Bool-cases (s.text_started)) [
        | inl on ↦
            let same : end_text s ≡ emit_text_done s = ground arith in
            rw same (emit_text_done-Follows.apply s (h, on))
        | inr off ↦ let same : end_text s ≡ skip s = ground arith in rw same ((refl, refl), h)
      ];
    }

    emit_tool_done-Follows :
        (i : ℕ) → mem i started ≡ true → Follows (Known started) (Known started) (emit_tool_done i)
    unfolding emit_tool_done call_done_events read_all read completions
    emit_tool_done-Follows i known = record {
      apply = λ s (h, e). elim (Option-cases (find i s.tool_calls)) [
        | inl missing ↦ ground (arith, h.listed i)
        | inr (tc, there) ↦
            let same : emit_tool_done i s ≡ (call_done_events tc, s) = ground arith in
            let o = tc.output_index in
            let placed = IsPlaced-find (offset s) i tc s.tool_calls h.placed there in
            let found = find-items i o tc s.text_content s.tool_calls s.text_started placed there in
            let kept = put_found o (function_call tc.call) (items_of s) found in
            rw same ((rw (found, kept, kept) refl, refl), (h, e))
      ];
    }

    pub emit_tools_done-Follows :
        (indices : List ℕ)
        → All (λ i. mem i started ≡ true) indices
        → Follows (Known started) (Known started) (emit_tools_done indices)
    unfolding emit_tools_done read_all completions
    emit_tools_done-Follows [] known = record { apply = λ s h. ((refl, refl), h) }
    emit_tools_done-Follows (i ∷ indices) (first, known) =
        Follows->> (emit_tool_done-Follows i first) (emit_tools_done-Follows indices known)

pub completed_pending-Completes :
    (text tools : Bool)
    → Completes
        (Views text tools)
        (modify (λ s. record s { pending_finish = false }) >> emit_completed)
unfolding read_all completions
completed_pending-Completes text tools =
    let cleared : Follows (Views text tools) (Views text tools)
        (modify (λ s. record s { pending_finish = false })) =
      record { apply = λ s h. ((refl, refl), h) } in
    Follows->>-Completes cleared (emit_completed-Completes text tools)

pub note_usage-Follows :
    (text tools : Bool) (usage : Option Usage)
    → Follows (Views text tools) (Views text tools) (modify (note_usage usage))
unfolding note_usage read_all completions
note_usage-Follows text tools none = record { apply = λ s h. ((refl, refl), h) }
note_usage-Follows text tools (some usage) = record { apply = λ s h. ((refl, refl), h) }

emit_created-Follows :
    (text tools : Bool) → Follows (Views text tools) (Views text tools) emit_created
unfolding emit_created read_all read completions
emit_created-Follows text tools = record { apply = λ s h. ((refl, refl), h) }

pub begin-Follows : (text tools : Bool) → Follows (Views text tools) (Views text tools) begin
unfolding begin
begin-Follows text tools =
    Follows-if (λ s. s.started) (Follows-skip (λ s h. h)) (emit_created-Follows text tools)

insert_index-All :
    (P : ℕ → Type 0) (i : ℕ) (is : List ℕ) → P i → All P is → All P (insert_index i is)
unfolding insert_index
insert_index-All P i [] p all = (p, tt)
insert_index-All P i (j ∷ is) p (q, all) = elim (Bool-cases (leb i j)) [
  | inl first ↦ ground arith
  | inr later ↦ ground (arith, insert_index-All P i is p all)
]

sorted-All : (started : List ℕ) → All (λ i. mem i started ≡ true) (sorted started)
unfolding sorted mem
sorted-All [] = tt
sorted-All (j ∷ js) =
    insert_index-All (λ i. mem i (j ∷ js) ≡ true) j (sorted js) (ground arith)
      (All-map (λ i known. ground arith) (sorted js) (sorted-All js))

-- a method that takes the set of the started calls from the state that it is called in
pub Follows-started :
    (text tools : Bool) (m : List ℕ → Emit)
    → ((started : List ℕ)
        → Follows (Known text tools started) (Known text tools started) (m started))
    → Follows (Views text tools) (Views text tools) (λ s. m s.tool_started s)
Follows-started text tools m h = record {
  apply = λ s view.
      let (reads, (view', same)) = (h s.tool_started).apply s (view, refl) in (reads, view');
}

pub finish_choice-Follows :
    (text tools : Bool) (reason : Option String)
    → Follows (Views text tools) (Views text tools) (finish_choice reason)
unfolding finish_choice read_all completions
finish_choice-Follows text tools none = record { apply = λ s h. ((refl, refl), h) }
finish_choice-Follows text tools (some reason) =
    let noted : Follows (Views text tools) (Views text tools)
        (modify (λ s. record s { finish_reason = some reason })) =
      record { apply = λ s h. ((refl, refl), h) } in
    let pending : Follows (Views text tools) (Views text tools)
        (modify (λ s. record s { pending_finish = true })) =
      record { apply = λ s h. ((refl, refl), h) } in
    Follows->> noted (
      Follows->> (Follows-started text tools (λ started. end_text) (end_text-Follows text tools)) (
        Follows->>
          (Follows-started text tools (λ started. emit_tools_done (sorted started))
            (λ started.
              emit_tools_done-Follows text tools started (sorted started) (sorted-All started)))
          pending))
