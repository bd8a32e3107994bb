-- ===== src/Router/Anthropic/Protocol/Tools.antt =====
-- services/router-service/src/services/anthropic_convert.py: tool calls keep to
-- the protocol.
use eucal_ai_backend.Prelude.{
  ℕ, ◌≡◌, inl, inr, String, Bool, true, false, Option, none, some, List, [], ◌∷◌, arith, ◌++◌, ◌&&◌,
  is_nonempty, refl, Option-cases,
}
use eucal_ai_backend.Prelude.Keyed.{Table, put, mem, find, nat_eq, find-put_self}
use eucal_ai_backend.Router.Anthropic.Tags.{Text}
use eucal_ai_backend.Router.Anthropic.{
  ToolCall, StreamConverter, modify, emit_block_stop, close_block, emit_block_start_tool,
  emit_tool_json_delta, flush_think_buffer, start_tool_block, open_tool_block, process_tool_call,
  process_tool_calls,
}
use eucal_ai_backend.Router.Anthropic.Protocol.Client.{read, read_all, values}
use eucal_ai_backend.Router.Anthropic.Protocol.Rules.{
  Takes, Takes->>, Takes-skip, Takes-when, IsOpen, IsRunning, IsClosed, IsLive,
}
use eucal_ai_backend.Router.Anthropic.Protocol.Blocks.{emit_plain_text-Takes}

abbrev pub is_some : Option ℕ → Bool
is_some none = false
is_some (some n) = true

-- the state in which the tool call `index` has a block
pub record HasTool (index : ℕ) (s : StreamConverter) : Type 0 where
  pub live : IsLive false s
  pub known : is_some (find index s.tool_index_map) ≡ true

-- the states in which it has none, and in which no block is open besides
pub record IsFree (index : ℕ) (s : StreamConverter) : Type 0 where
  pub running : IsRunning s
  pub free : find index s.tool_index_map ≡ none

pub record IsReady (index : ℕ) (s : StreamConverter) : Type 0 where
  pub closed : IsClosed s
  pub free : find index s.tool_index_map ≡ none

values-put : (k v : ℕ) (t : Table ℕ ℕ) → find k t ≡ none → values (put k v t) ≡ values t ++ (v ∷ [])
unfolding values put find
values-put k v [] free = refl
values-put k v ((j, w) ∷ t) free = ground (arith, values-put k v t)

mem-values : (k v : ℕ) (t : Table ℕ ℕ) → find k t ≡ some v → mem v (values t) ≡ true
unfolding values find mem
mem-values k v [] there = ground arith
mem-values k v ((j, w) ∷ t) there = ground (arith, mem-values k v t)

close_block-IsReady : (index : ℕ) → Takes false (IsFree index) (IsReady index) close_block
unfolding close_block emit_block_stop read_all read
close_block-IsReady index = record {
  apply = λ s h. elim (Option-cases (s.block)) [
    | inl shut ↦ ground arith
    | inr (kind, there) ↦ ground arith
  ];
}

pub start_tool_block-Takes :
    (uuid : ℕ → String) (call : ToolCall)
    → Takes false (IsReady call.index) (HasTool call.index) (start_tool_block uuid call)
unfolding start_tool_block emit_block_start_tool read_all read
start_tool_block-Takes uuid call = record {
  apply = λ s h. ground (
    arith,
    values-put call.index s.content_index s.tool_index_map,
    find-put_self call.index s.content_index s.tool_index_map,
  );
}

pub open_tool_block-Takes :
    (uuid : ℕ → String) (call : ToolCall)
    → Takes false (IsLive false) (HasTool call.index) (open_tool_block uuid call)
unfolding open_tool_block read_all
open_tool_block-Takes uuid call = record {
  apply = λ s h.
      let start = Takes->> (close_block-IsReady call.index) (start_tool_block-Takes uuid call) in
      elim (Option-cases (find call.index s.tool_index_map)) [
        | inl new ↦
            let r = start.apply s (record { running = h.running; free = new }) in ground arith
        | inr (block, old) ↦ ground arith
      ];
}

pub emit_tool_json_delta-Takes :
    (index : ℕ) (t : Text)
    → Takes false (HasTool index) (IsLive false) (emit_tool_json_delta index t)
unfolding emit_tool_json_delta read_all read
emit_tool_json_delta-Takes index t = record {
  apply = λ s h. elim (Option-cases (find index s.tool_index_map)) [
    | inl missing ↦ ground arith
    | inr (block, there) ↦
        let opened = mem-values index block s.tool_index_map there in
        elim (Option-cases (s.block)) [ inl shut ↦ ground arith | inr (kind, open_) ↦ ground arith ]
  ];
}

pub process_tool_call-Takes :
    (uuid : ℕ → String) (call : ToolCall)
    → Takes false (IsLive false) (IsLive false) (process_tool_call uuid call)
unfolding process_tool_call
process_tool_call-Takes uuid call =
    Takes->> (open_tool_block-Takes uuid call)
      (Takes-when _ (emit_tool_json_delta-Takes call.index call.arguments) (λ s h. h.live))

-- a client that is strict meets no tool calls
pub process_tool_calls-Takes :
    (strict : Bool) (uuid : ℕ → String) (calls : List ToolCall)
    → strict && is_nonempty calls ≡ false
    → Takes strict (IsLive strict) (IsLive strict) (process_tool_calls uuid calls)
unfolding process_tool_calls
process_tool_calls-Takes strict uuid [] none_are = Takes-skip (λ s h. h)
process_tool_calls-Takes true uuid (call ∷ calls) none_are = ground arith
process_tool_calls-Takes false uuid (call ∷ calls) none_are =
    Takes->> (process_tool_call-Takes uuid call) (process_tool_calls-Takes false uuid calls refl)

drop_buffer-IsRunning :
    {strict : Bool} → Takes strict IsOpen IsRunning (modify (λ s. record s { think_buffer = [] }))
unfolding read_all
drop_buffer-IsRunning = record { apply = λ s h. ground arith }

pub flush_think_buffer-Takes : {strict : Bool} → Takes strict IsRunning IsRunning flush_think_buffer
unfolding flush_think_buffer read_all
flush_think_buffer-Takes {strict} = record {
  apply = λ s h.
      let flush =
        Takes->> {strict = strict} (emit_plain_text-Takes s.think_buffer) (drop_buffer-IsRunning) in
      ground (arith, flush.apply s h);
}
