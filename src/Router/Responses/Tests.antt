-- ===== src/Router/Responses/Tests.antt =====
-- The converter's theorem at a stream with a text and a tool call whose arguments come in two parts.
use eucal_ai_backend.Prelude.{
  ℕ, ◌≡◌, refl, String, none, some, List, [], ◌∷◌, arith, All, All-map, true,
}
use eucal_ai_backend.Prelude.Keyed.{mem, nat_eq}
use eucal_ai_backend.Router.Responses.{Chunk, or_message, new_converter, stream_responses}
use eucal_ai_backend.Router.Responses.Client.{read_all, completions, values}
use eucal_ai_backend.Router.Responses.Chunks.{texts_first}
use eucal_ai_backend.Router.Responses.Completion.{completions-stream_responses}

abbrev uuid : String → ℕ → String
uuid drawn_for i = "0"

abbrev set_order : List ℕ → List ℕ
set_order started = started

members_of : (started : List ℕ) → All (λ i. mem i started ≡ true) started
unfolding mem
members_of [] = tt
members_of (i ∷ started) =
    (ground arith, All-map (λ j known. ground arith) started (members_of started))

members : (started : List ℕ) → All (λ i. mem i started ≡ true) (set_order started)
members started = members_of started

abbrev chunks : List Chunk
chunks =
    record {
      usage = none;
      choice = some (record { content = 72 ∷ 105 ∷ []; tool_calls = []; finish_reason = none });
    }
    ∷ record {
      usage = none;
      choice = some (record {
        content = [];
        tool_calls = record { index = 0; id = "call_1"; name = "f"; arguments = 123 ∷ [] } ∷ [];
        finish_reason = none;
      });
    }
    ∷ record {
      usage = none;
      choice = some (record {
        content = [];
        tool_calls = record { index = 0; id = ""; name = ""; arguments = 125 ∷ [] } ∷ [];
        finish_reason = some "tool_calls";
      });
    }
    ∷ record {
      usage = some (record { input_tokens = 5; output_tokens = 7; total_tokens = 12 });
      choice = none;
    }
    ∷ []

completions-stream_responses_example :
    let events = (stream_responses uuid set_order chunks (new_converter "m" "r" "i")).0 in
    completions events ≡ or_message [] (values (read_all events [])) ∷ []
unfolding texts_first
completions-stream_responses_example =
    completions-stream_responses uuid set_order "m" "r" "i" chunks members refl
