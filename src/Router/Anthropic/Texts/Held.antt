-- ===== src/Router/Anthropic/Texts/Held.antt =====
-- services/router-service/src/services/anthropic_convert.py: the text that is held
-- back comes out in the end.
use mathlib.Core.List.{append-nil}
use eucal_ai_backend.Prelude.{
  ◌≡◌, refl, ◌∙◌, String, Bool, true, false, Option, none, some, List, [], ◌∷◌, ◌++◌, inl, inr,
  arith, Bool-cases, is_nonempty,
}
use eucal_ai_backend.Prelude.Keyed.{nat_eq}
use eucal_ai_backend.Router.Anthropic.Tags.{Text}
use eucal_ai_backend.Router.Anthropic.{
  idle, Chunk, StreamConverter, Emit, close_block, emit_plain_text, flush_think_buffer, emit_end,
  emit_finish,
}
use eucal_ai_backend.Router.Anthropic.Texts.Cuts.{texts, texts-append}
use eucal_ai_backend.Router.Anthropic.Texts.Blocks.{close_block-Gives, emit_plain_text-Gives}

pub empty_of : {A : Type 0} (xs : List A) → is_nonempty xs ≡ false → xs ≡ []
empty_of [] h = refl
empty_of (x ∷ xs) h = cc

-- The method emits the text that was held back.
pub record Flushes (m : Emit) : Type 0 where
  pub apply : (s : StreamConverter) → s.think_state ≡ idle → texts (m s).0 ≡ s.think_buffer

pub flush_think_buffer-Flushes : Flushes flush_think_buffer
unfolding flush_think_buffer texts
flush_think_buffer-Flushes = record {
  apply = λ s quiet.
      let plain = (emit_plain_text-Gives s.think_buffer).apply s in
      elim (Bool-cases (is_nonempty s.think_buffer)) [
        | inl more ↦ ground (arith, append-nil (emit_plain_text s.think_buffer s).0)
        | inr nothing ↦ ground (arith, empty_of s.think_buffer nothing)
      ];
}

pub emit_end_gives : (reason : String) (s : StreamConverter) → texts (emit_end reason s).0 ≡ []
unfolding emit_end texts
emit_end_gives reason s = refl

pub emit_finish-Flushes : (reason : String) → Flushes (emit_finish reason)
unfolding emit_finish
emit_finish-Flushes reason = record {
  apply = λ s quiet.
      let s' = (flush_think_buffer s).1 in
      let s'' = (close_block s').1 in
      let end = (emit_end reason s'').0 in
      let flushed = flush_think_buffer-Flushes.apply s quiet in
      let closed = close_block-Gives.apply s' in
      let ended = emit_end_gives reason s'' in
      texts-append (flush_think_buffer s).0 ((close_block s').0 ++ end)
      ∙ ground (arith, texts-append (close_block s').0 end, append-nil s.think_buffer);
}

abbrev pub content_of : Chunk → Text
content_of chunk = elim (chunk.choice) [ none ↦ [] | some choice ↦ choice.content ]

-- the text of the chunks, put together
unfoldable pub contents : List Chunk → Text
contents [] = []
contents (chunk ∷ chunks) = content_of chunk ++ contents chunks

abbrev pub is_given : {A : Type 0} → Option A → Bool
is_given none = false
is_given (some a) = true

-- the chunk that a stream ends with
abbrev pub ends : Chunk → Bool
ends chunk = elim (chunk.choice) [
  | none ↦ is_given chunk.usage
  | some choice ↦ is_given choice.finish_reason
]
