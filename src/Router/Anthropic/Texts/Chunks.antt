-- ===== src/Router/Anthropic/Texts/Chunks.antt =====
-- services/router-service/src/services/anthropic_convert.py: how the text of a
-- chunk is passed on.
use mathlib.Core.List.{append-nil}
use eucal_ai_backend.Prelude.{◌≡◌, refl, sym, ◌∙◌, none, [], ◌++◌, arith}
use eucal_ai_backend.Prelude.Keyed.{nat_eq}
use eucal_ai_backend.Router.Anthropic.Tags.{Text, partition, think_start}
use eucal_ai_backend.Router.Anthropic.{idle, StreamConverter, Emit, ◌>>◌, skip, process_text}
use eucal_ai_backend.Router.Anthropic.Texts.Cuts.{texts, texts-append}
use eucal_ai_backend.Router.Anthropic.Texts.Blocks.{Gives, process_text_gives}
use eucal_ai_backend.Router.Anthropic.Texts.Held.{Flushes}

-- The method takes the text `t` in, where no tag begins: it emits the text that was held back and
-- `t`, but for what it holds back itself.
pub record Passes (t : Text) (m : Emit) : Type 0 where
  pub apply :
      (s : StreamConverter)
      → s.think_state ≡ idle
      → partition think_start (s.think_buffer ++ t) ≡ none
      → (texts (m s).0 ++ (m s).1.think_buffer ≡ s.think_buffer ++ t)
        × ((m s).1.think_state ≡ idle)
        × ((m s).1.finished ≡ s.finished)

-- The same, with nothing held back.
pub record Finishes (t : Text) (m : Emit) : Type 0 where
  pub apply :
      (s : StreamConverter)
      → s.think_state ≡ idle
      → partition think_start (s.think_buffer ++ t) ≡ none
      → texts (m s).0 ≡ s.think_buffer ++ t

pub Gives->>-Flushes : {m k : Emit} → Gives [] m → Flushes k → Flushes (m >> k)
Gives->>-Flushes {m = m} {k} hm hk = record {
  apply = λ s quiet.
      let h = hm.apply s in
      let h' = hk.apply (m s).1 (ground arith) in
      ground (arith, texts-append (m s).0 (k (m s).1).0);
}

module _ {t : Text} {m k : Emit} where
  pub Gives->>-Passes : Gives [] m → Passes t k → Passes t (m >> k)
  Gives->>-Passes hm hk = record {
    apply = λ s quiet plain.
        let h = hm.apply s in
        let h' = hk.apply (m s).1 (ground arith) (ground arith) in
        ground (arith, texts-append (m s).0 (k (m s).1).0);
  }

  pub Passes->>-Gives : Passes t m → Gives [] k → Passes t (m >> k)
  Passes->>-Gives hm hk = record {
    apply = λ s quiet plain.
        let h = hm.apply s quiet plain in
        let h' = hk.apply (m s).1 in
        ground (arith, texts-append (m s).0 (k (m s).1).0, append-nil (texts (m s).0));
  }

  pub Gives->>-Finishes : Gives [] m → Finishes t k → Finishes t (m >> k)
  Gives->>-Finishes hm hk = record {
    apply = λ s quiet plain.
        let h = hm.apply s in
        let h' = hk.apply (m s).1 (ground arith) (ground arith) in
        ground (arith, texts-append (m s).0 (k (m s).1).0);
  }

  pub Passes->>-Flushes : Passes t m → Flushes k → Finishes t (m >> k)
  Passes->>-Flushes hm hk = record {
    apply = λ s quiet plain.
        let h = hm.apply s quiet plain in
        let h' = hk.apply (m s).1 h.1 in ground (arith, texts-append (m s).0 (k (m s).1).0);
  }

pub process_text-Passes : (t : Text) → Passes t (process_text t)
process_text-Passes t = record { apply = process_text_gives t }

pub skip-Passes : Passes [] skip
unfolding texts
skip-Passes = record { apply = λ s quiet plain. (sym (append-nil s.think_buffer), quiet, refl) }

pub Flushes-Finishes : (m : Emit) → Flushes m → Finishes [] m
Flushes-Finishes m h = record {
  apply = λ s quiet plain. h.apply s quiet ∙ sym (append-nil s.think_buffer);
}
