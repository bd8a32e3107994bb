-- ===== src/Router/Anthropic/Protocol/Rules.antt =====
-- services/router-service/src/services/anthropic_convert.py: rules for methods
-- of AnthropicStreamConverter that emit what a client accepts, and the converter's states.
use eucal_ai_backend.Prelude.{
  ◌≡◌, refl, inl, inr, ◌∙◌, Bool, true, false, Option, none, some, arith, Option-cases, ◌||◌, not,
  ap,
}
use eucal_ai_backend.Prelude.Keyed.{nat_eq}
use eucal_ai_backend.Router.Anthropic.{
  BlockType, ThinkState, idle, in_thinking, done, StreamConverter, Emit, ◌>>◌, skip, when,
}
use eucal_ai_backend.Router.Anthropic.Protocol.Client.{
  is_thinking_block, read, read_all, reader_of, read_all-append,
}

-- A method that is called where `P` holds emits what a client accepts, and leaves `Q`.
pub record Takes (strict : Bool) (P Q : StreamConverter → Type 0) (m : Emit) : Type 0 where
  pub apply :
      (s : StreamConverter)
      → P s
      → (read_all strict (m s).0 (reader_of s) ≡ some (reader_of (m s).1)) × Q (m s).1

module _ {strict : Bool} {P Q : StreamConverter → Type 0} where
  pub Takes->> :
      {R : StreamConverter → Type 0} {m k : Emit}
      → Takes strict P Q m
      → Takes strict Q R k
      → Takes strict P R (m >> k)
  Takes->> {m = m} {k} hm hk = record {
    apply = λ s p.
        let (first, q) = hm.apply s p in
        let (more, r) = hk.apply (m s).1 q in
        (
          read_all-append strict (m s).0 (k (m s).1).0 (reader_of s) (reader_of (m s).1) first
              ∙ more,
          r,
        );
  }

  pub Takes-skip : ((s : StreamConverter) → P s → Q s) → Takes strict P Q skip
  unfolding read_all
  Takes-skip f = record { apply = λ s p. (refl, f s p) }

  pub Takes-when :
      (b : Bool) {m : Emit}
      → Takes strict P Q m
      → ((s : StreamConverter) → P s → Q s)
      → Takes strict P Q (when b m)
  unfolding when
  Takes-when true h f = h
  Takes-when false h f = Takes-skip f

  -- what is known before may be more, and what is known after less
  pub Takes-mono :
      {P' Q' : StreamConverter → Type 0} {m : Emit}
      → ((s : StreamConverter) → P' s → P s)
      → ((s : StreamConverter) → Q s → Q' s)
      → Takes strict P Q m
      → Takes strict P' Q' m
  Takes-mono {m = m} f g h = record {
    apply = λ s p. let (read, q) = h.apply s (f s p) in (read, g (m s).1 q);
  }

abbrev pub is_open : Option BlockType → Bool
is_open none = false
is_open (some kind) = true

pub record IsRunning (s : StreamConverter) : Type 0 where
  pub has_started : s.started ≡ true
  pub unfinished : s.finished ≡ false

pub record IsOpen (s : StreamConverter) : Type 0 where
  pub running : IsRunning s
  pub open_block : is_open s.block ≡ true

pub record IsClosed (s : StreamConverter) : Type 0 where
  pub running : IsRunning s
  pub no_block : s.block ≡ none

abbrev pub is_thinking : ThinkState → Bool
is_thinking idle = false
is_thinking in_thinking = true
is_thinking done = false

pub record IsQuiet (s : StreamConverter) : Type 0 where
  pub running : IsRunning s
  pub quiet : is_thinking s.think_state ≡ false

-- the open block may take a thought, for a client that is `strict` or not
abbrev pub fits : (strict : Bool) → Option BlockType → Bool
fits strict none = false
fits strict (some kind) = is_thinking_block kind || not strict

pub record IsInThought (strict : Bool) (s : StreamConverter) : Type 0 where
  pub running : IsRunning s
  pub fitting : fits strict s.block ≡ true

-- between two chunks: a thought that goes on has a block
pub record IsLive (strict : Bool) (s : StreamConverter) : Type 0 where
  pub running : IsRunning s
  pub thought : is_thinking s.think_state ≡ true → fits strict s.block ≡ true

pub thought-IsLive : {strict : Bool} (s : StreamConverter) → IsInThought strict s → IsLive strict s
thought-IsLive s h = record { running = h.running; thought = λ t. h.fitting }

pub thought-IsOpen : {strict : Bool} (s : StreamConverter) → IsInThought strict s → IsOpen s
thought-IsOpen s h = elim (Option-cases (s.block)) [
  | inl shut ↦ let no = h.fitting in ground arith
  | inr (kind, there) ↦ record { running = h.running; open_block = ground arith }
]

pub quiet-IsLive : {strict : Bool} (s : StreamConverter) → IsQuiet s → IsLive strict s
quiet-IsLive s h = record { running = h.running; thought = λ t. ground arith }

-- what a method leaves quiet that does not touch the state of the thoughts
pub Takes-IsQuiet :
    {strict : Bool} {Q : StreamConverter → Type 0} {m : Emit}
    → ((s : StreamConverter) → Q s → IsRunning s)
    → ((s : StreamConverter) → (m s).1.think_state ≡ s.think_state)
    → Takes strict IsRunning Q m
    → Takes strict IsQuiet IsQuiet m
Takes-IsQuiet {m = m} runs keeps h = record {
  apply = λ s p.
      let (read, q) = h.apply s p.running in
      (read, record { running = runs (m s).1 q; quiet = ap is_thinking (keeps s) ∙ p.quiet });
}
