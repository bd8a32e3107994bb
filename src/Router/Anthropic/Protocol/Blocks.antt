-- ===== src/Router/Anthropic/Protocol/Blocks.antt =====
-- services/router-service/src/services/anthropic_convert.py: texts and thoughts
-- keep to the protocol.
use eucal_ai_backend.Prelude.{
  Bool, ◌≡◌, inl, inr, some, [], ◌++◌, arith, leb, Bool-cases, Option-cases, is_nonempty, length,
}
use eucal_ai_backend.Prelude.Keyed.{nat_eq}
use eucal_ai_backend.Router.Anthropic.Tags.{Text, partition, think_start, think_end}
use eucal_ai_backend.Router.Anthropic.{
  text, in_thinking, done, StreamConverter, modify, emit_block_start_text,
  emit_block_start_thinking, emit_block_stop, emit_text_delta, emit_thinking_delta, close_block,
  open_text_block, emit_plain_text, start_thinking_block, process_done, process_thinking,
  flush_safe, process_idle, process_text,
}
use eucal_ai_backend.Router.Anthropic.Protocol.Client.{read, read_all}
use eucal_ai_backend.Router.Anthropic.Protocol.Rules.{
  Takes, Takes->>, Takes-skip, Takes-when, Takes-mono, IsRunning, IsOpen, IsClosed, IsQuiet, IsLive,
  IsInThought, thought-IsLive, thought-IsOpen, Takes-IsQuiet, quiet-IsLive,
}

pub emit_block_stop-Takes : {strict : Bool} → Takes strict IsOpen IsClosed emit_block_stop
unfolding emit_block_stop read_all read
emit_block_stop-Takes = record {
  apply = λ s h. elim (Option-cases (s.block)) [
    | inl shut ↦ ground arith
    | inr (kind, there) ↦ ground arith
  ];
}

pub close_block-Takes : {strict : Bool} → Takes strict IsRunning IsClosed close_block
unfolding close_block emit_block_stop read_all read
close_block-Takes = record {
  apply = λ s h. elim (Option-cases (s.block)) [
    | inl shut ↦ ground arith
    | inr (kind, there) ↦ ground arith
  ];
}

pub emit_block_start_text-Takes :
    {strict : Bool} → Takes strict IsClosed IsOpen emit_block_start_text
unfolding emit_block_start_text read_all read
emit_block_start_text-Takes = record { apply = λ s h. ground arith }

pub emit_block_start_thinking-Takes :
    {strict : Bool} → Takes strict IsClosed (IsInThought strict) emit_block_start_thinking
unfolding emit_block_start_thinking read_all read
emit_block_start_thinking-Takes = record { apply = λ s h. ground arith }

pub record IsInText (s : StreamConverter) : Type 0 where
  pub running : IsRunning s
  pub text_block : s.block ≡ some text

pub open_text_block-Takes : {strict : Bool} → Takes strict IsRunning IsInText open_text_block
unfolding open_text_block close_block emit_block_stop emit_block_start_text read_all read
open_text_block-Takes = record { apply = λ s h. ground arith }

pub emit_text_delta-Takes :
    {strict : Bool} (t : Text) → Takes strict IsInText IsOpen (emit_text_delta t)
unfolding read_all read
emit_text_delta-Takes t = record { apply = λ s h. ground arith }

pub emit_thinking_delta-Takes :
    {strict : Bool} (t : Text)
    → Takes strict (IsInThought strict) (IsInThought strict) (emit_thinking_delta t)
unfolding read_all read
emit_thinking_delta-Takes t = record {
  apply = λ s h. elim (Option-cases (s.block)) [
    | inl shut ↦ ground arith
    | inr (kind, there) ↦ ground arith
  ];
}

pub emit_plain_text-Takes :
    {strict : Bool} (t : Text) → Takes strict IsRunning IsOpen (emit_plain_text t)
unfolding emit_plain_text
emit_plain_text-Takes t = Takes->> open_text_block-Takes (emit_text_delta-Takes t)

emit_plain_text_kept :
    (t : Text) (s : StreamConverter) → (emit_plain_text t s).1.think_state ≡ s.think_state
unfolding emit_plain_text open_text_block close_block emit_block_stop emit_block_start_text
emit_plain_text_kept t s = elim (Option-cases (s.block)) [
  | inl shut ↦ ground arith
  | inr (kind, there) ↦ ground arith
]

pub emit_plain_text-IsQuiet :
    {strict : Bool} (t : Text) → Takes strict IsQuiet IsQuiet (emit_plain_text t)
emit_plain_text-IsQuiet t =
    Takes-IsQuiet (λ s h. h.running) (emit_plain_text_kept t) (emit_plain_text-Takes t)

pub start_thinking_block-Takes :
    {strict : Bool} → Takes strict IsRunning (IsInThought strict) start_thinking_block
unfolding start_thinking_block
start_thinking_block-Takes = Takes->> close_block-Takes emit_block_start_thinking-Takes

pub process_done-Takes :
    {strict : Bool} (t : Text) → Takes strict IsQuiet (IsLive strict) (process_done t)
unfolding process_done
process_done-Takes t =
    Takes-when _ (Takes-mono (λ s h. h) quiet-IsLive (emit_plain_text-IsQuiet t)) quiet-IsLive

pub end_thought-Takes :
    {strict : Bool} → Takes strict IsClosed IsQuiet (modify (λ s. record s { think_state = done }))
unfolding read_all
end_thought-Takes = record { apply = λ s h. ground arith }

pub begin_thought-Takes :
    {strict : Bool}
    → Takes strict IsRunning IsRunning (modify (λ s. record s { think_state = in_thinking }))
unfolding read_all
begin_thought-Takes = record { apply = λ s h. ground arith }

pub keep_buffer-IsInThought :
    {strict : Bool} (t : Text)
    → Takes strict
        (IsInThought strict)
        (IsInThought strict)
        (modify (λ s. record s { think_buffer = t }))
unfolding read_all
keep_buffer-IsInThought t = record { apply = λ s h. ground arith }

pub keep_buffer :
    {strict : Bool} (t : Text)
    → Takes strict IsQuiet IsQuiet (modify (λ s. record s { think_buffer = t }))
unfolding read_all
keep_buffer t = record { apply = λ s h. ground arith }

pub process_thinking-Takes :
    {strict : Bool} (t : Text)
    → Takes strict (IsInThought strict) (IsLive strict) (process_thinking t)
unfolding process_thinking
process_thinking-Takes t = elim (Bool-cases (is_nonempty t)) [
  | inr nothing ↦ rw nothing (Takes-skip thought-IsLive)
  | inl more ↦ rw more (elim (Option-cases (partition think_end t)) [
    | inl inside_still ↦
        rw inside_still (Takes-mono (λ s h. h) thought-IsLive (emit_thinking_delta-Takes t))
    | inr ((before, after), found) ↦ rw found (
        Takes->>
          (Takes-when _ (Takes-mono (λ s h. h) thought-IsOpen (emit_thinking_delta-Takes before))
            thought-IsOpen)
          (Takes->> emit_block_stop-Takes (Takes->> end_thought-Takes (process_done-Takes after))))
  ])
]

pub flush_safe-Takes :
    {strict : Bool} (t : Text) → Takes strict IsQuiet (IsLive strict) (flush_safe t)
unfolding flush_safe
flush_safe-Takes t =
    Takes->> (keep_buffer _)
      (Takes-when _ (Takes-mono (λ s h. h) quiet-IsLive (emit_plain_text-IsQuiet _)) quiet-IsLive)

pub IsRunning-open : (s : StreamConverter) → IsOpen s → IsRunning s
IsRunning-open s h = h.running

pub process_idle-Takes :
    {strict : Bool} (t : Text) → Takes strict IsQuiet (IsLive strict) (process_idle t)
unfolding process_idle
process_idle-Takes t = elim (Option-cases (partition think_start t)) [
  | inr ((before, after), found) ↦
      rw (found, process_idle)
        (Takes->>
          (Takes-when _
            (Takes-mono (λ s h. h.running) IsRunning-open (emit_plain_text-Takes before))
            (λ s h. h.running))
          (Takes->> begin_thought-Takes (
            Takes->> start_thinking_block-Takes
              (Takes->> (keep_buffer-IsInThought []) (process_thinking-Takes after)))))
  | inl plain ↦
      rw (plain, process_idle)
        (elim (Bool-cases (leb 7 (length t))) [
          | inl long ↦ rw (long, process_idle) (flush_safe-Takes t)
          | inr short ↦
              rw (short, process_idle) (Takes-mono (λ s h. h) quiet-IsLive (keep_buffer t))
        ])
]

pub process_text-Takes :
    {strict : Bool} (t : Text) → Takes strict (IsLive strict) (IsLive strict) (process_text t)
unfolding process_text read_all
process_text-Takes {strict} t = record {
  apply = λ s h. ground (
    arith,
    (process_idle-Takes {strict = strict} (s.think_buffer ++ t)).apply s,
    (process_thinking-Takes {strict = strict} t).apply s,
    (process_done-Takes {strict = strict} t).apply s,
  );
}
