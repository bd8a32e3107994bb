-- ===== src/Router/Calls.antt =====
-- services/router-service/src/services/upstream_caller.py: a call of an upstream model, with its
-- retries over the channels. `outcomes 0`, `outcomes 1`, ... are what the attempts meet, with the
-- readings of the clock and the configuration that is loaded for the next one. The first component
-- of a result lists the targets that requests were dispatched to. The limiter is told of a success,
-- which changes nothing here and
-- is taken not to raise.
pub mod Trace
pub mod Distinct
mod Tests
use eucal_ai_backend.Prelude.{
  ℕ, zero, suc, ◌+◌, String, Bool, true, false, ◌&&◌, Option, none, some, List, [], ◌∷◌, ltb,
  if◌then◌else◌,
}
use eucal_ai_backend.Prelude.Text.{is_empty}
use eucal_ai_backend.Router.Channels.{ChannelSelector, report_failure, report_success}
use eucal_ai_backend.Router.Upstream.{should_retry}
use eucal_ai_backend.Router.Routing.{Env, TargetInfo, Result, ok, err, Config, resolve_target}

pub data Dispatched : Type 0 where
  response : Dispatched
  -- an exception, with its status code, if it has one
  raised : (status_code : Option ℕ) → Dispatched

pub record Attempt : Type 0 where
  pub result : Dispatched
  -- the clock, as `report_failure` reads it twice and `select` then
  pub first : ℕ
  pub second : ℕ
  pub now : ℕ
  pub config : Config

pub data CallResult : Type 0 where
  answered : TargetInfo → CallResult
  -- `UpstreamCallFailed`
  call_failed : (status_code : Option ℕ) → TargetInfo → CallResult
  -- "upstream retry loop exited unexpectedly"
  runtime_error : CallResult

-- `if channel_slug:`
abbrev pub used_slug : TargetInfo → Option String
used_slug target = elim (target.channel_slug) [
  | none ↦ none
  | some slug ↦ if is_empty slug then none else some slug
]

-- `tried_slugs.add(channel_slug)`
abbrev pub add_slug : Option String → List String → List String
add_slug none tried = tried
add_slug (some slug) tried = slug ∷ tried

abbrev pub success_reported : Option String → ChannelSelector → ChannelSelector
success_reported none s = s
success_reported (some slug) s = report_success slug s

abbrev pub failure_reported : (first second : ℕ) → Option String → ChannelSelector → ChannelSelector
failure_reported first second none s = s
failure_reported first second (some slug) s = report_failure first second slug s

abbrev pub dispatch_first :
    TargetInfo
    → (List TargetInfo × CallResult) × ChannelSelector
    → (List TargetInfo × CallResult) × ChannelSelector
dispatch_first target ((targets, result), s) = ((target ∷ targets, result), s)

module _ (env : Env) (model : String) (max_retries : ℕ) (outcomes : ℕ → Attempt) where
  -- The loop, with `left` attempts to go.
  unfoldable pub call_loop :
      (left attempt : ℕ)
      → TargetInfo
      → (tried_slugs : List String) → ChannelSelector
      → (List TargetInfo × CallResult) × ChannelSelector
  call_loop zero attempt target tried_slugs s = (([], runtime_error), s)
  call_loop (suc left) attempt target tried_slugs s =
      let o = outcomes attempt in
      let tried = add_slug (used_slug target) tried_slugs in
      let s' = failure_reported o.first o.second (used_slug target) s in
      elim (o.result) [
        | response ↦ ((target ∷ [], answered target), success_reported (used_slug target) s)
        | raised status_code ↦
            if ltb attempt max_retries && should_retry status_code
            then (let (next, s'') =
                  resolve_target env model o.now o.config tried (attempt + 1) s' in
                elim next [
                  | ok target' ↦
                      dispatch_first target (call_loop left (attempt + 1) target' tried s'')
                  | err error ↦ ((target ∷ [], call_failed status_code target), s'')
                ])
            else ((target ∷ [], call_failed status_code target), s')
      ]

-- `upstream_call_with_retry`
unfoldable pub upstream_call_with_retry :
    Env
    → (selected_model : String) → (target_info : TargetInfo) → (max_retries : ℕ) → (ℕ → Attempt)
    → ChannelSelector
    → (List TargetInfo × CallResult) × ChannelSelector
upstream_call_with_retry env selected_model target_info max_retries outcomes s =
    call_loop env selected_model max_retries outcomes (max_retries + 1) 0 target_info [] s
