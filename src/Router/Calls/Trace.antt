-- ===== src/Router/Calls/Trace.antt =====
-- services/router-service/src/services/upstream_caller.py: the targets that a call is dispatched to.
use eucal_ai_backend.Prelude.{
  ℕ, zero, suc, ◌+◌, ◌≤◌, ◌<◌, ◌≡◌, ◌≢◌, refl, ◌⊎◌, inl, inr, String, ◌&&◌, Option, List, [], ◌∷◌,
  arith, ltb, All, Bool-cases, length,
}
use eucal_ai_backend.Prelude.Keyed.{string_eq}
use eucal_ai_backend.Router.Channels.{ChannelSelector}
use eucal_ai_backend.Router.Upstream.{should_retry}
use eucal_ai_backend.Router.Routing.{
  Env, TargetInfo, Result, ok, Config, Classified, resolve_target, route_and_resolve,
}
use eucal_ai_backend.Router.Routing.Targets.{IsChecked, resolve_target-IsChecked}
use eucal_ai_backend.Router.Routing.Decisions.{Result-cases, route-IsRouted}
use eucal_ai_backend.Router.Calls.{
  Dispatched, response, raised, Attempt, CallResult, answered, call_failed, runtime_error,
  used_slug, add_slug, failure_reported, dispatch_first, call_loop, upstream_call_with_retry,
}

Dispatched-cases : (d : Dispatched) → (d ≡ response) ⊎ ((code : Option ℕ) × (d ≡ raised code))
Dispatched-cases response = inl refl
Dispatched-cases (raised code) = inr (code, refl)

module _ (env : Env) (model : String) (max_retries : ℕ) (outcomes : ℕ → Attempt) where
  -- the next target, and the selector after it
  abbrev pub next_target :
      (attempt : ℕ)
      → TargetInfo
      → List String
      → ChannelSelector
      → Result TargetInfo × ChannelSelector
  next_target attempt target tried s =
      let o = outcomes attempt in
      resolve_target env model o.now o.config (add_slug (used_slug target) tried) (attempt + 1)
        (failure_reported o.first o.second (used_slug target) s)

  -- An attempt is the last, or it has failed and the next target is found.
  pub record Continues (left attempt : ℕ) (target : TargetInfo) (tried : List String)
      (s : ChannelSelector) : Type 0 where
    pub target' : TargetInfo
    pub retried : attempt < max_retries
    pub found : (next_target attempt target tried s).0 ≡ ok target'
    pub goes_on :
        call_loop env model max_retries outcomes (suc left) attempt target tried s
        ≡ dispatch_first target (
            call_loop env model max_retries outcomes left
              (attempt + 1)
              target'
              (add_slug (used_slug target) tried)
              (next_target attempt target tried s).1)

  pub record Stops (left attempt : ℕ) (target : TargetInfo) (tried : List String)
      (s : ChannelSelector) : Type 0 where
    pub result : CallResult
    pub no_error : result ≢ runtime_error
    pub stops :
        (call_loop env model max_retries outcomes (suc left) attempt target tried s).0
        ≡ (target ∷ [], result)

  pub call_loop-cases :
      (left attempt : ℕ) (target : TargetInfo) (tried : List String) (s : ChannelSelector)
      → Continues left attempt target tried s ⊎ Stops left attempt target tried s
  unfolding call_loop
  call_loop-cases left attempt target tried s =
      let o = outcomes attempt in
      elim (Dispatched-cases o.result) [
        | inl done ↦
            inr (record { result = answered target; no_error = λ e. cc; stops = ground arith })
        | inr (code, failed) ↦ elim (Bool-cases (ltb attempt max_retries && should_retry code)) [
          | inr given_up ↦ inr (record {
            result = call_failed code target;
            no_error = λ e. cc;
            stops = ground arith;
          })
          | inl again ↦ elim (Result-cases (next_target attempt target tried s).0) [
            | inr (error, none_found) ↦ inr (record {
              result = call_failed code target;
              no_error = λ e. cc;
              stops = ground arith;
            })
            | inl (target', found) ↦ inl (record {
              target' = target';
              retried = ground arith;
              found = found;
              goes_on = ground arith;
            })
          ]
        ]
      ]

  call_loop-IsChecked :
      (left attempt : ℕ) (target : TargetInfo) (tried : List String) (s : ChannelSelector)
      → IsChecked env model target
      → All
          (IsChecked env model)
          (call_loop env model max_retries outcomes left attempt target tried s).0.0
  unfolding call_loop
  call_loop-IsChecked zero attempt target tried s h = tt
  call_loop-IsChecked (suc left) attempt target tried s h =
      elim (call_loop-cases left attempt target tried s) [
        | inr last ↦ rw last.stops (h, tt)
        | inl more ↦
            let o = outcomes attempt in
            let tried' = add_slug (used_slug target) tried in
            let checked =
              resolve_target-IsChecked env model more.target' o.now o.config tried' (attempt + 1)
                (failure_reported o.first o.second (used_slug target) s) more.found in
            rw more.goes_on (
              h,
              call_loop-IsChecked left (attempt + 1) more.target' tried'
                  (next_target attempt target tried s).1 checked,
            )
      ]

  call_loop_ends :
      (left attempt : ℕ) (target : TargetInfo) (tried : List String) (s : ChannelSelector)
      → left + attempt ≡ max_retries + 1
      → attempt ≤ max_retries
      → let (targets, result) =
          (call_loop env model max_retries outcomes left attempt target tried s).0 in
        (result ≢ runtime_error) × (length targets + attempt ≤ max_retries + 1)
  unfolding call_loop
  call_loop_ends zero attempt target tried s whole more = absurd (omega arith)
  call_loop_ends (suc left) attempt target tried s whole on =
      elim (call_loop-cases left attempt target tried s) [
        | inr last ↦ rw last.stops (last.no_error, (omega arith))
        | inl more ↦
            let (ends, short) =
              call_loop_ends left (attempt + 1) more.target' (add_slug (used_slug target) tried)
                (next_target attempt target tried s).1 (omega arith)
                (omega (arith, more.retried)) in
            rw more.goes_on (ends, omega arith)
      ]

-- A call always ends, with an answer or with `UpstreamCallFailed`, and it sends no more requests
-- than one and the allowed retries.
pub upstream_call_ends :
    (env : Env) (model : String) (target : TargetInfo) (max_retries : ℕ) (outcomes : ℕ → Attempt)
    (s : ChannelSelector)
    → let (targets, result) =
        (upstream_call_with_retry env model target max_retries outcomes s).0 in
      (result ≢ runtime_error) × (length targets ≤ max_retries + 1)
unfolding upstream_call_with_retry
upstream_call_ends env model target max_retries outcomes s =
    let (ends, short) =
      call_loop_ends env model max_retries outcomes (max_retries + 1) 0 target [] s (omega arith)
        (omega arith) in
    (ends, omega arith)

-- No request is ever sent to a URL that the check refuses: whatever target a request is routed to,
-- and whatever its call meets, every target that it is dispatched to is for the selected model and
-- has a URL that passes.
pub route_call-IsChecked :
    (env : Env) (now : ℕ) (config : Config) (requested_model : String) (answer : Classified)
    (cached : String) (s : ChannelSelector) (model : String) (target : TargetInfo) (max_retries : ℕ)
    (outcomes : ℕ → Attempt)
    → (route_and_resolve env now config requested_model answer cached s).0 ≡ ok (model, target)
    → let s' = (route_and_resolve env now config requested_model answer cached s).1 in
      All
        (IsChecked env model)
        (upstream_call_with_retry env model target max_retries outcomes s').0.0
unfolding upstream_call_with_retry
route_call-IsChecked env now config requested_model answer cached s model target max_retries
      outcomes h =
    let routed = route-IsRouted env now config requested_model answer cached s model target h in
    call_loop-IsChecked env model max_retries outcomes (max_retries + 1) 0 target []
      (route_and_resolve env now config requested_model answer cached s).1 routed.checked
