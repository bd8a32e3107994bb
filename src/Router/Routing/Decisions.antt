-- ===== src/Router/Routing/Decisions.antt =====
-- services/router-service/src/services/routing.py: which model a request is sent to.
use eucal_ai_backend.Prelude.{
  ℕ, ◌≡◌, ◌≢◌, refl, ap, sym, ◌⊎◌, inl, inr, String, true, Option, none, some, arith, Bool-cases,
}
use eucal_ai_backend.Prelude.Keyed.{find, mem, nat_eq, string_eq}
use eucal_ai_backend.Router.Channels.{ChannelSelector}
use eucal_ai_backend.Router.Routing.{
  Env, TargetInfo, RouteError, Result, ok, err, Config, Classified, classified, failed,
  available_models, requested_aliases, tier3_model, fall_back, select_model,
  resolve_target_with_affinity, route_and_resolve,
}
use eucal_ai_backend.Router.Routing.Targets.{IsChecked, resolve_target_with_affinity-IsChecked}

Classified-cases :
    (answer : Classified)
    → ((model : String) × (answer ≡ classified model))
      ⊎ ((code : Option String) × (answer ≡ failed code))
Classified-cases (classified model) = inl (model, refl)
Classified-cases (failed code) = inr (code, refl)

pub Result-cases :
    {A : Type 0} (r : Result A) → ((a : A) × (r ≡ ok a)) ⊎ ((error : RouteError) × (r ≡ err error))
Result-cases (ok a) = inl (a, refl)
Result-cases (err error) = inr (error, refl)

-- why a model is selected
abbrev pub IsReason : Config → (requested_model : String) → Classified → String → Type 0
IsReason config requested_model answer model =
    (answer ≡ classified model)
    ⊎ ((requested_model ≡ model) × (mem model (available_models config) ≡ true))
    ⊎ ((code : Option String) × (answer ≡ failed code) × (tier3_model config ≡ some model))

fall_back-ok :
    (config : Config) (code : Option String) (model : String)
    → fall_back config code ≡ ok model
    → tier3_model config ≡ some model
unfolding fall_back
fall_back-ok config none model h = ground arith
fall_back-ok config (some code) model h = ground arith

listed_of_select_model :
    (config : Config) (requested_model : String) (answer : Classified) (model : String)
    → select_model config requested_model answer ≡ ok model
    → mem requested_model (requested_aliases config) ≡ true
unfolding select_model
listed_of_select_model config requested_model answer model h =
    elim (Bool-cases (mem requested_model (requested_aliases config))) [
      | inl listed ↦ listed
      | inr unknown ↦ ground arith
    ]

module _ (config : Config) (requested_model model : String)
    (listed : mem requested_model (requested_aliases config) ≡ true) where
  select_model-IsReason :
      (answer : Classified)
      → select_model config requested_model answer ≡ ok model
      → IsReason config requested_model answer model
  unfolding select_model
  select_model-IsReason answer h =
      elim (Bool-cases (string_eq.beq requested_model config.router_alias)) [
        | inl automatic ↦ elim (Classified-cases answer) [
          | inl (chosen, e) ↦ inl (ground arith)
          | inr (code, e) ↦ inr (inr (code, e, fall_back-ok config code model (ground arith)))
        ]
        | inr named ↦ elim (Bool-cases (mem requested_model (available_models config))) [
          | inl there ↦
              let same : requested_model ≡ model = ground arith in inr (inl (same, ground arith))
          | inr missing ↦ elim (Classified-cases answer) [
            | inl (chosen, e) ↦ inl (ground arith)
            | inr (code, e) ↦ inr (inr (code, e, ground arith))
          ]
        ]
      ]

-- what is known of a request that is sent on
pub record IsRouted (env : Env) (config : Config) (requested_model : String) (answer : Classified)
    (model : String) (target : TargetInfo) : Type 0 where
  pub asked_for : mem requested_model (requested_aliases config) ≡ true
  pub reason : IsReason config requested_model answer model
  pub priced : mem model config.priced_models ≡ true
  pub checked : IsChecked env model target

-- A request is routed only if its model is one of the public aliases, to a model that has prices:
-- the one that the inference service has chosen, or the requested one where the configuration has
-- it, or that of tier 3, if the configuration has it and the inference service has failed; and to
-- a target for that model whose URL passes the check, whether an affinity, a channel or a provider
-- gives it.
pub route-IsRouted :
    (env : Env) (now : ℕ) (config : Config) (requested_model : String) (answer : Classified)
    (cached : String) (s : ChannelSelector) (model : String) (target : TargetInfo)
    → (route_and_resolve env now config requested_model answer cached s).0 ≡ ok (model, target)
    → IsRouted env config requested_model answer model target
unfolding route_and_resolve
route-IsRouted env now config requested_model answer cached s model target h =
    elim (Result-cases (select_model config requested_model answer)) [
      | inr (error, e) ↦ ground arith
      | inl (chosen, e) ↦ elim (Bool-cases (mem chosen config.priced_models)) [
        | inr unpriced ↦ ground arith
        | inl priced ↦
            elim (Result-cases (resolve_target_with_affinity env chosen now config cached s).0) [
              | inr (error, e') ↦ ground arith
              | inl (info, e') ↦
                  let same : chosen ≡ model = ground arith in
                  let same_target : info ≡ target = ground arith in
                  let listed = listed_of_select_model config requested_model answer chosen e in
                  let checked =
                    resolve_target_with_affinity-IsChecked env chosen info now config cached s e' in
                  record {
                    asked_for = listed;
                    reason =
                        rw (← same)
                          (select_model-IsReason config requested_model chosen listed answer e);
                    priced = rw (← same) priced;
                    checked = rw (← same, ← same_target) checked;
                  }
            ]
      ]
    ]

fall_back-fallback :
    (config : Config) (code : Option String) (model : String)
    → code ≢ some "auth"
    → code ≢ some "validation"
    → tier3_model config ≡ some model
    → fall_back config code ≡ ok model
unfolding fall_back find
fall_back-fallback config none model not_auth not_validation fallback = ground arith
fall_back-fallback config (some code) model not_auth not_validation fallback =
    let other : "auth" ≢ code = λ e. not_auth (ap some (sym e)) in
    let other' : "validation" ≢ code = λ e. not_validation (ap some (sym e)) in
    ground (arith, string_eq.beq_iff "auth" code, string_eq.beq_iff "validation" code)

select_model_fallback :
    (config : Config) (requested_model : String) (code : Option String) (model : String)
    → code ≢ some "auth"
    → code ≢ some "validation"
    → tier3_model config ≡ some model
    → select_model config requested_model (failed code)
      ≡ select_model config requested_model (classified model)
unfolding select_model
select_model_fallback config requested_model code model not_auth not_validation fallback =
    let chosen : fall_back config code ≡ ok model =
      fall_back-fallback config code model not_auth not_validation fallback in
    ground arith

-- A failing inference service is as good as one that chooses the model of tier 3: where it fails
-- with no code or with one that is neither `auth` nor `validation`, and the configuration has a
-- model for tier 3, every request, whatever model it asks for, ends as it would have if the service
-- had chosen that model: with the same model and target or the same error, and the same selector.
pub route_degrades :
    (env : Env) (now : ℕ) (config : Config) (requested_model : String) (code : Option String)
    (cached : String) (s : ChannelSelector) (model : String)
    → code ≢ some "auth"
    → code ≢ some "validation"
    → tier3_model config ≡ some model
    → route_and_resolve env now config requested_model (failed code) cached s
      ≡ route_and_resolve env now config requested_model (classified model) cached s
unfolding route_and_resolve
route_degrades env now config requested_model code cached s model not_auth not_validation fallback =
    rw
      (
        select_model_fallback config requested_model code model not_auth not_validation fallback,
        route_and_resolve,
      )
      refl
