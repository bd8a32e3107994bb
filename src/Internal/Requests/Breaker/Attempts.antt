-- ===== src/Internal/Requests/Breaker/Attempts.antt =====
-- services/router-service/src/common/internal.py: what the loop over the attempts of
-- a call comes to.
use mathlib.Core.Path.{subst}
use eucal_ai_backend.Prelude.{
  ℕ, zero, suc, ◌+◌, ◌≤◌, ◌<◌, ◌≡◌, ◌≢◌, refl, ap, ◌∙◌, ◌⊎◌, inl, inr, String, none, arith,
  Bool-cases, leb,
}
use eucal_ai_backend.Prelude.Keyed.{find, string_eq, find-put_ne}
use eucal_ai_backend.Internal.Requests.{
  Circuits, closed, get_circuit_state, check_circuit_open, record_success, failed_state,
  record_failure, Response, Reply, answered, http_error, Outcome, unavailable_error, Policy, fail,
  conclude, run_attempts,
}

-- an answer that is tried again: a server error, or none at all
abbrev pub IsRetried : Reply → Type 0
IsRetried (answered response) = 500 ≤ response.status_code
IsRetried http_error = Unit

pub retried-cases :
    (r : Reply)
    → IsRetried r
    → (r ≡ http_error) ⊎ ((p : Response) × (r ≡ answered p) × (500 ≤ p.status_code))
retried-cases (answered p) h = inr (p, refl, h)
retried-cases http_error h = inl refl

pub Reply-cases : (r : Reply) → (r ≡ http_error) ⊎ ((p : Response) × (r ≡ answered p))
Reply-cases (answered p) = inr (p, refl)
Reply-cases http_error = inl refl

pub later-IsRetried :
    (replies : ℕ → Reply) (attempt n : ℕ)
    → ((i : ℕ) → i < suc n → IsRetried (replies (attempt + i)))
    → (i : ℕ) → i < n
    → IsRetried (replies (attempt + 1 + i))
later-IsRetried replies attempt n h i lt =
    let e : attempt + suc i ≡ attempt + 1 + i = omega arith in
    subst (λ m. IsRetried (replies m)) e (h (suc i) (omega arith))

-- an answer that is not tried again
abbrev pub IsFinal : Reply → Type 0
IsFinal (answered response) = response.status_code < 500
IsFinal http_error = ⊥

pub IsFinal-cases : (r : Reply) → IsRetried r ⊎ IsFinal r
IsFinal-cases (answered p) = elim (Bool-cases (leb 500 p.status_code)) [
  | inl server ↦ inl (ground arith)
  | inr fine ↦ inr (ground arith)
]
IsFinal-cases http_error = inl tt

module _ (policy : Policy) (key : String) (later : ℕ) where
  pub attempts_failed :
      (replies : ℕ → Reply) (left attempt : ℕ) (circuits : Circuits)
      → ((n : ℕ) → IsRetried (replies n))
      → (run_attempts policy key later replies (suc left) attempt circuits).1
        ≡ fail policy key later circuits
  unfolding run_attempts conclude
  attempts_failed replies zero attempt circuits h =
      elim (retried-cases (replies attempt) (h attempt)) [
        | inl nothing ↦ ground arith
        | inr (p, e, server) ↦ ground arith
      ]
  attempts_failed replies (suc left) attempt circuits h =
      let rest = attempts_failed replies left (attempt + 1) circuits h in
      elim (retried-cases (replies attempt) (h attempt)) [
        | inl nothing ↦ ground arith
        | inr (p, e, server) ↦ ground arith
      ]

  pub attempts_reach :
      (replies : ℕ → Reply) (response : Response) (n left attempt : ℕ) (circuits : Circuits)
      → ((i : ℕ) → i < n → IsRetried (replies (attempt + i)))
      → replies (attempt + n) ≡ answered response
      → response.status_code < 500
      → n < left
      → run_attempts policy key later replies left attempt circuits
        ≡ conclude policy key later response circuits
  unfolding run_attempts
  attempts_reach replies response n zero attempt circuits h e good enough = absurd (omega arith)
  attempts_reach replies response zero (suc left) attempt circuits h e good enough =
      let here : replies attempt ≡ answered response = ap replies (omega arith) ∙ e in ground arith
  attempts_reach replies response (suc n) (suc left) attempt circuits h e good enough =
      let start : attempt + 0 ≡ attempt = omega arith in
      let first = subst (λ m. IsRetried (replies m)) start (h 0 (omega arith)) in
      let rest =
        attempts_reach replies response n left (attempt + 1) circuits
          (later-IsRetried replies attempt n h) (ap replies (omega arith) ∙ e) good (omega arith) in
      elim (retried-cases (replies attempt) first) [
        | inl nothing ↦ ground arith
        | inr (p, e, server) ↦ ground arith
      ]

  pub conclude_other :
      (response : Response) (circuits : Circuits) (other : String)
      → key ≢ other
      → find other (conclude policy key later response circuits).1 ≡ find other circuits
  unfolding conclude record_success record_failure
  conclude_other response circuits other h =
      let won = record_success key circuits in
      let failed = λ (t : Circuits).
        failed_state later policy.threshold policy.cooldown_seconds (get_circuit_state key t) in
      ground (
        arith,
        find-put_ne key other closed circuits h,
        find-put_ne key other (failed circuits) circuits h,
        find-put_ne key other (failed won) won h,
      )

  pub attempts_other :
      (replies : ℕ → Reply) (left attempt : ℕ) (circuits : Circuits) (other : String)
      → key ≢ other
      → find other (run_attempts policy key later replies left attempt circuits).1
        ≡ find other circuits
  unfolding run_attempts record_failure
  attempts_other replies zero attempt circuits other h = refl
  attempts_other replies (suc left) attempt circuits other h =
      let rest = attempts_other replies left (attempt + 1) circuits other h in
      elim (Reply-cases (replies attempt)) [
        | inl nothing ↦
            let failed =
              failed_state later policy.threshold policy.cooldown_seconds
                (get_circuit_state key circuits) in
            ground (arith, find-put_ne key other failed circuits h)
        | inr (p, e) ↦ ground (arith, conclude_other p circuits other h)
      ]

  pub check_other :
      (now now' : ℕ) (circuits : Circuits) (other : String)
      → key ≢ other
      → find other (check_circuit_open now now' key circuits).1 ≡ find other circuits
  unfolding check_circuit_open
  check_other now now' circuits other h =
      let reopened = record (get_circuit_state key circuits) { opened_until = none } in
      ground (arith, find-put_ne key other reopened circuits h)

  -- what the last attempt ends with
  unfoldable pub settle : Reply → Circuits → Outcome × Circuits
  settle (answered response) circuits = conclude policy key later response circuits
  settle http_error circuits = (unavailable_error none, fail policy key later circuits)

  -- Attempt `n` decides: those before it are tried again, and it is the first whose answer is not,
  -- or the last that is allowed.
  unfoldable pub Decides : (replies : ℕ → Reply) (start last n : ℕ) → Type 0
  Decides replies start last n =
      (n ≤ last)
      × ((i : ℕ) → i < n → IsRetried (replies (start + i)))
      × ((n ≡ last) ⊎ IsFinal (replies (start + n)))

  attempt_last :
      (replies : ℕ → Reply) (attempt : ℕ) (circuits : Circuits)
      → run_attempts policy key later replies 1 attempt circuits ≡ settle (replies attempt) circuits
  unfolding run_attempts settle
  attempt_last replies attempt circuits = elim (Reply-cases (replies attempt)) [
    | inl nothing ↦ ground arith
    | inr (p, e) ↦ ground arith
  ]

  attempt_final :
      (replies : ℕ → Reply) (left attempt : ℕ) (circuits : Circuits)
      → IsFinal (replies attempt)
      → run_attempts policy key later replies (suc left) attempt circuits
        ≡ settle (replies attempt) circuits
  unfolding run_attempts settle
  attempt_final replies left attempt circuits good = elim (Reply-cases (replies attempt)) [
    | inl nothing ↦ absurd (subst IsFinal nothing good)
    | inr (p, e) ↦ let fine : p.status_code < 500 = subst IsFinal e good in ground arith
  ]

  attempt_again :
      (replies : ℕ → Reply) (left attempt : ℕ) (circuits : Circuits)
      → IsRetried (replies attempt)
      → run_attempts policy key later replies (suc (suc left)) attempt circuits
        ≡ run_attempts policy key later replies (suc left) (attempt + 1) circuits
  unfolding run_attempts
  attempt_again replies left attempt circuits bad = elim (retried-cases (replies attempt) bad) [
    | inl nothing ↦ ground arith
    | inr (p, e, server) ↦ ground arith
  ]

  before_later :
      (replies : ℕ → Reply) (attempt n : ℕ)
      → IsRetried (replies attempt)
      → ((i : ℕ) → i < n → IsRetried (replies (attempt + 1 + i)))
      → (i : ℕ) → i < suc n
      → IsRetried (replies (attempt + i))
  before_later replies attempt n first h zero lt =
      let e : attempt ≡ attempt + 0 = omega arith in subst (λ m. IsRetried (replies m)) e first
  before_later replies attempt n first h (suc i) lt =
      let e : attempt + 1 + i ≡ attempt + suc i = omega arith in
      subst (λ m. IsRetried (replies m)) e (h i (omega arith))

  pub attempts_decided :
      (replies : ℕ → Reply) (left attempt : ℕ) (circuits : Circuits)
      → (n : ℕ) × Decides replies attempt left n
        × (run_attempts policy key later replies (suc left) attempt circuits
            ≡ settle (replies (attempt + n)) circuits)
  unfolding Decides
  attempts_decided replies zero attempt circuits =
      let start : attempt ≡ attempt + 0 = omega arith in
      (
        0,
        (omega arith, (λ i lt. absurd (omega arith)), inl refl),
        attempt_last replies attempt circuits ∙ ap (λ m. settle (replies m) circuits) start,
      )
  attempts_decided replies (suc left) attempt circuits = elim (IsFinal-cases (replies attempt)) [
    | inl again ↦
        let (n, (le, before, ends), same) = attempts_decided replies left (attempt + 1) circuits in
        let shift : attempt + 1 + n ≡ attempt + suc n = omega arith in
        (
          suc n,
          (
            omega arith,
            before_later replies attempt n again before,
            elim ends [
              | inl last ↦ inl (ap suc last)
              | inr good ↦ inr (subst (λ m. IsFinal (replies m)) shift good)
            ],
          ),
          attempt_again replies left attempt circuits again
              ∙ same
              ∙ ap (λ m. settle (replies m) circuits) shift,
        )
    | inr good ↦
        let start : attempt ≡ attempt + 0 = omega arith in
        (
          0,
          (
            omega arith,
            (λ i lt. absurd (omega arith)),
            inr (subst (λ m. IsFinal (replies m)) start good),
          ),
          attempt_final replies (suc left) attempt circuits good
              ∙ ap (λ m. settle (replies m) circuits) start,
        )
  ]
