-- ===== src/Account/Recovery/Spent.antt =====
-- services/user-service/src/services/auth_service.py: a code lets nobody in twice, and is not guessed.
use eucal_ai_backend.Prelude.{
  ℕ, ◌+◌, ◌*◌, ◌≤◌, ◌<◌, ◌≡◌, ◌≢◌, refl, ap, sym, ◌∙◌, ◌⊎◌, inl, inr, String, Bool, none, some,
  List, arith, All, length, Bool-cases, Option-cases,
}
use eucal_ai_backend.Prelude.Keyed.{find, string_eq}
use eucal_ai_backend.Account.Codes
use eucal_ai_backend.Account.Codes.{
  EmailVerificationCode, Checked, accepted, code_not_found, code_expired, still_locked,
  too_many_errors, invalid, latest_unused, count_error, get_valid_code_or_raise, replace_unused,
  mark_code_used,
}
use eucal_ai_backend.Account.Codes.Attempts.{
  count_unused, check_all, IsWrong, guesses_locked, count-zero, count-replace_used,
}
use eucal_ai_backend.Account.Logins
use eucal_ai_backend.Account.Logins.{Account, weak_password}
use eucal_ai_backend.Account.Recovery.{
  State, Failure, email_already_exists, account_failure, Outcome, done, failed, Step, Call,
  register_call, verify_call, login_call, reset_call, purpose_of, with_code, register_step,
  register, verify_email, login_with_code, reset_password, run,
}

pub Checked-cases :
    (checked : Checked)
    → ((c : EmailVerificationCode) × (checked ≡ accepted c))
      ⊎ ((checked ≡ code_not_found)
          ⊎ (checked ≡ code_expired)
          ⊎ (checked ≡ still_locked)
          ⊎ (checked ≡ too_many_errors)
          ⊎ (checked ≡ invalid))
Checked-cases (accepted c) = inl (c, refl)
Checked-cases code_not_found = inr (inl refl)
Checked-cases code_expired = inr (inr (inl refl))
Checked-cases still_locked = inr (inr (inr (inl refl)))
Checked-cases too_many_errors = inr (inr (inr (inr (inl refl))))
Checked-cases invalid = inr (inr (inr (inr (inr refl))))

pub step-cases :
    (outcome : Logins.Outcome Logins.State)
    → ((logins : Logins.State) × (outcome ≡ Logins.done logins))
      ⊎ ((failure : Logins.Failure) × (outcome ≡ Logins.failed failure))
step-cases (Logins.done logins) = inl (logins, refl)
step-cases (Logins.failed failure) = inr (failure, refl)

module _ (code_conf : Codes.Settings) (conf : Logins.Settings) (hash_password : String → String)
    (verify_password : String → String → Bool) where
  abbrev pub use_code : (now : ℕ) (email code purpose : String) → Step → State → Outcome × State
  use_code = with_code code_conf conf hash_password verify_password

  abbrev pub request : (now : ℕ) (email code : String) → Call → State → Outcome × State
  request = run code_conf conf hash_password verify_password

  abbrev pub check : (now : ℕ) (email code purpose : String) → Codes.Codes → Checked × Codes.Codes
  check now email code purpose codes =
      get_valid_code_or_raise code_conf verify_password now email code purpose codes

  -- A request is refused before its code is looked at, or it is one for `with_code`.
  pub run-cases :
      (now : ℕ) (email code : String) (call : Call) (y : State)
      → ((failure : Failure) × (request now email code call y ≡ (failed failure, y)))
        ⊎ ((step : Step) × (request now email code call y
              ≡ use_code now email code (purpose_of call) step y))
  unfolding run register verify_email login_with_code reset_password
  run-cases now email code (register_call id password strong) y =
      elim (Option-cases (find email y.logins.users)) [
        | inr (u, there) ↦ inl (email_already_exists, ground arith)
        | inl free ↦ elim (Bool-cases strong) [
          | inl on ↦ inr (
            register_step code_conf conf hash_password verify_password id email password,
            ground arith,
          )
          | inr off ↦ inl (account_failure weak_password, ground arith)
        ]
      ]
  run-cases now email code verify_call y = inr (_, refl)
  run-cases now email code (login_call jti token) y = inr (_, refl)
  run-cases now email code (reset_call new_password strong) y = inr (_, refl)

  -- without a code, or with one that is locked
  with_code_refused :
      (now : ℕ) (email code purpose : String) (step : Step) (y : State)
      → (check now email code purpose y.codes ≡ (code_not_found, y.codes))
        ⊎ (check now email code purpose y.codes ≡ (still_locked, y.codes))
      → ((use_code now email code purpose step y).0 ≢ done)
        × ((use_code now email code purpose step y).1 ≡ y)
  unfolding with_code
  with_code_refused now email code purpose step y (inl missing) = ground arith
  with_code_refused now email code purpose step y (inr locked) = ground arith

  check_missing :
      (now : ℕ) (email code purpose : String) (codes : Codes.Codes)
      → latest_unused email purpose codes ≡ none
      → check now email code purpose codes ≡ (code_not_found, codes)
  unfolding get_valid_code_or_raise
  check_missing now email code purpose codes missing = ground arith

  pub check_accepted :
      (now : ℕ) (email code purpose : String) (codes : Codes.Codes) (c : EmailVerificationCode)
      → (check now email code purpose codes).0 ≡ accepted c
      → (latest_unused email purpose codes ≡ some c)
        × ((check now email code purpose codes).1 ≡ codes)
  unfolding get_valid_code_or_raise count_error
  check_accepted now email code purpose codes c h =
      elim (Option-cases (latest_unused email purpose codes)) [
        | inl missing ↦ ground arith
        | inr (d, found) ↦ ground arith
      ]

  with_code_done :
      (now : ℕ) (email code purpose : String) (step : Step) (y : State)
      → (use_code now email code purpose step y).0 ≡ done
      → (c : EmailVerificationCode) × (latest_unused email purpose y.codes ≡ some c)
        × ((use_code now email code purpose step y).1.codes
            ≡ replace_unused email purpose (mark_code_used code_conf verify_password now c) y.codes)
  unfolding with_code
  with_code_done now email code purpose step y ended =
      elim (Checked-cases (check now email code purpose y.codes).0) [
        | inr refusal ↦ ground arith
        | inl (c, taken) ↦
            let (found, kept) = check_accepted now email code purpose y.codes c taken in
            elim (step-cases (step y.logins)) [
              | inl (logins, goes) ↦ (c, found, ground arith)
              | inr (failure, fails) ↦ ground arith
            ]
      ]

  -- a request for which there is no code, or a locked one
  run_refused :
      (now : ℕ) (email code : String) (call : Call) (y : State)
      → (check now email code (purpose_of call) y.codes ≡ (code_not_found, y.codes))
        ⊎ (check now email code (purpose_of call) y.codes ≡ (still_locked, y.codes))
      → ((request now email code call y).0 ≢ done) × ((request now email code call y).1 ≡ y)
  run_refused now email code call y refusal = elim (run-cases now email code call y) [
    | inl (failure, e) ↦ rw e ((λ q. cc), refl)
    | inr (step, e) ↦ rw e (with_code_refused now email code (purpose_of call) step y refusal)
  ]

  run_ends :
      (now : ℕ) (email code : String) (call : Call) (y : State)
      → count_unused email (purpose_of call) y.codes ≤ 1
      → (request now email code call y).0 ≡ done
      → latest_unused email (purpose_of call) (request now email code call y).1.codes ≡ none
  run_ends now email code call y few ended = elim (run-cases now email code call y) [
    | inl (failure, e) ↦ ground arith
    | inr (step, e) ↦
        let purpose = purpose_of call in
        let (c, found, after) =
          with_code_done now email code purpose step y (ap (λ r. r.0) (sym e) ∙ ended) in
        let used = mark_code_used code_conf verify_password now c in
        let counted = count-replace_used email purpose used c y.codes found refl in
        ap (λ r. latest_unused email purpose r.1.codes) e
        ∙ ap (latest_unused email purpose) after
        ∙ count-zero email purpose (replace_unused email purpose used y.codes)
            (omega (arith, counted))
  ]

  -- A code is spent: while there is one unused code at most for the email and the purpose, after
  -- a request with a code has succeeded no other one with that purpose does, whatever its code and
  -- its time, and it changes nothing.
  pub run_spent :
      (now later : ℕ) (email code code' : String) (call call' : Call) (y : State)
      → purpose_of call' ≡ purpose_of call
      → count_unused email (purpose_of call) y.codes ≤ 1
      → (request now email code call y).0 ≡ done
      → let y' = (request now email code call y).1 in
        ((request later email code' call' y').0 ≢ done)
        × ((request later email code' call' y').1 ≡ y')
  run_spent now later email code code' call call' y same few ended =
      let y' = (request now email code call y).1 in
      let missing =
        ap (λ p. latest_unused email p y'.codes) same ∙ run_ends now email code call y few ended in
      run_refused later email code' call' y'
        (inl (check_missing later email code' (purpose_of call') y'.codes missing))

  -- No code is guessed into an account: once as many wrong codes have been tried as
  -- `MAX_CODE_ERRORS` says, on a code that was not tried before, no request with the code's purpose
  -- succeeds until the lock ends, with the right code neither, and it changes nothing.
  pub run_locked :
      (earlier : List (ℕ × String)) (last : ℕ) (wrong : String) (c : EmailVerificationCode)
      (now : ℕ) (email code : String) (call : Call) (y : State)
      → latest_unused email (purpose_of call) y.codes ≡ some c
      → c.error_count ≡ 0
      → c.locked_until ≡ none
      → All (IsWrong code_conf verify_password email (purpose_of call) c) earlier
      → IsWrong code_conf verify_password email (purpose_of call) c (last, wrong)
      → length earlier + 1 ≡ code_conf.max_code_errors
      → now < last + code_conf.code_error_lock_hours * 3600
      → let codes = check_all code_conf verify_password email (purpose_of call) earlier y.codes in
        let y' = record y { codes = (check last email wrong (purpose_of call) codes).1 } in
        ((request now email code call y').0 ≢ done) × ((request now email code call y').1 ≡ y')
  run_locked earlier last wrong c now email code call y found fresh free wrongs bad enough soon =
      let purpose = purpose_of call in
      let codes = check_all code_conf verify_password email purpose earlier y.codes in
      let y' = record y { codes = (check last email wrong purpose codes).1 } in
      run_refused now email code call y' (
        inr (
          guesses_locked code_conf verify_password email purpose earlier last wrong y.codes c now
            code found fresh free wrongs bad enough soon))
