-- ===== src/Account/Recovery/Single.antt =====
-- services/user-service/src/services: how many codes of verification_service.py can be tried, while
-- codes are sent and used.
use eucal_ai_backend.Prelude.{
  ℕ, ◌+◌, ◌≤◌, String, ◌≡◌, ap, ◌∙◌, inl, inr, true, Bool, ◌&&◌, some, List, [], ◌∷◌, arith, filter,
  leb, Option-cases, Bool-cases,
}
use eucal_ai_backend.Prelude.Keyed.{string_eq}
use eucal_ai_backend.Account.Codes
use eucal_ai_backend.Account.Codes.{
  EmailVerificationCode, Checked, accepted, is_for, is_unused, latest_unused, replace_unused,
  delete_unused, get_valid_code_or_raise, mark_code_used, count_error, send_verification_code,
}
use eucal_ai_backend.Account.Codes.Attempts.{count_unused, count-delete_unused}
use eucal_ai_backend.Account.Logins
use eucal_ai_backend.Account.Recovery.{State, Call, Step, purpose_of, with_code, run}
use eucal_ai_backend.Account.Recovery.Spent.{Checked-cases, step-cases, run-cases, check_accepted}

-- a code is sent, or a request made
pub data Act : Type 0 where
  sends : (now : ℕ) (email purpose code : String) (delivered : Bool) → Act
  asks : (now : ℕ) (email code : String) → Call → Act

module _ (email purpose : String) where
  -- a code that could be tried for this email and this purpose
  abbrev counts : EmailVerificationCode → Bool
  counts c = is_for email purpose c && is_unused c

  count-replace :
      (email' purpose' : String) (new c : EmailVerificationCode) (codes : Codes.Codes)
      → latest_unused email' purpose' codes ≡ some c
      → (counts new ≡ true → counts c ≡ true)
      → count_unused email purpose (replace_unused email' purpose' new codes)
        ≤ count_unused email purpose codes
  unfolding latest_unused replace_unused count_unused
  count-replace email' purpose' new c [] found weaker = ground arith
  count-replace email' purpose' new c (d ∷ codes) found weaker =
      elim (Bool-cases (is_for email' purpose' d && is_unused d)) [
        | inl here ↦
            let same : d ≡ c = ground arith in
            let weaker' : counts new ≡ true → counts d ≡ true = λ h. ap counts same ∙ weaker h in
            elim (Bool-cases (counts new)) [
              | inl new_counts ↦ let d_counts = weaker' new_counts in ground arith
              | inr spent ↦ ground arith
            ]
        | inr other ↦
            let rest = count-replace email' purpose' new c codes (ground arith) weaker in
            ground arith
      ]

  count-delete :
      (email' purpose' : String) (codes : Codes.Codes)
      → count_unused email purpose (delete_unused email' purpose' codes)
        ≤ count_unused email purpose codes
  unfolding count_unused delete_unused filter
  count-delete email' purpose' [] = omega arith
  count-delete email' purpose' (c ∷ codes) =
      let rest = count-delete email' purpose' codes in
      elim (Bool-cases (is_for email' purpose' c && is_unused c)) [
        | inl gone ↦ ground arith
        | inr kept ↦ ground arith
      ]

  count-delete_own :
      (email' purpose' : String) (codes : Codes.Codes)
      → email' ≡ email
      → purpose' ≡ purpose
      → count_unused email purpose (delete_unused email' purpose' codes) ≡ 0
  count-delete_own email' purpose' codes e p = rw (e, p) (count-delete_unused email purpose codes)

module _ (code_conf : Codes.Settings) (conf : Logins.Settings) (hash_password : String → String)
    (verify_password : String → String → Bool) where
  abbrev pub act : Act → State → State
  act (sends now email purpose code delivered) y = record y {
    codes =
        (send_verification_code code_conf hash_password now email purpose code delivered y.codes).1;
  }
  act (asks now email code call) y =
      (run code_conf conf hash_password verify_password now email code call y).1

  unfoldable pub act_all : List Act → State → State
  act_all [] y = y
  act_all (a ∷ acts) y = act_all acts (act a y)

  module _ (email purpose : String) where
    abbrev tried : State → ℕ
    tried y = count_unused email purpose y.codes

    count_error-counts :
        (now : ℕ) (c : EmailVerificationCode)
        → counts email purpose (count_error code_conf verify_password now c).1 ≡ true
        → counts email purpose c ≡ true
    unfolding count_error is_for
    count_error-counts now c h =
        elim (Bool-cases (leb code_conf.max_code_errors (c.error_count + 1))) [
          | inl many ↦ ground arith
          | inr few ↦ ground arith
        ]

    check-le :
        (now : ℕ) (email' code purpose' : String) (codes : Codes.Codes)
        → count_unused email purpose
            (get_valid_code_or_raise code_conf verify_password now email' code purpose' codes).1
          ≤ count_unused email purpose codes
    unfolding get_valid_code_or_raise
    check-le now email' code purpose' codes =
        elim (Option-cases (latest_unused email' purpose' codes)) [
          | inl missing ↦ ground arith
          | inr (c, found) ↦
              let counted =
                count-replace email purpose email' purpose'
                  (count_error code_conf verify_password now c).1 c codes found
                  (count_error-counts now c) in
              ground arith
        ]

    with_code-le :
        (now : ℕ) (email' code purpose' : String) (step : Step) (y : State)
        → tried
            (with_code code_conf conf hash_password verify_password now email' code purpose' step
              y).1
          ≤ tried y
    unfolding with_code
    with_code-le now email' code purpose' step y =
        let checked = check-le now email' code purpose' y.codes in
        elim (Checked-cases
          (get_valid_code_or_raise code_conf verify_password now email' code purpose' y.codes).0) [
            | inr refusal ↦ ground arith
            | inl (c, taken) ↦
                let (found, kept) =
                  check_accepted code_conf conf hash_password verify_password now email' code
                    purpose' y.codes c taken in
                let marked =
                  count-replace email purpose email' purpose'
                    (mark_code_used code_conf verify_password now c) c y.codes found
                    (λ h. ground arith) in
                elim (step-cases (step y.logins)) [
                  | inl (logins, goes) ↦ ground arith
                  | inr (failure, fails) ↦ ground arith
                ]
          ]

    send-le :
        (now : ℕ) (email' purpose' code : String) (delivered : Bool) (codes : Codes.Codes)
        → count_unused email purpose codes ≤ 1
        → count_unused email purpose
            (send_verification_code code_conf hash_password now email' purpose' code delivered
              codes).1
          ≤ 1
    unfolding send_verification_code count_unused is_for
    send-le now email' purpose' code delivered codes few =
        let others = count-delete email purpose email' purpose' codes in
        elim (Bool-cases (string_eq.beq email' email && string_eq.beq purpose' purpose)) [
          | inl own ↦
              let gone =
                count-delete_own email purpose email' purpose' codes
                  ((string_eq.beq_iff email' email).0 (ground arith))
                  ((string_eq.beq_iff purpose' purpose).0 (ground arith)) in
              ground arith
          | inr other ↦ ground arith
        ]

    asks-few :
        (now : ℕ) (email' code : String) (call : Call) (y : State)
        → tried y ≤ 1
        → tried (run code_conf conf hash_password verify_password now email' code call y).1 ≤ 1
    asks-few now email' code call y few =
        elim (run-cases code_conf conf hash_password verify_password now email' code call y) [
          | inl (failure, e) ↦ rw e few
          | inr (step, e) ↦
              let le = with_code-le now email' code (purpose_of call) step y in rw e (omega arith)
        ]

    -- There is never more than one code that could be tried for an email and a purpose, whatever
    -- codes are sent and whatever requests are made with codes, for this email and others, if there
    -- is not more than one at the start.
    pub count_unused-act_all :
        (acts : List Act) (y : State)
        → count_unused email purpose y.codes ≤ 1
        → count_unused email purpose (act_all acts y).codes ≤ 1
    unfolding act_all
    count_unused-act_all [] y few = few
    count_unused-act_all (sends now email' purpose' code delivered ∷ acts) y few =
        count_unused-act_all acts _ (send-le now email' purpose' code delivered y.codes few)
    count_unused-act_all (asks now email' code call ∷ acts) y few =
        count_unused-act_all acts _ (asks-few now email' code call y few)
