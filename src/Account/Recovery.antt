-- ===== src/Account/Recovery.antt =====
-- services/user-service/src/services/auth_service.py: what is done with a code that was mailed,
-- registration, the verification of an email, logins by code and new passwords. `email` is the
-- normalized address. `strong` is the answer of `check_password_strength`, `id` the id that the
-- database gives to a new account, and `jti` and `token` are drawn. The rate limit that is copied
-- into a new account is left out, and that two registrations may race.
pub mod Single
pub mod Spent
pub mod Returns
mod Tests
use eucal_ai_backend.Prelude.{ℕ, String, Bool, not, Option, none, some, ◌==◌, if◌then◌else◌}
use eucal_ai_backend.Prelude.Keyed.{find, put, string_eq}
use eucal_ai_backend.Account.Codes
use eucal_ai_backend.Account.Codes.{
  EmailVerificationCode, Checked, accepted, code_not_found, code_expired, still_locked,
  too_many_errors, invalid, get_valid_code_or_raise, replace_unused, mark_code_used,
}
use eucal_ai_backend.Account.Logins
use eucal_ai_backend.Account.Logins.{
  Account, user_not_found, user_disabled, email_not_verified, weak_password, create_session,
  revoke_all,
}

pub record State : Type 0 where
  pub logins : Logins.State
  pub codes : Codes.Codes

pub data Failure : Type 0 where
  email_already_exists : Failure
  -- what `get_valid_code_or_raise` raises
  refused : Checked → Failure
  account_failure : Logins.Failure → Failure

pub data Outcome : Type 0 where
  done : Outcome
  failed : Failure → Outcome

-- what follows once a code is accepted: the logins after it, or a raise
abbrev pub Step : Type 0
Step = Logins.State → Logins.Outcome Logins.State

-- what a request does with its code
pub data Call : Type 0 where
  register_call : (id : ℕ) (password : String) (strong : Bool) → Call
  verify_call : Call
  login_call : (jti token : String) → Call
  reset_call : (new_password : String) (strong : Bool) → Call

abbrev pub purpose_of : Call → String
purpose_of (register_call id password strong) = "register"
purpose_of verify_call = "verify"
purpose_of (login_call jti token) = "login"
purpose_of (reset_call new_password strong) = "reset_password"

-- a user with this status is disabled, or has not verified the email
abbrev pub checked_status : Account → Logins.Outcome Logins.State → Logins.Outcome Logins.State
checked_status u result =
    if u.status == 0
    then Logins.failed user_disabled
    else if u.status == 2
    then Logins.failed email_not_verified
    else result

module _ (code_conf : Codes.Settings) (conf : Logins.Settings) (hash_password : String → String)
    (verify_password : String → String → Bool) where
  -- The code is checked, then the rest is done, and then the code is marked as used and all
  -- committed.
  unfoldable pub with_code :
      (now : ℕ) (email code purpose : String) → Step → State → Outcome × State
  with_code now email code purpose step y =
      let (checked, codes) =
        get_valid_code_or_raise code_conf verify_password now email code purpose y.codes in
      let unchanged = record y { codes = codes } in
      elim checked [
        | accepted c ↦ elim (step y.logins) [
          | Logins.failed failure ↦ (failed (account_failure failure), unchanged)
          | Logins.done logins ↦ (
            done,
            record {
              logins = logins;
              codes =
                  replace_unused email purpose (mark_code_used code_conf verify_password now c)
                    codes;
            },
          )
        ]
        | code_not_found ↦ (failed (refused code_not_found), unchanged)
        | code_expired ↦ (failed (refused code_expired), unchanged)
        | still_locked ↦ (failed (refused still_locked), unchanged)
        | too_many_errors ↦ (failed (refused too_many_errors), unchanged)
        | invalid ↦ (failed (refused invalid), unchanged)
      ]

  abbrev pub new_account : (id : ℕ) → (password : String) → Account
  new_account id password = record {
    id = id;
    password_hash = hash_password password;
    status = 1;
    login_fail_count = 0;
    login_locked_until = none;
    last_login_at = none;
  }

  unfoldable pub register_step : (id : ℕ) (email password : String) → Step
  register_step id email password logins =
      Logins.done (record logins { users = put email (new_account id password) logins.users })

  -- a raise, with what is committed
  abbrev pub raise : Failure → State → Outcome × State
  raise failure y = (failed failure, y)

  unfoldable pub register :
      (now : ℕ) (email code : String) (id : ℕ) (password : String) (strong : Bool)
      → State
      → Outcome × State
  register now email code id password strong y = elim (find email y.logins.users) [
    | some u ↦ raise email_already_exists y
    | none ↦
        if not strong
        then raise (account_failure weak_password) y
        else with_code now email code "register" (register_step id email password) y
  ]

  unfoldable pub verify_step : (email : String) → Step
  verify_step email logins = elim (find email logins.users) [
    | none ↦ Logins.failed user_not_found
    | some u ↦
        if u.status == 0
        then Logins.failed user_disabled
        else let u' = if u.status == 2 then record u { status = 1 } else u in
          Logins.done (record logins { users = put email u' logins.users })
  ]

  unfoldable pub verify_email : (now : ℕ) (email code : String) → State → Outcome × State
  verify_email now email code = with_code now email code "verify" (verify_step email)

  unfoldable pub login_step : (now : ℕ) (email jti token : String) → Step
  login_step now email jti token logins = elim (find email logins.users) [
    | none ↦ Logins.failed user_not_found
    | some u ↦ checked_status u (
        let u' = record u {
          login_fail_count = 0;
          login_locked_until = none;
          last_login_at = some now;
        } in
        Logins.done (record {
          users = put email u' logins.users;
          sessions =
              create_session conf hash_password verify_password now u jti token logins.sessions;
        }))
  ]

  unfoldable pub login_with_code :
      (now : ℕ) (email code jti token : String) → State → Outcome × State
  login_with_code now email code jti token =
      with_code now email code "login" (login_step now email jti token)

  unfoldable pub reset_step : (now : ℕ) (email new_password : String) (strong : Bool) → Step
  reset_step now email new_password strong logins = elim (find email logins.users) [
    | none ↦ Logins.failed user_not_found
    | some u ↦
        if u.status == 0
        then Logins.failed user_disabled
        else if not strong
        then Logins.failed weak_password
        else Logins.done (record {
          users = put email (record u { password_hash = hash_password new_password }) logins.users;
          sessions = revoke_all now u.id logins.sessions;
        })
  ]

  unfoldable pub reset_password :
      (now : ℕ) (email code new_password : String) (strong : Bool) → State → Outcome × State
  reset_password now email code new_password strong =
      with_code now email code "reset_password" (reset_step now email new_password strong)

  unfoldable pub run : (now : ℕ) (email code : String) → Call → State → Outcome × State
  run now email code (register_call id password strong) = register now email code id password strong
  run now email code verify_call = verify_email now email code
  run now email code (login_call jti token) = login_with_code now email code jti token
  run now email code (reset_call new_password strong) =
      reset_password now email code new_password strong
