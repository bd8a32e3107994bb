-- ===== src/Account/Recovery/Tests.antt =====
-- The theorems on codes and accounts at one account; a password and a code are their own hashes.
use eucal_ai_backend.Prelude.{ℕ, ◌≤◌, ◌≡◌, ◌≢◌, ◌⊎◌, refl, String, true, none, some, [], ◌∷◌, arith}
use eucal_ai_backend.Prelude.Keyed.{find, string_eq}
use eucal_ai_backend.Account.Codes
use eucal_ai_backend.Account.Codes.{
  EmailVerificationCode, latest_unused, is_for, get_valid_code_or_raise, replace_unused,
  count_error,
}
use eucal_ai_backend.Account.Codes.Attempts.{count_unused, check_all}
use eucal_ai_backend.Account.Logins
use eucal_ai_backend.Account.Logins.{
  Account, UserSession, session_revoked, invalid_token, is_login_locked, get_by_token_jti, login,
  refresh_access_token,
}
use eucal_ai_backend.Account.Recovery.{
  State, Outcome, done, Call, reset_call, with_code, reset_step, reset_password, register_step,
  register, new_account, run,
}
use eucal_ai_backend.Account.Recovery.Single.{sends, asks, act_all, count_unused-act_all}
use eucal_ai_backend.Account.Recovery.Spent.{run_spent, run_locked}
use eucal_ai_backend.Account.Recovery.Returns.{register_returns, reset_password_returns}

abbrev code_conf : Codes.Settings
code_conf = record {
  code_expire_minutes = 10;
  code_daily_send_limit = 5;
  max_code_errors = 2;
  code_error_lock_hours = 1;
}

abbrev conf : Logins.Settings
conf = record {
  login_max_failures = 2;
  login_lock_duration_hours = 1;
  refresh_token_expire_days = 7;
}

abbrev plain : String → String
plain s = s

abbrev account : Account
account = record {
  id = 7;
  password_hash = "secret";
  status = 1;
  login_fail_count = 0;
  login_locked_until = none;
  last_login_at = none;
}

abbrev session : UserSession
session = record {
  user_id = 7;
  token_jti = "j";
  refresh_token_hash = "t";
  expires_at = 1000;
  revoked_at = none;
  created_at = 1;
}

abbrev mailed : EmailVerificationCode
mailed = record {
  email = "a@b.c";
  code_hash = "123456";
  purpose = "reset_password";
  expires_at = 600;
  used_at = none;
  error_count = 0;
  locked_until = none;
  created_at = 0;
}

abbrev state : State
state = record {
  logins = record { users = ("a@b.c", account) ∷ []; sessions = session ∷ [] };
  codes = mailed ∷ record mailed { email = "d@e.f"; purpose = "register" } ∷ [];
}

abbrev request : (now : ℕ) (email code : String) → Call → State → Outcome × State
request = run code_conf conf plain string_eq.beq

run_spent_example :
    let y = (request 50 "a@b.c" "123456" (reset_call "new" true) state).1 in
    ((request 60 "a@b.c" "123456" (reset_call "newer" true) y).0 ≢ done)
    × ((request 60 "a@b.c" "123456" (reset_call "newer" true) y).1 ≡ y)
unfolding run reset_password with_code get_valid_code_or_raise latest_unused is_for reset_step find
    count_unused
run_spent_example =
    run_spent code_conf conf plain string_eq.beq 50 60 "a@b.c" "123456" "123456"
      (reset_call "new" true) (reset_call "newer" true) state refl (omega arith) refl

run_locked_example :
    let codes =
      check_all code_conf string_eq.beq "a@b.c" "reset_password" ((10, "1") ∷ []) state.codes in
    let y = record state {
      codes =
          (get_valid_code_or_raise code_conf string_eq.beq 20 "a@b.c" "2" "reset_password" codes).1;
    } in
    ((request 50 "a@b.c" "123456" (reset_call "new" true) y).0 ≢ done)
    × ((request 50 "a@b.c" "123456" (reset_call "new" true) y).1 ≡ y)
unfolding latest_unused is_for
run_locked_example =
    run_locked code_conf conf plain string_eq.beq ((10, "1") ∷ []) 20 "2" mailed 50 "a@b.c" "123456"
      (reset_call "new" true) state refl refl refl (((omega arith), refl), tt) ((omega arith), refl)
      refl (omega arith)

register_returns_example :
    let y =
      (register code_conf conf plain string_eq.beq 50 "d@e.f" "123456" 8 "word" true state).1 in
    (find "d@e.f" state.logins.users ≡ none)
    × ((login conf plain string_eq.beq 70 "d@e.f" "word" "k" "u" y.logins).0
        ≡ Logins.done (record (new_account code_conf conf plain string_eq.beq 8 "word") {
          last_login_at = some 70;
        }))
unfolding register register_step with_code get_valid_code_or_raise latest_unused is_for find
register_returns_example =
    register_returns code_conf conf plain string_eq.beq 50 70 "d@e.f" "123456" 8 "word" true "k" "u"
      state refl refl

reset_password_returns_example :
    let y =
      (reset_password code_conf conf plain string_eq.beq 50 "a@b.c" "123456" "new" true
        state).1.logins in
    let again = refresh_access_token conf plain string_eq.beq 70 "j" "t" "k" "u" y in
    ((u : Account) × ((login conf plain string_eq.beq 70 "a@b.c" "new" "k" "u" y).0
        ≡ Logins.done u))
    × ((again ≡ (Logins.failed session_revoked, y)) ⊎ (again ≡ (Logins.failed invalid_token, y)))
unfolding reset_password reset_step with_code get_valid_code_or_raise latest_unused is_for find
    is_login_locked get_by_token_jti
reset_password_returns_example =
    reset_password_returns code_conf conf plain string_eq.beq 50 70 "a@b.c" "123456" "new" true
      state account session "j" "t" "k" "u" refl refl refl refl refl refl refl

count_unused-act_all_example :
    count_unused "a@b.c" "reset_password"
      (act_all code_conf conf plain string_eq.beq
        (sends 300 "a@b.c" "reset_password" "654321" true
          ∷ asks 301 "a@b.c" "000000" (reset_call "new" true)
          ∷ sends 302 "d@e.f" "reset_password" "111111" true
          ∷ sends 303 "a@b.c" "reset_password" "222222" true
          ∷ [])
        state).codes
    ≤ 1
unfolding count_unused is_for
count_unused-act_all_example =
    count_unused-act_all code_conf conf plain string_eq.beq "a@b.c" "reset_password"
      (sends 300 "a@b.c" "reset_password" "654321" true
        ∷ asks 301 "a@b.c" "000000" (reset_call "new" true)
        ∷ sends 302 "d@e.f" "reset_password" "111111" true
        ∷ sends 303 "a@b.c" "reset_password" "222222" true
        ∷ [])
      state (omega arith)
