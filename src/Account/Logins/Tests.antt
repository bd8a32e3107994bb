-- ===== src/Account/Logins/Tests.antt =====
-- The theorems on logins at one account; a password is its own hash.
use eucal_ai_backend.Prelude.{String, ◌≡◌, ◌⊎◌, refl, true, none, [], ◌∷◌, arith}
use eucal_ai_backend.Prelude.Keyed.{find, string_eq}
use eucal_ai_backend.Account.Logins.{
  Account, Settings, State, UserSession, failed, invalid_credentials, session_revoked,
  invalid_token, get_by_token_jti, login, change_password, refresh_access_token,
}
use eucal_ai_backend.Account.Logins.Locks.{try_all, guesses_locked_out}
use eucal_ai_backend.Account.Logins.Revocation.{change_password_revokes}

abbrev conf : Settings
conf = record {
  login_max_failures = 2;
  login_lock_duration_hours = 1;
  refresh_token_expire_days = 7;
}

abbrev plain : String → String
plain s = s

abbrev account : Account
account = record {
  id = 7;
  password_hash = "secret";
  status = 1;
  login_fail_count = 0;
  login_locked_until = none;
  last_login_at = none;
}

abbrev session : UserSession
session = record {
  user_id = 7;
  token_jti = "j";
  refresh_token_hash = "t";
  expires_at = 1000;
  revoked_at = none;
  created_at = 1;
}

abbrev state : State
state = record { users = ("a@b.c", account) ∷ []; sessions = session ∷ [] }

guesses_locked_out_example :
    let y =
      (login conf plain string_eq.beq 11 "a@b.c" "2" "" ""
        (login conf plain string_eq.beq 10 "a@b.c" "1" "" "" state).1).1 in
    login conf plain string_eq.beq 50 "a@b.c" "secret" "k" "u" y ≡ (failed invalid_credentials, y)
unfolding find login try_all
guesses_locked_out_example =
    guesses_locked_out conf plain string_eq.beq "a@b.c" (record { now = 10; password = "1" } ∷ [])
      (record { now = 11; password = "2" }) state account 50 "secret" "k" "u" refl refl refl
      (refl, tt) refl refl (omega arith)

change_password_revokes_example :
    let y =
      (change_password conf plain string_eq.beq 20 "a@b.c" account "secret" "better" true
        state).1 in
    (refresh_access_token conf plain string_eq.beq 30 "j" "t" "k" "u" y
      ≡ (failed session_revoked, y))
    ⊎ (refresh_access_token conf plain string_eq.beq 30 "j" "t" "k" "u" y
        ≡ (failed invalid_token, y))
unfolding change_password get_by_token_jti
change_password_revokes_example =
    change_password_revokes conf plain string_eq.beq 20 30 "a@b.c" account "secret" "better" true
      state session "j" "t" "k" "u" refl refl refl
