-- ===== src/Account/Logins.antt =====
-- services/user-service/src/services/auth_service.py: logins, sessions and passwords, with the
-- columns of models/user.py and models/user_session.py that decide something: user agents and IP
-- addresses are stored only. Emails are normalized. Every
-- operation commits what it changes before it returns or raises, so the state is what is
-- committed. A refresh token is given with the jti that it decodes to; `hash_password` and
-- `verify_password` stand for passlib, and the times are seconds.
mod Tests
pub mod Locks
pub mod Revocation
use eucal_ai_backend.Prelude.{
  ℕ, ◌+◌, ◌*◌, String, Bool, true, false, not, ◌&&◌, ◌||◌, Option, none, some, List, [], ◌∷◌, ltb,
  leb, ◌==◌, if◌then◌else◌, length, filter,
}
use eucal_ai_backend.Prelude.Keyed.{Table, find, put, string_eq, nat_eq}

pub record Account : Type 0 where
  pub id : ℕ
  pub password_hash : String
  pub status : ℕ
  pub login_fail_count : ℕ
  pub login_locked_until : Option ℕ
  pub last_login_at : Option ℕ

pub record UserSession : Type 0 where
  pub user_id : ℕ
  pub token_jti : String
  pub refresh_token_hash : String
  pub expires_at : ℕ
  pub revoked_at : Option ℕ
  pub created_at : ℕ

pub record Settings : Type 0 where
  pub login_max_failures : ℕ
  pub login_lock_duration_hours : ℕ
  pub refresh_token_expire_days : ℕ

-- the accounts by email, and the sessions
pub record State : Type 0 where
  pub users : Table String Account
  pub sessions : List UserSession

pub data Failure : Type 0 where
  invalid_credentials user_disabled email_not_verified user_not_found weak_password : Failure
  session_not_found invalid_token session_revoked session_expired : Failure

pub data Outcome (A : Type 0) : Type 0 where
  done : A → Outcome A
  failed : Failure → Outcome A

abbrev pub max_active_sessions : ℕ
max_active_sessions = 10

-- `is_login_locked`
unfoldable pub is_login_locked : (now : ℕ) → Account → Bool
is_login_locked now u = elim (u.login_locked_until) [ none ↦ false | some end ↦ ltb now end ]

abbrev pub is_revoked : UserSession → Bool
is_revoked s = elim (s.revoked_at) [ none ↦ false | some at ↦ true ]

abbrev pub is_active_for : ℕ → UserSession → Bool
is_active_for user_id s = s.user_id == user_id && not (is_revoked s)

-- `list_active_for_user`
abbrev pub list_active_for_user : ℕ → List UserSession → List UserSession
list_active_for_user user_id sessions = filter (is_active_for user_id) sessions

abbrev pub revoked : (now : ℕ) → UserSession → UserSession
revoked now s = record s { revoked_at = some now }

-- `_revoke_all_user_sessions`
unfoldable pub revoke_all : (now user_id : ℕ) → List UserSession → List UserSession
revoke_all now user_id [] = []
revoke_all now user_id (s ∷ sessions) =
    (if is_active_for user_id s then revoked now s else s) ∷ revoke_all now user_id sessions

-- `min(active_sessions, key=lambda s: s.created_at)`: the first of the earliest ones
unfoldable pub oldest : List UserSession → Option UserSession
oldest [] = none
oldest (s ∷ sessions) = elim (oldest sessions) [
  | none ↦ some s
  | some t ↦ (if leb s.created_at t.created_at then some s else some t)
]

-- A session is found again by its jti, which is unique.
unfoldable pub revoke : (now : ℕ) → String → List UserSession → List UserSession
revoke now jti [] = []
revoke now jti (s ∷ sessions) =
    if string_eq.beq s.token_jti jti then revoked now s ∷ sessions else s ∷ revoke now jti sessions

unfoldable pub get_by_token_jti : String → List UserSession → Option UserSession
get_by_token_jti jti [] = none
get_by_token_jti jti (s ∷ sessions) =
    if string_eq.beq s.token_jti jti then some s else get_by_token_jti jti sessions

-- the session of a jti with another row in its place
unfoldable pub replace_session : String → UserSession → List UserSession → List UserSession
replace_session jti new [] = []
replace_session jti new (s ∷ sessions) =
    if string_eq.beq s.token_jti jti then new ∷ sessions else s ∷ replace_session jti new sessions

module _ (conf : Settings) (hash_password : String → String)
    (verify_password : String → String → Bool) where
  -- `_create_session_and_tokens`, with the refresh token that is drawn, and its jti
  unfoldable pub create_session :
      (now : ℕ) → Account → (jti token : String) → List UserSession → List UserSession
  create_session now u jti token sessions =
      let active = list_active_for_user u.id sessions in
      let kept =
        if leb max_active_sessions (length active)
        then (elim (oldest active) [ some s ↦ revoke now s.token_jti sessions | none ↦ sessions ])
        else sessions in
      record {
        user_id = u.id;
        token_jti = jti;
        refresh_token_hash = hash_password token;
        expires_at = now + conf.refresh_token_expire_days * 86400;
        revoked_at = none;
        created_at = now;
      }
      ∷ kept

  -- the row after a wrong password
  unfoldable pub count_failure : (now : ℕ) → Account → Account
  count_failure now u =
      let u' = record u { login_fail_count = u.login_fail_count + 1 } in
      if leb conf.login_max_failures (u.login_fail_count + 1)
      then record u' { login_locked_until = some (now + conf.login_lock_duration_hours * 3600) }
      else u'

  unfoldable pub login :
      (now : ℕ) (email password jti token : String) → State → Outcome Account × State
  login now email password jti token y = elim (find email y.users) [
    | none ↦ (failed invalid_credentials, y)
    | some u ↦
        if is_login_locked now u
        then (failed invalid_credentials, y)
        else if not (verify_password password u.password_hash)
        then (
          failed invalid_credentials,
          record y { users = put email (count_failure now u) y.users },
        )
        else if u.status == 0
        then (failed user_disabled, y)
        else if u.status == 2
        then (failed email_not_verified, y)
        else let u' = record u {
          login_fail_count = 0;
          login_locked_until = none;
          last_login_at = some now;
        } in
          (
            done u',
            record {
              users = put email u' y.users;
              sessions = create_session now u jti token y.sessions;
            },
          )
  ]

  unfoldable pub logout : (now : ℕ) (jti token : String) → State → Outcome (Unit {0}) × State
  logout now jti token y = elim (get_by_token_jti jti y.sessions) [
    | none ↦ (failed session_not_found, y)
    | some s ↦
        if not (verify_password token s.refresh_token_hash)
        then (failed session_not_found, y)
        else if is_revoked s
        then (failed session_not_found, y)
        else (done tt, record y { sessions = revoke now jti y.sessions })
  ]

  -- the account of an id
  unfoldable pub get_by_id : ℕ → Table String Account → Option Account
  get_by_id id [] = none
  get_by_id id ((email, u) ∷ users) = if u.id == id then some u else get_by_id id users

  is_usable : Option Account → Bool
  is_usable none = false
  is_usable (some u) = u.status == 1

  -- `refresh_access_token` of a token that decodes to a refresh token; `jti'` and `token'` are new
  unfoldable pub refresh_access_token :
      (now : ℕ) (jti token jti' token' : String) → State → Outcome (Unit {0}) × State
  unfolding is_usable
  refresh_access_token now jti token jti' token' y = elim (get_by_token_jti jti y.sessions) [
    | none ↦ (failed session_not_found, y)
    | some s ↦
        if not (verify_password token s.refresh_token_hash)
        then (failed invalid_token, y)
        else if is_revoked s
        then (failed session_revoked, y)
        else if ltb s.expires_at now
        then (failed session_expired, y)
        else if not (is_usable (get_by_id s.user_id y.users))
        then (failed user_not_found, y)
        else (
          done tt,
          record y {
            sessions =
                replace_session jti
                  (record s {
                    token_jti = jti';
                    refresh_token_hash = hash_password token';
                    expires_at = now + conf.refresh_token_expire_days * 86400;
                  })
                  y.sessions;
          },
        )
  ]

  -- `change_password`; `strong` is the answer of `check_password_strength`
  unfoldable pub change_password :
      (now : ℕ) (email : String)
      → Account
      → (old_password new_password : String) (strong : Bool) → State
      → Outcome (Unit {0}) × State
  change_password now email u old_password new_password strong y =
      if not (verify_password old_password u.password_hash)
      then (failed invalid_credentials, y)
      else if not strong
      then (failed weak_password, y)
      else (
        done tt,
        record {
          users = put email (record u { password_hash = hash_password new_password }) y.users;
          sessions = revoke_all now u.id y.sessions;
        },
      )
