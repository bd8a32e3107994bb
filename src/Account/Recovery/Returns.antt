-- ===== src/Account/Recovery/Returns.antt =====
-- services/user-service/src/services/auth_service.py: who has registered, or has set a new password
-- by a code, gets in with the password.
use eucal_ai_backend.Prelude.{
  ℕ, ◌≡◌, refl, ap, sym, ◌∙◌, ◌⊎◌, inl, inr, String, Bool, true, false, none, some, arith,
  Bool-cases, Option-cases, if◌then◌else◌, ◌==◌,
}
use eucal_ai_backend.Prelude.Keyed.{find, put, string_eq, find-put_self}
use eucal_ai_backend.Account.Codes
use eucal_ai_backend.Account.Codes.{get_valid_code_or_raise}
use eucal_ai_backend.Account.Logins
use eucal_ai_backend.Account.Logins.{
  Account, UserSession, invalid_token, session_revoked, is_login_locked, is_active_for, revoked,
  revoke_all, get_by_token_jti, login, refresh_access_token,
}
use eucal_ai_backend.Account.Logins.Revocation.{refresh_revoked, get-revoke_all, ended as ended_}
use eucal_ai_backend.Account.Recovery.{
  State, done, Step, with_code, new_account, register_step, register, reset_step, reset_password,
}
use eucal_ai_backend.Account.Recovery.Spent.{Checked-cases, step-cases}

done_inj : {A : Type 0} {a b : A} → Logins.done a ≡ Logins.done b → a ≡ b
done_inj h = cc

module _ (code_conf : Codes.Settings) (conf : Logins.Settings) (hash_password : String → String)
    (verify_password : String → String → Bool) where
  abbrev enter :
      (now : ℕ) (email password jti token : String)
      → Logins.State
      → Logins.Outcome Account × Logins.State
  enter = login conf hash_password verify_password

  enter_done :
      (now : ℕ) (email password jti token : String) (y : Logins.State) (u : Account)
      → find email y.users ≡ some u
      → is_login_locked now u ≡ false
      → verify_password password u.password_hash ≡ true
      → u.status ≡ 1
      → (enter now email password jti token y).0
        ≡ Logins.done
            (record u { login_fail_count = 0; login_locked_until = none; last_login_at = some now })
  unfolding login
  enter_done now email password jti token y u found free right active = ground arith

  with_code_step :
      (now : ℕ) (email code purpose : String) (step : Step) (y : State)
      → (with_code code_conf conf hash_password verify_password now email code purpose step y).0
        ≡ done
      → (logins : Logins.State) × (step y.logins ≡ Logins.done logins)
        × ((with_code code_conf conf hash_password verify_password now email code purpose step
              y).1.logins
            ≡ logins)
  unfolding with_code
  with_code_step now email code purpose step y ended =
      elim (Checked-cases
        (get_valid_code_or_raise code_conf verify_password now email code purpose y.codes).0) [
          | inr refusal ↦ ground arith
          | inl (c, taken) ↦ elim (step-cases (step y.logins)) [
            | inl (logins, goes) ↦ (logins, goes, ground arith)
            | inr (failure, fails) ↦ ground arith
          ]
        ]

  register_ended :
      (now : ℕ) (email code : String) (id : ℕ) (password : String) (strong : Bool) (y : State)
      → (register code_conf conf hash_password verify_password now email code id password strong
          y).0
        ≡ done
      → (find email y.logins.users ≡ none)
        × (register code_conf conf hash_password verify_password now email code id password strong y
            ≡ with_code code_conf conf hash_password verify_password now email code "register"
                (register_step code_conf conf hash_password verify_password id email password)
                y)
  unfolding register
  register_ended now email code id password strong y ended =
      elim (Option-cases (find email y.logins.users)) [
        | inr (u, there) ↦ ground arith
        | inl free ↦ elim (Bool-cases strong) [
          | inl on ↦ (free, ground arith)
          | inr off ↦ ground arith
        ]
      ]

  -- Whoever has registered gets in with the password, at whatever time: the account is there, it
  -- is active, and its password is the one that was given. (A password verifies against its hash.)
  pub register_returns :
      (now later : ℕ) (email code : String) (id : ℕ) (password : String) (strong : Bool)
      (jti token : String) (y : State)
      → verify_password password (hash_password password) ≡ true
      → (register code_conf conf hash_password verify_password now email code id password strong
          y).0
        ≡ done
      → let y' =
          (register code_conf conf hash_password verify_password now email code id password strong
            y).1 in
        (find email y.logins.users ≡ none)
        × ((enter later email password jti token y'.logins).0
            ≡ Logins.done
                (record (new_account code_conf conf hash_password verify_password id password) {
                  last_login_at = some later;
                }))
  unfolding register_step is_login_locked
  register_returns now later email code id password strong jti token y verifies ended =
      let (free, same) = register_ended now email code id password strong y ended in
      let step = register_step code_conf conf hash_password verify_password id email password in
      let u = new_account code_conf conf hash_password verify_password id password in
      let y' =
        (register code_conf conf hash_password verify_password now email code id password strong
          y).1.logins in
      let (logins, goes, after) =
        with_code_step now email code "register" step y (ap (λ r. r.0) (sym same) ∙ ended) in
      let there : find email y'.users ≡ some u =
        ap (λ r. find email r.1.logins.users) same
        ∙ ap (λ (l : Logins.State). find email l.users) (after ∙ sym (done_inj goes))
        ∙ find-put_self email u y.logins.users in
      (free, enter_done later email password jti token y' u there refl verifies refl)

  reset_step_done :
      (now : ℕ) (email new_password : String) (strong : Bool) (before after : Logins.State)
      (u : Account)
      → find email before.users ≡ some u
      → reset_step code_conf conf hash_password verify_password now email new_password strong before
        ≡ Logins.done after
      → after ≡ record {
        users = put email (record u { password_hash = hash_password new_password }) before.users;
        sessions = revoke_all now u.id before.sessions;
      }
  unfolding reset_step
  reset_step_done now email new_password strong before after u found ended =
      elim (Bool-cases (u.status == 0)) [
        | inl disabled ↦ ground arith
        | inr enabled ↦ elim (Bool-cases strong) [ inl on ↦ ground arith | inr off ↦ ground arith ]
      ]

  -- A password that is lost is replaced: after it has been set by a code, an active account that is
  -- not locked gets in with the new one, and no refresh token that was given out before is
  -- accepted. (A password verifies against its hash.)
  pub reset_password_returns :
      (now later : ℕ) (email code new_password : String) (strong : Bool) (y : State) (u : Account)
      (s : UserSession) (jti token jti' token' : String)
      → verify_password new_password (hash_password new_password) ≡ true
      → find email y.logins.users ≡ some u
      → u.status ≡ 1
      → is_login_locked later u ≡ false
      → get_by_token_jti jti y.logins.sessions ≡ some s
      → s.user_id ≡ u.id
      → (reset_password code_conf conf hash_password verify_password now email code new_password
          strong y).0
        ≡ done
      → let y' =
          (reset_password code_conf conf hash_password verify_password now email code new_password
            strong y).1.logins in
        let again =
          refresh_access_token conf hash_password verify_password later jti token jti' token' y' in
        ((u' : Account) × ((enter later email new_password jti' token' y').0 ≡ Logins.done u'))
        × ((again ≡ (Logins.failed session_revoked, y'))
            ⊎ (again ≡ (Logins.failed invalid_token, y')))
  unfolding reset_password is_login_locked
  reset_password_returns now later email code new_password strong y u s jti token jti' token'
        verifies found active free there own ended =
      let step =
        reset_step code_conf conf hash_password verify_password now email new_password strong in
      let u' = record u { password_hash = hash_password new_password } in
      let y' =
        (reset_password code_conf conf hash_password verify_password now email code new_password
          strong y).1.logins in
      let (logins, goes, after) = with_code_step now email code "reset_password" step y ended in
      let set : y' ≡ record {
        users = put email u' y.logins.users;
        sessions = revoke_all now u.id y.logins.sessions;
      } =
        after ∙ reset_step_done now email new_password strong y.logins logins u found goes in
      let here : find email y'.users ≡ some u' =
        ap (λ (l : Logins.State). find email l.users) set ∙ find-put_self email u' y.logins.users in
      let gone : get_by_token_jti jti y'.sessions
          ≡ some (if is_active_for u.id s then revoked now s else s) =
        ap (λ (l : Logins.State). get_by_token_jti jti l.sessions) set
        ∙ get-revoke_all now u.id jti y.logins.sessions s there in
      (
        (_, enter_done later email new_password jti' token' y' u' here free verifies active),
        refresh_revoked conf hash_password verify_password later jti token jti' token' y'
            (if is_active_for u.id s then revoked now s else s) gone (ended_ now u.id s own),
      )
