-- ===== src/Account/Logins/Revocation.antt =====
-- A refresh token ends with the password that it was given for, and with its first use.
use eucal_ai_backend.Prelude.{
  ℕ, String, ◌≡◌, ◌⊎◌, ◌∙◌, ap, inl, inr, Bool, true, some, List, [], ◌∷◌, arith, Bool-cases,
  if◌then◌else◌,
}
use eucal_ai_backend.Prelude.Keyed.{string_eq}
use eucal_ai_backend.Account.Logins.{
  Account, Settings, State, UserSession, Outcome, done, failed, invalid_token, session_revoked,
  is_revoked, is_active_for, revoked, revoke_all, get_by_token_jti, refresh_access_token,
  change_password,
}

pub get-revoke_all :
    (now user_id : ℕ) (jti : String) (sessions : List UserSession) (s : UserSession)
    → get_by_token_jti jti sessions ≡ some s
    → get_by_token_jti jti (revoke_all now user_id sessions)
      ≡ some (if is_active_for user_id s then revoked now s else s)
unfolding get_by_token_jti revoke_all
get-revoke_all now user_id jti [] s found = ground arith
get-revoke_all now user_id jti (t ∷ sessions) s found =
    elim (Bool-cases (string_eq.beq t.token_jti jti)) [
      | inl here ↦ ground arith
      | inr other ↦ ground (arith, get-revoke_all now user_id jti sessions s)
    ]

pub ended :
    (now user_id : ℕ) (s : UserSession)
    → s.user_id ≡ user_id
    → is_revoked (if is_active_for user_id s then revoked now s else s) ≡ true
ended now user_id s own = ground arith

module _ (conf : Settings) (hash_password : String → String)
    (verify_password : String → String → Bool) where
  abbrev refresh : (now : ℕ) → (jti token jti' token' : String) → State → Outcome (Unit {0}) × State
  refresh now jti token jti' token' y =
      refresh_access_token conf hash_password verify_password now jti token jti' token' y

  pub refresh_revoked :
      (now : ℕ) (jti token jti' token' : String) (y : State) (s : UserSession)
      → get_by_token_jti jti y.sessions ≡ some s
      → is_revoked s ≡ true
      → (refresh now jti token jti' token' y ≡ (failed session_revoked, y))
        ⊎ (refresh now jti token jti' token' y ≡ (failed invalid_token, y))
  unfolding refresh_access_token
  refresh_revoked now jti token jti' token' y s found ended =
      elim (Bool-cases (verify_password token s.refresh_token_hash)) [
        | inl right ↦ inl (ground arith)
        | inr wrong ↦ inr (ground arith)
      ]

  sessions-change_password :
      (now : ℕ) (email : String) (u : Account) (old new : String) (strong : Bool) (y : State)
      → let (r, y') =
          change_password conf hash_password verify_password now email u old new strong y in
        r ≡ done tt → y'.sessions ≡ revoke_all now u.id y.sessions
  unfolding change_password
  sessions-change_password now email u old new strong y changed = ground arith

  -- Once a user has changed the password, no refresh token that was given out before is accepted,
  -- and trying one changes nothing.
  pub change_password_revokes :
      (now later : ℕ) (email : String) (u : Account) (old new : String) (strong : Bool) (y : State)
      (s : UserSession) (jti token jti' token' : String)
      → get_by_token_jti jti y.sessions ≡ some s
      → s.user_id ≡ u.id
      → (change_password conf hash_password verify_password now email u old new strong y).0
        ≡ done tt
      → let y' =
          (change_password conf hash_password verify_password now email u old new strong y).1 in
        (refresh later jti token jti' token' y' ≡ (failed session_revoked, y'))
        ⊎ (refresh later jti token jti' token' y' ≡ (failed invalid_token, y'))
  change_password_revokes now later email u old new strong y s jti token jti' token' found own
        changed =
      let after = sessions-change_password now email u old new strong y changed in
      refresh_revoked later jti token jti' token' _
        (if is_active_for u.id s then revoked now s else s)
        (ap (get_by_token_jti jti) after ∙ get-revoke_all now u.id jti y.sessions s found)
        (ended now u.id s own)
