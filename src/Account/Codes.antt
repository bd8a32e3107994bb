-- ===== src/Account/Codes.antt =====
-- services/user-service/src/services/email_service.py, models/email_verification_code.py and
-- repositories/email_code_repository.py. The rows stand newest first, so that the latest one is
-- the first; times are seconds. `email` is the normalized address. Each change is committed at
-- once by the code, so the state is what is committed. `hash_password` and `verify_password` stand
-- for passlib's hashing.
mod Tests
pub mod Limits
pub mod Attempts
use eucal_ai_backend.Prelude.{
  ℕ, ◌+◌, ◌-◌, ◌*◌, ◌%◌, String, Bool, true, false, not, ◌&&◌, Option, none, some, List, [], ◌∷◌,
  ltb, leb, if◌then◌else◌, filter,
}
use eucal_ai_backend.Prelude.Keyed.{string_eq}

pub record EmailVerificationCode : Type 0 where
  pub email : String
  pub code_hash : String
  pub purpose : String
  pub expires_at : ℕ
  pub used_at : Option ℕ
  pub error_count : ℕ
  pub locked_until : Option ℕ
  pub created_at : ℕ

pub record Settings : Type 0 where
  pub code_expire_minutes : ℕ
  pub code_daily_send_limit : ℕ
  pub max_code_errors : ℕ
  pub code_error_lock_hours : ℕ

abbrev pub Codes : Type 0
Codes = List EmailVerificationCode

-- `now < locked_until`, if there is a lock
abbrev pub is_before_end : (now : ℕ) → Option ℕ → Bool
is_before_end now none = false
is_before_end now (some end) = ltb now end

abbrev pub is_unused : EmailVerificationCode → Bool
is_unused c = elim (c.used_at) [ none ↦ true | some at ↦ false ]

module _ (email purpose : String) where
  unfoldable pub is_for : EmailVerificationCode → Bool
  is_for c = string_eq.beq c.email email && string_eq.beq c.purpose purpose

  -- `count_created_since`
  unfoldable pub count_created_since : ℕ → Codes → ℕ
  count_created_since start [] = 0
  count_created_since start (c ∷ codes) =
      let rest = count_created_since start codes in
      if is_for c && leb start c.created_at then rest + 1 else rest

  -- `latest_for_email`
  unfoldable pub latest : Codes → Option EmailVerificationCode
  latest [] = none
  latest (c ∷ codes) = if is_for c then some c else latest codes

  -- `latest_unused_for_email`
  unfoldable pub latest_unused : Codes → Option EmailVerificationCode
  latest_unused [] = none
  latest_unused (c ∷ codes) = if is_for c && is_unused c then some c else latest_unused codes

  -- the table with another row in the place of that one
  unfoldable pub replace_unused : EmailVerificationCode → Codes → Codes
  replace_unused new [] = []
  replace_unused new (c ∷ codes) =
      if is_for c && is_unused c then new ∷ codes else c ∷ replace_unused new codes

  -- `list_unused_for_email`, each deleted
  unfoldable pub delete_unused : Codes → Codes
  delete_unused codes = filter (λ c. not (is_for c && is_unused c)) codes

abbrev pub today_start : ℕ → ℕ
today_start now = now - now % 86400

pub data Sent : Type 0 where
  limit_reached : Sent
  locked : Sent
  send_failed : Sent
  sent : Sent

pub data Checked : Type 0 where
  accepted : EmailVerificationCode → Checked
  code_not_found : Checked
  code_expired : Checked
  -- the three `InvalidCodeException`s
  still_locked too_many_errors invalid : Checked

is_locked_row : ℕ → Option EmailVerificationCode → Bool
is_locked_row now none = false
is_locked_row now (some c) = is_before_end now c.locked_until

module _ (conf : Settings) (hash_password : String → String) where
  -- `send_verification_code` of a code that `generate_code` drew; `delivered` is what the mail
  -- server does
  unfoldable pub send_verification_code :
      (now : ℕ) (email purpose code : String) (delivered : Bool) → Codes → Sent × Codes
  unfolding is_locked_row
  send_verification_code now email purpose code delivered codes =
      if leb conf.code_daily_send_limit (count_created_since email purpose (today_start now) codes)
      then (limit_reached, codes)
      else if is_locked_row now (latest email purpose codes)
      then (locked, codes)
      else let kept = delete_unused email purpose codes in
        let verification : EmailVerificationCode = record {
          email = email;
          code_hash = hash_password code;
          purpose = purpose;
          expires_at = now + conf.code_expire_minutes * 60;
          used_at = none;
          error_count = 0;
          locked_until = none;
          created_at = now;
        } in
        if delivered then (sent, verification ∷ kept) else (send_failed, kept)

module _ (conf : Settings) (verify_password : String → String → Bool) where
  -- a wrong code, for the row it was tried on
  unfoldable pub count_error : (now : ℕ) → EmailVerificationCode → Checked × EmailVerificationCode
  count_error now c =
      let c' = record c { error_count = c.error_count + 1 } in
      if leb conf.max_code_errors (c.error_count + 1)
      then (
        too_many_errors,
        record c' { locked_until = some (now + conf.code_error_lock_hours * 3600) },
      )
      else (invalid, c')

  unfoldable pub get_valid_code_or_raise :
      (now : ℕ) (email code purpose : String) → Codes → Checked × Codes
  unfolding count_error
  get_valid_code_or_raise now email code purpose codes = elim (latest_unused email purpose codes) [
    | none ↦ (code_not_found, codes)
    | some c ↦
        if is_before_end now c.locked_until
        then (still_locked, codes)
        else if ltb c.expires_at now
        then (code_expired, codes)
        else if verify_password code c.code_hash
        then (accepted c, codes)
        else let (raised, c') = count_error now c in (raised, replace_unused email purpose c' codes)
  ]

  abbrev pub mark_code_used : (now : ℕ) → EmailVerificationCode → EmailVerificationCode
  mark_code_used now c = record c { used_at = some now; error_count = 0 }

  unfoldable pub verify_code_or_raise :
      (now : ℕ) (email code purpose : String) → Codes → Checked × Codes
  verify_code_or_raise now email code purpose codes =
      let (checked, codes') = get_valid_code_or_raise now email code purpose codes in
      elim checked [
        | accepted c ↦ (accepted c, replace_unused email purpose (mark_code_used now c) codes')
        | code_not_found ↦ (code_not_found, codes')
        | code_expired ↦ (code_expired, codes')
        | still_locked ↦ (still_locked, codes')
        | too_many_errors ↦ (too_many_errors, codes')
        | invalid ↦ (invalid, codes')
      ]
