-- ===== src/Account/Codes/Tests.antt =====
-- The theorems on verification codes at one address; a code is its own hash.
use eucal_ai_backend.Prelude.{String, ◌≢◌, true, false, none, [], ◌∷◌, arith, All}
use eucal_ai_backend.Prelude.Keyed.{string_eq}
use eucal_ai_backend.Account.Codes.{EmailVerificationCode, Settings, limit_reached}
use eucal_ai_backend.Account.Codes.Limits.{send_all, send_all_unlimited}

abbrev conf : Settings
conf = record {
  code_expire_minutes = 10;
  code_daily_send_limit = 2;
  max_code_errors = 2;
  code_error_lock_hours = 1;
}

abbrev plain : String → String
plain s = s

abbrev row : EmailVerificationCode
row = record {
  email = "a@b.c";
  code_hash = "123456";
  purpose = "login";
  expires_at = 700;
  used_at = none;
  error_count = 0;
  locked_until = none;
  created_at = 100;
}

send_all_unlimited_example :
    All
      (λ answer. answer ≢ limit_reached)
      (send_all conf plain "a@b.c" "login"
        ((100, "1", true) ∷ (101, "2", false) ∷ (102, "3", true) ∷ [])
        [])
send_all_unlimited_example =
    send_all_unlimited conf plain "a@b.c" "login"
      ((100, "1", true) ∷ (101, "2", false) ∷ (102, "3", true) ∷ []) (omega arith)
