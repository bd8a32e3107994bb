-- ===== src/Wallet/Keys/Tests.antt =====
-- The theorems on API keys at a user with one key.
use eucal_ai_backend.Prelude.{
  IsIn, ◌≢◌, false, ℕ, String, ◌≡◌, refl, true, Bool, Option, none, some, [], ◌∷◌,
}
use eucal_ai_backend.Prelude.Int.{pos}
use eucal_ai_backend.Prelude.Text.{split_by}
use eucal_ai_backend.Prelude.Keyed.{find, put, mem, nat_eq, string_eq}
use eucal_ai_backend.Wallet.Models.{User, UserApiKey, Db, status_disabled, is_exhausted}
use eucal_ai_backend.Wallet.Keys.{
  Fields, refresh_status, raise_for_validation_status, get_by_hash, validate_by_hash,
}
use eucal_ai_backend.Wallet.Keys.Policy.{is_model_allowed, is_ip_allowed, any_rule, is_line_break}
use eucal_ai_backend.Wallet.Session.{in_session, ok}
use eucal_ai_backend.Wallet.Keys.Status.{Grants-validate}
use eucal_ai_backend.Wallet.Keys.Usable.{AllowsModel, AllowsAddress, Lasts, validate_usable}

abbrev key : UserApiKey
key = record {
  user_id = 7;
  key_hash = "h";
  name = "main";
  status = 1;
  quota_mode = 2;
  quota_limit = pos 30;
  quota_used = pos 29;
  allowed_models = some "m1,m2";
  allow_ips = some "10.0.0.1\n10.0.0.2";
  expires_at = some 100;
  last_used_at = none;
  deleted_at = none;
}

abbrev off : UserApiKey
off = record key { status = status_disabled; key_hash = "off" }

abbrev db : Db
db = record {
  users =
      (
        7,
        record {
          status = 1;
          balance = pos 100;
          frozen_amount = pos 0;
          used_amount = pos 0;
          total_requests = 0;
          total_tokens = pos 0;
        },
      )
      ∷ [];
  api_keys = (3, key) ∷ (4, off) ∷ [];
  topup_orders = [];
  vouchers = [];
  transactions = [];
}

-- a stand-in for `ipaddress`: every text is an address, and a network of its own
abbrev parse : String → Option String
parse s = some s

abbrev same : String → String → Option Bool
same rule ip = some (string_eq.beq rule ip)

abbrev used : UserApiKey
used = record key { last_used_at = some 50 }

validate_usable_example :
    (id : ℕ) × (k : UserApiKey) × (owner : User) × IsIn (id, k) db.api_keys
    × (k.key_hash ≡ "h")
    × (k.deleted_at ≡ none)
    × (find k.user_id db.users ≡ some owner)
    × (owner.status ≡ 1)
    × (k.status ≢ status_disabled)
    × Lasts k.expires_at 50
    × (is_exhausted k ≡ false)
    × AllowsModel k.allowed_models (some "m2")
    × AllowsAddress parse same k.allow_ips (some "10.0.0.2")
unfolding validate_by_hash get_by_hash find put mem refresh_status raise_for_validation_status
    is_exhausted is_model_allowed is_ip_allowed any_rule split_by is_line_break
validate_usable_example =
    validate_usable parse same 50 "h" (some "m2") (some "10.0.0.2") db used refl

Grants-validate_example :
    in_session (validate_by_hash parse same 50 "h" (some "m2") (some "10.0.0.2")) db
    ≡ (ok used, record db { api_keys = put 3 used (put 3 key db.api_keys) })
unfolding get_by_hash find put mem is_exhausted is_model_allowed is_ip_allowed any_rule split_by
    is_line_break
Grants-validate_example =
    Grants-validate parse same 50 "h" (some "m2") (some "10.0.0.2") db 3 key refl
      (refl, refl, refl, refl, refl, refl)

abbrev fields : Fields
fields = record {
  name = none;
  quota_limit = some (some (pos 50));
  reset_quota_used = true;
  allowed_models = none;
  allow_ips = some none;
  expires_at = some none;
}

abbrev off' : UserApiKey
off' = record off { quota_limit = pos 50; quota_used = pos 0; allow_ips = none; expires_at = none }
