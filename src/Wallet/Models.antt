-- ===== src/Wallet/Models.antt =====
-- services/user-service/src/models: the columns that the wallet and the API keys read or write.
-- A row's primary key is its key in the table; times are naive datetimes, as numbers.
use text.Mathlib.Text.{◌==◌ as str_eq}
use eucal_ai_backend.Prelude.{ℕ, String, Bool, false, ◌&&◌, Option, List, ◌==◌}
use eucal_ai_backend.Prelude.Int.{ℤ, leb_ℤ}
use eucal_ai_backend.Prelude.Keyed.{Table}

-- models/user.py
pub record User : Type 0 where
  pub status : ℕ  -- 0 disabled, 1 active, 2 pending
  pub balance : ℤ
  pub frozen_amount : ℤ
  pub used_amount : ℤ
  pub total_requests : ℕ
  pub total_tokens : ℤ

-- models/user_api_key.py
pub record UserApiKey : Type 0 where
  pub user_id : ℕ
  pub key_hash : String
  pub name : String
  pub status : ℕ
  pub quota_mode : ℕ
  pub quota_limit : ℤ
  pub quota_used : ℤ
  pub allowed_models : Option String
  pub allow_ips : Option String
  pub expires_at : Option ℕ
  pub last_used_at : Option ℕ
  pub deleted_at : Option ℕ

abbrev pub status_active : ℕ
status_active = 1

abbrev pub status_disabled : ℕ
status_disabled = 2

abbrev pub status_expired : ℕ
status_expired = 3

abbrev pub status_exhausted : ℕ
status_exhausted = 4

abbrev pub mode_unlimited : ℕ
mode_unlimited = 1

abbrev pub mode_limited : ℕ
mode_limited = 2

unfoldable pub is_exhausted : UserApiKey → Bool
is_exhausted k = k.quota_mode == mode_limited && leb_ℤ k.quota_limit k.quota_used

-- models/topup_order.py
pub record TopupOrder : Type 0 where
  pub user_id : ℕ
  pub amount : ℤ
  pub status : ℕ
  pub paid_at : Option ℕ
  pub operator_id : Option String
  pub remark : Option String

abbrev pub order_pending : ℕ
order_pending = 1

abbrev pub order_paid : ℕ
order_paid = 2

-- models/voucher_redemption_code.py; `code_hash` is unique and is the table's key here.
pub record VoucherRedemptionCode : Type 0 where
  pub id : ℕ
  pub amount : ℤ
  pub status : ℕ
  pub starts_at : ℕ
  pub expires_at : ℕ
  pub redeemed_user_id : Option ℕ
  pub redeemed_at : Option ℕ
  pub created_by_admin_uid : Option String
  pub remark : Option String

abbrev pub voucher_active : ℕ
voucher_active = 1

abbrev pub voucher_redeemed : ℕ
voucher_redeemed = 2

abbrev pub voucher_disabled : ℕ
voucher_disabled = 3

-- models/balance_transaction.py: the values of `type`
pub data TxType : Type 0 where
  topup consume refund freeze unfreeze admin_adjust voucher_redeem : TxType

abbrev pub type_code : TxType → ℕ
type_code topup = 1
type_code consume = 2
type_code refund = 3
type_code freeze = 4
type_code unfreeze = 5
type_code admin_adjust = 6
type_code voucher_redeem = 7

-- The pair of `ref_type` and `ref_id`; a voucher's `ref_id` is `str(code.id)`.
pub data Ref : Type 0 where
  api_call : String → Ref
  topup_order : String → Ref
  voucher_code : ℕ → Ref

unfoldable pub ref_eq : Ref → Ref → Bool
ref_eq (api_call a) (api_call b) = str_eq a b
ref_eq (topup_order a) (topup_order b) = str_eq a b
ref_eq (voucher_code a) (voucher_code b) = a == b
ref_eq _ _ = false

pub record BalanceTransaction : Type 0 where
  pub user_id : ℕ
  pub type : TxType
  pub amount : ℤ
  pub balance_before : ℤ
  pub balance_after : ℤ
  pub ref : Ref
  pub operator_id : Option String
  pub remark : Option String

-- The tables; the newest transaction comes first.
pub record Db : Type 0 where
  pub users : Table ℕ User
  pub api_keys : Table ℕ UserApiKey
  pub topup_orders : Table String TopupOrder
  pub vouchers : Table String VoucherRedemptionCode
  pub transactions : List BalanceTransaction
