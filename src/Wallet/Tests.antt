-- ===== src/Wallet/Tests.antt =====
-- The wallet's theorems at a small database, with an account, a key, an order and a voucher.
use Prim.Native.String.{◌++◌ as str_append}
use eucal_ai_backend.Prelude.{ℕ, String, ◌≡◌, refl, none, some, List, [], ◌∷◌, arith}
use eucal_ai_backend.Prelude.Int.{ℤ, pos, negsuc, ◌+ℤ◌, ◌-ℤ◌, min_ℤ}
use eucal_ai_backend.Prelude.Keyed.{find, put, nat_eq, string_eq}
use eucal_ai_backend.Wallet.Models.{
  User, UserApiKey, VoucherRedemptionCode, Db, ref_eq, is_exhausted,
}
use eucal_ai_backend.Wallet.Session.{
  err, value_error, validation, voucher_unavailable, insufficient_balance, in_session, has_ref,
  order_of, owned, add_transaction,
}
use eucal_ai_backend.Wallet.Balance
use eucal_ai_backend.Wallet.Balance.{
  over_quota, checked_key, charge_key, settle_key, release, charge_actual, release_and_charge,
  consume_for_call_log,
}
use eucal_ai_backend.Wallet.Vouchers.{
  is_space, to_lower, lstrip, rstrip, normalize_code, redeem_code,
}
use eucal_ai_backend.Wallet.Orders.{create_manual, insert_order}
use eucal_ai_backend.Wallet.Ledger.{IsSound, balance_in, booked}
use eucal_ai_backend.Wallet.History.{
  Call, serve, act, serve_all, serve_all-IsSound, balance-eq-booked,
}
use eucal_ai_backend.Wallet.Failures.{act_failed}
use eucal_ai_backend.Wallet.Redemption.{redeem_once}
use eucal_ai_backend.Wallet.Balance.Retries.{bill_call_again}
use eucal_ai_backend.Wallet.Balance.Effects.{settled, find-settle, admin_adjust_raises}

abbrev account : User
account = record {
  status = 1;
  balance = pos 100;
  frozen_amount = pos 20;
  used_amount = pos 0;
  total_requests = 0;
  total_tokens = pos 0;
}

abbrev key : UserApiKey
key = record {
  user_id = 7;
  key_hash = "k";
  name = "main";
  status = 1;
  quota_mode = 2;
  quota_limit = pos 30;
  quota_used = pos 0;
  allowed_models = none;
  allow_ips = none;
  expires_at = none;
  last_used_at = none;
  deleted_at = none;
}

abbrev voucher : VoucherRedemptionCode
voucher = record {
  id = 1;
  amount = pos 50;
  status = 1;
  starts_at = 5;
  expires_at = 90;
  redeemed_user_id = none;
  redeemed_at = none;
  created_by_admin_uid = some "root";
  remark = none;
}

abbrev db : Db
db = record {
  users = (7, account) ∷ [];
  api_keys = (3, key) ∷ [];
  topup_orders = [];
  vouchers = ("xx", voucher) ∷ [];
  transactions = [];
}

abbrev opening : ℕ → ℤ
opening id = balance_in (find id db.users)

-- a stand-in for the hash: two codes of the same length collide
abbrev toy_hash : List ℕ → String
toy_hash [] = ""
toy_hash (c ∷ s) = str_append "x" (toy_hash s)

db-IsSound : IsSound opening db
unfolding find has_ref
db-IsSound = record {
  ledger = record {
    history = λ id. refl;
    solvent = λ id u found. ground arith;
    entries = tt;
    unique = tt;
  };
  paired = λ r h. refl;
  vouched = record {
    spent = λ h v found used. ground arith;
    distinct = λ h k v w found found' same.
        ground (arith, string_eq.beq_iff "xx" h, string_eq.beq_iff "xx" k);
    keyed = (refl, tt);
    worth = λ h v found. ground arith;
  };
}

-- The settlement of 12 releases the 15 that were estimated; the second billing is refused by the
-- ledger, the adjustment by `BalanceTransaction`.
abbrev calls : List Call
calls =
    Call.settle 7 "a" (pos 15) (pos 12) (some 3) (pos 40)
    ∷ Call.bill_call 7 "b" (some 200) (pos 9) (pos 4) none
    ∷ Call.bill_call 7 "b" (some 200) (pos 9) (pos 4) none
    ∷ Call.redeem_code 30 7 (b'A' ∷ b' ' ∷ b'B' ∷ []) none
    ∷ Call.redeem_code 30 7 (b'A' ∷ b'B' ∷ b' ' ∷ []) none
    ∷ Call.create_manual 31 7 (pos 5) "T1" none none
    ∷ Call.admin_adjust 7 (pos 1) none none
    ∷ []

serve_all-IsSound_example : IsSound opening (serve_all toy_hash calls db)
serve_all-IsSound_example = serve_all-IsSound toy_hash opening calls db db-IsSound

balance-eq-booked_example :
    let db' = serve_all toy_hash calls db in
    balance_in (find 7 db'.users) ≡ pos 100 +ℤ booked 7 db'.transactions
unfolding find
balance-eq-booked_example = balance-eq-booked toy_hash opening calls db 7 db-IsSound

act_failed_example : (in_session (act toy_hash (Call.freeze 7 (pos 101) "a" none)) db).1 ≡ db
unfolding act Balance.freeze find has_ref checked_key
act_failed_example =
    act_failed toy_hash (Call.freeze 7 (pos 101) "a" none) db (validation insufficient_balance) refl

bill_call_again_example :
    let once = in_session (Balance.bill_call 7 "b" (some 200) (pos 9) (pos 4) (some 3)) db in
    in_session (Balance.bill_call 7 "b" (some 200) (pos 9) (pos 4) (some 3)) once.1 ≡ once
bill_call_again_example = bill_call_again 7 "b" (some 200) (pos 9) (pos 4) (some 3) db

find-settle_example :
    let db' = (in_session (Balance.settle 7 "a" (pos 15) (pos 12) (some 3) (pos 40)) db).1 in
    find 7 db'.users ≡ some (settled 7 "a" (pos 15) (pos 12) (some 3) (pos 40) account)
unfolding Balance.settle release_and_charge release charge_actual settle_key find put has_ref
    checked_key over_quota owned is_exhausted ◌+ℤ◌ ◌-ℤ◌ min_ℤ
find-settle_example =
    find-settle 7 "a" (pos 15) (pos 12) (some 3) (pos 40) account db refl (omega arith) refl refl

redeem_once_example :
    let db' = (in_session (redeem_code toy_hash 30 7 (b'A' ∷ b'B' ∷ []) none) db).1 in
    in_session (redeem_code toy_hash 40 8 (b' ' ∷ b'a' ∷ b'b' ∷ []) none) db'
    ≡ (err (validation voucher_unavailable), db')
unfolding redeem_code find put add_transaction normalize_code lstrip rstrip to_lower is_space
redeem_once_example =
    redeem_once toy_hash 30 40 7 8 (b'A' ∷ b'B' ∷ []) (b' ' ∷ b'a' ∷ b'b' ∷ []) none none db refl
      refl

admin_adjust_raises_example :
    in_session (Balance.admin_adjust 7 (negsuc 4) (some "root") none) db ≡ (err value_error, db)
unfolding find ◌+ℤ◌
admin_adjust_raises_example =
    admin_adjust_raises 7 (negsuc 4) (some "root") none db account refl (ground arith) (omega arith)

balance_at_end :
    let db' = serve_all toy_hash calls db in
    (balance_in (find 7 db'.users) ≡ pos 149) × (booked 7 db'.transactions ≡ pos 49)
unfolding serve_all serve act Balance.bill_call Balance.settle Balance.admin_adjust Balance.topup
    create_manual insert_order order_of consume_for_call_log charge_key release_and_charge release
    charge_actual settle_key find put has_ref ref_eq checked_key over_quota owned is_exhausted ◌+ℤ◌
    ◌-ℤ◌ min_ℤ redeem_code add_transaction normalize_code lstrip rstrip to_lower is_space booked
balance_at_end = (refl, refl)
