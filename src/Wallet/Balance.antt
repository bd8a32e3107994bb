-- ===== src/Wallet/Balance.antt =====
-- services/user-service/src/services/balance_service.py
pub mod Atomic
pub mod Settle
pub mod Retries
pub mod Effects
use eucal_ai_backend.Prelude.{
  ℕ, ◌+◌, String, Bool, true, false, not, ◌&&◌, ◌||◌, Option, none, some, ◌==◌, if◌then◌else◌,
}
use eucal_ai_backend.Prelude.Int.{ℤ, pos, ◌+ℤ◌, ◌-ℤ◌, ltb_ℤ, leb_ℤ, min_ℤ}
use eucal_ai_backend.Prelude.Keyed.{find, string_eq}
use eucal_ai_backend.Wallet.Models.{
  UserApiKey, mode_limited, status_exhausted, is_exhausted, order_pending, order_paid, User, TxType,
  api_call, topup_order,
}
use eucal_ai_backend.Wallet.Session.{
  freeze_not_positive, settle_invalid, settle_exceeds_estimate, refund_not_positive,
  topup_not_positive, adjust_zero, adjust_negative, insufficient_balance, settle_frozen_short,
  settle_balance_short, refund_frozen_short, order_status_invalid, order_missing, key_missing,
  quota_exceeded, validation, Action, pure, or_raise, ◌>>=◌, ◌>>◌, raise_if, gets, commit,
  exists_by_ref, get_user, save_user, save_key, save_order, get_owned_key, order_of,
  add_transaction, or_none,
}

abbrev pub negate : ℤ → ℤ
negate a = pos 0 -ℤ a

-- `_ensure_api_key_quota`
unfoldable pub over_quota : UserApiKey → ℤ → Bool
over_quota k amount = k.quota_mode == mode_limited && ltb_ℤ k.quota_limit (k.quota_used +ℤ amount)

-- `_get_api_key` and the quota test, if the call names a key
unfoldable pub checked_key : Option ℕ → ℕ → ℤ → Action (Option UserApiKey)
unfolding over_quota
checked_key none user_id amount = pure none
checked_key (some key_id) user_id amount = do
  found ← get_owned_key key_id user_id
  k ← or_raise found (validation key_missing)
  raise_if (over_quota k amount) (validation quota_exceeded)
  pure (some k)

-- the key's part of `consume_for_call_log`: a missing key is passed over
unfoldable pub charge_key : Option ℕ → ℕ → ℤ → Action (Unit {0})
charge_key none user_id cost = pure tt
charge_key (some key_id) user_id cost = do
  found ← get_owned_key key_id user_id
  elim found [
    | none ↦ pure tt
    | some k ↦ save_key key_id (record k { quota_used = k.quota_used +ℤ cost })
  ]

abbrev pub charged : User → ℤ → ℤ → User
charged u cost tokens = record u {
  balance = u.balance -ℤ cost;
  used_amount = u.used_amount +ℤ cost;
  total_requests = u.total_requests + 1;
  total_tokens = u.total_tokens +ℤ tokens;
}

-- `final_status == 200`
abbrev pub is_success : Option ℕ → Bool
is_success none = false
is_success (some status) = status == 200

-- The caller commits.
unfoldable pub consume_for_call_log : ℕ → String → ℤ → ℤ → Option ℕ → Action Bool
unfolding charge_key add_transaction
consume_for_call_log user_id request_id cost total_tokens api_key_id =
    if leb_ℤ cost (pos 0) then pure true else do
      seen ← exists_by_ref TxType.consume (api_call request_id)
      if seen then pure true else do
        u ← get_user user_id
        if ltb_ℤ u.balance cost then pure false else do
          save_user user_id (charged u cost total_tokens)
          add_transaction user_id TxType.consume (negate cost) u.balance (u.balance -ℤ cost)
              (some (api_call request_id)) none none
          charge_key api_key_id user_id cost
          pure true

-- controllers/internal_call_logs.py: `update_call_log` bills the call that has ended.
unfoldable pub bill_call : ℕ → String → Option ℕ → ℤ → ℤ → Option ℕ → Action (Unit {0})
bill_call user_id request_id final_status cost total_tokens api_key_id =
    if ltb_ℤ (pos 0) cost && is_success final_status
    then (do consume_for_call_log user_id request_id cost total_tokens api_key_id; commit)
    else pure tt

unfoldable pub freeze : ℕ → ℤ → String → Option ℕ → Action (Unit {0})
unfolding checked_key add_transaction
freeze user_id amount request_id api_key_id = do
  raise_if (leb_ℤ amount (pos 0)) (validation freeze_not_positive)
  u ← get_user user_id
  seen ← exists_by_ref TxType.freeze (api_call request_id)
  if seen then pure tt else do
    checked_key api_key_id user_id amount
    raise_if (ltb_ℤ u.balance amount) (validation insufficient_balance)
    save_user user_id
        (record u { balance = u.balance -ℤ amount; frozen_amount = u.frozen_amount +ℤ amount })
    add_transaction user_id TxType.freeze (negate amount) u.balance (u.balance -ℤ amount)
        (some (api_call request_id)) none none
    commit

-- the key's part of `settle`
unfoldable pub settle_key : Option ℕ → Option UserApiKey → ℤ → Action (Unit {0})
settle_key (some key_id) (some k) amount =
    let k' = record k { quota_used = k.quota_used +ℤ amount } in
    save_key key_id (if is_exhausted k' then record k' { status = status_exhausted } else k')
settle_key _ _ amount = pure tt

-- `settle` releases what it can of the frozen estimate...
unfoldable pub release : ℕ → User → ℤ → String → Action User
unfolding add_transaction
release user_id u part request_id =
    if ltb_ℤ (pos 0) part
    then (do
      let u' = record u { frozen_amount = u.frozen_amount -ℤ part; balance = u.balance +ℤ part }
      save_user user_id u'
      add_transaction user_id TxType.unfreeze part u.balance (u.balance +ℤ part)
          (some (api_call request_id)) none none
      pure u')
    else pure u

-- ...and then charges the actual amount,
unfoldable pub charge_actual :
    ℕ → User → String → ℤ → Option ℕ → Option UserApiKey → ℤ → Action (Unit {0})
unfolding add_transaction
charge_actual user_id u request_id actual_amount api_key_id k total_tokens = do
  raise_if (ltb_ℤ u.balance actual_amount) (validation settle_balance_short)
  save_user user_id (charged u actual_amount total_tokens)
  add_transaction user_id TxType.consume (negate actual_amount) u.balance
      (u.balance -ℤ actual_amount) (some (api_call request_id)) none none
  settle_key api_key_id k actual_amount
  commit

unfoldable pub release_and_charge :
    ℕ → User → String → ℤ → ℤ → Option ℕ → Option UserApiKey → ℤ → Action (Unit {0})
release_and_charge user_id u request_id estimated_amount actual_amount api_key_id k tokens = do
  raise_if (ltb_ℤ u.frozen_amount actual_amount) (validation settle_frozen_short)
  u' ← release user_id u (min_ℤ u.frozen_amount estimated_amount) request_id
  charge_actual user_id u' request_id actual_amount api_key_id k tokens

-- all of it in one transaction.
unfoldable pub settle : ℕ → String → ℤ → ℤ → Option ℕ → ℤ → Action (Unit {0})
settle user_id request_id estimated_amount actual_amount api_key_id total_tokens = do
  raise_if (leb_ℤ estimated_amount (pos 0) || ltb_ℤ actual_amount (pos 0))
      (validation settle_invalid)
  raise_if (ltb_ℤ estimated_amount actual_amount) (validation settle_exceeds_estimate)
  u ← get_user user_id
  seen ← exists_by_ref TxType.consume (api_call request_id)
  if seen then pure tt else do
    k ← checked_key api_key_id user_id actual_amount
    release_and_charge user_id u request_id estimated_amount actual_amount api_key_id k total_tokens

unfoldable pub refund : ℕ → String → ℤ → Action (Unit {0})
unfolding add_transaction
refund user_id request_id amount = do
  raise_if (leb_ℤ amount (pos 0)) (validation refund_not_positive)
  u ← get_user user_id
  seen ← exists_by_ref TxType.refund (api_call request_id)
  if seen then pure tt else do
    raise_if (ltb_ℤ u.frozen_amount amount) (validation refund_frozen_short)
    save_user user_id
        (record u { frozen_amount = u.frozen_amount -ℤ amount; balance = u.balance +ℤ amount })
    add_transaction user_id TxType.refund amount u.balance (u.balance +ℤ amount)
        (some (api_call request_id)) none none
    commit

unfoldable pub topup :
    (now user_id : ℕ) (amount : ℤ) (order_no : String) (operator_id remark : Option String)
    → Action (Unit {0})
unfolding add_transaction
topup now user_id amount order_no operator_id remark = do
  raise_if (leb_ℤ amount (pos 0)) (validation topup_not_positive)
  u ← get_user user_id
  found ← gets (λ db. order_of user_id (find order_no db.topup_orders))
  o ← or_raise found (validation order_missing)
  raise_if (not (o.status == order_pending)) (validation order_status_invalid)
  seen ← exists_by_ref TxType.topup (topup_order order_no)
  if seen then pure tt else do
    save_user user_id (record u { balance = u.balance +ℤ amount })
    save_order order_no (record o { status = order_paid; paid_at = some now })
    add_transaction user_id TxType.topup amount u.balance (u.balance +ℤ amount)
        (some (topup_order order_no)) operator_id (or_none remark)
    commit

abbrev is_zero : ℤ → Bool
is_zero a = leb_ℤ a (pos 0) && leb_ℤ (pos 0) a

-- It names no `ref_type` and no `ref_id`.
unfoldable pub admin_adjust : ℕ → ℤ → (operator_id remark : Option String) → Action (Unit {0})
unfolding add_transaction
admin_adjust user_id amount operator_id remark = do
  raise_if (is_zero amount) (validation adjust_zero)
  u ← get_user user_id
  let balance_after = u.balance +ℤ amount
  raise_if (ltb_ℤ balance_after (pos 0)) (validation adjust_negative)
  save_user user_id (record u { balance = balance_after })
  add_transaction user_id TxType.admin_adjust amount u.balance balance_after none operator_id remark
  commit
