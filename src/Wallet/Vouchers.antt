-- ===== src/Wallet/Vouchers.antt =====
-- services/user-service/src/services/voucher_service.py
-- `sha256` is the library's hash of a normalized code. A code is its list of ASCII codes.
pub mod Redeem
use eucal_ai_backend.Prelude.{
  ℕ, ◌+◌, String, Bool, not, ◌&&◌, ◌||◌, Option, none, some, List, [], ◌∷◌, ltb, leb, ◌==◌,
  if◌then◌else◌, map,
}
use eucal_ai_backend.Prelude.Int.{◌+ℤ◌}
use eucal_ai_backend.Prelude.Keyed.{Table, find, string_eq}
use eucal_ai_backend.Wallet.Models.{
  VoucherRedemptionCode, voucher_active, voucher_redeemed, voucher_disabled, voucher_code, TxType,
}
use eucal_ai_backend.Wallet.Session.{
  voucher_missing, voucher_unavailable, voucher_not_started, voucher_expired,
  voucher_already_redeemed, validation, Action, or_raise, ◌>>=◌, ◌>>◌, raise_if, gets, commit,
  get_user, save_user, save_voucher, add_transaction,
}

-- the ASCII characters that `str.strip` removes
unfoldable pub is_space : ℕ → Bool
is_space c = (leb 9 c && leb c 13) || (leb 28 c && leb c 32)

unfoldable pub to_lower : ℕ → ℕ
to_lower c = if leb b'A' c && leb c b'Z' then c + 32 else c

unfoldable pub lstrip : List ℕ → List ℕ
lstrip [] = []
lstrip (c ∷ s) = if is_space c then lstrip s else c ∷ s

-- Spaces at the end go with the text before them, if there is any.
unfoldable pub rstrip : List ℕ → List ℕ
rstrip [] = []
rstrip (c ∷ s) = elim (rstrip s) [ [] ↦ if is_space c then [] else c ∷ [] | d ∷ t ↦ c ∷ d ∷ t ]

unfoldable pub normalize_code : List ℕ → List ℕ
unfolding lstrip rstrip to_lower
normalize_code raw_code = map to_lower (rstrip (lstrip raw_code))

-- `VoucherRedemptionCodeRepository.get_by_id`
unfoldable pub find_id :
    ℕ → Table String VoucherRedemptionCode → Option (String × VoucherRedemptionCode)
find_id id [] = none
find_id id ((h, v) ∷ t) = if v.id == id then some (h, v) else find_id id t

unfoldable pub disable : ℕ → Action (Unit {0})
unfolding find_id
disable code_id = do
  found ← gets (λ db. find_id code_id db.vouchers)
  (h, v) ← or_raise found (validation voucher_missing)
  raise_if (v.status == voucher_redeemed) (validation voucher_already_redeemed)
  save_voucher h (record v { status = voucher_disabled })
  commit

abbrev pub or_now : Option ℕ → ℕ → ℕ
or_now none now = now
or_now (some t) now = t

module _ (sha256 : List ℕ → String) where
  abbrev pub hash_code : List ℕ → String
  hash_code raw_code = sha256 (normalize_code raw_code)

  unfoldable pub redeem_code : (now user_id : ℕ) → List ℕ → Option ℕ → Action (Unit {0})
  unfolding add_transaction
  redeem_code now user_id raw_code at = do
    let redeemed_at = or_now at now
    let code_hash = hash_code raw_code
    found ← gets (λ db. find code_hash db.vouchers)
    code ← or_raise found (validation voucher_missing)
    raise_if (not (code.status == voucher_active)) (validation voucher_unavailable)
    raise_if (ltb redeemed_at code.starts_at) (validation voucher_not_started)
    raise_if (leb code.expires_at redeemed_at) (validation voucher_expired)
    u ← get_user user_id
    save_user user_id (record u { balance = u.balance +ℤ code.amount })
    save_voucher code_hash (record code {
      status = voucher_redeemed;
      redeemed_user_id = some user_id;
      redeemed_at = some redeemed_at;
    })
    add_transaction user_id TxType.voucher_redeem code.amount u.balance (u.balance +ℤ code.amount)
        (some (voucher_code code.id)) code.created_by_admin_uid code.remark
    commit
