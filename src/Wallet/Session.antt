-- ===== src/Wallet/Session.antt =====
-- The request-scoped database session of common/db/runtime.py, and the repositories' queries.
-- `working` is what the session's statements see; `committed` is what outlives it. A raise
-- leaves the session as it is: the rollback is that only `committed` is kept.
use eucal_ai_backend.Prelude.{
  ℕ, String, ◌≡◌, refl, ◌⊎◌, inl, inr, Bool, true, false, ◌&&◌, ◌||◌, Option, none, some, List, [],
  ◌∷◌, ◌==◌, if◌then◌else◌,
}
use eucal_ai_backend.Prelude.Int.{ℤ}
use eucal_ai_backend.Prelude.Keyed.{find, put, nat_eq, string_eq}
use eucal_ai_backend.Prelude.Text.{is_empty}
use eucal_ai_backend.Wallet.Models.{
  User, UserApiKey, TopupOrder, VoucherRedemptionCode, BalanceTransaction, TxType, type_code, Ref,
  ref_eq, Db,
}

-- The `detail` of a `ValidationException`.
pub data Detail : Type 0 where
  freeze_not_positive settle_invalid settle_exceeds_estimate refund_not_positive : Detail
  topup_not_positive adjust_zero adjust_negative insufficient_balance settle_frozen_short : Detail
  settle_balance_short refund_frozen_short order_status_invalid order_missing key_missing : Detail
  quota_exceeded voucher_missing voucher_unavailable voucher_not_started voucher_expired : Detail
  voucher_already_redeemed too_many_keys bad_quota_mode bad_quota_limit : Detail

pub data Error : Type 0 where
  user_not_found : Error
  validation : Detail → Error
  -- the `ValueError` of `BalanceTransaction.__init__`
  value_error : Error
  -- SQLAlchemy's `IntegrityError`, of a unique key
  integrity_error : Error
  -- the exceptions of the API keys
  key_not_found key_disabled key_expired key_exhausted user_disabled : Error
  model_not_allowed ip_not_allowed : Error

pub data Result (A : Type 0) : Type 0 where
  ok : A → Result A
  err : Error → Result A

pub Result-cases :
    {A : Type 0} (r : Result A) → ((e : Error) × (r ≡ err e)) ⊎ ((a : A) × (r ≡ ok a))
Result-cases (ok a) = inr (a, refl)
Result-cases (err e) = inl (e, refl)

pub record Session : Type 0 where
  pub committed : Db
  pub working : Db

abbrev pub Action : Type 0 → Type 0
Action A = Session → Result A × Session

abbrev pub modify : (Db → Db) → Action (Unit {0})
modify f s = (ok tt, record s { working = f s.working })

abbrev pub raise : {A : Type 0} → Error → Action A
raise error s = (err error, s)

-- what follows a step, unless the step raises
infixl 5 ◌>>=◌ ◌>>◌
abbrev pub ◌>>=◌ : {A B : Type 0} → Action A → (A → Action B) → Action B
◌>>=◌ step next s = let (r, s') = step s in elim r [ err e ↦ raise e s' | ok a ↦ next a s' ]

abbrev pub gets : {A : Type 0} → (Db → A) → Action A
gets query s = (ok (query s.working), s)

abbrev pub ◌>>◌ : {A B : Type 0} → Action A → Action B → Action B
step >> next = step >>= λ _. next

abbrev pub raise_if : Bool → Error → Action (Unit {0})
raise_if test error s = (if test then err error else ok tt, s)

abbrev pub pure : {A : Type 0} → A → Action A
pure a s = (ok a, s)

abbrev pub or_raise : {A : Type 0} → Option A → Error → Action A
or_raise (some a) error = pure a
or_raise none error = raise error

-- `await db.commit()`
abbrev pub commit : Action (Unit {0})
commit s = (ok tt, record s { committed = s.working })

abbrev pub opened : Db → Session
opened db = record { committed = db; working = db }

-- `get_db`: what a request returns, and what it leaves in the database.
abbrev pub in_session : {A : Type 0} → Action A → Db → Result A × Db
in_session m db = let (r, s) = m (opened db) in (r, s.committed)

-- `BalanceTxRepository.exists_by_ref`; the table's unique key allows one such row at most.
unfoldable pub has_ref : TxType → Ref → List BalanceTransaction → Bool
has_ref ty r [] = false
has_ref ty r (t ∷ ts) = (type_code t.type == type_code ty && ref_eq t.ref r) || has_ref ty r ts

abbrev pub exists_by_ref : TxType → Ref → Action Bool
exists_by_ref ty r = gets (λ db. has_ref ty r db.transactions)

-- `BalanceService._get_user`
abbrev pub get_user : ℕ → Action User
get_user user_id s = or_raise (find user_id s.working.users) user_not_found s

-- assignments to the attributes of a loaded row
abbrev pub save_user : ℕ → User → Action (Unit {0})
save_user user_id u = modify (λ db. record db { users = put user_id u db.users })

abbrev pub save_key : ℕ → UserApiKey → Action (Unit {0})
save_key key_id k = modify (λ db. record db { api_keys = put key_id k db.api_keys })

abbrev pub save_order : String → TopupOrder → Action (Unit {0})
save_order order_no o = modify (λ db. record db { topup_orders = put order_no o db.topup_orders })

abbrev pub save_voucher : String → VoucherRedemptionCode → Action (Unit {0})
save_voucher code_hash v = modify (λ db. record db { vouchers = put code_hash v db.vouchers })

abbrev pub is_live : Option ℕ → Bool
is_live none = true
is_live (some _) = false

-- `remark or None`
unfoldable pub or_none : Option String → Option String
or_none none = none
or_none (some remark) = if is_empty remark then none else some remark

-- `ApiKeyRepository.get_owned_key`: a deleted key, or another user's, is not found.
unfoldable pub owned : ℕ → Option UserApiKey → Option UserApiKey
owned user_id none = none
owned user_id (some k) = if is_live k.deleted_at && k.user_id == user_id then some k else none

abbrev pub get_owned_key : ℕ → ℕ → Action (Option UserApiKey)
get_owned_key key_id user_id = gets (λ db. owned user_id (find key_id db.api_keys))

-- `TopupOrderRepository.get_for_user_by_order_no`
unfoldable pub order_of : ℕ → Option TopupOrder → Option TopupOrder
order_of user_id none = none
order_of user_id (some o) = if o.user_id == user_id then some o else none

abbrev pub booking :
    (user_id : ℕ) (type : TxType) (amount before after : ℤ) (ref : Ref)
    (operator remark : Option String)
    → BalanceTransaction
booking user_id type amount before after ref operator remark = record {
  user_id = user_id;
  type = type;
  amount = amount;
  balance_before = before;
  balance_after = after;
  ref = ref;
  operator_id = operator;
  remark = remark;
}

-- `tx_repo.add(BalanceTransaction(...))`: `__init__` wants a reference.
unfoldable pub add_transaction :
    (user_id : ℕ) (type : TxType) (amount before after : ℤ)
    → Option Ref
    → (operator remark : Option String) → Action (Unit {0})
add_transaction user_id type amount before after none operator remark = raise value_error
add_transaction user_id type amount before after (some r) operator remark =
    let t = booking user_id type amount before after r operator remark in
    modify (λ db. record db { transactions = t ∷ db.transactions })
