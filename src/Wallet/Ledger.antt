-- ===== src/Wallet/Ledger.antt =====
-- What the ledger promises: models/balance_transaction.py calls it an immutable append-only
-- ledger for every balance mutation, and the table has a unique key on type and reference.
pub mod Amounts
pub mod Post
use eucal_ai_backend.Prelude.{
  ℕ, String, ◌≡◌, refl, Bool, true, false, Option, none, some, List, [], ◌∷◌, ◌==◌, if◌then◌else◌,
  All,
}
use eucal_ai_backend.Prelude.Int.{ℤ, pos, ◌+ℤ◌, ◌≤ℤ◌}
use eucal_ai_backend.Prelude.Keyed.{Table, find, nat_eq, string_eq, IsKeyed}
use eucal_ai_backend.Wallet.Models.{
  User, BalanceTransaction, TxType, consume, unfreeze, Ref, api_call, voucher_code, Db,
  VoucherRedemptionCode, voucher_redeem, voucher_redeemed,
}
use eucal_ai_backend.Wallet.Session.{has_ref}

abbrev pub balance_in : Option User → ℤ
balance_in none = pos 0
balance_in (some u) = u.balance

-- The sum of the amounts booked on one user.
unfoldable pub booked : ℕ → List BalanceTransaction → ℤ
booked id [] = pos 0
booked id (t ∷ ts) = if t.user_id == id then booked id ts +ℤ t.amount else booked id ts

-- The entries of one user form a chain of balances from `opening` to `b`.
abbrev pub Chained : (ℕ → ℤ) → ℕ → List BalanceTransaction → ℤ → Type 0
Chained opening id [] b = b ≡ opening id
Chained opening id (t ∷ ts) b =
    if t.user_id == id
    then (t.balance_after ≡ b) × Chained opening id ts t.balance_before
    else Chained opening id ts b

abbrev pub IsEntry : BalanceTransaction → Type 0
IsEntry t = (t.balance_after ≡ t.balance_before +ℤ t.amount) × (pos 0 ≤ℤ t.balance_after)

-- The unique key on (type, ref_type, ref_id).
abbrev pub UniqueRefs : List BalanceTransaction → Type 0
UniqueRefs [] = Unit
UniqueRefs (t ∷ ts) = (has_ref t.type t.ref ts ≡ false) × UniqueRefs ts

-- Users and ledger agree, where `opening` holds the balances before the first entry.
pub record IsBooked (opening : ℕ → ℤ) (users : Table ℕ User) (txs : List BalanceTransaction)
    : Type 0 where
  pub history : (id : ℕ) → Chained opening id txs (balance_in (find id users))
  pub solvent :
      (id : ℕ) (u : User)
      → find id users ≡ some u
      → (pos 0 ≤ℤ u.balance) × (pos 0 ≤ℤ u.frozen_amount)
  pub entries : All IsEntry txs
  pub unique : UniqueRefs txs

-- A release of frozen money for a call comes with the charge of that call.
abbrev pub Paired : List BalanceTransaction → Type 0
Paired txs =
    (r : String)
    → has_ref consume (api_call r) txs ≡ false
    → has_ref unfreeze (api_call r) txs ≡ false

-- A voucher that the ledger has booked is marked as redeemed; no two vouchers share an id.
pub record IsVouched (vouchers : Table String VoucherRedemptionCode) (txs : List BalanceTransaction)
    : Type 0 where
  pub spent :
      (h : String) (v : VoucherRedemptionCode)
      → find h vouchers ≡ some v
      → has_ref voucher_redeem (voucher_code v.id) txs ≡ true
      → v.status ≡ voucher_redeemed
  pub distinct :
      (h k : String) (v w : VoucherRedemptionCode)
      → find h vouchers ≡ some v
      → find k vouchers ≡ some w
      → v.id ≡ w.id
      → h ≡ k
  pub keyed : IsKeyed vouchers
  pub worth :
      (h : String) (v : VoucherRedemptionCode) → find h vouchers ≡ some v → pos 0 ≤ℤ v.amount

pub record IsConsistent (opening : ℕ → ℤ) (users : Table ℕ User)
    (vouchers : Table String VoucherRedemptionCode) (txs : List BalanceTransaction) : Type 0 where
  pub ledger : IsBooked opening users txs
  pub paired : Paired txs
  pub vouched : IsVouched vouchers txs

abbrev pub IsSound : (ℕ → ℤ) → Db → Type 0
IsSound opening db = IsConsistent opening db.users db.vouchers db.transactions
