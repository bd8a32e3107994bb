-- ===== src/Wallet/Orders.antt =====
-- services/user-service/src/services/topup_order_service.py
pub mod Payment
use eucal_ai_backend.Prelude.{ℕ, String, Bool, true, false, Option, none, some}
use eucal_ai_backend.Prelude.Int.{ℤ, pos, leb_ℤ}
use eucal_ai_backend.Prelude.Keyed.{find, string_eq}
use eucal_ai_backend.Wallet.Models.{TopupOrder, order_pending}
use eucal_ai_backend.Wallet.Session.{
  or_none, topup_not_positive, validation, integrity_error, Action, ◌>>=◌, ◌>>◌, raise_if, gets,
  save_order,
}
use eucal_ai_backend.Wallet.Balance.{topup}

abbrev is_some : Option TopupOrder → Bool
is_some none = false
is_some (some o) = true

-- `TopupOrderRepository(db).add(order)` and the flush: `order_no` is unique.
unfoldable pub insert_order : String → TopupOrder → Action (Unit {0})
insert_order order_no o = do
  found ← gets (λ db. find order_no db.topup_orders)
  raise_if (is_some found) integrity_error
  save_order order_no o

-- `order_no` is what `_generate_order_no` drew.
unfoldable pub create_manual :
    (now user_id : ℕ) (amount : ℤ) (order_no : String) (operator_id remark : Option String)
    → Action (Unit {0})
unfolding insert_order
create_manual now user_id amount order_no operator_id remark = do
  raise_if (leb_ℤ amount (pos 0)) (validation topup_not_positive)
  insert_order order_no (record {
    user_id = user_id;
    amount = amount;
    status = order_pending;
    paid_at = none;
    operator_id = operator_id;
    remark = or_none remark;
  })
  topup now user_id amount order_no operator_id remark
