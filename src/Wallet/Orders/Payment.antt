-- ===== src/Wallet/Orders/Payment.antt =====
-- A manual order is paid at once, and leaves the committed tables sound.
use eucal_ai_backend.Prelude.{ℕ, String, Option, none, arith}
use eucal_ai_backend.Prelude.Int.{ℤ}
use eucal_ai_backend.Wallet.Models.{order_pending, Db}
use eucal_ai_backend.Wallet.Session.{in_session, or_none}
use eucal_ai_backend.Wallet.Ledger.{IsSound}
use eucal_ai_backend.Wallet.Balance.Atomic.{topup_session-IsSound}
use eucal_ai_backend.Wallet.Orders.{create_manual}
use eucal_ai_backend.Prelude.Keyed.{put, string_eq}

pub create_manual-IsSound :
    (opening : ℕ → ℤ) (now user_id : ℕ) (amount : ℤ) (order_no : String)
    (operator remark : Option String) (db : Db)
    → IsSound opening db
    → IsSound opening (in_session (create_manual now user_id amount order_no operator remark) db).1
unfolding create_manual
create_manual-IsSound opening now user_id amount order_no operator remark db h = ground (
  arith,
  topup_session-IsSound opening now user_id amount order_no operator remark
      (record {
        committed = db;
        working = record db {
          topup_orders =
              put order_no
                (record {
                  user_id = user_id;
                  amount = amount;
                  status = order_pending;
                  paid_at = none;
                  operator_id = operator;
                  remark = or_none remark;
                })
                db.topup_orders;
        };
      })
      h h,
)
