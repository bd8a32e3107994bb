-- ===== src/Wallet/History.antt =====
-- Any sequence of calls that the user service makes on the wallet, each in its own session.
use eucal_ai_backend.Prelude.{ℕ, String, ◌≡◌, Option, List, [], ◌∷◌}
use eucal_ai_backend.Prelude.Int.{ℤ, ◌+ℤ◌}
use eucal_ai_backend.Prelude.Keyed.{find, nat_eq}
use eucal_ai_backend.Wallet.Models.{Db}
use eucal_ai_backend.Wallet.Session.{Action, in_session}
use eucal_ai_backend.Wallet.Balance
use eucal_ai_backend.Wallet.Orders
use eucal_ai_backend.Wallet.Vouchers
use eucal_ai_backend.Wallet.Ledger.{balance_in, booked, IsSound}
use eucal_ai_backend.Wallet.Ledger.Post.{Chained-booked}
use eucal_ai_backend.Wallet.Balance.Atomic.{
  freeze-IsSound, refund-IsSound, topup_session-IsSound, admin_adjust-IsSound, bill_call-IsSound,
}
use eucal_ai_backend.Wallet.Balance.Settle.{settle-IsSound}
use eucal_ai_backend.Wallet.Orders.Payment.{create_manual-IsSound}
use eucal_ai_backend.Wallet.Vouchers.Redeem.{redeem_code-IsSound, disable-IsSound}

pub data Call : Type 0 where
  bill_call : ℕ → String → Option ℕ → ℤ → ℤ → Option ℕ → Call
  freeze : ℕ → ℤ → String → Option ℕ → Call
  settle : ℕ → String → ℤ → ℤ → Option ℕ → ℤ → Call
  refund : ℕ → String → ℤ → Call
  topup : ℕ → ℕ → ℤ → String → Option String → Option String → Call
  admin_adjust : ℕ → ℤ → Option String → Option String → Call
  create_manual : ℕ → ℕ → ℤ → String → Option String → Option String → Call
  redeem_code : ℕ → ℕ → List ℕ → Option ℕ → Call
  disable : ℕ → Call

module _ (sha256 : List ℕ → String) where
  unfoldable pub act : Call → Action (Unit {0})
  act (bill_call u r s c t k) = Balance.bill_call u r s c t k
  act (freeze u a r k) = Balance.freeze u a r k
  act (settle u r e a k t) = Balance.settle u r e a k t
  act (refund u r a) = Balance.refund u r a
  act (topup n u a o p m) = Balance.topup n u a o p m
  act (admin_adjust u a p m) = Balance.admin_adjust u a p m
  act (create_manual n u a o p m) = Orders.create_manual n u a o p m
  act (redeem_code n u c t) = Vouchers.redeem_code sha256 n u c t
  act (disable c) = Vouchers.disable c

  unfoldable pub serve : Call → Db → Db
  unfolding act
  serve c db = (in_session (act c) db).1

  unfoldable pub serve_all : List Call → Db → Db
  unfolding serve
  serve_all [] db = db
  serve_all (c ∷ cs) db = serve_all cs (serve c db)

  serve-IsSound :
      (opening : ℕ → ℤ) (c : Call) (db : Db) → IsSound opening db → IsSound opening (serve c db)
  unfolding serve act
  serve-IsSound o (bill_call u r s c t k) db h = bill_call-IsSound o u r s c t k db h
  serve-IsSound o (freeze u a r k) db h = freeze-IsSound o u a r k db h
  serve-IsSound o (settle u r e a k t) db h = settle-IsSound o u r e a k t db h
  serve-IsSound o (refund u r a) db h = refund-IsSound o u r a db h
  serve-IsSound o (topup n u a r p m) db h =
      topup_session-IsSound o n u a r p m (record { committed = db; working = db }) h h
  serve-IsSound o (admin_adjust u a p m) db h = admin_adjust-IsSound o u a p m db h
  serve-IsSound o (create_manual n u a r p m) db h = create_manual-IsSound o n u a r p m db h
  serve-IsSound o (redeem_code n u c t) db h = redeem_code-IsSound sha256 o n u c t db h
  serve-IsSound o (disable c) db h = disable-IsSound o c db h

  -- After any sequence of wallet calls, failing ones included, from sound tables: every user's
  -- entries form a chain of balances from the opening balance to the present one, no balance and
  -- no frozen amount is negative, every entry adds up, no two entries share type and reference, a
  -- release of frozen money comes with the charge of its call, a booked voucher is marked as
  -- redeemed, no two vouchers share an id, and none is worth less than nothing.
  pub serve_all-IsSound :
      (opening : ℕ → ℤ) (calls : List Call) (db : Db)
      → IsSound opening db
      → IsSound opening (serve_all calls db)
  unfolding serve_all
  serve_all-IsSound o [] db h = h
  serve_all-IsSound o (c ∷ cs) db h = serve_all-IsSound o cs (serve c db) (serve-IsSound o c db h)

  -- After any sequence of wallet calls from sound tables, a user's balance is the opening balance
  -- plus the sum of the amounts that the ledger has booked on that user.
  pub balance-eq-booked :
      (opening : ℕ → ℤ) (calls : List Call) (db : Db) (user_id : ℕ)
      → IsSound opening db
      → let db' = serve_all calls db in
        balance_in (find user_id db'.users) ≡ opening user_id +ℤ booked user_id db'.transactions
  balance-eq-booked o calls db user_id h =
      let ledger = (serve_all-IsSound o calls db h).ledger in
      Chained-booked o user_id (serve_all calls db).transactions _ ledger.entries
        (ledger.history user_id)
