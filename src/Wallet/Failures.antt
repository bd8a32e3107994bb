-- ===== src/Wallet/Failures.antt =====
-- A wallet call that raises leaves the tables as they were.
use eucal_ai_backend.Prelude.{
  ℕ, String, ◌≡◌, inl, inr, Option, none, List, arith, Option-cases, Bool-cases,
}
use eucal_ai_backend.Prelude.Int.{ℤ, pos, ltb_ℤ, min_ℤ}
use eucal_ai_backend.Prelude.Keyed.{find, put, nat_eq, string_eq}
use eucal_ai_backend.Wallet.Models.{order_pending, User, UserApiKey, Db, consume, api_call}
use eucal_ai_backend.Wallet.Session.{or_none, Session, Error, err, opened, in_session, has_ref}
use eucal_ai_backend.Wallet.Balance
use eucal_ai_backend.Wallet.Balance.{charge_actual, release_and_charge}
use eucal_ai_backend.Wallet.Balance.Atomic.{
  checked_key-cases, session-checked_key, committed-consume, with_charge,
}
use eucal_ai_backend.Wallet.Balance.Settle.{
  settle_key_frame, released, after_release, release-none, release-some,
}
use eucal_ai_backend.Wallet.Balance.Effects.{admin_adjust_fails}
use eucal_ai_backend.Wallet.Orders.{create_manual, insert_order}
use eucal_ai_backend.Wallet.Vouchers.{redeem_code, disable}
use eucal_ai_backend.Wallet.History.{Call, act}

module _ (db : Db) (e : Error) where
  freeze_failed :
      (user_id : ℕ) (amount : ℤ) (request_id : String) (key : Option ℕ)
      → (in_session (Balance.freeze user_id amount request_id key) db).0 ≡ err e
      → (in_session (Balance.freeze user_id amount request_id key) db).1 ≡ db
  unfolding Balance.freeze
  freeze_failed user_id amount request_id key raised = elim (Option-cases (find user_id db.users)) [
    | inl missing ↦ ground arith
    | inr (u, found) ↦ ground (arith, session-checked_key key user_id amount (opened db))
  ]

  refund_failed :
      (user_id : ℕ) (request_id : String) (amount : ℤ)
      → (in_session (Balance.refund user_id request_id amount) db).0 ≡ err e
      → (in_session (Balance.refund user_id request_id amount) db).1 ≡ db
  unfolding Balance.refund
  refund_failed user_id request_id amount raised = elim (Option-cases (find user_id db.users)) [
    | inl missing ↦ ground arith
    | inr (u, found) ↦ ground arith
  ]

  topup_failed :
      (now user_id : ℕ) (amount : ℤ) (order_no : String) (operator remark : Option String)
      (s : Session)
      → let (r, s') = Balance.topup now user_id amount order_no operator remark s in
        r ≡ err e → s'.committed ≡ s.committed
  unfolding Balance.topup
  topup_failed now user_id amount order_no operator remark s raised =
      elim (Option-cases (find user_id s.working.users)) [
        | inl missing ↦ ground arith
        | inr (u, found) ↦ ground arith
      ]

  charge_failed :
      (user_id : ℕ) (u : User) (request_id : String) (actual : ℤ) (key : Option ℕ)
      (k : Option UserApiKey) (tokens : ℤ) (s : Session)
      → let (r, s') = charge_actual user_id u request_id actual key k tokens s in
        r ≡ err e → s'.committed ≡ s.committed
  unfolding charge_actual
  charge_failed user_id u request_id actual key k tokens s raised = ground (
    arith,
    settle_key_frame key k actual (record {
      committed = s.committed;
      working = with_charge user_id request_id actual tokens u s.working;
    }),
  )

  release_failed :
      (user_id : ℕ) (u : User) (request_id : String) (estimated actual : ℤ) (key : Option ℕ)
      (k : Option UserApiKey) (tokens : ℤ)
      → let (r, s') =
          release_and_charge user_id u request_id estimated actual key k tokens (opened db) in
        r ≡ err e → s'.committed ≡ db
  unfolding release_and_charge
  release_failed user_id u request_id estimated actual key k tokens raised =
      elim (Bool-cases (ltb_ℤ (pos 0) (min_ℤ u.frozen_amount estimated))) [
        | inr nothing ↦ ground (
          arith,
          release-none user_id request_id estimated u (opened db) nothing,
          charge_failed user_id u request_id actual key k tokens (opened db),
        )
        | inl some_part ↦ ground (
          arith,
          release-some user_id request_id estimated u (opened db) some_part,
          charge_failed user_id (released user_id request_id estimated u) request_id actual key k
              tokens (after_release user_id request_id estimated u (opened db)),
        )
      ]

  settle_failed :
      (user_id : ℕ) (request_id : String) (estimated actual : ℤ) (key : Option ℕ) (tokens : ℤ)
      → (in_session (Balance.settle user_id request_id estimated actual key tokens) db).0 ≡ err e
      → (in_session (Balance.settle user_id request_id estimated actual key tokens) db).1 ≡ db
  unfolding Balance.settle
  settle_failed user_id request_id estimated actual key tokens raised =
      elim (Option-cases (find user_id db.users)) [
        | inl missing ↦ ground arith
        | inr (u, found) ↦
            elim (Bool-cases (has_ref consume (api_call request_id) db.transactions)) [
              | inl seen ↦ ground arith
              | inr fresh ↦ elim (checked_key-cases key user_id actual (opened db)) [
                | inl (f, stopped) ↦ ground arith
                | inr (k, returned) ↦
                    ground
                      (arith, release_failed user_id u request_id estimated actual key k tokens)
              ]
            ]
      ]

  bill_failed :
      (user_id : ℕ) (request_id : String) (final_status : Option ℕ) (cost tokens : ℤ)
      (key : Option ℕ)
      → (in_session (Balance.bill_call user_id request_id final_status cost tokens key) db).0
        ≡ err e
      → (in_session (Balance.bill_call user_id request_id final_status cost tokens key) db).1 ≡ db
  unfolding Balance.bill_call
  bill_failed user_id request_id final_status cost tokens key raised =
      ground (arith, committed-consume user_id request_id cost tokens key (opened db))

  create_manual_failed :
      (now user_id : ℕ) (amount : ℤ) (order_no : String) (operator remark : Option String)
      → (in_session (create_manual now user_id amount order_no operator remark) db).0 ≡ err e
      → (in_session (create_manual now user_id amount order_no operator remark) db).1 ≡ db
  unfolding create_manual insert_order
  create_manual_failed now user_id amount order_no operator remark raised = ground (
    arith,
    topup_failed now user_id amount order_no operator remark (record {
      committed = db;
      working = record db {
        topup_orders =
            put order_no
              (record {
                user_id = user_id;
                amount = amount;
                status = order_pending;
                paid_at = none;
                operator_id = operator;
                remark = or_none remark;
              })
              db.topup_orders;
      };
    }),
  )

  redeem_failed :
      (sha256 : List ℕ → String) (now user_id : ℕ) (code : List ℕ) (at : Option ℕ)
      → (in_session (redeem_code sha256 now user_id code at) db).0 ≡ err e
      → (in_session (redeem_code sha256 now user_id code at) db).1 ≡ db
  unfolding redeem_code
  redeem_failed sha256 now user_id code at raised = ground arith

  disable_failed :
      (id : ℕ) → (in_session (disable id) db).0 ≡ err e → (in_session (disable id) db).1 ≡ db
  unfolding disable
  disable_failed id raised = ground arith

-- A wallet call that raises changes nothing in the database, whichever step raises.
pub act_failed :
    (sha256 : List ℕ → String) (c : Call) (db : Db) (e : Error)
    → (in_session (act sha256 c) db).0 ≡ err e
    → (in_session (act sha256 c) db).1 ≡ db
unfolding act
act_failed sha256 (Call.bill_call u r s c t k) db e h = bill_failed db e u r s c t k h
act_failed sha256 (Call.freeze u a r k) db e h = freeze_failed db e u a r k h
act_failed sha256 (Call.settle u r x a k t) db e h = settle_failed db e u r x a k t h
act_failed sha256 (Call.refund u r a) db e h = refund_failed db e u r a h
act_failed sha256 (Call.topup n u a o p m) db e h = topup_failed db e n u a o p m (opened db) h
act_failed sha256 (Call.admin_adjust u a p m) db e h = (admin_adjust_fails u a p m db).1
act_failed sha256 (Call.create_manual n u a o p m) db e h = create_manual_failed db e n u a o p m h
act_failed sha256 (Call.redeem_code n u c t) db e h = redeem_failed db e sha256 n u c t h
act_failed sha256 (Call.disable c) db e h = disable_failed db e c h
