-- ===== src/Wallet/Balance/Atomic.antt =====
-- Every call of the balance service leaves the committed tables sound, however it ends.
use eucal_ai_backend.Prelude.{
  ℕ, String, ◌≡◌, false, refl, ◌⊎◌, inl, inr, Option, none, some, arith, Option-cases, Bool-cases,
  ◌∷◌,
}
use eucal_ai_backend.Prelude.Int.{ℤ, ◌+ℤ◌, ◌-ℤ◌, ltb_ℤ}
use eucal_ai_backend.Prelude.Keyed.{find, put, nat_eq}
use eucal_ai_backend.Wallet.Models.{
  User, UserApiKey, BalanceTransaction, Db, TxType, api_call, topup_order,
}
use eucal_ai_backend.Wallet.Session.{
  or_none, Session, Error, ok, err, Result-cases, opened, in_session, booking, has_ref,
}
use eucal_ai_backend.Wallet.Ledger.{IsSound}
use eucal_ai_backend.Wallet.Ledger.Amounts.{positive, sub-nonneg, add-nonneg, sub-eq-add_negate}
use eucal_ai_backend.Wallet.Ledger.Post.{post-IsConsistent}
use eucal_ai_backend.Wallet.Balance.{
  checked_key, charge_key, consume_for_call_log, bill_call, freeze, refund, topup, admin_adjust,
  negate, charged,
}

-- Looking up a key and its quota changes nothing.
pub session-checked_key :
    (k : Option ℕ) (user_id : ℕ) (amount : ℤ) (s : Session) → (checked_key k user_id amount s).1 ≡ s
unfolding checked_key
session-checked_key none user_id amount s = refl
session-checked_key (some k) user_id amount s = ground arith

-- It raises, or finds what there is to charge.
pub checked_key-cases :
    (k : Option ℕ) (user_id : ℕ) (amount : ℤ) (s : Session)
    → ((e : Error) × (checked_key k user_id amount s ≡ (err e, s)))
      ⊎ ((found : Option UserApiKey) × (checked_key k user_id amount s ≡ (ok found, s)))
checked_key-cases k user_id amount s = elim (Result-cases (checked_key k user_id amount s).0) [
  | inl (e, raised) ↦ inl (e, ground (arith, session-checked_key k user_id amount s))
  | inr (found, returned) ↦ inr (found, ground (arith, session-checked_key k user_id amount s))
]

pub freeze-IsSound :
    (opening : ℕ → ℤ) (user_id : ℕ) (amount : ℤ) (request_id : String) (key : Option ℕ) (db : Db)
    → IsSound opening db
    → IsSound opening (in_session (freeze user_id amount request_id key) db).1
unfolding freeze
freeze-IsSound opening user_id amount request_id key db h =
    elim (Option-cases (find user_id db.users)) [
      | inl missing ↦ ground arith
      | inr (u, found) ↦ ground (
        arith,
        positive amount,
        sub-nonneg u.balance amount,
        add-nonneg u.frozen_amount amount,
        sub-eq-add_negate u.balance amount,
        session-checked_key key user_id amount (opened db),
        h.ledger.solvent user_id u found,
        post-IsConsistent {opening = opening} {users = db.users} db.transactions user_id u
            (record u { balance = u.balance -ℤ amount; frozen_amount = u.frozen_amount +ℤ amount })
            (booking user_id TxType.freeze (negate amount) u.balance (u.balance -ℤ amount)
              (api_call request_id) none none)
            h found,
      )
    ]

pub refund-IsSound :
    (opening : ℕ → ℤ) (user_id : ℕ) (request_id : String) (amount : ℤ) (db : Db)
    → IsSound opening db
    → IsSound opening (in_session (refund user_id request_id amount) db).1
unfolding refund
refund-IsSound opening user_id request_id amount db h =
    elim (Option-cases (find user_id db.users)) [
      | inl missing ↦ ground arith
      | inr (u, found) ↦ ground (
        arith,
        positive amount,
        sub-nonneg u.frozen_amount amount,
        add-nonneg u.balance amount,
        h.ledger.solvent user_id u found,
        post-IsConsistent {opening = opening} {users = db.users} db.transactions user_id u
            (record u { frozen_amount = u.frozen_amount -ℤ amount; balance = u.balance +ℤ amount })
            (booking user_id TxType.refund amount u.balance (u.balance +ℤ amount)
              (api_call request_id) none none)
            h found,
      )
    ]

-- `topup` within a session that has already changed something.
pub topup_session-IsSound :
    (opening : ℕ → ℤ) (now user_id : ℕ) (amount : ℤ) (order_no : String)
    (operator remark : Option String) (s : Session)
    → IsSound opening s.committed
    → IsSound opening s.working
    → IsSound opening (topup now user_id amount order_no operator remark s).1.committed
unfolding topup
topup_session-IsSound opening now user_id amount order_no operator remark s k h =
    elim (Option-cases (find user_id s.working.users)) [
      | inl missing ↦ ground arith
      | inr (u, found) ↦ ground (
        arith,
        positive amount,
        add-nonneg u.balance amount,
        h.ledger.solvent user_id u found,
        post-IsConsistent {opening = opening} {users = s.working.users} s.working.transactions
            user_id u (record u { balance = u.balance +ℤ amount })
            (booking user_id TxType.topup amount u.balance (u.balance +ℤ amount)
              (topup_order order_no) operator (or_none remark))
            h found,
      )
    ]

-- An adjustment raises, whatever it is asked for: nothing reaches the tables.
pub admin_adjust-IsSound :
    (opening : ℕ → ℤ) (user_id : ℕ) (amount : ℤ) (operator remark : Option String) (db : Db)
    → IsSound opening db
    → IsSound opening (in_session (admin_adjust user_id amount operator remark) db).1
unfolding admin_adjust
admin_adjust-IsSound opening user_id amount operator remark db h =
    elim (Option-cases (find user_id db.users)) [
      | inl missing ↦ ground arith
      | inr (u, found) ↦ ground arith
    ]

-- Charging a key touches neither the users nor the ledger.
pub charge_key_frame :
    (k : Option ℕ) (user_id : ℕ) (cost : ℤ) (s : Session)
    → let (r, s') = charge_key k user_id cost s in
      (r ≡ ok tt)
      × (s'.working.users ≡ s.working.users)
      × (s'.working.transactions ≡ s.working.transactions)
      × (s'.working.vouchers ≡ s.working.vouchers)
unfolding charge_key
charge_key_frame none user_id cost s = (refl, refl, refl, refl)
charge_key_frame (some k) user_id cost s = ground arith

module _ (user_id : ℕ) (request_id : String) (cost tokens : ℤ) (u : User) where
  abbrev pub charge_tx : BalanceTransaction
  charge_tx =
      booking user_id TxType.consume (negate cost) u.balance (u.balance -ℤ cost)
        (api_call request_id) none none

  -- the tables with the call charged, before its key is
  abbrev pub with_charge : Db → Db
  with_charge db = record db {
    users = put user_id (charged u cost tokens) db.users;
    transactions = charge_tx ∷ db.transactions;
  }

  pub with_charge-IsSound :
      (opening : ℕ → ℤ) (db : Db)
      → IsSound opening db
      → find user_id db.users ≡ some u
      → ltb_ℤ u.balance cost ≡ false
      → has_ref TxType.consume (api_call request_id) db.transactions ≡ false
      → IsSound opening (with_charge db)
  with_charge-IsSound opening db h found rich fresh =
      post-IsConsistent {opening = opening} {users = db.users} db.transactions user_id u
        (charged u cost tokens) charge_tx h found refl refl refl (sub-eq-add_negate u.balance cost)
        (sub-nonneg u.balance cost rich) (h.ledger.solvent user_id u found).1 fresh refl refl

-- Whatever it returns, the session's tables are sound.
pub consume-IsSound :
    (opening : ℕ → ℤ) (user_id : ℕ) (request_id : String) (cost tokens : ℤ) (key : Option ℕ)
    (db : Db)
    → IsSound opening db
    → IsSound opening
        (consume_for_call_log user_id request_id cost tokens key (opened db)).1.working
unfolding consume_for_call_log
consume-IsSound opening user_id request_id cost tokens key db h =
    elim (Bool-cases (has_ref TxType.consume (api_call request_id) db.transactions)) [
      | inl seen ↦ ground arith
      | inr fresh ↦ elim (Option-cases (find user_id db.users)) [
        | inl missing ↦ ground arith
        | inr (u, found) ↦ elim (Bool-cases (ltb_ℤ u.balance cost)) [
          | inl short ↦ ground arith
          | inr rich ↦
              let sound =
                with_charge-IsSound user_id request_id cost tokens u opening db h found rich
                  fresh in
              ground (
                arith,
                sound,
                charge_key_frame key user_id cost (record {
                  committed = db;
                  working = with_charge user_id request_id cost tokens u db;
                }),
              )
        ]
      ]
    ]

pub committed-consume :
    (user_id : ℕ) (request_id : String) (cost tokens : ℤ) (key : Option ℕ) (s : Session)
    → (consume_for_call_log user_id request_id cost tokens key s).1.committed ≡ s.committed
unfolding consume_for_call_log
committed-consume user_id request_id cost tokens none s = ground arith
committed-consume user_id request_id cost tokens (some k) s = ground arith

pub bill_call-IsSound :
    (opening : ℕ → ℤ) (user_id : ℕ) (request_id : String) (final_status : Option ℕ)
    (cost tokens : ℤ) (key : Option ℕ) (db : Db)
    → IsSound opening db
    → IsSound opening (in_session (bill_call user_id request_id final_status cost tokens key) db).1
unfolding bill_call
bill_call-IsSound opening user_id request_id final_status cost tokens key db h = ground (
  arith,
  consume-IsSound opening user_id request_id cost tokens key db h,
  committed-consume user_id request_id cost tokens key (opened db),
)
