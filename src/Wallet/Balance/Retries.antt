-- ===== src/Wallet/Balance/Retries.antt =====
-- The balance service is called again with the same reference when a request is retried.
use eucal_ai_backend.Prelude.{
  ℕ, String, ◌≡◌, ◌≢◌, inl, inr, true, false, Option, none, arith, Option-cases, Bool-cases, ◌⊎◌,
  ap, sym, ◌∙◌, ◌&&◌,
}
use eucal_ai_backend.Prelude.Int.{ℤ, pos, ◌+ℤ◌, ◌-ℤ◌, ◌≤ℤ◌, leb_ℤ, ltb_ℤ}
use eucal_ai_backend.Prelude.Keyed.{find, nat_eq, string_eq, find-put_self}
use eucal_ai_backend.Wallet.Models.{Db, TxType, api_call, ref_eq, Ref}
use eucal_ai_backend.Wallet.Session.{ok, Session, Result, opened, in_session, has_ref}
use eucal_ai_backend.Wallet.Balance.{freeze, refund, consume_for_call_log, bill_call, is_success}
use eucal_ai_backend.Wallet.Balance.Atomic.{
  session-checked_key, charge_key_frame, with_charge, committed-consume,
}

ref_eq_self : (r : Ref) → ref_eq r r ≡ true
unfolding ref_eq
ref_eq_self (api_call s) = ground (arith, string_eq.beq_iff s s)
ref_eq_self (Ref.topup_order s) = ground (arith, string_eq.beq_iff s s)
ref_eq_self (Ref.voucher_code n) = ground arith

-- The user is there, and the reference is booked.
abbrev IsMarked : ℕ → TxType → Ref → Db → Type 0
IsMarked user_id type r db =
    (find user_id db.users ≢ none) × (has_ref type r db.transactions ≡ true)

module _ (user_id : ℕ) (request_id : String) (amount : ℤ) (db : Db) where
  refund-IsMarked :
      let (r, db') = in_session (refund user_id request_id amount) db in
      r ≡ ok tt → IsMarked user_id TxType.refund (api_call request_id) db'
  unfolding refund has_ref
  refund-IsMarked done = elim (Option-cases (find user_id db.users)) [
    | inl missing ↦ ground arith
    | inr (u, found) ↦ ground (
      arith,
      find-put_self user_id
          (record u { frozen_amount = u.frozen_amount -ℤ amount; balance = u.balance +ℤ amount })
          db.users,
      ref_eq_self (api_call request_id),
    )
  ]

  refund_marked :
      IsMarked user_id TxType.refund (api_call request_id) db
      → leb_ℤ amount (pos 0) ≡ false
      → in_session (refund user_id request_id amount) db ≡ (ok tt, db)
  unfolding refund
  refund_marked marked positive = elim (Option-cases (find user_id db.users)) [
    | inl missing ↦ absurd (marked.0 missing)
    | inr (u, found) ↦ ground (arith, marked.1)
  ]

  freeze-IsMarked :
      (key : Option ℕ)
      → let (r, db') = in_session (freeze user_id amount request_id key) db in
        r ≡ ok tt → IsMarked user_id TxType.freeze (api_call request_id) db'
  unfolding freeze has_ref
  freeze-IsMarked key done = elim (Option-cases (find user_id db.users)) [
    | inl missing ↦ ground arith
    | inr (u, found) ↦ ground (
      arith,
      session-checked_key key user_id amount (opened db),
      find-put_self user_id
          (record u { balance = u.balance -ℤ amount; frozen_amount = u.frozen_amount +ℤ amount })
          db.users,
      ref_eq_self (api_call request_id),
    )
  ]

  freeze_marked :
      (key : Option ℕ)
      → IsMarked user_id TxType.freeze (api_call request_id) db
      → leb_ℤ amount (pos 0) ≡ false
      → in_session (freeze user_id amount request_id key) db ≡ (ok tt, db)
  unfolding freeze
  freeze_marked key marked positive = elim (Option-cases (find user_id db.users)) [
    | inl missing ↦ absurd (marked.0 missing)
    | inr (u, found) ↦ ground (arith, marked.1)
  ]

positive_test : (a : ℤ) → pos 1 ≤ℤ a → leb_ℤ a (pos 0) ≡ false
positive_test a h = ground arith

-- A refund that has succeeded is not paid again: asking once more with the same request id, for
-- any positive amount, succeeds and changes nothing.
pub refund_again :
    (user_id : ℕ) (request_id : String) (amount amount' : ℤ) (db : Db)
    → (in_session (refund user_id request_id amount) db).0 ≡ ok tt
    → pos 1 ≤ℤ amount'
    → let db' = (in_session (refund user_id request_id amount) db).1 in
      in_session (refund user_id request_id amount') db' ≡ (ok tt, db')
refund_again user_id request_id amount amount' db done positive =
    refund_marked user_id request_id amount' _ (refund-IsMarked user_id request_id amount db done)
      (positive_test amount' positive)

-- A freeze that has succeeded is not made again: asking once more with the same request id, for
-- any positive amount and with any key, succeeds and changes nothing.
pub freeze_again :
    (user_id : ℕ) (request_id : String) (amount amount' : ℤ) (key key' : Option ℕ) (db : Db)
    → (in_session (freeze user_id amount request_id key) db).0 ≡ ok tt
    → pos 1 ≤ℤ amount'
    → let db' = (in_session (freeze user_id amount request_id key) db).1 in
      in_session (freeze user_id amount' request_id key') db' ≡ (ok tt, db')
freeze_again user_id request_id amount amount' key key' db done positive =
    freeze_marked user_id request_id amount' _ key'
      (freeze-IsMarked user_id request_id amount db key done) (positive_test amount' positive)

module _ (user_id : ℕ) (request_id : String) (status : Option ℕ) (cost tokens : ℤ)
    (key : Option ℕ) where
  consume_seen :
      (s : Session)
      → has_ref TxType.consume (api_call request_id) s.working.transactions ≡ true
      → consume_for_call_log user_id request_id cost tokens key s ≡ (ok true, s)
  unfolding consume_for_call_log
  consume_seen s seen = ground arith

  -- It returns without a change, or the charge is in the ledger afterwards.
  consume-cases :
      (s : Session)
      → let (r, s') = consume_for_call_log user_id request_id cost tokens key s in
        (s' ≡ s)
        ⊎ ((r ≡ ok true)
            × (has_ref TxType.consume (api_call request_id) s'.working.transactions ≡ true)
            × (s'.committed ≡ s.committed))
  unfolding consume_for_call_log has_ref
  consume-cases s =
      elim (Bool-cases (has_ref TxType.consume (api_call request_id) s.working.transactions)) [
        | inl seen ↦ inl (ground arith)
        | inr fresh ↦ elim (Option-cases (find user_id s.working.users)) [
          | inl missing ↦ inl (ground arith)
          | inr (u, found) ↦ elim (Bool-cases (ltb_ℤ u.balance cost)) [
            | inl short ↦ inl (ground arith)
            | inr rich ↦ elim (Bool-cases (leb_ℤ cost (pos 0))) [
              | inl free ↦ inl (ground arith)
              | inr positive ↦
                  let frame = charge_key_frame key user_id cost (record {
                    committed = s.committed;
                    working = with_charge user_id request_id cost tokens u s.working;
                  }) in
                  let same = ref_eq_self (api_call request_id) in
                  inr (
                    ground arith,
                    ground arith,
                    committed-consume user_id request_id cost tokens key s,
                  )
            ]
          ]
        ]
      ]

  abbrev bill : Db → Result (Unit {0}) × Db
  bill db = in_session (bill_call user_id request_id status cost tokens key) db

  bill_unchanged :
      (db : Db)
      → (ltb_ℤ (pos 0) cost && is_success status ≡ false)
        ⊎ ((consume_for_call_log user_id request_id cost tokens key (opened db)).1 ≡ opened db)
      → (bill db).1 ≡ db
  unfolding bill_call
  bill_unchanged db (inl off) = ground arith
  bill_unchanged db (inr same) = ground arith

  bill_seen :
      (db : Db)
      → has_ref TxType.consume (api_call request_id) db.transactions ≡ true
      → bill db ≡ (ok tt, db)
  unfolding bill_call
  bill_seen db seen = ground (arith, consume_seen (opened db) seen)

  bill_booked :
      (db : Db)
      → ltb_ℤ (pos 0) cost && is_success status ≡ true
      → let (r, s) = consume_for_call_log user_id request_id cost tokens key (opened db) in
        r ≡ ok true → bill db ≡ (ok tt, s.working)
  unfolding bill_call
  bill_booked db on done = ground arith

-- Billing is idempotent: a call that is reported as finished a second time is not charged again,
-- whatever the first report did. The second answers what the first did and changes nothing.
pub bill_call_again :
    (user_id : ℕ) (request_id : String) (status : Option ℕ) (cost tokens : ℤ) (key : Option ℕ)
    (db : Db)
    → let once = in_session (bill_call user_id request_id status cost tokens key) db in
      in_session (bill_call user_id request_id status cost tokens key) once.1 ≡ once
bill_call_again user_id request_id status cost tokens key db =
    let again = in_session (bill_call user_id request_id status cost tokens key) in
    let idle = bill_unchanged user_id request_id status cost tokens key db in
    elim (Bool-cases (ltb_ℤ (pos 0) cost && is_success status)) [
      | inr off ↦ ap again (idle (inl off))
      | inl on ↦ elim (consume-cases user_id request_id status cost tokens key (opened db)) [
        | inl same ↦ ap again (idle (inr same))
        | inr (done, booked, kept) ↦
            let first = bill_booked user_id request_id status cost tokens key db on done in
            ap (λ r. again r.1) first
            ∙ bill_seen user_id request_id status cost tokens key _ booked
            ∙ sym first
      ]
    ]
