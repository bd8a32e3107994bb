-- ===== src/Wallet/Balance/Settle.antt =====
-- `settle` leaves the committed tables sound, however it ends.
use eucal_ai_backend.Prelude.{
  ℕ, String, ◌≡◌, refl, inl, inr, false, true, Option, none, some, arith, Option-cases, Bool-cases,
  ◌∷◌,
}
use eucal_ai_backend.Prelude.Int.{ℤ, pos, ◌+ℤ◌, ◌-ℤ◌, min_ℤ, ltb_ℤ}
use eucal_ai_backend.Prelude.Keyed.{find, put, nat_eq}
use eucal_ai_backend.Wallet.Models.{
  User, UserApiKey, BalanceTransaction, Db, TxType, consume, api_call,
}
use eucal_ai_backend.Wallet.Session.{Session, ok, opened, in_session, booking, has_ref}
use eucal_ai_backend.Wallet.Ledger.{IsSound}
use eucal_ai_backend.Wallet.Ledger.Amounts.{
  sub-nonneg, add-nonneg, sub-eq-add_negate, min-le_left, sub-nonneg_of_le,
}
use eucal_ai_backend.Wallet.Ledger.Post.{settle-IsConsistent}
use eucal_ai_backend.Wallet.Balance.{
  settle_key, release, charge_actual, settle, charged, release_and_charge,
}
use eucal_ai_backend.Wallet.Balance.Atomic.{
  checked_key-cases, charge_tx, with_charge, with_charge-IsSound,
}

pub settle_key_frame :
    (key : Option ℕ) (k : Option UserApiKey) (amount : ℤ) (s : Session)
    → let (r, s') = settle_key key k amount s in
      (r ≡ ok tt)
      × (s'.working.users ≡ s.working.users)
      × (s'.working.transactions ≡ s.working.transactions)
      × (s'.working.vouchers ≡ s.working.vouchers)
unfolding settle_key
settle_key_frame none k amount s = (refl, refl, refl, refl)
settle_key_frame (some key) none amount s = (refl, refl, refl, refl)
settle_key_frame (some key) (some k) amount s = (refl, refl, refl, refl)

module _ (user_id : ℕ) (request_id : String) (estimated : ℤ) (u : User) where
  abbrev pub part : ℤ
  part = min_ℤ u.frozen_amount estimated

  abbrev pub released : User
  released = record u { frozen_amount = u.frozen_amount -ℤ part; balance = u.balance +ℤ part }

  abbrev pub release_tx : BalanceTransaction
  release_tx =
      booking user_id TxType.unfreeze part u.balance (u.balance +ℤ part) (api_call request_id) none
        none

  -- the session once the money is released
  abbrev pub after_release : Session → Session
  after_release s = record s {
    working = record (s.working) {
      users = put user_id released s.working.users;
      transactions = release_tx ∷ s.working.transactions;
    };
  }

  pub release-none :
      (s : Session) → ltb_ℤ (pos 0) part ≡ false → release user_id u part request_id s ≡ (ok u, s)
  unfolding release
  release-none s h = rw h

  pub release-some :
      (s : Session)
      → ltb_ℤ (pos 0) part ≡ true
      → release user_id u part request_id s ≡ (ok released, after_release s)
  unfolding release
  release-some s h = rw h

module _ (opening : ℕ → ℤ) (user_id : ℕ) (request_id : String) (estimated actual tokens : ℤ)
    (db : Db) (u : User) where
  abbrev freed : User
  freed = released user_id request_id estimated u

  -- the tables with the money released and the call charged, before its key is
  abbrev released_charged : Db
  released_charged = record db {
    users = put user_id (charged freed actual tokens) (put user_id freed db.users);
    transactions =
        charge_tx user_id request_id actual tokens freed
        ∷ release_tx user_id request_id estimated u
        ∷ db.transactions;
  }

  released_charged-IsSound :
      IsSound opening db
      → find user_id db.users ≡ some u
      → ltb_ℤ (pos 0) (min_ℤ u.frozen_amount estimated) ≡ true
      → ltb_ℤ freed.balance actual ≡ false
      → has_ref consume (api_call request_id) db.transactions ≡ false
      → IsSound opening released_charged
  released_charged-IsSound h found some_part rich fresh =
      let estimate = min_ℤ u.frozen_amount estimated in
      let frozen =
        sub-nonneg_of_le u.frozen_amount estimate (min-le_left u.frozen_amount estimated) in
      settle-IsConsistent {opening = opening} {users = db.users} db.transactions user_id u freed
        (charged freed actual tokens) (release_tx user_id request_id estimated u)
        (charge_tx user_id request_id actual tokens freed) request_id h found (refl, refl)
        (refl, refl, refl, refl) (refl, refl) (refl, refl)
        (refl, sub-eq-add_negate freed.balance actual)
        (add-nonneg u.balance estimate (h.ledger.solvent user_id u found).0 (ground arith), frozen)
        (sub-nonneg freed.balance actual rich, frozen) fresh

module _ (opening : ℕ → ℤ) (user_id : ℕ) (request_id : String) (estimated actual : ℤ)
    (key : Option ℕ) (tokens : ℤ) (db : Db) where
  charge_actual-IsSound :
      (v : User) (k : Option UserApiKey) (s : Session)
      → IsSound opening s.committed
      → (ltb_ℤ v.balance actual ≡ false
          → IsSound opening (with_charge user_id request_id actual tokens v s.working))
      → IsSound opening (charge_actual user_id v request_id actual key k tokens s).1.committed
  unfolding charge_actual
  charge_actual-IsSound v k s h sound = elim (Bool-cases (ltb_ℤ v.balance actual)) [
    | inl short ↦ ground arith
    | inr rich ↦
        let charged_sound = sound rich in
        ground (
          arith,
          settle_key_frame key k actual (record {
            committed = s.committed;
            working = with_charge user_id request_id actual tokens v s.working;
          }),
        )
  ]

  release_and_charge-IsSound :
      (u : User) (k : Option UserApiKey)
      → IsSound opening db
      → find user_id db.users ≡ some u
      → has_ref consume (api_call request_id) db.transactions ≡ false
      → IsSound opening
          (release_and_charge user_id u request_id estimated actual key k tokens
            (opened db)).1.committed
  unfolding release_and_charge
  release_and_charge-IsSound u k h found fresh =
      let estimate = min_ℤ u.frozen_amount estimated in
      elim (Bool-cases (ltb_ℤ (pos 0) estimate)) [
        | inr nothing ↦
            let sound = charge_actual-IsSound u k (opened db) h (λ rich.
              with_charge-IsSound user_id request_id actual tokens u opening db h found rich
                fresh) in
            ground (arith, sound, release-none user_id request_id estimated u (opened db) nothing)
        | inl some_part ↦
            let v : User = released user_id request_id estimated u in
            let sound =
              charge_actual-IsSound v k (after_release user_id request_id estimated u (opened db)) h
                (λ rich.
                  released_charged-IsSound opening user_id request_id estimated actual tokens db u h
                    found some_part rich fresh) in
            ground (arith, sound, release-some user_id request_id estimated u (opened db) some_part)
      ]

  pub settle-IsSound :
      IsSound opening db
      → IsSound opening (in_session (settle user_id request_id estimated actual key tokens) db).1
  unfolding settle
  settle-IsSound h = elim (Option-cases (find user_id db.users)) [
    | inl missing ↦ ground arith
    | inr (u, found) ↦ elim (Bool-cases (has_ref consume (api_call request_id) db.transactions)) [
      | inl seen ↦ ground arith
      | inr fresh ↦ elim (checked_key-cases key user_id actual (opened db)) [
        | inl (e, raised) ↦ ground arith
        | inr (k, returned) ↦ ground (arith, release_and_charge-IsSound u k h found fresh)
      ]
    ]
  ]
