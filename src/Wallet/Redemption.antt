-- ===== src/Wallet/Redemption.antt =====
-- A voucher code is worth its amount once.
use eucal_ai_backend.Prelude.{ℕ, String, ◌≡◌, ap, inl, inr, Option, some, List, arith, Option-cases}
use eucal_ai_backend.Prelude.Keyed.{find, nat_eq, string_eq, find-put_self}
use eucal_ai_backend.Wallet.Models.{VoucherRedemptionCode, Db, voucher_redeemed}
use eucal_ai_backend.Wallet.Session.{ok, err, validation, voucher_unavailable, in_session}
use eucal_ai_backend.Wallet.Vouchers.{redeem_code, hash_code, or_now, normalize_code}

module _ (sha256 : List ℕ → String) where
  redeemed-at :
      (now user_id : ℕ) (code : List ℕ) (at : Option ℕ) (db : Db)
      → let (r, db') = in_session (redeem_code sha256 now user_id code at) db in
        r ≡ ok tt
        → (v : VoucherRedemptionCode) × (find (hash_code sha256 code) db'.vouchers ≡ some v)
          × (v.status ≡ voucher_redeemed)
  unfolding redeem_code
  redeemed-at now user_id code at db done =
      elim (Option-cases (find (hash_code sha256 code) db.vouchers)) [
        | inl missing ↦ ground arith
        | inr (v, found) ↦
            let v' = record v {
              status = voucher_redeemed;
              redeemed_user_id = some user_id;
              redeemed_at = some (or_now at now);
            } in
            (v', ground (arith, find-put_self (hash_code sha256 code) v' db.vouchers), ground arith)
      ]

  spent_code :
      (db : Db) (now user_id : ℕ) (code code' : List ℕ) (at : Option ℕ)
      → ((v : VoucherRedemptionCode) × (find (hash_code sha256 code) db.vouchers ≡ some v)
          × (v.status ≡ voucher_redeemed))
      → normalize_code code' ≡ normalize_code code
      → in_session (redeem_code sha256 now user_id code' at) db
        ≡ (err (validation voucher_unavailable), db)
  unfolding redeem_code
  spent_code db now user_id code code' at (v, found, spent) same =
      ground (arith, ap (λ c. find (sha256 c) db.vouchers) same)

  -- Once a redemption has succeeded, the code is spent: redeeming it again, in any spelling with
  -- the same normalized form, by any user and at any time, raises and changes nothing.
  pub redeem_once :
      (now now' user_id user_id' : ℕ) (code code' : List ℕ) (at at' : Option ℕ) (db : Db)
      → (in_session (redeem_code sha256 now user_id code at) db).0 ≡ ok tt
      → normalize_code code' ≡ normalize_code code
      → let db' = (in_session (redeem_code sha256 now user_id code at) db).1 in
        in_session (redeem_code sha256 now' user_id' code' at') db'
        ≡ (err (validation voucher_unavailable), db')
  redeem_once now now' user_id user_id' code code' at at' db done same =
      spent_code (in_session (redeem_code sha256 now user_id code at) db).1 now' user_id' code code'
        at' (redeemed-at now user_id code at db done) same
