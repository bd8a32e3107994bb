-- ===== src/Wallet/Vouchers/Redeem.antt =====
-- Redeeming and disabling voucher codes leaves the committed tables sound.
use eucal_ai_backend.Prelude.{
  ℕ, String, ◌≡◌, refl, inl, inr, false, Option, some, List, [], ◌∷◌, arith, Option-cases,
  Bool-cases, ◌==◌,
}
use eucal_ai_backend.Prelude.Int.{ℤ, ◌+ℤ◌}
use eucal_ai_backend.Prelude.Keyed.{
  Table, find, put, nat_eq, string_eq, find-put, put-IsKeyed, IsKeyed,
}
use eucal_ai_backend.Wallet.Models.{
  User, VoucherRedemptionCode, voucher_redeem, voucher_active, voucher_redeemed, voucher_disabled,
  voucher_code, ref_eq, BalanceTransaction, Db,
}
use eucal_ai_backend.Wallet.Session.{has_ref, booking, in_session}
use eucal_ai_backend.Wallet.Ledger.{IsVouched, IsConsistent, IsSound}
use eucal_ai_backend.Wallet.Ledger.Amounts.{add-nonneg}
use eucal_ai_backend.Wallet.Ledger.Post.{post-IsBooked, post-Paired}
use eucal_ai_backend.Wallet.Vouchers.{find_id, disable, hash_code, redeem_code, or_now}

abbrev redeemed : VoucherRedemptionCode → ℕ → ℕ → VoucherRedemptionCode
redeemed v user_id at = record v {
  status = voucher_redeemed;
  redeemed_user_id = some user_id;
  redeemed_at = some at;
}

-- Marking a voucher as redeemed accounts for its booking.
redeem-IsVouched :
    (h : String) (v v' : VoucherRedemptionCode) (t : BalanceTransaction)
    (vouchers : Table String VoucherRedemptionCode) (txs : List BalanceTransaction)
    → IsVouched vouchers txs
    → find h vouchers ≡ some v
    → v'.id ≡ v.id
    → v'.amount ≡ v.amount
    → v'.status ≡ voucher_redeemed
    → t.type ≡ voucher_redeem
    → t.ref ≡ voucher_code v.id
    → IsVouched (put h v' vouchers) (t ∷ txs)
unfolding has_ref ref_eq
redeem-IsVouched h v v' t vouchers txs ok found id amount status type ref = record {
  spent = λ k w e used. ground (
    arith,
    find-put h k v' vouchers,
    string_eq.beq_iff h k,
    ok.spent k w,
    ok.distinct h k v w found,
  );
  distinct = λ j k w x e f same. ground (
    arith,
    find-put h j v' vouchers,
    find-put h k v' vouchers,
    string_eq.beq_iff h j,
    string_eq.beq_iff h k,
    ok.distinct h k v x found,
    ok.distinct j h w v,
    ok.distinct j k w x,
  );
  keyed = put-IsKeyed h v' vouchers ok.keyed;
  worth = λ k w e. ground (arith, find-put h k v' vouchers, ok.worth k w, ok.worth h v found);
}

-- the tables after a redemption
paid-IsConsistent :
    (opening : ℕ → ℤ) (db : Db)
    → IsSound opening db
    → (user_id at : ℕ) (k : String) (v : VoucherRedemptionCode) (u : User)
    → find k db.vouchers ≡ some v
    → v.status ≡ voucher_active
    → find user_id db.users ≡ some u
    → IsConsistent opening
        (put user_id (record u { balance = u.balance +ℤ v.amount }) db.users)
        (put k (redeemed v user_id at) db.vouchers)
        (booking user_id voucher_redeem v.amount u.balance
            (u.balance +ℤ v.amount)
            (voucher_code v.id)
            v.created_by_admin_uid
            v.remark
          ∷ db.transactions)
paid-IsConsistent opening db h user_id at k v u found active there =
    let t : BalanceTransaction =
      booking user_id voucher_redeem v.amount u.balance (u.balance +ℤ v.amount) (voucher_code v.id)
        v.created_by_admin_uid v.remark in
    let solvent = h.ledger.solvent user_id u there in
    record {
      ledger =
          post-IsBooked user_id u (record u { balance = u.balance +ℤ v.amount }) t h.ledger there
            refl refl refl refl
            (add-nonneg u.balance v.amount solvent.0 (h.vouched.worth k v found)) solvent.1
            (ground (arith, h.vouched.spent k v found));
      paired = post-Paired t db.transactions h.paired refl;
      vouched =
          redeem-IsVouched k v (redeemed v user_id at) t db.vouchers db.transactions h.vouched found
            refl refl refl refl refl;
    }

-- A voucher code pays out once: redeeming leaves the committed tables sound.
pub redeem_code-IsSound :
    (sha256 : List ℕ → String) (opening : ℕ → ℤ) (now user_id : ℕ) (raw_code : List ℕ)
    (at : Option ℕ) (db : Db)
    → IsSound opening db
    → IsSound opening (in_session (redeem_code sha256 now user_id raw_code at) db).1
unfolding redeem_code
redeem_code-IsSound sha256 opening now user_id raw_code at db h =
    let k : String = hash_code sha256 raw_code in
    elim (Option-cases (find k db.vouchers)) [
      | inl missing ↦ ground arith
      | inr (v, found) ↦ elim (Bool-cases (v.status == voucher_active)) [
        | inr used ↦ ground arith
        | inl active ↦ elim (Option-cases (find user_id db.users)) [
          | inl missing ↦ ground arith
          | inr (u, there) ↦ ground (
            arith,
            paid-IsConsistent opening db h user_id (or_now at now) k v u found (ground arith) there,
          )
        ]
      ]
    ]

find_id-find :
    (id : ℕ) (t : Table String VoucherRedemptionCode) (h : String) (v : VoucherRedemptionCode)
    → IsKeyed t
    → find_id id t ≡ some (h, v)
    → find h t ≡ some v
unfolding find_id find
find_id-find id [] h v keyed e = cc
find_id-find id ((k, w) ∷ t) h v keyed e =
    ground (arith, find_id-find id t h v keyed.1, string_eq.beq_iff k h)

disable-IsVouched :
    (h : String) (v : VoucherRedemptionCode) (vouchers : Table String VoucherRedemptionCode)
    (txs : List BalanceTransaction)
    → IsVouched vouchers txs
    → find h vouchers ≡ some v
    → (v.status == voucher_redeemed) ≡ false
    → IsVouched (put h (record v { status = voucher_disabled }) vouchers) txs
disable-IsVouched h v vouchers txs ok found unused =
    let v' : VoucherRedemptionCode = record v { status = voucher_disabled } in
    record {
      spent = λ k w e used. ground (
        arith,
        find-put h k v' vouchers,
        string_eq.beq_iff h k,
        ok.spent k w,
        ok.spent h v found,
      );
      distinct = λ j k w x e f same. ground (
        arith,
        find-put h j v' vouchers,
        find-put h k v' vouchers,
        string_eq.beq_iff h j,
        string_eq.beq_iff h k,
        ok.distinct h k v x found,
        ok.distinct j h w v,
        ok.distinct j k w x,
      );
      keyed = put-IsKeyed h v' vouchers ok.keyed;
      worth = λ k w e. ground (arith, find-put h k v' vouchers, ok.worth k w, ok.worth h v found);
    }

pub disable-IsSound :
    (opening : ℕ → ℤ) (code_id : ℕ) (db : Db)
    → IsSound opening db
    → IsSound opening (in_session (disable code_id) db).1
unfolding disable
disable-IsSound opening code_id db h = elim (Option-cases (find_id code_id db.vouchers)) [
  | inl missing ↦ ground arith
  | inr ((k, v), found) ↦ elim (Bool-cases (v.status == voucher_redeemed)) [
    | inl used ↦ ground arith
    | inr unused ↦
        let vouched =
          disable-IsVouched k v db.vouchers db.transactions h.vouched
            (find_id-find code_id db.vouchers k v h.vouched.keyed found) unused in
        let sound : IsConsistent opening db.users
            (put k (record v { status = voucher_disabled }) db.vouchers) db.transactions =
          record { ledger = h.ledger; paired = h.paired; vouched = vouched } in
        ground arith
  ]
]
