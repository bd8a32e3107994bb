-- ===== src/Wallet/Ledger/Post.antt =====
-- One booking keeps users and ledger in agreement.
use eucal_ai_backend.Prelude.{
  ℕ, String, ◌≡◌, sym, ◌∙◌, inl, inr, false, some, List, [], ◌∷◌, ◌==◌, All, arith, Bool-cases,
  ==_iff,
}
use eucal_ai_backend.Prelude.Int.{ℤ, pos, ◌+ℤ◌, ◌≤ℤ◌, int_laws}
use eucal_ai_backend.Prelude.Keyed.{Table, find, put, nat_eq, find-put, find-put_self}
use eucal_ai_backend.Wallet.Models.{
  User, BalanceTransaction, consume, unfreeze, type_code, VoucherRedemptionCode, voucher_redeem,
  api_call,
}
use eucal_ai_backend.Wallet.Session.{has_ref}
use eucal_ai_backend.Wallet.Ledger.{
  booked, Chained, IsEntry, IsBooked, Paired, IsVouched, IsConsistent,
}

-- The chain gives the balance as a sum.
pub Chained-booked :
    (opening : ℕ → ℤ) (id : ℕ) (txs : List BalanceTransaction) (b : ℤ)
    → All IsEntry txs
    → Chained opening id txs b
    → b ≡ opening id +ℤ booked id txs
unfolding booked
Chained-booked opening id [] b es h = rw h (omega int_laws)
Chained-booked opening id (t ∷ ts) b es h = elim (Bool-cases (t.user_id == id)) [
  | inl same ↦ grind (int_laws, Chained-booked opening id ts t.balance_before es.1)
  | inr other ↦ ground (arith, Chained-booked opening id ts b es.1)
]

module _ {opening : ℕ → ℤ} {users : Table ℕ User} {txs : List BalanceTransaction} where
  pub post-IsBooked :
      (id : ℕ) (u u' : User) (t : BalanceTransaction)
      → IsBooked opening users txs
      → find id users ≡ some u
      → t.user_id ≡ id
      → t.balance_before ≡ u.balance
      → t.balance_after ≡ u'.balance
      → u'.balance ≡ u.balance +ℤ t.amount
      → pos 0 ≤ℤ u'.balance
      → pos 0 ≤ℤ u'.frozen_amount
      → has_ref t.type t.ref txs ≡ false
      → IsBooked opening (put id u' users) (t ∷ txs)
  post-IsBooked id u u' t h found own before after moved rich frozen fresh = record {
    history = λ j. elim (Bool-cases (id == j)) [
      | inl same ↦ ground (arith, find-put id j u' users, h.history j, ==_iff id j)
      | inr other ↦ ground (arith, find-put id j u' users, h.history j)
    ];
    solvent = λ j v e. ground (arith, find-put id j u' users, h.solvent j v);
    entries = ((ground arith, ground arith), h.entries);
    unique = (fresh, h.unique);
  }

-- A booking of another kind than a release keeps releases paired with charges.
pub post-Paired :
    (t : BalanceTransaction) (txs : List BalanceTransaction)
    → Paired txs
    → (type_code t.type == type_code unfreeze) ≡ false
    → Paired (t ∷ txs)
unfolding has_ref
post-Paired t txs h other r e = ground (arith, h r)

-- A release and the charge with the same reference keep them paired.
pub settle-Paired :
    (t c : BalanceTransaction) (txs : List BalanceTransaction)
    → Paired txs
    → c.type ≡ consume
    → c.ref ≡ t.ref
    → Paired (c ∷ t ∷ txs)
unfolding has_ref
settle-Paired t c txs h kind same r e = ground (arith, h r)

-- Booking anything but a voucher leaves the vouchers accounted for.
pub post-IsVouched :
    (t : BalanceTransaction) (vouchers : Table String VoucherRedemptionCode)
    (txs : List BalanceTransaction)
    → IsVouched vouchers txs
    → (type_code t.type == type_code voucher_redeem) ≡ false
    → IsVouched vouchers (t ∷ txs)
unfolding has_ref
post-IsVouched t vouchers txs h other = record {
  spent = λ c v found used. ground (arith, h.spent c v found);
  distinct = h.distinct;
  keyed = h.keyed;
  worth = h.worth;
}

-- One booking that is no release and no voucher.
pub post-IsConsistent :
    {opening : ℕ → ℤ} {users : Table ℕ User} {vouchers : Table String VoucherRedemptionCode}
    (txs : List BalanceTransaction) (id : ℕ) (u u' : User) (t : BalanceTransaction)
    → IsConsistent opening users vouchers txs
    → find id users ≡ some u
    → t.user_id ≡ id
    → t.balance_before ≡ u.balance
    → t.balance_after ≡ u'.balance
    → u'.balance ≡ u.balance +ℤ t.amount
    → pos 0 ≤ℤ u'.balance
    → pos 0 ≤ℤ u'.frozen_amount
    → has_ref t.type t.ref txs ≡ false
    → (type_code t.type == type_code unfreeze) ≡ false
    → (type_code t.type == type_code voucher_redeem) ≡ false
    → IsConsistent opening (put id u' users) vouchers (t ∷ txs)
post-IsConsistent {vouchers = vouchers} txs id u u' t h found own before after moved rich frozen
      fresh other other' =
    record {
      ledger = post-IsBooked id u u' t h.ledger found own before after moved rich frozen fresh;
      paired = post-Paired t txs h.paired other;
      vouched = post-IsVouched t vouchers txs h.vouched other';
    }

-- A release, then the charge with the same reference.
pub settle-IsConsistent :
    {opening : ℕ → ℤ} {users : Table ℕ User} {vouchers : Table String VoucherRedemptionCode}
    (txs : List BalanceTransaction) (id : ℕ) (u v w : User) (t c : BalanceTransaction) (r : String)
    → IsConsistent opening users vouchers txs
    → find id users ≡ some u
    → (t.user_id ≡ id) × (c.user_id ≡ id)
    → (t.type ≡ unfreeze) × (c.type ≡ consume) × (t.ref ≡ api_call r) × (c.ref ≡ api_call r)
    → (t.balance_before ≡ u.balance) × (t.balance_after ≡ v.balance)
    → (c.balance_before ≡ v.balance) × (c.balance_after ≡ w.balance)
    → (v.balance ≡ u.balance +ℤ t.amount) × (w.balance ≡ v.balance +ℤ c.amount)
    → (pos 0 ≤ℤ v.balance) × (pos 0 ≤ℤ v.frozen_amount)
    → (pos 0 ≤ℤ w.balance) × (pos 0 ≤ℤ w.frozen_amount)
    → has_ref consume (api_call r) txs ≡ false
    → IsConsistent opening (put id w (put id v users)) vouchers (c ∷ t ∷ txs)
unfolding has_ref
settle-IsConsistent {users = users} {vouchers = vouchers} txs id u v w t c r h found own kind edge
      edge' moved rich rich' fresh =
    let released =
      post-IsBooked id u v t h.ledger found own.0 edge.0 edge.1 moved.0 rich.0 rich.1
        (ground (arith, h.paired r fresh)) in
    record {
      ledger =
          post-IsBooked id v w c released (find-put_self id v users) own.1 edge'.0 edge'.1 moved.1
            rich'.0 rich'.1 (ground arith);
      paired = settle-Paired t c txs h.paired kind.1 (kind.3 ∙ sym kind.2);
      vouched =
          post-IsVouched c vouchers (t ∷ txs)
            (post-IsVouched t vouchers txs h.vouched (ground arith)) (ground arith);
    }
