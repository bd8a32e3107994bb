-- ===== src/Wallet/Balance/Effects.antt =====
-- What a successful settlement does to its user, and what an adjustment does.
use eucal_ai_backend.Prelude.{
  ℕ, ◌+◌, String, ◌≡◌, ◌≢◌, inl, inr, false, Option, some, arith, Option-cases, Bool-cases,
}
use eucal_ai_backend.Prelude.Int.{ℤ, pos, ◌+ℤ◌, ◌-ℤ◌, ◌≤ℤ◌, min_ℤ, leb_ℤ, ltb_ℤ, int_laws}
use eucal_ai_backend.Prelude.Keyed.{find, nat_eq, find-put_self}
use eucal_ai_backend.Wallet.Models.{Db, User, UserApiKey, api_call, consume}
use eucal_ai_backend.Wallet.Session.{Session, ok, err, value_error, opened, in_session, has_ref}
use eucal_ai_backend.Wallet.Balance.{
  settle, charged, charge_actual, release_and_charge, admin_adjust,
}
use eucal_ai_backend.Wallet.Balance.Atomic.{checked_key-cases, with_charge}
use eucal_ai_backend.Wallet.Balance.Settle.{
  released, after_release, release-none, release-some, settle_key_frame,
}

no_part :
    (frozen estimated : ℤ)
    → pos 0 ≤ℤ frozen
    → leb_ℤ estimated (pos 0) ≡ false
    → ltb_ℤ (pos 0) (min_ℤ frozen estimated) ≡ false
    → min_ℤ frozen estimated ≡ pos 0
unfolding min_ℤ
no_part frozen estimated h k e = ground arith

add_zero : (a b : ℤ) → b ≡ pos 0 → a +ℤ b ≡ a
add_zero a b h = grind int_laws

sub_zero : (a b : ℤ) → b ≡ pos 0 → a -ℤ b ≡ a
sub_zero a b h = grind int_laws

module _ (user_id : ℕ) (request_id : String) (estimated actual : ℤ) (key : Option ℕ)
    (tokens : ℤ) where
  find-charge_actual :
      (v : User) (k : Option UserApiKey) (s : Session)
      → let (r, s') = charge_actual user_id v request_id actual key k tokens s in
        r ≡ ok tt → find user_id s'.committed.users ≡ some (charged v actual tokens)
  unfolding charge_actual
  find-charge_actual v k s done = ground (
    arith,
    settle_key_frame key k actual (record {
      committed = s.committed;
      working = with_charge user_id request_id actual tokens v s.working;
    }),
    find-put_self user_id (charged v actual tokens) s.working.users,
  )

  -- the user of a settled call
  abbrev pub settled : User → User
  settled u =
      let released_part = min_ℤ u.frozen_amount estimated in
      record u {
        balance = u.balance +ℤ released_part -ℤ actual;
        frozen_amount = u.frozen_amount -ℤ released_part;
        used_amount = u.used_amount +ℤ actual;
        total_requests = u.total_requests + 1;
        total_tokens = u.total_tokens +ℤ tokens;
      }

  nothing_released :
      (u : User)
      → pos 0 ≤ℤ u.frozen_amount
      → leb_ℤ estimated (pos 0) ≡ false
      → ltb_ℤ (pos 0) (min_ℤ u.frozen_amount estimated) ≡ false
      → settled u ≡ charged u actual tokens
  nothing_released u h k e =
      let none_frozen = no_part u.frozen_amount estimated h k e in
      ground (
        arith,
        none_frozen,
        add_zero u.balance (min_ℤ u.frozen_amount estimated),
        sub_zero u.frozen_amount (min_ℤ u.frozen_amount estimated),
      )

  find-release_and_charge :
      (u : User) (k : Option UserApiKey) (db : Db)
      → pos 0 ≤ℤ u.frozen_amount
      → leb_ℤ estimated (pos 0) ≡ false
      → let (r, s) =
          release_and_charge user_id u request_id estimated actual key k tokens (opened db) in
        r ≡ ok tt → find user_id s.committed.users ≡ some (settled u)
  unfolding release_and_charge
  find-release_and_charge u k db h positive done =
      elim (Bool-cases (ltb_ℤ (pos 0) (min_ℤ u.frozen_amount estimated))) [
        | inr nothing ↦ ground (
          arith,
          find-charge_actual u k (opened db),
          release-none user_id request_id estimated u (opened db) nothing,
          nothing_released u h positive nothing,
        )
        | inl some_part ↦ ground (
          arith,
          find-charge_actual (released user_id request_id estimated u) k
              (after_release user_id request_id estimated u (opened db)),
          release-some user_id request_id estimated u (opened db) some_part,
        )
      ]

  -- A settlement that succeeds, for a call that is not charged yet and a user whose frozen amount
  -- is not negative, releases what is frozen up to the estimate, takes the actual amount from the
  -- balance, and counts the call: nothing else of the user changes.
  pub find-settle :
      (u : User) (db : Db)
      → find user_id db.users ≡ some u
      → pos 0 ≤ℤ u.frozen_amount
      → has_ref consume (api_call request_id) db.transactions ≡ false
      → (in_session (settle user_id request_id estimated actual key tokens) db).0 ≡ ok tt
      → find user_id (in_session (settle user_id request_id estimated actual key tokens) db).1.users
        ≡ some (settled u)
  unfolding settle
  find-settle u db found h fresh done = elim (checked_key-cases key user_id actual (opened db)) [
    | inl (e, raised) ↦ ground arith
    | inr (k, returned) ↦ ground (arith, find-release_and_charge u k db h)
  ]

-- No adjustment succeeds and none changes the tables.
pub admin_adjust_fails :
    (user_id : ℕ) (amount : ℤ) (operator remark : Option String) (db : Db)
    → let (r, db') = in_session (admin_adjust user_id amount operator remark) db in
      (r ≢ ok tt) × (db' ≡ db)
unfolding admin_adjust
admin_adjust_fails user_id amount operator remark db = elim (Option-cases (find user_id db.users)) [
  | inl missing ↦ (ground arith, ground arith)
  | inr (v, there) ↦ (ground arith, ground arith)
]

-- An adjustment with a non-zero amount, for a user who is there and can bear it, ends in the
-- `ValueError` of a transaction without a reference, and changes nothing.
pub admin_adjust_raises :
    (user_id : ℕ) (amount : ℤ) (operator remark : Option String) (db : Db) (u : User)
    → find user_id db.users ≡ some u
    → amount ≢ pos 0
    → pos 0 ≤ℤ u.balance +ℤ amount
    → in_session (admin_adjust user_id amount operator remark) db ≡ (err value_error, db)
unfolding admin_adjust
admin_adjust_raises user_id amount operator remark db u found nonzero rich = ground arith
