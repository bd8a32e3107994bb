-- ===== src/Wallet/Keys/Status.antt =====
-- Which keys a request is let in with, and who can change a key.
use eucal_ai_backend.Prelude.{
  ℕ, ◌+◌, ◌≤◌, String, ◌≡◌, refl, ◌⊎◌, inl, inr, true, false, Bool, ◌&&◌, Option, none, some, [],
  ◌∷◌, arith, Option-cases, Bool-cases, ◌==◌, leb, if◌then◌else◌,
}
use eucal_ai_backend.Prelude.Int.{ℤ, pos}
use eucal_ai_backend.Prelude.Keyed.{Table, find, put, nat_eq, string_eq, find-put_self}
use eucal_ai_backend.Wallet.Models.{
  User, UserApiKey, Db, status_active, status_disabled, status_expired, status_exhausted,
  is_exhausted, mode_limited,
}
use eucal_ai_backend.Wallet.Session.{
  Session, Error, ok, err, key_not_found, key_disabled, key_expired, key_exhausted, in_session,
  owned, is_live,
}
use eucal_ai_backend.Wallet.Keys.{
  is_past, refresh_status, raise_for_validation_status, count_for_user, get_by_hash, changed,
  create, update, Fields, disable, enable, delete, is_active_user, refuses, validate_by_hash,
}
use eucal_ai_backend.Wallet.Keys.Policy.{is_model_allowed, is_ip_allowed}

-- `_refresh_status` makes a key active exactly if it is neither disabled nor expired nor exhausted.
status-refresh_status :
    (now : ℕ) (k : UserApiKey)
    → ((refresh_status now k).status == status_active ≡ true
        → (k.status == status_disabled ≡ false)
          × (is_past k.expires_at now ≡ false)
          × (is_exhausted k ≡ false))
      × (k.status == status_disabled ≡ false
          → is_past k.expires_at now ≡ false
          → is_exhausted k ≡ false
          → refresh_status now k ≡ record k { status = status_active })
unfolding refresh_status
status-refresh_status now k = (λ h. ground arith, λ a b c. ground arith)

-- The check of the status passes for an active key and raises for any other.
check-cases :
    (k : UserApiKey) (s : Session)
    → ((k.status == status_active ≡ true) × (raise_for_validation_status k s ≡ (ok tt, s)))
      ⊎ ((k.status == status_active ≡ false)
          × ((e : Error) × (raise_for_validation_status k s ≡ (err e, s))))
unfolding raise_for_validation_status
check-cases k s = elim (Bool-cases (k.status == status_active)) [
  | inl active ↦ inl (active, ground arith)
  | inr other ↦ inr (
    other,
    elim (Bool-cases (k.status == status_disabled)) [
      | inl disabled ↦ (key_disabled, ground arith)
      | inr enabled ↦ elim (Bool-cases (k.status == status_expired)) [
        | inl expired ↦ (key_expired, ground arith)
        | inr lasting ↦ elim (Bool-cases (k.status == status_exhausted)) [
          | inl exhausted ↦ (key_exhausted, ground arith)
          | inr unknown ↦ (key_not_found, ground arith)
        ]
      ]
    ],
  )
]

check_active :
    (k : UserApiKey) (s : Session)
    → k.status == status_active ≡ true
    → raise_for_validation_status k s ≡ (ok tt, s)
unfolding raise_for_validation_status
check_active k s active = ground arith

refresh_status_kept :
    (now : ℕ) (k : UserApiKey)
    → let k' = refresh_status now k in
      (k'.allowed_models ≡ k.allowed_models) × (k'.allow_ips ≡ k.allow_ips)
unfolding refresh_status
refresh_status_kept now k = ground arith

module _ {Address : Type 0} (ip_address : String → Option Address)
    (in_network : String → Address → Option Bool) (now : ℕ) (key_hash : String)
    (model client_ip : Option String) where
  -- The key may be used, by this owner, for this model and from this address.
  abbrev pub Grants : Option User → UserApiKey → Type 0
  Grants owner k =
      (is_active_user owner ≡ true)
      × (k.status == status_disabled ≡ false)
      × (is_past k.expires_at now ≡ false)
      × (is_exhausted k ≡ false)
      × (refuses (is_model_allowed k.allowed_models) model ≡ false)
      × (refuses (is_ip_allowed ip_address in_network k.allow_ips) client_ip ≡ false)

  granted :
      (db : Db) (k' : UserApiKey) (id : ℕ) (k : UserApiKey)
      → get_by_hash key_hash db.api_keys ≡ some (id, k)
      → (in_session (validate_by_hash ip_address in_network now key_hash model client_ip) db).0
        ≡ ok k'
      → Grants (find k.user_id db.users) k
  unfolding validate_by_hash
  granted db k' id k found accepted =
      let fresh = refresh_status now k in
      let w = record db { api_keys = put id fresh db.api_keys } in
      let kept = refresh_status_kept now k in
      elim (Bool-cases (is_active_user (find k.user_id db.users))) [
        | inr gone ↦ ground arith
        | inl there ↦ elim (Bool-cases (fresh.status == k.status)) [
          | inl same ↦ elim (check-cases fresh (record { committed = db; working = w })) [
            | inr (other, (e, raised)) ↦ ground arith
            | inl (active, passed) ↦
                let (a, b, c) = (status-refresh_status now k).0 active in
                (there, a, b, c, ground arith, ground arith)
          ]
          | inr differs ↦ elim (check-cases fresh (record { committed = w; working = w })) [
            | inr (other, (e, raised)) ↦ ground arith
            | inl (active, passed) ↦
                let (a, b, c) = (status-refresh_status now k).0 active in
                (there, a, b, c, ground arith, ground arith)
          ]
        ]
      ]

  -- A key that is accepted is found by its hash, and may be used.
  pub validate-Grants :
      (db : Db) (k' : UserApiKey)
      → (in_session (validate_by_hash ip_address in_network now key_hash model client_ip) db).0
        ≡ ok k'
      → (id : ℕ) × (k : UserApiKey) × (get_by_hash key_hash db.api_keys ≡ some (id, k))
        × Grants (find k.user_id db.users) k
  unfolding validate_by_hash
  validate-Grants db k' accepted = elim (Option-cases (get_by_hash key_hash db.api_keys)) [
    | inl missing ↦ ground arith
    | inr ((id, k), found) ↦ (id, k, found, granted db k' id k found accepted)
  ]

  -- A key that is there, owned by an active user, and that may be used for the model and from the
  -- address is accepted. Its status becomes active and its last use the present time, and nothing
  -- else in the tables changes.
  pub Grants-validate :
      (db : Db) (id : ℕ) (k : UserApiKey)
      → get_by_hash key_hash db.api_keys ≡ some (id, k)
      → Grants (find k.user_id db.users) k
      → let active = record k { status = status_active } in
        let used = record active { last_used_at = some now } in
        in_session (validate_by_hash ip_address in_network now key_hash model client_ip) db
        ≡ (ok used, record db { api_keys = put id used (put id active db.api_keys) })
  unfolding validate_by_hash
  Grants-validate db id k found (there, a, b, c, d, e) =
      let fresh = record k { status = status_active } in
      let w = record db { api_keys = put id fresh db.api_keys } in
      let refreshed = (status-refresh_status now k).1 a b c in
      elim (Bool-cases (status_active == k.status)) [
        | inl same ↦
            ground (arith, refreshed, check_active fresh (record { committed = db; working = w }))
        | inr differs ↦
            ground (arith, refreshed, check_active fresh (record { committed = w; working = w }))
      ]

-- No one else's key can be changed, nor a deleted one: each operation raises and changes nothing.
pub foreign_key :
    (now key_id user_id : ℕ) (fields : Fields) (db : Db) (k : UserApiKey)
    → find key_id db.api_keys ≡ some k
    → is_live k.deleted_at && k.user_id == user_id ≡ false
    → (in_session (update now key_id user_id fields) db ≡ (err key_not_found, db))
      × (in_session (disable key_id user_id) db ≡ (err key_not_found, db))
      × (in_session (enable now key_id user_id) db ≡ (err key_not_found, db))
      × (in_session (delete now key_id user_id) db ≡ (err key_not_found, db))
unfolding update disable enable delete owned
foreign_key now key_id user_id fields db k found foreign =
    (ground arith, ground arith, ground arith, ground arith)

refresh_disabled :
    (now : ℕ) (k : UserApiKey) → k.status ≡ status_disabled → refresh_status now k ≡ k
unfolding refresh_status
refresh_disabled now k disabled = ground arith

status-changed : (fields : Fields) (k : UserApiKey) → (changed fields k).status ≡ k.status
unfolding changed
status-changed fields k = refl

-- A disabled key stays disabled whatever its owner changes: only enabling it again helps.
pub update_disabled :
    (now key_id user_id : ℕ) (fields : Fields) (db : Db) (k k' : UserApiKey)
    → find key_id db.api_keys ≡ some k
    → k.status ≡ status_disabled
    → (in_session (update now key_id user_id fields) db).0 ≡ ok k'
    → (k'.status ≡ status_disabled)
      × (find key_id (in_session (update now key_id user_id fields) db).1.api_keys ≡ some k')
unfolding update owned
update_disabled now key_id user_id fields db k k' found disabled done = ground (
  arith,
  status-changed fields k,
  refresh_disabled now (changed fields k),
  find-put_self key_id (changed fields k) db.api_keys,
)

count-put :
    (user_id id : ℕ) (k : UserApiKey) (t : Table ℕ UserApiKey)
    → find id t ≡ none
    → count_for_user user_id (put id k t) ≤ count_for_user user_id t + 1
unfolding count_for_user find put
count-put user_id id k [] fresh = ground arith
count-put user_id id k ((j, other) ∷ t) fresh = ground (arith, count-put user_id id k t)

-- No user gets more keys than the limit: a key is created only while the user has fewer that are
-- not deleted.
pub count-create :
    (max_keys id user_id : ℕ) (key_hash name : String) (quota_mode : ℕ) (quota_limit : ℤ)
    (models ips : Option String) (expires_at : Option ℕ) (db : Db)
    → find id db.api_keys ≡ none
    → count_for_user user_id db.api_keys ≤ max_keys
    → let m =
        create max_keys id user_id key_hash name quota_mode quota_limit models ips expires_at in
      count_for_user user_id (in_session m db).1.api_keys ≤ max_keys
unfolding create
count-create max_keys id user_id key_hash name quota_mode quota_limit models ips expires_at db fresh
      few =
    let k : UserApiKey = record {
      user_id = user_id;
      key_hash = key_hash;
      name = name;
      status = status_active;
      quota_mode = quota_mode;
      quota_limit = if quota_mode == mode_limited then quota_limit else pos 0;
      quota_used = pos 0;
      allowed_models = models;
      allow_ips = ips;
      expires_at = expires_at;
      last_used_at = none;
      deleted_at = none;
    } in
    elim (Bool-cases (leb max_keys (count_for_user user_id db.api_keys))) [
      | inl full ↦ ground arith
      | inr room ↦ ground (arith, count-put user_id id k db.api_keys fresh)
    ]
