-- ===== src/Wallet/Keys.antt =====
-- services/user-service/src/services/api_key_service.py
-- The raw key is drawn and hashed by the caller: `key_hash` is the hash.
mod Tests
pub mod Policy
pub mod Status
pub mod Usable
use eucal_ai_backend.Prelude.{
  ℕ, zero, suc, ◌+◌, ◌-◌, String, Bool, true, false, not, ◌&&◌, ◌||◌, Option, none, some, List, [],
  ◌∷◌, ◌==◌, leb, if◌then◌else◌,
}
use eucal_ai_backend.Prelude.Int.{ℤ, pos, leb_ℤ}
use eucal_ai_backend.Prelude.Keyed.{Table, find, put, nat_eq, string_eq}
use eucal_ai_backend.Wallet.Models.{
  User, UserApiKey, Db, status_active, status_disabled, status_expired, status_exhausted,
  mode_unlimited, mode_limited, is_exhausted,
}
use eucal_ai_backend.Wallet.Keys.Policy.{is_model_allowed, is_ip_allowed}
use eucal_ai_backend.Wallet.Session.{
  Session, Result, Error, Action, ok, err, validation, pure, raise, raise_if, or_raise, gets,
  modify, commit, ◌>>=◌, ◌>>◌, save_key, owned, get_owned_key, is_live, too_many_keys,
  bad_quota_mode, bad_quota_limit, key_not_found, key_disabled, key_expired, key_exhausted,
  user_disabled, model_not_allowed, ip_not_allowed,
}

-- `expires_at and expires_at <= now()`
abbrev pub is_past : Option ℕ → ℕ → Bool
is_past none now = false
is_past (some at) now = leb at now

-- `_refresh_status`
unfoldable pub refresh_status : (now : ℕ) → UserApiKey → UserApiKey
refresh_status now k =
    if k.status == status_disabled
    then k
    else if is_past k.expires_at now
    then record k { status = status_expired }
    else if is_exhausted k
    then record k { status = status_exhausted }
    else record k { status = status_active }

-- `_raise_for_validation_status`
unfoldable pub raise_for_validation_status : UserApiKey → Action (Unit {0})
raise_for_validation_status k =
    if k.status == status_active
    then pure tt
    else if k.status == status_disabled
    then raise key_disabled
    else if k.status == status_expired
    then raise key_expired
    else if k.status == status_exhausted
    then raise key_exhausted
    else raise key_not_found

-- `count_for_user`: the user's keys that are not deleted
unfoldable pub count_for_user : ℕ → Table ℕ UserApiKey → ℕ
count_for_user user_id [] = 0
count_for_user user_id ((id, k) ∷ t) =
    if is_live k.deleted_at && k.user_id == user_id
    then count_for_user user_id t + 1
    else count_for_user user_id t

-- `get_by_hash`, with the key's id
unfoldable pub get_by_hash : String → Table ℕ UserApiKey → Option (ℕ × UserApiKey)
get_by_hash key_hash [] = none
get_by_hash key_hash ((id, k) ∷ t) =
    if is_live k.deleted_at && string_eq.beq k.key_hash key_hash
    then some (id, k)
    else get_by_hash key_hash t

-- `settings.MAX_API_KEYS_PER_USER` is `max_keys`, and `id` and `key_hash` are new.
unfoldable pub create :
    (max_keys id user_id : ℕ) (key_hash name : String) (quota_mode : ℕ) (quota_limit : ℤ)
    (allowed_models allow_ips : Option String) (expires_at : Option ℕ)
    → Action UserApiKey
create max_keys id user_id key_hash name quota_mode quota_limit allowed_models allow_ips
      expires_at =
    do
      count ← gets (λ db. count_for_user user_id db.api_keys)
      raise_if (leb max_keys count) (validation too_many_keys)
      raise_if (not (quota_mode == mode_unlimited || quota_mode == mode_limited))
          (validation bad_quota_mode)
      raise_if (quota_mode == mode_limited && leb_ℤ quota_limit (pos 0))
          (validation bad_quota_limit)
      let k : UserApiKey = record {
        user_id = user_id;
        key_hash = key_hash;
        name = name;
        status = status_active;
        quota_mode = quota_mode;
        quota_limit = if quota_mode == mode_limited then quota_limit else pos 0;
        quota_used = pos 0;
        allowed_models = allowed_models;
        allow_ips = allow_ips;
        expires_at = expires_at;
        last_used_at = none;
        deleted_at = none;
      }
      save_key id k
      commit
      pure k

-- `verify_key_ownership`
abbrev pub verify_key_ownership : ℕ → ℕ → Action UserApiKey
verify_key_ownership key_id user_id = do
  found ← get_owned_key key_id user_id
  or_raise found key_not_found

-- A field that was not provided is `none`; a provided null is `some none`.
pub record Fields : Type 0 where
  pub name : Option (Option String)
  pub quota_limit : Option (Option ℤ)
  pub reset_quota_used : Bool
  pub allowed_models : Option (Option String)
  pub allow_ips : Option (Option String)
  pub expires_at : Option (Option ℕ)

abbrev pub or_kept : {A : Type 0} → Option A → A → A
or_kept none kept = kept
or_kept (some new) kept = new

-- a field that a null leaves as it is
abbrev pub non_null : {A : Type 0} → Option (Option A) → Option A
non_null none = none
non_null (some none) = none
non_null (some (some new)) = some new

abbrev pub refuses_limit : UserApiKey → Option ℤ → Bool
refuses_limit k none = false
refuses_limit k (some limit) = not (k.quota_mode == mode_limited) || leb_ℤ limit (pos 0)

unfoldable pub changed : Fields → UserApiKey → UserApiKey
changed fields k = record k {
  name = or_kept (non_null fields.name) k.name;
  quota_limit = or_kept (non_null fields.quota_limit) k.quota_limit;
  allowed_models = or_kept fields.allowed_models k.allowed_models;
  allow_ips = or_kept fields.allow_ips k.allow_ips;
  expires_at = or_kept fields.expires_at k.expires_at;
  quota_used = if fields.reset_quota_used then pos 0 else k.quota_used;
}

unfoldable pub update : (now key_id user_id : ℕ) → Fields → Action UserApiKey
unfolding changed
update now key_id user_id fields = do
  k ← verify_key_ownership key_id user_id
  raise_if (refuses_limit k (non_null fields.quota_limit)) (validation bad_quota_limit)
  let k' = refresh_status now (changed fields k)
  save_key key_id k'
  commit
  pure k'

unfoldable pub disable : (key_id user_id : ℕ) → Action (Unit {0})
disable key_id user_id = do
  k ← verify_key_ownership key_id user_id
  save_key key_id (record k { status = status_disabled })
  commit

unfoldable pub enable : (now key_id user_id : ℕ) → Action (Unit {0})
enable now key_id user_id = do
  k ← verify_key_ownership key_id user_id
  save_key key_id (refresh_status now (record k { status = status_active }))
  commit

unfoldable pub delete : (now key_id user_id : ℕ) → Action (Unit {0})
delete now key_id user_id = do
  k ← verify_key_ownership key_id user_id
  save_key key_id (record k { deleted_at = some now })
  commit

unfoldable pub disable_all : ℕ → Table ℕ UserApiKey → Table ℕ UserApiKey
disable_all user_id [] = []
disable_all user_id ((id, k) ∷ t) =
    if k.user_id == user_id && is_live k.deleted_at && k.status == status_active
    then (id, record k { status = status_disabled }) ∷ disable_all user_id t
    else (id, k) ∷ disable_all user_id t

-- The caller commits.
unfoldable pub disable_all_for_user : ℕ → Action (Unit {0})
disable_all_for_user user_id =
    modify (λ db. record db { api_keys = disable_all user_id db.api_keys })

-- a user who is there and active
abbrev pub is_active_user : Option User → Bool
is_active_user none = false
is_active_user (some u) = u.status == 1

abbrev pub refuses : {A : Type 0} → (A → Bool) → Option A → Bool
refuses allows none = false
refuses allows (some a) = not (allows a)

module _ {Address : Type 0} (ip_address : String → Option Address)
    (in_network : String → Address → Option Bool) where
  unfoldable pub validate_by_hash :
      (now : ℕ) → String → (model client_ip : Option String) → Action UserApiKey
  validate_by_hash now key_hash model client_ip = do
    found ← gets (λ db. get_by_hash key_hash db.api_keys)
    (id, k) ← or_raise found key_not_found
    owner ← gets (λ db. find k.user_id db.users)
    raise_if (not (is_active_user owner)) user_disabled
    let k' = refresh_status now k
    save_key id k'
    if not (k'.status == k.status) then commit else pure tt
    raise_for_validation_status k'
    raise_if (refuses (is_model_allowed k'.allowed_models) model) model_not_allowed
    raise_if (refuses (is_ip_allowed ip_address in_network k'.allow_ips) client_ip) ip_not_allowed
    save_key id (record k' { last_used_at = some now })
    commit
    pure (record k' { last_used_at = some now })
