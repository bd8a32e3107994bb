-- ===== src/Wallet/Keys/Usable.antt =====
-- services/user-service/src/services/api_key_service.py: what `validate_by_hash` asks of a key,
-- said of the rows of the tables.
use eucal_ai_backend.Prelude.{
  some_injective, ℕ, ◌<◌, String, ◌≡◌, ◌≢◌, sym, ap, ◌∙◌, refl, ◌⊎◌, inl, inr, true, false, Bool,
  ◌&&◌, Option, none, some, List, [], ◌∷◌, arith, IsIn, Option-cases, Bool-cases,
}
use eucal_ai_backend.Prelude.Keyed.{Table, find, mem, string_eq, nat_eq}
use eucal_ai_backend.Prelude.Text.{split_by, is_empty}
use eucal_ai_backend.Wallet.Models.{User, UserApiKey, Db, status_disabled, is_exhausted}
use eucal_ai_backend.Wallet.Session.{ok, in_session, is_live}
use eucal_ai_backend.Wallet.Keys.{is_past, get_by_hash, is_active_user, refuses, validate_by_hash}
use eucal_ai_backend.Wallet.Keys.Policy.{
  is_model_allowed, is_ip_allowed, is_comma, is_line_break, any_rule,
}
use eucal_ai_backend.Wallet.Keys.Status.{validate-Grants}

-- a key with no list of models, or a request that names none, may use any; else the model is one
-- of those between the commas
unfoldable pub AllowsModel : (allowed_models model : Option String) → Type 0
AllowsModel none model = Unit
AllowsModel (some models) none = Unit
AllowsModel (some models) (some model) =
    (is_empty models ≡ true) ⊎ IsIn model (split_by is_comma models)

unfoldable pub Lasts : (expires_at : Option ℕ) (now : ℕ) → Type 0
Lasts none now = Unit
Lasts (some at) now = now < at

mem-IsIn : (x : String) (xs : List String) → mem x xs ≡ true → IsIn x xs
unfolding mem
mem-IsIn x [] h = ground arith
mem-IsIn x (y ∷ ys) h = elim (Bool-cases (string_eq.beq y x)) [
  | inl here ↦ inl (sym ((string_eq.beq_iff y x).0 here))
  | inr other ↦ inr (mem-IsIn x ys (ground arith))
]

refuses-AllowsModel :
    (models model : Option String)
    → refuses (is_model_allowed models) model ≡ false
    → AllowsModel models model
unfolding is_model_allowed AllowsModel
refuses-AllowsModel none model h = tt
refuses-AllowsModel (some models) none h = tt
refuses-AllowsModel (some models) (some model) h = elim (Bool-cases (is_empty models)) [
  | inl all ↦ inl all
  | inr some_are ↦ inr (mem-IsIn model (split_by is_comma models) (ground arith))
]

past-Lasts :
    (expires_at : Option ℕ) (now : ℕ) → is_past expires_at now ≡ false → Lasts expires_at now
unfolding Lasts
past-Lasts none now h = tt
past-Lasts (some at) now h = ground arith

none_of_live : (deleted_at : Option ℕ) → is_live deleted_at ≡ true → deleted_at ≡ none
none_of_live none h = refl
none_of_live (some at) h = ground arith

active_owner :
    (owner : Option User)
    → is_active_user owner ≡ true
    → (u : User) × (owner ≡ some u) × (u.status ≡ 1)
active_owner none h = ground arith
active_owner (some u) h = (u, refl, ground arith)

get_by_hash_lem :
    (key_hash : String) (t : Table ℕ UserApiKey) (id : ℕ) (k : UserApiKey)
    → get_by_hash key_hash t ≡ some (id, k)
    → IsIn (id, k) t × (k.key_hash ≡ key_hash) × (k.deleted_at ≡ none)
unfolding get_by_hash
get_by_hash_lem key_hash [] id k found = ground arith
get_by_hash_lem key_hash ((j, d) ∷ t) id k found =
    elim (Bool-cases (is_live d.deleted_at && string_eq.beq d.key_hash key_hash)) [
      | inl here ↦
          let live : d.deleted_at ≡ none = none_of_live d.deleted_at (ground arith) in
          let hash : d.key_hash ≡ key_hash =
            (string_eq.beq_iff d.key_hash key_hash).0 (ground arith) in
          let same : (j, d) ≡ (id, k) = some_injective (j, d) (id, k) (ground arith) in
          (
            inl (sym same),
            sym (ap (λ (r : ℕ × UserApiKey). r.1.key_hash) same) ∙ hash,
            sym (ap (λ (r : ℕ × UserApiKey). r.1.deleted_at) same) ∙ live,
          )
      | inr other ↦
          let (there, hash, live) = get_by_hash_lem key_hash t id k (ground arith) in
          (inr there, hash, live)
    ]

module _ {Address : Type 0} (ip_address : String → Option Address)
    (in_network : String → Address → Option Bool) where
  -- a key with no rules, or a request that names no address, is let in from anywhere; else the
  -- address is one, and in the network of a rule between the line breaks
  unfoldable pub AllowsAddress : (allow_ips client_ip : Option String) → Type 0
  AllowsAddress none client_ip = Unit
  AllowsAddress (some rules) none = Unit
  AllowsAddress (some rules) (some client_ip) =
      (is_empty rules ≡ true)
      ⊎ ((ip : Address) × (ip_address client_ip ≡ some ip)
          × ((rule : String) × IsIn rule (split_by is_line_break rules)
              × (in_network rule ip ≡ some true)))

  any_rule-IsIn :
      (ip : Address) (items : List String)
      → any_rule ip_address in_network ip items ≡ true
      → (rule : String) × IsIn rule items × (in_network rule ip ≡ some true)
  unfolding any_rule
  any_rule-IsIn ip [] h = ground arith
  any_rule-IsIn ip (item ∷ items) h = elim (Bool-cases (is_empty item)) [
    | inl blank ↦
        let (rule, there, within) = any_rule-IsIn ip items (ground arith) in
        (rule, inr there, within)
    | inr given ↦ elim (Option-cases (in_network item ip)) [
      | inl no_network ↦
          let (rule, there, within) = any_rule-IsIn ip items (ground arith) in
          (rule, inr there, within)
      | inr (found, e) ↦ elim (Bool-cases found) [
        | inl yes_ ↦ (item, inl refl, e ∙ ap some yes_)
        | inr no_ ↦
            let (rule, there, within) = any_rule-IsIn ip items (ground arith) in
            (rule, inr there, within)
      ]
    ]
  ]

  refuses-AllowsAddress :
      (rules client_ip : Option String)
      → refuses (is_ip_allowed ip_address in_network rules) client_ip ≡ false
      → AllowsAddress rules client_ip
  unfolding is_ip_allowed AllowsAddress
  refuses-AllowsAddress none client_ip h = tt
  refuses-AllowsAddress (some rules) none h = tt
  refuses-AllowsAddress (some rules) (some client_ip) h = elim (Bool-cases (is_empty rules)) [
    | inl all ↦ inl all
    | inr some_are ↦ elim (Option-cases (ip_address client_ip)) [
      | inl unread ↦ ground arith
      | inr (ip, e) ↦ inr (ip, e, any_rule-IsIn ip (split_by is_line_break rules) (ground arith))
    ]
  ]

  -- A key is accepted only if a row of the table has its hash and is not deleted, its owner is
  -- there and active, it is not disabled, its time has not come, its quota is not used up, and it
  -- allows the model and the address: the model is one of its list, the address in a network of
  -- its rules, where it has any.
  pub validate_usable :
      (now : ℕ) (key_hash : String) (model client_ip : Option String) (db : Db) (k' : UserApiKey)
      → (in_session (validate_by_hash ip_address in_network now key_hash model client_ip) db).0
        ≡ ok k'
      → (id : ℕ) × (k : UserApiKey) × (owner : User) × IsIn (id, k) db.api_keys
        × (k.key_hash ≡ key_hash)
        × (k.deleted_at ≡ none)
        × (find k.user_id db.users ≡ some owner)
        × (owner.status ≡ 1)
        × (k.status ≢ status_disabled)
        × Lasts k.expires_at now
        × (is_exhausted k ≡ false)
        × AllowsModel k.allowed_models model
        × AllowsAddress k.allow_ips client_ip
  validate_usable now key_hash model client_ip db k' accepted =
      let (id, k, found, (active, enabled, lasting, left, models, addresses)) =
        validate-Grants ip_address in_network now key_hash model client_ip db k' accepted in
      let (there, hash, live) = get_by_hash_lem key_hash db.api_keys id k found in
      let (owner, owned, works) = active_owner (find k.user_id db.users) active in
      (
        id,
        k,
        owner,
        there,
        hash,
        live,
        owned,
        works,
        (λ off. ground arith),
        past-Lasts k.expires_at now lasting,
        left,
        refuses-AllowsModel k.allowed_models model models,
        refuses-AllowsAddress k.allow_ips client_ip addresses,
      )
