-- ===== src/Wallet/Keys/Policy.antt =====
-- services/user-service/src/utils/api_key_policy.py: the two matching functions.
-- `ip_address` and `in_network` stand for the `ipaddress` module; `none` is its ValueError.
use eucal_ai_backend.Prelude.{
  ℕ, String, Bool, true, false, ◌||◌, ◌&&◌, Option, none, some, List, [], ◌∷◌, ◌==◌, leb,
  if◌then◌else◌,
}
use eucal_ai_backend.Prelude.Text.{split_by, is_empty}
use eucal_ai_backend.Prelude.Keyed.{mem, string_eq}

-- `not value`
abbrev pub is_unset : Option String → Bool
is_unset none = true
is_unset (some s) = is_empty s

pub is_comma : ℕ → Bool
is_comma c = c == b','

unfoldable pub is_model_allowed : Option String → String → Bool
unfolding is_comma
is_model_allowed none model = true
is_model_allowed (some allowed_models) model =
    is_empty allowed_models || mem model (split_by is_comma allowed_models)

-- where `str.splitlines` splits; it takes `\r\n` for one break, but the empty piece between the
-- two is passed over by the loop
unfoldable pub is_line_break : ℕ → Bool
is_line_break c =
    (leb 10 c && leb c 13) || (leb 28 c && leb c 30) || c == 133 || c == 8232 || c == 8233

module _ {Address : Type 0} (ip_address : String → Option Address)
    (in_network : String → Address → Option Bool) where
  -- the loop over the rules: a rule that is no network is passed over
  unfoldable pub any_rule : Address → List String → Bool
  any_rule ip [] = false
  any_rule ip (item ∷ items) =
      let rest = any_rule ip items in
      if is_empty item
      then rest
      else elim (in_network item ip) [ none ↦ rest | some found ↦ (if found then true else rest) ]

  unfoldable pub is_ip_allowed : Option String → String → Bool
  is_ip_allowed none client_ip = true
  is_ip_allowed (some allow_ips) client_ip =
      if is_empty allow_ips then true else elim (ip_address client_ip) [
        | none ↦ false
        | some ip ↦ any_rule ip (split_by is_line_break allow_ips)
      ]
