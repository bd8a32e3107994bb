-- ===== src/Router/Upstream/Policy.antt =====
-- Which errors are retried, and which upstream URLs are refused.
use text.Mathlib.Text.{starts_with}
use eucal_ai_backend.Prelude.{
  ℕ, String, ◌≡◌, ◌↔◌, refl, inl, inr, true, false, ◌||◌, ◌&&◌, Option, none, some, ◌∷◌, [], arith,
  Bool-cases, leb, ltb, ◌==◌,
}
use eucal_ai_backend.Prelude.Int.{ℤ}
use eucal_ai_backend.Prelude.Keyed.{mem, nat_eq, string_eq}
use eucal_ai_backend.Router.Upstream.{
  should_retry, Checked, passed, value_error, pass_on_value_error, check_second_octet,
  validate_upstream_url, blocked_hosts,
}

-- Exactly the errors with status 429 or of the 500s are retried, next to those without a status:
-- the two lists of codes in the source decide nothing more.
pub should_retry_lem :
    (status_code : Option ℕ)
    → should_retry status_code
      ≡ elim status_code [ none ↦ true | some code ↦ code == 429 || (leb 500 code && ltb code 600) ]
unfolding should_retry mem
should_retry_lem none = refl
should_retry_lem (some code) = ground arith

always_passed : (c : Checked) → pass_on_value_error c ≡ passed
unfolding pass_on_value_error
always_passed passed = refl
always_passed value_error = refl

-- A URL is accepted exactly if its scheme is http or https and its host is neither one of the
-- blocked ones nor in 10.* or 192.168.*: the private hosts of 172.16.* to 172.31.* are accepted,
-- whatever `int` answers.
pub validate_upstream_url_lem :
    (int : String → Option ℤ) (scheme hostname : String)
    → (validate_upstream_url int scheme hostname ≡ passed) ↔ (
        (mem scheme ("http" ∷ "https" ∷ []) ≡ true)
        × (mem hostname blocked_hosts ≡ false)
        × (starts_with hostname "10." || starts_with hostname "192.168." ≡ false))
unfolding validate_upstream_url
validate_upstream_url_lem int scheme hostname =
    let pass = always_passed (check_second_octet int hostname) in
    elim (Bool-cases (mem scheme ("http" ∷ "https" ∷ []))) [
      | inr bad_scheme ↦ ((λ h. ground arith), (λ h. ground arith))
      | inl good_scheme ↦ elim (Bool-cases (mem hostname blocked_hosts)) [
        | inl blocked ↦ ((λ h. ground arith), (λ h. ground arith))
        | inr free ↦
            elim (Bool-cases (starts_with hostname "10." || starts_with hostname "192.168.")) [
              | inl private_host ↦ ((λ h. ground arith), (λ h. ground arith))
              | inr public_host ↦ ((λ h. ground arith), (λ h. ground arith))
            ]
      ]
    ]
