-- ===== src/Router/Upstream.antt =====
-- services/router-service/src/services/retry_policy.py, and the check of a URL in
-- services/upstream.py. The check takes the scheme and the lower-case hostname that `urlparse` has
-- found; `int` stands for Python's `int`, and `none` for its ValueError.
mod Tests
pub mod Policy
use text.Mathlib.Text.{starts_with}
use eucal_ai_backend.Prelude.{
  ℕ, String, Bool, true, false, not, ◌&&◌, ◌||◌, Option, none, some, List, [], ◌∷◌, leb, ltb, ◌==◌,
  if◌then◌else◌, nth,
}
use eucal_ai_backend.Prelude.Int.{ℤ, pos, leb_ℤ}
use eucal_ai_backend.Prelude.Keyed.{mem, nat_eq, string_eq}
use eucal_ai_backend.Prelude.Text.{split_by}

abbrev pub retryable_status_codes : List ℕ
retryable_status_codes = 429 ∷ 500 ∷ 502 ∷ 503 ∷ []

abbrev pub never_retry_status_codes : List ℕ
never_retry_status_codes = 400 ∷ 401 ∷ 403 ∷ 404 ∷ []

-- `should_retry`, with the status code of the exception, if it has one
unfoldable pub should_retry : Option ℕ → Bool
should_retry none = true
should_retry (some status_code) =
    if mem status_code never_retry_status_codes
    then false
    else if mem status_code retryable_status_codes
    then true
    else leb 500 status_code && ltb status_code 600

-- what a block does: it ends, or raises a ValueError
pub data Checked : Type 0 where
  passed : Checked
  value_error : Checked

-- `except ValueError: pass`
unfoldable pub pass_on_value_error : Checked → Checked
pass_on_value_error passed = passed
pass_on_value_error value_error = passed

abbrev pub blocked_hosts : List String
blocked_hosts =
    "localhost" ∷ "127.0.0.1" ∷ "0.0.0.0" ∷ "::1" ∷ "metadata.google.internal" ∷ "169.254.169.254"
    ∷ []

is_dot : ℕ → Bool
is_dot c = c == b'.'

module _ (int : String → Option ℤ) where
  -- the block of the `try`: the second octet of a 172.* host
  unfoldable pub check_second_octet : String → Checked
  unfolding is_dot
  check_second_octet hostname = elim (nth (split_by is_dot hostname) 1) [
    | none ↦ passed
    | some part ↦ elim (int part) [
      | none ↦ value_error
      | some second ↦ if leb_ℤ (pos 16) second && leb_ℤ second (pos 31) then value_error else passed
    ]
  ]

  -- `_validate_upstream_url`
  unfoldable pub validate_upstream_url : (scheme hostname : String) → Checked
  validate_upstream_url scheme hostname =
      if not (mem scheme ("http" ∷ "https" ∷ []))
      then value_error
      else if mem hostname blocked_hosts
      then value_error
      else if starts_with hostname "10." || starts_with hostname "192.168."
      then value_error
      else if starts_with hostname "172."
      then pass_on_value_error (check_second_octet hostname)
      else passed
