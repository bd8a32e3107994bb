-- ===== src/Router/Upstream/Tests.antt =====
-- The policies at one status and at a private host.
use text.Mathlib.Text.{starts_with}
use eucal_ai_backend.Prelude.{String, ◌≡◌, ◌↔◌, true, false, ◌||◌, Option, some, List, [], ◌∷◌}
use eucal_ai_backend.Prelude.Int.{ℤ, pos}
use eucal_ai_backend.Prelude.Keyed.{mem, string_eq}
use eucal_ai_backend.Router.Upstream.{passed, validate_upstream_url, blocked_hosts}
use eucal_ai_backend.Router.Upstream.Policy.{validate_upstream_url_lem}

abbrev sixteen : String → Option ℤ
sixteen s = some (pos 16)

abbrev schemes : List String
schemes = "http" ∷ "https" ∷ []

abbrev private_host : String
private_host = "172.16.0.1"

validate_upstream_url_lem_example : (validate_upstream_url sixteen "http" private_host ≡ passed) ↔ (
    (mem {A = String} "http" schemes ≡ true)
    × (mem private_host blocked_hosts ≡ false)
    × (starts_with private_host "10." || starts_with private_host "192.168." ≡ false))
validate_upstream_url_lem_example = validate_upstream_url_lem sixteen "http" private_host
