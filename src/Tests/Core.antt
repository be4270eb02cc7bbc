-- ===== src/Tests/Core.antt =====
-- The theorems on gateway tokens at two gateways.
use industrial_equipment_mon.Prelude.{String, ◌≡◌, ◌↔◌, refl, Option, none, some, List, [], ◌∷◌}
use mathlib.Core.List.{Memᴰ}
use industrial_equipment_mon.Telemetry.Json.{Value, text, object, end, member, is_unique, has_key}
use industrial_equipment_mon.Core.GatewayAuth.{
  Credential, check_credentials, load_gateway_credentials, split, split_from, resolve_gateway,
}
use industrial_equipment_mon.Core.GatewayAuth.Tokens.{resolves_own_gateway}

abbrev tokens : List Credential
tokens = ("hall", "first") ∷ ("yard", "second==") ∷ []

abbrev decode : String → Option Value
decode s = some (object (member "hall" (text "first") (member "yard" (text "second==") end)))

loads : load_gateway_credentials decode (some "tokens") ≡ some tokens
unfolding load_gateway_credentials check_credentials is_unique has_key
loads = refl

resolves_own_gateway_example :
    (resolve_gateway tokens ("Bearer second==" ∷ []) ≡ some "yard")
    ↔ Memᴰ ("yard", "second==") tokens
unfolding split split_from
resolves_own_gateway_example =
    resolves_own_gateway decode (some "tokens") tokens "Bearer second==" "Bearer" "second==" "yard"
      loads refl refl

two_headers : resolve_gateway tokens ("Bearer first" ∷ "Bearer first" ∷ []) ≡ none
unfolding resolve_gateway
two_headers = refl
