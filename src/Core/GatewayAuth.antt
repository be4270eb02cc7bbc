-- ===== src/Core/GatewayAuth.antt =====
-- core/gateway_auth.py: the gateways' bearer tokens. The JSON library's reading of the setting is a
-- parameter, as in telemetry validation.
pub mod Tokens
use Prim.Native.Char.{Char, code}
use industrial_equipment_mon.Prelude.{
  ℕ, ◌+◌, String, Bool, true, false, ◌&&◌, ◌||◌, not, Option, none, some, List, [], ◌∷◌, leb,
  nat_eq, str_eq, if◌then◌else◌,
}
use industrial_equipment_mon.Telemetry.Json.{
  Value, null, boolean, integer, decimal, text, array, object, Members, end, member, is_unique,
}
use industrial_equipment_mon.Telemetry.Validation.{count, has_nul}
use industrial_equipment_mon.Devices.Registration.{is_space}

-- The gateway and its token, in the order of the setting.
abbrev pub Credential : Type 0
Credential = String × String

abbrev pub is_between : ℕ → ℕ → ℕ → Bool
is_between low high c = leb low c && leb c high

-- [A-Za-z0-9._~+/-]
abbrev pub is_token_character : ℕ → Bool
is_token_character c =
    is_between 65 90 c
    || is_between 97 122 c
    || is_between 48 57 c
    || nat_eq c 46
    || nat_eq c 95
    || nat_eq c 126
    || nat_eq c 43
    || nat_eq c 47
    || nat_eq c 45

-- ={0,} up to the end
abbrev pub is_padding : String → Bool
is_padding String.[] = true
is_padding (String.◌∷◌ c s) = nat_eq (code c) 61 && is_padding s

-- The rest of a token, of which one character has been read.
abbrev pub is_token_rest : String → Bool
is_token_rest String.[] = true
is_token_rest (String.◌∷◌ c s) =
    is_token_character (code c) && is_token_rest s || is_padding (String.◌∷◌ c s)

abbrev pub is_token : String → Bool
is_token String.[] = false
is_token (String.◌∷◌ c s) = is_token_character (code c) && is_token_rest s

abbrev pub starts_with : String → String → Bool
starts_with String.[] s = true
starts_with (String.◌∷◌ c p) String.[] = false
starts_with (String.◌∷◌ c p) (String.◌∷◌ d s) = nat_eq (code c) (code d) && starts_with p s

abbrev pub is_gateway_id : String → Bool
is_gateway_id g = leb 1 (count g) && leb (count g) 128 && not (has_nul g)

abbrev pub is_credential_token : String → Bool
is_credential_token t = is_token t && not (starts_with "replace-with-" t)

abbrev pub keep_credential : Bool → Credential → Option (List Credential) → Option (List Credential)
keep_credential true credential (some rest) = some (credential ∷ rest)
keep_credential true credential none = none
keep_credential false credential rest = none

-- The loop over the members; `none` is the ValueError.
unfoldable pub check_credentials : Members → Option (List Credential)
check_credentials end = some []
check_credentials (member g (text t) m) =
    keep_credential (is_gateway_id g && is_credential_token t) (g, t) (check_credentials m)
check_credentials (member g _ m) = none

abbrev pub has_token : String → List Credential → Bool
has_token t [] = false
has_token t ((g, t') ∷ rest) = str_eq t' t || has_token t rest

-- len(set(values)) == len(credentials)
abbrev pub are_distinct : List Credential → Bool
are_distinct [] = true
are_distinct ((g, t) ∷ rest) = not (has_token t rest) && are_distinct rest

abbrev pub keep_distinct : Option (List Credential) → Option (List Credential)
keep_distinct none = none
keep_distinct (some credentials) = if are_distinct credentials then some credentials else none

abbrev load_value : Value → Option (List Credential)
load_value (object m) = if is_unique (object m) then keep_distinct (check_credentials m) else none
load_value _ = none

abbrev load_decoded : Option Value → Option (List Credential)
load_decoded none = none
load_decoded (some v) = load_value v

-- The environment's setting, or {} where it is empty or missing.
abbrev pub setting : Option String → String
setting none = "{}"
setting (some String.[]) = "{}"
setting (some (String.◌∷◌ c s)) = String.◌∷◌ c s

-- `none` is the RuntimeError that stops the application.
unfoldable pub load_gateway_credentials :
    (String → Option Value) → Option String → Option (List Credential)
unfolding check_credentials
load_gateway_credentials decode environment = load_decoded (decode (setting environment))

-- `split()`: the word that is being read, and the words behind it.
abbrev pub add_word : String → List String → List String
add_word String.[] words = words
add_word (String.◌∷◌ c w) words = String.◌∷◌ c w ∷ words

unfoldable pub split_from : String → String × List String
split_from String.[] = (String.[], [])
split_from (String.◌∷◌ c s) =
    let (word, words) = split_from s in
    if is_space (code c) then (String.[], add_word word words) else (String.◌∷◌ c word, words)

unfoldable pub split : String → List String
unfolding split_from
split s = let (word, words) = split_from s in add_word word words

abbrev pub lower : ℕ → ℕ
lower c = if is_between 65 90 c then c + 32 else c

-- `lower() == word`, where the word is of small letters
abbrev pub is_lower_as : String → String → Bool
is_lower_as String.[] String.[] = true
is_lower_as String.[] (String.◌∷◌ d w) = false
is_lower_as (String.◌∷◌ c s) String.[] = false
is_lower_as (String.◌∷◌ c s) (String.◌∷◌ d w) = nat_eq (lower (code c)) (code d) && is_lower_as s w

-- The loop over the credentials; the comparison of the encoded texts is that of the texts.
unfoldable pub find_gateway : String → List Credential → Option String
find_gateway supplied [] = none
find_gateway supplied ((g, t) ∷ rest) =
    if str_eq supplied t then some g else find_gateway supplied rest

abbrev pub resolve_parts : List Credential → List String → Option String
resolve_parts credentials (scheme ∷ supplied ∷ []) =
    if is_lower_as scheme "bearer" then find_gateway supplied credentials else none
resolve_parts credentials _ = none

-- The "authorization" headers of a request; `none` is the answer 401.
unfoldable pub resolve_gateway : List Credential → List String → Option String
unfolding split find_gateway
resolve_gateway credentials (header ∷ []) = resolve_parts credentials (split header)
resolve_gateway credentials _ = none
