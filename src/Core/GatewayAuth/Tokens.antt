-- ===== src/Core/GatewayAuth/Tokens.antt =====
-- A bearer token authenticates the one gateway that it was given to.
use industrial_equipment_mon.Prelude.{
  String, ◌≡◌, ◌↔◌, refl, sym, ap, ◌∙◌, inl, inr, Bool, true, false, ◌&&◌, Option, none, some, List,
  [], ◌∷◌, arith, str_eq, str_eq_iff, Bool-cases, Option-cases, All,
}
use mathlib.Core.List.{Memᴰ}
use mathlib.Core.Path.{subst}
use industrial_equipment_mon.Telemetry.Json.{
  Value, null, boolean, integer, decimal, text, array, object, Members, end, member, is_unique,
}
use industrial_equipment_mon.Core.GatewayAuth.{
  Credential, is_gateway_id, is_credential_token, keep_credential, check_credentials, has_token,
  are_distinct, keep_distinct, load_gateway_credentials, setting, split, is_lower_as, find_gateway,
  resolve_gateway,
}

-- A credential as the setting may give it.
abbrev pub IsCredential : Credential → Type 0
IsCredential c = (is_gateway_id c.0 ≡ true) × (is_credential_token c.1 ≡ true)

keep_credential-All :
    (b : Bool) (c : Credential) (o : Option (List Credential)) (cs : List Credential)
    → keep_credential b c o ≡ some cs
    → (rest : List Credential) × (b ≡ true) × (o ≡ some rest) × (c ∷ rest ≡ cs)
keep_credential-All true c (some rest) cs h = (rest, refl, refl, ground arith)
keep_credential-All true c none cs h = absurd (ground arith)
keep_credential-All false c o cs h = absurd (ground arith)

check_credentials-All :
    (m : Members) (cs : List Credential) → check_credentials m ≡ some cs → All IsCredential cs
unfolding check_credentials
check_credentials-All end [] h = tt
check_credentials-All end (c ∷ cs) h = absurd (ground arith)
check_credentials-All (member g (text t) m) cs h =
    let (rest, each, others, same) =
      keep_credential-All (is_gateway_id g && is_credential_token t) (g, t) (check_credentials m) cs
        h in
    subst (All IsCredential) same
      ((ground arith, ground arith), check_credentials-All m rest others)
check_credentials-All (member g null m) cs h = absurd (ground arith)
check_credentials-All (member g (boolean v) m) cs h = absurd (ground arith)
check_credentials-All (member g (integer v) m) cs h = absurd (ground arith)
check_credentials-All (member g (decimal v) m) cs h = absurd (ground arith)
check_credentials-All (member g (array v) m) cs h = absurd (ground arith)
check_credentials-All (member g (object v) m) cs h = absurd (ground arith)

keep_distinct-some :
    (o : Option (List Credential)) (cs : List Credential)
    → keep_distinct o ≡ some cs
    → (o ≡ some cs) × (are_distinct cs ≡ true)
keep_distinct-some none cs h = absurd (ground arith)
keep_distinct-some (some c) cs h = ground arith

-- Credentials that load are each a gateway identifier with a bearer token that is no placeholder,
-- and no two gateways have the same token.
loaded_credentials :
    (decode : String → Option Value) (environment : Option String) (cs : List Credential)
    → load_gateway_credentials decode environment ≡ some cs
    → All IsCredential cs × (are_distinct cs ≡ true)
unfolding load_gateway_credentials
loaded_credentials decode environment cs h = elim (Option-cases (decode (setting environment))) [
  | inl missing ↦ absurd (ground arith)
  | inr (object m, there) ↦ elim (Bool-cases (is_unique (object m))) [
    | inl unique ↦
        let (checked, distinct) = keep_distinct-some (check_credentials m) cs (ground arith) in
        (check_credentials-All m cs checked, distinct)
    | inr repeated ↦ absurd (ground arith)
  ]
  | inr (_, there) ↦ absurd (ground arith)
]

find_gateway_sound :
    (t g : String) (cs : List Credential) → find_gateway t cs ≡ some g → Memᴰ (g, t) cs
unfolding find_gateway
find_gateway_sound t g [] h = absurd (ground arith)
find_gateway_sound t g ((g', t') ∷ rest) h = elim (Bool-cases (str_eq t t')) [
  | inl same ↦
      let e = (str_eq_iff t t').0 same in
      let f : g' ≡ g = ground arith in Memᴰ.head (rw (e, f) refl)
  | inr other ↦ Memᴰ.tail (find_gateway_sound t g rest (ground arith))
]

Memᴰ-has_token : (t g : String) (cs : List Credential) → Memᴰ (g, t) cs → has_token t cs ≡ true
Memᴰ-has_token t g [] k = elim k [ ]
Memᴰ-has_token t g ((g', t') ∷ rest) (Memᴰ.head e) =
    let same : t ≡ t' = ap (λ (c : Credential). c.1) e in ground (arith, str_eq_iff t' t)
Memᴰ-has_token t g ((g', t') ∷ rest) (Memᴰ.tail k) = ground (arith, Memᴰ-has_token t g rest k)

find_gateway_complete :
    (t g : String) (cs : List Credential)
    → are_distinct cs ≡ true
    → Memᴰ (g, t) cs
    → find_gateway t cs ≡ some g
unfolding find_gateway
find_gateway_complete t g [] h k = elim k [ ]
find_gateway_complete t g ((g', t') ∷ rest) h (Memᴰ.head e) =
    let same : t ≡ t' = ap (λ (c : Credential). c.1) e in
    let gate : g ≡ g' = ap (λ (c : Credential). c.0) e in ground (arith, str_eq_iff t t')
find_gateway_complete t g ((g', t') ∷ rest) h (Memᴰ.tail k) = ground (
  arith,
  str_eq_iff t t',
  Memᴰ-has_token t g rest k,
  find_gateway_complete t g rest (ground arith) k,
)

-- With credentials that have loaded, a request whose only authorization header has the scheme `bearer`,
-- in any case, and one token is resolved to a gateway exactly when the token was given to it.
pub resolves_own_gateway :
    (decode : String → Option Value) (environment : Option String) (cs : List Credential)
    (header scheme token gateway_id : String)
    → load_gateway_credentials decode environment ≡ some cs
    → split header ≡ scheme ∷ token ∷ []
    → is_lower_as scheme "bearer" ≡ true
    → (resolve_gateway cs (header ∷ []) ≡ some gateway_id) ↔ Memᴰ (gateway_id, token) cs
unfolding resolve_gateway
resolves_own_gateway decode environment cs header scheme token gateway_id loaded words bearer =
    let (_, distinct) = loaded_credentials decode environment cs loaded in
    let found : resolve_gateway cs (header ∷ []) ≡ find_gateway token cs =
      rw (words, bearer) refl in
    (
      (λ h. find_gateway_sound token gateway_id cs (sym found ∙ h)),
      (λ k. found ∙ find_gateway_complete token gateway_id cs distinct k),
    )
