-- ===== src/Core/Settings/Checked.antt =====
-- Proofs on the settings of core/config.py that are accepted.
use industrial_equipment_mon.Prelude.{
  ◌≤◌, ◌≡◌, refl, ap, ◌∙◌, inl, inr, String, true, false, ◌||◌, Option, none, some, List, [], ◌∷◌,
  arith, eq_string, All, Bool-cases,
}
use mathlib.Core.Path.{subst}
use industrial_equipment_mon.Prelude.Table.{lookup, lookup-insert}
use industrial_equipment_mon.Core.GatewayAuth.{starts_with}
use industrial_equipment_mon.Core.Settings.{
  Environment, Settings, configured, is_unset, unset, is_number, number_from, is_port, check_port,
  with_port, required, complete_url, parsed_url, variables, or_empty, variable_settings,
  complete_variables, database_conninfo,
}

abbrev pub IsGiven : Settings → String → Type 0
IsGiven settings name = is_unset (lookup name settings) ≡ false

-- A port between 1 and 65535, written in digits.
pub record HasPort (settings : Settings) : Type 0 where
  pub port : String
  pub found : lookup "port" settings ≡ some port
  pub digits : is_number port ≡ true
  pub low : 1 ≤ number_from 0 port
  pub high : number_from 0 port ≤ 65535

checked-HasPort :
    (s t : Settings) (o : Option String)
    → lookup "port" s ≡ o
    → check_port s o ≡ configured t
    → (s ≡ t) × HasPort t
checked-HasPort s t none found h = absurd (cc)
checked-HasPort s t (some port) found h = elim (Bool-cases (is_port port)) [
  | inr bad ↦ absurd (cc (rw bad at h))
  | inl good ↦
      let same : s ≡ t = cc (rw good at h) in
      (
        same,
        subst HasPort same (record {
          port = port;
          found = found;
          digits = ground (arith, good);
          low = ground (arith, good);
          high = ground (arith, good);
        }),
      )
]

unset_none :
    (get : String → Option String) (names : List String)
    → unset get names ≡ []
    → All (λ name. is_unset (get name) ≡ false) names
unfolding unset
unset_none get [] h = tt
unset_none get (name ∷ names) h = elim (Bool-cases (is_unset (get name))) [
  | inl missing ↦ absurd (cc (rw missing at h))
  | inr there ↦ (there, unset_none get names (rw there at h))
]

-- The settings have a host, a database, a user and a password that are not empty, and a port.
pub record IsComplete (t : Settings) : Type 0 where
  pub all_set : All (IsGiven t) required
  pub port : HasPort t

port_keeps :
    (s : Settings) (o : Option String) (name : String)
    → eq_string.beq "port" name ≡ false
    → IsGiven s name
    → IsGiven (with_port s o) name
port_keeps s none name other h =
    ap is_unset (lookup-insert "port" name "5432" s ∙ rw other refl) ∙ h
port_keeps s (some port) name other h = h

complete-IsComplete :
    (s t : Settings) (names : List String)
    → unset (λ name. lookup name s) required ≡ names
    → complete_url s names ≡ configured t
    → IsComplete t
complete-IsComplete s t (name ∷ names) none_missing h = absurd (cc)
complete-IsComplete s t [] none_missing h =
    let w = with_port s (lookup "port" s) in
    let (same, port) = checked-HasPort w t (lookup "port" w) refl h in
    let (host, (dbname, (user, (password, _)))) =
      unset_none (λ name. lookup name s) required none_missing in
    let o = lookup "port" s in
    record {
      all_set =
          subst (λ x. All (IsGiven x) required) same
            (
              port_keeps s o "host" refl host,
              (
                port_keeps s o "dbname" refl dbname,
                (port_keeps s o "user" refl user, (port_keeps s o "password" refl password, tt)),
              ),
            );
      port = port;
    }

parsed-IsComplete :
    (o : Option Settings) (t : Settings) → parsed_url o ≡ configured t → IsComplete t
parsed-IsComplete none t h = absurd (cc)
parsed-IsComplete (some s) t h = complete-IsComplete s t _ refl h

set_or_empty : (o : Option String) → is_unset o ≡ false → is_unset (some (or_empty o)) ≡ false
set_or_empty none h = h
set_or_empty (some s) h = h

variables-IsComplete :
    (env : Environment) (t : Settings) (names : List String)
    → unset env variables ≡ names
    → complete_variables env names ≡ configured t
    → IsComplete t
unfolding lookup
variables-IsComplete env t (name ∷ names) none_missing h = absurd (cc)
variables-IsComplete env t [] none_missing h =
    let (host, (port_set, (dbname, (user, (password, _))))) =
      unset_none env variables none_missing in
    let (same, port) =
      checked-HasPort (variable_settings env) t (lookup "port" (variable_settings env)) refl h in
    record {
      all_set =
          subst (λ x. All (IsGiven x) required) same
            (
              set_or_empty (env "PGHOST") host,
              (
                set_or_empty (env "PGDATABASE") dbname,
                (set_or_empty (env "PGUSER") user, (set_or_empty (env "PGPASSWORD") password, tt)),
              ),
            );
      port = port;
    }

-- Settings that are accepted, from the URL or from the variables, have a host, a database, a user and a
-- password that are not empty, and a port from 1 to 65535 written in digits.
pub configured_complete :
    (conninfo_to_dict : String → Option Settings) (env : Environment) (t : Settings)
    → database_conninfo conninfo_to_dict env ≡ configured t
    → IsComplete t
unfolding database_conninfo
configured_complete conninfo_to_dict env t h =
    let url = or_empty (env "DATABASE_URL") in
    elim (Bool-cases (is_unset (some url))) [
      | inl absent ↦ variables-IsComplete env t (unset env variables) refl (rw absent at h)
      | inr there ↦
          elim (Bool-cases (starts_with "postgresql://" url || starts_with "postgres://" url)) [
            | inl scheme ↦ parsed-IsComplete (conninfo_to_dict url) t (rw scheme at (rw there at h))
            | inr other ↦ absurd (cc (rw other at (rw there at h)))
          ]
    ]
