-- ===== src/Core/Settings.antt =====
-- core/config.py and db/session.py: the settings of the database. The reading of a PostgreSQL URL by
-- psycopg is a parameter; `make_conninfo` writes the settings as a text, which they stand for here.
pub mod Checked
use Prim.Native.Char.{code}
use industrial_equipment_mon.Prelude.{
  ℕ, ◌+◌, ◌-◌, ◌*◌, String, Bool, true, false, ◌&&◌, ◌||◌, not, Option, none, some, List, [], ◌∷◌,
  leb, is_none, eq_string, if◌then◌else◌,
}
use industrial_equipment_mon.Prelude.Table.{Table, lookup, insert}
use industrial_equipment_mon.Prelude.Texts.{concat}
use industrial_equipment_mon.Core.GatewayAuth.{starts_with, is_between}
use industrial_equipment_mon.Devices.Registration.{strip}

abbrev pub Environment : Type 0
Environment = String → Option String

abbrev pub Settings : Type 0
Settings = Table String String

pub data SettingsError : Type 0 where
  not_postgresql_url invalid_url bad_port : SettingsError
  url_is_missing variables_missing : List String → SettingsError

pub data Configured : Type 0 where
  configured : Settings → Configured
  refused : SettingsError → Configured

-- `not d.get(name)`: missing, or empty
abbrev pub is_unset : Option String → Bool
is_unset none = true
is_unset (some String.[]) = true
is_unset (some (String.◌∷◌ c s)) = false

unfoldable pub unset : (String → Option String) → List String → List String
unset get [] = []
unset get (name ∷ names) =
    let rest = unset get names in if is_unset (get name) then name ∷ rest else rest

abbrev pub is_digits : String → Bool
is_digits String.[] = true
is_digits (String.◌∷◌ c s) = is_between 48 57 (code c) && is_digits s

abbrev pub is_number : String → Bool
is_number String.[] = false
is_number (String.◌∷◌ c s) = is_digits (String.◌∷◌ c s)

-- `int(port)` of ASCII digits, behind the number read so far.
abbrev pub number_from : ℕ → String → ℕ
number_from n String.[] = n
number_from n (String.◌∷◌ c s) = number_from (n * 10 + (code c - 48)) s

abbrev pub is_port : String → Bool
is_port port = is_number port && leb 1 (number_from 0 port) && leb (number_from 0 port) 65535

abbrev pub check_port : Settings → Option String → Configured
check_port settings none = refused bad_port
check_port settings (some port) = if is_port port then configured settings else refused bad_port

-- `settings.setdefault("port", "5432")`
abbrev pub with_port : Settings → Option String → Settings
with_port settings none = insert "port" "5432" settings
with_port settings (some port) = settings

abbrev pub required : List String
required = "host" ∷ "dbname" ∷ "user" ∷ "password" ∷ []

abbrev pub complete_url : Settings → List String → Configured
complete_url settings (name ∷ names) = refused (url_is_missing (name ∷ names))
complete_url settings [] =
    let s = with_port settings (lookup "port" settings) in check_port s (lookup "port" s)

abbrev pub parsed_url : Option Settings → Configured
parsed_url none = refused invalid_url
parsed_url (some settings) = complete_url settings (unset (λ name. lookup name settings) required)

abbrev pub from_url : (String → Option Settings) → String → Configured
from_url conninfo_to_dict url =
    if starts_with "postgresql://" url || starts_with "postgres://" url
    then parsed_url (conninfo_to_dict url)
    else refused not_postgresql_url

abbrev pub variables : List String
variables = "PGHOST" ∷ "PGPORT" ∷ "PGDATABASE" ∷ "PGUSER" ∷ "PGPASSWORD" ∷ []

abbrev pub or_empty : Option String → String
or_empty none = ""
or_empty (some s) = s

abbrev pub variable_settings : Environment → Settings
variable_settings env =
    ("host", or_empty (env "PGHOST"))
    ∷ ("port", or_empty (env "PGPORT"))
    ∷ ("dbname", or_empty (env "PGDATABASE"))
    ∷ ("user", or_empty (env "PGUSER"))
    ∷ ("password", or_empty (env "PGPASSWORD"))
    ∷ []

abbrev pub complete_variables : Environment → List String → Configured
complete_variables env (name ∷ names) = refused (variables_missing (name ∷ names))
complete_variables env [] =
    let settings = variable_settings env in check_port settings (lookup "port" settings)

-- A URL is preferred to the variables.
unfoldable pub database_conninfo : (String → Option Settings) → Environment → Configured
unfolding unset
database_conninfo conninfo_to_dict env =
    let url = or_empty (env "DATABASE_URL") in
    if is_unset (some url)
    then complete_variables env (unset env variables)
    else from_url conninfo_to_dict url

-- `create_database_engine`: the settings that are passed to the driver.
unfoldable pub engine_settings : Settings → Settings
unfolding strip
engine_settings settings =
    let timed = insert "connect_timeout" "3" settings in
    insert "options"
      (strip (
        concat (or_empty (lookup "options" timed))
          " -c statement_timeout=5000 -c lock_timeout=5000 -c timezone=UTC"))
      timed
