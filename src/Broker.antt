-- ===== src/Broker.antt =====
-- integrations/mqtt.py: device accounts in Mosquitto's dynamic security. The exchange of a
-- command, the file of older accounts and the login probe are the parameter `Broker`, whose source is
-- modelled in Broker/Exchange; `BrokerAdmin`'s methods are actions over its state, which stays changed
-- where a later step raises.
pub mod Accounts
pub mod Exchange
use industrial_equipment_mon.Prelude.{
  ℕ, String, Bool, true, false, ◌&&◌, ◌||◌, not, Option, none, some, List, [], ◌∷◌, str_eq, is_none,
  if◌then◌else◌,
}

abbrev pub device_role : String
device_role = "iemp-device-publisher"

abbrev pub device_acl : String
device_acl = "equipment/%u/telemetry"

-- The commands that are sent on the control topic.
pub data Command : Type 0 where
  get_client : String → Command
  get_role : String → Command
  create_role : String → String → Command
  create_client : String → String → String → Command
  set_client_password : String → String → Command
  disable_client enable_client delete_client : String → Command

-- `command["command"]`
abbrev pub command_name : Command → String
command_name (get_client _) = "getClient"
command_name (get_role _) = "getRole"
command_name (create_role _ _) = "createRole"
command_name (create_client _ _ _) = "createClient"
command_name (set_client_password _ _) = "setClientPassword"
command_name (disable_client _) = "disableClient"
command_name (enable_client _) = "enableClient"
command_name (delete_client _) = "deleteClient"

-- The client object of a response: whether its "disabled" is true, and the names of the roles that are
-- objects; `none` where its "roles" cannot be iterated.
pub record Client : Type 0 where
  pub disabled : Bool
  pub roles : Option (List String)

-- The "error" of a response.
pub data ErrorField : Type 0 where
  no_error null_error other_error : ErrorField
  error_text : String → ErrorField

-- The "client" in the "data" of a response: an object; none; or no lookup, as "data" is no object.
pub data ClientField : Type 0 where
  a_client : Client → ClientField
  no_client no_lookup : ClientField

-- A response that is an object; its command is empty where it is no text.
pub record Response : Type 0 where
  pub command : String
  pub error : ErrorField
  pub client : ClientField

-- How `_request` ends: it is not confirmed in time; it raises another exception, or its first response
-- is no object; or its first response is an object.
pub data Answer : Type 0 where
  not_confirmed not_read : Answer
  answered : Response → Answer

-- `crashed` is an exception of another type: an AttributeError, a TypeError or a UnicodeDecodeError.
pub data Error : Type 0 where
  unavailable conflict crashed : Error

pub data Result (A : Type 0) : Type 0 where
  ok : A → Result A
  err : Error → Result A

-- `exchange` is `_request` with one command.
-- `legacy_accounts` are the names in the file of older accounts, and `verify_login` the login probe.
pub record Broker : Type 1 where
  pub State : Type 0
  pub exchange : Command → State → Answer × State
  pub legacy_accounts : State → Result (List String)
  pub verify_login : String → String → State → Option Bool

module _ (b : Broker) where
  open b use {State}

  abbrev pub Action : Type 0 → Type 0
  Action A = State → Result A × State

module _ {S A : Type 0} where
  abbrev pub pure : A → S → Result A × S
  pure a s = (ok a, s)

  abbrev pub raise : Error → S → Result A × S
  raise e s = (err e, s)

  -- A read that may raise `BrokerUnavailable`.
  abbrev pub or_unavailable : Option A → S → Result A × S
  or_unavailable none s = (err unavailable, s)
  or_unavailable (some a) s = (ok a, s)

  -- A read that may raise.
  abbrev pub from_result : Result A → S → Result A × S
  from_result x s = (x, s)

  -- A choice by a test that may raise a TypeError.
  abbrev pub if_managed : Option Bool → (S → Result A × S) → (S → Result A × S) → S → Result A × S
  if_managed none m n s = (err crashed, s)
  if_managed (some true) m n s = m s
  if_managed (some false) m n s = n s

module _ {S A B : Type 0} where
  abbrev pub continue : Result A → (A → S → Result B × S) → S → Result B × S
  continue (ok a) f s = f a s
  continue (err e) f s = (err e, s)

  infixl 5 ◌>>=◌ ◌>>◌
  abbrev pub ◌>>=◌ : (S → Result A × S) → (A → S → Result B × S) → S → Result B × S
  ◌>>=◌ m f s = let (r, s') = m s in continue r f s'

  abbrev pub ◌>>◌ : (S → Result A × S) → (S → Result B × S) → S → Result B × S
  ◌>>◌ m n = m >>= λ _. n

abbrev pub contains : String → List String → Bool
contains a [] = false
contains a (x ∷ xs) = if str_eq x a then true else contains a xs

-- `error in (None, tolerated)`
abbrev pub tolerates : String → ErrorField → Bool
tolerates tolerated no_error = true
tolerates tolerated null_error = true
tolerates tolerated other_error = false
tolerates tolerated (error_text e) = str_eq e tolerated

abbrev pub is_error : String → ErrorField → Bool
is_error text (error_text e) = str_eq e text
is_error text _ = false

-- `"error" not in response`
abbrev pub is_absent : ErrorField → Bool
is_absent no_error = true
is_absent _ = false

abbrev pub has_device_role : Option (List String) → Option Bool
has_device_role none = none
has_device_role (some roles) = some (contains device_role roles)

unfoldable pub is_managed : Client → Option Bool
is_managed client = has_device_role client.roles

module _ (b : Broker) where
  open b use {State, exchange, legacy_accounts, verify_login}

  abbrev pub confirmed : Command → Answer → State → Result Response × State
  confirmed command not_confirmed s = (err unavailable, s)
  confirmed command not_read s = (err crashed, s)
  confirmed command (answered response) s =
      if str_eq response.command (command_name command)
      then (ok response, s)
      else (err unavailable, s)

  unfoldable pub one : Command → Action b Response
  one command s = let (response, s') = exchange command s in confirmed command response s'

  abbrev pub client_of : ClientField → State → Result (Option Client) × State
  client_of no_client s = (err unavailable, s)
  client_of no_lookup s = (err crashed, s)
  client_of (a_client client) s = (ok (some client), s)

  abbrev pub found_client : Response → State → Result (Option Client) × State
  found_client response =
      if is_error "Client not found" response.error
      then pure none
      else if not (is_absent response.error)
      then raise unavailable
      else client_of response.client

  unfoldable pub get_client_of : String → Action b (Option Client)
  unfolding one
  get_client_of username = do response ← one (get_client username); found_client response

  unfoldable pub ensure_role : Action b (Unit {0})
  unfolding one
  ensure_role = do
    response ← one (get_role device_role)
    if is_absent response.error
        then pure tt
        else if not (is_error "Role not found" response.error)
        then raise unavailable
        else do
          created ← one (create_role device_role device_acl)
          if tolerates "Role already exists" created.error then pure tt else raise unavailable

  unfoldable pub delete_device : String → Action b (Unit {0})
  unfolding one
  delete_device device_id = do
    response ← one (delete_client device_id)
    if tolerates "Client not found" response.error then pure tt else raise unavailable

  unfoldable pub enable_device : String → Action b (Unit {0})
  unfolding one
  enable_device device_id = do
    response ← one (enable_client device_id)
    if is_absent response.error then pure tt else raise unavailable

  -- A disabled account of ours is an orphan, which a new registration clears.
  unfoldable pub clear_orphan : String → Option Client → Action b (Unit {0})
  unfolding delete_device is_managed
  clear_orphan device_id none = pure tt
  clear_orphan device_id (some existing) =
      if existing.disabled
      then if_managed (is_managed existing) (delete_device device_id) (raise conflict)
      else raise conflict

  -- The account is made anew: the role, then the client.
  unfoldable pub create_account : String → String → Action b Bool
  unfolding ensure_role one
  create_account device_id password = do
    ensure_role
    response ← one (create_client device_id password device_role)
    if is_error "Client already exists" response.error
        then raise conflict
        else if not (is_absent response.error)
        then raise unavailable
        else pure true

  -- Whether a new managed account was created; an older file account with this password is kept.
  unfoldable pub create_device : String → String → Action b Bool
  unfolding get_client_of clear_orphan create_account
  create_device device_id password = do
    existing ← get_client_of device_id
    clear_orphan device_id existing
    accounts ← λ s. from_result (legacy_accounts s) s
    if not (contains device_id accounts) then create_account device_id password else do
      accepted ← λ s. or_unavailable (verify_login device_id password s) s
      if accepted then pure false else raise conflict

  abbrev pub set_password : String → String → Client → Action b Bool
  set_password device_id password existing = do
    response ← one (set_client_password device_id password)
    if not (is_absent response.error)
        then raise unavailable
        else if existing.disabled
        then (do enable_device device_id; pure true)
        else pure true

  abbrev pub align_account : String → String → Option Client → Action b Bool
  align_account device_id password none = create_device device_id password
  align_account device_id password (some existing) =
      if_managed (is_managed existing) (set_password device_id password existing) (raise conflict)

  unfoldable pub ensure_device : String → String → Action b Bool
  unfolding get_client_of create_device enable_device one is_managed
  ensure_device device_id password = do
    existing ← get_client_of device_id
    align_account device_id password existing

  abbrev pub disable_managed : String → Action b Bool
  disable_managed device_id = do
    response ← one (disable_client device_id)
    if not (is_absent response.error) then raise unavailable else pure true

  abbrev pub disable_found : String → Option Client → Action b Bool
  disable_found device_id none = pure false
  disable_found device_id (some existing) =
      if_managed (is_managed existing) (disable_managed device_id) (raise conflict)

  unfoldable pub disable_device : String → Action b Bool
  unfolding get_client_of one is_managed
  disable_device device_id = do existing ← get_client_of device_id; disable_found device_id existing
