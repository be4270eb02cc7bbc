-- ===== src/Tests/Broker.antt =====
-- A broker that keeps its accounts in a table, and the theorem on foreign accounts at it.
use industrial_equipment_mon.Prelude.{
  ◌≡◌, refl, ◌∙◌, String, Bool, true, false, Option, none, some, [], ◌∷◌, arith, eq_string, str_eq,
}
use industrial_equipment_mon.Prelude.Table.{
  Table, lookup, insert, erase, lookup-insert, lookup-erase,
}
use industrial_equipment_mon.Broker
use industrial_equipment_mon.Broker.{
  Answer, answered, ErrorField, no_error, error_text, ClientField, no_client, a_client, ok, Broker,
  Command, get_client, get_role, create_role, create_client, set_client_password, disable_client,
  enable_client, delete_client, Client, Response, command_name, is_managed,
}
use industrial_equipment_mon.Broker.Accounts.{Dynsec, writes_to, foreign_account_untouched}

abbrev pub Accounts : Type 0
Accounts = Table String Client

abbrev pub answer : Command → ErrorField → ClientField → Answer
answer c error client =
    answered (record { command = command_name c; error = error; client = client })

abbrev found : Option Client → ClientField
found none = no_client
found (some client) = a_client client

abbrev not_found : Option Client → ErrorField
not_found none = error_text "Client not found"
not_found (some client) = no_error

abbrev set_disabled : String → Bool → Option Client → Accounts → Accounts
set_disabled u disabled none t = t
set_disabled u disabled (some client) t = insert u (record client { disabled = disabled }) t

abbrev add_client : String → String → Option Client → Accounts → Accounts
add_client u role none t = insert u (record { disabled = false; roles = some (role ∷ []) }) t
add_client u role (some client) t = t

abbrev already_exists : Option Client → ErrorField
already_exists none = no_error
already_exists (some client) = error_text "Client already exists"

abbrev pub table_exchange : Command → Accounts → Answer × Accounts
table_exchange (get_client u) t =
    (answer (get_client u) (not_found (lookup u t)) (found (lookup u t)), t)
table_exchange (get_role r) t = (answer (get_role r) no_error no_client, t)
table_exchange (create_role r a) t = (answer (create_role r a) no_error no_client, t)
table_exchange (create_client u p r) t = (
  answer (create_client u p r) (already_exists (lookup u t)) no_client,
  add_client u r (lookup u t) t,
)
table_exchange (set_client_password u p) t =
    (answer (set_client_password u p) (not_found (lookup u t)) no_client, t)
table_exchange (disable_client u) t = (
  answer (disable_client u) (not_found (lookup u t)) no_client,
  set_disabled u true (lookup u t) t,
)
table_exchange (enable_client u) t = (
  answer (enable_client u) (not_found (lookup u t)) no_client,
  set_disabled u false (lookup u t) t,
)
table_exchange (delete_client u) t =
    (answer (delete_client u) (not_found (lookup u t)) no_client, erase u t)

abbrev pub table_broker : Broker
table_broker = record {
  State = Accounts;
  exchange = table_exchange;
  legacy_accounts = λ t. ok [];
  verify_login = λ u p t. some false;
}

set_disabled-lookup :
    (u v : String) (b : Bool) (o : Option Client) (t : Accounts)
    → str_eq u v ≡ false
    → lookup v (set_disabled u b o t) ≡ lookup v t
set_disabled-lookup u v b none t h = refl
set_disabled-lookup u v b (some client) t h =
    lookup-insert u v (record client { disabled = b }) t ∙ rw h refl

add_client-lookup :
    (u v role : String) (o : Option Client) (t : Accounts)
    → str_eq u v ≡ false
    → lookup v (add_client u role o t) ≡ lookup v t
add_client-lookup u v role none t h =
    lookup-insert u v (record { disabled = false; roles = some (role ∷ []) }) t ∙ rw h refl
add_client-lookup u v role (some client) t h = refl

table_only_named :
    (c : Command) (t : Accounts) (v : String)
    → writes_to v c ≡ false
    → lookup v (table_exchange c t).1 ≡ lookup v t
table_only_named (get_client u) t v h = refl
table_only_named (get_role r) t v h = refl
table_only_named (create_role r a) t v h = refl
table_only_named (create_client u p r) t v h = add_client-lookup u v r (lookup u t) t h
table_only_named (set_client_password u p) t v h = refl
table_only_named (disable_client u) t v h = set_disabled-lookup u v true (lookup u t) t h
table_only_named (enable_client u) t v h = set_disabled-lookup u v false (lookup u t) t h
table_only_named (delete_client u) t v h = lookup-erase u v t ∙ rw h refl

table_reports :
    (t : Accounts) (u : String) (client : Client) (r : Response)
    → lookup u t ≡ some client
    → (table_exchange (get_client u) t).0 ≡ answered r
    → (r.error ≡ no_error) × (r.client ≡ a_client client)
table_reports t u client r h k = ground (arith)

abbrev table_dynsec : Dynsec table_broker
table_dynsec = record {
  account = λ t u. lookup u t;
  only_named = table_only_named;
  reports = table_reports;
}

abbrev pub operator : Client
operator = record { disabled = false; roles = some ("admin" ∷ []) }

abbrev pub accounts : Accounts
accounts = ("operator", operator) ∷ []

foreign_account_untouched_example :
    (lookup "operator" (Broker.create_device table_broker "operator" "secret" accounts).1
      ≡ some operator)
    × (lookup "operator" (Broker.ensure_device table_broker "operator" "secret" accounts).1
        ≡ some operator)
    × (lookup "operator" (Broker.disable_device table_broker "operator" accounts).1 ≡ some operator)
unfolding lookup is_managed
foreign_account_untouched_example =
    foreign_account_untouched table_broker table_dynsec "operator" "operator" "secret" operator
      accounts refl refl
