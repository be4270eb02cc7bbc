-- ===== src/Broker/Exchange.antt =====
-- integrations/mqtt.py, the connections of `BrokerAdmin`: `_request`, `_verify_login` and the file of
-- older accounts. What the MQTT library calls back is a list of callbacks, those that come before its
-- loop is stopped; the correlation tokens are the random ones of the commands.
pub mod Matching
pub mod Answered
use Prim.Native.Char.{code}
use industrial_equipment_mon.Prelude.{
  ℕ, String, Bool, true, false, ◌&&◌, ◌||◌, not, Option, none, some, List, [], ◌∷◌, str_eq, nat_eq,
  if◌then◌else◌,
}
use industrial_equipment_mon.Telemetry.Json.{
  Value, null, boolean, integer, decimal, text, array, object, Items, nil, cons, Members, get,
  values,
}
use industrial_equipment_mon.Devices.Registration.{strip, is_empty}
use industrial_equipment_mon.Broker.{Error, unavailable, crashed, Result, ok, err, contains}

-- `line.partition(":")[0]`
unfoldable pub before_colon : String → String
before_colon String.[] = String.[]
before_colon (String.◌∷◌ c s) =
    if nat_eq (code c) 58 then String.[] else String.◌∷◌ c (before_colon s)

abbrev pub account_names : List String → List String
account_names [] = []
account_names (line ∷ lines) = before_colon line ∷ account_names lines

-- Reading a file: an OSError, which the code catches; a text that is not UTF-8, which it does not; or
-- the content.
pub data FileText (A : Type 0) : Type 0 where
  unreadable undecodable : FileText A
  content : A → FileText A

-- Over the lines of the file.
unfoldable pub legacy_account_exists : FileText (List String) → String → Result Bool
unfolding before_colon
legacy_account_exists unreadable username = err unavailable
legacy_account_exists undecodable username = err crashed
legacy_account_exists (content lines) username = ok (contains username (account_names lines))

-- A callback of the login probe: the broker's answer, which may be a failure, or no connection.
pub data LoginCallback : Type 0 where
  login_answered : Bool → LoginCallback
  login_connect_failed : LoginCallback

abbrev pub on_login : LoginCallback → Option Bool → Option Bool
on_login (login_answered is_failure) accepted = some (not is_failure)
on_login login_connect_failed accepted = accepted

unfoldable pub login_result : List LoginCallback → Option Bool → Option Bool
login_result [] accepted = accepted
login_result (callback ∷ rest) accepted = login_result rest (on_login callback accepted)

abbrev pub or_unconfirmed : {A : Type 0} → Option A → Result A
or_unconfirmed none = err unavailable
or_unconfirmed (some a) = ok a

-- `connects`: whether `connect_async` and the loop start without an exception.
unfoldable pub verify_login : Bool → List LoginCallback → Result Bool
unfolding login_result
verify_login connects callbacks =
    if connects then or_unconfirmed (login_result callbacks none) else err unavailable

-- A callback of a request. A subscription is answered by reason codes, of which some may be failures,
-- and the commands are then published, which the library may refuse. A message is decoded from JSON.
pub data Callback : Type 0 where
  connected : Bool → Callback
  connect_failed : Callback
  subscribed : List Bool → Bool → Callback
  message : Option Value → Callback

-- The request so far: what it has asked of the library, whether it is over, its result, and whether an
-- exception has ended the library's loop.
pub record Exchange : Type 0 where
  pub subscribing : Bool
  pub published : Bool
  pub finished : Bool
  pub broken : Bool
  pub result : Option (List Value)

abbrev pub opened : Exchange
opened = record {
  subscribing = false;
  published = false;
  finished = false;
  broken = false;
  result = none;
}

abbrev pub on_connect : Bool → Exchange → Exchange
on_connect true x = record x { finished = true }
on_connect false x = record x { subscribing = true }

abbrev pub any_failure : List Bool → Bool
any_failure [] = false
any_failure (b ∷ bs) = b || any_failure bs

abbrev pub on_subscribe : List Bool → Bool → Exchange → Exchange
on_subscribe reasons queued x =
    if any_failure reasons
    then record x { finished = true }
    else if queued
    then record x { published = true }
    else record x { published = true; finished = true }

-- `item.get("correlationData")`, which the set refuses where it is a list or an object.
abbrev pub token : Option Value → Option Value
token none = some null
token (some (array xs)) = none
token (some (object m)) = none
token (some v) = some v

abbrev pub add_token : Option Value → Option (List Value) → Option (List Value)
add_token (some v) (some vs) = some (v ∷ vs)
add_token _ _ = none

-- The tokens of the objects among the responses; `none` is the TypeError.
unfoldable pub tokens_of : List Value → Option (List Value)
tokens_of [] = some []
tokens_of (object m ∷ rest) = add_token (token (get "correlationData" m)) (tokens_of rest)
tokens_of (_ ∷ rest) = tokens_of rest

abbrev pub is_expected : List String → Value → Bool
is_expected expected (text s) = contains s expected
is_expected expected _ = false

abbrev pub all_expected : List String → List Value → Bool
all_expected expected [] = true
all_expected expected (v ∷ vs) = is_expected expected v && all_expected expected vs

abbrev pub has_text : String → List Value → Bool
has_text s [] = false
has_text s (text t ∷ vs) = str_eq t s || has_text s vs
has_text s (_ ∷ vs) = has_text s vs

abbrev pub all_there : List String → List Value → Bool
all_there [] vs = true
all_there (s ∷ ss) vs = has_text s vs && all_there ss vs

-- The tokens are, as a set, the expected ones.
abbrev pub same_tokens : List String → Option (List Value) → Bool
same_tokens expected none = false
same_tokens expected (some vs) = all_expected expected vs && all_there expected vs

abbrev pub on_responses : List String → Option Value → Exchange → Exchange
on_responses expected (some (array items)) x =
    if same_tokens expected (tokens_of (values items))
    then record x { result = some (values items); finished = true }
    else x
on_responses expected _ x = x

-- A value that is no object has no `get`, and the exception ends the loop.
abbrev pub on_message : List String → Option Value → Exchange → Exchange
on_message expected none x = x
on_message expected (some (object payload)) x = on_responses expected (get "responses" payload) x
on_message expected (some _) x = record x { broken = true }

abbrev pub on_callback : List String → Callback → Exchange → Exchange
on_callback expected (connected is_failure) x = on_connect is_failure x
on_callback expected connect_failed x = record x { finished = true }
on_callback expected (subscribed reasons queued) x = on_subscribe reasons queued x
on_callback expected (message payload) x = on_message expected payload x

unfoldable pub run_callbacks : List String → List Callback → Exchange → Exchange
unfolding tokens_of
run_callbacks expected [] x = x
run_callbacks expected (callback ∷ rest) x =
    let y = run_callbacks expected rest (on_callback expected callback x) in
    if x.broken then x else y

abbrev pub exchange : List String → Bool → List Callback → Result (List Value)
exchange expected connects callbacks =
    if connects
    then or_unconfirmed (run_callbacks expected callbacks opened).result
    else err unavailable

-- `admin_password` is the password file.
unfoldable pub request : List String → FileText String → Bool → List Callback → Result (List Value)
unfolding run_callbacks strip
request expected unreadable connects callbacks = err unavailable
request expected undecodable connects callbacks = err crashed
request expected (content admin_password) connects callbacks =
    if is_empty (strip admin_password)
    then err unavailable
    else exchange expected connects callbacks
