-- ===== src/Tests/Exchange.antt =====
-- The theorems on a request to the broker at one command.
use industrial_equipment_mon.Prelude.{
  ◌≡◌, refl, true, false, none, some, List, [], ◌∷◌, ◌++◌, eq_string,
}
use industrial_equipment_mon.Telemetry.Json.{
  Value, text, array, object, Items, nil, cons, Members, end, member, get, values,
}
use industrial_equipment_mon.Devices.Registration.{strip, lstrip, rstrip}
use industrial_equipment_mon.Broker.{ok}
use industrial_equipment_mon.Broker.Exchange.{
  content, Callback, connected, subscribed, message, tokens_of, run_callbacks, request,
}
use industrial_equipment_mon.Broker.Exchange.Matching.{Answers, Matched, request_matches}
use industrial_equipment_mon.Broker.Exchange.Answered.{answered_request}

abbrev answer : Value
answer = object (member "correlationData" (text "t") end)

abbrev answers : Items
answers = cons answer nil

abbrev body : Members
body = member "responses" (array answers) end

-- The connection, the subscription, a text that is no JSON, and the answer.
abbrev before : List Callback
before = connected false ∷ subscribed (false ∷ []) true ∷ message none ∷ []

abbrev callbacks : List Callback
callbacks = before ++ message (some (object body)) ∷ []

returns : request ("t" ∷ []) (content "admin") true callbacks ≡ ok (answer ∷ [])
unfolding request run_callbacks tokens_of strip lstrip rstrip get values
returns = refl

request_matches_example : Matched ("t" ∷ []) (answer ∷ []) callbacks
request_matches_example =
    request_matches ("t" ∷ []) (content "admin") true callbacks (answer ∷ []) returns

body-Answers : Answers ("t" ∷ []) (object body) (answer ∷ [])
unfolding tokens_of get values
body-Answers = record {
  body = body;
  items = answers;
  is_object = refl;
  found = refl;
  tokens = refl;
  same = refl;
}

answered_request_example :
    (returned : List Value) × (request ("t" ∷ []) (content "admin") true callbacks ≡ ok returned)
unfolding strip lstrip rstrip
answered_request_example =
    answered_request ("t" ∷ []) "admin" before [] (object body) (answer ∷ []) refl refl body-Answers
