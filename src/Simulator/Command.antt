-- ===== src/Simulator/Command.antt =====
-- The command lines of simulator/simulate.py and simulator/send_batch.py: the checks before a run, and
-- the exit status after it. Python's `urlsplit` is a parameter.
pub mod Status
use industrial_equipment_mon.Prelude.{
  ℕ, zero, suc, String, Bool, true, false, ◌&&◌, ◌||◌, not, Option, none, some, List, [], ◌∷◌, leb,
  str_eq, nat_eq, is_none, length, if◌then◌else◌,
}
use industrial_equipment_mon.Prelude.Texts.{split_parts}
use industrial_equipment_mon.Telemetry.Json.{Value, object, array, Members, get, values}
use industrial_equipment_mon.Core.GatewayAuth.{starts_with}
use industrial_equipment_mon.Simulator.Client.{is_blank}
use industrial_equipment_mon.Simulator.Run.{Summary, MqttSummary}

-- The parts of a URL; `has_port` is whether its port, if any, is a number in range.
pub record Url : Type 0 where
  pub scheme : String
  pub hostname : Option String
  pub username : Option String
  pub password : Option String
  pub query : String
  pub fragment : String
  pub has_port : Bool

abbrev pub is_absent : Option String → Bool
is_absent none = true
is_absent (some s) = is_blank s

abbrev pub is_target : Url → Bool
is_target u =
    (str_eq u.scheme "http" || str_eq u.scheme "https")
    && not (is_absent u.hostname)
    && is_none u.username
    && is_none u.password
    && is_blank u.query
    && is_blank u.fragment
    && u.has_port

abbrev pub is_set_token : String → Bool
is_set_token token = not (is_blank token) && not (starts_with "replace-with-" token)

abbrev pub is_valid_url : Option Url → Bool
is_valid_url none = false
is_valid_url (some u) = is_target u

-- `validate_target`: whether it returns.
unfoldable pub validate_target : (String → Option Url) → String → String → Bool
validate_target urlsplit base_url token = is_valid_url (urlsplit base_url) && is_set_token token

abbrev pub add_object : Members → Option (List Members) → Option (List Members)
add_object m none = none
add_object m (some ms) = some (m ∷ ms)

abbrev pub objects_of : List Value → Option (List Members)
objects_of [] = some []
objects_of (object m ∷ rest) = add_object m (objects_of rest)
objects_of (_ ∷ rest) = none

abbrev pub fixture_items : Option Value → Option (List Members)
fixture_items (some (array items)) =
    if leb 1 (length (values items)) && leb (length (values items)) 500
    then objects_of (values items)
    else none
fixture_items _ = none

-- The fixture of send_batch.py: a JSON object with 1 to 500 objects under "events".
unfoldable pub fixture_events : Option Value → Option (List Members)
fixture_events (some (object payload)) = fixture_items (get "events" payload)
fixture_events _ = none

abbrev pub is_rejected : String → Bool
is_rejected outcome = let (category, _) = split_parts 58 outcome in str_eq category "rejected"

-- `counts["rejected"]`
unfoldable pub rejected_count : List String → ℕ
rejected_count [] = 0
rejected_count (outcome ∷ rest) =
    let more = rejected_count rest in if is_rejected outcome then suc more else more

abbrev pub same_outcomes : List String → List String → Bool
same_outcomes [] [] = true
same_outcomes (x ∷ xs) (y ∷ ys) = str_eq x y && same_outcomes xs ys
same_outcomes _ _ = false

abbrev pub expected_outcomes : String → List String
expected_outcomes expect = let (first, rest) = split_parts 44 expect in first ∷ rest

abbrev pub is_success : Option String → List String → Bool
is_success none outcomes = nat_eq (rejected_count outcomes) 0
is_success (some expect) outcomes = same_outcomes outcomes (expected_outcomes expect)

abbrev pub posted_status : Option String → Option (List String) → ℕ
posted_status expect none = 1
posted_status expect (some outcomes) = if is_success expect outcomes then 0 else 1

abbrev pub fixture_status :
    Option (List Members) → (List Members → Option (List String)) → Option String → ℕ
fixture_status none post expect = 2
fixture_status (some events) post expect = posted_status expect (post events)

-- `main` of send_batch.py; `post` is `post_batch`, `none` where it raises.
unfoldable pub send_batch_status :
    (String → Option Url)
    → String
    → String
    → Option Value
    → (List Members → Option (List String))
    → Option String
    → ℕ
unfolding validate_target fixture_events rejected_count
send_batch_status urlsplit base_url token payload post expect =
    if validate_target urlsplit base_url token
    then fixture_status (fixture_events payload) post expect
    else 2

abbrev pub is_positive : ℕ → Bool
is_positive zero = false
is_positive (suc n) = true

abbrev pub exit_status : Bool → Bool → ℕ
exit_status cancelled failed = if cancelled then 130 else if failed then 1 else 0

-- The end of `main` of simulate.py, after a run that generates or sends over HTTP, and over MQTT.
unfoldable pub simulate_status : Summary → ℕ
simulate_status s =
    exit_status s.cancelled
      (is_positive s.failures || is_positive s.unconfirmed || is_positive s.counts.rejected)

unfoldable pub mqtt_status : MqttSummary → ℕ
mqtt_status s = exit_status s.cancelled (is_positive s.failures || is_positive s.unconfirmed)
