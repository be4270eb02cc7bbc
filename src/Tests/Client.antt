-- ===== src/Tests/Client.antt =====
-- The theorems on the simulator's client at one event, and on a registration.
use industrial_equipment_mon.Prelude.{
  not, leb, Option, All, ℕ, String, ◌+◌, ◌≤◌, ◌≡◌, ◌⊎◌, refl, true, false, none, some, List, [],
  ◌∷◌, length, map, eq_string,
}
use industrial_equipment_mon.Prelude.Texts.{has_character, split_parts}
use industrial_equipment_mon.Prelude.Table.{lookup}
use industrial_equipment_mon.Decimal.{pos, eq_decimal}
use industrial_equipment_mon.Telemetry.Json.{
  Value, integer, text, array, object, nil, cons, Members, end, member, get, values, unique_members,
  is_unique, has_key,
}
use industrial_equipment_mon.Telemetry.Schemas.{TelemetryResponseItem}
use industrial_equipment_mon.Db.Models.{commit_confirmed, Database}
use industrial_equipment_mon.Telemetry.Repository.{lock_gateway_eligibility}
use industrial_equipment_mon.Telemetry.Ingest.{ingest_batch, committed}
use industrial_equipment_mon.Telemetry.Validation.{good, identifier_of, counter_of}
use industrial_equipment_mon.Telemetry.Validation.Item.{validate_telemetry_item}
use industrial_equipment_mon.Devices.Registration.{DeviceRegistration}
use industrial_equipment_mon.Devices.Schemas.{is_registration}
use industrial_equipment_mon.Devices.Schemas.Topic.{registered_topic}
use industrial_equipment_mon.Simulator.Run.{run_scenario, add_outcomes}
use industrial_equipment_mon.Simulator.Command.{Url, validate_target, simulate_status}
use industrial_equipment_mon.Simulator.Client.{
  py_eq, classify_response, classify_items, classify_item, echoes_identity,
}
use industrial_equipment_mon.Simulator.Client.Response.{encode_response, report}
use industrial_equipment_mon.Simulator.Client.Identity.{IsIdentified}
use industrial_equipment_mon.Simulator.Client.Confirmed.{client_confirms}
use industrial_equipment_mon.Simulator.Client.Safety.{IsResponse, reports_backed}
use industrial_equipment_mon.Simulator.Sending.{Reply, received, turns_of, category_of}
use industrial_equipment_mon.Simulator.Events.{
  Scenario, Sample, is_scenario, generate_events, samples_from, batches, slices,
}
use industrial_equipment_mon.Simulator.Events.Schedule.{flatten}
use industrial_equipment_mon.Simulator.Sending.Replies.{IsAnswered}
use industrial_equipment_mon.Simulator.Profile.{Floats, has_finite_bounds}
use industrial_equipment_mon.Simulator.Main.{
  http, Generator, Course, Arguments, event_of, exchanges, are_valid, main,
}
use industrial_equipment_mon.Simulator.Main.Clean.{http_run_confirms}
use industrial_equipment_mon.Simulator.Transport.{
  device_message, Connecting, acknowledged, Sending, confirmed, unconfirmed, new_publisher,
  connection_error,
}
use industrial_equipment_mon.Simulator.Transport.Message.{device_message_lem}
use industrial_equipment_mon.Simulator.Transport.Connected.{
  publish_run, acknowledged_count, run_connects_once,
}
use industrial_equipment_mon.Tests.Samples.{plant, server}
use industrial_equipment_mon.Tests.Ingest.{plant-IsSound}
use industrial_equipment_mon.Tests.Validation.{instants, payload}

identified : IsIdentified payload
unfolding identifier_of counter_of get
identified = record {
  device_id = "press";
  boot_id = "boot";
  sequence_number = 1;
  has_device = refl;
  has_boot = refl;
  has_sequence = refl;
}

client_confirms_example :
    (db' : Database) × (rs : List TelemetryResponseItem) × (ingest_batch server commit_confirmed
        plant "hall"
        (record {
          schema_version = 1;
          items = validate_telemetry_item instants (object payload) ∷ [];
        })
        "b1"
      ≡ (committed (record { batch_id = "b1"; results = rs }), db'))
    × (length rs ≡ 1)
    × (classify_response (payload ∷ []) (encode_response (record { batch_id = "b1"; results = rs }))
        ≡ some (map report rs))
unfolding lock_gateway_eligibility lookup
client_confirms_example =
    client_confirms instants (payload ∷ []) server plant "hall" "b1" refl (identified, tt)
      plant-IsSound refl

abbrev reply : Value
reply = object (
    member "batch_id" (text "b1") (
      member "results"
        (array (
          cons
            (object (
              member "device_id" (text "press") (
                member "boot_id" (text "boot") (
                  member "sequence_number" (integer (pos 1))
                    (member "outcome" (text "accepted") end)))))
            nil))
        end))

reads : classify_response (payload ∷ []) reply ≡ some ("accepted" ∷ [])
unfolding classify_response classify_items classify_item echoes_identity py_eq get values eq_decimal
reads = refl

reports_backed_example : IsResponse (payload ∷ []) reply ("accepted" ∷ [])
reports_backed_example = reports_backed (payload ∷ []) reply ("accepted" ∷ []) reads

-- Whole numbers in place of floating point.
abbrev whole : Floats
whole = record {
  Float = ℕ;
  is_finite = λ x. true;
  is_negative = λ x. false;
  below = λ x y. not (leb y x);
  plus = λ x y. x + y;
  minus = λ x y. x;
  times = λ x y. x;
  of_index = λ n. n;
  wave = λ n period. n;
}

abbrev urlsplit : String → Option Url
urlsplit url = some (record {
  scheme = "http";
  hostname = some "plant";
  username = none;
  password = none;
  query = "";
  fragment = "";
  has_port = true;
})

abbrev one_event : Scenario
one_event = record {
  device_id = "press";
  run_id = "run";
  boot_id = none;
  events = 1;
  interval_ms = 1000;
  start_time = 0;
  reboot_every = 0;
}

abbrev arguments : Arguments whole urlsplit 4000000
arguments = record {
  scenario = one_event;
  has_start = true;
  profile = record {
    kind = "constant";
    temperature = 25;
    step = 0;
    amplitude = 5;
    period = 60;
    noise = 0;
  };
  batch_size = 100;
  timeout = 30;
  mode = http;
  api_base_url = none;
  token = "first";
  mqtt_host = "127.0.0.1";
  mqtt_port = pos 1883;
  mqtt_username = none;
  mqtt_password_file = none;
}

-- An identifier, an instant and a temperature from the libraries.
abbrev generator : Generator
generator = record {
  derive = λ s n. "boot";
  isoformat = λ at. "2026-01-01T00:00:00.000000Z";
  temperature = λ s x. integer (pos 25);
}

-- The server answers for the number 0 of the boot.
abbrev confirmation_of : Value
confirmation_of = object (
    member "batch_id" (text "b1") (
      member "results"
        (array (
          cons
            (object (
              member "device_id" (text "press") (
                member "boot_id" (text "boot") (
                  member "sequence_number" (integer (pos 0))
                    (member "outcome" (text "accepted") end)))))
            nil))
        end))

abbrev course : Course
course = record {
  printed = [];
  replies = λ k. received confirmation_of;
  publishes = [];
  has_library = true;
}

abbrev sent : List (List Sample) → List (List Members × Reply)
sent bs = exchanges (event_of generator one_event) course.replies 0 bs

exits : main whole urlsplit 4000000 generator arguments course ≡ 0
unfolding main are_valid is_scenario has_finite_bounds validate_target simulate_status run_scenario
    turns_of classify_response classify_items classify_item echoes_identity py_eq get values
    category_of split_parts eq_decimal add_outcomes batches slices generate_events samples_from
exits = refl

http_run_confirms_example :
    (bs : List (List Sample)) × (flatten bs ≡ generate_events generator.derive one_event)
    × All IsAnswered (sent bs)
    × ((run_scenario 1 (turns_of (sent bs))).counts.accepted
          + (run_scenario 1 (turns_of (sent bs))).counts.duplicate
        ≡ 1)
http_run_confirms_example =
    http_run_confirms whole urlsplit 4000000 generator arguments course refl exits

-- One publish is acknowledged, and the next is not.
abbrev later : List (Connecting × Sending)
later = (acknowledged 0, unconfirmed) ∷ []

run_connects_once_example :
    ((publish_run ((acknowledged 0, confirmed) ∷ later) new_publisher).1.connects ≡ 1)
    × (acknowledged_count (publish_run ((acknowledged 0, confirmed) ∷ later) new_publisher).0
        ≤ (publish_run ((acknowledged 0, confirmed) ∷ later) new_publisher).1.publishes)
    × ((publish_run ((acknowledged 0, confirmed) ∷ later) new_publisher).1.publishes
        ≤ acknowledged_count (publish_run ((acknowledged 0, confirmed) ∷ later) new_publisher).0
          + 1)
    × ((connection_error (acknowledged 0) ≡ none)
        ⊎ ((publish_run ((acknowledged 0, confirmed) ∷ later) new_publisher).1.publishes ≡ 0))
run_connects_once_example = run_connects_once (acknowledged 0) confirmed later

abbrev drill : DeviceRegistration
drill = record {
  device_id = "drill_2";
  gateway_id = "hall";
  name = "Drill";
  password = "twelve_chars_";
}

registered_topic_example :
    (has_character 47 "drill_2" ≡ false)
    × (has_character 43 "drill_2" ≡ false)
    × (has_character 35 "drill_2" ≡ false)
    × (identifier_of (text "drill_2") ≡ good "drill_2")
unfolding is_registration
registered_topic_example = registered_topic drill refl

device_message_lem_example : get "metric" (device_message payload) ≡ some (text "temperature")
unfolding get unique_members is_unique has_key
device_message_lem_example = device_message_lem "metric" payload refl
