-- ===== src/Simulator/Main.antt =====
-- simulator/simulate.py, `main`: the checks of the arguments, the run in its mode, and the exit status.
-- Arguments have the types that argparse gives them; how the sends and publishes of a run go is an input.
pub mod Clean
use industrial_equipment_mon.Prelude.{
  ℕ, String, Bool, true, false, ◌&&◌, not, Option, none, some, List, [], ◌∷◌, map, suc,
  if◌then◌else◌,
}
use industrial_equipment_mon.Decimal.{ℤ, pos}
use industrial_equipment_mon.Telemetry.Json.{Value, integer, text, object, Members, end, member}
use industrial_equipment_mon.Simulator.Client.{is_blank}
use industrial_equipment_mon.Simulator.Events.{
  Scenario, Sample, is_integer, is_scenario, generate_events, batches,
}
use industrial_equipment_mon.Simulator.Profile.{
  Floats, TemperatureProfile, is_profile, has_finite_bounds,
}
use industrial_equipment_mon.Simulator.Command.{Url, validate_target, simulate_status, mqtt_status}
use industrial_equipment_mon.Simulator.Transport.{Target, accepted, refused, validate_mqtt_target}
use industrial_equipment_mon.Simulator.Run.{
  Publish, run_scenario, run_without_sender, run_mqtt_scenario,
}
use industrial_equipment_mon.Simulator.Sending.{Reply, turns_of}

pub data Mode : Type 0 where
  generate http mqtt : Mode

-- `value or default`
abbrev pub or_given : String → Option String → String
or_given default none = default
or_given default (some s) = if is_blank s then default else s

abbrev pub is_accepted : Target → Bool
is_accepted (accepted password) = true
is_accepted (refused e) = false

-- No file is given, or the file's text, which may not be readable.
abbrev pub is_mqtt_target : String → String → ℤ → String → Option (Option String) → Bool
is_mqtt_target device_id host port username none = false
is_mqtt_target device_id host port username (some content) =
    is_accepted (validate_mqtt_target device_id host port username content)

-- What `generate_events` takes from the libraries: the derived boot identifiers, the text of an instant
-- with a final Z, and the rounded temperature of a sample as a JSON number.
pub record Generator : Type 0 where
  pub derive : Scenario → ℕ → String
  pub isoformat : ℕ → String
  pub temperature : Scenario → Sample → Value

-- One event as `generate_events` yields it.
abbrev pub event_of : Generator → Scenario → Sample → Members
event_of g s x = member "device_id" (text s.device_id) (
    member "boot_id" (text x.boot_id) (
      member "sequence_number" (integer (pos x.sequence_number)) (
        member "measured_at" (text (g.isoformat x.measured_at)) (
          member "device_uptime_ms" (integer (pos x.device_uptime_ms)) (
            member "gateway_received_at" (text (g.isoformat x.measured_at)) (
              member "metric" (text "temperature") (
                member "value" (g.temperature s x) (
                  member "unit" (text "celsius") (
                    member "quality"
                      (object (
                        member "reading" (text "valid") (member "clock" (text "synchronised") end)))
                      end)))))))))

-- Each batch, counted from a number on, with the reply to it.
abbrev pub exchanges :
    (Sample → Members) → (ℕ → Reply) → ℕ → List (List Sample) → List (List Members × Reply)
exchanges encode replies k [] = []
exchanges encode replies k (b ∷ bs) =
    (map encode b, replies k) ∷ exchanges encode replies (suc k) bs

abbrev pub some_batches : Option (List (List Sample)) → List (List Sample)
some_batches none = []
some_batches (some bs) = bs

-- What happens while the run goes on: the size of each batch that is printed, the reply to the k-th
-- batch that is sent, or each publish; and whether the MQTT library is installed.
pub record Course : Type 0 where
  pub printed : List ℕ
  pub replies : ℕ → Reply
  pub publishes : List Publish
  pub has_library : Bool

module _ (f : Floats) (urlsplit : String → Option Url) (last_instant : ℕ) where
  open f use {Float, is_finite, below, of_index}

  pub record Arguments : Type 0 where
    pub scenario : Scenario
    -- whether the start time is an instant with a timezone
    pub has_start : Bool
    pub profile : TemperatureProfile f
    pub batch_size : ℕ
    pub timeout : Float
    pub mode : Mode
    pub api_base_url : Option String
    pub token : String
    pub mqtt_host : String
    pub mqtt_port : ℤ
    pub mqtt_username : Option String
    pub mqtt_password_file : Option (Option String)

  abbrev pub base_url : Arguments → String
  base_url a = or_given "http://127.0.0.1:8000/api" a.api_base_url

  abbrev pub is_timeout : Float → Bool
  is_timeout t = is_finite t && below (of_index 0) t && not (below (of_index 300) t)

  abbrev pub has_target : Mode → Arguments → Bool
  has_target generate a = true
  has_target http a = validate_target urlsplit (base_url a) a.token
  has_target mqtt a =
      is_mqtt_target a.scenario.device_id a.mqtt_host a.mqtt_port
        (or_given a.scenario.device_id a.mqtt_username) a.mqtt_password_file

  unfoldable pub are_valid : Arguments → Bool
  are_valid a =
      is_profile f a.profile
      && a.has_start
      && is_scenario last_instant a.scenario
      && has_finite_bounds f a.profile a.scenario.events
      && is_integer a.batch_size 1 500
      && is_timeout a.timeout
      && has_target a.mode a

  -- The batches of the scenario's events with the replies to them.
  abbrev pub sends : Generator → Arguments → Course → List (List Members × Reply)
  sends g a course =
      exchanges (event_of g a.scenario) course.replies 0
        (some_batches (batches a.batch_size (generate_events g.derive a.scenario)))

  -- The status of a run whose arguments are valid.
  abbrev pub run : Generator → Mode → Arguments → Course → ℕ
  run g generate a course = simulate_status (run_without_sender a.scenario.events course.printed)
  run g http a course =
      simulate_status (run_scenario a.scenario.events (turns_of (sends g a course)))
  run g mqtt a course =
      if course.has_library
      then mqtt_status (run_mqtt_scenario a.scenario.events course.publishes)
      else 2

  unfoldable pub main : Generator → Arguments → Course → ℕ
  unfolding are_valid
  main g a course = if are_valid a then run g a.mode a course else 2
