-- ===== src/Simulator/Events.antt =====
-- simulator/events.py: the schedule of a scenario's events, and their batches. The derived boot
-- identifiers (`uuid5` over the run, the device and the number) and the random readings are parameters.
pub mod Schedule
use industrial_equipment_mon.Prelude.{
  ℕ, zero, suc, ◌+◌, ◌-◌, ◌*◌, ◌%◌, String, Bool, true, false, ◌&&◌, not, Option, none, some, List,
  [], ◌∷◌, leb, nat_eq, str_eq, length, take, drop, if◌then◌else◌,
}
use industrial_equipment_mon.Telemetry.Validation.{count, has_nul}
use industrial_equipment_mon.Telemetry.Schemas.{max_counter}

abbrev pub max_events : ℕ
max_events = 1000000

-- `identifier`: whether it raises nothing
abbrev pub is_run_identifier : String → Bool
is_run_identifier s = leb 1 (count s) && leb (count s) 128 && not (has_nul s)

-- `integer`
abbrev pub is_integer : ℕ → ℕ → ℕ → Bool
is_integer value minimum maximum = leb minimum value && leb value maximum

-- The fields that decide the schedule. `events` are called `count` in the source.
pub record Scenario : Type 0 where
  pub device_id : String
  pub run_id : String
  pub boot_id : Option String
  pub events : ℕ
  pub interval_ms : ℕ
  pub start_time : ℕ
  pub reboot_every : ℕ

abbrev pub is_optional_identifier : Option String → Bool
is_optional_identifier none = true
is_optional_identifier (some s) = is_run_identifier s

-- `Scenario.__post_init__` on these fields; `last_instant` is the last one that a datetime can hold.
unfoldable pub is_scenario : ℕ → Scenario → Bool
is_scenario last_instant s =
    is_run_identifier s.device_id
    && is_run_identifier s.run_id
    && is_optional_identifier s.boot_id
    && is_integer s.events 1 max_events
    && is_integer s.interval_ms 1 max_counter
    && is_integer s.reboot_every 0 max_events
    && is_integer ((s.events - 1) * s.interval_ms) 0 max_counter
    && leb (s.start_time + (s.events - 1) * s.interval_ms * 1000) last_instant

-- What of an event depends on its place in the run.
pub record Sample : Type 0 where
  pub boot_id : String
  pub sequence_number : ℕ
  pub measured_at : ℕ
  pub device_uptime_ms : ℕ

abbrev prefixed : String → String → String
prefixed String.[] s = s
prefixed (String.◌∷◌ c p) s = String.◌∷◌ c (prefixed p s)

-- The derived identifier of a boot, changed where it is the initial one.
abbrev pub unlike : Option String → String → String
unlike none derived = derived
unlike (some initial) derived =
    if str_eq derived initial then prefixed "reboot-" derived else derived

module _ (derive : Scenario → ℕ → String) (s : Scenario) where
  abbrev pub first_boot : Option String → String
  first_boot (some initial) = initial
  first_boot none = unlike none (derive s 0)

  abbrev pub boot_id : ℕ → String
  boot_id zero = first_boot s.boot_id
  boot_id (suc n) = unlike s.boot_id (derive s (suc n))

  abbrev pub starts_boot : ℕ → Bool
  starts_boot index =
      not (nat_eq index 0) && not (nat_eq s.reboot_every 0) && nat_eq (index % s.reboot_every) 0

  abbrev pub sample : ℕ → ℕ → ℕ → Sample
  sample index boot_number boot_start = record {
    boot_id = boot_id boot_number;
    sequence_number = index - boot_start;
    measured_at = s.start_time + index * s.interval_ms * 1000;
    device_uptime_ms = (index - boot_start) * s.interval_ms;
  }

  -- The loop from an index on, for the events that are left.
  unfoldable pub samples_from : ℕ → ℕ → ℕ → ℕ → List Sample
  samples_from zero index boot_number boot_start = []
  samples_from (suc left) index boot_number boot_start =
      let reboot = samples_from left (suc index) (suc boot_number) index in
      let same = samples_from left (suc index) boot_number boot_start in
      if starts_boot index
      then sample index (suc boot_number) index ∷ reboot
      else sample index boot_number boot_start ∷ same

  unfoldable pub generate_events : List Sample
  unfolding samples_from
  generate_events = samples_from s.events 0 0 0

-- `islice` until nothing is left; each turn takes at least one event, so that as many turns as there
-- are events are enough.
unfoldable pub slices : {A : Type 0} → ℕ → ℕ → List A → List (List A)
slices zero size xs = []
slices (suc turns) size [] = []
slices (suc turns) size (x ∷ xs) = take size (x ∷ xs) ∷ slices turns size (drop size (x ∷ xs))

-- `none` is the ValueError of the size.
unfoldable pub batches : {A : Type 0} → ℕ → List A → Option (List (List A))
unfolding slices
batches size xs = if is_integer size 1 500 then some (slices (length xs) size xs) else none
