-- ===== src/Alerts/Service.antt =====
-- alerts/service.py, `evaluate_accepted_reading`. The `states` dict of the source caches the very
-- objects of the session's identity map, which are the rows of the transaction: one lookup in the
-- table stands for both. `none` is the `AttributeError` on an episode that is not there.
use industrial_equipment_mon.Prelude.{
  ℕ, ◌+◌, ◌-◌, String, Bool, true, false, ◌&&◌, not, Option, none, some, leb, nat_eq, eq_nat,
  eq_string, if◌then◌else◌,
}
use industrial_equipment_mon.Prelude.Table.{lookup, insert}
use industrial_equipment_mon.Decimal.{Decimal, pos, lt_decimal}
use industrial_equipment_mon.Telemetry.Schemas.{ClockQuality, synchronised, TelemetryEvent, minutes}
use industrial_equipment_mon.Db.Models.{AlertTables, AlertState, AlertEpisode}

abbrev pub high_threshold : Decimal
high_threshold = record { mantissa = pos 30; scale = 0 }

abbrev pub recovery_threshold : Decimal
recovery_threshold = record { mantissa = pos 28; scale = 0 }

abbrev pub consecutive_readings : ℕ
consecutive_readings = 3

abbrev pub max_reading_age : ℕ
max_reading_age = minutes 5

abbrev pub max_future_skew : ℕ
max_future_skew = minutes 1

abbrev pub is_synchronised : ClockQuality → Bool
is_synchronised synchronised = true
is_synchronised _ = false

-- The device's time where its clock is synchronised and the time is there, else the gateway's.
abbrev pub trusted_time : Option ℕ → ClockQuality → ℕ → ℕ
trusted_time none clock received = received
trusted_time (some at) clock received = if is_synchronised clock then at else received

abbrev pub event_at : TelemetryEvent → ℕ
event_at item = trusted_time item.measured_at item.quality.clock item.gateway_received_at

-- Python's `-` on a time before the first five minutes of its range would raise; here it stops at 0.
abbrev pub is_fresh : ℕ → ℕ → Bool
is_fresh backend_received_at at =
    leb (backend_received_at - max_reading_age) at && leb at (backend_received_at + max_future_skew)

abbrev pub put_state : String → AlertState → AlertTables → AlertTables
put_state device s t = record t { alert_states = insert device s t.alert_states }

abbrev pub new_state : ℕ → AlertState
new_state at = record {
  last_event_at = at;
  high_streak = 0;
  recovery_streak = 0;
  active_episode_id = none;
}

-- Add an episode and flush, which gives it its id, and make it the device's active one.
abbrev pub open_episode : AlertTables → String → ℕ → ℕ → AlertState → AlertTables
open_episode t device telemetry_id at s = record {
  alert_states =
      insert device (record s { active_episode_id = some t.next_episode_id }) t.alert_states;
  alert_episodes =
      insert t.next_episode_id
        (record {
          device_id = device;
          opened_at = at;
          resolved_at = none;
          opening_telemetry_id = telemetry_id;
          resolving_telemetry_id = none;
        })
        t.alert_episodes;
  next_episode_id = t.next_episode_id + 1;
}

-- Resolve the episode that was found, and leave the device with none.
abbrev pub close_episode :
    AlertTables → String → ℕ → ℕ → AlertState → ℕ → AlertEpisode → AlertTables
close_episode t device telemetry_id at s id episode = record t {
  alert_states = insert device (record s { active_episode_id = none }) t.alert_states;
  alert_episodes =
      insert id
        (record episode { resolved_at = some at; resolving_telemetry_id = some telemetry_id })
        t.alert_episodes;
}

abbrev pub close_found :
    AlertTables → String → ℕ → ℕ → AlertState → ℕ → Option AlertEpisode → Option AlertTables
close_found t device telemetry_id at s id none = none
close_found t device telemetry_id at s id (some episode) =
    some (close_episode t device telemetry_id at s id episode)

-- No episode is active: count readings above the high threshold.
unfoldable pub advance_idle : AlertTables → TelemetryEvent → ℕ → ℕ → AlertState → Option AlertTables
advance_idle t item telemetry_id at s =
    let streak = if lt_decimal high_threshold item.value then s.high_streak + 1 else 0 in
    if nat_eq streak consecutive_readings
    then some (
        open_episode t item.device_id telemetry_id at
          (record s { last_event_at = at; high_streak = 0 }))
    else some (put_state item.device_id (record s { last_event_at = at; high_streak = streak }) t)

-- An episode is active: count readings below the recovery threshold.
unfoldable pub advance_active :
    AlertTables → TelemetryEvent → ℕ → ℕ → AlertState → ℕ → Option AlertTables
advance_active t item telemetry_id at s id =
    let streak = if lt_decimal item.value recovery_threshold then s.recovery_streak + 1 else 0 in
    if nat_eq streak consecutive_readings
    then close_found t item.device_id telemetry_id at
        (record s { last_event_at = at; recovery_streak = 0 }) id (lookup id t.alert_episodes)
    else some
        (put_state item.device_id (record s { last_event_at = at; recovery_streak = streak }) t)

abbrev pub advance_by :
    AlertTables → TelemetryEvent → ℕ → ℕ → AlertState → Option ℕ → Option AlertTables
advance_by t item telemetry_id at s none = advance_idle t item telemetry_id at s
advance_by t item telemetry_id at s (some id) = advance_active t item telemetry_id at s id

abbrev pub advance : AlertTables → TelemetryEvent → ℕ → ℕ → AlertState → Option AlertTables
advance t item telemetry_id at s = advance_by t item telemetry_id at s s.active_episode_id

-- A device with no state starts one; a reading that is not later than the last one is passed over.
abbrev pub evaluate_in_order :
    AlertTables → TelemetryEvent → ℕ → ℕ → Option AlertState → Option AlertTables
evaluate_in_order t item telemetry_id at none = advance t item telemetry_id at (new_state at)
evaluate_in_order t item telemetry_id at (some s) =
    if leb at s.last_event_at then some t else advance t item telemetry_id at s

unfoldable pub evaluate_accepted_reading : AlertTables → TelemetryEvent → ℕ → ℕ → Option AlertTables
evaluate_accepted_reading t item telemetry_id backend_received_at =
    if not (is_fresh backend_received_at (event_at item))
    then some t
    else evaluate_in_order t item telemetry_id (event_at item)
        (lookup item.device_id t.alert_states)
