-- ===== src/Alerts/Listing.antt =====
-- alerts/service.py, `list_alert_episodes`, with the models of alerts/schemas.py: episodes with their
-- device's name and the readings that opened and resolved them.
pub mod Active
use industrial_equipment_mon.Prelude.{
  ℕ, suc, String, Bool, true, false, ◌&&◌, ◌||◌, not, Option, none, some, List, [], ◌∷◌, ltb,
  nat_eq, take, is_none, eq_string, if◌then◌else◌,
}
use industrial_equipment_mon.Prelude.Table.{Table, lookup}
use industrial_equipment_mon.Decimal.{Decimal}
use industrial_equipment_mon.Telemetry.Schemas.{TemperatureUnit, celsius}
use industrial_equipment_mon.Db.Models.{Device, Telemetry, AlertEpisode, Database}
use industrial_equipment_mon.Alerts.Service.{
  high_threshold, recovery_threshold, consecutive_readings,
}

pub record AlertRule : Type 0 where
  pub high_threshold : Decimal
  pub recovery_threshold : Decimal
  pub consecutive_readings : ℕ
  pub unit : TemperatureUnit

pub data EpisodeState : Type 0 where
  active resolved : EpisodeState

pub record AlertEpisodeStatus : Type 0 where
  pub id : ℕ
  pub device_id : String
  pub device_name : String
  pub state : EpisodeState
  pub opened_at : ℕ
  pub opening_value : Decimal
  pub resolved_at : Option ℕ
  pub resolving_value : Option Decimal

pub record AlertEpisodeList : Type 0 where
  pub rule : AlertRule
  pub active_count : ℕ
  pub episodes : List AlertEpisodeStatus

unfoldable pub value_of : ℕ → List Telemetry → Option Decimal
value_of id [] = none
value_of id (row ∷ rest) = if nat_eq row.id id then some row.value else value_of id rest

abbrev pub resolving_value : Option ℕ → List Telemetry → Option Decimal
resolving_value none rows = none
resolving_value (some id) rows = value_of id rows

abbrev pub state_of : Option ℕ → EpisodeState
state_of none = EpisodeState.active
state_of (some at) = EpisodeState.resolved

abbrev pub episode_status :
    Database → ℕ → AlertEpisode → Option Device → Option Decimal → Option AlertEpisodeStatus
episode_status db id e (some d) (some value) = some (record {
  id = id;
  device_id = e.device_id;
  device_name = d.name;
  state = state_of e.resolved_at;
  opened_at = e.opened_at;
  opening_value = value;
  resolved_at = e.resolved_at;
  resolving_value = resolving_value e.resolving_telemetry_id db.telemetry;
})
episode_status db id e (some d) none = none
episode_status db id e none value = none

-- The joins with the device and the opening reading are inner, that with the resolving one is outer.
unfoldable pub join_episode : Database → ℕ → AlertEpisode → Option AlertEpisodeStatus
join_episode db id e =
    episode_status db id e (lookup e.device_id db.devices)
      (value_of e.opening_telemetry_id db.telemetry)

abbrev add_status : Option AlertEpisodeStatus → List AlertEpisodeStatus → List AlertEpisodeStatus
add_status none more = more
add_status (some s) more = s ∷ more

unfoldable pub join_episodes : Database → Table ℕ AlertEpisode → List AlertEpisodeStatus
join_episodes db [] = []
join_episodes db ((id, e) ∷ rest) = add_status (join_episode db id e) (join_episodes db rest)

abbrev pub is_active : AlertEpisodeStatus → Bool
is_active s = is_none s.resolved_at

-- ORDER BY resolved_at IS NULL DESC, opened_at DESC, id DESC
abbrev pub is_before : AlertEpisodeStatus → AlertEpisodeStatus → Bool
is_before a b =
    if is_active a
    then not (is_active b)
      || ltb b.opened_at a.opened_at
      || nat_eq a.opened_at b.opened_at && ltb b.id a.id
    else not (is_active b)
      && (ltb b.opened_at a.opened_at || nat_eq a.opened_at b.opened_at && ltb b.id a.id)

unfoldable pub place : AlertEpisodeStatus → List AlertEpisodeStatus → List AlertEpisodeStatus
place x [] = x ∷ []
place x (y ∷ ys) = if is_before y x then y ∷ place x ys else x ∷ y ∷ ys

unfoldable pub active_first : List AlertEpisodeStatus → List AlertEpisodeStatus
unfolding place
active_first [] = []
active_first (x ∷ xs) = place x (active_first xs)

unfoldable pub count_active : Table ℕ AlertEpisode → ℕ
count_active [] = 0
count_active ((id, e) ∷ rest) =
    let more = count_active rest in if is_none e.resolved_at then suc more else more

abbrev rule : AlertRule
rule = record {
  high_threshold = high_threshold;
  recovery_threshold = recovery_threshold;
  consecutive_readings = consecutive_readings;
  unit = celsius;
}

unfoldable pub list_alert_episodes : Database → ℕ → AlertEpisodeList
unfolding join_episodes active_first count_active
list_alert_episodes db limit = record {
  rule = rule;
  active_count = count_active db.alerts.alert_episodes;
  episodes = take limit (active_first (join_episodes db db.alerts.alert_episodes));
}
