-- ===== src/Tests/Alerts.antt =====
-- The theorems on alert evaluation at concrete readings.
use industrial_equipment_mon.Prelude.{
  ℕ, ◌<◌, ◌≡◌, ◌↔◌, refl, sym, ap, String, true, some, List, [], ◌∷◌, arith, eq_nat, eq_string,
  str_eq_iff,
}
use industrial_equipment_mon.Prelude.Table.{lookup, insert}
use industrial_equipment_mon.Decimal.{lt_decimal}
use industrial_equipment_mon.Telemetry.Schemas.{seconds}
use industrial_equipment_mon.Db.Models.{AlertTables, AlertState, AlertEpisode}
use industrial_equipment_mon.Alerts.Service.{
  evaluate_accepted_reading, advance_idle, advance_active,
}
use industrial_equipment_mon.Alerts.Invariant.{IsValid, Fits}
use industrial_equipment_mon.Alerts.Evaluation.{evaluate-Keeps}
use industrial_equipment_mon.Alerts.Debounce.{
  Arrival, evaluate_all, three_in_a_row, is_high, values, opens_on_three_high,
}
use industrial_equipment_mon.Alerts.Recovery.{is_resolved, is_recovered, resolves_on_three_low}
use industrial_equipment_mon.Tests.Samples.{
  reading, no_alerts, watched, watched_state, alarmed, alarm_state, alarm_episode,
}

pub no_alerts-IsValid : IsValid no_alerts
unfolding lookup
no_alerts-IsValid = record {
  rows = λ d s h. absurd (cc);
  owned = λ i e h u. absurd (cc);
  ids_below = λ i e h. absurd (cc);
  resolved_after = λ i e r h u. absurd (cc);
}

watched-IsValid : IsValid watched
unfolding lookup
watched-IsValid = record {
  rows = λ d s h. record {
    high = ground arith;
    recovery = ground arith;
    active = λ id q. absurd (ground arith);
    owns = λ id e q r u. absurd (cc);
  };
  owned = λ i e h u. absurd (cc);
  ids_below = λ i e h. absurd (cc);
  resolved_after = λ i e r h u. absurd (cc);
}

alarm_rows :
    (d : String) (s : AlertState)
    → lookup d alarmed.alert_states ≡ some s
    → Fits alarmed.alert_episodes d s
unfolding lookup
alarm_rows d s h = record {
  high = ground arith;
  recovery = ground arith;
  active = λ id q. record {
    episode = alarm_episode;
    found = ground arith;
    of_device = ground (arith, str_eq_iff "press" d);
    unresolved = refl;
    opened_before = ground arith;
  };
  owns = λ id e q r u. ground arith;
}

alarmed-IsValid : IsValid alarmed
unfolding lookup
alarmed-IsValid = record {
  rows = alarm_rows;
  owned = λ i e h u.
      let same : alarm_episode ≡ e = ground arith in
      (alarm_state, ap (λ (x : AlertEpisode). lookup x.device_id alarmed.alert_states) (sym same));
  ids_below = λ i e h. ground arith;
  resolved_after = λ i e r h u. ground arith;
}

evaluate-Keeps_example :
    (t : AlertTables) × (evaluate_accepted_reading alarmed (reading 4 20) 12 (seconds 1005)
      ≡ some t)
    × IsValid t
evaluate-Keeps_example = evaluate-Keeps alarmed (reading 4 20) 12 (seconds 1005) alarmed-IsValid

abbrev after : AlertTables
after = record alarmed {
  alert_states =
      ("press", record alarm_state { last_event_at = seconds 1004; recovery_streak = 1 }) ∷ [];
}

one_low : evaluate_accepted_reading alarmed (reading 4 20) 12 (seconds 1005) ≡ some after
unfolding evaluate_accepted_reading advance_idle advance_active lookup insert lt_decimal
one_low = refl

abbrev arrivals : ℕ → List Arrival
arrivals v =
    record { item = reading 1 v; telemetry_id = 1; backend_received_at = seconds 1002 }
    ∷ record { item = reading 2 v; telemetry_id = 2; backend_received_at = seconds 1003 }
    ∷ record { item = reading 3 v; telemetry_id = 3; backend_received_at = seconds 1004 }
    ∷ []

opens_on_three_high_example :
    (t : AlertTables) × (evaluate_all watched (arrivals 35) ≡ some t)
    × ((1 < t.next_episode_id) ↔ (three_in_a_row is_high (values (arrivals 35)) ≡ true))
unfolding lookup
opens_on_three_high_example =
    opens_on_three_high watched watched_state "press" (arrivals 35) watched-IsValid refl refl refl
      ((refl, refl, omega arith, (refl, refl, omega arith, (refl, refl, omega arith, tt))))

resolves_on_three_low_example :
    (t : AlertTables) × (evaluate_all alarmed (arrivals 20) ≡ some t)
    × (is_resolved t 1 ≡ three_in_a_row is_recovered (values (arrivals 20)))
unfolding lookup
resolves_on_three_low_example =
    resolves_on_three_low alarmed alarm_state "press" (arrivals 20) 1 alarmed-IsValid refl refl refl
      ((refl, refl, omega arith, (refl, refl, omega arith, (refl, refl, omega arith, tt))))
