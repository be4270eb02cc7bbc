-- ===== src/Tests/Simulator.antt =====
-- The theorems on the simulator at short runs.
use industrial_equipment_mon.Prelude.{
  ℕ, zero, suc, ◌+◌, ◌≤◌, ◌≡◌, refl, arith, String, none, some, List, [], ◌∷◌, length, All,
}
use industrial_equipment_mon.Simulator.Events.{
  Scenario, Sample, is_scenario, samples_from, generate_events, slices, batches,
}
use industrial_equipment_mon.Simulator.Events.Schedule.{
  IsOnWire, flatten, generated-IsOnWire, batches_end,
}
use industrial_equipment_mon.Simulator.Run.{
  Category, Turn, confirmed, failed_in_send, run_scenario, Publish, acknowledged, failed_in_publish,
  run_mqtt_scenario,
}
use industrial_equipment_mon.Simulator.Run.Accounting.{total, run_balances, mqtt_run_balances}

abbrev short_run : Scenario
short_run = record {
  device_id = "press";
  run_id = "run";
  boot_id = none;
  events = 5;
  interval_ms = 1000;
  start_time = 0;
  reboot_every = 3;
}

abbrev derive : Scenario → ℕ → String
derive s zero = "a"
derive s (suc n) = "b"

generated-IsOnWire_example :
    (length (generate_events derive short_run) ≡ 5)
    × All (IsOnWire 4000000) (generate_events derive short_run)
unfolding is_scenario
generated-IsOnWire_example = generated-IsOnWire derive short_run 4000000 refl

abbrev numbers : List Sample → List ℕ
numbers [] = []
numbers (x ∷ xs) = x.sequence_number ∷ numbers xs

reboots : numbers (generate_events derive short_run) ≡ 0 ∷ 1 ∷ 2 ∷ 0 ∷ 1 ∷ []
unfolding generate_events samples_from
reboots = refl

two_batches : batches {A = ℕ} 2 (1 ∷ 2 ∷ 3 ∷ []) ≡ some ((1 ∷ 2 ∷ []) ∷ (3 ∷ []) ∷ [])
unfolding batches slices
two_batches = refl

batches_end_example :
    (bs : List (List ℕ)) × (batches 2 (1 ∷ 2 ∷ 3 ∷ []) ≡ some bs)
    × (slices 7 2 (1 ∷ 2 ∷ 3 ∷ []) ≡ bs)
    × (flatten bs ≡ 1 ∷ 2 ∷ 3 ∷ [])
    × All (λ (b : List ℕ). (1 ≤ length b) × (length b ≤ 2)) bs
batches_end_example = batches_end 2 7 (1 ∷ 2 ∷ 3 ∷ []) refl (omega arith)

abbrev two_accepted : ℕ × Turn
two_accepted = (2, confirmed (Category.accepted ∷ Category.accepted ∷ []))

abbrev broken : List (ℕ × Turn)
broken = two_accepted ∷ (2, failed_in_send) ∷ []

run_balances_example :
    ((run_scenario 5 broken).sent
      ≡ total (run_scenario 5 broken).counts + (run_scenario 5 broken).unconfirmed)
    × ((run_scenario 5 broken).sent + (run_scenario 5 broken).unsent ≡ 5)
    × ((run_scenario 5 broken).sent ≤ (run_scenario 5 broken).generated)
run_balances_example = run_balances 5 broken (refl, (tt, tt)) (omega arith)

abbrev clean : List (ℕ × Turn)
clean = two_accepted ∷ []

abbrev publishes : List Publish
publishes = acknowledged ∷ failed_in_publish ∷ []

mqtt_run_balances_example :
    ((run_mqtt_scenario 3 publishes).sent
      ≡ (run_mqtt_scenario 3 publishes).broker_acknowledged
        + (run_mqtt_scenario 3 publishes).unconfirmed)
    × ((run_mqtt_scenario 3 publishes).unconfirmed ≤ 1)
    × ((run_mqtt_scenario 3 publishes).sent + (run_mqtt_scenario 3 publishes).unsent ≡ 3)
mqtt_run_balances_example = mqtt_run_balances 3 publishes (omega arith)
