-- ===== src/Simulator/Main/Clean.antt =====
-- What an exit status of zero says of the command and its run.
use industrial_equipment_mon.Prelude.{
  ℕ, suc, ◌+◌, ◌≡◌, refl, ap, ◌∙◌, inl, inr, String, true, Option, List, [], ◌∷◌, length, All,
  arith, length-append, Bool-cases,
}
use industrial_equipment_mon.Telemetry.Json.{Members}
use industrial_equipment_mon.Simulator.Events.{Sample, is_integer, is_scenario, generate_events}
use industrial_equipment_mon.Simulator.Events.Schedule.{flatten, batches_end, generated-IsOnWire}
use industrial_equipment_mon.Simulator.Profile.{Floats}
use industrial_equipment_mon.Simulator.Command.{Url, simulate_status}
use industrial_equipment_mon.Simulator.Command.Status.{zero_status}
use industrial_equipment_mon.Simulator.Run.{run_scenario}
use industrial_equipment_mon.Simulator.Sending.{
  length-map, Reply, turns_of, event_count, zero_status_confirms,
}
use industrial_equipment_mon.Simulator.Sending.Replies.{IsAnswered, clean_run-IsAnswered}
use industrial_equipment_mon.Simulator.Main.{
  http, Generator, Course, Arguments, event_of, exchanges, are_valid, main,
}

event_count-exchanges :
    (encode : Sample → Members) (replies : ℕ → Reply) (k : ℕ) (bs : List (List Sample))
    → event_count (exchanges encode replies k bs) ≡ length (flatten bs)
event_count-exchanges encode replies k [] = refl
event_count-exchanges encode replies k (b ∷ bs) =
    let rest = event_count-exchanges encode replies (suc k) bs in
    omega (arith, rest, length-map encode b, length-append b (flatten bs))

module _ (f : Floats) (urlsplit : String → Option Url) (last_instant : ℕ) where
  http_valid :
      (a : Arguments f urlsplit last_instant)
      → a.mode ≡ http
      → are_valid f urlsplit last_instant a ≡ true
      → (is_scenario last_instant a.scenario ≡ true) × (is_integer a.batch_size 1 500 ≡ true)
  unfolding are_valid
  http_valid a mode h = let h' = rw mode at h in (ground (arith, h'), ground (arith, h'))

  -- Whatever the server answers, or does not: where the command that sends a run over HTTP exits with
  -- status 0, the batches that it made of the scenario's events, in order and with none left out, were
  -- each answered by a JSON value that holds, for each event of the batch in turn, a result with the
  -- event's identity, and each of those results says accepted, or duplicate, with no reason; and the
  -- numbers of accepted and of duplicate events that it reports add up to the events of the scenario.
  pub http_run_confirms :
      (g : Generator) (a : Arguments f urlsplit last_instant) (course : Course)
      → a.mode ≡ http
      → main f urlsplit last_instant g a course ≡ 0
      → (bs : List (List Sample)) × (flatten bs ≡ generate_events g.derive a.scenario)
        × All IsAnswered (exchanges (event_of g a.scenario) course.replies 0 bs)
        × ((run_scenario a.scenario.events
                (turns_of (exchanges (event_of g a.scenario) course.replies 0 bs))).counts.accepted
              + (run_scenario a.scenario.events (
                  turns_of
                    (exchanges (event_of g a.scenario) course.replies 0 bs))).counts.duplicate
            ≡ a.scenario.events)
  unfolding main
  http_run_confirms g a course mode h = elim (Bool-cases (are_valid f urlsplit last_instant a)) [
    | inr invalid ↦ absurd (ground (arith, rw invalid at h))
    | inl valid ↦
        let (scenario, size) = http_valid a mode valid in
        let events = generate_events g.derive a.scenario in
        let (bs, made, _, whole, _) =
          batches_end a.batch_size (length events) events size (omega arith) in
        let sent = exchanges (event_of g a.scenario) course.replies 0 bs in
        let status : simulate_status (run_scenario a.scenario.events (turns_of sent)) ≡ 0 =
          rw made at (rw mode at (rw valid at h)) in
        let (calm, fine, _, none_rejected) =
          zero_status (run_scenario a.scenario.events (turns_of sent)) status in
        (
          bs,
          whole,
          clean_run-IsAnswered a.scenario.events sent calm fine none_rejected,
          zero_status_confirms a.scenario.events sent status
              ∙ event_count-exchanges (event_of g a.scenario) course.replies 0 bs
              ∙ ap length whole
              ∙ (generated-IsOnWire g.derive a.scenario last_instant scenario).0,
        )
  ]
