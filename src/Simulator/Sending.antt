-- ===== src/Simulator/Sending.antt =====
-- The turn of one batch in `run_scenario` of simulator/simulate.py, with `post_batch` of
-- simulator/send_batch.py as its sender: the response is classified, and its outcomes are counted.
pub mod Replies
use industrial_equipment_mon.Prelude.{
  ℕ, suc, ◌+◌, ◌≡◌, refl, ap, ◌∙◌, inl, inr, String, Option, none, some, List, [], ◌∷◌, map, length,
  arith, str_eq, All, Option-cases, if◌then◌else◌,
}
use industrial_equipment_mon.Prelude.Texts.{split_parts}
use industrial_equipment_mon.Telemetry.Json.{Value, Members, values}
use industrial_equipment_mon.Simulator.Client.{classify_response}
use industrial_equipment_mon.Simulator.Client.Safety.{BackAll, reports_backed}
use industrial_equipment_mon.Simulator.Run.{
  Category, Turn, confirmed, interrupted_before, interrupted_in_send, failed_in_send, run_scenario,
}
use industrial_equipment_mon.Simulator.Run.Accounting.{IsComplete, sizes, clean_run_confirms}
use industrial_equipment_mon.Simulator.Command.{simulate_status}
use industrial_equipment_mon.Simulator.Command.Status.{zero_status}

-- `outcome.partition(":")[0]`, of an outcome that `classify_response` returns.
unfoldable pub category_of : String → Category
category_of outcome =
    let (category, _) = split_parts 58 outcome in
    if str_eq category "accepted"
    then Category.accepted
    else if str_eq category "duplicate"
    then Category.duplicate
    else Category.rejected

abbrev pub counted : Option (List String) → Turn
counted none = failed_in_send
counted (some outcomes) = confirmed (map category_of outcomes)

-- How a send goes: a response arrives, there is none, or the run is interrupted before it or in it.
pub data Reply : Type 0 where
  received : Value → Reply
  no_response stopped_before stopped_in_send : Reply

abbrev pub turn_of : List Members → Reply → Turn
turn_of events (received v) = counted (classify_response events v)
turn_of events no_response = failed_in_send
turn_of events stopped_before = interrupted_before
turn_of events stopped_in_send = interrupted_in_send

unfoldable pub turns_of : List (List Members × Reply) → List (ℕ × Turn)
turns_of [] = []
turns_of ((events, reply) ∷ rest) = (length events, turn_of events reply) ∷ turns_of rest

abbrev pub event_count : List (List Members × Reply) → ℕ
event_count [] = 0
event_count ((events, reply) ∷ rest) = length events + event_count rest

-- One outcome is reported for each event.
backed_length :
    (events : List Members) (vs : List Value) (os : List String)
    → BackAll events vs os
    → length os ≡ length events
backed_length [] [] [] h = refl
backed_length (m ∷ ms) (v ∷ vs) (o ∷ os) h = ap suc (backed_length ms vs os h.1)
backed_length [] (v ∷ vs) os h = absurd h
backed_length [] [] (o ∷ os) h = absurd h
backed_length (m ∷ ms) [] os h = absurd h
backed_length (m ∷ ms) (v ∷ vs) [] h = absurd h

pub length-map : {A B : Type 0} (g : A → B) (xs : List A) → length (map g xs) ≡ length xs
length-map g [] = refl
length-map g (x ∷ xs) = ap suc (length-map g xs)

turn-IsComplete :
    (events : List Members) (reply : Reply) → IsComplete (length events, turn_of events reply)
turn-IsComplete events no_response = tt
turn-IsComplete events stopped_before = tt
turn-IsComplete events stopped_in_send = tt
turn-IsComplete events (received v) = elim (Option-cases (classify_response events v)) [
  | inl refused ↦ rw refused tt
  | inr (os, read) ↦
      let backed = reports_backed events v os read in
      rw read
        (length-map category_of os ∙ backed_length events (values backed.results) os backed.each)
]

turns-IsComplete : (replies : List (List Members × Reply)) → All IsComplete (turns_of replies)
unfolding turns_of
turns-IsComplete [] = tt
turns-IsComplete ((events, reply) ∷ rest) = (turn-IsComplete events reply, turns-IsComplete rest)

sizes-turns_of :
    (replies : List (List Members × Reply)) → sizes (turns_of replies) ≡ event_count replies
unfolding turns_of
sizes-turns_of [] = refl
sizes-turns_of ((events, reply) ∷ rest) = ap (λ n. length events + n) (sizes-turns_of rest)

-- With status 0, each event of the run's batches was confirmed.
pub zero_status_confirms :
    (planned : ℕ) (replies : List (List Members × Reply))
    → simulate_status (run_scenario planned (turns_of replies)) ≡ 0
    → (run_scenario planned (turns_of replies)).counts.accepted
        + (run_scenario planned (turns_of replies)).counts.duplicate
      ≡ event_count replies
zero_status_confirms planned replies h =
    let (calm, fine, _, none_rejected) = zero_status (run_scenario planned (turns_of replies)) h in
    let (_, all) =
      clean_run_confirms planned (turns_of replies) (turns-IsComplete replies) calm fine in
    omega (arith, all, none_rejected, sizes-turns_of replies)
