-- ===== src/Simulator/Run.antt =====
-- simulator/simulate.py, `run_scenario` and `run_mqtt_scenario`: the counts of a run. What each send or
-- publish does is an input of the run; times and the schedule's lag are not modelled.
pub mod Accounting
use industrial_equipment_mon.Prelude.{
  ℕ, suc, ◌+◌, ◌-◌, String, Bool, true, false, Option, none, some, List, [], ◌∷◌, length,
}

-- The category of an outcome that `classify_response` has confirmed.
pub data Category : Type 0 where
  accepted duplicate rejected : Category

pub record Counts : Type 0 where
  pub accepted : ℕ
  pub duplicate : ℕ
  pub rejected : ℕ

pub record Summary : Type 0 where
  pub planned : ℕ
  pub generated : ℕ
  pub sent : ℕ
  pub emitted : ℕ
  pub counts : Counts
  pub unconfirmed : ℕ
  pub unsent : ℕ
  pub failures : ℕ
  pub cancelled : Bool

-- How the turn of one batch goes: it is sent and confirmed; the pause before it is interrupted; the send
-- is interrupted; or the send fails.
pub data Turn : Type 0 where
  confirmed : List Category → Turn
  interrupted_before interrupted_in_send failed_in_send : Turn

abbrev pub started : ℕ → Summary
started planned = record {
  planned = planned;
  generated = 0;
  sent = 0;
  emitted = 0;
  counts = record { accepted = 0; duplicate = 0; rejected = 0 };
  unconfirmed = 0;
  unsent = planned;
  failures = 0;
  cancelled = false;
}

abbrev pub add_outcome : Counts → Category → Counts
add_outcome c Category.accepted = record c { accepted = suc c.accepted }
add_outcome c Category.duplicate = record c { duplicate = suc c.duplicate }
add_outcome c Category.rejected = record c { rejected = suc c.rejected }

unfoldable pub add_outcomes : Counts → List Category → Counts
add_outcomes c [] = c
add_outcomes c (o ∷ os) = add_outcomes (add_outcome c o) os

abbrev pub generate : ℕ → Summary → Summary
generate size s = record s { generated = s.generated + size }

abbrev pub start_send : ℕ → Summary → Summary
start_send size s = record s { sent = s.sent + size; unconfirmed = s.unconfirmed + size }

abbrev pub confirm : ℕ → List Category → Summary → Summary
confirm size outcomes s = record s {
  counts = add_outcomes s.counts outcomes;
  unconfirmed = s.unconfirmed - size;
}

-- The loop with a sender, over the sizes of the batches and how each turn goes. It stops at the first
-- turn that is not confirmed.
unfoldable pub send_all : List (ℕ × Turn) → Summary → Summary
send_all [] s = s
send_all ((size, confirmed outcomes) ∷ rest) s =
    send_all rest (confirm size outcomes (start_send size (generate size s)))
send_all ((size, interrupted_before) ∷ rest) s = record (generate size s) { cancelled = true }
send_all ((size, interrupted_in_send) ∷ rest) s = record (start_send size (generate size s)) {
  cancelled = true;
}
send_all ((size, failed_in_send) ∷ rest) s =
    let t = start_send size (generate size s) in record t { failures = suc t.failures }

-- The loop without a sender.
unfoldable pub emit_all : List ℕ → Summary → Summary
emit_all [] s = s
emit_all (size ∷ rest) s =
    let t = generate size s in emit_all rest (record t { emitted = t.emitted + size })

abbrev finish : Summary → Summary
finish s = record s { unsent = s.planned - s.sent }

unfoldable pub run_scenario : ℕ → List (ℕ × Turn) → Summary
unfolding send_all
run_scenario planned turns = finish (send_all turns (started planned))

unfoldable pub run_without_sender : ℕ → List ℕ → Summary
unfolding emit_all
run_without_sender planned sizes = finish (emit_all sizes (started planned))

-- How the publishing of one event goes.
pub data Publish : Type 0 where
  acknowledged cancelled_before cancelled_in_publish failed_in_publish : Publish

pub record MqttSummary : Type 0 where
  pub planned : ℕ
  pub generated : ℕ
  pub sent : ℕ
  pub broker_acknowledged : ℕ
  pub unconfirmed : ℕ
  pub unsent : ℕ
  pub failures : ℕ
  pub cancelled : Bool

abbrev pub mqtt_started : ℕ → MqttSummary
mqtt_started planned = record {
  planned = planned;
  generated = 0;
  sent = 0;
  broker_acknowledged = 0;
  unconfirmed = 0;
  unsent = planned;
  failures = 0;
  cancelled = false;
}

abbrev pub start_publish : MqttSummary → MqttSummary
start_publish s = record s {
  generated = suc s.generated;
  sent = suc s.sent;
  unconfirmed = suc s.unconfirmed;
}

abbrev pub acknowledge : MqttSummary → MqttSummary
acknowledge s = record s {
  broker_acknowledged = suc s.broker_acknowledged;
  unconfirmed = s.unconfirmed - 1;
}

unfoldable pub publish_all : List Publish → MqttSummary → MqttSummary
publish_all [] s = s
publish_all (acknowledged ∷ rest) s = publish_all rest (acknowledge (start_publish s))
publish_all (cancelled_before ∷ rest) s = record s { generated = suc s.generated; cancelled = true }
publish_all (cancelled_in_publish ∷ rest) s = record (start_publish s) { cancelled = true }
publish_all (failed_in_publish ∷ rest) s =
    let t = start_publish s in record t { failures = suc t.failures }

unfoldable pub run_mqtt_scenario : ℕ → List Publish → MqttSummary
unfolding publish_all
run_mqtt_scenario planned publishes =
    let s = publish_all publishes (mqtt_started planned) in record s { unsent = s.planned - s.sent }
