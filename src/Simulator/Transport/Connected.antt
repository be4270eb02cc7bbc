-- ===== src/Simulator/Transport/Connected.antt =====
-- The publishes of a run of simulator/simulate.py with the publisher of simulator/mqtt_transport.py.
use industrial_equipment_mon.Prelude.{
  ℕ, suc, ◌+◌, ◌≤◌, ◌≡◌, refl, inl, inr, ◌⊎◌, Bool, true, false, none, List, [], ◌∷◌, arith, nat_eq,
  Bool-cases, if◌then◌else◌,
}
use industrial_equipment_mon.Simulator.Run.{
  Publish, cancelled_before, MqttSummary, run_mqtt_scenario,
}
use industrial_equipment_mon.Simulator.Run
use industrial_equipment_mon.Simulator.Transport.{
  Connecting, not_connected, ack_timeout, acknowledged, Sending, not_queued, unconfirmed, confirmed,
  sent_result, PublishResult, published, MqttPublisher, new_publisher, connection_error, publish,
}

-- How a publish ends, for the loop of the run.
abbrev pub turn_of : PublishResult → Publish
turn_of published = Run.acknowledged
turn_of _ = Run.failed_in_publish

abbrev pub is_published : PublishResult → Bool
is_published published = true
is_published _ = false

-- The publishes of a run, which stops at the first that fails, and the publisher they leave.
unfoldable pub publish_run :
    List (Connecting × Sending) → MqttPublisher → List Publish × MqttPublisher
publish_run [] p = ([], p)
publish_run ((answer, sending) ∷ rest) p =
    let (result, q) = publish answer sending p in
    let (turns, end) = publish_run rest q in
    if is_published result then (turn_of result ∷ turns, end) else (turn_of result ∷ [], q)

-- The number of acknowledged publishes.
abbrev pub acknowledged_count : List Publish → ℕ
acknowledged_count [] = 0
acknowledged_count (Run.acknowledged ∷ rest) = suc (acknowledged_count rest)
acknowledged_count (_ ∷ rest) = acknowledged_count rest

-- The calls that a run makes: as many messages as were acknowledged, and at most one more.
record Calls (p : MqttPublisher) (connects : ℕ) (x : List Publish × MqttPublisher) : Type 0 where
  pub same : x.1.connects ≡ connects
  pub low : p.publishes + acknowledged_count x.0 ≤ x.1.publishes
  pub high : x.1.publishes ≤ p.publishes + acknowledged_count x.0 + 1

one_call :
    (sending : Sending) (answer : Connecting) (p : MqttPublisher)
    → p.started ≡ true
    → publish answer sending p ≡ (sent_result sending, record p { publishes = suc p.publishes })
unfolding publish
one_call sending answer p h = rw h refl

run-Calls :
    (inputs : List (Connecting × Sending)) (p : MqttPublisher)
    → p.started ≡ true
    → Calls p p.connects (publish_run inputs p)
unfolding publish_run
run-Calls [] p h = record { same = refl; low = omega arith; high = omega arith }
run-Calls ((answer, not_queued) ∷ rest) p h =
    rw (one_call not_queued answer p h)
      (record { same = refl; low = omega arith; high = omega arith })
run-Calls ((answer, unconfirmed) ∷ rest) p h =
    rw (one_call unconfirmed answer p h)
      (record { same = refl; low = omega arith; high = omega arith })
run-Calls ((answer, confirmed) ∷ rest) p h =
    let c = run-Calls rest (record p { publishes = suc p.publishes }) h in
    let low = c.low in
    let high = c.high in
    rw (one_call confirmed answer p h)
      (record { same = c.same; low = omega (arith, low); high = omega (arith, high) })

-- What a run shows of its first connection.
abbrev Once : Connecting → List Publish × MqttPublisher → Type 0
Once answer (turns, p) =
    (p.connects ≡ 1)
    × (acknowledged_count turns ≤ p.publishes)
    × (p.publishes ≤ acknowledged_count turns + 1)
    × ((connection_error answer ≡ none) ⊎ (p.publishes ≡ 0))

abbrev run_of : Connecting → Sending → List (Connecting × Sending) → List Publish × MqttPublisher
run_of answer sending rest = publish_run ((answer, sending) ∷ rest) new_publisher

abbrev connected : MqttPublisher
connected = record { started = true; connects = 1; publishes = 1 }

accepted-Once :
    (answer : Connecting) (sending : Sending) (rest : List (Connecting × Sending))
    → connection_error answer ≡ none
    → Once answer (run_of answer sending rest)
unfolding publish_run publish
accepted-Once answer not_queued rest h = rw h (refl, omega arith, omega arith, inl refl)
accepted-Once answer unconfirmed rest h = rw h (refl, omega arith, omega arith, inl refl)
accepted-Once answer confirmed rest h =
    let c = run-Calls rest connected refl in
    let low = c.low in
    let high = c.high in rw h (c.same, omega (arith, low), omega (arith, high), inl refl)

-- A run of at least one publish with a new publisher: it connects once; it gives the library as many
-- messages as were acknowledged and at most one more; and it gives it none unless the broker has
-- accepted the connection.
pub run_connects_once :
    (answer : Connecting) (sending : Sending) (rest : List (Connecting × Sending))
    → ((publish_run ((answer, sending) ∷ rest) new_publisher).1.connects ≡ 1)
      × (acknowledged_count (publish_run ((answer, sending) ∷ rest) new_publisher).0
          ≤ (publish_run ((answer, sending) ∷ rest) new_publisher).1.publishes)
      × ((publish_run ((answer, sending) ∷ rest) new_publisher).1.publishes
          ≤ acknowledged_count (publish_run ((answer, sending) ∷ rest) new_publisher).0 + 1)
      × ((connection_error answer ≡ none)
          ⊎ ((publish_run ((answer, sending) ∷ rest) new_publisher).1.publishes ≡ 0))
unfolding publish_run publish
run_connects_once not_connected sending rest = (refl, omega arith, omega arith, inr refl)
run_connects_once ack_timeout sending rest = (refl, omega arith, omega arith, inr refl)
run_connects_once (acknowledged code) sending rest = elim (Bool-cases (nat_eq code 0)) [
  | inl accepted ↦ accepted-Once (acknowledged code) sending rest (rw accepted refl)
  | inr rejected ↦ rw rejected (refl, omega arith, omega arith, inr refl)
]
