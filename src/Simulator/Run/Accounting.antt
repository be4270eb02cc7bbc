-- ===== src/Simulator/Run/Accounting.antt =====
-- The counts of a run add up, and nothing is counted as confirmed that was not.
use industrial_equipment_mon.Prelude.{
  ℕ, ◌+◌, ◌≤◌, ◌≡◌, refl, false, List, [], ◌∷◌, length, arith, All,
}
use industrial_equipment_mon.Simulator.Run.{
  Category, Counts, Summary, Turn, confirmed, interrupted_before, interrupted_in_send,
  failed_in_send, started, add_outcome, add_outcomes, generate, start_send, confirm, send_all,
  run_scenario, Publish, acknowledged, cancelled_before, cancelled_in_publish, failed_in_publish,
  MqttSummary, mqtt_started, start_publish, acknowledge, publish_all, run_mqtt_scenario,
}

abbrev pub total : Counts → ℕ
total c = c.accepted + c.duplicate + c.rejected

total-add_outcomes :
    (c : Counts) (os : List Category) → total (add_outcomes c os) ≡ total c + length os
unfolding add_outcomes
total-add_outcomes c [] = omega arith
total-add_outcomes c (Category.accepted ∷ os) =
    omega (arith, total-add_outcomes (add_outcome c Category.accepted) os)
total-add_outcomes c (Category.duplicate ∷ os) =
    omega (arith, total-add_outcomes (add_outcome c Category.duplicate) os)
total-add_outcomes c (Category.rejected ∷ os) =
    omega (arith, total-add_outcomes (add_outcome c Category.rejected) os)

-- A confirmed turn has one outcome for each event of its batch.
abbrev pub IsComplete : ℕ × Turn → Type 0
IsComplete (size, confirmed outcomes) = length outcomes ≡ size
IsComplete (size, interrupted_before) = Unit
IsComplete (size, interrupted_in_send) = Unit
IsComplete (size, failed_in_send) = Unit

abbrev pub sizes : List (ℕ × Turn) → ℕ
sizes [] = 0
sizes ((size, turn) ∷ rest) = size + sizes rest

-- What every turn keeps: what was sent is counted or unconfirmed, and was generated before.
pub record IsBalanced (s : Summary) : Type 0 where
  pub balance : s.sent ≡ total s.counts + s.unconfirmed
  pub within : s.sent ≤ s.generated

confirm-IsBalanced :
    (size : ℕ) (outcomes : List Category) (s : Summary)
    → length outcomes ≡ size
    → IsBalanced s
    → IsBalanced (confirm size outcomes (start_send size (generate size s)))
confirm-IsBalanced size outcomes s h v =
    let counted = total-add_outcomes s.counts outcomes in
    let b = v.balance in
    let w = v.within in record { balance = omega (arith, counted, b, h); within = omega (arith, w) }

send_all-IsBalanced :
    (turns : List (ℕ × Turn)) (s : Summary)
    → All IsComplete turns
    → IsBalanced s
    → IsBalanced (send_all turns s)
      × ((send_all turns s).planned ≡ s.planned)
      × ((send_all turns s).generated ≤ s.generated + sizes turns)
unfolding send_all
send_all-IsBalanced [] s h v = (v, refl, omega arith)
send_all-IsBalanced ((size, confirmed outcomes) ∷ rest) s h v =
    let t = confirm size outcomes (start_send size (generate size s)) in
    let (v', p, g) = send_all-IsBalanced rest t h.1 (confirm-IsBalanced size outcomes s h.0 v) in
    (v', p, omega (arith, g))
send_all-IsBalanced ((size, interrupted_before) ∷ rest) s h v =
    let b = v.balance in
    let w = v.within in (record { balance = b; within = omega (arith, w) }, refl, omega arith)
send_all-IsBalanced ((size, interrupted_in_send) ∷ rest) s h v =
    let b = v.balance in
    let w = v.within in
    (record { balance = omega (arith, b); within = omega (arith, w) }, refl, omega arith)
send_all-IsBalanced ((size, failed_in_send) ∷ rest) s h v =
    let b = v.balance in
    let w = v.within in
    (record { balance = omega (arith, b); within = omega (arith, w) }, refl, omega arith)

-- However the turns of a run go, with one outcome for each event of a confirmed batch and no more events
-- than planned: the events that were sent are those with an outcome and the unconfirmed ones, those and
-- the unsent ones are the planned ones, and no more were sent than generated.
pub run_balances :
    (planned : ℕ) (turns : List (ℕ × Turn))
    → All IsComplete turns
    → sizes turns ≤ planned
    → ((run_scenario planned turns).sent
        ≡ total (run_scenario planned turns).counts + (run_scenario planned turns).unconfirmed)
      × ((run_scenario planned turns).sent + (run_scenario planned turns).unsent ≡ planned)
      × ((run_scenario planned turns).sent ≤ (run_scenario planned turns).generated)
unfolding run_scenario
run_balances planned turns h fits =
    let s = started planned in
    let first : IsBalanced s = record { balance = omega arith; within = omega arith } in
    let (v, p, g) = send_all-IsBalanced turns s h first in
    let b = v.balance in let w = v.within in (b, omega (arith, p, g, w), w)

clean_send :
    (turns : List (ℕ × Turn)) (s : Summary)
    → All IsComplete turns
    → (send_all turns s).cancelled ≡ false
    → (send_all turns s).failures ≡ 0
    → ((send_all turns s).unconfirmed ≡ s.unconfirmed)
      × (total (send_all turns s).counts ≡ total s.counts + sizes turns)
unfolding send_all
clean_send [] s h c f = (refl, omega arith)
clean_send ((size, confirmed outcomes) ∷ rest) s h c f =
    let t = confirm size outcomes (start_send size (generate size s)) in
    let (u, n) = clean_send rest t h.1 c f in
    let counted = total-add_outcomes s.counts outcomes in
    let k = h.0 in (omega (arith, u), omega (arith, n, counted, k))
clean_send ((size, interrupted_before) ∷ rest) s h c f = absurd (ground arith)
clean_send ((size, interrupted_in_send) ∷ rest) s h c f = absurd (ground arith)
clean_send ((size, failed_in_send) ∷ rest) s h c f = absurd (omega (arith, f))

-- With one outcome for each event of a confirmed batch: a run that was not cancelled and had no
-- failure leaves nothing unconfirmed, and has counted an outcome for every event of its batches.
pub clean_run_confirms :
    (planned : ℕ) (turns : List (ℕ × Turn))
    → All IsComplete turns
    → (run_scenario planned turns).cancelled ≡ false
    → (run_scenario planned turns).failures ≡ 0
    → ((run_scenario planned turns).unconfirmed ≡ 0)
      × (total (run_scenario planned turns).counts ≡ sizes turns)
unfolding run_scenario
clean_run_confirms planned turns h c f =
    let (u, n) = clean_send turns (started planned) h c f in (u, omega (arith, n))

-- What every publish keeps.
pub record IsMqttBalanced (s : MqttSummary) : Type 0 where
  pub balance : s.sent ≡ s.broker_acknowledged + s.unconfirmed
  pub idle : s.unconfirmed ≡ 0

publish_all-balance :
    (publishes : List Publish) (s : MqttSummary)
    → IsMqttBalanced s
    → ((publish_all publishes s).sent
        ≡ (publish_all publishes s).broker_acknowledged + (publish_all publishes s).unconfirmed)
      × ((publish_all publishes s).unconfirmed ≤ 1)
      × ((publish_all publishes s).sent ≤ s.sent + length publishes)
      × ((publish_all publishes s).planned ≡ s.planned)
unfolding publish_all
publish_all-balance [] s v =
    let b = v.balance in let z = v.idle in (b, omega (arith, z), omega arith, refl)
publish_all-balance (acknowledged ∷ rest) s v =
    let b = v.balance in
    let z = v.idle in
    let t = acknowledge (start_publish s) in
    let (b', u, n, p) =
      publish_all-balance rest t
        (record { balance = omega (arith, b, z); idle = omega (arith, z) }) in
    (b', u, omega (arith, n), p)
publish_all-balance (cancelled_before ∷ rest) s v =
    let b = v.balance in let z = v.idle in (b, omega (arith, z), omega arith, refl)
publish_all-balance (cancelled_in_publish ∷ rest) s v =
    let b = v.balance in let z = v.idle in (omega (arith, b), omega (arith, z), omega arith, refl)
publish_all-balance (failed_in_publish ∷ rest) s v =
    let b = v.balance in let z = v.idle in (omega (arith, b), omega (arith, z), omega arith, refl)

-- However the publishing of at most the planned events goes: what was sent is acknowledged by the broker
-- or unconfirmed, at most one event is unconfirmed, and the sent and unsent events are the planned ones.
pub mqtt_run_balances :
    (planned : ℕ) (publishes : List Publish)
    → length publishes ≤ planned
    → ((run_mqtt_scenario planned publishes).sent
        ≡ (run_mqtt_scenario planned publishes).broker_acknowledged
          + (run_mqtt_scenario planned publishes).unconfirmed)
      × ((run_mqtt_scenario planned publishes).unconfirmed ≤ 1)
      × ((run_mqtt_scenario planned publishes).sent + (run_mqtt_scenario planned publishes).unsent
          ≡ planned)
unfolding run_mqtt_scenario
mqtt_run_balances planned publishes fits =
    let first : IsMqttBalanced (mqtt_started planned) = record {
      balance = omega arith;
      idle = refl;
    } in
    let (b, u, n, p) = publish_all-balance publishes (mqtt_started planned) first in
    (b, u, omega (arith, n, p, fits))
