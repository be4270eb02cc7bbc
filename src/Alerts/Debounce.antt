-- ===== src/Alerts/Debounce.antt =====
-- Debouncing: an episode opens on three high readings in a row, and the open episode is resolved on
-- three readings below the recovery threshold in a row, against a sliding window over the readings.
use industrial_equipment_mon.Prelude.{
  ℕ, ◌+◌, ◌≤◌, ◌<◌, ◌≡◌, ◌↔◌, refl, sym, ap, ◌∙◌, inl, inr, String, Option, none, some, arith,
  eq_nat, eq_string, Bool, true, false, ◌&&◌, ◌||◌, Bool-cases, Option-cases, nat_eq, leb,
  if◌then◌else◌, List, [], ◌∷◌,
}
use mathlib.Core.Path.{subst}
use industrial_equipment_mon.Prelude.Table.{lookup, lookup-insert_self}
use industrial_equipment_mon.Decimal.{Decimal, lt_decimal}
use industrial_equipment_mon.Telemetry.Schemas.{TelemetryEvent}
use industrial_equipment_mon.Db.Models.{AlertTables, AlertState}
use industrial_equipment_mon.Alerts.Service.{
  high_threshold, event_at, is_fresh, put_state, open_episode, advance_idle, advance_active,
  advance_by, evaluate_accepted_reading,
}
use industrial_equipment_mon.Alerts.Invariant.{IsValid}
use industrial_equipment_mon.Alerts.Evaluation.{evaluate-Keeps}

-- An accepted reading as evaluation receives it.
pub record Arrival : Type 0 where
  pub item : TelemetryEvent
  pub telemetry_id : ℕ
  pub backend_received_at : ℕ

-- The readings evaluated one after the other.
unfoldable pub evaluate_all : AlertTables → List Arrival → Option AlertTables
evaluate_all t [] = some t
evaluate_all t (a ∷ rest) =
    elim (evaluate_accepted_reading t a.item a.telemetry_id a.backend_received_at) [
      | none ↦ none
      | some t' ↦ evaluate_all t' rest
    ]

-- The readings are one device's, each fresh on arrival and later than the one before it.
abbrev pub InOrder : String → ℕ → List Arrival → Type 0
InOrder device last [] = Unit
InOrder device last (a ∷ rest) =
    (a.item.device_id ≡ device)
    × (is_fresh a.backend_received_at (event_at a.item) ≡ true)
    × (last < event_at a.item)
    × InOrder device (event_at a.item) rest

abbrev pub values : List Arrival → List Decimal
values [] = []
values (a ∷ rest) = a.item.value ∷ values rest

-- Some three neighbours all pass the test: the specification, a window over the list.
unfoldable pub three_in_a_row : (Decimal → Bool) → List Decimal → Bool
three_in_a_row p (a ∷ b ∷ c ∷ rest) = (p a && p b && p c) || three_in_a_row p (b ∷ c ∷ rest)
three_in_a_row p _ = false

-- The same with a counter: how many readings in a row have passed so far.
unfoldable pub run_of_three : (Decimal → Bool) → ℕ → List Decimal → Bool
run_of_three p n [] = false
run_of_three p n (a ∷ rest) =
    let more = run_of_three p (n + 1) rest in
    let again = run_of_three p 0 rest in if p a then nat_eq n 2 || more else again

pub run_of_three-window :
    (p : Decimal → Bool) (xs : List Decimal) → run_of_three p 0 xs ≡ three_in_a_row p xs
unfolding run_of_three three_in_a_row
run_of_three-window p [] = refl
run_of_three-window p (a ∷ []) = ground arith
run_of_three-window p (a ∷ b ∷ []) = ground arith
run_of_three-window p (a ∷ b ∷ c ∷ rest) = ground (arith, run_of_three-window p (b ∷ c ∷ rest))

-- Evaluation never takes an episode's number back.
next_id_step :
    (t t' : AlertTables) (a : Arrival)
    → evaluate_accepted_reading t a.item a.telemetry_id a.backend_received_at ≡ some t'
    → t.next_episode_id ≤ t'.next_episode_id
unfolding evaluate_accepted_reading advance_idle advance_active
next_id_step t t' a h = ground arith

next_id_grows :
    (t t' : AlertTables) (rs : List Arrival)
    → evaluate_all t rs ≡ some t'
    → t.next_episode_id ≤ t'.next_episode_id
unfolding evaluate_all
next_id_grows t t' [] h = ground arith
next_id_grows t t' (a ∷ rest) h =
    elim (Option-cases (evaluate_accepted_reading t a.item a.telemetry_id a.backend_received_at)) [
      | inl fault ↦ absurd (cc (rw (fault, evaluate_all) at h))
      | inr (t1, e) ↦
          let more = next_id_grows t1 t' rest (rw (e, evaluate_all) at h) in
          let first = next_id_step t t1 a e in omega arith
    ]

abbrev pub is_high : Decimal → Bool
is_high value = lt_decimal high_threshold value

module _ (t : AlertTables) (s : AlertState) (a : Arrival)
    (row : lookup a.item.device_id t.alert_states ≡ some s) (idle : s.active_episode_id ≡ none)
    (fresh : is_fresh a.backend_received_at (event_at a.item) ≡ true)
    (later : s.last_event_at < event_at a.item) where
  abbrev at : ℕ
  at = event_at a.item

  abbrev evaluated : Option AlertTables
  evaluated = evaluate_accepted_reading t a.item a.telemetry_id a.backend_received_at

  evaluated-idle : evaluated ≡ advance_idle t a.item a.telemetry_id at s
  unfolding evaluate_accepted_reading
  evaluated-idle =
      rw (fresh, row) (rw (late_false) (ap (advance_by t a.item a.telemetry_id at s) idle))
    where
      late_false : leb at s.last_event_at ≡ false
      late_false = ground arith

  -- One more reading of an idle device: the third in a row opens an episode, another is counted.
  abbrev counted : AlertTables
  counted =
      put_state a.item.device_id
        (record s {
          last_event_at = at;
          high_streak = if is_high a.item.value then s.high_streak + 1 else 0;
        })
        t

  step_counts : (is_high a.item.value && nat_eq s.high_streak 2) ≡ false → evaluated ≡ some counted
  unfolding advance_idle
  step_counts h = evaluated-idle ∙ ground arith

  step_opens :
      (is_high a.item.value && nat_eq s.high_streak 2) ≡ true
      → (t' : AlertTables) × (evaluated ≡ some t') × (t'.next_episode_id ≡ t.next_episode_id + 1)
  unfolding advance_idle
  step_opens h = (
    open_episode t a.item.device_id a.telemetry_id at
        (record s { last_event_at = at; high_streak = 0 }),
    evaluated-idle ∙ ground arith,
    refl,
  )

-- From a device with no active episode, whose counter stands at `n`: an episode opens exactly when
-- the readings complete a run of three.
opens_by_count :
    (t t' : AlertTables) (s : AlertState) (device : String) (rs : List Arrival)
    → lookup device t.alert_states ≡ some s
    → s.active_episode_id ≡ none
    → InOrder device s.last_event_at rs
    → evaluate_all t rs ≡ some t'
    → (t.next_episode_id < t'.next_episode_id)
      ↔ (run_of_three is_high s.high_streak (values rs) ≡ true)
unfolding evaluate_all run_of_three
opens_by_count t t' s device [] row idle order h = ((λ q. ground arith), (λ q. cc))
opens_by_count t t' s device (a ∷ rest) row idle order h =
    let own = subst (λ d. lookup d t.alert_states ≡ some s) (sym order.0) row in
    elim (Bool-cases (is_high a.item.value && nat_eq s.high_streak 2)) [
      | inl third ↦
          let (t1, e, up) = step_opens t s a own idle order.1 order.2 third in
          let grows = next_id_grows t1 t' rest (rw (e, evaluate_all) at h) in
          ((λ q. ground arith), (λ q. omega arith))
      | inr more ↦
          let n = if is_high a.item.value then s.high_streak + 1 else 0 in
          let s1 : AlertState = record s { last_event_at = event_at a.item; high_streak = n } in
          let t1 = put_state a.item.device_id s1 t in
          let e = step_counts t s a own idle order.1 order.2 more in
          let row1 =
            subst (λ d. lookup d t1.alert_states ≡ some s1) order.0
              (lookup-insert_self a.item.device_id s1 t.alert_states) in
          let ih =
            opens_by_count t1 t' s1 device rest row1 idle order.3 (rw (e, evaluate_all) at h) in
          ((λ q. ground (arith, ih.0 q)), (λ q. ih.1 (ground arith)))
    ]

pub evaluate_all-Keeps :
    (t : AlertTables) (rs : List Arrival)
    → IsValid t
    → (t' : AlertTables) × (evaluate_all t rs ≡ some t') × IsValid t'
unfolding evaluate_all
evaluate_all-Keeps t [] v = (t, refl, v)
evaluate_all-Keeps t (a ∷ rest) v =
    let (t1, e, v1) = evaluate-Keeps t a.item a.telemetry_id a.backend_received_at v in
    let (t', e', v') = evaluate_all-Keeps t1 rest v1 in (t', rw (e, evaluate_all) e', v')

-- In consistent alert tables, for a device whose counter stands at zero and that has no active
-- episode, whatever fresh readings of it arrive in order: all are evaluated without a fault, and an
-- episode opens exactly when some three readings in a row are above the high threshold.
pub opens_on_three_high :
    (t : AlertTables) (s : AlertState) (device : String) (rs : List Arrival)
    → IsValid t
    → lookup device t.alert_states ≡ some s
    → s.active_episode_id ≡ none
    → s.high_streak ≡ 0
    → InOrder device s.last_event_at rs
    → (t' : AlertTables) × (evaluate_all t rs ≡ some t')
      × ((t.next_episode_id < t'.next_episode_id) ↔ (three_in_a_row is_high (values rs) ≡ true))
opens_on_three_high t s device rs v row idle zero order =
    let (t', e, _) = evaluate_all-Keeps t rs v in
    let counted = opens_by_count t t' s device rs row idle order e in
    let window =
      ap (λ n. run_of_three is_high n (values rs)) zero ∙ run_of_three-window is_high (values rs) in
    (t', e, ((λ q. sym window ∙ counted.0 q), (λ q. counted.1 (window ∙ q))))
