-- ===== src/Alerts/Recovery.antt =====
-- Recovery: the open episode of a device is resolved on three readings below the recovery threshold
-- in a row, and by nothing else.
use industrial_equipment_mon.Prelude.{
  ℕ, ◌+◌, ◌<◌, ◌≡◌, refl, sym, ap, ◌∙◌, inl, inr, String, Option, none, some, arith, eq_nat,
  eq_string, Bool, true, false, ◌&&◌, not, is_none, Bool-cases, Option-cases, nat_eq, leb,
  if◌then◌else◌, List, [], ◌∷◌,
}
use mathlib.Core.Path.{subst}
use industrial_equipment_mon.Prelude.Table.{lookup, lookup-insert, lookup-insert_self}
use industrial_equipment_mon.Decimal.{Decimal, lt_decimal}
use industrial_equipment_mon.Db.Models.{AlertTables, AlertState, AlertEpisode}
use industrial_equipment_mon.Alerts.Service.{
  recovery_threshold, event_at, is_fresh, put_state, close_episode, advance_active, advance_idle,
  advance_by, evaluate_accepted_reading,
}
use industrial_equipment_mon.Alerts.Invariant.{IsValid}
use industrial_equipment_mon.Alerts.Debounce.{
  Arrival, evaluate_all, evaluate_all-Keeps, InOrder, values, three_in_a_row, run_of_three,
  run_of_three-window,
}

abbrev pub is_recovered : Decimal → Bool
is_recovered value = lt_decimal value recovery_threshold

abbrev pub is_resolved_row : Option AlertEpisode → Bool
is_resolved_row none = false
is_resolved_row (some e) = not (is_none e.resolved_at)

abbrev pub is_resolved : AlertTables → ℕ → Bool
is_resolved t id = is_resolved_row (lookup id t.alert_episodes)

-- A resolved episode stays resolved: a new episode has a number of its own.
resolved_step :
    (t t' : AlertTables) (a : Arrival) (id : ℕ)
    → id < t.next_episode_id
    → evaluate_accepted_reading t a.item a.telemetry_id a.backend_received_at ≡ some t'
    → is_resolved t id ≡ true
    → (is_resolved t' id ≡ true) × (id < t'.next_episode_id)
unfolding evaluate_accepted_reading advance_idle advance_active
resolved_step t t' a id below h r = grind (arith, lookup-insert)

resolved_stays :
    (t t' : AlertTables) (rs : List Arrival) (id : ℕ)
    → id < t.next_episode_id
    → evaluate_all t rs ≡ some t'
    → is_resolved t id ≡ true
    → is_resolved t' id ≡ true
unfolding evaluate_all
resolved_stays t t' [] id below h r = ground arith
resolved_stays t t' (a ∷ rest) id below h r =
    elim (Option-cases (evaluate_accepted_reading t a.item a.telemetry_id a.backend_received_at)) [
      | inl fault ↦ absurd (cc (rw (fault, evaluate_all) at h))
      | inr (t1, e) ↦
          let (r1, below1) = resolved_step t t1 a id below e r in
          resolved_stays t1 t' rest id below1 (rw (e, evaluate_all) at h) r1
    ]

module _ (t : AlertTables) (s : AlertState) (a : Arrival) (id : ℕ)
    (row : lookup a.item.device_id t.alert_states ≡ some s) (active : s.active_episode_id ≡ some id)
    (fresh : is_fresh a.backend_received_at (event_at a.item) ≡ true)
    (later : s.last_event_at < event_at a.item) where
  abbrev evaluated : Option AlertTables
  evaluated = evaluate_accepted_reading t a.item a.telemetry_id a.backend_received_at

  evaluated-active : evaluated ≡ advance_active t a.item a.telemetry_id (event_at a.item) s id
  unfolding evaluate_accepted_reading
  evaluated-active =
      rw (fresh, row)
        (rw not_late (ap (advance_by t a.item a.telemetry_id (event_at a.item) s) active))
    where
      not_late : leb (event_at a.item) s.last_event_at ≡ false
      not_late = ground arith

  abbrev counted : AlertTables
  counted =
      put_state a.item.device_id
        (record s {
          last_event_at = event_at a.item;
          recovery_streak = if is_recovered a.item.value then s.recovery_streak + 1 else 0;
        })
        t

  step_counts :
      (is_recovered a.item.value && nat_eq s.recovery_streak 2) ≡ false → evaluated ≡ some counted
  unfolding advance_active
  step_counts h = evaluated-active ∙ ground arith

  step_resolves :
      (e : AlertEpisode)
      → lookup id t.alert_episodes ≡ some e
      → (is_recovered a.item.value && nat_eq s.recovery_streak 2) ≡ true
      → (t' : AlertTables) × (evaluated ≡ some t')
        × (is_resolved t' id ≡ true)
        × (t'.next_episode_id ≡ t.next_episode_id)
  unfolding advance_active
  step_resolves e found h =
      let s' : AlertState = record s { last_event_at = event_at a.item; recovery_streak = 0 } in
      let t' = close_episode t a.item.device_id a.telemetry_id (event_at a.item) s' id e in
      (
        t',
        evaluated-active ∙ ground arith,
        ap is_resolved_row (
            lookup-insert_self id
              (record e {
                resolved_at = some (event_at a.item);
                resolving_telemetry_id = some a.telemetry_id;
              })
              t.alert_episodes),
        refl,
      )

resolves_by_count :
    (t t' : AlertTables) (s : AlertState) (device : String) (rs : List Arrival) (id : ℕ)
    (e : AlertEpisode)
    → lookup device t.alert_states ≡ some s
    → s.active_episode_id ≡ some id
    → lookup id t.alert_episodes ≡ some e
    → e.resolved_at ≡ none
    → id < t.next_episode_id
    → InOrder device s.last_event_at rs
    → evaluate_all t rs ≡ some t'
    → is_resolved t' id ≡ run_of_three is_recovered s.recovery_streak (values rs)
unfolding evaluate_all run_of_three
resolves_by_count t t' s device [] id e row active found open_e below order h = ground arith
resolves_by_count t t' s device (a ∷ rest) id e row active found open_e below order h =
    let own = subst (λ d. lookup d t.alert_states ≡ some s) (sym order.0) row in
    elim (Bool-cases (is_recovered a.item.value && nat_eq s.recovery_streak 2)) [
      | inl third ↦
          let (t1, q, done, same) =
            step_resolves t s a id own active order.1 order.2 e found third in
          let stays = resolved_stays t1 t' rest id (omega arith) (rw (q, evaluate_all) at h) done in
          stays ∙ ground arith
      | inr more ↦
          let n = if is_recovered a.item.value then s.recovery_streak + 1 else 0 in
          let s1 : AlertState = record s { last_event_at = event_at a.item; recovery_streak = n } in
          let t1 = put_state a.item.device_id s1 t in
          let q = step_counts t s a id own active order.1 order.2 more in
          let row1 =
            subst (λ d. lookup d t1.alert_states ≡ some s1) order.0
              (lookup-insert_self a.item.device_id s1 t.alert_states) in
          let ih =
            resolves_by_count t1 t' s1 device rest id e row1 active found open_e below order.3
              (rw (q, evaluate_all) at h) in
          ih ∙ ground arith
    ]

-- In consistent alert tables, for a device whose episode `id` is active and whose recovery counter
-- stands at zero, whatever fresh readings of it arrive in order: all are evaluated without a fault,
-- and the episode has then been resolved exactly when some three readings in a row were below the
-- recovery threshold.
pub resolves_on_three_low :
    (t : AlertTables) (s : AlertState) (device : String) (rs : List Arrival) (id : ℕ)
    → IsValid t
    → lookup device t.alert_states ≡ some s
    → s.active_episode_id ≡ some id
    → s.recovery_streak ≡ 0
    → InOrder device s.last_event_at rs
    → (t' : AlertTables) × (evaluate_all t rs ≡ some t')
      × (is_resolved t' id ≡ three_in_a_row is_recovered (values rs))
resolves_on_three_low t s device rs id v row active zero order =
    let (t', q, _) = evaluate_all-Keeps t rs v in
    let a = (v.rows device s row).active id active in
    let by_count =
      resolves_by_count t t' s device rs id a.episode row active a.found a.unresolved
        (v.ids_below id a.episode a.found) order q in
    (
      t',
      q,
      by_count
          ∙ ap (λ n. run_of_three is_recovered n (values rs)) zero
          ∙ run_of_three-window is_recovered (values rs),
    )
