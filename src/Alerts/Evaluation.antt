-- ===== src/Alerts/Evaluation.antt =====
-- What `evaluate_accepted_reading` does to consistent alert tables.
use industrial_equipment_mon.Prelude.{
  ℕ, ◌+◌, ◌≤◌, ◌≡◌, refl, sym, ◌∙◌, inl, inr, String, Option, none, some, arith, eq_nat, eq_string,
  Bool, false, Bool-cases, Option-cases, nat_eq, leb, if◌then◌else◌,
}
use mathlib.Core.Path.{subst}
use industrial_equipment_mon.Prelude.Table.{lookup}
use industrial_equipment_mon.Decimal.{lt_decimal}
use industrial_equipment_mon.Telemetry.Schemas.{TelemetryEvent}
use industrial_equipment_mon.Db.Models.{AlertTables, AlertState, AlertEpisode}
use industrial_equipment_mon.Alerts.Service.{
  high_threshold, recovery_threshold, event_at, is_fresh, put_state, open_episode, close_episode,
  new_state, advance_idle, advance_active, advance_by, advance, evaluate_in_order,
  evaluate_accepted_reading,
}
use industrial_equipment_mon.Alerts.Invariant.{
  Episodes, Fits, IsValid, put_state-IsValid, Fits-new_state,
}
use industrial_equipment_mon.Alerts.Episodes.{open_episode-IsValid, close_episode-IsValid}

-- The call ends without a fault, in consistent tables.
abbrev pub Keeps : Option AlertTables → Type 0
Keeps r = (t : AlertTables) × (r ≡ some t) × IsValid t

-- A state that differs from a fitting one in its counters and in a later last reading.
Fits-recount :
    (es : Episodes) (device : String) (s s' : AlertState)
    → Fits es device s
    → s'.active_episode_id ≡ s.active_episode_id
    → s.last_event_at ≤ s'.last_event_at
    → s'.high_streak ≤ 2
    → s'.recovery_streak ≤ 2
    → Fits es device s'
Fits-recount es device s s' f same later high recovery = record {
  high = high;
  recovery = recovery;
  active = λ id q.
      let a = f.active id (sym same ∙ q) in
      record {
        episode = a.episode;
        found = a.found;
        of_device = a.of_device;
        unresolved = a.unresolved;
        opened_before = let h = a.opened_before in omega arith;
      };
  owns = λ id e q r u. same ∙ f.owns id e q r u;
}

-- The counter after one more reading, where it has not reached three.
streak_below :
    (b : Bool) (n : ℕ)
    → n ≤ 2
    → nat_eq (if b then n + 1 else 0) 3 ≡ false
    → (if b then n + 1 else 0) ≤ 2
streak_below b n h q = ground arith

module _ (t : AlertTables) (item : TelemetryEvent) (telemetry_id at : ℕ) (v : IsValid t) where
  module _ (s : AlertState) (f : Fits t.alert_episodes item.device_id s)
      (later : s.last_event_at ≤ at) where
    advance_idle-Keeps : s.active_episode_id ≡ none → Keeps (advance_idle t item telemetry_id at s)
    unfolding advance_idle
    advance_idle-Keeps idle =
        let streak = if lt_decimal high_threshold item.value then s.high_streak + 1 else 0 in
        elim (Bool-cases (nat_eq streak 3)) [
          | inl third ↦
              let s' : AlertState = record s { last_event_at = at; high_streak = 0 } in
              (
                open_episode t item.device_id telemetry_id at s',
                rw third,
                open_episode-IsValid t item.device_id telemetry_id at s' v
                    (Fits-recount t.alert_episodes item.device_id s s' f refl later (omega arith)
                      f.recovery)
                    idle refl,
              )
          | inr more ↦
              let s' : AlertState = record s { last_event_at = at; high_streak = streak } in
              (
                put_state item.device_id s' t,
                rw more,
                put_state-IsValid t item.device_id s' v (
                    Fits-recount t.alert_episodes item.device_id s s' f refl later
                      (streak_below (lt_decimal high_threshold item.value) s.high_streak f.high
                        more)
                      f.recovery),
              )
        ]

    advance_active-Keeps :
        (id : ℕ)
        → s.active_episode_id ≡ some id
        → Keeps (advance_active t item telemetry_id at s id)
    unfolding advance_active
    advance_active-Keeps id active =
        let streak =
          if lt_decimal item.value recovery_threshold then s.recovery_streak + 1 else 0 in
        let a = f.active id active in
        elim (Bool-cases (nat_eq streak 3)) [
          | inl third ↦
              let s' : AlertState = record s { last_event_at = at; recovery_streak = 0 } in
              (
                close_episode t item.device_id telemetry_id at s' id a.episode,
                rw (third, a.found),
                close_episode-IsValid t item.device_id telemetry_id at s' id a.episode v
                    (Fits-recount t.alert_episodes item.device_id s s' f refl later f.high
                      (omega arith))
                    active a.found a.of_device (let h = a.opened_before in omega arith),
              )
          | inr more ↦
              let s' : AlertState = record s { last_event_at = at; recovery_streak = streak } in
              (
                put_state item.device_id s' t,
                rw more,
                put_state-IsValid t item.device_id s' v (
                    Fits-recount t.alert_episodes item.device_id s s' f refl later f.high (
                      streak_below (lt_decimal item.value recovery_threshold) s.recovery_streak
                        f.recovery more)),
              )
        ]

    abbrev ByEpisode : Option ℕ → Type 0
    ByEpisode o = Keeps (advance_by t item telemetry_id at s o)

    advance-Keeps : Keeps (advance t item telemetry_id at s)
    advance-Keeps = elim (Option-cases s.active_episode_id) [
      | inl idle ↦ subst ByEpisode (sym idle) (advance_idle-Keeps idle)
      | inr (id, active) ↦ subst ByEpisode (sym active) (advance_active-Keeps id active)
    ]

  evaluate_in_order-Keeps :
      Keeps (evaluate_in_order t item telemetry_id at (lookup item.device_id t.alert_states))
  evaluate_in_order-Keeps = elim (Option-cases (lookup item.device_id t.alert_states)) [
    | inl missing ↦
        rw missing (
          advance-Keeps (new_state at) (Fits-new_state t item.device_id at v missing) (omega arith))
    | inr (s, found) ↦ rw found (elim (Bool-cases (leb at s.last_event_at)) [
      | inl late ↦ rw late (t, refl, v)
      | inr new ↦ rw new (advance-Keeps s (v.rows item.device_id s found) (ground arith))
    ])
  ]

-- On consistent alert tables, evaluating any accepted reading ends without a fault, in consistent
-- tables: the counters stay at two or below, a device's active episode is there, is its own and is
-- open, each open episode is the active one of its device, and none is resolved before it opened.
pub evaluate-Keeps :
    (t : AlertTables) (item : TelemetryEvent) (telemetry_id backend_received_at : ℕ)
    → IsValid t
    → (t' : AlertTables) × (evaluate_accepted_reading t item telemetry_id backend_received_at
        ≡ some t')
      × IsValid t'
unfolding evaluate_accepted_reading
evaluate-Keeps t item telemetry_id now v = elim (Bool-cases (is_fresh now (event_at item))) [
  | inl fresh ↦ rw fresh (evaluate_in_order-Keeps t item telemetry_id (event_at item) v)
  | inr stale ↦ rw stale (t, refl, v)
]

-- In consistent alert tables two open episodes of one device are one episode.
one_active_episode :
    (t : AlertTables) (i j : ℕ) (a b : AlertEpisode)
    → IsValid t
    → lookup i t.alert_episodes ≡ some a
    → lookup j t.alert_episodes ≡ some b
    → a.resolved_at ≡ none
    → b.resolved_at ≡ none
    → a.device_id ≡ b.device_id
    → i ≡ j
one_active_episode t i j a b v p q open_a open_b same =
    let (s, row) = v.owned i a p open_a in
    let f = v.rows a.device_id s row in
    cc (f.owns i a p refl open_a, f.owns j b q (sym same) open_b)
