-- ===== src/Alerts/References.antt =====
-- The references of the alert tables, to the devices and to the opening readings, as evaluation writes
-- them.
use industrial_equipment_mon.Prelude.{
  ℕ, ◌≡◌, refl, String, Bool, true, false, Option, none, some, eq_nat, eq_string, All,
  if◌then◌else◌, inl, inr, nat_eq, leb, Bool-cases, ◌+◌,
}
use industrial_equipment_mon.Decimal.{lt_decimal}
use mathlib.Core.Path.{subst}
use industrial_equipment_mon.Prelude.Table.{lookup, insert, All-insert, All-lookup}
use industrial_equipment_mon.Telemetry.Schemas.{TelemetryEvent}
use industrial_equipment_mon.Db.Models.{AlertTables, AlertState, AlertEpisode}
use industrial_equipment_mon.Alerts.Service.{
  high_threshold, recovery_threshold, is_fresh, advance, event_at, new_state, close_found,
  advance_idle, advance_active, advance_by, evaluate_in_order, evaluate_accepted_reading,
}

-- The devices that the tables name satisfy `P`, and with the opening reading they satisfy `Q`.
module _ (P : String → Type 0) (Q : String → ℕ → Type 0) where
  abbrev pub OfState : String × AlertState → Type 0
  OfState (device, s) = P device

  abbrev pub OfEpisode : ℕ × AlertEpisode → Type 0
  OfEpisode (id, e) = Q e.device_id e.opening_telemetry_id

  pub record Links (t : AlertTables) : Type 0 where
    pub states : All OfState t.alert_states
    pub episodes : All OfEpisode t.alert_episodes

  abbrev LinksIf : Option AlertTables → Type 0
  LinksIf none = Unit
  LinksIf (some t) = Links t

  module _ (item : TelemetryEvent) (telemetry_id : ℕ) (p : P item.device_id)
      (q : Q item.device_id telemetry_id) (t : AlertTables) (l : Links t) where
    state-Links :
        (s : AlertState)
        → Links (record t { alert_states = insert item.device_id s t.alert_states })
    state-Links s = record {
      states = All-insert OfState item.device_id s t.alert_states p l.states;
      episodes = l.episodes;
    }

    LinksIf-if :
        (b : Bool) (x y : Option AlertTables) → LinksIf x → LinksIf y → LinksIf (if b then x else y)
    LinksIf-if true x y h k = h
    LinksIf-if false x y h k = k

    idle_links : (at : ℕ) (s : AlertState) → LinksIf (advance_idle t item telemetry_id at s)
    unfolding advance_idle
    idle_links at s =
        let streak = if lt_decimal high_threshold item.value then s.high_streak + 1 else 0 in
        let counted : AlertState = record s { last_event_at = at; high_streak = streak } in
        elim (Bool-cases (nat_eq streak 3)) [
          | inr more ↦ rw more (state-Links counted)
          | inl third ↦ rw third (record {
            states = All-insert OfState item.device_id _ t.alert_states p l.states;
            episodes = All-insert OfEpisode t.next_episode_id _ t.alert_episodes q l.episodes;
          })
        ]

    close_links :
        (at : ℕ) (s : AlertState) (id : ℕ) (o : Option AlertEpisode)
        → lookup id t.alert_episodes ≡ o
        → LinksIf (close_found t item.device_id telemetry_id at s id o)
    close_links at s id none h = tt
    close_links at s id (some e) h = record {
      states = All-insert OfState item.device_id _ t.alert_states p l.states;
      episodes =
          All-insert OfEpisode id _ t.alert_episodes
            (All-lookup OfEpisode id e t.alert_episodes l.episodes h) l.episodes;
    }

    active_links :
        (at : ℕ) (s : AlertState) (id : ℕ) → LinksIf (advance_active t item telemetry_id at s id)
    unfolding advance_active
    active_links at s id =
        let streak =
          if lt_decimal item.value recovery_threshold then s.recovery_streak + 1 else 0 in
        let counted : AlertState = record s { last_event_at = at; recovery_streak = streak } in
        let closing : AlertState = record s { last_event_at = at; recovery_streak = 0 } in
        elim (Bool-cases (nat_eq streak 3)) [
          | inr more ↦ rw more (state-Links counted)
          | inl third ↦ rw third (close_links at closing id (lookup id t.alert_episodes) refl)
        ]

    by_links :
        (at : ℕ) (s : AlertState) (o : Option ℕ) → LinksIf (advance_by t item telemetry_id at s o)
    by_links at s none = idle_links at s
    by_links at s (some id) = active_links at s id

    in_order_links :
        (at : ℕ) (o : Option AlertState) → LinksIf (evaluate_in_order t item telemetry_id at o)
    in_order_links at none = by_links at (new_state at) none
    in_order_links at (some s) =
        LinksIf-if (leb at s.last_event_at) (some t) (advance t item telemetry_id at s) l
          (by_links at s s.active_episode_id)

    -- Evaluating a reading keeps the links, where they hold for its device and for its own row.
    pub evaluate-Links :
        (now : ℕ) (t' : AlertTables)
        → evaluate_accepted_reading t item telemetry_id now ≡ some t'
        → Links t'
    unfolding evaluate_accepted_reading
    evaluate-Links now t' h = subst LinksIf h (elim (Bool-cases (is_fresh now (event_at item))) [
      | inl fresh ↦ rw fresh (in_order_links (event_at item) (lookup item.device_id t.alert_states))
      | inr stale ↦ rw stale l
    ])
