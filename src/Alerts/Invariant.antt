-- ===== src/Alerts/Invariant.antt =====
-- The consistency of the alert tables that db/models.py declares by constraints, and that evaluation
-- keeps it.
use industrial_equipment_mon.Prelude.{
  ℕ, ◌≤◌, ◌<◌, ◌≡◌, ◌≢◌, ap, inl, inr, String, none, some, arith, eq_nat, eq_string,
}
use mathlib.Core.Path.{subst₂}
use industrial_equipment_mon.Prelude.Table.{
  Table, lookup, insert, lookup-insert_cases, lookup-insert_keeps,
}
use industrial_equipment_mon.Db.Models.{AlertTables, AlertState, AlertEpisode}
use industrial_equipment_mon.Alerts.Service.{put_state, new_state}

abbrev pub Episodes : Type 0
Episodes = Table ℕ AlertEpisode

-- The state's episode is there, is the device's, is open, and began no later than the last reading.
pub record IsActive (es : Episodes) (device : String) (s : AlertState) (id : ℕ) : Type 0 where
  pub episode : AlertEpisode
  pub found : lookup id es ≡ some episode
  pub of_device : episode.device_id ≡ device
  pub unresolved : episode.resolved_at ≡ none
  pub opened_before : episode.opened_at ≤ s.last_event_at

-- A state that may stand in the row of a device.
pub record Fits (es : Episodes) (device : String) (s : AlertState) : Type 0 where
  pub high : s.high_streak ≤ 2
  pub recovery : s.recovery_streak ≤ 2
  pub active : (id : ℕ) → s.active_episode_id ≡ some id → IsActive es device s id
  pub owns :
      (id : ℕ) (e : AlertEpisode)
      → lookup id es ≡ some e
      → e.device_id ≡ device
      → e.resolved_at ≡ none
      → s.active_episode_id ≡ some id

pub record IsValid (t : AlertTables) : Type 0 where
  pub rows :
      (device : String) (s : AlertState)
      → lookup device t.alert_states ≡ some s
      → Fits t.alert_episodes device s
  pub owned :
      (id : ℕ) (e : AlertEpisode)
      → lookup id t.alert_episodes ≡ some e
      → e.resolved_at ≡ none
      → (s : AlertState) × (lookup e.device_id t.alert_states ≡ some s)
  pub ids_below :
      (id : ℕ) (e : AlertEpisode) → lookup id t.alert_episodes ≡ some e → id < t.next_episode_id
  pub resolved_after :
      (id : ℕ) (e : AlertEpisode) (at : ℕ)
      → lookup id t.alert_episodes ≡ some e
      → e.resolved_at ≡ some at
      → e.opened_at ≤ at

pub Fits-new_state :
    (t : AlertTables) (device : String) (at : ℕ)
    → IsValid t
    → lookup device t.alert_states ≡ none
    → Fits t.alert_episodes device (new_state at)
Fits-new_state t device at v missing = record {
  high = omega arith;
  recovery = omega arith;
  active = λ id p. absurd (cc);
  owns = λ id e p q r.
      let (s, there) = v.owned id e p r in absurd (cc (ap (λ d. lookup d t.alert_states) q));
}

-- Writing a fitting state in the row of its device.
module _ (t : AlertTables) (device : String) (s : AlertState) (v : IsValid t) where
  pub written_rows :
      (es : Episodes)
      → Fits es device s
      → ((d : String) (s' : AlertState)
          → device ≢ d
          → lookup d t.alert_states ≡ some s'
          → Fits es d s')
      → (d : String) (s' : AlertState) → lookup d (insert device s t.alert_states) ≡ some s'
      → Fits es d s'
  written_rows es f others d s' p = elim (lookup-insert_cases device d s s' t.alert_states p) [
    | inl (same, q) ↦ subst₂ (Fits es) same q f
    | inr (ne, q) ↦ others d s' ne q
  ]

  pub put_state-IsValid : Fits t.alert_episodes device s → IsValid (put_state device s t)
  put_state-IsValid f = record {
    rows = written_rows t.alert_episodes f (λ d s' ne q. v.rows d s' q);
    owned =
        λ id e p q. lookup-insert_keeps device e.device_id s t.alert_states (v.owned id e p q).1;
    ids_below = v.ids_below;
    resolved_after = v.resolved_after;
  }
