-- ===== src/Alerts/Episodes.antt =====
-- Opening and closing an episode keep the alert tables consistent.
use industrial_equipment_mon.Prelude.{
  ℕ, ◌≤◌, ◌<◌, ◌≡◌, ◌≢◌, refl, sym, ap, ◌∙◌, inl, inr, String, none, some, arith, eq_nat, eq_string,
}
use industrial_equipment_mon.Prelude.Table.{
  lookup, insert, lookup-insert_self, lookup-insert_ne, lookup-insert_cases, lookup-insert_keeps,
}
use industrial_equipment_mon.Db.Models.{AlertTables, AlertState, AlertEpisode}
use industrial_equipment_mon.Alerts.Service.{open_episode, close_episode}
use industrial_equipment_mon.Alerts.Invariant.{Episodes, IsActive, Fits, IsValid, written_rows}

-- Opening: the device has no active episode, and its last reading is the one that opens.
module _ (t : AlertTables) (device : String) (telemetry_id at : ℕ) (s : AlertState) (v : IsValid t)
    (f : Fits t.alert_episodes device s) (idle : s.active_episode_id ≡ none)
    (now : s.last_event_at ≡ at) where
  abbrev opening : AlertEpisode
  opening = record {
    device_id = device;
    opened_at = at;
    resolved_at = none;
    opening_telemetry_id = telemetry_id;
    resolving_telemetry_id = none;
  }

  abbrev opened : Episodes
  opened = insert t.next_episode_id opening t.alert_episodes

  kept-IsActive :
      (d : String) (s' : AlertState) (id : ℕ)
      → IsActive t.alert_episodes d s' id
      → IsActive opened d s' id
  kept-IsActive d s' id a = record {
    episode = a.episode;
    found =
        lookup-insert_ne t.next_episode_id id opening t.alert_episodes
          (λ q. let h : id < t.next_episode_id = v.ids_below id a.episode a.found in omega arith)
        ∙ a.found;
    of_device = a.of_device;
    unresolved = a.unresolved;
    opened_before = a.opened_before;
  }

  other-Fits :
      (d : String) (s' : AlertState)
      → device ≢ d
      → lookup d t.alert_states ≡ some s'
      → Fits opened d s'
  other-Fits d s' ne p =
      let g = v.rows d s' p in
      record {
        high = g.high;
        recovery = g.recovery;
        active = λ id q. kept-IsActive d s' id (g.active id q);
        owns = λ id e q r u.
            elim (lookup-insert_cases t.next_episode_id id opening e t.alert_episodes q) [
              | inl (_, same) ↦ absurd (ne (ap (λ (x : AlertEpisode). x.device_id) same ∙ r))
              | inr (_, old) ↦ g.owns id e old r u
            ];
      }

  abbrev active_state : AlertState
  active_state = record s { active_episode_id = some t.next_episode_id }

  own-Fits : Fits opened device active_state
  own-Fits = record {
    high = f.high;
    recovery = f.recovery;
    active = λ id q. record {
      episode = opening;
      found =
          ap (λ n. lookup n opened) (cc q)
          ∙ lookup-insert_self t.next_episode_id opening t.alert_episodes;
      of_device = refl;
      unresolved = refl;
      opened_before = omega arith;
    };
    owns = λ id e q r u.
        elim (lookup-insert_cases t.next_episode_id id opening e t.alert_episodes q) [
          | inl (same, _) ↦ ap some same
          | inr (_, old) ↦ absurd (cc (f.owns id e old r u))
        ];
  }

  opened_owned :
      (id : ℕ) (e : AlertEpisode)
      → lookup id opened ≡ some e
      → e.resolved_at ≡ none
      → (s' : AlertState) × (lookup e.device_id (insert device active_state t.alert_states)
          ≡ some s')
  opened_owned id e p q =
      elim (lookup-insert_cases t.next_episode_id id opening e t.alert_episodes p) [
        | inl (_, same) ↦ (
          active_state,
          ap (λ (x : AlertEpisode). lookup x.device_id (insert device active_state t.alert_states))
                (sym same)
              ∙ lookup-insert_self device active_state t.alert_states,
        )
        | inr (_, old) ↦
            lookup-insert_keeps device e.device_id active_state t.alert_states
              (v.owned id e old q).1
      ]

  pub open_episode-IsValid : IsValid (open_episode t device telemetry_id at s)
  open_episode-IsValid = record {
    rows = written_rows t device active_state v opened own-Fits other-Fits;
    owned = opened_owned;
    ids_below = λ id e p.
        elim (lookup-insert_cases t.next_episode_id id opening e t.alert_episodes p) [
          | inl (same, _) ↦ omega arith
          | inr (_, old) ↦ let h = v.ids_below id e old in omega arith
        ];
    resolved_after = λ id e r p q.
        elim (lookup-insert_cases t.next_episode_id id opening e t.alert_episodes p) [
          | inl (_, same) ↦ absurd (cc (ap (λ (x : AlertEpisode). x.resolved_at) same))
          | inr (_, old) ↦ v.resolved_after id e r old q
        ];
  }

-- Closing: the active episode is resolved at a time no earlier than the last reading.
module _ (t : AlertTables) (device : String) (telemetry_id at : ℕ) (s : AlertState) (id : ℕ)
    (e : AlertEpisode) (v : IsValid t) (f : Fits t.alert_episodes device s)
    (active : s.active_episode_id ≡ some id) (found : lookup id t.alert_episodes ≡ some e)
    (of_device : e.device_id ≡ device) (later : e.opened_at ≤ at) where
  abbrev resolved : AlertEpisode
  resolved = record e { resolved_at = some at; resolving_telemetry_id = some telemetry_id }

  abbrev closed : Episodes
  closed = insert id resolved t.alert_episodes

  abbrev idle_state : AlertState
  idle_state = record s { active_episode_id = none }

  closed_other-Fits :
      (d : String) (s' : AlertState)
      → device ≢ d
      → lookup d t.alert_states ≡ some s'
      → Fits closed d s'
  closed_other-Fits d s' ne p =
      let g = v.rows d s' p in
      record {
        high = g.high;
        recovery = g.recovery;
        active = λ i q.
            let a = g.active i q in
            let again : i ≡ id → e ≡ a.episode =
              λ same. cc (found, a.found, ap (λ n. lookup n t.alert_episodes) same) in
            record {
              episode = a.episode;
              found =
                  lookup-insert_ne id i resolved t.alert_episodes (λ same. ne (
                    sym of_device
                    ∙ ap (λ (x : AlertEpisode). x.device_id) (again (sym same))
                    ∙ a.of_device))
                  ∙ a.found;
              of_device = a.of_device;
              unresolved = a.unresolved;
              opened_before = a.opened_before;
            };
        owns = λ i x q r u. elim (lookup-insert_cases id i resolved x t.alert_episodes q) [
          | inl (_, same) ↦ absurd (cc (u, ap (λ (y : AlertEpisode). y.resolved_at) same))
          | inr (_, old) ↦ g.owns i x old r u
        ];
      }

  closed_own-Fits : Fits closed device idle_state
  closed_own-Fits = record {
    high = f.high;
    recovery = f.recovery;
    active = λ i q. absurd (cc);
    owns = λ i x q r u. elim (lookup-insert_cases id i resolved x t.alert_episodes q) [
      | inl (_, same) ↦ absurd (cc (u, ap (λ (y : AlertEpisode). y.resolved_at) same))
      | inr (ne, old) ↦ absurd (ne (cc (active, f.owns i x old r u)))
    ];
  }

  pub close_episode-IsValid : IsValid (close_episode t device telemetry_id at s id e)
  close_episode-IsValid = record {
    rows = written_rows t device idle_state v closed closed_own-Fits closed_other-Fits;
    owned = λ i x p q. elim (lookup-insert_cases id i resolved x t.alert_episodes p) [
      | inl (_, same) ↦ absurd (cc (q, ap (λ (y : AlertEpisode). y.resolved_at) same))
      | inr (_, old) ↦
          lookup-insert_keeps device x.device_id idle_state t.alert_states (v.owned i x old q).1
    ];
    ids_below = λ i x p. elim (lookup-insert_cases id i resolved x t.alert_episodes p) [
      | inl (same, _) ↦ let h = v.ids_below id e found in omega arith
      | inr (_, old) ↦ v.ids_below i x old
    ];
    resolved_after = λ i x r p q. elim (lookup-insert_cases id i resolved x t.alert_episodes p) [
      | inl (_, same) ↦
          let opened_at : e.opened_at ≡ x.opened_at = ap (λ (y : AlertEpisode). y.opened_at) same in
          let resolved_at : some at ≡ x.resolved_at =
            ap (λ (y : AlertEpisode). y.resolved_at) same in
          let ends : at ≡ r = cc (resolved_at, q) in omega arith
      | inr (_, old) ↦ v.resolved_after i x r old q
    ];
  }
