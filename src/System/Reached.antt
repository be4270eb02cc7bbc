-- ===== src/System/Reached.antt =====
-- The states that requests reach, and what is read in them.
use industrial_equipment_mon.Prelude.{
  Bool-cases, ℕ, ◌≡◌, refl, inl, inr, String, Option, none, some, List, [], ◌∷◌, All, Option-cases,
}
use Prim.Native.Nat.{min}
use industrial_equipment_mon.Core.GatewayAuth.{Credential, resolve_gateway}
use industrial_equipment_mon.Telemetry.Json.{Value}
use industrial_equipment_mon.Telemetry.Validation.{Instants}
use industrial_equipment_mon.Telemetry.Validation.Batch.{
  ParsedBatch, parsed, refused, parse_telemetry_batch,
}
use industrial_equipment_mon.Telemetry.Repository.{Server}
use industrial_equipment_mon.Telemetry.Router.{ingest_telemetry, ingest_parsed, ingest_as}
use industrial_equipment_mon.Prelude.Table.{Table}
use industrial_equipment_mon.Db.Models.{Commit, is_confirmed, AlertEpisode, Database}
use industrial_equipment_mon.Alerts.References.{OfEpisode}
use industrial_equipment_mon.Alerts.Listing.{value_of, join_episode, list_alert_episodes}
use industrial_equipment_mon.Alerts.Listing.Active.{actives, IsActiveFirst, IsJoined, listed_active}
use industrial_equipment_mon.Telemetry.Ingest.Sound.{IsRegistered}
use industrial_equipment_mon.Broker.{Broker}
use industrial_equipment_mon.Devices.Registry.{Credentials, record_heartbeat}
use industrial_equipment_mon.Devices.Registration.{Verdict}
use industrial_equipment_mon.Devices.Registration.Atomic.{Request}
use industrial_equipment_mon.Devices.Router.{post_heartbeat}
use industrial_equipment_mon.Devices.Router.Answers.{serve, serve-perform}
use industrial_equipment_mon.System.{State, Step, Reach, here, next}
use industrial_equipment_mon.System.Consistent.{IsConsistent, IsOpened}
use industrial_equipment_mon.System.Requests.{
  settled-IsConsistent, perform-IsConsistent, heartbeat-IsConsistent,
}
use industrial_equipment_mon.System.Ingestion.{ingest-IsConsistent}

module _ (i : Instants) (decode : String → Option Value) (tokens : List Credential) (b : Broker)
    (c : Credentials) where
  parsed-IsConsistent :
      (server : Server) (commit : Commit) (db : Database) (gateway_id batch_id : String)
      (p : ParsedBatch)
      → IsConsistent db
      → IsConsistent (ingest_parsed server commit db gateway_id batch_id p).1
  parsed-IsConsistent server commit db gateway_id batch_id (refused reason) v = v
  parsed-IsConsistent server commit db gateway_id batch_id (parsed batch) v =
      ingest-IsConsistent server commit db gateway_id batch batch_id v

  as-IsConsistent :
      (server : Server) (commit : Commit) (db : Database) (body batch_id : String)
      (o : Option String)
      → IsConsistent db
      → IsConsistent (ingest_as i decode server commit db body batch_id o).1
  as-IsConsistent server commit db body batch_id none v = v
  as-IsConsistent server commit db body batch_id (some gateway_id) v =
      parsed-IsConsistent server commit db gateway_id batch_id (parse_telemetry_batch i decode body)
        v

  served-IsConsistent :
      (verdict : Verdict) (request : Request) (db : Database) (s : Broker.State b)
      → IsConsistent db
      → IsConsistent (serve b c verdict request db s).1.0
  served-IsConsistent verdict request db s v =
      rw (serve-perform b c verdict request db s) (perform-IsConsistent b c verdict db v request s)

  beat-IsConsistent :
      (verdict : Verdict) (db : Database) (device_id password : String) (now : ℕ)
      → IsConsistent db
      → IsConsistent (post_heartbeat c verdict db device_id password now).1
  unfolding post_heartbeat
  beat-IsConsistent verdict db device_id password now v = elim (Bool-cases verdict.storable) [
    | inr lost ↦ rw lost v
    | inl stored ↦ elim (Option-cases (record_heartbeat c db device_id password now)) [
      | inl refused_by ↦ rw (stored, refused_by) v
      | inr (db', seen) ↦
          let v' = heartbeat-IsConsistent c db db' device_id password now v seen in
          elim (Bool-cases (is_confirmed verdict.commit)) [
            | inl heard ↦ rw (stored, seen, heard) v'
            | inr unheard ↦
                rw (stored, seen, unheard) (settled-IsConsistent db db' verdict.commit v v')
          ]
    ]
  ]

  step-IsConsistent :
      {x y : State i decode tokens b c}
      → IsConsistent x.0
      → Step i decode tokens b c x y
      → IsConsistent y.0
  unfolding ingest_telemetry
  step-IsConsistent v (Step.ingestion db s server commit headers body batch_id) =
      as-IsConsistent server commit db body batch_id (resolve_gateway tokens headers) v
  step-IsConsistent v (Step.device_request db s verdict request) =
      served-IsConsistent verdict request db s v
  step-IsConsistent v (Step.heartbeat db s verdict device_id password now) =
      beat-IsConsistent verdict db device_id password now v
  step-IsConsistent v (Step.broker_change db s s') = v

  Reach-IsConsistent :
      {x y : State i decode tokens b c}
      → IsConsistent x.0
      → Reach i decode tokens b c x y
      → IsConsistent y.0
  Reach-IsConsistent v here = v
  Reach-IsConsistent v (next r s) = step-IsConsistent (Reach-IsConsistent v r) s

-- Starting from consistent tables, whatever requests are served in whatever order, however the database
-- and the broker answer: the tables are consistent, which is that they are sound, every reading, alert
-- state and episode refers to a device that is registered, every episode to a reading that is stored,
-- and every device to a gateway that is there.
pub reached-IsConsistent :
    (i : Instants) (decode : String → Option Value) (tokens : List Credential) (b : Broker)
    (c : Credentials) (db db' : Database) (s s' : Broker.State b)
    → IsConsistent db
    → Reach i decode tokens b c (db, s) (db', s')
    → IsConsistent db'
reached-IsConsistent i decode tokens b c db db' s s' v r =
    Reach-IsConsistent i decode tokens b c v r

episodes-IsJoined :
    (db : Database) (t : Table ℕ AlertEpisode)
    → All (OfEpisode (IsRegistered db) (IsOpened db)) t
    → All (IsJoined db) t
unfolding join_episode
episodes-IsJoined db [] h = tt
episodes-IsJoined db ((id, e) ∷ rest) h =
    let (d, there) = h.0.0 in
    (
      rw there (elim (Option-cases (value_of e.opening_telemetry_id db.telemetry)) [
        | inl missing ↦ absurd (cc (rw missing at h.0.1))
        | inr (value, found) ↦ rw found refl
      ]),
      episodes-IsJoined db rest h.1,
    )

-- In every state that requests reach from consistent tables, the list of alert episodes leaves out no
-- active one that the limit has room for: it shows as many as there are, up to the limit, before any
-- resolved one.
pub reached_list :
    (i : Instants) (decode : String → Option Value) (tokens : List Credential) (b : Broker)
    (c : Credentials) (db db' : Database) (s s' : Broker.State b) (limit : ℕ)
    → IsConsistent db
    → Reach i decode tokens b c (db, s) (db', s')
    → (actives (list_alert_episodes db' limit).episodes
        ≡ min limit (list_alert_episodes db' limit).active_count)
      × IsActiveFirst (list_alert_episodes db' limit).episodes
reached_list i decode tokens b c db db' s s' limit v r =
    let v' = reached-IsConsistent i decode tokens b c db db' s s' v r in
    let l = v'.links in
    let (shown, first, _) =
      listed_active db' limit (episodes-IsJoined db' db'.alerts.alert_episodes l.episodes) in
    (shown, first)
