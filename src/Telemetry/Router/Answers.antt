-- ===== src/Telemetry/Router/Answers.antt =====
-- What the answer of the ingestion route says of the request and of the tables.
use industrial_equipment_mon.Prelude.{
  ap, ℕ, ◌≡◌, refl, ◌⊎◌, inl, inr, String, true, false, Option, none, some, List, length, All,
  Bool-cases, Option-cases,
}
use industrial_equipment_mon.Core.{Reply, success, status}
use industrial_equipment_mon.Core.GatewayAuth.{Credential, resolve_gateway}
use industrial_equipment_mon.Telemetry.Json.{Value}
use industrial_equipment_mon.Telemetry.Schemas.{TelemetryResponseItem, ValidatedTelemetryBatch}
use industrial_equipment_mon.Db.Models.{
  Commit, commit_confirmed, commit_refused, commit_unheard, Database,
}
use industrial_equipment_mon.Telemetry.Repository.{Server, lock_gateway_eligibility}
use industrial_equipment_mon.Telemetry.Ingest.{
  ingest_items, committed, IngestResult, failed, ingest_batch, device_ids, is_eligible,
}
use industrial_equipment_mon.Telemetry.Repository.{lock_assignments}
use industrial_equipment_mon.Telemetry.Ingest.Answers.{ingest_items-answers}
use industrial_equipment_mon.Telemetry.Ingest.Sound.{IsSound}
use industrial_equipment_mon.Telemetry.Ingest.Assignments.{lock_assignments-registered}
use industrial_equipment_mon.Telemetry.Delivery.{IsResult, delivered_batch}
use industrial_equipment_mon.Telemetry.Validation.{Instants}
use industrial_equipment_mon.Telemetry.Validation.Batch.{
  BatchReason, ParsedBatch, parsed, refused, parse_telemetry_batch,
}
use industrial_equipment_mon.Telemetry.Router.{
  TelemetryBatchResponse, Ingestion, ingest_telemetry, ingest_parsed,
}

module _ (i : Instants) (decode : String → Option Value) (credentials : List Credential)
    (server : Server) (commit : Commit) (db : Database) (headers : List String)
    (body : String) where
  -- Why a request is refused, by the status of the refusal.
  pub data Refused : ℕ → Type 0 where
    unauthenticated : resolve_gateway credentials headers ≡ none → Refused 401
    malformed :
        (gateway_id : String) (reason : BatchReason)
        → resolve_gateway credentials headers ≡ some gateway_id
        → parse_telemetry_batch i decode body ≡ refused reason
        → Refused 400
    not_authorized :
        (gateway_id : String)
        → resolve_gateway credentials headers ≡ some gateway_id
        → is_eligible (lock_gateway_eligibility db gateway_id) ≡ false
        → Refused 403
    rolled_back : commit ≡ commit_refused → Refused 503

  -- A batch that is stored: the gateway of the token is eligible, the body parses, and the answer holds
  -- one result for each event.
  pub record Stored (batch_id : String) (reply : Ingestion) : Type 0 where
    pub gateway_id : String
    pub batch : ValidatedTelemetryBatch
    pub results : List TelemetryResponseItem
    pub resolved : resolve_gateway credentials headers ≡ some gateway_id
    pub parses : parse_telemetry_batch i decode body ≡ parsed batch
    pub eligible : is_eligible (lock_gateway_eligibility db gateway_id) ≡ true
    pub confirmed : reply.0 ≡ success 200 (record { batch_id = batch_id; results = results })
    pub stores :
        ingest_batch server commit_confirmed db gateway_id batch batch_id
        ≡ (committed (record { batch_id = batch_id; results = results }), reply.1)
    pub one_each : length results ≡ length batch.items
    pub each : All IsResult results
    pub sound : IsSound reply.1

  abbrev pub Served : String → Ingestion → Type 0
  Served batch_id reply =
      Stored batch_id reply
      ⊎ ((reply.1 ≡ db) × Refused (status reply.0))
      ⊎ ((commit ≡ commit_unheard)
          × (status reply.0 ≡ 503)
          × (answer : Reply TelemetryBatchResponse) × Stored batch_id (answer, reply.1))

-- Without a commit the loop still ends well, and the error is the database's.
uncommitted :
    (server : Server) (db : Database) (gateway_id : String) (batch : ValidatedTelemetryBatch)
    (batch_id : String)
    → IsSound db
    → is_eligible (lock_gateway_eligibility db gateway_id) ≡ true
    → ingest_batch server commit_refused db gateway_id batch batch_id ≡ (failed, db)
unfolding ingest_batch
uncommitted server db gateway_id batch batch_id sound eligible =
    let ids = device_ids batch.items in
    let (db', rs, e, _, _) =
      ingest_items-answers server gateway_id (lock_assignments db.devices ids) batch.schema_version
        batch.items db sound (lock_assignments-registered db ids) in
    rw (eligible, e) refl

-- A commit whose confirmation is lost has written what a confirmed one writes.
unheard :
    (server : Server) (db db' : Database) (gateway_id : String) (batch : ValidatedTelemetryBatch)
    (batch_id : String) (rs : List TelemetryResponseItem)
    → is_eligible (lock_gateway_eligibility db gateway_id) ≡ true
    → ingest_batch server commit_confirmed db gateway_id batch batch_id
      ≡ (committed (record { batch_id = batch_id; results = rs }), db')
    → ingest_batch server commit_unheard db gateway_id batch batch_id ≡ (failed, db')
unfolding ingest_batch
unheard server db db' gateway_id batch batch_id rs eligible h =
    elim (Option-cases (
      ingest_items server gateway_id (lock_assignments db.devices (device_ids batch.items))
        batch.schema_version db batch.items)) [
          | inl broken ↦ absurd (cc (rw (eligible, broken) at h))
          | inr ((db1, results), e) ↦
              let same : db1 ≡ db' = cc (rw (eligible, e) at h) in
              rw (eligible, e) (ap (λ (x : Database). (failed, x)) same)
        ]

ineligible :
    (server : Server) (commit : Commit) (db : Database) (gateway_id : String)
    (batch : ValidatedTelemetryBatch) (batch_id : String)
    → is_eligible (lock_gateway_eligibility db gateway_id) ≡ false
    → ingest_batch server commit db gateway_id batch batch_id ≡ (IngestResult.gateway_forbidden, db)
unfolding ingest_batch
ineligible server commit db gateway_id batch batch_id h = rw h refl

module _ (i : Instants) (decode : String → Option Value) (credentials : List Credential)
    (server : Server) (db : Database) (headers : List String) (body batch_id gateway_id : String)
    (sound : IsSound db) (resolved : resolve_gateway credentials headers ≡ some gateway_id) where
  abbrev ServedBy : Commit → Ingestion → Type 0
  ServedBy commit reply = Served i decode credentials server commit db headers body batch_id reply

  committed-Stored :
      (commit : Commit) (batch : ValidatedTelemetryBatch)
      → parse_telemetry_batch i decode body ≡ parsed batch
      → is_eligible (lock_gateway_eligibility db gateway_id) ≡ true
      → (db' : Database) × (rs : List TelemetryResponseItem) × (ingest_batch server commit_confirmed
            db gateway_id batch batch_id
          ≡ (committed (record { batch_id = batch_id; results = rs }), db'))
        × Stored i decode credentials server commit db headers body batch_id
            (success 200 (record { batch_id = batch_id; results = rs }), db')
  committed-Stored commit batch parses eligible =
      let (db', rs, e, same, _, _, each, sound') =
        delivered_batch i decode body batch server db gateway_id batch_id parses sound eligible in
      (
        db',
        rs,
        e,
        record {
          gateway_id = gateway_id;
          batch = batch;
          results = rs;
          resolved = resolved;
          parses = parses;
          eligible = eligible;
          confirmed = refl;
          stores = e;
          one_each = same;
          each = each;
          sound = sound';
        },
      )

  eligible-Served :
      (commit : Commit) (batch : ValidatedTelemetryBatch)
      → parse_telemetry_batch i decode body ≡ parsed batch
      → is_eligible (lock_gateway_eligibility db gateway_id) ≡ true
      → ServedBy commit (ingest_parsed server commit db gateway_id batch_id (parsed batch))
  eligible-Served commit_confirmed batch parses eligible =
      let (db', rs, e, stored) = committed-Stored commit_confirmed batch parses eligible in
      rw e (inl stored)
  eligible-Served commit_refused batch parses eligible =
      rw (uncommitted server db gateway_id batch batch_id sound eligible)
        (inr (inl (refl, rolled_back refl)))
  eligible-Served commit_unheard batch parses eligible =
      let (db', rs, e, stored) = committed-Stored commit_unheard batch parses eligible in
      let answer = success 200 (record { batch_id = batch_id; results = rs }) in
      rw (unheard server db db' gateway_id batch batch_id rs eligible e)
        (inr (inr (refl, refl, answer, stored)))

  batch-Served :
      (commit : Commit) (batch : ValidatedTelemetryBatch)
      → parse_telemetry_batch i decode body ≡ parsed batch
      → ServedBy commit (ingest_parsed server commit db gateway_id batch_id (parsed batch))
  batch-Served commit batch parses =
      elim (Bool-cases (is_eligible (lock_gateway_eligibility db gateway_id))) [
        | inr refused_by ↦
            rw (ineligible server commit db gateway_id batch batch_id refused_by)
              (inr (inl (refl, not_authorized gateway_id resolved refused_by)))
        | inl eligible ↦ eligible-Served commit batch parses eligible
      ]

  parsed-Served :
      (commit : Commit) (p : ParsedBatch)
      → parse_telemetry_batch i decode body ≡ p
      → ServedBy commit (ingest_parsed server commit db gateway_id batch_id p)
  parsed-Served commit (parsed batch) parses = batch-Served commit batch parses
  parsed-Served commit (refused reason) parses =
      inr (inl (refl, malformed gateway_id reason resolved parses))

-- A request to ingest over sound tables, however its commit goes. Either the gateway of its token is
-- eligible, its body parses, and it is answered 200 with one admitted result for each event, leaving
-- sound tables; or the tables are unchanged and the status says why: 401 for no gateway's token, 400
-- for a body that does not parse, 403 for a gateway that is not eligible, and 503 for a commit that is
-- rolled back; or the commit is written and its confirmation lost, and the answer is 503 over the very
-- tables that a confirmed commit leaves.
pub ingestion_route :
    (i : Instants) (decode : String → Option Value) (credentials : List Credential)
    (server : Server) (commit : Commit) (db : Database) (headers : List String)
    (body batch_id : String)
    → IsSound db
    → Served i decode credentials server commit db headers body batch_id
        (ingest_telemetry i decode credentials server commit db headers body batch_id)
unfolding ingest_telemetry
ingestion_route i decode credentials server commit db headers body batch_id sound =
    elim (Option-cases (resolve_gateway credentials headers)) [
      | inl missing ↦ rw missing (inr (inl (refl, unauthenticated missing)))
      | inr (gateway_id, resolved) ↦ rw resolved (
          parsed-Served i decode credentials server db headers body batch_id gateway_id sound
            resolved commit (parse_telemetry_batch i decode body) refl)
    ]
