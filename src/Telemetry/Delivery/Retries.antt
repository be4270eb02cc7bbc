-- ===== src/Telemetry/Delivery/Retries.antt =====
-- A gateway that sends its batch again until an answer arrives.
use industrial_equipment_mon.Prelude.{
  ◌≡◌, refl, ap, ◌∙◌, inl, inr, String, Bool, true, false, ◌&&◌, ◌||◌, Option, none, some, List, [],
  ◌∷◌, arith, Bool-cases, if◌then◌else◌,
}
use industrial_equipment_mon.Telemetry.Schemas.{TelemetryResponseItem, ValidatedTelemetryBatch}
use industrial_equipment_mon.Db.Models.{
  Commit, is_confirmed, commit_confirmed, commit_refused, commit_unheard, Database,
}
use industrial_equipment_mon.Telemetry.Repository.{Server, lock_gateway_eligibility}
use industrial_equipment_mon.Telemetry.Ingest.{
  IngestResult, committed, ingest_batch, is_eligible, device_ids,
}
use industrial_equipment_mon.Telemetry.Ingest.Sound.{IsSound}
use industrial_equipment_mon.Telemetry.Ingest.Answers.{AnswersAll, ingest_batch-answers}
use industrial_equipment_mon.Telemetry.Ingest.Registry.{eligibility_same}
use industrial_equipment_mon.Telemetry.Ingest.Traffic.{
  Ingestion, ingest_one, after_traffic, traffic-Grown, traffic-IsSound,
}

-- One attempt: the batches that were ingested before it, how its commit goes, and whether
-- its answer reaches the gateway.
pub record Attempt : Type 0 where
  pub before : List Ingestion
  pub commit : Commit
  pub answered : Bool
  pub batch_id : String

abbrev pub arrives : Attempt → Bool
arrives a = is_confirmed a.commit && a.answered

abbrev pub some_arrives : List Attempt → Bool
some_arrives [] = false
some_arrives (a ∷ rest) = arrives a || some_arrives rest

confirmed_only : (commit : Commit) → is_confirmed commit ≡ true → commit ≡ commit_confirmed
confirmed_only commit_confirmed h = refl
confirmed_only commit_refused h = absurd (cc)
confirmed_only commit_unheard h = absurd (cc)

module _ (server : Server) (gateway_id : String) (batch : ValidatedTelemetryBatch) where
  abbrev pub attempt_of : Attempt → Ingestion
  attempt_of a = record {
    server = server;
    commit = a.commit;
    gateway_id = gateway_id;
    batch = batch;
    batch_id = a.batch_id;
  }

  -- The answer that the gateway has got, if any.
  abbrev pub answer_of : Database → Attempt → Option IngestResult
  answer_of db a =
      if arrives a
      then some (ingest_batch server commit_confirmed db gateway_id batch a.batch_id).0
      else none

  abbrev pub or_later :
      Option IngestResult
      → Database
      → Option IngestResult × Database
      → Option IngestResult × Database
  or_later (some result) db later = (some result, db)
  or_later none db later = later

  unfoldable pub deliver : Database → List Attempt → Option IngestResult × Database
  deliver db [] = (none, db)
  deliver db (a ∷ rest) =
      let before = after_traffic a.before db in
      let after = ingest_one (attempt_of a) before in
      or_later (answer_of before a) after (deliver after rest)

  abbrev Delivers : Option IngestResult × Database → Type 0
  Delivers x =
      (batch_id : String) × (rs : List TelemetryResponseItem) × (x.0
        ≡ some (committed (record { batch_id = batch_id; results = rs })))
      × AnswersAll batch.items rs
      × IsSound x.1

  eligible_after :
      (ns : List Ingestion) (db : Database)
      → is_eligible (lock_gateway_eligibility db gateway_id) ≡ true
      → is_eligible (lock_gateway_eligibility (after_traffic ns db) gateway_id) ≡ true
  eligible_after ns db h =
      let (_, same) = traffic-Grown ns db (device_ids batch.items) in
      ap is_eligible (eligibility_same (after_traffic ns db) db gateway_id same.0 same.1) ∙ h

  -- As one batch of traffic, an attempt keeps the tables sound and the gateway eligible.
  attempt_keeps :
      (db : Database) (a : Attempt)
      → IsSound db
      → is_eligible (lock_gateway_eligibility db gateway_id) ≡ true
      → IsSound (ingest_one (attempt_of a) db)
        × (is_eligible (lock_gateway_eligibility (ingest_one (attempt_of a) db) gateway_id) ≡ true)
  unfolding after_traffic
  attempt_keeps db a v h =
      (traffic-IsSound (attempt_of a ∷ []) db v, eligible_after (attempt_of a ∷ []) db h)

  arrived :
      (db : Database) (a : Attempt) (later : Option IngestResult × Database)
      → IsSound db
      → is_eligible (lock_gateway_eligibility db gateway_id) ≡ true
      → arrives a ≡ true
      → Delivers (or_later (answer_of db a) (ingest_one (attempt_of a) db) later)
  arrived db a later v h k =
      let (db', rs, e, each, v') = ingest_batch-answers server db gateway_id batch a.batch_id v h in
      let commit : a.commit ≡ commit_confirmed = confirmed_only a.commit (ground (arith, k)) in
      rw (k, commit, e) (a.batch_id, rs, refl, each, v')

  reaches :
      (attempts : List Attempt) (db : Database)
      → IsSound db
      → is_eligible (lock_gateway_eligibility db gateway_id) ≡ true
      → some_arrives attempts ≡ true
      → Delivers (deliver db attempts)
  unfolding deliver
  reaches [] db v h k = absurd (cc)
  reaches (a ∷ rest) db v h k =
      let before = after_traffic a.before db in
      let v1 = traffic-IsSound a.before db v in
      let h1 = eligible_after a.before db h in
      elim (Bool-cases (arrives a)) [
        | inl heard ↦ arrived before a _ v1 h1 heard
        | inr lost ↦
            let (v2, h2) = attempt_keeps before a v1 h1 in
            rw lost (reaches rest _ v2 h2 (rw lost at k))
      ]

-- An eligible gateway with sound tables that sends a batch again until an answer arrives, where attempts
-- may be rolled back, or be written without a confirmation or an answer that arrives, and other batches
-- may be ingested between them: as soon as one attempt is confirmed and answered, the gateway has a committed response with one result for each
-- item, and the tables are sound.
pub delivered_at_last :
    (server : Server) (gateway_id : String) (batch : ValidatedTelemetryBatch) (db : Database)
    (attempts : List Attempt)
    → IsSound db
    → is_eligible (lock_gateway_eligibility db gateway_id) ≡ true
    → some_arrives attempts ≡ true
    → (batch_id : String) × (rs : List TelemetryResponseItem) × ((deliver server gateway_id batch db
          attempts).0
        ≡ some (committed (record { batch_id = batch_id; results = rs })))
      × AnswersAll batch.items rs
      × IsSound (deliver server gateway_id batch db attempts).1
delivered_at_last server gateway_id batch db attempts v h k =
    reaches server gateway_id batch attempts db v h k
