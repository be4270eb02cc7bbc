-- ===== src/Simulator/Client/Confirmed.antt =====
-- `classify_response` of simulator/send_batch.py on what telemetry/service.py commits.
use industrial_equipment_mon.Prelude.{
  suc, ◌≡◌, refl, ap, String, true, false, Option, none, some, List, [], ◌∷◌, map, length, arith,
  nat_eq, All,
}
use industrial_equipment_mon.Telemetry.Json.{text, object, Members, member, get, values}
use industrial_equipment_mon.Telemetry.Schemas.{
  ItemReason, unknown_device, wrong_gateway, invalid_metric, invalid_unit, value_out_of_range,
  malformed_value, identity_conflict, Outcome, accepted, duplicate, rejected, TelemetryResponseItem,
  validate_outcome, ok,
}
use industrial_equipment_mon.Db.Models.{commit_confirmed, Database}
use industrial_equipment_mon.Telemetry.Repository.{Server, lock_gateway_eligibility}
use industrial_equipment_mon.Telemetry.Ingest.{ingest_batch, committed, is_eligible}
use industrial_equipment_mon.Telemetry.Ingest.Sound.{IsSound}
use industrial_equipment_mon.Telemetry.Ingest.Answers.{AnswersAll, ingest_batch-answers}
use industrial_equipment_mon.Telemetry.Validation.{Instants}
use industrial_equipment_mon.Telemetry.Validation.Item.{validate_telemetry_item}
use industrial_equipment_mon.Telemetry.Delivery.{IsResult, answers-IsResult}
use industrial_equipment_mon.Telemetry.Validation.Item.Rejection.{IsAdmitted, validate-IsAdmitted}
use industrial_equipment_mon.Simulator.Client.{
  outcome_of, or_null, classify_item, classify_items, classify_response, is_blank,
}
use industrial_equipment_mon.Simulator.Client.Response.{
  outcome_text, reason_text, reason_member, encode_item, encode_items, encode_response, reported,
  report,
}
use industrial_equipment_mon.Simulator.Client.Identity.{
  IsIdentified, Names, validated-Names, echoes-Names,
}

reason_there : (reason : ItemReason) → is_blank (reason_text reason) ≡ false
reason_there unknown_device = refl
reason_there wrong_gateway = refl
reason_there invalid_metric = refl
reason_there invalid_unit = refl
reason_there value_out_of_range = refl
reason_there malformed_value = refl
reason_there identity_conflict = refl

outcome_reported :
    (r r' : TelemetryResponseItem) (o : Outcome) (reason : Option ItemReason)
    → validate_outcome (record r { outcome = o; reason = reason }) ≡ ok r'
    → outcome_of (text (outcome_text o)) (or_null (get "reason" (reason_member reason)))
      ≡ some (reported o reason)
unfolding validate_outcome get
outcome_reported r r' accepted none h = refl
outcome_reported r r' duplicate none h = refl
outcome_reported r r' rejected (some reason) h = rw (reason_there reason) refl
outcome_reported r r' accepted (some reason) h = absurd (ground arith)
outcome_reported r r' duplicate (some reason) h = absurd (ground arith)
outcome_reported r r' rejected none h = absurd (ground arith)

classify_reported :
    (m : Members) (v : IsIdentified m) (r : TelemetryResponseItem)
    → Names m v r
    → validate_outcome r ≡ ok r
    → classify_item m (encode_item r) ≡ some (report r)
unfolding classify_item get
classify_reported m v r names admitted =
    rw
      (echoes-Names m v r
        (member "outcome" (text (outcome_text r.outcome)) (reason_member r.reason)) names)
      (outcome_reported r r r.outcome r.reason admitted)

length-encoded : (rs : List TelemetryResponseItem) → length (values (encode_items rs)) ≡ length rs
unfolding encode_items values
length-encoded [] = refl
length-encoded (r ∷ rs) = ap suc (length-encoded rs)

classify_all :
    (i : Instants) (events : List Members) (rs : List TelemetryResponseItem)
    → All IsIdentified events
    → AnswersAll (map (λ m. validate_telemetry_item i (object m)) events) rs
    → All IsResult rs
    → (classify_items events (values (encode_items rs)) ≡ some (map report rs))
      × (length rs ≡ length events)
unfolding classify_items values encode_items
classify_all i [] [] v a h = (refl, refl)
classify_all i [] (r ∷ rs) v a h = absurd a
classify_all i (m ∷ events) [] v a h = absurd a
classify_all i (m ∷ events) (r ∷ rs) v a h =
    let one = classify_reported m v.0 r (validated-Names i m v.0 r a.0) h.0 in
    let (more, same) = classify_all i events rs v.1 a.1 h.1 in (rw (one, more) refl, ap suc same)

validated_objects :
    (i : Instants) (events : List Members)
    → All IsAdmitted (map (λ m. validate_telemetry_item i (object m)) events)
validated_objects i [] = tt
validated_objects i (m ∷ events) = (validate-IsAdmitted i (object m), validated_objects i events)

-- What a batch of identified events is answered, read by the client.
client_reads :
    (i : Instants) (events : List Members) (rs : List TelemetryResponseItem) (batch_id : String)
    → is_blank batch_id ≡ false
    → All IsIdentified events
    → AnswersAll (map (λ m. validate_telemetry_item i (object m)) events) rs
    → All IsResult rs
    → classify_response events (encode_response (record { batch_id = batch_id; results = rs }))
      ≡ some (map report rs)
unfolding classify_response encode_response get
client_reads i events rs batch_id named v a h =
    let (read, same) = classify_all i events rs v a h in
    let sized : nat_eq (length (values (encode_items rs))) (length events) ≡ true =
      ground (arith, length-encoded rs, same) in
    rw (named, sized) read

-- A batch of events with identities that the contract admits, from an eligible gateway, on sound tables
-- and a database that confirms its commit: whatever else the events hold, the client accepts the
-- response that the backend commits, and reports one outcome for each event, in order, each the
-- outcome of its result with the reason of a rejection.
pub client_confirms :
    (i : Instants) (events : List Members) (server : Server) (db : Database)
    (gateway_id batch_id : String)
    → is_blank batch_id ≡ false
    → All IsIdentified events
    → IsSound db
    → is_eligible (lock_gateway_eligibility db gateway_id) ≡ true
    → (db' : Database) × (rs : List TelemetryResponseItem) × (ingest_batch server commit_confirmed
          db gateway_id
          (record {
            schema_version = 1;
            items = map (λ m. validate_telemetry_item i (object m)) events;
          })
          batch_id
        ≡ (committed (record { batch_id = batch_id; results = rs }), db'))
      × (length rs ≡ length events)
      × (classify_response events (encode_response (record { batch_id = batch_id; results = rs }))
          ≡ some (map report rs))
client_confirms i events server db gateway_id batch_id named v sound eligible =
    let items = map (λ m. validate_telemetry_item i (object m)) events in
    let (db', rs, e, each, _) =
      ingest_batch-answers server db gateway_id (record { schema_version = 1; items = items })
        batch_id sound eligible in
    let (results, _) = answers-IsResult items rs (validated_objects i events) each in
    let (_, same) = classify_all i events rs v each results in
    (db', rs, e, same, client_reads i events rs batch_id named v each results)
