-- ===== src/Telemetry/Delivery.antt =====
-- A request to ingest, from its body to its response: telemetry/validation.py and telemetry/service.py
-- one after the other, as `ingest_telemetry` of telemetry/router.py calls them.
pub mod Retries
use industrial_equipment_mon.Prelude.{
  suc, ◌≤◌, String, ◌≡◌, refl, sym, ap, ◌∙◌, true, Option, List, [], ◌∷◌, map, length, All, arith,
}
use mathlib.Core.Path.{subst}
use industrial_equipment_mon.Telemetry.Json.{Value, values}
use industrial_equipment_mon.Telemetry.Schemas.{
  BatchItem, event, response, TelemetryResponseItem, ValidatedTelemetryBatch, validate_outcome, ok,
}
use industrial_equipment_mon.Db.Models.{
  Commit, is_confirmed, settled, commit_confirmed, commit_refused, commit_unheard, Database,
}
use industrial_equipment_mon.Telemetry.Repository.{Server, lock_gateway_eligibility}
use industrial_equipment_mon.Telemetry.Ingest.{ingest_batch, is_eligible, committed}
use industrial_equipment_mon.Telemetry.Ingest.Answers.{Answers, AnswersAll, ingest_batch-answers}
use industrial_equipment_mon.Telemetry.Ingest.Sound.{IsSound}
use industrial_equipment_mon.Telemetry.Validation.{Instants}
use industrial_equipment_mon.Telemetry.Validation.Item.{validate_telemetry_item}
use industrial_equipment_mon.Telemetry.Validation.Item.Rejection.{IsAdmitted, validate-IsAdmitted}
use industrial_equipment_mon.Telemetry.Validation.Batch.{parsed, parse_telemetry_batch}
use industrial_equipment_mon.Telemetry.Validation.Batch.Parsed.{parsed_batch}

abbrev pub IsResult : TelemetryResponseItem → Type 0
IsResult r = validate_outcome r ≡ ok r

answer-IsResult :
    (item : BatchItem) (r : TelemetryResponseItem) → IsAdmitted item → Answers item r → IsResult r
answer-IsResult (event e) r h a = let (_, _, _, admitted) = a in admitted
answer-IsResult (response r') r h a = subst IsResult (sym a) h.1

pub answers-IsResult :
    (items : List BatchItem) (rs : List TelemetryResponseItem)
    → All IsAdmitted items
    → AnswersAll items rs
    → All IsResult rs × (length rs ≡ length items)
answers-IsResult [] [] h a = (tt, refl)
answers-IsResult [] (r ∷ rs) h a = absurd a
answers-IsResult (item ∷ items) [] h a = absurd a
answers-IsResult (item ∷ items) (r ∷ rs) h a =
    let (rest, same) = answers-IsResult items rs h.1 a.1 in
    ((answer-IsResult item r h.0 a.0, rest), ap suc same)

validated-IsAdmitted :
    (i : Instants) (vs : List Value) → All IsAdmitted (map (validate_telemetry_item i) vs)
validated-IsAdmitted i [] = tt
validated-IsAdmitted i (v ∷ vs) = (validate-IsAdmitted i v, validated-IsAdmitted i vs)

length-validated :
    (i : Instants) (vs : List Value) → length (map (validate_telemetry_item i) vs) ≡ length vs
length-validated i [] = refl
length-validated i (v ∷ vs) = ap suc (length-validated i vs)

-- A body that parses, from an eligible gateway, with sound tables and a commit that the database
-- confirms: ingestion commits 1 to 500 results, one for each event, each of which the response model
-- admits, and leaves the tables sound.
pub delivered_batch :
    (i : Instants) (decode : String → Option Value) (body : String)
    (batch : ValidatedTelemetryBatch) (server : Server) (db : Database)
    (gateway_id batch_id : String)
    → parse_telemetry_batch i decode body ≡ parsed batch
    → IsSound db
    → is_eligible (lock_gateway_eligibility db gateway_id) ≡ true
    → (db' : Database) × (rs : List TelemetryResponseItem) × (ingest_batch server commit_confirmed
          db gateway_id batch batch_id
        ≡ (committed (record { batch_id = batch_id; results = rs }), db'))
      × (length rs ≡ length batch.items)
      × (1 ≤ length rs)
      × (length rs ≤ 500)
      × All IsResult rs
      × IsSound db'
delivered_batch i decode body batch server db gateway_id batch_id h sound eligible =
    let (payload, _, _, (m, items, _, envelope, high, made)) = parsed_batch i decode body batch h in
    let (db', rs, e, each, sound') =
      ingest_batch-answers server db gateway_id batch batch_id sound eligible in
    let admitted =
      subst (λ (b : ValidatedTelemetryBatch). All IsAdmitted b.items) (sym made)
        (validated-IsAdmitted i (values items)) in
    let (each_result, same) = answers-IsResult batch.items rs admitted each in
    let n : length batch.items ≡ length (values items) =
      ap (λ (b : ValidatedTelemetryBatch). length b.items) made
      ∙ length-validated i (values items) in
    let low = envelope.nonempty in
    (
      db',
      rs,
      e,
      same,
      omega (arith, n, low, same),
      omega (arith, n, high, same),
      each_result,
      sound',
    )
