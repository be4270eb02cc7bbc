-- ===== src/Telemetry/Ingest/Traffic.antt =====
-- Other batches that the backend ingests between two requests.
use industrial_equipment_mon.Prelude.{
  none, ◌≡◌, refl, sym, ap, ◌∙◌, inl, inr, String, some, List, [], ◌∷◌, ◌++◌, Bool-cases, eq_string,
}
use mathlib.Core.List.{append_assoc, append-nil}
use mathlib.Core.Path.{subst}
use industrial_equipment_mon.Telemetry.Schemas.{TelemetryResponseItem, ValidatedTelemetryBatch}
use industrial_equipment_mon.Db.Models.{
  Commit, commit_confirmed, commit_refused, commit_unheard, Telemetry, Database,
}
use industrial_equipment_mon.Telemetry.Repository.{
  Server, lock_assignments, lock_gateway_eligibility,
}
use industrial_equipment_mon.Telemetry.Ingest.{
  ingest_batch, device_ids, is_eligible, finish, Ingested,
}
use industrial_equipment_mon.Telemetry.Ingest.Retry.{items_add}
use industrial_equipment_mon.Telemetry.Ingest.Sound.{IsSound}
use industrial_equipment_mon.Telemetry.Ingest.Answers.{ingest_items-answers}
use industrial_equipment_mon.Telemetry.Ingest.Assignments.{lock_assignments-registered}
use industrial_equipment_mon.Telemetry.Ingest.Registry.{SameRegistry, items-SameRegistry}

-- One request to ingest, with how the database answers it.
pub record Ingestion : Type 0 where
  pub server : Server
  pub commit : Commit
  pub gateway_id : String
  pub batch : ValidatedTelemetryBatch
  pub batch_id : String

abbrev pub ingest_one : Ingestion → Database → Database
ingest_one n db = (ingest_batch n.server n.commit db n.gateway_id n.batch n.batch_id).1

unfoldable pub after_traffic : List Ingestion → Database → Database
after_traffic [] db = db
after_traffic (n ∷ ns) db = after_traffic ns (ingest_one n db)

-- Tables that have grown by telemetry rows, with the registry as it was.
abbrev pub Grown : Database → Database → List String → Type 0
Grown a b ids = ((ys : List Telemetry) × (a.telemetry ≡ b.telemetry ++ ys)) × SameRegistry a b ids

Grown-refl : (db : Database) (ids : List String) → Grown db db ids
Grown-refl db ids = (([], sym (append-nil db.telemetry)), (refl, refl, refl))

Grown-trans : (a b c : Database) (ids : List String) → Grown a b ids → Grown b c ids → Grown a c ids
Grown-trans a b c ids p q =
    let (ys, more) = p.0 in
    let (zs, before) = q.0 in
    let r = p.1 in
    let s = q.1 in
    (
      (zs ++ ys, more ∙ ap (λ ts. ts ++ ys) before ∙ append_assoc c.telemetry zs ys),
      (r.0 ∙ s.0, r.1 ∙ s.1, r.2 ∙ s.2),
    )

finish-Grown :
    (db : Database) (commit : Commit) (batch_id : String) (ids : List String) (x : Ingested)
    → ((db1 : Database) (rs : List TelemetryResponseItem) → x ≡ some (db1, rs) → Grown db1 db ids)
    → Grown (finish db commit batch_id x).1 db ids
finish-Grown db commit batch_id ids none h = Grown-refl db ids
finish-Grown db commit_confirmed batch_id ids (some (db1, rs)) h = h db1 rs refl
finish-Grown db commit_refused batch_id ids (some (db1, rs)) h = Grown-refl db ids
finish-Grown db commit_unheard batch_id ids (some (db1, rs)) h = h db1 rs refl

one-Grown : (n : Ingestion) (db : Database) (ids : List String) → Grown (ingest_one n db) db ids
unfolding ingest_batch
one-Grown n db ids = elim (Bool-cases (is_eligible (lock_gateway_eligibility db n.gateway_id))) [
  | inr refused ↦ rw (refused, ingest_one) (Grown-refl db ids)
  | inl eligible ↦
      rw (eligible, ingest_one)
        (finish-Grown db n.commit n.batch_id ids _ (λ db1 rs h.
          let assignments = lock_assignments db.devices (device_ids n.batch.items) in
          (
            items_add n.server n.gateway_id assignments n.batch.schema_version db db1 n.batch.items
                rs h,
            items-SameRegistry n.server n.gateway_id assignments n.batch.schema_version ids db db1
                n.batch.items rs h,
          )))
]

pub traffic-Grown :
    (ns : List Ingestion) (db : Database) (ids : List String) → Grown (after_traffic ns db) db ids
unfolding after_traffic
traffic-Grown [] db ids = Grown-refl db ids
traffic-Grown (n ∷ ns) db ids =
    Grown-trans (after_traffic ns (ingest_one n db)) (ingest_one n db) db ids
      (traffic-Grown ns (ingest_one n db) ids) (one-Grown n db ids)

finish-IsSound :
    (db : Database) (commit : Commit) (batch_id : String) (x : Ingested)
    → IsSound db
    → ((db1 : Database) (rs : List TelemetryResponseItem) → x ≡ some (db1, rs) → IsSound db1)
    → IsSound (finish db commit batch_id x).1
finish-IsSound db commit batch_id none v h = v
finish-IsSound db commit_confirmed batch_id (some (db1, rs)) v h = h db1 rs refl
finish-IsSound db commit_refused batch_id (some (db1, rs)) v h = v
finish-IsSound db commit_unheard batch_id (some (db1, rs)) v h = h db1 rs refl

one-IsSound : (n : Ingestion) (db : Database) → IsSound db → IsSound (ingest_one n db)
unfolding ingest_batch
one-IsSound n db v = elim (Bool-cases (is_eligible (lock_gateway_eligibility db n.gateway_id))) [
  | inr refused ↦ rw (refused, ingest_one) v
  | inl eligible ↦
      rw (eligible, ingest_one)
        (finish-IsSound db n.commit n.batch_id _ v (λ db1 rs h.
          let ids = device_ids n.batch.items in
          let (db', rs', e, _, v') =
            ingest_items-answers n.server n.gateway_id (lock_assignments db.devices ids)
              n.batch.schema_version n.batch.items db v (lock_assignments-registered db ids) in
          let same : db' ≡ db1 = cc (e, h) in subst IsSound same v'))
]

pub traffic-IsSound :
    (ns : List Ingestion) (db : Database) → IsSound db → IsSound (after_traffic ns db)
unfolding after_traffic
traffic-IsSound [] db v = v
traffic-IsSound (n ∷ ns) db v = traffic-IsSound ns (ingest_one n db) (one-IsSound n db v)
