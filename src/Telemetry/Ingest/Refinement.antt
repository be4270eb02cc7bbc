-- ===== src/Telemetry/Ingest/Refinement.antt =====
-- `ingest_batch` of telemetry/service.py against the store of contents.
use industrial_equipment_mon.Prelude.{
  ℕ, ◌≡◌, refl, sym, ap, ◌∙◌, inl, inr, String, true, Option, none, some, List, [], ◌∷◌, ◌++◌,
  arith, str_eq_iff, nat_eq_iff, eq_string, Bool-cases, Option-cases, All, All-imp,
}
use industrial_equipment_mon.Prelude.Table.{Table, lookup}
use industrial_equipment_mon.Telemetry.Schemas.{
  TelemetryEvent, TelemetryResponseItem, Outcome, ItemReason, BatchItem, event, response,
  ValidatedTelemetryBatch,
}
use industrial_equipment_mon.Db.Models.{commit_confirmed, Telemetry, Database}
use industrial_equipment_mon.Telemetry.Repository.{
  Server, Assignment, lock_assignments, lock_gateway_eligibility, find_event, find_of, new_row,
  record_presence, contains,
}
use industrial_equipment_mon.Telemetry.Ingest.{
  ingest_item, ingest_items, ingest_batch, committed, is_eligible, device_ids, mark_presence,
  is_recent, refusal, same_content,
}
use industrial_equipment_mon.Telemetry.Ingest.Rows.{find_stays, find-append, find-new_row}
use industrial_equipment_mon.Telemetry.Ingest.Sound.{IsSound}
use industrial_equipment_mon.Telemetry.Ingest.Answers.{ingest_items-answers}
use industrial_equipment_mon.Telemetry.Ingest.Assignments.{
  lookup-lock_assignments, lock_assignments-registered,
}
use industrial_equipment_mon.Telemetry.Ingest.Effect.{Effect, event_effect, with_row}
use industrial_equipment_mon.Telemetry.Ingest.Retry.{items_first}
use industrial_equipment_mon.Telemetry.Ingest.Store.{
  Store, Content, is_key, write, view, content_of, event_content, put_item, put_items, answered,
  stored_content, registry_refusal,
}

-- Two stores with the same contents are one.
same_store : (s t : Store) → ((d b : String) (n : ℕ) → s d b n ≡ t d b n) → s ≡ t
same_store s t h i d b n = h d b n i

-- The key of an event names it: one that it names is its own.
same_key :
    (d b : String) (n : ℕ) (d' b' : String) (n' : ℕ) {A : Type 0} (f : String → String → ℕ → A)
    → is_key d b n d' b' n' ≡ true
    → f d b n ≡ f d' b' n'
same_key d b n d' b' n' f h =
    let p = (str_eq_iff d d').0 (ground (arith, h)) in
    let q = (str_eq_iff b b').0 (ground (arith, h)) in
    let r = (nat_eq_iff n n').0 (ground (arith, h)) in
    ap (λ x. f x b n) p ∙ ap (λ x. f d' x n) q ∙ ap (f d' b') r

-- A second content under an identity changes nothing.
write_known :
    (d b : String) (n : ℕ) (c old : Content) (s : Store) → s d b n ≡ some old → write d b n c s ≡ s
write_known d b n c old s h = same_store (write d b n c s) s (λ d' b' n'.
    elim (Bool-cases (is_key d b n d' b' n')) [
      | inl key ↦ rw (key, h) (sym h ∙ same_key d b n d' b' n' s key)
      | inr other ↦ rw other refl
    ])

-- A new row is written under its own identity.
module _ (server : Server) (id version : ℕ) (item : TelemetryEvent) (xs : List Telemetry)
    (missing : find_of item xs ≡ none) where
  abbrev row : Telemetry
  row = new_row server id version item

  view-row :
      view (xs ++ row ∷ [])
      ≡ write item.device_id item.boot_id item.sequence_number
          (event_content version item)
          (view xs)
  unfolding find_event
  view-row = same_store _ _ (λ d b n.
      elim (Bool-cases (is_key item.device_id item.boot_id item.sequence_number d b n)) [
        | inl key ↦
            rw (key, missing)
              (sym (
                  same_key item.device_id item.boot_id item.sequence_number d b n
                    (view (xs ++ row ∷ [])) key)
                ∙ ap stored_content (find-new_row server id version item xs missing))
        | inr other ↦ rw other (elim (Option-cases (find_event d b n xs)) [
          | inr (old, found) ↦
              ap stored_content (find_stays d b n xs (row ∷ []) old found ∙ sym found)
          | inl free ↦
              ap stored_content (find-append d b n xs (row ∷ []) free ∙ rw (other, free) refl)
        ])
      ])

module _ (server : Server) (gateway_id : String) (assignments : Table String Assignment)
    (version : ℕ) (refused : TelemetryEvent → Option ItemReason) where
  abbrev put : Store → BatchItem → Store × TelemetryResponseItem
  put = put_item refused server.representable version

  -- The result of an item and the contents it leaves, as one value.
  abbrev seen : Database → TelemetryResponseItem → Store × TelemetryResponseItem
  seen db r = (view db.telemetry, r)

  marked_rows :
      (row : Telemetry) (item : TelemetryEvent) (db : Database)
      → (mark_presence server row item db).telemetry ≡ db.telemetry
  unfolding record_presence
  marked_rows row item db =
      elim (Bool-cases (is_recent row.backend_received_at item.gateway_received_at)) [
        | inl recent ↦ rw recent refl
        | inr old ↦ rw old refl
      ]

  both :
      (item : TelemetryEvent) {s t : Store} {x y : Outcome × Option ItemReason}
      → s ≡ t
      → x ≡ y
      → answered refused server.representable version item (s, x)
        ≡ answered refused server.representable version item (t, y)
  both item p q i = answered refused server.representable version item (p i, q i)

  effect-Refines :
      {db : Database} {item : TelemetryEvent} {db1 : Database} {r : TelemetryResponseItem}
      → refused item ≡ refusal gateway_id (lookup item.device_id assignments)
      → Effect server gateway_id assignments version db item db1 r
      → put (view db.telemetry) (event item) ≡ seen db1 r
  unfolding same_content
  effect-Refines same (Effect.unassigned reason why) = rw (same ∙ why) refl
  effect-Refines same (Effect.unrepresentable allowed why) = rw (same ∙ allowed, why) refl
  effect-Refines {db} {item} same (Effect.repeated row allowed fits found agree) =
      rw (same ∙ allowed, fits)
        (both item
          (write_known item.device_id item.boot_id item.sequence_number (event_content version item)
            (content_of row) (view db.telemetry) (ap stored_content found))
          (rw (found, agree) refl))
  effect-Refines {db} {item} same (Effect.conflicting row allowed fits found differ) =
      rw (same ∙ allowed, fits)
        (both item
          (write_known item.device_id item.boot_id item.sequence_number (event_content version item)
            (content_of row) (view db.telemetry) (ap stored_content found))
          (rw (found, differ) refl))
  effect-Refines {db} {item} same (Effect.stored alerts allowed fits missing e) =
      rw (same ∙ allowed, fits)
        (both item
          (sym (view-row server db.next_telemetry_id version item db.telemetry missing)
            ∙ ap view (
                sym (
                  marked_rows (new_row server db.next_telemetry_id version item) item
                    (with_row server version item alerts db))))
          (rw missing refl))

  -- The events of a batch for which the assignments answer as the registry does.
  abbrev Agree : BatchItem → Type 0
  Agree (response r) = Unit
  Agree (event item) = refused item ≡ refusal gateway_id (lookup item.device_id assignments)

  item-Refines :
      (db db1 : Database) (item : BatchItem) (r : TelemetryResponseItem)
      → Agree item
      → ingest_item server gateway_id assignments version db item ≡ some (db1, r)
      → put (view db.telemetry) item ≡ seen db1 r
  item-Refines db db1 (response r') r same h =
      let p : (db, r') ≡ (db1, r) = cc in
      ap (λ (x : Database × TelemetryResponseItem). seen x.0 x.1) p
  item-Refines db db1 (event item) r same h =
      effect-Refines same (event_effect server gateway_id assignments version db db1 item r h)

  items-Refines :
      (db db1 : Database) (items : List BatchItem) (rs : List TelemetryResponseItem)
      → All Agree items
      → ingest_items server gateway_id assignments version db items ≡ some (db1, rs)
      → put_items refused server.representable version (view db.telemetry) items
        ≡ (view db1.telemetry, rs)
  unfolding ingest_items put_items
  items-Refines db db1 [] rs same h =
      let p : (db, []) ≡ (db1, rs) = cc in
      ap (λ (x : Database × List TelemetryResponseItem). (view x.0.telemetry, x.1)) p
  items-Refines db db1 (item ∷ rest) rs same h =
      let (db', r, rs', first, others, split) =
        items_first server gateway_id assignments version db db1 item rest rs h in
      let one = item-Refines db db' item r same.0 first in
      let more = items-Refines db' db1 rest rs' same.1 others in
      ap
        (λ (x : Store × TelemetryResponseItem).
          let y = put_items refused server.representable version x.0 rest in (y.0, x.1 ∷ y.1))
        one
      ∙ ap (λ (y : Store × List TelemetryResponseItem). (y.0, r ∷ y.1)) more
      ∙ ap (λ (l : List TelemetryResponseItem). (view db1.telemetry, l)) (sym split)

contains_all : (ids : List String) → All (λ j. contains j ids ≡ true) ids
contains_all [] = tt
contains_all (x ∷ xs) = (
  ground (arith, str_eq_iff x x),
  All-imp (λ j. contains j xs ≡ true) (λ j. contains j (x ∷ xs) ≡ true) xs (λ j h. ground arith)
      (contains_all xs),
)

-- The assignments that a batch reads answer as the registry does.
assignments-Agree :
    (server : Server) (db : Database) (gateway_id : String) (version : ℕ) (ids : List String)
    (items : List BatchItem)
    → All (λ j. contains j ids ≡ true) (device_ids items)
    → All
        (Agree server gateway_id
          (lock_assignments db.devices ids)
          version
          (registry_refusal db gateway_id))
        items
assignments-Agree server db gateway_id version ids [] h = tt
assignments-Agree server db gateway_id version ids (response r ∷ rest) h =
    (tt, assignments-Agree server db gateway_id version ids rest h)
assignments-Agree server db gateway_id version ids (event item ∷ rest) h = (
  ground (arith, lookup-lock_assignments db.devices ids item.device_id, h.0),
  assignments-Agree server db gateway_id version ids rest h.1,
)

-- On sound tables, for an eligible gateway and a database that confirms its commit: a batch is committed
-- with the results that the store of contents gives its items one after the other, and the contents of
-- the telemetry table are then those of the store. In the store the first content under an identity
-- stays: the same content again is a duplicate, another one is a conflict, and what the registry refuses
-- or the database cannot represent is rejected and not stored.
pub ingest_batch_refines :
    (server : Server) (db : Database) (gateway_id : String) (batch : ValidatedTelemetryBatch)
    (batch_id : String)
    → IsSound db
    → is_eligible (lock_gateway_eligibility db gateway_id) ≡ true
    → (db' : Database) × (rs : List TelemetryResponseItem) × (ingest_batch server commit_confirmed
          db gateway_id batch batch_id
        ≡ (committed (record { batch_id = batch_id; results = rs }), db'))
      × (put_items
            (registry_refusal db gateway_id)
            server.representable
            batch.schema_version
            (view db.telemetry)
            batch.items
          ≡ (view db'.telemetry, rs))
unfolding ingest_batch
ingest_batch_refines server db gateway_id batch batch_id v eligible =
    let ids = device_ids batch.items in
    let assignments = lock_assignments db.devices ids in
    let (db', rs, e, _, _) =
      ingest_items-answers server gateway_id assignments batch.schema_version batch.items db v
        (lock_assignments-registered db ids) in
    (
      db',
      rs,
      rw (eligible, e) refl,
      items-Refines server gateway_id assignments batch.schema_version
          (registry_refusal db gateway_id) db db' batch.items rs
          (assignments-Agree server db gateway_id batch.schema_version ids batch.items
            (contains_all ids))
          e,
    )
