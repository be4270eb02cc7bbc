-- ===== src/Telemetry/Ingest/Retry.antt =====
-- Retrying a batch: what the gateway sends again after a lost answer is stored once.
use industrial_equipment_mon.Prelude.{
  ℕ, ◌+◌, ◌≡◌, refl, ap, ◌∙◌, inl, inr, String, Bool, true, ◌&&◌, Option, none, some, List, [], ◌∷◌,
  ◌++◌, arith, nat_eq, eq_string, Bool-cases, Option-cases, option_eq, nat_eq_iff, if◌then◌else◌,
  is_none,
}
use mathlib.Core.List.{append_assoc, append-nil}
use industrial_equipment_mon.Prelude.Table.{Table, lookup}
use industrial_equipment_mon.Decimal.{eq_decimal_refl}
use industrial_equipment_mon.Telemetry.Schemas.{
  TelemetryEvent, TelemetryResponseItem, ClockQuality, synchronised, Outcome, accepted, duplicate,
  rejected, BatchItem, event, response, validate_outcome,
}
use industrial_equipment_mon.Db.Models.{Telemetry, Database}
use industrial_equipment_mon.Telemetry.Repository.{
  Server, Assignment, insert_event, new_row, find_of, record_presence, read_existing_event,
}
use industrial_equipment_mon.Telemetry.Ingest.{
  Step, respond, same_content, ingest_event, ingest_item, ingest_items, refusal, clock_eq,
}
use industrial_equipment_mon.Telemetry.Ingest.Rows.{find_stays, find-new_row}

-- What a retry answers where the first attempt answered `r`.
abbrev pub confirm_outcome : Outcome → Outcome
confirm_outcome accepted = duplicate
confirm_outcome duplicate = duplicate
confirm_outcome rejected = rejected

abbrev pub confirm : BatchItem → TelemetryResponseItem → TelemetryResponseItem
confirm (response _) r = r
confirm (event _) r = record r { outcome = confirm_outcome r.outcome }

-- The retry of a batch after its first attempt: each item gets its confirmed answer.
abbrev pub confirm_all : List BatchItem → List TelemetryResponseItem → List TelemetryResponseItem
confirm_all (item ∷ items) (r ∷ rs) = confirm item r ∷ confirm_all items rs
confirm_all _ _ = []

-- What a retry leaves alone.
abbrev pub SameTables : Database → Database → Type 0
SameTables a b = (a.telemetry ≡ b.telemetry) × (a.alerts ≡ b.alerts) × (a.devices ≡ b.devices)

option_eq_refl : (o : Option ℕ) → option_eq nat_eq o o ≡ true
option_eq_refl none = refl
option_eq_refl (some n) = ground arith

clock_eq_refl : (c : ClockQuality) → clock_eq c c ≡ true
clock_eq_refl synchronised = refl
clock_eq_refl _ = refl

-- A stored row has the content of the event that it was made from.
same_content-new_row :
    (server : Server) (id version : ℕ) (item : TelemetryEvent)
    → same_content (new_row server id version item) version item ≡ true
unfolding same_content
same_content-new_row server id version item = ground (
  arith,
  option_eq_refl item.measured_at,
  eq_decimal_refl item.value,
  clock_eq_refl item.quality.clock,
  nat_eq_iff version version,
  nat_eq_iff item.device_uptime_ms item.device_uptime_ms,
)

module _ (server : Server) (gateway_id : String) (assignments : Table String Assignment)
    (version : ℕ) where
  abbrev ingest : Database → BatchItem → Step
  ingest db item = ingest_item server gateway_id assignments version db item

  -- The event reaches the table: it is assigned, and PostgreSQL can represent it.
  abbrev is_stored : TelemetryEvent → Bool
  is_stored item =
      is_none (refusal gateway_id (lookup item.device_id assignments)) && server.representable item

  -- The tables after an item that stores nothing.
  abbrev passed : Database → BatchItem → Database
  passed db (response r) = db
  passed db (event item) =
      if is_stored item then record db { next_telemetry_id = db.next_telemetry_id + 1 } else db

  -- The row that an item adds to the table.
  abbrev added : Database → BatchItem → List Telemetry
  added db (response r) = []
  added db (event item) =
      if is_stored item && is_none (find_of item db.telemetry)
      then new_row server db.next_telemetry_id version item ∷ []
      else []

  step_adds :
      (db db1 : Database) (item : BatchItem) (r : TelemetryResponseItem)
      → ingest db item ≡ some (db1, r)
      → db1.telemetry ≡ db.telemetry ++ added db item
  unfolding ingest_event insert_event record_presence read_existing_event
  step_adds db db1 (response r') r h = ground (arith, append-nil db.telemetry)
  step_adds db db1 (event item) r h = ground (arith, append-nil db.telemetry)

  module _ (db db1 db2 : Database) (ys : List Telemetry) (item : TelemetryEvent)
      (r : TelemetryResponseItem) (h : ingest db (event item) ≡ some (db1, r))
      (e : db2.telemetry ≡ db1.telemetry ++ ys) where
    still_found :
        (row : Telemetry)
        → find_of item (db.telemetry ++ added db (event item)) ≡ some row
        → find_of item db2.telemetry ≡ some row
    still_found row there =
        ap (find_of item) (e ∙ ap (λ ts. ts ++ ys) (step_adds db db1 (event item) r h))
        ∙ find_stays item.device_id item.boot_id item.sequence_number
            (db.telemetry ++ added db (event item)) ys row there

    -- Whatever rows come after it, a retry of the item gets the confirmed answer and stores nothing.
    event_settles : ingest db2 (event item) ≡ some (passed db2 (event item), confirm (event item) r)
    unfolding ingest_event insert_event read_existing_event respond validate_outcome record_presence
    event_settles = elim (Option-cases (find_of item db.telemetry)) [
      | inr (row, found) ↦ ground (
        arith,
        still_found row (
            find_stays item.device_id item.boot_id item.sequence_number db.telemetry
              (added db (event item)) row found),
      )
      | inl missing ↦ elim (Bool-cases (is_stored item)) [
        | inr not_stored ↦ ground arith
        | inl stores ↦ ground (
          arith,
          still_found (new_row server db.next_telemetry_id version item) (
              rw (stores, missing)
                (find-new_row server db.next_telemetry_id version item db.telemetry missing)),
          same_content-new_row server db.next_telemetry_id version item,
        )
      ]
    ]

  -- A batch that ends well has its first item ended well, and then its others.
  pub items_first :
      (db db1 : Database) (item : BatchItem) (rest : List BatchItem)
      (rs : List TelemetryResponseItem)
      → ingest_items server gateway_id assignments version db (item ∷ rest) ≡ some (db1, rs)
      → (db' : Database) × (r : TelemetryResponseItem) × (rs' : List TelemetryResponseItem)
        × (ingest db item ≡ some (db', r))
        × (ingest_items server gateway_id assignments version db' rest ≡ some (db1, rs'))
        × (rs ≡ r ∷ rs')
  unfolding ingest_items
  items_first db db1 item rest rs h = elim (Option-cases (ingest db item)) [
    | inl fault ↦ absurd (cc (rw (fault, ingest_items) at h))
    | inr ((db', r), e) ↦
        let h' = rw (e, ingest_items) at h in
        elim (Option-cases (ingest_items server gateway_id assignments version db' rest)) [
          | inl fault ↦ absurd (cc (rw fault at h'))
          | inr ((db'', rs'), e') ↦
              let h'' = rw e' at h' in (db', r, rs', e, e' ∙ ground arith, ground arith)
        ]
  ]

  -- A batch's rows only add to the table.
  pub items_add :
      (db db1 : Database) (items : List BatchItem) (rs : List TelemetryResponseItem)
      → ingest_items server gateway_id assignments version db items ≡ some (db1, rs)
      → (ys : List Telemetry) × (db1.telemetry ≡ db.telemetry ++ ys)
  unfolding ingest_items
  items_add db db1 [] rs h = ([], ground (arith, append-nil db.telemetry))
  items_add db db1 (item ∷ rest) rs h =
      let (db', r, rs', e, e', _) = items_first db db1 item rest rs h in
      let (ys, more) = items_add db' db1 rest rs' e' in
      (
        added db item ++ ys,
        more
            ∙ ap (λ ts. ts ++ ys) (step_adds db db' item r e)
            ∙ append_assoc db.telemetry (added db item) ys,
      )

  step_settles :
      (db db1 db2 : Database) (ys : List Telemetry) (item : BatchItem) (r : TelemetryResponseItem)
      → ingest db item ≡ some (db1, r)
      → db2.telemetry ≡ db1.telemetry ++ ys
      → ingest db2 item ≡ some (passed db2 item, confirm item r)
  step_settles db db1 db2 ys (response r') r h e = ground arith
  step_settles db db1 db2 ys (event item) r h e = event_settles db db1 db2 ys item r h e

  passed-same : (db : Database) (item : BatchItem) → SameTables (passed db item) db
  passed-same db (response r) = (refl, refl, refl)
  passed-same db (event item) = ground arith

  pub items_settle :
      (db db1 db2 : Database) (ys : List Telemetry) (items : List BatchItem)
      (rs : List TelemetryResponseItem)
      → ingest_items server gateway_id assignments version db items ≡ some (db1, rs)
      → db2.telemetry ≡ db1.telemetry ++ ys
      → (db3 : Database) × (ingest_items server gateway_id assignments version db2 items
          ≡ some (db3, confirm_all items rs))
        × SameTables db3 db2
  unfolding ingest_items
  items_settle db db1 db2 ys [] rs h e = (db2, refl, (refl, refl, refl))
  items_settle db db1 db2 ys (item ∷ rest) rs h e =
      let (db', r, rs', first, others, split) = items_first db db1 item rest rs h in
      let (zs, more) = items_add db' db1 rest rs' others in
      let settled =
        step_settles db db' db2 (zs ++ ys) item r first
          (e ∙ ap (λ ts. ts ++ ys) more ∙ append_assoc db'.telemetry zs ys) in
      let same = passed-same db2 item in
      let (db3, ih, same3) =
        items_settle db' db1 (passed db2 item) ys rest rs' others (same.0 ∙ e) in
      (
        db3,
        rw (settled, ingest_items) (rw ih (rw split)),
        (same3.0 ∙ same.0, same3.1 ∙ same.1, same3.2 ∙ same.2),
      )
