-- ===== src/Telemetry/Ingest/Rows.antt =====
-- The telemetry rows: finding an event's row in a table that grows at its end.
use industrial_equipment_mon.Prelude.{
  ℕ, ◌≡◌, refl, ◌∙◌, String, true, false, none, some, List, [], ◌∷◌, ◌++◌, arith, str_eq_iff,
  eq_string,
}
use industrial_equipment_mon.Telemetry.Schemas.{TelemetryEvent}
use industrial_equipment_mon.Db.Models.{Telemetry}
use industrial_equipment_mon.Telemetry.Repository.{Server, is_event, find_event, find_of, new_row}

pub find_stays :
    (d b : String) (n : ℕ) (xs ys : List Telemetry) (row : Telemetry)
    → find_event d b n xs ≡ some row
    → find_event d b n (xs ++ ys) ≡ some row
unfolding find_event
find_stays d b n [] ys row h = cc
find_stays d b n (x ∷ xs) ys row h = ground (arith, find_stays d b n xs ys row)

pub find-append :
    (d b : String) (n : ℕ) (xs ys : List Telemetry)
    → find_event d b n xs ≡ none
    → find_event d b n (xs ++ ys) ≡ find_event d b n ys
unfolding find_event
find-append d b n [] ys h = refl
find-append d b n (x ∷ xs) ys h = ground (arith, find-append d b n xs ys)

-- An event's own row answers to its identity.
pub is_event_self :
    (server : Server) (id version : ℕ) (item : TelemetryEvent)
    → is_event item.device_id item.boot_id item.sequence_number (new_row server id version item)
      ≡ true
is_event_self server id version item =
    ground (arith, str_eq_iff item.device_id item.device_id, str_eq_iff item.boot_id item.boot_id)

pub find-new_row :
    (server : Server) (id version : ℕ) (item : TelemetryEvent) (xs : List Telemetry)
    → find_of item xs ≡ none
    → find_of item (xs ++ new_row server id version item ∷ [])
      ≡ some (new_row server id version item)
find-new_row server id version item xs missing =
    find-append item.device_id item.boot_id item.sequence_number xs
      (new_row server id version item ∷ []) missing
    ∙ unfold find_event in (rw (is_event_self server id version item))

-- No two rows have one identity: the constraint uq_telemetry_identity.
abbrev pub Distinct : List Telemetry → Type 0
Distinct [] = Unit
Distinct (row ∷ rest) =
    (find_event row.device_id row.boot_id row.sequence_number rest ≡ none) × Distinct rest

find_none_append :
    (d b : String) (n : ℕ) (xs : List Telemetry) (row : Telemetry)
    → find_event d b n xs ≡ none
    → is_event d b n row ≡ false
    → find_event d b n (xs ++ row ∷ []) ≡ none
unfolding find_event
find_none_append d b n [] row h k = rw k
find_none_append d b n (x ∷ xs) row h k = ground (arith, find_none_append d b n xs row)

pub Distinct-append :
    (server : Server) (id version : ℕ) (item : TelemetryEvent) (xs : List Telemetry)
    → Distinct xs
    → find_of item xs ≡ none
    → Distinct (xs ++ new_row server id version item ∷ [])
unfolding find_event
Distinct-append server id version item [] h missing = (refl, tt)
Distinct-append server id version item (x ∷ xs) h missing = (
  find_none_append x.device_id x.boot_id x.sequence_number xs (new_row server id version item) h.0 (
      ground (
        arith,
        str_eq_iff item.device_id x.device_id,
        str_eq_iff x.device_id item.device_id,
        str_eq_iff item.boot_id x.boot_id,
        str_eq_iff x.boot_id item.boot_id,
      )),
  Distinct-append server id version item xs h.1 (ground arith),
)
