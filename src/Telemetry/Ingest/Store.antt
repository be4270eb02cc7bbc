-- ===== src/Telemetry/Ingest/Store.antt =====
-- What ingestion promises, with no rows, numbers or alerts: a store in which the first content that is
-- written under an identity stays, and the answer that each item gets from it.
use industrial_equipment_mon.Prelude.{
  ℕ, String, Bool, ◌&&◌, Option, none, some, List, [], ◌∷◌, str_eq, nat_eq, option_eq, eq_string,
  if◌then◌else◌,
}
use industrial_equipment_mon.Prelude.Table.{lookup}
use industrial_equipment_mon.Decimal.{Decimal, eq_decimal}
use industrial_equipment_mon.Telemetry.Schemas.{
  ClockQuality, TelemetryEvent, TelemetryResponseItem, Outcome, accepted, duplicate, rejected,
  ItemReason, unknown_device, wrong_gateway, malformed_value, identity_conflict, BatchItem, event,
  response,
}
use industrial_equipment_mon.Db.Models.{Device, Telemetry, Database}
use industrial_equipment_mon.Telemetry.Repository.{find_event}
use industrial_equipment_mon.Telemetry.Ingest.{clock_eq}

-- The values of `IMMUTABLE_CONTENT_FIELDS` that can differ.
pub record Content : Type 0 where
  pub schema_version : ℕ
  pub measured_at : Option ℕ
  pub device_uptime_ms : ℕ
  pub value : Decimal
  pub clock : ClockQuality

abbrev pub agrees : Content → Content → Bool
agrees a b =
    nat_eq a.schema_version b.schema_version
    && option_eq nat_eq a.measured_at b.measured_at
    && nat_eq a.device_uptime_ms b.device_uptime_ms
    && eq_decimal a.value b.value
    && clock_eq a.clock b.clock

-- The content under each identity: device, boot and sequence number.
abbrev pub Store : Type 0
Store = String → String → ℕ → Option Content

abbrev pub is_key : String → String → ℕ → String → String → ℕ → Bool
is_key d b n d' b' n' = str_eq d d' && str_eq b b' && nat_eq n n'

abbrev pub first : Content → Option Content → Content
first c none = c
first c (some old) = old

abbrev pub write : String → String → ℕ → Content → Store → Store
write d b n c s d' b' n' = if is_key d b n d' b' n' then some (first c (s d b n)) else s d' b' n'

abbrev pub claim : Content → Option Content → Outcome × Option ItemReason
claim c none = (accepted, none)
claim c (some old) = if agrees old c then (duplicate, none) else (rejected, some identity_conflict)

abbrev pub event_content : ℕ → TelemetryEvent → Content
event_content version item = record {
  schema_version = version;
  measured_at = item.measured_at;
  device_uptime_ms = item.device_uptime_ms;
  value = item.value;
  clock = item.quality.clock;
}

-- Which events the registry refuses to a gateway.
abbrev pub unowned : String → Option Device → Option ItemReason
unowned gateway_id none = some unknown_device
unowned gateway_id (some d) =
    if str_eq d.gateway_id gateway_id && d.enabled then none else some wrong_gateway

abbrev pub registry_refusal : Database → String → TelemetryEvent → Option ItemReason
registry_refusal db gateway_id item = unowned gateway_id (lookup item.device_id db.devices)

module _ (refused : TelemetryEvent → Option ItemReason) (representable : TelemetryEvent → Bool)
    (version : ℕ) where
  abbrev pub offer :
      Store → TelemetryEvent → Option ItemReason → Store × (Outcome × Option ItemReason)
  offer s item (some reason) = (s, (rejected, some reason))
  offer s item none =
      if representable item
      then (
        write item.device_id item.boot_id item.sequence_number (event_content version item) s,
        claim (event_content version item) (s item.device_id item.boot_id item.sequence_number),
      )
      else (s, (rejected, some malformed_value))

  abbrev pub answered :
      TelemetryEvent → Store × (Outcome × Option ItemReason) → Store × TelemetryResponseItem
  answered item (s, (outcome, reason)) = (
    s,
    record {
      device_id = some item.device_id;
      boot_id = some item.boot_id;
      sequence_number = some item.sequence_number;
      outcome = outcome;
      reason = reason;
    },
  )

  abbrev pub put_item : Store → BatchItem → Store × TelemetryResponseItem
  put_item s (response r) = (s, r)
  put_item s (event item) = answered item (offer s item (refused item))

  unfoldable pub put_items : Store → List BatchItem → Store × List TelemetryResponseItem
  put_items s [] = (s, [])
  put_items s (item ∷ rest) =
      let (s', r) = put_item s item in let (s'', rs) = put_items s' rest in (s'', r ∷ rs)

-- The store that a telemetry table is.
abbrev pub content_of : Telemetry → Content
content_of row = record {
  schema_version = row.schema_version;
  measured_at = row.measured_at;
  device_uptime_ms = row.device_uptime_ms;
  value = row.value;
  clock = row.quality.clock;
}

abbrev pub stored_content : Option Telemetry → Option Content
stored_content none = none
stored_content (some row) = some (content_of row)

abbrev pub view : List Telemetry → Store
view rows d b n = stored_content (find_event d b n rows)
