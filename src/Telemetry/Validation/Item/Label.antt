-- ===== src/Telemetry/Validation/Item/Label.antt =====
-- An event with another metric or unit is told so, and keeps its identity.
use industrial_equipment_mon.Prelude.{
  String, ◌≡◌, refl, ap, sym, ◌∙◌, Bool, true, false, Option, none, some, arith, List, str_eq,
  str_eq_iff, if◌then◌else◌,
}
use industrial_equipment_mon.Telemetry.Json.{
  Value, text, object, Members, member, end, get, has_other_keys,
}
use industrial_equipment_mon.Telemetry.Schemas.{
  TelemetryEvent, ItemReason, BatchItem, event, response, rejected, invalid_metric, invalid_unit,
}
use industrial_equipment_mon.Telemetry.Validation.{
  Instants, Field, good, literal_error, field, good_or_none, metric_of, unit_of,
}
use industrial_equipment_mon.Telemetry.Validation.Item.{
  Fields, fields_of, complete, problems, all_labels, any_at_metric, reason_of, is_event_key,
  conclude, model_validate, item_of, validate_telemetry_item, Validated, passed, failed, Problem,
}

-- Another value in place of a member's.
unfoldable pub put : String → Value → Members → Members
put key v end = end
put key v (member k w rest) = if str_eq k key then member k v rest else member k w (put key v rest)

get-put :
    (key : String) (v w : Value) (m : Members) → get key m ≡ some w → get key (put key v m) ≡ some v
unfolding get put
get-put key v w end h = absurd (ground arith)
get-put key v w (member k x rest) h = ground (arith, get-put key v w rest)

get-put_ne :
    (key j : String) (v : Value) (m : Members)
    → str_eq key j ≡ false
    → get j (put key v m) ≡ get j m
unfolding get put
get-put_ne key j v end h = refl
get-put_ne key j v (member k x rest) h = ground (arith, get-put_ne key j v rest h, str_eq_iff k key)

other_keys-put :
    (known : String → Bool) (key : String) (v : Value) (m : Members)
    → has_other_keys known (put key v m) ≡ has_other_keys known m
unfolding has_other_keys put
other_keys-put known key v end = refl
other_keys-put known key v (member k x rest) = ground (arith, other_keys-put known key v rest)

-- The answer to an object, from what its fields read.
abbrev answer_to : Fields → Validated → BatchItem
answer_to f (passed e) = event e
answer_to f (failed ps) = response (record {
  device_id = good_or_none f.device_id;
  boot_id = good_or_none f.boot_id;
  sequence_number = good_or_none f.sequence_number;
  outcome = rejected;
  reason = some (reason_of ps);
})

abbrev answer_from : Fields → Bool → BatchItem
answer_from f extra = answer_to f (conclude (complete f) extra (problems f extra))

item_of-answer :
    (i : Instants) (m : Members) (x : Validated) → item_of m x ≡ answer_to (fields_of i m) x
unfolding fields_of
item_of-answer i m (passed e) = refl
item_of-answer i m (failed ps) = refl

validate-answer :
    (i : Instants) (m : Members)
    → validate_telemetry_item i (object m)
      ≡ answer_from (fields_of i m) (has_other_keys is_event_key m)
unfolding validate_telemetry_item
validate-answer i m = item_of-answer i m (model_validate i (object m))

answer-event :
    (f : Fields) (o : Option TelemetryEvent) (extra : Bool) (ps : List Problem) (e : TelemetryEvent)
    → answer_to f (conclude o extra ps) ≡ event e
    → (o ≡ some e) × (extra ≡ false)
answer-event f (some x) false ps e h = (ground arith, refl)
answer-event f (some x) true ps e h = absurd (ground arith)
answer-event f none extra ps e h = absurd (ground arith)

-- The fields that an event was made of.
abbrev read_as : TelemetryEvent → Fields
read_as e = record {
  device_id = good e.device_id;
  boot_id = good e.boot_id;
  sequence_number = good e.sequence_number;
  measured_at = good e.measured_at;
  device_uptime_ms = good e.device_uptime_ms;
  gateway_received_at = good e.gateway_received_at;
  metric = good e.metric;
  value = good e.value;
  unit = good e.unit;
  quality = good e.quality;
}

complete-read_as : (f : Fields) (e : TelemetryEvent) → complete f ≡ some e → f ≡ read_as e
unfolding complete
complete-read_as f e h = ground arith

module _ (i : Instants) (m : Members) (v w : Value) where
  fields-put_metric :
      get "metric" m ≡ some w
      → fields_of i (put "metric" v m) ≡ record (fields_of i m) { metric = metric_of v }
  unfolding fields_of
  fields-put_metric there =
      rw
        (
          get-put "metric" v w m there,
          get-put_ne "metric" "device_id" v m refl,
          get-put_ne "metric" "boot_id" v m refl,
          get-put_ne "metric" "sequence_number" v m refl,
          get-put_ne "metric" "measured_at" v m refl,
          get-put_ne "metric" "device_uptime_ms" v m refl,
          get-put_ne "metric" "gateway_received_at" v m refl,
          get-put_ne "metric" "value" v m refl,
          get-put_ne "metric" "unit" v m refl,
          get-put_ne "metric" "quality" v m refl,
        )
        refl

  fields-put_unit :
      get "unit" m ≡ some w
      → fields_of i (put "unit" v m) ≡ record (fields_of i m) { unit = unit_of v }
  unfolding fields_of
  fields-put_unit there =
      rw
        (
          get-put "unit" v w m there,
          get-put_ne "unit" "device_id" v m refl,
          get-put_ne "unit" "boot_id" v m refl,
          get-put_ne "unit" "sequence_number" v m refl,
          get-put_ne "unit" "measured_at" v m refl,
          get-put_ne "unit" "device_uptime_ms" v m refl,
          get-put_ne "unit" "gateway_received_at" v m refl,
          get-put_ne "unit" "value" v m refl,
          get-put_ne "unit" "metric" v m refl,
          get-put_ne "unit" "quality" v m refl,
        )
        refl

present :
    {A : Type 0} (read : Value → Field A) (o : Option Value) (a : A)
    → field read o ≡ good a
    → (v : Value) × (o ≡ some v)
present read none a h = absurd (ground arith)
present read (some v) a h = (v, refl)

metric_read :
    (i : Instants) (m : Members) (e : TelemetryEvent)
    → fields_of i m ≡ read_as e
    → field metric_of (get "metric" m) ≡ good e.metric
unfolding fields_of
metric_read i m e read = ap (λ (f : Fields). f.metric) read

unit_read :
    (i : Instants) (m : Members) (e : TelemetryEvent)
    → fields_of i m ≡ read_as e
    → field unit_of (get "unit" m) ≡ good e.unit
unfolding fields_of
unit_read i m e read = ap (λ (f : Fields). f.unit) read

abbrev pub rejected_as : ItemReason → TelemetryEvent → BatchItem
rejected_as reason e = response (record {
  device_id = some e.device_id;
  boot_id = some e.boot_id;
  sequence_number = some e.sequence_number;
  outcome = rejected;
  reason = some reason;
})

wrong_metric_of : (s : String) → str_eq s "temperature" ≡ false → metric_of (text s) ≡ literal_error
unfolding metric_of
wrong_metric_of s h = rw h refl

wrong_unit_of : (s : String) → str_eq s "celsius" ≡ false → unit_of (text s) ≡ literal_error
unfolding unit_of
wrong_unit_of s h = rw h refl

-- A payload that passes, with only its metric or only its unit replaced by another text, is rejected as
-- `invalid_metric` or `invalid_unit`, with the identity of its event.
pub mislabelled_item :
    (i : Instants) (m : Members) (e : TelemetryEvent) (metric unit : String)
    → validate_telemetry_item i (object m) ≡ event e
    → str_eq metric "temperature" ≡ false
    → str_eq unit "celsius" ≡ false
    → (validate_telemetry_item i (object (put "metric" (text metric) m))
        ≡ rejected_as invalid_metric e)
      × (validate_telemetry_item i (object (put "unit" (text unit) m)) ≡ rejected_as invalid_unit e)
unfolding complete all_labels any_at_metric
mislabelled_item i m e metric unit h not_metric not_unit =
    let f = fields_of i m in
    let extra = has_other_keys is_event_key m in
    let (made, known) =
      answer-event f (complete f) extra (problems f extra) e (sym (validate-answer i m) ∙ h) in
    let read = complete-read_as f e made in
    let (v, at_metric) = present metric_of (get "metric" m) e.metric (metric_read i m e read) in
    let (w, at_unit) = present unit_of (get "unit" m) e.unit (unit_read i m e read) in
    (
      validate-answer i (put "metric" (text metric) m)
          ∙ rw
              (
                fields-put_metric i m (text metric) v at_metric,
                other_keys-put is_event_key "metric" (text metric) m,
                known,
                read,
                wrong_metric_of metric not_metric,
              )
              refl,
      validate-answer i (put "unit" (text unit) m)
          ∙ rw
              (
                fields-put_unit i m (text unit) w at_unit,
                other_keys-put is_event_key "unit" (text unit) m,
                known,
                read,
                wrong_unit_of unit not_unit,
              )
              refl,
    )
