-- ===== src/Telemetry/Validation/Item/Bounds.antt =====
-- A validated event is within the bounds of the wire contract.
use industrial_equipment_mon.Prelude.{
  ℕ, ◌≤◌, ◌<◌, ◌^◌, String, ◌≡◌, refl, Bool, true, false, Option, none, some, arith, List,
  Bool-cases, inl, inr, if◌then◌else◌,
}
use mathlib.Core.Path.{subst}
use industrial_equipment_mon.Decimal.{pos, negsuc}
use industrial_equipment_mon.Telemetry.Json.{
  Value, null, boolean, integer, decimal, text, array, object, Members, get, has_other_keys,
}
use industrial_equipment_mon.Telemetry.Schemas.{TelemetryEvent, BatchItem, event, response}
use industrial_equipment_mon.Telemetry.Validation.{
  Instants, good, other_error, field, identifier_of, counter_of, is_identifier, count, has_nul,
}
use industrial_equipment_mon.Telemetry.Validation.Item.{
  Fields, fields_of, complete, conclude, item_of, validate_telemetry_item, is_event_key, Problem,
}

-- An identifier of the contract.
pub record IsName (s : String) : Type 0 where
  pub nonempty : 1 ≤ count s
  pub bounded : count s ≤ 128
  pub no_nul : has_nul s ≡ false

pub record IsWire (e : TelemetryEvent) : Type 0 where
  pub device_id : IsName e.device_id
  pub boot_id : IsName e.boot_id
  pub sequence_number : e.sequence_number < 2 ^ 63
  pub device_uptime_ms : e.device_uptime_ms < 2 ^ 63

is_identifier-IsName : (s : String) → is_identifier s ≡ true → IsName s
is_identifier-IsName s h = record {
  nonempty = ground arith;
  bounded = ground arith;
  no_nul = ground arith;
}

text-IsName : (t s : String) → (if is_identifier t then good t else other_error) ≡ good s → IsName s
text-IsName t s h = elim (Bool-cases (is_identifier t)) [
  | inl ok ↦ is_identifier-IsName s (ground arith)
  | inr bad ↦ absurd (ground arith)
]

pub identifier_of-IsName :
    (v : Option Value) (s : String) → field identifier_of v ≡ good s → IsName s
unfolding identifier_of
identifier_of-IsName none s h = absurd (ground arith)
identifier_of-IsName (some (text t)) s h = text-IsName t s h
identifier_of-IsName (some (object t)) s h = absurd (ground arith)
identifier_of-IsName (some null) s h = absurd (ground arith)
identifier_of-IsName (some (boolean b)) s h = absurd (ground arith)
identifier_of-IsName (some (integer b)) s h = absurd (ground arith)
identifier_of-IsName (some (decimal b)) s h = absurd (ground arith)
identifier_of-IsName (some (array b)) s h = absurd (ground arith)

complete-fields :
    (f : Fields) (e : TelemetryEvent)
    → complete f ≡ some e
    → (f.device_id ≡ good e.device_id)
      × (f.boot_id ≡ good e.boot_id)
      × (f.sequence_number ≡ good e.sequence_number)
      × (f.device_uptime_ms ≡ good e.device_uptime_ms)
unfolding complete
complete-fields f e h = ground arith

is_counter : (v : Option Value) (n : ℕ) → field counter_of v ≡ good n → n < 2 ^ 63
unfolding counter_of
is_counter none n h = absurd (ground arith)
is_counter (some (integer (pos k))) n h = ground arith
is_counter (some (integer (negsuc k))) n h = absurd (ground arith)
is_counter (some null) n h = absurd (ground arith)
is_counter (some (boolean b)) n h = absurd (ground arith)
is_counter (some (decimal b)) n h = absurd (ground arith)
is_counter (some (text b)) n h = absurd (ground arith)
is_counter (some (array b)) n h = absurd (ground arith)
is_counter (some (object b)) n h = absurd (ground arith)

complete-IsWire :
    (i : Instants) (m : Members) (e : TelemetryEvent) → complete (fields_of i m) ≡ some e → IsWire e
unfolding fields_of
complete-IsWire i m e h =
    let (d, b, s, u) = complete-fields (fields_of i m) e h in
    record {
      device_id = identifier_of-IsName (get "device_id" m) e.device_id d;
      boot_id = identifier_of-IsName (get "boot_id" m) e.boot_id b;
      sequence_number = is_counter (get "sequence_number" m) e.sequence_number s;
      device_uptime_ms = is_counter (get "device_uptime_ms" m) e.device_uptime_ms u;
    }

-- An event of which the model says that it passes, and a rejection, of which nothing is asked.
abbrev pub IsWireItem : BatchItem → Type 0
IsWireItem (event e) = IsWire e
IsWireItem (response r) = Unit

conclude-IsWireItem :
    (m : Members) (o : Option TelemetryEvent) (extra : Bool) (ps : List Problem)
    → ((e : TelemetryEvent) → o ≡ some e → IsWire e)
    → IsWireItem (item_of m (conclude o extra ps))
conclude-IsWireItem m (some e) false ps h = h e refl
conclude-IsWireItem m (some e) true ps h = tt
conclude-IsWireItem m none extra ps h = tt

pub validate-IsWireItem : (i : Instants) (v : Value) → IsWireItem (validate_telemetry_item i v)
unfolding validate_telemetry_item
validate-IsWireItem i (object m) =
    conclude-IsWireItem m (complete (fields_of i m)) (has_other_keys is_event_key m) _
      (complete-IsWire i m)
validate-IsWireItem i null = tt
validate-IsWireItem i (boolean b) = tt
validate-IsWireItem i (integer n) = tt
validate-IsWireItem i (decimal d) = tt
validate-IsWireItem i (text s) = tt
validate-IsWireItem i (array vs) = tt

-- An event that validation passes has a device and a boot of 1 to 128 characters without NUL, and
-- counters below 2^63.
pub validated-IsWire :
    (i : Instants) (v : Value) (e : TelemetryEvent)
    → validate_telemetry_item i v ≡ event e
    → IsWire e
validated-IsWire i v e h = subst IsWireItem h (validate-IsWireItem i v)
