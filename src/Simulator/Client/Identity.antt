-- ===== src/Simulator/Client/Identity.antt =====
-- The identity of an event, from its validation to the result that repeats it.
use industrial_equipment_mon.Prelude.{
  ℕ, ◌≡◌, refl, sym, ap, ◌∙◌, String, Bool, true, false, Option, none, some, List, arith,
  str_eq_iff,
}
use industrial_equipment_mon.Decimal.{pos, negsuc, eq_decimal_refl}
use industrial_equipment_mon.Telemetry.Json.{
  Value, null, boolean, integer, decimal, text, array, object, Members, member, get,
}
use industrial_equipment_mon.Telemetry.Schemas.{TelemetryEvent, TelemetryResponseItem}
use industrial_equipment_mon.Telemetry.Ingest.Answers.{Answers}
use industrial_equipment_mon.Telemetry.Validation.{
  Instants, good, good_or_none, field, identifier_of, counter_of,
}
use industrial_equipment_mon.Telemetry.Validation.Item.{
  Fields, Problem, failed, fields_of, complete, conclude, item_of, validate_telemetry_item,
}
use industrial_equipment_mon.Simulator.Client.{py_eq, echoes, echoes_identity}
use industrial_equipment_mon.Simulator.Client.Response.{text_or_null, counter_or_null}

-- An event whose identity the contract admits.
pub record IsIdentified (m : Members) : Type 0 where
  pub device_id : String
  pub boot_id : String
  pub sequence_number : ℕ
  pub has_device : field identifier_of (get "device_id" m) ≡ good device_id
  pub has_boot : field identifier_of (get "boot_id" m) ≡ good boot_id
  pub has_sequence : field counter_of (get "sequence_number" m) ≡ good sequence_number

identifier_text :
    (o : Option Value) (s : String) → field identifier_of o ≡ good s → o ≡ some (text s)
unfolding identifier_of
identifier_text none s h = ground arith
identifier_text (some (text t)) s h = ground arith
identifier_text (some null) s h = ground arith
identifier_text (some (boolean b)) s h = ground arith
identifier_text (some (integer n)) s h = ground arith
identifier_text (some (decimal d)) s h = ground arith
identifier_text (some (array xs)) s h = ground arith
identifier_text (some (object m)) s h = ground arith

counter_number :
    (o : Option Value) (n : ℕ) → field counter_of o ≡ good n → o ≡ some (integer (pos n))
unfolding counter_of
counter_number none n h = ground arith
counter_number (some (text t)) n h = ground arith
counter_number (some null) n h = ground arith
counter_number (some (boolean b)) n h = ground arith
counter_number (some (integer (pos k))) n h = ground arith
counter_number (some (integer (negsuc k))) n h = ground arith
counter_number (some (decimal d)) n h = ground arith
counter_number (some (array xs)) n h = ground arith
counter_number (some (object m)) n h = ground arith

text_echoes : (s : String) → echoes (some (text s)) (text s) ≡ true
unfolding py_eq
text_echoes s = ground (arith, str_eq_iff s s)

counter_echoes : (n : ℕ) → echoes (some (integer (pos n))) (integer (pos n)) ≡ true
unfolding py_eq
counter_echoes n = ground (arith, eq_decimal_refl (record { mantissa = pos n; scale = 0 }))

complete_identity :
    (f : Fields) (e : TelemetryEvent)
    → complete f ≡ some e
    → (good_or_none f.device_id ≡ some e.device_id)
      × (good_or_none f.boot_id ≡ some e.boot_id)
      × (good_or_none f.sequence_number ≡ some e.sequence_number)
unfolding complete
complete_identity f e h = ground arith

-- The identity of an event, as a result repeats it.
abbrev pub Names : (m : Members) → IsIdentified m → TelemetryResponseItem → Type 0
Names m v r =
    (r.device_id ≡ some v.device_id)
    × (r.boot_id ≡ some v.boot_id)
    × (r.sequence_number ≡ some v.sequence_number)

rejected-Names :
    (m : Members) (v : IsIdentified m) (r : TelemetryResponseItem) (ps : List Problem)
    → Answers (item_of m (failed ps)) r
    → Names m v r
rejected-Names m v r ps a = (
  ap (λ (x : TelemetryResponseItem). x.device_id) a ∙ ap good_or_none v.has_device,
  ap (λ (x : TelemetryResponseItem). x.boot_id) a ∙ ap good_or_none v.has_boot,
  ap (λ (x : TelemetryResponseItem). x.sequence_number) a ∙ ap good_or_none v.has_sequence,
)

-- Validation keeps the identity, whether the event passes or not.
conclude-Names :
    (i : Instants) (m : Members) (v : IsIdentified m) (r : TelemetryResponseItem) (extra : Bool)
    (ps : List Problem) (o : Option TelemetryEvent)
    → complete (fields_of i m) ≡ o
    → Answers (item_of m (conclude o extra ps)) r
    → Names m v r
unfolding fields_of
conclude-Names i m v r extra ps none h a = rejected-Names m v r ps a
conclude-Names i m v r true ps (some e) h a = rejected-Names m v r ps a
conclude-Names i m v r false ps (some e) h a =
    let (d, b, n) = complete_identity (fields_of i m) e h in
    (
      a.0 ∙ sym d ∙ ap good_or_none v.has_device,
      a.1 ∙ sym b ∙ ap good_or_none v.has_boot,
      a.2 ∙ sym n ∙ ap good_or_none v.has_sequence,
    )

pub validated-Names :
    (i : Instants) (m : Members) (v : IsIdentified m) (r : TelemetryResponseItem)
    → Answers (validate_telemetry_item i (object m)) r
    → Names m v r
unfolding validate_telemetry_item
validated-Names i m v r a = conclude-Names i m v r _ _ _ refl a

pub echoes-Names :
    (m : Members) (v : IsIdentified m) (r : TelemetryResponseItem) (rest : Members)
    → Names m v r
    → echoes_identity m (
        member "device_id" (text_or_null r.device_id) (
          member "boot_id"
            (text_or_null r.boot_id)
            (member "sequence_number" (counter_or_null r.sequence_number) rest)))
      ≡ true
unfolding echoes_identity get
echoes-Names m v r rest (d, b, n) =
    let vd = identifier_text (get "device_id" m) v.device_id v.has_device in
    let vb = identifier_text (get "boot_id" m) v.boot_id v.has_boot in
    let vn = counter_number (get "sequence_number" m) v.sequence_number v.has_sequence in
    rw
      (
        d,
        b,
        n,
        vd,
        vb,
        vn,
        text_echoes v.device_id,
        text_echoes v.boot_id,
        counter_echoes v.sequence_number,
      )
      refl
