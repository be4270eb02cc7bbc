-- ===== src/Telemetry/Validation/Item/Rejection.antt =====
-- A rejection of validation is one that the response model admits.
use industrial_equipment_mon.Prelude.{
  ℕ, String, ◌≡◌, refl, Bool, true, false, Option, none, some, List,
}
use mathlib.Core.Path.{subst}
use industrial_equipment_mon.Telemetry.Json.{
  Value, null, boolean, integer, decimal, text, array, object, Members, get, has_other_keys,
}
use industrial_equipment_mon.Telemetry.Schemas.{
  TelemetryResponseItem, rejected, BatchItem, event, response, ok, validate_outcome,
}
use industrial_equipment_mon.Telemetry.Validation.{
  Instants, Field, good, literal_error, other_error, good_or_none,
}
use industrial_equipment_mon.Telemetry.Validation.Item.{
  elsewhere, Problem, fields_of, problems, report, complete, conclude, all_labels, reason_of,
  item_of, validate_telemetry_item, is_event_key,
}

abbrev rejection : Option String → Option String → Option ℕ → List Problem → TelemetryResponseItem
rejection d b s ps = record {
  device_id = d;
  boot_id = b;
  sequence_number = s;
  outcome = rejected;
  reason = some (reason_of ps);
}

-- A missing identity is itself an error that makes the reason `malformed_value`.
rejection-ok :
    (d b : Field String) (s : Field ℕ) (ps : List Problem)
    → let all = report elsewhere d (report elsewhere b (report elsewhere s ps)) in
      let r = rejection (good_or_none d) (good_or_none b) (good_or_none s) all in
      validate_outcome r ≡ ok r
unfolding validate_outcome all_labels
rejection-ok literal_error b s ps = refl
rejection-ok other_error b s ps = refl
rejection-ok (good d) literal_error s ps = refl
rejection-ok (good d) other_error s ps = refl
rejection-ok (good d) (good b) literal_error ps = refl
rejection-ok (good d) (good b) other_error ps = refl
rejection-ok (good d) (good b) (good s) ps = refl

-- What an item is answered with before its transaction.
abbrev pub IsAdmitted : BatchItem → Type 0
IsAdmitted (event e) = Unit
IsAdmitted (response r) = (r.outcome ≡ rejected) × (validate_outcome r ≡ ok r)

conclude-IsAdmitted :
    (i : Instants) (m : Members) (e : Option _) (extra b : Bool)
    → IsAdmitted (item_of m (conclude e extra (problems (fields_of i m) b)))
unfolding fields_of
conclude-IsAdmitted i m (some e) false b = tt
conclude-IsAdmitted i m (some e) true b = (refl, rejection-ok _ _ _ _)
conclude-IsAdmitted i m none extra b = (refl, rejection-ok _ _ _ _)

pub validate-IsAdmitted : (i : Instants) (v : Value) → IsAdmitted (validate_telemetry_item i v)
unfolding validate_telemetry_item validate_outcome all_labels get
validate-IsAdmitted i (object m) =
    conclude-IsAdmitted i m (complete (fields_of i m)) (has_other_keys is_event_key m) _
validate-IsAdmitted i null = (refl, refl)
validate-IsAdmitted i (boolean b) = (refl, refl)
validate-IsAdmitted i (integer n) = (refl, refl)
validate-IsAdmitted i (decimal d) = (refl, refl)
validate-IsAdmitted i (text s) = (refl, refl)
validate-IsAdmitted i (array vs) = (refl, refl)

-- An item that validation rejects has a reason, is rejected, and is one that the response model admits:
-- unless the reason is `malformed_value`, its three identities are there.
rejected_item_admitted :
    (i : Instants) (v : Value) (r : TelemetryResponseItem)
    → validate_telemetry_item i v ≡ response r
    → (r.outcome ≡ rejected) × (validate_outcome r ≡ ok r)
rejected_item_admitted i v r h = subst IsAdmitted h (validate-IsAdmitted i v)
