-- ===== src/Telemetry/Validation/Batch/Parsed.antt =====
-- What a parsed batch holds, and which refusal a body has.
use industrial_equipment_mon.Prelude.{
  ℕ, ◌≤◌, String, ◌≡◌, refl, sym, ◌∙◌, inl, inr, true, false, Option, none, some, List, [], ◌∷◌,
  ◌++◌, map, length, arith, leb, nat_eq, Bool-cases, Option-cases, if◌then◌else◌,
}
use industrial_equipment_mon.Decimal.{ℤ}
use industrial_equipment_mon.Telemetry.Json.{
  Value, null, boolean, integer, decimal, text, array, object, Items, Members, get, values,
  has_other_keys, is_unique,
}
use industrial_equipment_mon.Telemetry.Schemas.{ValidatedTelemetryBatch}
use industrial_equipment_mon.Telemetry.Validation.{Instants}
use industrial_equipment_mon.Telemetry.Validation.Item.{validate_telemetry_item}
use industrial_equipment_mon.Telemetry.Validation.Batch.{
  EnvelopeProblem, parsed, refused, unsupported_schema_version, batch_too_large, check_version,
  check_length, check_events, check_extra, check_envelope, events_of, conclude_batch,
  validated_items, parse_payload, parse_telemetry_batch, is_one, is_envelope_key,
}

-- The envelope that a parsed batch came in.
pub record IsEnvelope (m : Members) (items : Items) : Type 0 where
  pub events : get "events" m ≡ some (array items)
  pub known : has_other_keys is_envelope_key m ≡ false
  pub nonempty : 1 ≤ length (values items)

append_nil-left : {A : Type 0} (xs ys : List A) → xs ++ ys ≡ [] → (xs ≡ []) × (ys ≡ [])
append_nil-left [] ys h = (refl, h)
append_nil-left (x ∷ xs) ys h = absurd (ground arith)

check_length-bounds : (n : ℕ) → check_length n ≡ [] → (1 ≤ n) × (n ≤ 500)
check_length-bounds n h = ground arith

check_events-array :
    (o : Option Value)
    → check_events o ≡ []
    → (items : Items) × (o ≡ some (array items))
      × (1 ≤ length (values items))
      × (length (values items) ≤ 500)
check_events-array none h = absurd (ground arith)
check_events-array (some (array items)) h =
    let (low, high) = check_length-bounds (length (values items)) h in (items, refl, low, high)
check_events-array (some null) h = absurd (ground arith)
check_events-array (some (boolean b)) h = absurd (ground arith)
check_events-array (some (integer b)) h = absurd (ground arith)
check_events-array (some (decimal b)) h = absurd (ground arith)
check_events-array (some (text b)) h = absurd (ground arith)
check_events-array (some (object b)) h = absurd (ground arith)

conclude_batch-parsed :
    (i : Instants) (events : List Value) (ps : List EnvelopeProblem) (b : ValidatedTelemetryBatch)
    → conclude_batch i events ps ≡ parsed b
    → (ps ≡ []) × (record { schema_version = 1; items = validated_items i events } ≡ b)
conclude_batch-parsed i events [] b h = (refl, ground arith)
conclude_batch-parsed i events (p ∷ ps) b h = absurd (ground arith)

-- The payload of a parsed batch.
abbrev pub Parses : Instants → Value → ValidatedTelemetryBatch → Type 0
Parses i payload b =
    (m : Members) × (items : Items) × (payload ≡ object m)
    × IsEnvelope m items
    × (length (values items) ≤ 500)
    × (b ≡ record { schema_version = 1; items = map (validate_telemetry_item i) (values items) })

parse_payload-Parses :
    (i : Instants) (payload : Value) (b : ValidatedTelemetryBatch)
    → parse_payload i payload ≡ parsed b
    → Parses i payload b
unfolding parse_payload check_envelope
parse_payload-Parses i (object m) b h =
    let version = check_version (get "schema_version" m) in
    let events = check_events (get "events" m) in
    let extra = has_other_keys is_envelope_key m in
    let (clean, made) =
      conclude_batch-parsed i (events_of (get "events" m)) (check_envelope m) b h in
    let (first, no_extra) = append_nil-left (version ++ events) (check_extra extra) clean in
    let no_events = (append_nil-left version events first).1 in
    let (items, at, low, high) = check_events-array (get "events" m) no_events in
    (
      m,
      items,
      refl,
      record { events = at; known = ground arith; nonempty = low },
      high,
      sym made ∙ rw at refl,
    )
parse_payload-Parses i null b h = absurd (ground arith)
parse_payload-Parses i (boolean v) b h = absurd (ground arith)
parse_payload-Parses i (integer v) b h = absurd (ground arith)
parse_payload-Parses i (decimal v) b h = absurd (ground arith)
parse_payload-Parses i (text v) b h = absurd (ground arith)
parse_payload-Parses i (array v) b h = absurd (ground arith)

-- A batch that is parsed came from an object with unique members, of which no other than the two of
-- the contract is there; its events are an array of 1 to 500 values, and it has one validated item
-- for each of them, in order.
pub parsed_batch :
    (i : Instants) (decode : String → Option Value) (body : String) (b : ValidatedTelemetryBatch)
    → parse_telemetry_batch i decode body ≡ parsed b
    → (payload : Value) × (decode body ≡ some payload)
      × (is_unique payload ≡ true)
      × Parses i payload b
unfolding parse_telemetry_batch
parsed_batch i decode body b h = elim (Option-cases (decode body)) [
  | inl missing ↦ absurd (ground arith)
  | inr (payload, there) ↦ elim (Bool-cases (is_unique payload)) [
    | inl unique ↦ (payload, there, unique, parse_payload-Parses i payload b (ground arith))
    | inr repeated ↦ absurd (ground arith)
  ]
]

-- A well-formed envelope is judged by its version first, which must be the integer 1, and by its
-- number of events second, which must be at most 500; it is parsed where both hold.
pub envelope_verdict :
    (i : Instants) (decode : String → Option Value) (body : String) (m : Members) (version : ℤ)
    (items : Items)
    → decode body ≡ some (object m)
    → is_unique (object m) ≡ true
    → get "schema_version" m ≡ some (integer version)
    → IsEnvelope m items
    → parse_telemetry_batch i decode body ≡ (
        if is_one version
        then if leb (length (values items)) 500
          then parsed (record {
            schema_version = 1;
            items = map (validate_telemetry_item i) (values items);
          })
          else refused batch_too_large
        else refused unsupported_schema_version)
unfolding parse_telemetry_batch parse_payload check_envelope
envelope_verdict i decode body m version items there unique at e =
    let nonzero : nat_eq (length (values items)) 0 ≡ false = ground (arith, e.nonempty) in
    elim (Bool-cases (is_one version)) [
      | inl one ↦ elim (Bool-cases (leb (length (values items)) 500)) [
        | inl fits ↦ rw (there, unique, at, e.events, e.known, nonzero, one, fits) refl
        | inr long ↦ rw (there, unique, at, e.events, e.known, nonzero, one, long) refl
      ]
      | inr other ↦ elim (Bool-cases (leb (length (values items)) 500)) [
        | inl fits ↦ rw (there, unique, at, e.events, e.known, nonzero, other, fits) refl
        | inr long ↦ rw (there, unique, at, e.events, e.known, nonzero, other, long) refl
      ]
    ]
