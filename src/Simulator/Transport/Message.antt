-- ===== src/Simulator/Transport/Message.antt =====
-- The members of the message that simulator/mqtt_transport.py publishes for an event.
use industrial_equipment_mon.Prelude.{
  ◌≡◌, refl, sym, ap, ◌∙◌, inl, inr, String, true, false, Option, none, some, arith, str_eq,
  str_eq_iff, Bool-cases, if◌then◌else◌,
}
use industrial_equipment_mon.Decimal.{pos}
use industrial_equipment_mon.Telemetry.Json.{
  Value, integer, Members, end, member, get, has_key, is_unique, unique_members,
}
use industrial_equipment_mon.Simulator.Transport.{set_member, update, device_message}

-- A member of the event stands before one that was there.
abbrev pub or_else : Option Value → Option Value → Option Value
or_else none before = before
or_else (some v) before = some v

module _ (key : String) where
  get-set_member :
      (k : String) (v : Value) (m : Members)
      → get key (set_member k v m) ≡ (if str_eq k key then some v else get key m)
  unfolding get set_member
  get-set_member k v end = refl
  get-set_member k v (member k' w rest) = elim (Bool-cases (str_eq k' k)) [
    | inl same ↦ elim (Bool-cases (str_eq k key)) [
      | inl found ↦
          let found' : str_eq k' key ≡ true = cc ((str_eq_iff k' k).0 same, found) in
          rw (same, found, found') refl
      | inr other ↦
          let other' : str_eq k' key ≡ false = cc ((str_eq_iff k' k).0 same, other) in
          rw (same, other, other') refl
    ]
    | inr differs ↦ rw differs (elim (Bool-cases (str_eq k' key)) [
      | inr other ↦ rw other (get-set_member k v rest)
      | inl found ↦
          let apart : str_eq k key ≡ false = elim (Bool-cases (str_eq k key)) [
            | inr apart ↦ apart
            | inl same ↦ absurd (
                cc (
                  (str_eq_iff k' k).1
                      ((str_eq_iff k' key).0 found ∙ sym ((str_eq_iff k key).0 same)),
                  differs,
                ))
          ] in
          rw (found, apart) refl
    ])
  ]

  get-missing : (m : Members) → has_key key m ≡ false → get key m ≡ none
  unfolding get has_key
  get-missing end h = refl
  get-missing (member k v rest) h = ground (arith, h, get-missing rest)

  get-update :
      (event payload : Members)
      → unique_members event ≡ true
      → get key (update payload event) ≡ (
          if str_eq "gateway_received_at" key
          then get key payload
          else or_else (get key event) (get key payload))
  unfolding get update is_unique
  get-update end payload u = elim (Bool-cases (str_eq "gateway_received_at" key)) [
    | inl receipt ↦ rw receipt refl
    | inr other ↦ rw other refl
  ]
  get-update (member k v rest) payload u =
      let u' : unique_members rest ≡ true = ground (arith, u) in
      let once : has_key k rest ≡ false = ground (arith, u) in
      elim (Bool-cases (str_eq k "gateway_received_at")) [
        | inl receipt ↦ rw receipt (
            get-update rest payload u' ∙ (elim (Bool-cases (str_eq "gateway_received_at" key)) [
              | inl asked ↦ rw asked refl
              | inr other ↦
                  let other' : str_eq k key ≡ false =
                    ap (λ x. str_eq x key) ((str_eq_iff k "gateway_received_at").0 receipt)
                    ∙ other in
                  rw (other, other') refl
            ]))
        | inr kept ↦ rw kept (
            get-update rest (set_member k v payload) u' ∙ (elim (Bool-cases (str_eq k key)) [
              | inl asked ↦
                  let same : k ≡ key = (str_eq_iff k key).0 asked in
                  let missing : get key rest ≡ none = get-missing rest (cc (once, same)) in
                  let apart : str_eq "gateway_received_at" key ≡ false =
                    elim (Bool-cases (str_eq "gateway_received_at" key)) [
                      | inr apart ↦ apart
                      | inl receipt ↦
                          let receipt' = (str_eq_iff "gateway_received_at" key).0 receipt in
                          absurd (
                            cc ((str_eq_iff k "gateway_received_at").1 (same ∙ sym receipt'), kept))
                    ] in
                  rw (get-set_member k v payload, asked, missing, apart) refl
              | inr other ↦ rw (get-set_member k v payload, other) refl
            ]))
      ]

-- The message of an event whose members have different names: under each name it holds what the event
-- holds, and else the schema version under its own; only the gateway's time of receipt is left out.
pub device_message_lem :
    (key : String) (event : Members)
    → unique_members event ≡ true
    → get key (device_message event) ≡ (
        if str_eq "gateway_received_at" key
        then none
        else or_else
            (get key event)
            (if str_eq "schema_version" key then some (integer (pos 1)) else none))
unfolding device_message get
device_message_lem key event u =
    get-update key event (member "schema_version" (integer (pos 1)) end) u
    ∙ elim (Bool-cases (str_eq "gateway_received_at" key)) [
      | inl receipt ↦
          let other : str_eq "schema_version" key ≡ false =
            ap (λ x. str_eq "schema_version" x)
              (sym ((str_eq_iff "gateway_received_at" key).0 receipt)) in
          rw (receipt, other) refl
      | inr kept ↦ rw kept refl
    ]
