-- ===== src/Devices/Schemas/Topic.antt =====
-- Proofs on the identifiers that devices/schemas.py admits, as levels of an MQTT topic.
use industrial_equipment_mon.Prelude.{ℕ, ◌≡◌, refl, String, true, false, arith}
use industrial_equipment_mon.Prelude.Texts.{has_character}
use industrial_equipment_mon.Telemetry.Json.{text}
use industrial_equipment_mon.Telemetry.Validation.{good, has_nul, identifier_of}
use industrial_equipment_mon.Devices.Registration.{DeviceRegistration}
use industrial_equipment_mon.Devices.Schemas.{is_id_character, are_id_characters, is_registration}

-- A character that is not among those of an identifier is not in it.
no_character :
    (k : ℕ) (s : String)
    → is_id_character k ≡ false
    → are_id_characters s ≡ true
    → has_character k s ≡ false
no_character k String.[] h all = refl
no_character k (String.◌∷◌ c s) h all = ground (arith, h, no_character k s h (ground (arith, all)))

no_nul : (s : String) → are_id_characters s ≡ true → has_nul s ≡ false
no_nul String.[] all = refl
no_nul (String.◌∷◌ c s) all = ground (arith, no_nul s (ground (arith, all)))

-- A registration that the model admits: the device's identifier holds no topic separator and no
-- wildcard of MQTT, and telemetry validation admits it as the identifier of an event.
pub registered_topic :
    (r : DeviceRegistration)
    → is_registration r ≡ true
    → (has_character 47 r.device_id ≡ false)
      × (has_character 43 r.device_id ≡ false)
      × (has_character 35 r.device_id ≡ false)
      × (identifier_of (text r.device_id) ≡ good r.device_id)
unfolding is_registration identifier_of
registered_topic r h =
    let all : are_id_characters r.device_id ≡ true = ground (arith, h) in
    (
      no_character 47 r.device_id refl all,
      no_character 43 r.device_id refl all,
      no_character 35 r.device_id refl all,
      ground (arith, h, no_nul r.device_id all),
    )
