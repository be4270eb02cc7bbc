-- ===== src/Devices/Schemas.antt =====
-- devices/schemas.py: what a registration's fields admit.
pub mod Topic
use Prim.Native.Char.{code}
use industrial_equipment_mon.Prelude.{
  ℕ, String, Bool, true, false, ◌&&◌, ◌||◌, leb, nat_eq, if◌then◌else◌,
}
use industrial_equipment_mon.Core.{Reply, failure}
use industrial_equipment_mon.Core.GatewayAuth.{is_between}
use industrial_equipment_mon.Telemetry.Validation.{count}
use industrial_equipment_mon.Db.Models.{Database}
use industrial_equipment_mon.Broker
use industrial_equipment_mon.Broker.{Broker}
use industrial_equipment_mon.Devices.Registry.{Credentials}
use industrial_equipment_mon.Devices.Registration.{DeviceRegistration, Registered, Verdict, World}
use industrial_equipment_mon.Devices.Router.{post_device}

-- [A-Za-z0-9_-]
abbrev pub is_id_character : ℕ → Bool
is_id_character c =
    is_between 65 90 c || is_between 97 122 c || is_between 48 57 c || nat_eq c 95 || nat_eq c 45

abbrev pub are_id_characters : String → Bool
are_id_characters String.[] = true
are_id_characters (String.◌∷◌ c s) = is_id_character (code c) && are_id_characters s

abbrev pub has_length : ℕ → ℕ → String → Bool
has_length low high s = leb low (count s) && leb (count s) high

unfoldable pub is_registration : DeviceRegistration → Bool
is_registration r =
    has_length 1 128 r.device_id
    && are_id_characters r.device_id
    && has_length 1 128 r.gateway_id
    && has_length 1 200 r.name
    && has_length 12 128 r.password

-- FastAPI refuses a body that the model does not admit, before the route runs.
unfoldable pub post_registration :
    (b : Broker) (c : Credentials) (verdict : Verdict)
    → Database
    → DeviceRegistration
    → Broker.State b
    → Reply Registered × World b c verdict
unfolding is_registration
post_registration b c verdict db r s =
    if is_registration r
    then post_device b c verdict db r s
    else (failure 422 "validation_error", (db, s))
