-- ===== src/Devices/Router.antt =====
-- devices/router.py: the routes, and the answers of their errors. An error that a
-- route does not catch is an unhandled exception, which the server answers with status 500.
pub mod Answers
use industrial_equipment_mon.Prelude.{ℕ, String, Bool, Option, none, some, List, if◌then◌else◌}
use industrial_equipment_mon.Core.{Reply, success, failure, unhandled}
use industrial_equipment_mon.Db.Models.{settled, is_confirmed, Commit, Database}
use industrial_equipment_mon.Broker.{crashed, Broker, Error, unavailable, conflict}
use industrial_equipment_mon.Devices.Registry.{
  Credentials, record_heartbeat, GatewayOption, list_enabled_gateways,
}
use industrial_equipment_mon.Devices.Status.{DeviceStatus, list_device_status}
use industrial_equipment_mon.Devices.Registration.{
  DeviceRegistration, Registered, Outcome, done, raised, ServiceError, gateway_not_found,
  name_required, device_id_exists, device_not_found, device_has_history, invalid_device_credentials,
  database_failed, broker_failed, Verdict, World, register_device, remove_device,
  configure_existing_mqtt,
}

abbrev pub broker_reply : {A : Type 0} → String → Error → Reply A
broker_reply conflict_reason conflict = failure 409 conflict_reason
broker_reply conflict_reason unavailable = failure 503 "mqtt_broker_unavailable"
broker_reply conflict_reason crashed = unhandled

abbrev pub registration_error : {A : Type 0} → ServiceError → Reply A
registration_error gateway_not_found = failure 404 "gateway_not_found"
registration_error name_required = failure 422 "name_required"
registration_error device_id_exists = failure 409 "device_id_exists"
registration_error database_failed = failure 503 "registry_unavailable"
registration_error (broker_failed e) = broker_reply "mqtt_account_exists" e
registration_error _ = unhandled

abbrev pub configuration_error : {A : Type 0} → ServiceError → Reply A
configuration_error invalid_device_credentials = failure 401 "invalid_device_credentials"
configuration_error database_failed = failure 503 "registry_unavailable"
configuration_error (broker_failed e) = broker_reply "mqtt_account_exists" e
configuration_error _ = unhandled

abbrev pub removal_error : {A : Type 0} → ServiceError → Reply A
removal_error device_not_found = failure 404 "device_not_found"
removal_error device_has_history = failure 409 "device_has_history"
removal_error database_failed = failure 503 "registry_unavailable"
removal_error (broker_failed e) = broker_reply "mqtt_account_conflict" e
removal_error _ = unhandled

abbrev pub reply_of : {A : Type 0} → ℕ → (ServiceError → Reply A) → Outcome A → Reply A
reply_of code on_error (done body) = success code body
reply_of code on_error (raised e) = on_error e

module _ (b : Broker) (c : Credentials) (verdict : Verdict) where
  unfoldable pub post_device :
      Database → DeviceRegistration → Broker.State b → Reply Registered × World b c verdict
  post_device db registration s =
      let (outcome, world) = register_device b c verdict db registration s in
      (reply_of 201 registration_error outcome, world)

  unfoldable pub post_existing_device_mqtt :
      Database → String → String → Broker.State b → Reply (Unit {0}) × World b c verdict
  post_existing_device_mqtt db device_id password s =
      let (outcome, world) = configure_existing_mqtt b c verdict db device_id password s in
      (reply_of 204 configuration_error outcome, world)

  unfoldable pub delete_device_route :
      Database → String → Broker.State b → Reply (Unit {0}) × World b c verdict
  delete_device_route db device_id s =
      let (outcome, world) = remove_device b c verdict db device_id s in
      (reply_of 204 removal_error outcome, world)

abbrev pub heartbeat_reply : Commit → Database → Option Database → Reply (Unit {0}) × Database
heartbeat_reply commit db none = (failure 401 "invalid_device_credentials", db)
heartbeat_reply commit db (some db') =
    if is_confirmed commit
    then (success 204 tt, db')
    else (failure 503 "registry_unavailable", settled commit db db')

unfoldable pub post_heartbeat :
    Credentials → Verdict → Database → String → String → ℕ → Reply (Unit {0}) × Database
post_heartbeat c verdict db device_id password now =
    if verdict.storable
    then heartbeat_reply verdict.commit db (record_heartbeat c db device_id password now)
    else (failure 503 "registry_unavailable", db)

-- `available`: whether the database answers the query.
unfoldable pub get_gateways : Bool → Database → Reply (List GatewayOption)
get_gateways available db =
    if available
    then success 200 (list_enabled_gateways db db.gateways)
    else failure 503 "registry_unavailable"

unfoldable pub get_devices : Bool → Database → ℕ → Reply (List DeviceStatus)
get_devices available db now =
    if available
    then success 200 (list_device_status db now)
    else failure 503 "device_status_unavailable"
