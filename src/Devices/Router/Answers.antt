-- ===== src/Devices/Router/Answers.antt =====
-- The answers of devices/router.py over the operations of devices/service.py.
use industrial_equipment_mon.Prelude.{ℕ, ◌≡◌, ◌≢◌, refl, sym, ◌∙◌, ◌⊎◌, inl, inr, true, arith}
use mathlib.Core.Path.{subst}
use industrial_equipment_mon.Core.{Reply, success, failure, status}
use industrial_equipment_mon.Db.Models.{Database}
use industrial_equipment_mon.Broker.{Broker, unavailable, conflict, crashed}
use industrial_equipment_mon.Devices.Registry.{Credentials}
use industrial_equipment_mon.Devices.Registration.{
  gateway_not_found, name_required, device_id_exists, device_not_found, device_has_history,
  invalid_device_credentials, database_failed, broker_failed, Registered, Outcome, done, raised,
  ServiceError, Verdict, World, register_device,
}
use industrial_equipment_mon.Devices.Registration.Atomic.{
  Settles, IsLate, IsWhole, Request, register, remove, configure, perform, forget, expected_of,
  perform-Settles,
}
use industrial_equipment_mon.Devices.Router.{
  registration_error, configuration_error, removal_error, reply_of, post_device,
  post_existing_device_mqtt, delete_device_route,
}

-- The error of a request, as its route answers it.
abbrev pub error_of : Request → ServiceError → Reply (Unit {0})
error_of (register r) = registration_error
error_of (remove device_id) = removal_error
error_of (configure device_id password) = configuration_error

abbrev pub code_of : Request → ℕ
code_of (register r) = 201
code_of (remove device_id) = 204
code_of (configure device_id password) = 204

abbrev pub without_body : {A W : Type 0} → Reply A × W → Reply (Unit {0}) × W
without_body (success code body, w) = (success code tt, w)
without_body (failure code reason, w) = (failure code reason, w)

-- The one error that the routes do not catch.
handled :
    (request : Request) (e : ServiceError)
    → expected_of request e ≡ true
    → (status (error_of request e) ≢ 500) ⊎ (e ≡ broker_failed crashed)
handled request (broker_failed crashed) h = inr refl
handled request (broker_failed unavailable) h = inl (ground arith)
handled request (broker_failed conflict) h = inl (ground arith)
handled request gateway_not_found h = inl (ground arith)
handled request name_required h = inl (ground arith)
handled request device_id_exists h = inl (ground arith)
handled request device_not_found h = inl (ground arith)
handled request device_has_history h = inl (ground arith)
handled request invalid_device_credentials h = inl (ground arith)
handled request database_failed h = inl (ground arith)

module _ (b : Broker) (c : Credentials) (verdict : Verdict) where
  -- The route of a request.
  abbrev pub serve : Request → Database → Broker.State b → Reply (Unit {0}) × World b c verdict
  serve (register r) db s = without_body (post_device b c verdict db r s)
  serve (remove device_id) db s = delete_device_route b c verdict db device_id s
  serve (configure device_id password) db s =
      post_existing_device_mqtt b c verdict db device_id password s

  abbrev pub replied :
      Request → Outcome (Unit {0}) × World b c verdict → Reply (Unit {0}) × World b c verdict
  replied request (outcome, w) = (reply_of (code_of request) (error_of request) outcome, w)

  without_body-reply :
      (m : Outcome Registered × World b c verdict)
      → without_body (reply_of 201 registration_error m.0, m.1)
        ≡ (reply_of 201 registration_error (forget b c verdict m).0, (forget b c verdict m).1)
  without_body-reply (done x, w) = refl
  without_body-reply (raised e, w) = ground arith

  pub serve-perform :
      (request : Request) (db : Database) (s : Broker.State b)
      → serve request db s ≡ replied request (perform b c verdict request db s)
  unfolding post_device delete_device_route post_existing_device_mqtt
  serve-perform (register r) db s = without_body-reply (register_device b c verdict db r s)
  serve-perform (remove device_id) db s = refl
  serve-perform (configure device_id password) db s = refl

  -- What an answer says, of the outcome that it answers.
  abbrev pub Serves :
      Request → Database → Outcome (Unit {0}) → Reply (Unit {0}) × World b c verdict → Type 0
  Serves request db outcome (reply, (db', s)) =
      (status reply ≡ code_of request)
      ⊎ ((e : ServiceError) × (outcome ≡ raised e)
          × ((db' ≡ db) ⊎ (IsLate verdict request e × IsWhole c request db db'))
          × ((status reply ≢ 500) ⊎ (e ≡ broker_failed crashed)))

  replied-Serves :
      (request : Request) (db : Database) (m : Outcome (Unit {0}) × World b c verdict)
      → Settles b c verdict request db m
      → Serves request db m.0 (replied request m)
  replied-Serves request db (done x, (db', s)) h = inl refl
  replied-Serves request db (raised e, (db', s)) h = inr (e, refl, h.0, handled request e h.1)

-- Registering, removing and configuring a device over HTTP: an answer has the status of success, or
-- answers an exception. Then the tables are as they were, or hold the whole change, which they do only
-- where the confirmation of the commit was lost or a removal crashed in its clean-up; and the route ends
-- in an unhandled exception only for one of another type than the code's own and the database's.
pub device_routes :
    (b : Broker) (c : Credentials) (verdict : Verdict) (request : Request) (db db' : Database)
    (s s' : Broker.State b) (reply : Reply (Unit {0}))
    → serve b c verdict request db s ≡ (reply, (db', s'))
    → (status reply ≡ code_of request)
      ⊎ ((e : ServiceError) × ((perform b c verdict request db s).0 ≡ raised e)
          × ((db' ≡ db) ⊎ (IsLate verdict request e × IsWhole c request db db'))
          × ((status reply ≢ 500) ⊎ (e ≡ broker_failed crashed)))
device_routes b c verdict request db db' s s' reply h =
    subst (Serves b c verdict request db (perform b c verdict request db s).0)
      (sym (serve-perform b c verdict request db s) ∙ h)
      (replied-Serves b c verdict request db (perform b c verdict request db s)
        (perform-Settles b c verdict request db s))
