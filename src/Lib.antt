-- ===== src/Lib.antt =====
-- Industrial equipment monitoring platform: a verification library of the Python backend and simulator.
--
-- Devices publish temperature readings over MQTT; gateways collect them and post batches over HTTP.
-- backend/app validates a batch, stores its readings once each in PostgreSQL, follows the alert state of
-- each device, and serves histories, alert episodes and device status. It registers devices, and keeps
-- their accounts in the Mosquitto broker. simulator generates batches of events and posts or publishes
-- them as a gateway or a device would.
--
-- Parts and files
--   Prelude, Decimal      shared tests, lists, tables and texts; JSON decimals as mantissa and scale.
--   Db/Models             backend/app/db/models.py: the tables as one value, `Database`. Rows are
--                         records; primary keys are the keys of association lists.
--   Db/Types, Db/Seed     backend/app/db/types.py and backend/app/db/seed.py.
--   Core/GatewayAuth      backend/app/core/gateway_auth.py: the bearer tokens of the gateways.
--   Core/Settings         backend/app/core/config.py, and the engine's options of backend/app/db/session.py.
--   Core/Startup          the lifespan of backend/app/main.py. Core/Health is backend/app/core/health.py.
--   Telemetry/Schemas     backend/app/telemetry/schemas.py: events, items, responses and limits.
--   Telemetry/Repository  backend/app/telemetry/repository.py, and the presence and assignment queries
--                         of backend/app/devices/repository.py that ingestion uses.
--   Telemetry/Ingest      `ingest_batch` of backend/app/telemetry/service.py: one function per step of
--                         the loop. Its children: Sound is the invariant of the tables, Answers what one
--                         batch answers, Effect what one event does, Retry, Registry, Traffic and Resend
--                         what a batch does among others, Store an abstract store of readings, and
--                         Refinement that ingestion implements it.
--   Telemetry/Json        the JSON values that the body of a request decodes to.
--   Telemetry/Validation  backend/app/telemetry/validation.py over the fields of schemas.py: Item is
--                         `validate_telemetry_item`, Batch is `parse_telemetry_batch`.
--   Telemetry/Delivery    validation and ingestion one after the other, and a client that tries again.
--   Telemetry/History     `read_device_history` with its query and event time rule; its child Newest
--                         says what the newest rows are without the query, Points what is shown.
--   Telemetry/Router      the routes of backend/app/telemetry/router.py.
--   Alerts/Service        `evaluate_accepted_reading` of backend/app/alerts/service.py. Alerts/Invariant
--                         states when the alert tables agree, Alerts/References when their references
--                         hold; Debounce, Recovery and Evaluation prove what the rule does.
--   Alerts/Listing        `list_alert_episodes` of the same file; Alerts/Router its route.
--   Broker                `BrokerAdmin` of backend/app/integrations/mqtt.py from `_one` on, over a
--                         parameter that answers each command.
--   Broker/Exchange       one request and one login of the same class, over the callbacks of the MQTT
--                         library.
--   Devices/Registry      backend/app/devices/repository.py, heartbeats and ownership.
--   Devices/Credentials   backend/app/devices/credentials.py: the stored form of a password, which fills
--                         the interface `Credentials` of Devices/Registry.
--   Devices/Schemas       what a registration admits, of backend/app/devices/schemas.py.
--   Devices/Registration  register, remove and configure of backend/app/devices/service.py.
--   Devices/Status        the status list of backend/app/devices/service.py and its query.
--   Devices/Router        the routes of backend/app/devices/router.py.
--   System                the backend as a step relation: the requests that change the tables, in any
--                         order, and changes of the broker between them. Its children prove what holds
--                         in every state that is reached.
--   Simulator/Events      simulator/events.py: the schedule of a run's events and their batches;
--                         Simulator/Profile its temperature profiles.
--   Simulator/Run         `run_scenario` and `run_mqtt_scenario` of simulator/simulate.py.
--   Simulator/Client      `classify_response` of simulator/send_batch.py; its children join it to what
--                         the backend answers.
--   Simulator/Transport   simulator/mqtt_transport.py: message, target and publisher.
--   Simulator/Command     the target check and exit status of both commands; Simulator/Sending joins the
--                         classification to the counts of a run; its child Replies says which replies
--                         stand behind a clean run.
--   Simulator/Main        `main` of simulator/simulate.py: the checks of the arguments and the run.
--   Tests                 runs and witnesses at concrete tables, batches and brokers.
--
-- How code is read
--   A transaction is a function from the tables to the tables that it leaves. What raises inside of it
--   leaves the tables it started from; its commit is confirmed, is rolled back, or is written with its
--   confirmation lost, and in the last two cases the program sees the same exception. The exceptions of
--   the broker's client that no route expects are the error `crashed`. Row locks, logging and the SQL driver are not modelled: the
--   transactions of this library run one after another, which the row locks of the source are for.
--   Instants are natural numbers of microseconds from a fixed origin, and a difference that the source
--   takes between ordered instants is a difference of natural numbers.
--   Loops are structural recursion over the batch, the rows, the callbacks or the characters. Only the
--   slicing of a run's events into batches has fuel, as many turns as there are events, which is enough
--   since each turn takes one at least.
--
-- Parameters
--   `Server` gives PostgreSQL's clock and whether it can represent a value; `Commit` how a commit goes;
--   `Verdict` that, and whether a registration can be stored; a Boolean of a route whether the database
--   answers; `Broker` the broker's state and answers, with Mosquitto's documented behaviour in `Dynsec`; `Callback` what the
--   MQTT library calls back; `decode` the JSON library; `Instants` the pattern language's digits and the
--   reading of a timestamp of the right form; `Hashing` PBKDF2 and Python's `int`, which reads "310000";
--   `conninfo_to_dict` psycopg's reading of a URL and `urlsplit` Python's; `Floats` floating point;
--   `derive` the simulator's derived boot identifiers, and `Generator` these with the text of an instant
--   and the rounded temperature of an event.
--
-- Not modelled
--   JSON text, MQTT and SQL themselves; the texts of error details; orders by a collation of the
--   database; the pacing, noise and printed summary of a simulated run, and an
--   interruption between two updates of its counters; the bounds of 1 to 500 results and of the batch
--   identifier that the response model checks once more; the API document of
--   backend/app/telemetry/openapi.py, which no code reads; the migrations, whose constraints are those of
--   the tables; infra/mosquitto/provision.py, which sets file permissions and containers. The copies under
--   release_packages are of an older version. The firmware, the gateway and the frontend are written in
--   other languages.
pub mod Prelude
pub mod Decimal
pub mod Telemetry
pub mod Db
pub mod Alerts
pub mod Broker
pub mod Devices
pub mod Core
pub mod Simulator
pub mod System
mod Tests
