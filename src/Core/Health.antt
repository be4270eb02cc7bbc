-- ===== src/Core/Health.antt =====
-- core/health.py: liveness, and readiness over the outcome of the database probe.
use industrial_equipment_mon.Core.{Reply, success, unhandled}

-- How `database_probe()` ends: it returns, raises psycopg's error, or raises another exception.
pub data Probe : Type 0 where
  answered database_error other_error : Probe

pub data Availability : Type 0 where
  available unavailable : Availability

-- `status` and `database`, which are "ready" and "ok", or both "unavailable".
pub record Readiness : Type 0 where
  pub status : Availability
  pub database : Availability

abbrev pub live : Reply (Unit {0})
live = success 200 tt

abbrev pub ready : Probe → Reply Readiness
ready answered = success 200 (record { status = available; database = available })
ready database_error = success 503 (record { status = unavailable; database = unavailable })
ready other_error = unhandled
